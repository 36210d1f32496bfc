-- ===== src/Tests/States.antt =====
-- A small system of tasks, built up by the kernel's own moves.
use e_os_aarch64_hal.Base.{refl, [], ◌∷◌, arith, if◌then◌else◌, ◌==◌, eq-cases, inl, inr}
use e_os_aarch64_hal.NodeList.{Ptr, Heap}
use e_os_aarch64_hal.Bitmap.{Bitmap, init_scheduler}
use e_os_aarch64_hal.Bitmap.Ready.{init_scheduler-IsValid, is_ready-init_scheduler}
use e_os_aarch64_hal.Kernel.{Tcb, Kernel, update}
use e_os_aarch64_hal.Kernel.Lists.{Lists, Rep}
use e_os_aarch64_hal.Kernel.{enter_ready, set_status}
use e_os_aarch64_hal.Kernel.Queues.{appended}
use e_os_aarch64_hal.Task.{ready}
use e_os_aarch64_hal.Task.Ready.{make_ready-IsValid}
use e_os_aarch64_hal.Task.Invariant.{IsValid}

abbrev pub blank : Tcb
blank = record {
  status = 0;
  sp = 0;
  priority = 0;
  period = 0;
  wakeup_time = 0;
  wait_queue_owner = 0;
}

-- Task 1 runs at priority 9 with a period of 10, tasks 2 and 3 are suspended, at priorities 5 and 9.
abbrev pub three_tasks : Ptr → Tcb
three_tasks t =
    if t == 1
    then record blank { status = 2; priority = 9; period = 10; wakeup_time = 100 }
    else if t == 2
    then record blank { status = 4; priority = 5 }
    else if t == 3
    then record blank { status = 4; priority = 9; period = 10 }
    else blank

abbrev pub start_heap : Heap
start_heap = record {
  prev = λ _. 0;
  next = λ _. 0;
  pnode = λ n. if n == 2 then 1 else if n == 4 then 2 else if n == 6 then 3 else 0;
  order_val = λ n. if n == 2 then 9 else if n == 4 then 5 else if n == 6 then 9 else 0;
}

abbrev pub start_bitmap : Bitmap
start_bitmap = init_scheduler (record { ready_group = 0; ready_table = λ _. 0 })

abbrev pub start_state : Kernel
start_state = record {
  heap = start_heap;
  heads = λ _. 0;
  tcbs = three_tasks;
  alarms = λ _. record { timeout = 0; handler = 0; arg = 0 };
  ticks = λ _. 100;
  semaphores = λ _. record { count = 0; queue_type = 1 };
  conditions = λ _. 0;
  mqueues = λ _. record {
    queue_size = 0;
    msg_size = 0;
    queue_start = 0;
    front = 0;
    rear = 0;
    queue_type = 0;
  };
  bytes = λ _. 0;
  words = λ _. 0;
  bitmap = start_bitmap;
  scheduler_lock = 0;
  ready_queue_lock = 0;
  current_task = 1;
  daif = 0;
  frame = 4096;
  resumed = 0;
}

abbrev pub no_lists : Lists
no_lists q = []

pub start_state-IsValid : IsValid start_state no_lists
start_state-IsValid = record {
  queues = record {
    rep = record { ring = λ q. refl; apart = λ q r n i. cc; loose = λ n out. refl };
    bits = init_scheduler-IsValid _;
    agree = λ p hp. is_ready-init_scheduler _ p hp;
  };
  tasks = record {
    created = λ t ne. ground arith;
    member = λ q t i. cc;
    listed = λ t e. ground arith;
    nodes = λ p n hp i. cc;
    running = λ t e. ground arith;
  };
}

-- Task 3 waits in the queue of the semaphore at address 5.
abbrev pub waiting_state : Kernel
waiting_state = record start_state {
  heap = record start_heap {
    prev = λ a. if a == 6 then 6 else 0;
    next = λ a. if a == 6 then 6 else 0;
  };
  heads = λ q. if q == 81 then 6 else 0;
  tcbs = update three_tasks 3 (record blank { status = 3; priority = 9; wait_queue_owner = 81 });
}

abbrev pub waiting_lists : Lists
waiting_lists q = if q == 81 then 6 ∷ [] else []

waiting-Rep : Rep waiting_state.heap waiting_state.heads waiting_lists
waiting-Rep = record {
  ring = λ q. elim (eq-cases q 81) [
    | inl e ↦ rw e (refl, (refl, refl), (refl, tt), refl)
    | inr e ↦ rw e refl
  ];
  apart = λ q r n i j. ground arith;
  loose = λ n out. ground (arith, out 81);
}

pub waiting_state-IsValid : IsValid waiting_state waiting_lists
waiting_state-IsValid = record {
  queues = record {
    rep = waiting-Rep;
    bits = init_scheduler-IsValid _;
    agree = λ p hp.
        ground
          (arith, is_ready-init_scheduler (record { ready_group = 0; ready_table = λ _. 0 }) p hp);
  };
  tasks = record {
    created = λ t ne. ground arith;
    member = λ q t i. ground arith;
    listed = λ t e. ground arith;
    nodes = λ p n hp i. ground arith;
    running = λ t e. ground arith;
  };
}

-- Task 2 has become ready.
unfoldable pub one_ready : Kernel
one_ready = set_status 2 ready (enter_ready 5 2 start_state)

abbrev pub one_list : Lists
one_list = appended 6 4 no_lists

pub one_ready-IsValid : IsValid one_ready one_list
unfolding one_ready
one_ready-IsValid =
    make_ready-IsValid start_state no_lists start_state-IsValid 2 (omega arith) refl (omega arith)
      (λ q. refl)

-- Task 3 sleeps.
abbrev pub sleeping_state : Kernel
sleeping_state = record start_state {
  tcbs = update three_tasks 3 (record blank { status = 3; priority = 9; wait_queue_owner = 81 });
}

pub sleeping_state-IsValid : IsValid sleeping_state no_lists
sleeping_state-IsValid = record {
  queues = record {
    rep = record { ring = λ q. refl; apart = λ q r n i. cc; loose = λ n out. refl };
    bits = init_scheduler-IsValid _;
    agree = λ p hp. is_ready-init_scheduler _ p hp;
  };
  tasks = record {
    created = λ t ne. ground arith;
    member = λ q t i. cc;
    listed = λ t e. ground arith;
    nodes = λ p n hp i. cc;
    running = λ t e. ground arith;
  };
}

-- Task 3 waits in the queue of the semaphore at address 5, and behind it task 2.
abbrev pub held_state : Kernel
held_state = record start_state {
  heap = record start_heap {
    prev = λ a. if a == 4 then 6 else if a == 6 then 4 else 0;
    next = λ a. if a == 4 then 6 else if a == 6 then 4 else 0;
  };
  heads = λ q. if q == 81 then 6 else 0;
  tcbs =
      update
        (update three_tasks 2 (record blank { status = 3; priority = 5; wait_queue_owner = 81 })) 3
        (record blank { status = 3; priority = 9; wait_queue_owner = 81 });
}

abbrev pub held_lists : Lists
held_lists q = if q == 81 then 6 ∷ 4 ∷ [] else []

held-Rep : Rep held_state.heap held_state.heads held_lists
held-Rep = record {
  ring = λ q. elim (eq-cases q 81) [
    | inl e ↦ rw e (refl, ((refl, refl), (refl, refl)), (refl, (refl, tt)), refl)
    | inr e ↦ rw e refl
  ];
  apart = λ q r n i j. ground arith;
  loose = λ n out. ground (arith, out 81);
}

pub held_state-IsValid : IsValid held_state held_lists
held_state-IsValid = record {
  queues = record {
    rep = held-Rep;
    bits = init_scheduler-IsValid _;
    agree = λ p hp.
        ground
          (arith, is_ready-init_scheduler (record { ready_group = 0; ready_table = λ _. 0 }) p hp);
  };
  tasks = record {
    created = λ t ne. ground arith;
    member = λ q t i. ground arith;
    listed = λ t e. ground arith;
    nodes = λ p n hp i. ground arith;
    running = λ t e. ground arith;
  };
}

-- Task 3 waits in the queue of the semaphore at address 5, and its alarm is due at tick 101.
abbrev pub alarmed_state : Kernel
alarmed_state = record waiting_state {
  heap = record start_heap {
    prev = λ a. if a == 6 then 6 else if a == 7 then 7 else 0;
    next = λ a. if a == 6 then 6 else if a == 7 then 7 else 0;
    pnode = λ n.
        if n == 2 then 1 else if n == 4 then 2 else if n == 6 then 3 else if n == 7 then 3 else 0;
    order_val = λ n. if n == 7 then 101 else start_heap.order_val n;
  };
  heads = λ q. if q == 81 then 6 else if q == 68 then 7 else 0;
  alarms = λ a.
      if a == 3
      then record { timeout = 101; handler = 1; arg = 3 }
      else record { timeout = 0; handler = 0; arg = 0 };
}

abbrev pub alarmed_lists : Lists
alarmed_lists q = if q == 81 then 6 ∷ [] else if q == 68 then 7 ∷ [] else []

alarmed-Rep : Rep alarmed_state.heap alarmed_state.heads alarmed_lists
alarmed-Rep = record {
  ring = λ q. elim (eq-cases q 81) [
    | inl e ↦ rw e (refl, (refl, refl), (refl, tt), refl)
    | inr e ↦ elim (eq-cases q 68) [
      | inl e' ↦ rw e' (refl, (refl, refl), (refl, tt), refl)
      | inr e' ↦ rw (e, e') refl
    ]
  ];
  apart = λ q r n i j. ground arith;
  loose = λ n out. ground (arith, out 81, out 68);
}

pub alarmed_state-IsValid : IsValid alarmed_state alarmed_lists
alarmed_state-IsValid = record {
  queues = record {
    rep = alarmed-Rep;
    bits = init_scheduler-IsValid _;
    agree = λ p hp.
        ground
          (arith, is_ready-init_scheduler (record { ready_group = 0; ready_table = λ _. 0 }) p hp);
  };
  tasks = record {
    created = λ t ne. ground arith;
    member = λ q t i. ground arith;
    listed = λ t e. ground arith;
    nodes = λ p n hp i. ground arith;
    running = λ t e. ground arith;
  };
}
