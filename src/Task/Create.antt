-- ===== src/Task/Create.antt =====
-- `eos_create_task` of eos_aarch64/core/task.c.
use e_os_aarch64_hal.Base.{
  ℕ, ◌+◌, ◌-◌, ◌*◌, ◌/◌, ◌%◌, ◌^◌, ◌≤◌, ◌<◌, ◌≡◌, refl, ap, subst, ◌≢◌, ◌∙◌, true, false, [], ◌∷◌,
  arith, ◌∈◌, ◌∉◌, ◌==◌, ltb, ◌||◌, eq-cases, has-append, bit_or,
}
use e_os_aarch64_hal.Base.Run.{Run, ok, ◌>>=◌}
use e_os_aarch64_hal.NodeList.{Ptr, null, write}
use e_os_aarch64_hal.Bitmap.{lowest_priority}
use e_os_aarch64_hal.Hal.Context.{ctx_size, create_context}
use e_os_aarch64_hal.Hal.Context.Frame.{Starts, create_context-Starts, create_context-address}
use e_os_aarch64_hal.Kernel.{
  Tcb, Kernel, update, queue_node, alarm_node, ready_queue, enter_ready, set_status, locked,
  lock_sync, unlock_sync, spin_lock, spin_unlock,
}
use e_os_aarch64_hal.Kernel.Lists.{Lists}
use e_os_aarch64_hal.Kernel.Queues.{appended, enter_ready-SameTasks, enter_ready-SameNodes}
use e_os_aarch64_hal.Task.{ready, min_stack_size, schedule, create_task}
use e_os_aarch64_hal.Task.Invariant.{Tasks, IsValid, Queues-same, Queues-links}
use e_os_aarch64_hal.Task.Ready.{make_ready-IsValid}
use e_os_aarch64_hal.Task.Live.{Kept}
use e_os_aarch64_hal.Task.Schedule.{Scheduled, yielded, schedule-Scheduled, schedule-locked}

-- A TCB that was not in use is filled in.
Tasks-fresh :
    (tcbs : Ptr → Tcb) (pnode : Ptr → ℕ) (current : Ptr) (qs : Lists) (t : Ptr) (u : Tcb)
    → Tasks tcbs pnode current qs
    → ((q : Ptr) → queue_node t ∉ qs q)
    → u.status ≡ 0
    → Tasks (update tcbs t u) (write pnode (queue_node t) t) current qs
Tasks-fresh tcbs pnode current qs t u v out s = record {
  created = λ a ne. ground (arith, v.created a, eq-cases t a);
  member = λ r a i. ground (arith, v.member r a, eq-cases t a, out r);
  listed = λ a e. ground (arith, v.listed a, eq-cases t a);
  nodes = λ p n hp i. ground (arith, v.nodes p n, out (ready_queue p));
  running = λ a e. ground (arith, v.running a, eq-cases t a);
}

-- The state in which the new task enters its ready queue.
abbrev pub filled : Kernel → (task start size entry arg priority : ℕ) → Kernel
filled k task start size entry arg priority =
    let (ctx, words) = create_context start size entry arg k.words in
    let node = queue_node task in
    let old = k.tcbs task in
    let fresh : Tcb = record old { sp = ctx; priority = priority; period = 0; wakeup_time = 0 } in
    record k {
      heap = record k.heap {
        pnode = write k.heap.pnode node task;
        order_val = write k.heap.order_val node priority;
      };
      words = words;
      tcbs = update k.tcbs task fresh;
      daif = bit_or k.daif 0x80;
      ready_queue_lock = 1;
    }

module _ (k : Kernel) (qs : Lists) (v : IsValid k qs) (task : Ptr)
    (out : (q : Ptr) → queue_node task ∉ qs q) (unused : (k.tcbs task).status ≡ 0) where
  filled-IsValid :
      (start size entry arg priority : ℕ) → IsValid (filled k task start size entry arg priority) qs
  filled-IsValid start size entry arg priority =
      let k1 = filled k task start size entry arg priority in
      record {
        queues = Queues-links k k1 qs refl refl refl refl v.queues;
        tasks = Tasks-fresh k.tcbs k.heap.pnode k.current_task qs task _ v.tasks out unused;
      }

  -- The state in which `eos_create_task` schedules.
  pub record Makes (start size entry arg priority : ℕ) : Type 0 where
    pub state : Kernel
    pub valid : IsValid state (appended (ready_queue priority) (queue_node task) qs)
    pub status : (state.tcbs task).status ≡ ready
    pub priority_set : (state.tcbs task).priority ≡ priority
    pub sp : (state.tcbs task).sp ≡ ((start + size) % 2 ^ 64 / 16 * 16 + 2 ^ 64 - ctx_size) % 2 ^ 64
    pub starts :
        Starts state.words (state.tcbs task).sp ((start + size) % 2 ^ 64 / 16 * 16) entry arg
    pub others : (u : Ptr) → u ≢ task → state.tcbs u ≡ k.tcbs u
    pub current : state.current_task ≡ k.current_task
    pub kept : Kept k state
    pub runs :
        create_task task start size entry arg priority k ≡ (schedule state >>= λ k6. ok (0, k6))

  pub create_task-Makes :
      (start size entry arg priority : ℕ)
      → task ≢ null
      → entry ≢ null
      → start ≢ null
      → 1024 ≤ size
      → priority < 64
      → k.ready_queue_lock ≡ 0
      → Makes start size entry arg priority
  unfolding create_task lock_sync unlock_sync spin_lock spin_unlock enter_ready
  create_task-Makes start size entry arg priority nt ne ns big hp free =
      let k1 = filled k task start size entry arg priority in
      let lists = appended (ready_queue priority) (queue_node task) qs in
      let p = (k1.tcbs task).priority in
      let e : p ≡ priority = ground arith in
      let v1 = filled-IsValid start size entry arg priority in
      let made = make_ready-IsValid k1 qs v1 task (rw e hp) (ground arith) nt out in
      let k3 = enter_ready p task k1 in
      let same = enter_ready-SameTasks p task k1 in
      let nodes = enter_ready-SameNodes k1 qs v1.queues p task in
      let w = set_status task ready (unlock_sync k.daif k3) in
      let v2 =
        subst
          (λ r. IsValid (set_status task ready k3) (appended (ready_queue r) (queue_node task) qs))
          e made in
      let g1 : (task == null || entry == null) ≡ false = ground arith in
      let g2 : ltb lowest_priority priority ≡ false = ground arith in
      let g3 : (start == null || ltb size min_stack_size) ≡ false = ground arith in
      let unheld : (k.ready_queue_lock == 0) ≡ true = ground arith in
      let words = create_context start size entry arg k.words in
      let memory : w.words ≡ words.1 = refl in
      let place : (w.tcbs task).sp ≡ words.0 = ground arith in
      record {
        state = w;
        valid = record {
          queues = Queues-same (set_status task ready k3) w lists refl refl refl v2.queues;
          tasks = v2.tasks;
        };
        status = ground arith;
        priority_set = ground arith;
        sp = place ∙ create_context-address start size entry arg k.words;
        starts = rw (memory, place) (create_context-Starts start size entry arg k.words);
        others = λ u ne. ground (arith, same.tcbs, eq-cases task u);
        current = same.current_task;
        kept = record {
          scheduler_lock = same.scheduler_lock;
          ready_queue_lock = ground arith;
          frame = same.frame;
          alarms = refl;
          semaphores = refl;
          mqueues = refl;
          bytes = refl;
          pnode = λ t. ground (arith, nodes.pnode (alarm_node t));
          order_val = λ t. ground (arith, nodes.order_val (alarm_node t));
        };
        runs = rw (g1, g2, g3, unheld) refl;
      }

  -- With the scheduler open and the lock of the ready queues free, a TCB that is not in use and in no
  -- list, an entry, a priority up to 63 and a stack of 1024 bytes and more make a new task, which is
  -- ready at the end of the queue of its priority; its context, below the end of its stack rounded down to a multiple of 16, starts it at
  -- the entry with the argument; no other task changes and the locks are left as they were; then the
  -- processor goes to the task that is due, and the call returns 0.
  pub create_task-Scheduled :
      (start size entry arg priority : ℕ)
      → task ≢ null
      → entry ≢ null
      → start ≢ null
      → 1024 ≤ size
      → priority < 64
      → k.ready_queue_lock ≡ 0
      → k.scheduler_lock ≢ locked
      → (k.current_task ≢ null → k.frame ≢ null)
      → (m : Makes start size entry arg priority) × (s : Scheduled m.state
          (appended (ready_queue priority) (queue_node task) qs)
          (schedule m.state))
        × (create_task task start size entry arg priority k ≡ ok (0, s.after))
  create_task-Scheduled start size entry arg priority nt ne ns big hp free open_lock fr =
      let m = create_task-Makes start size entry arg priority nt ne ns big hp free in
      let w = m.state in
      let lists = appended (ready_queue priority) (queue_node task) qs in
      let here : queue_node task ∈ lists (ready_queue priority) =
        ground (
          arith,
          has-append (queue_node task) (qs (ready_queue priority)) (queue_node task ∷ []),
        ) in
      let sched : w.scheduler_lock ≢ locked = rw m.kept.scheduler_lock open_lock in
      let saved : w.current_task ≢ null → w.frame ≢ null = rw (m.current, m.kept.frame) fr in
      let goes = later w lists priority (queue_node task) here in
      let s = schedule-Scheduled w lists priority (queue_node task) m.valid sched saved hp goes in
      let answer : Run Kernel → Run (ℕ × Kernel) = λ r. r >>= λ k6. ok (0, k6) in
      (m, s, m.runs ∙ ap answer s.returns)
    where
      later :
          (w : Kernel) (lists : Lists) (p n : ℕ)
          → n ∈ lists (ready_queue p)
          → n ∈ yielded w lists (ready_queue p)
      later w lists p n i =
          ground (arith, has-append n (lists (ready_queue p)) (queue_node w.current_task ∷ []))

  -- While the scheduler is locked the new task stays ready, and no task is switched to.
  pub create_task-locked :
      (start size entry arg priority : ℕ)
      → task ≢ null
      → entry ≢ null
      → start ≢ null
      → 1024 ≤ size
      → priority < 64
      → k.ready_queue_lock ≡ 0
      → k.scheduler_lock ≡ locked
      → (m : Makes start size entry arg priority) × (create_task task start size entry arg priority
            k
          ≡ ok (0, m.state))
  create_task-locked start size entry arg priority nt ne ns big hp free shut =
      let m = create_task-Makes start size entry arg priority nt ne ns big hp free in
      let answer : Run Kernel → Run (ℕ × Kernel) = λ r. r >>= λ k6. ok (0, k6) in
      (m, m.runs ∙ ap answer (schedule-locked m.state (m.kept.scheduler_lock ∙ shut)))
