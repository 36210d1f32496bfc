-- ===== src/Start/User.antt =====
-- The start of the system with the tasks of eos_aarch64/user/work_assignment4.c.
use e_os_aarch64_hal.Base.{
  ℕ, ◌≤◌, ◌≡◌, refl, sym, ap, ◌≢◌, ◌∙◌, inl, inr, List, [], ◌∷◌, arith, ◌==◌, ◌||◌, eq-cases,
  Bool-cases,
}
use e_os_aarch64_hal.Base.Run.{ok}
use e_os_aarch64_hal.NodeList.{Ptr, null}
use e_os_aarch64_hal.Kernel.{Kernel, update, queue_node, ready_queue, alarm_queue, system_timer}
use e_os_aarch64_hal.Kernel.Lists.{Lists}
use e_os_aarch64_hal.Kernel.Queues.{appended}
use e_os_aarch64_hal.Task.Invariant.{Queues-same}
use e_os_aarch64_hal.Task.{schedule, set_period}
use e_os_aarch64_hal.Task.Schedule.{yielded}
use e_os_aarch64_hal.Task.Live.{dispatched}
use e_os_aarch64_hal.Calls.{Sound}
use e_os_aarch64_hal.Comm.{init_mqueue, put_semaphore, get_semaphore}
use e_os_aarch64_hal.Sync.{init_semaphore}
use e_os_aarch64_hal.Start.{System, by_priority, user_main, os_init}
use e_os_aarch64_hal.Start.Setup.{
  IsSetup, create_task-Made, set_period-IsSetup, init_semaphore-IsSetup,
}
use e_os_aarch64_hal.Start.Boot.{IsReset, only_idle, SetsUp, os_init-Sound}

init_mqueue-IsSetup :
    (idle : Ptr) (k : Kernel) (qs : Lists)
    → IsSetup idle k qs
    → (mq start size msg_size queue_type : ℕ)
    → IsSetup idle (init_mqueue mq start size msg_size queue_type k) qs
unfolding init_mqueue
init_mqueue-IsSetup idle k qs s mq start size msg_size queue_type =
    elim (Bool-cases (mq == null || start == null || size == 0 || msg_size == 0)) [
      | inl e ↦ rw e s
      | inr e ↦
          let k1 = record k {
            mqueues = update k.mqueues mq (record {
              queue_size = size;
              msg_size = msg_size;
              queue_start = start;
              front = 0;
              rear = 0;
              queue_type = queue_type;
            });
          } in
          let s1 : IsSetup idle k1 qs = record {
            valid = record {
              queues = Queues-same k k1 qs refl refl refl s.valid.queues;
              tasks = s.valid.tasks;
            };
            shut = s.shut;
            free = s.free;
            saved = s.saved;
            nobody = s.nobody;
            idles = s.idles;
            quiet = s.quiet;
            no_alarms = s.no_alarms;
          } in
          let k2 = init_semaphore (put_semaphore mq) size queue_type k1 in
          let s2 = init_semaphore-IsSetup idle k1 qs s1 (put_semaphore mq) size queue_type in
          rw e (init_semaphore-IsSetup idle k2 qs s2 (get_semaphore mq) 0 queue_type)
    ]

init_mqueue-tcbs :
    (k : Kernel) (mq start size msg_size queue_type : ℕ)
    → (init_mqueue mq start size msg_size queue_type k).tcbs ≡ k.tcbs
unfolding init_mqueue init_semaphore
init_mqueue-tcbs k mq start size msg_size queue_type = ground arith

pub period-status :
    (k : Kernel) (t p u : ℕ) → ((set_period t p k).tcbs u).status ≡ (k.tcbs u).status
unfolding set_period
period-status k t p u = ground (arith, eq-cases t u)

-- The tasks in their queues, behind the idle task's.
abbrev pub three_ready : (idle tcb1 tcb2 tcb3 : Ptr) → Lists
three_ready idle tcb1 tcb2 tcb3 = appended (ready_queue 10) (queue_node tcb3) (
    appended (ready_queue 20) (queue_node tcb2)
      (appended (ready_queue 50) (queue_node tcb1) (only_idle idle)))

-- At the end the two queues are new, and no other task is in use.
abbrev pub Prepared : (idle tcb1 tcb2 tcb3 mq1 mq2 queue1 queue2 : Ptr) → Kernel → Type 0
Prepared idle tcb1 tcb2 tcb3 mq1 mq2 queue1 queue2 k =
    (k4 : Kernel) × (k
      ≡ init_mqueue mq2 queue2 5 2 by_priority (init_mqueue mq1 queue1 5 2 by_priority k4))
    × ((t : Ptr) → t ≢ idle → t ≢ tcb1 → t ≢ tcb2 → t ≢ tcb3 → (k.tcbs t).status ≡ 0)

module _ (idle tcb1 tcb2 tcb3 stack1 stack2 stack3 task1 task2 task3 : Ptr)
    (mq1 mq2 queue1 queue2 : Ptr) (n1 : tcb1 ≢ null) (n2 : tcb2 ≢ null) (n3 : tcb3 ≢ null)
    (s1 : stack1 ≢ null) (s2 : stack2 ≢ null) (s3 : stack3 ≢ null) (e1 : task1 ≢ null)
    (e2 : task2 ≢ null) (e3 : task3 ≢ null) (i1 : tcb1 ≢ idle) (i2 : tcb2 ≢ idle) (i3 : tcb3 ≢ idle)
    (d12 : tcb1 ≢ tcb2) (d13 : tcb1 ≢ tcb3) (d23 : tcb2 ≢ tcb3) where
  pub user_main-SetsUp :
      SetsUp idle
        (user_main tcb1 tcb2 tcb3 stack1 stack2 stack3 task1 task2 task3 mq1 mq2 queue1 queue2)
        (three_ready idle tcb1 tcb2 tcb3)
        (Prepared idle tcb1 tcb2 tcb3 mq1 mq2 queue1 queue2)
  unfolding user_main
  user_main-SetsUp k setup unused =
      let qs0 = only_idle idle in
      let m1 =
        create_task-Made idle k qs0 setup tcb1 stack1 8096 task1 null 50 (unused tcb1 i1) n1 e1 s1
          (omega arith) (omega arith) in
      let qs1 = appended (ready_queue 50) (queue_node tcb1) qs0 in
      let u2 : (m1.state.tcbs tcb2).status ≡ 0 =
        rw (m1.others tcb2 (λ e. d12 (sym e))) (unused tcb2 i2) in
      let m2 =
        create_task-Made idle m1.state qs1 m1.setup tcb2 stack2 8096 task2 null 20 u2 n2 e2 s2
          (omega arith) (omega arith) in
      let qs2 = appended (ready_queue 20) (queue_node tcb2) qs1 in
      let u3 : (m2.state.tcbs tcb3).status ≡ 0 =
        rw (m2.others tcb3 (λ e. d23 (sym e)), m1.others tcb3 (λ e. d13 (sym e)))
          (unused tcb3 i3) in
      let m3 =
        create_task-Made idle m2.state qs2 m2.setup tcb3 stack3 8096 task3 null 10 u3 n3 e3 s3
          (omega arith) (omega arith) in
      let qs3 = three_ready idle tcb1 tcb2 tcb3 in
      let p1 = set_period-IsSetup idle m3.state qs3 m3.setup tcb1 2 in
      let p2 = set_period-IsSetup idle _ qs3 p1 tcb2 4 in
      let p3 = set_period-IsSetup idle _ qs3 p2 tcb3 6 in
      let q1 = init_mqueue-IsSetup idle _ qs3 p3 mq1 queue1 5 2 1 in
      let q2 = init_mqueue-IsSetup idle _ qs3 q1 mq2 queue2 5 2 1 in
      let k3 = m3.state in
      let k4 = set_period tcb3 6 (set_period tcb2 4 (set_period tcb1 2 k3)) in
      let j1 = init_mqueue mq1 queue1 5 2 by_priority k4 in
      let j2 = init_mqueue mq2 queue2 5 2 by_priority j1 in
      let tcbs : j2.tcbs ≡ k4.tcbs =
        init_mqueue-tcbs j1 mq2 queue2 5 2 by_priority
        ∙ init_mqueue-tcbs k4 mq1 queue1 5 2 by_priority in
      let status : (t : Ptr) → (k4.tcbs t).status ≡ (k3.tcbs t).status = λ t.
        period-status (set_period tcb2 4 (set_period tcb1 2 k3)) tcb3 6 t
        ∙ period-status (set_period tcb1 2 k3) tcb2 4 t
        ∙ period-status k3 tcb1 2 t in
      (
        _,
        rw (m1.returns, m2.returns, m3.returns) refl,
        q2,
        (
          k4,
          refl,
          λ t ni d1 d2 d3.
              rw (tcbs, status t, m3.others t d3, m2.others t d2, m1.others t d1) (unused t ni),
        ),
      )

  -- No queue before that of the third task has a task.
  least_first :
      (task p : ℕ) (rest : List Ptr)
      → three_ready idle tcb1 tcb2 tcb3 (ready_queue p) ≡ queue_node task ∷ rest
      → p ≤ 10
      → task ≡ tcb3
  least_first task p rest first le = ground (arith, first, eq-cases p 10)

  -- From the reset state, and with the idle task and the three tasks of the program each at a TCB of its
  -- own, with a stack and an entry other than NULL: `_os_init` gets through and the third task, whose
  -- priority number is the least, runs first; the system
  -- is sound, and no alarm is in the queue of the system timer.
  pub os_init-user_main :
      (answer : ℕ → ℕ → ℕ) (tick_hz freq : ℕ) (s : System)
      → IsReset s.kernel
      → (stack entry : Ptr) → idle ≢ null
      → stack ≢ null
      → entry ≢ null
      → let user =
          user_main tcb1 tcb2 tcb3 stack1 stack2 stack3 task1 task2 task3 mq1 mq2 queue1 queue2 in
        (a : System) × (qs : Lists) × (os_init idle stack entry user answer tick_hz freq s ≡ ok a)
        × (a.kernel.current_task ≡ tcb3)
        × (qs (alarm_queue system_timer) ≡ [])
        × Sound idle a.kernel qs
  os_init-user_main answer tick_hz freq s r stack entry ni ns ne =
      let qs = three_ready idle tcb1 tcb2 tcb3 in
      let user =
        user_main tcb1 tcb2 tcb3 stack1 stack2 stack3 task1 task2 task3 mq1 mq2 queue1 queue2 in
      let (a, returns, k, t, same, nobody, stays, k2, prepared, after, store, live) =
        os_init-Sound answer tick_hz freq s r idle stack entry ni ns ne user qs
          (Prepared idle tcb1 tcb2 tcb3 mq1 mq2 queue1 queue2) user_main-SetsUp in
      let silent : yielded k qs (alarm_queue system_timer) ≡ [] = rw stays refl in
      (
        a,
        dispatched k qs (schedule k) t,
        returns,
        rw (same, t.current)
            (least_first t.task (k.tcbs t.task).priority t.rest
              (sym (ap (λ (l : Lists). l (ready_queue (k.tcbs t.task).priority)) stays) ∙ t.first)
              (t.least 10 (queue_node tcb3) (omega arith) (rw stays (ground arith)))),
        ground (arith, t.in_range, silent),
        live,
      )
