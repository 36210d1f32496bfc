-- ===== src/Program/Sleepers.antt =====
-- The tasks of eos_aarch64/user/work_assignment3.c, which print a letter and sleep until their next
-- period, from reset on.
use e_os_aarch64_hal.Base.{
  ℕ, ◌≡◌, refl, sym, ◌≢◌, ◌∙◌, inl, inr, List, [], ◌∷◌, arith, ◌==◌, ◌||◌, Bool-cases,
  if◌then◌else◌,
}
use e_os_aarch64_hal.Base.Run.{Run, ok, ◌>>=◌}
use e_os_aarch64_hal.NodeList.{Ptr, null}
use e_os_aarch64_hal.Kernel.{Kernel, queue_node, ready_queue}
use e_os_aarch64_hal.Kernel.Lists.{Lists}
use e_os_aarch64_hal.Kernel.Queues.{appended}
use e_os_aarch64_hal.Task.{set_period}
use e_os_aarch64_hal.Timer.{sleep, timer_interrupt_handler}
use e_os_aarch64_hal.Calls.{Sound}
use e_os_aarch64_hal.Calls.Times.{sleep-Goes, tick-Goes}
use e_os_aarch64_hal.Start.{System, user_main3, os_init}
use e_os_aarch64_hal.Start.Setup.{create_task-Made, set_period-IsSetup}
use e_os_aarch64_hal.Start.Boot.{IsReset, only_idle, SetsUp, os_init-Sound}
use e_os_aarch64_hal.Start.User.{period-status}
use e_os_aarch64_hal.Program.{Layout, Event, tick, act, enough}
use e_os_aarch64_hal.Program.Bound.{OnlyFour, alarm-bound, OnlyFour-next}

-- `eos_sleep(0);` in the loops of the three tasks.
abbrev pub sleeper_step : ℕ → Kernel → Run Kernel
sleeper_step fuel k = sleep fuel 0 k

module _ (user_handler : ℕ → ℕ → Kernel → Run Kernel) (l : Layout) where
  -- A tick, or a round of the task that runs; the idle task does nothing.
  unfoldable pub sleepers_step : Event → Kernel → Run Kernel
  sleepers_step tick k = timer_interrupt_handler user_handler enough k
  sleepers_step act k =
      let task = k.current_task in
      if task == l.tcb1 || task == l.tcb2 || task == l.tcb3 then sleeper_step enough k else ok k

  unfoldable pub sleepers_run : List Event → Kernel → Run Kernel
  sleepers_run [] k = ok k
  sleepers_run (e ∷ es) k = sleepers_step e k >>= sleepers_run es

module _ (user_handler : ℕ → ℕ → Kernel → Run Kernel) (l : Layout) (i1 : l.tcb1 ≢ l.idle)
    (i2 : l.tcb2 ≢ l.idle) (i3 : l.tcb3 ≢ l.idle) where
  sleepers_step-Sound :
      (e : Event) (k : Kernel) (qs : Lists)
      → Sound l.idle k qs
      → OnlyFour l k
      → (a : Kernel) × (rs : Lists) × (sleepers_step user_handler l e k ≡ ok a)
        × Sound l.idle a rs
        × OnlyFour l a
  unfolding sleepers_step
  sleepers_step-Sound tick k qs sound four =
      let f = alarm-bound l k qs sound four in
      let (a, rs, returns, after, store) =
        tick-Goes user_handler l.idle k qs sound enough (omega arith) in
      (a, rs, returns, after, OnlyFour-next l k a store.none_new four)
  sleepers_step-Sound act k qs sound four =
      let task = k.current_task in
      let f = alarm-bound l k qs sound four in
      elim (Bool-cases (task == l.tcb1 || task == l.tcb2 || task == l.tcb3)) [
        | inr e ↦ rw e (k, qs, refl, sound, four)
        | inl e ↦
            let (a, rs, returns, after, store) =
              sleep-Goes l.idle k qs sound enough 0 (ground arith) (omega arith) in
            rw e (a, rs, returns, after, OnlyFour-next l k a store.none_new four)
      ]

  sleepers_run-Sound :
      (es : List Event) (k : Kernel) (qs : Lists)
      → Sound l.idle k qs
      → OnlyFour l k
      → (a : Kernel) × (rs : Lists) × (sleepers_run user_handler l es k ≡ ok a)
        × Sound l.idle a rs
        × OnlyFour l a
  unfolding sleepers_run
  sleepers_run-Sound [] k qs sound four = (k, qs, refl, sound, four)
  sleepers_run-Sound (e ∷ es) k qs sound four =
      let (a, rs, returns, after, still) = sleepers_step-Sound e k qs sound four in
      let (b, ts, rest, last, left) = sleepers_run-Sound es a rs after still in
      (b, ts, rw returns rest, last, left)

module _ (l : Layout) (stack1 stack2 stack3 task1 task2 task3 : Ptr) (n1 : l.tcb1 ≢ null)
    (n2 : l.tcb2 ≢ null) (n3 : l.tcb3 ≢ null) (s1 : stack1 ≢ null) (s2 : stack2 ≢ null)
    (s3 : stack3 ≢ null) (e1 : task1 ≢ null) (e2 : task2 ≢ null) (e3 : task3 ≢ null)
    (i1 : l.tcb1 ≢ l.idle) (i2 : l.tcb2 ≢ l.idle) (i3 : l.tcb3 ≢ l.idle) (d12 : l.tcb1 ≢ l.tcb2)
    (d13 : l.tcb1 ≢ l.tcb3) (d23 : l.tcb2 ≢ l.tcb3) where
  user_main3-SetsUp :
      SetsUp l.idle
        (user_main3 l.tcb1 l.tcb2 l.tcb3 stack1 stack2 stack3 task1 task2 task3)
        (appended (ready_queue 50) (queue_node l.tcb3) (
          appended
            (ready_queue 10)
            (queue_node l.tcb2)
            (appended (ready_queue 1) (queue_node l.tcb1) (only_idle l.idle))))
        (OnlyFour l)
  unfolding user_main3
  user_main3-SetsUp k setup unused =
      let qs0 = only_idle l.idle in
      let m1 =
        create_task-Made l.idle k qs0 setup l.tcb1 stack1 8096 task1 null 1 (unused l.tcb1 i1) n1 e1
          s1 (omega arith) (omega arith) in
      let qs1 = appended (ready_queue 1) (queue_node l.tcb1) qs0 in
      let k1 = set_period l.tcb1 2 m1.state in
      let p1 = set_period-IsSetup l.idle m1.state qs1 m1.setup l.tcb1 2 in
      let u2 : (k1.tcbs l.tcb2).status ≡ 0 =
        period-status m1.state l.tcb1 2 l.tcb2
        ∙ rw (m1.others l.tcb2 (λ e. d12 (sym e))) (unused l.tcb2 i2) in
      let m2 =
        create_task-Made l.idle k1 qs1 p1 l.tcb2 stack2 8096 task2 null 10 u2 n2 e2 s2 (omega arith)
          (omega arith) in
      let qs2 = appended (ready_queue 10) (queue_node l.tcb2) qs1 in
      let k2 = set_period l.tcb2 4 m2.state in
      let p2 = set_period-IsSetup l.idle m2.state qs2 m2.setup l.tcb2 4 in
      let later : (t : Ptr) → t ≢ l.idle → t ≢ l.tcb1 → t ≢ l.tcb2 → (k2.tcbs t).status ≡ 0 =
        λ t ni d1 d2.
          period-status m2.state l.tcb2 4 t
          ∙ rw (m2.others t d2)
              (period-status m1.state l.tcb1 2 t ∙ rw (m1.others t d1) (unused t ni)) in
      let m3 =
        create_task-Made l.idle k2 qs2 p2 l.tcb3 stack3 8096 task3 null 50
          (later l.tcb3 i3 (λ e. d13 (sym e)) (λ e. d23 (sym e))) n3 e3 s3 (omega arith)
          (omega arith) in
      let qs3 = appended (ready_queue 50) (queue_node l.tcb3) qs2 in
      (
        set_period l.tcb3 8 m3.state,
        rw (m1.returns, m2.returns, m3.returns) refl,
        set_period-IsSetup l.idle m3.state qs3 m3.setup l.tcb3 8,
        λ t ni d1 d2 d3. period-status m3.state l.tcb3 8 t ∙ rw (m3.others t d3) (later t ni d1 d2),
      )

  -- With the idle task and the three tasks each at a TCB of its own, with a stack and an entry other
  -- than NULL: from the reset state `_os_init` gets through, and then whatever ticks and rounds of the
  -- tasks follow each other, each returns and leaves the system sound; no other task comes into use.
  pub os_init-sleepers :
      (answer : ℕ → ℕ → ℕ) (tick_hz freq : ℕ) (user_handler : ℕ → ℕ → Kernel → Run Kernel)
      (s : System)
      → IsReset s.kernel
      → (stack entry : Ptr) → l.idle ≢ null
      → stack ≢ null
      → entry ≢ null
      → (events : List Event)
      → let user = user_main3 l.tcb1 l.tcb2 l.tcb3 stack1 stack2 stack3 task1 task2 task3 in
        (a : System) × (b : Kernel) × (rs : Lists) × (os_init l.idle stack entry user answer tick_hz
            freq s
          ≡ ok a)
        × (sleepers_run user_handler l events a.kernel ≡ ok b)
        × Sound l.idle b rs
        × OnlyFour l b
  os_init-sleepers answer tick_hz freq user_handler s r stack entry ni ns ne events =
      let user = user_main3 l.tcb1 l.tcb2 l.tcb3 stack1 stack2 stack3 task1 task2 task3 in
      let (a, returns, k, t, same, nobody, stays, k2, unused, after, store, sound) =
        os_init-Sound answer tick_hz freq s r l.idle stack entry ni ns ne user _ (OnlyFour l)
          user_main3-SetsUp in
      let four : OnlyFour l a.kernel =
        λ u z0 z1 z2 z3. store.none_new u (rw after (unused u z0 z1 z2 z3)) in
      let (b, rs, goes, last, left) =
        sleepers_run-Sound user_handler l i1 i2 i3 events a.kernel _ sound four in
      (a, b, rs, returns, goes, last, left)
