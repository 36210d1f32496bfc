-- ===== src/Calls/Times.antt =====
-- `eos_sleep` and the tick of the system timer return, and leave the system sound.
use e_os_aarch64_hal.Base.{
  ℕ, ◌+◌, ◌-◌, ◌%◌, ◌^◌, ◌≤◌, ◌<◌, ◌≡◌, refl, sym, subst, ◌≢◌, ◌∙◌, inl, inr, false, arith, ◌∈◌,
  ◌∉◌, ◌==◌, ◌||◌, ◌&&◌, not, leb, eq-cases, Bool-cases, has, has-erase, erase, length,
}
use e_os_aarch64_hal.Base.Run.{Run}
use e_os_aarch64_hal.NodeList.{Ptr, null}
use e_os_aarch64_hal.NodeList.Ordered.{has-insert}
use e_os_aarch64_hal.Kernel.{
  Kernel, queue_node, alarm_node, alarm_queue, ready_queue, system_timer, set_status, locked,
}
use e_os_aarch64_hal.Kernel.Lists.{Lists}
use e_os_aarch64_hal.Task.{ready, running, waiting}
use e_os_aarch64_hal.Task.Invariant.{unlisted}
use e_os_aarch64_hal.Task.Moves.{schedule-running}
use e_os_aarch64_hal.Task.Schedule.{yielded, schedule-Scheduled}
use e_os_aarch64_hal.Task.Live.{Kept-refl, IsLive}
use e_os_aarch64_hal.Timer.{
  sleep, sleep_for, sleep_period, timer_interrupt_handler, trigger_counter, set_alarm,
  wakeup_handler,
}
use e_os_aarch64_hal.Timer.Alarms.{Armed}
use e_os_aarch64_hal.Timer.Sleep.{armed_lists, released, idle-IsValid, sleep_for-Scheduled}
use e_os_aarch64_hal.Calls.Semaphores.{no_alarm}
use e_os_aarch64_hal.Timer.Sleepers.{IsTimed, Beside}
use e_os_aarch64_hal.Timer.Pass.{expire-Passed}
use e_os_aarch64_hal.Timer.Tick.{ticked, ticked-IsValid}
use e_os_aarch64_hal.Calls.{Goes, SameStore, Sound}
use e_os_aarch64_hal.Calls.Keep.{SameAlarms-Kept, Kept-tcbs}
use e_os_aarch64_hal.Calls.Switch.{
  Goes-trans, Kept-SameStore, Sound-tcbs, switched, switched_from, idle-cases,
}

module _ (idle : Ptr) (k : Kernel) (qs : Lists) (sound : Sound idle k qs) where
  -- The task that has set its alarm sleeps with the others.
  after_alarm-IsTimed :
      (timeout : ℕ) (r : Run Kernel)
      → let t = k.current_task in
        (a : Armed k qs system_timer t timeout wakeup_handler t r)
        → IsTimed (set_status t waiting a.state) (armed_lists a.state qs system_timer t)
  after_alarm-IsTimed timeout r a =
      let (live, timed) = sound in
      let t = k.current_task in
      let q = alarm_queue system_timer in
      let w = set_status t waiting a.state in
      let lists = armed_lists a.state qs system_timer t in
      let made = live.valid.tasks.created t (ground (arith, live.runs)) in
      let out =
        unlisted k.tcbs k.heap.pnode t qs live.valid.tasks t (ground (arith, live.runs))
          (ground (arith, live.runs)) in
      let nodes : (n : Ptr)
          → has n (lists q) ≡ (n == alarm_node t || has n (erase (alarm_node t) (qs q))) =
        λ n. ground (
          arith,
          has-insert a.state.heap.order_val n (alarm_node t) (erase (alarm_node t) (qs q)),
        ) in
      let fewer = λ (n : Ptr). has-erase n (alarm_node t) (qs q) in
      let clear : (u r : Ptr) → queue_node u ∉ qs r → queue_node u ∉ lists r =
        λ u r e. ground (arith, nodes (queue_node u), fewer (queue_node u), eq-cases q r) in
      record {
        homes = λ u r i. ground (arith, timed.homes u r, eq-cases q r);
        sleepers = λ n i. elim (eq-cases n (alarm_node t)) [
          | inl e ↦
              let status : (w.tcbs t).status ≡ waiting = ground arith in
              let alarm : w.alarms t ≡ record {
                timeout = w.heap.order_val (alarm_node t);
                handler = wakeup_handler;
                arg = t;
              } =
                rw a.due a.armed in
              rw (e, a.back) (refl, made.2, alarm, (status, λ r. clear t r (out r)))
          | inr e ↦
              let s = timed.sleepers n (ground (arith, nodes n, fewer n)) in
              let u = k.heap.pnode n in
              let other : u ≢ t = λ same. absurd (ground (arith, same, s.3.0, live.runs)) in
              let task : (w.tcbs u).status ≡ waiting = ground (arith, a.same.tcbs, s.3.0) in
              let (alarm, node, time) = a.others u other in
              let at : w.heap.pnode n ≡ u =
                subst (λ x. w.heap.pnode x ≡ k.heap.pnode x) (sym s.0) node in
              let due : w.heap.order_val n ≡ k.heap.order_val n =
                subst (λ x. w.heap.order_val x ≡ k.heap.order_val x) (sym s.0) time in
              rw (at, due, alarm) (s.0, s.1, s.2, (task, λ r. clear u r (s.3.1 r)))
        ];
        sorted = ground (arith, a.ordered);
      }

  -- The idle task is ready when another one sleeps.
  idle_ready :
      k.current_task ≢ idle
      → ((k.tcbs idle).status ≡ ready)
        × ((k.tcbs idle).priority < 64)
        × (queue_node idle ∈ qs (ready_queue (k.tcbs idle).priority))
  idle_ready ni =
      let live = sound.0 in
      let rests : (k.tcbs idle).status ≡ ready =
        ground (arith, live.idles, live.valid.tasks.running idle) in
      let made = live.valid.tasks.created idle (ground arith) in
      (rests, made.0, live.valid.tasks.listed idle rests)

  timed-sleep :
      (fuel timeout : ℕ)
      → k.current_task ≢ idle
      → timeout ≢ 0
      → length (qs (alarm_queue system_timer)) ≤ fuel
      → Goes idle k (sleep_for fuel timeout k)
  timed-sleep fuel timeout ni nt f =
      let (live, timed) = sound in
      let t = k.current_task in
      let (rests, low, here) = idle_ready ni in
      let (a, s, returns) =
        sleep_for-Scheduled k qs live.valid fuel timeout (k.tcbs idle).priority (queue_node idle)
          live.runs nt
          (λ r ne. elim (Bool-cases (has (alarm_node t) (qs r))) [
            | inr e ↦ e
            | inl i ↦ absurd (ne (timed.homes t r i))
          ])
          timed.sorted f live.open_lock live.saved low here in
      let w = set_status t waiting a.state in
      let lists = armed_lists a.state qs system_timer t in
      let run : (a.state.tcbs t).status ≡ running = rw a.same.tcbs live.runs in
      let idles : (w.tcbs idle).status ≡ ready = ground (arith, a.same.tcbs, rests) in
      let away : idle ≢ w.current_task = rw a.same.current_task (λ e. ni (sym e)) in
      let store : SameStore k w = record {
        semaphores = a.semaphores;
        mqueues = a.mqueues;
        bytes = a.bytes;
        scheduler_lock = a.same.scheduler_lock;
        none_new = λ u e. ground (arith, a.same.tcbs, eq-cases t u, live.runs);
      } in
      Goes-trans idle k w _ store (
        switched_from idle w lists _ (idle-IsValid a.state lists t a.valid run)
          (after_alarm-IsTimed timeout _ a) (rw a.same.scheduler_lock live.open_lock)
          (a.ready_queue_lock ∙ live.free) (rw a.same.frame live.saved) (inl (idles, away)) s
          returns)

  -- A task without a period that sleeps for 0 ticks has no alarm.
  endless-sleep : (fuel : ℕ) → k.current_task ≢ idle → Goes idle k (sleep_for fuel 0 k)
  unfolding sleep_for set_alarm
  endless-sleep fuel ni =
      let (live, timed) = sound in
      let t = k.current_task in
      let (rests, low, here) = idle_ready ni in
      let w = set_status t waiting k in
      let v = idle-IsValid k qs t live.valid live.runs in
      let stays : yielded w qs ≡ qs = ground arith in
      let s =
        schedule-Scheduled w qs (k.tcbs idle).priority (queue_node idle) v live.open_lock
          (λ _. live.saved) low (rw stays here) in
      let made = live.valid.tasks.created t (ground (arith, live.runs)) in
      let used : (t == null) ≡ false = ground (arith, made.2) in
      let b : Beside k qs w qs = record {
        homes = λ u r i. i;
        queue = refl;
        asleep = λ u z. (ground (arith, z.0, live.runs), z.1);
      } in
      let idles : (w.tcbs idle).status ≡ ready = ground (arith, rests) in
      switched idle k qs sound w qs _ v (Kept-tcbs k k _ (Kept-refl k))
        (λ u e. ground (arith, eq-cases t u, live.runs)) b (inl (idles, λ e. ni (sym e))) s
        (rw (used, no_alarm idle k qs sound k.daif) s.returns)

  pub sleep_for-Goes :
      (fuel timeout : ℕ)
      → k.current_task ≢ idle
      → length (qs (alarm_queue system_timer)) ≤ fuel
      → Goes idle k (sleep_for fuel timeout k)
  sleep_for-Goes fuel timeout ni f = elim (eq-cases timeout 0) [
    | inl e ↦ rw e (endless-sleep fuel ni)
    | inr e ↦ timed-sleep fuel timeout ni (ground arith) f
  ]

module _ (idle : Ptr) (k : Kernel) (qs : Lists) (sound : Sound idle k qs) where
  pub sleep-Goes :
      (fuel tick : ℕ)
      → k.current_task ≢ idle
      → length (qs (alarm_queue system_timer)) ≤ fuel
      → Goes idle k (sleep fuel tick k)
  unfolding sleep sleep_period
  sleep-Goes fuel tick ni f =
      let live = sound.0 in
      let t = k.current_task in
      let made = live.valid.tasks.created t (ground (arith, live.runs)) in
      let used : (t == null) ≡ false = ground (arith, made.2) in
      let open_lock : (k.scheduler_lock == locked) ≡ false = ground (arith, live.open_lock) in
      let due = ((k.tcbs t).wakeup_time + (k.tcbs t).period) % 2 ^ 32 in
      let w = released k due in
      let after =
        Sound-tcbs idle k qs w.tcbs (λ u. ground (arith, eq-cases t u))
          (λ u. ground (arith, eq-cases t u)) sound in
      let store =
        Kept-SameStore k w (Kept-tcbs k k w.tcbs (Kept-refl k))
          (λ u e. ground (arith, eq-cases t u)) in
      let now = k.ticks system_timer in
      elim (Bool-cases (tick == 0 && not ((k.tcbs t).period == 0))) [
        | inr e ↦ rw (open_lock, used, e) (sleep_for-Goes idle k qs sound fuel tick ni f)
        | inl e ↦ elim (Bool-cases (leb due now)) [
          | inl late ↦ rw (open_lock, used, e, late) (w, qs, refl, after, store)
          | inr early ↦
              rw (open_lock, used, e, early)
                (Goes-trans idle k w _ store (sleep_for-Goes idle w qs after fuel (due - now) ni f))
        ]
      ]

module _ (user_handler : ℕ → ℕ → Kernel → Run Kernel) (idle : Ptr) (k : Kernel) (qs : Lists)
    (sound : Sound idle k qs) where
  -- The handler wakes sleeping tasks only, so the running task and the idle task stay as they are.
  pub tick-Goes :
      (fuel : ℕ)
      → length (qs (alarm_queue system_timer)) < fuel
      → Goes idle k (timer_interrupt_handler user_handler fuel k)
  unfolding timer_interrupt_handler trigger_counter
  tick-Goes fuel f =
      let (live, timed) = sound in
      let k1 = ticked k system_timer in
      let timed1 : IsTimed k1 qs = record {
        homes = timed.homes;
        sleepers = timed.sleepers;
        sorted = timed.sorted;
      } in
      let p =
        expire-Passed user_handler (qs (alarm_queue system_timer)) fuel k1 qs
          (ticked-IsValid user_handler k qs live.valid system_timer) timed1 refl f in
      let w = p.state in
      let c = SameAlarms-Kept k1 w p.same in
      let task : w.tcbs w.current_task ≡ k.tcbs k.current_task =
        rw p.same.current_task (p.awake k.current_task (ground (arith, live.runs))) in
      let rest : w.tcbs idle ≡ k.tcbs idle = p.awake idle (ground (arith, live.idles)) in
      let run : (w.tcbs w.current_task).status ≡ running = rw task live.runs in
      let live1 : IsLive idle w p.lists = record {
        valid = p.valid;
        open_lock = rw c.scheduler_lock live.open_lock;
        free = c.ready_queue_lock ∙ live.free;
        saved = rw c.frame live.saved;
        runs = run;
        idles = rw rest live.idles;
      } in
      let s = schedule-running w p.lists p.valid live1.open_lock live1.saved run in
      let after : Sound idle w p.lists = (live1, p.timed) in
      let store : SameStore k w = record {
        semaphores = p.same.semaphores;
        mqueues = p.same.mqueues;
        bytes = p.same.bytes;
        scheduler_lock = p.same.scheduler_lock;
        none_new = λ u e. rw (p.awake u (ground arith)) e;
      } in
      Goes-trans idle k w _ store (
        switched_from idle w p.lists _ p.valid p.timed live1.open_lock live1.free live1.saved
          (idle-cases idle w p.lists after) s (rw p.returns s.returns))
