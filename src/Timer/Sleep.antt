-- ===== src/Timer/Sleep.antt =====
-- `eos_sleep` of eos_aarch64/core/task.c.
use e_os_aarch64_hal.Base.{
  Bool-cases, ◌∙◌, ℕ, ◌+◌, ◌-◌, ◌%◌, ◌^◌, ◌≤◌, ◌<◌, ◌≡◌, refl, sym, subst, ◌≢◌, ◌⊎◌, inl, inr, true,
  false, arith, ◌∈◌, ◌∉◌, ◌==◌, leb, eq-cases, erase, length,
}
use e_os_aarch64_hal.Base.Run.{ok}
use e_os_aarch64_hal.NodeList.{Ptr, null}
use e_os_aarch64_hal.NodeList.Ordered.{insert, IsOrdered}
use e_os_aarch64_hal.Kernel.{
  Tcb, Kernel, update, queue_node, alarm_node, alarm_queue, ready_queue, set_tcb, set_status,
  system_timer, locked, remove,
}
use e_os_aarch64_hal.Kernel.Lists.{Lists}
use e_os_aarch64_hal.Kernel.Queues.{erased, SameTasks}
use e_os_aarch64_hal.Task.{waiting, running, schedule}
use e_os_aarch64_hal.Task.Invariant.{Tasks, IsValid, Queues-same, Tasks-same, unlisted}
use e_os_aarch64_hal.Task.Schedule.{Scheduled, yielded, schedule-Scheduled}
use e_os_aarch64_hal.Timer.{set_alarm, wakeup_handler, sleep_for, sleep_period, sleep}
use e_os_aarch64_hal.Timer.Alarms.{Armed, set_alarm-Armed, removed-IsValid}

-- The running task, in no list, waits.
Tasks-idle :
    (tcbs : Ptr → Tcb) (pnode : Ptr → ℕ) (current : Ptr) (qs : Lists) (t : Ptr) (u : Tcb)
    → Tasks tcbs pnode current qs
    → (tcbs t).status ≡ running
    → u.status ≡ waiting
    → u.priority ≡ (tcbs t).priority
    → Tasks (update tcbs t u) pnode current qs
Tasks-idle tcbs pnode current qs t u v run s p = record {
  created = λ a. ground (arith, v.created a, v.created t);
  member = λ r a i. ground (arith, v.member r a, eq-cases t a);
  listed = λ a e. ground (arith, v.listed a, eq-cases t a);
  nodes = v.nodes;
  running = λ a e. ground (arith, v.running a, eq-cases t a);
}

pub idle-IsValid :
    (k : Kernel) (qs : Lists) (t : Ptr)
    → IsValid k qs
    → (k.tcbs t).status ≡ running
    → IsValid (set_status t waiting k) qs
idle-IsValid k qs t v run =
    let k1 = set_status t waiting k in
    record {
      queues = Queues-same k k1 qs refl refl refl v.queues;
      tasks =
          Tasks-idle k.tcbs k.heap.pnode k.current_task qs t
            (record (k.tcbs t) { status = waiting }) v.tasks run refl refl;
    }

remove-SameTasks : (q n : Ptr) (k : Kernel) → SameTasks k (remove q n k)
unfolding remove
remove-SameTasks q n k = record {
  tcbs = refl;
  current_task = refl;
  scheduler_lock = refl;
  frame = refl;
}

-- The lists after an alarm was set.
abbrev pub armed_lists : Kernel → Lists → Ptr → Ptr → Lists
armed_lists state qs counter alarm = update qs (alarm_queue counter) (
    insert state.heap.order_val (alarm_node alarm)
      (erase (alarm_node alarm) (qs (alarm_queue counter))))

module _ (k : Kernel) (qs : Lists) (v : IsValid k qs) (fuel : ℕ) where
  -- With the scheduler open, another task ready, an ordered alarm queue and as much fuel as it has
  -- nodes, a running task that sleeps for a time other than 0 sets its alarm on the system timer and
  -- waits, and the processor goes to the task that is due.
  pub sleep_for-Scheduled :
      (timeout p n : ℕ)
      → (k.tcbs k.current_task).status ≡ running
      → timeout ≢ 0
      → ((r : Ptr) → r ≢ alarm_queue system_timer → alarm_node k.current_task ∉ qs r)
      → IsOrdered k.heap.order_val (qs (alarm_queue system_timer))
      → length (qs (alarm_queue system_timer)) ≤ fuel
      → k.scheduler_lock ≢ locked
      → k.frame ≢ null
      → p < 64
      → n ∈ qs (ready_queue p)
      → let t = k.current_task in
        (a : Armed k qs system_timer t timeout wakeup_handler t
          (set_alarm fuel system_timer t timeout wakeup_handler t k))
        × (s : Scheduled
            (set_status t waiting a.state)
            (armed_lists a.state qs system_timer t)
            (schedule (set_status t waiting a.state)))
        × (sleep_for fuel timeout k ≡ ok s.after)
  unfolding sleep_for
  sleep_for-Scheduled timeout p n run nt out sorted f free fr hp i =
      let t = k.current_task in
      let made = v.tasks.created t (ground arith) in
      let a =
        set_alarm-Armed k qs v system_timer t fuel timeout wakeup_handler t (omega arith) made.2 nt
          (omega arith) out sorted f in
      let run' : (a.state.tcbs t).status ≡ running = rw a.same.tcbs run in
      let w = set_status t waiting a.state in
      let lists = armed_lists a.state qs system_timer t in
      let v' = idle-IsValid a.state lists t a.valid run' in
      let stays : yielded w lists ≡ lists = ground (arith, a.same.current_task) in
      let here : n ∈ lists (ready_queue p) = ground arith in
      let free' : w.scheduler_lock ≢ locked = rw a.same.scheduler_lock free in
      let fr' : w.frame ≢ null = rw a.same.frame fr in
      let s =
        schedule-Scheduled w lists p n v' free' (λ _. fr') hp
          (subst (λ l. n ∈ l (ready_queue p)) (sym stays) here) in
      (a, s, rw (a.returns) s.returns)

-- The running task with the time of its next period written down.
abbrev pub released : Kernel → ℕ → Kernel
released k due = set_tcb k.current_task (record (k.tcbs k.current_task) { wakeup_time = due }) k

released-IsValid : (k : Kernel) (qs : Lists) (due : ℕ) → IsValid k qs → IsValid (released k due) qs
released-IsValid k qs due v = record {
  queues = Queues-same k (released k due) qs refl refl refl v.queues;
  tasks =
      Tasks-same k.tcbs (released k due).tcbs k.heap.pnode k.current_task qs
        (λ u. ground (arith, eq-cases k.current_task u))
        (λ u. ground (arith, eq-cases k.current_task u)) v.tasks;
}

module _ (k : Kernel) (qs : Lists) (v : IsValid k qs) (fuel : ℕ) where
  -- With the scheduler open, another task ready, an ordered alarm queue and as much fuel as it has
  -- nodes, a periodic task that sleeps for 0 ticks counts its release time on by a period. If that
  -- time has come it goes on; if not, its alarm is due exactly at that time, and it waits while the
  -- processor goes to the task that is due.
  pub sleep-periodic :
      (p n : ℕ)
      → (k.tcbs k.current_task).status ≡ running
      → (k.tcbs k.current_task).period ≢ 0
      → ((r : Ptr) → r ≢ alarm_queue system_timer → alarm_node k.current_task ∉ qs r)
      → IsOrdered k.heap.order_val (qs (alarm_queue system_timer))
      → length (qs (alarm_queue system_timer)) ≤ fuel
      → k.scheduler_lock ≢ locked
      → k.frame ≢ null
      → p < 64
      → n ∈ qs (ready_queue p)
      → let t = k.current_task in
        let due = ((k.tcbs t).wakeup_time + (k.tcbs t).period) % 2 ^ 32 in
        let wait = due - k.ticks system_timer in
        ((due ≤ k.ticks system_timer) × (sleep fuel 0 k ≡ ok (released k due)))
        ⊎ ((k.ticks system_timer < due)
            × (a : Armed
                (released k due)
                qs
                system_timer
                t
                wait
                wakeup_handler
                t
                (set_alarm fuel system_timer t wait wakeup_handler t (released k due)))
            × (a.state.heap.order_val (alarm_node t) ≡ due)
            × (s : Scheduled
                (set_status t waiting a.state)
                (armed_lists a.state qs system_timer t)
                (schedule (set_status t waiting a.state)))
            × (sleep fuel 0 k ≡ ok s.after))
  unfolding sleep sleep_period
  sleep-periodic p n run per out sorted f free fr hp i =
      let t = k.current_task in
      let due = ((k.tcbs t).wakeup_time + (k.tcbs t).period) % 2 ^ 32 in
      let wait = due - k.ticks system_timer in
      let k1 = released k due in
      let made = v.tasks.created t (ground arith) in
      let bound : due < 2 ^ 32 = omega arith in
      let open_lock : (k.scheduler_lock == locked) ≡ false = ground arith in
      let used : (t == null) ≡ false = ground arith in
      let periodic : ((k.tcbs t).period == 0) ≡ false = ground arith in
      elim (Bool-cases (leb due (k.ticks system_timer))) [
        | inl e ↦ rw (open_lock, used, periodic, e) (inl (ground arith, refl))
        | inr e ↦
            let run' : (k1.tcbs t).status ≡ running = ground arith in
            let later : wait ≢ 0 = ground arith in
            let v1 = released-IsValid k qs due v in
            let (a, s, returns) =
              sleep_for-Scheduled k1 qs v1 fuel wait p n run' later out sorted f free fr hp i in
            let exact : (k.ticks system_timer + wait) % 2 ^ 32 ≡ due = ground arith in
            rw (open_lock, used, periodic, e) (inr (ground arith, a, a.due ∙ exact, s, returns))
      ]

  -- With the scheduler open and another task ready, a running task without a period that sleeps for 0
  -- ticks waits with no way back: it is in no queue and its alarm is not set.
  pub sleep-forever :
      (p n : ℕ)
      → (k.tcbs k.current_task).status ≡ running
      → (k.tcbs k.current_task).period ≡ 0
      → ((r : Ptr) → r ≢ alarm_queue system_timer → alarm_node k.current_task ∉ qs r)
      → k.scheduler_lock ≢ locked
      → k.frame ≢ null
      → p < 64
      → n ∈ qs (ready_queue p)
      → let t = k.current_task in
        let w = set_status t waiting (remove (alarm_queue system_timer) (alarm_node t) k) in
        let lists = erased (alarm_queue system_timer) (alarm_node t) qs in
        (s : Scheduled w lists (schedule w)) × (sleep fuel 0 k ≡ ok s.after)
        × ((w.tcbs t).status ≡ waiting)
        × ((r : Ptr) → (queue_node t ∉ lists r) × (alarm_node t ∉ lists r))
  unfolding sleep sleep_for set_alarm
  sleep-forever p n run per out free fr hp i =
      let t = k.current_task in
      let made = v.tasks.created t (ground arith) in
      let (v1, loose, order) = removed-IsValid k qs v system_timer t out in
      let k1 = remove (alarm_queue system_timer) (alarm_node t) k in
      let same = remove-SameTasks (alarm_queue system_timer) (alarm_node t) k in
      let lists = erased (alarm_queue system_timer) (alarm_node t) qs in
      let w = set_status t waiting k1 in
      let run1 : (k1.tcbs t).status ≡ running = rw same.tcbs run in
      let v2 = idle-IsValid k1 lists t v1 run1 in
      let stays : yielded w lists ≡ lists = ground (arith, same.current_task) in
      let free' : w.scheduler_lock ≢ locked = rw same.scheduler_lock free in
      let fr' : w.frame ≢ null = rw same.frame fr in
      let here : n ∈ lists (ready_queue p) = ground arith in
      let s =
        schedule-Scheduled w lists p n v2 free' (λ _. fr') hp
          (subst (λ l. n ∈ l (ready_queue p)) (sym stays) here) in
      let open_lock : (k.scheduler_lock == locked) ≡ false = ground arith in
      let used : (t == null) ≡ false = ground arith in
      let aperiodic : ((k.tcbs t).period == 0) ≡ true = ground arith in
      let out2 =
        unlisted k1.tcbs k1.heap.pnode k1.current_task lists v1.tasks t (ground arith)
          (ground arith) in
      (s, rw (open_lock, used, aperiodic) s.returns, ground arith, λ r. (out2 r, loose r))
