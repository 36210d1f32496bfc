-- ===== src/Sync/Acquire.antt =====
-- `eos_acquire_semaphore` of eos_aarch64/core/sync.c.
use e_os_aarch64_hal.Base.{
  Bool-cases, ℕ, ◌+◌, ◌-◌, ◌%◌, ◌^◌, ◌≤◌, ◌<◌, ◌≡◌, refl, ◌≢◌, ◌⊎◌, inl, inr, true, false, arith,
  ◌∈◌, ◌∉◌, ◌==◌, length,
}
use e_os_aarch64_hal.Base.Run.{ok}
use e_os_aarch64_hal.NodeList.{Ptr, null}
use e_os_aarch64_hal.NodeList.Ordered.{IsOrdered}
use e_os_aarch64_hal.Kernel.{
  Kernel, update, alarm_node, alarm_queue, wait_queue, ready_queue, system_timer, locked,
  disable_interrupt, restore_interrupt,
}
use e_os_aarch64_hal.Kernel.Lists.{Lists}
use e_os_aarch64_hal.Task.{running, schedule, enter_wait, wait_in_queue}
use e_os_aarch64_hal.Task.Invariant.{IsValid, Queues-same}
use e_os_aarch64_hal.Task.Schedule.{Scheduled}
use e_os_aarch64_hal.Task.Wait.{Waits, waiting_list, wait_in_queue-Scheduled}
use e_os_aarch64_hal.Timer.{set_alarm, wakeup_handler}
use e_os_aarch64_hal.Timer.Alarms.{Armed, set_alarm-Armed}
use e_os_aarch64_hal.Timer.Sleep.{armed_lists}
use e_os_aarch64_hal.Sync.{
  returned, blocked, acquire_semaphore, take, set_count, not_positive, is_negative,
}

-- Without a wait: on a semaphore with a count of 1 to 127 the call takes one and returns 1; on any
-- other count with a negative timeout it returns 0 and changes nothing.
pub acquire_semaphore-now :
    (k : Kernel) (fuel sem timeout : ℕ)
    → sem ≢ null
    → k.scheduler_lock ≡ 0
    → let count = (k.semaphores sem).count in
      count < 256
      → ((1 ≤ count)
          × (count ≤ 127)
          × (acquire_semaphore fuel sem timeout k ≡ ok (returned 1 (set_count sem (count - 1) k))))
        ⊎ (((count ≡ 0) ⊎ (128 ≤ count))
            × (2 ^ 31 ≤ timeout → acquire_semaphore fuel sem timeout k ≡ ok (returned 0 k)))
unfolding acquire_semaphore take
acquire_semaphore-now k fuel sem timeout used free byte =
    let guard : (sem == null) ≡ false = ground arith in
    elim (Bool-cases (not_positive (k.semaphores sem).count)) [
      | inl e ↦ rw (guard, free, e) (inr (ground arith, λ neg. ground arith))
      | inr e ↦
          let one : (((k.semaphores sem).count + 255) % 256) ≡ (k.semaphores sem).count - 1 =
            ground arith in
          rw (guard, free, e) (inl (ground arith, ground arith, rw one refl))
    ]

-- The interrupt mask is no part of the invariant.
mask-IsValid :
    (k : Kernel) (qs : Lists) (flag : ℕ) → IsValid k qs → IsValid (restore_interrupt flag k) qs
mask-IsValid k qs flag v = record {
  queues = Queues-same k (restore_interrupt flag k) qs refl refl refl v.queues;
  tasks = v.tasks;
}

-- The state in which a task that finds no semaphore sets its alarm.
abbrev pub masked : Kernel → Kernel
masked k = (disable_interrupt k).1

-- The call blocks when its two steps return.
acquire_semaphore-steps :
    (k : Kernel) (fuel sem timeout : ℕ) (armed after : Kernel)
    → (sem == null) ≡ false
    → k.scheduler_lock ≡ 0
    → not_positive (k.semaphores sem).count ≡ true
    → is_negative timeout ≡ false
    → set_alarm fuel system_timer k.current_task timeout wakeup_handler k.current_task (masked k)
      ≡ ok armed
    → wait_in_queue fuel
        (wait_queue sem)
        (k.semaphores sem).queue_type
        (restore_interrupt k.daif armed)
      ≡ ok after
    → acquire_semaphore fuel sem timeout k ≡ ok (blocked after)
unfolding acquire_semaphore
acquire_semaphore-steps k fuel sem timeout armed after guard free empty waits set entered =
    let unlocked : (k.scheduler_lock == 0) ≡ true = ground arith in
    rw (guard, unlocked, empty, waits, set, entered) refl

-- With the scheduler open, another task ready, an ordered alarm queue and as much fuel as each queue
-- has nodes, a running task that finds a count of 0 or below and has a timeout of 1 and more arms its
-- alarm for that time, enters the queue of the semaphore and waits, and the processor goes to the task
-- that is due.
pub acquire_semaphore-blocks :
    (k : Kernel) (qs : Lists) (fuel sem timeout p n : ℕ)
    → IsValid k qs
    → sem ≢ null
    → k.scheduler_lock ≡ 0
    → (k.tcbs k.current_task).status ≡ running
    → not_positive (k.semaphores sem).count ≡ true
    → timeout ≢ 0
    → timeout < 2 ^ 31
    → ((r : Ptr) → r ≢ alarm_queue system_timer → alarm_node k.current_task ∉ qs r)
    → IsOrdered k.heap.order_val (qs (alarm_queue system_timer))
    → length (qs (alarm_queue system_timer)) ≤ fuel
    → length (qs (wait_queue sem)) ≤ fuel
    → k.frame ≢ null
    → p < 64
    → n ∈ qs (ready_queue p)
    → let t = k.current_task in
      let kind = (k.semaphores sem).queue_type in
      let q = wait_queue sem in
      (a : Armed
        (masked k)
        qs
        system_timer
        t
        timeout
        wakeup_handler
        t
        (set_alarm fuel system_timer t timeout wakeup_handler t (masked k)))
      × (let k2 = restore_interrupt k.daif a.state in
          let qs2 = armed_lists a.state qs system_timer t in
          (w : Waits k2 qs2 q kind (enter_wait fuel q kind k2)) × (s : Scheduled w.state
            (update qs2 q (waiting_list k2 qs2 q kind))
            (schedule w.state))
          × (acquire_semaphore fuel sem timeout k ≡ ok (blocked s.after)))
acquire_semaphore-blocks k qs fuel sem timeout p n v used free run empty nt neg out sorted f g fr hp
      i =
    let t = k.current_task in
    let kind = (k.semaphores sem).queue_type in
    let q = wait_queue sem in
    let made = v.tasks.created t (ground arith) in
    let guard : (sem == null) ≡ false = ground arith in
    let waits : is_negative timeout ≡ false = ground arith in
    let v1 = mask-IsValid k qs (masked k).daif v in
    let a =
      set_alarm-Armed (masked k) qs v1 system_timer t fuel timeout wakeup_handler t (omega arith)
        made.2 nt (omega arith) out sorted f in
    let k2 = restore_interrupt k.daif a.state in
    let qs2 = armed_lists a.state qs system_timer t in
    let v2 = mask-IsValid a.state qs2 k.daif a.valid in
    let same : qs2 q ≡ qs q = ground arith in
    let run2 : (k2.tcbs k2.current_task).status ≡ running =
      rw (a.same.tcbs, a.same.current_task) run in
    let fits : length (qs2 q) ≤ fuel = rw same g in
    let free2 : k2.scheduler_lock ≢ locked =
      rw a.same.scheduler_lock (rw free (λ e. omega (arith, e))) in
    let fr2 : k2.frame ≢ null = rw a.same.frame fr in
    let here : n ∈ qs2 (ready_queue p) = ground arith in
    let (w, s, returns, status) =
      wait_in_queue-Scheduled k2 qs2 v2 q (omega arith) fuel kind p n run2 fits free2 fr2 hp here in
    (
      a,
      (
        w,
        s,
        acquire_semaphore-steps k fuel sem timeout a.state s.after guard free empty waits a.returns
            returns,
      ),
    )
