-- ===== src/Timer/Tick.antt =====
-- `eos_trigger_counter` of eos_aarch64/core/timer.c.
use e_os_aarch64_hal.Base.{
  ℕ, ◌+◌, ◌%◌, ◌^◌, ◌<◌, ◌≡◌, refl, ◌≢◌, false, arith, ◌∈◌, ◌∉◌, ◌==◌, Bool-cases, inl, inr, has,
  length,
}
use e_os_aarch64_hal.Base.Run.{Run, ok}
use e_os_aarch64_hal.NodeList.{Ptr, null}
use e_os_aarch64_hal.NodeList.Ordered.{IsOrdered}
use e_os_aarch64_hal.Kernel.{Kernel, update, alarm_node, alarm_queue, locked}
use e_os_aarch64_hal.Kernel.Lists.{Lists}
use e_os_aarch64_hal.Task.{running, schedule}
use e_os_aarch64_hal.Task.Invariant.{IsValid, Queues-same}
use e_os_aarch64_hal.Task.Schedule.{Scheduled}
use e_os_aarch64_hal.Task.Moves.{schedule-running}
use e_os_aarch64_hal.Timer.{expire, trigger_counter}
use e_os_aarch64_hal.Timer.Fire.{Waiter}
use e_os_aarch64_hal.Timer.Expire.{Expired, expire-Expired}

-- The state one tick later.
abbrev pub ticked : Kernel → Ptr → Kernel
ticked k counter = record k { ticks = update k.ticks counter ((k.ticks counter + 1) % 2 ^ 32) }

module _ (user_handler : ℕ → ℕ → Kernel → Run Kernel) (k : Kernel) (qs : Lists) (v : IsValid k qs)
    (counter : Ptr) where
  pub ticked-IsValid : IsValid (ticked k counter) qs
  ticked-IsValid = record {
    queues = Queues-same k (ticked k counter) qs refl refl refl v.queues;
    tasks = v.tasks;
  }

  -- A tick that comes while a task runs and the scheduler is open, with an ordered queue of alarms
  -- that waiting tasks have set and more fuel than there are alarms: every task whose alarm is due at
  -- the new time becomes ready, every alarm that is left is due later, no task changes whose alarm is not in the queue or not due, and then
  -- the processor goes to the task that is due.
  pub trigger_counter-Scheduled :
      (fuel : ℕ)
      → counter ≢ null
      → ((n : Ptr) → n ∈ qs (alarm_queue counter) → Waiter k qs n)
      → IsOrdered k.heap.order_val (qs (alarm_queue counter))
      → length (qs (alarm_queue counter)) < fuel
      → k.scheduler_lock ≢ locked
      → k.frame ≢ null
      → (k.tcbs k.current_task).status ≡ running
      → (e : Expired
          (ticked k counter)
          counter
          (qs (alarm_queue counter))
          (expire user_handler fuel counter (ticked k counter)))
        × (s : Scheduled e.state e.lists (schedule e.state)) × (trigger_counter user_handler fuel
              counter k
            ≡ ok s.after)
  unfolding trigger_counter
  trigger_counter-Scheduled fuel nc waiters sorted f free fr run =
      let t = k.current_task in
      let e =
        expire-Expired user_handler (qs (alarm_queue counter)) fuel (ticked k counter) counter qs
          ticked-IsValid refl waiters sorted f in
      let absent : alarm_node t ∉ qs (alarm_queue counter) =
        elim (Bool-cases (has (alarm_node t) (qs (alarm_queue counter)))) [
          | inl i ↦
              let w = waiters (alarm_node t) i in
              let same : k.heap.pnode (alarm_node t) ≡ t = omega (arith, w.0) in
              absurd (ground (arith, w.3, same))
          | inr out ↦ out
        ] in
      let task = e.others t (inl absent) in
      let run1 : (e.state.tcbs e.state.current_task).status ≡ running =
        rw (e.same.current_task, task) run in
      let free1 : e.state.scheduler_lock ≢ locked = rw e.same.scheduler_lock free in
      let fr1 : e.state.frame ≢ null = rw e.same.frame fr in
      let s = schedule-running e.state e.lists e.valid free1 fr1 run1 in
      let guard : (counter == null) ≡ false = ground arith in
      (e, s, rw (guard, e.returns) s.returns)
