-- ===== src/Tests/Alarms.antt =====
-- Alarms and sleep.
use e_os_aarch64_hal.Base.{inl, ◌∷◌, ◌∈◌, ℕ, ◌≡◌, refl, ◌≤◌, ◌<◌, ◌⊎◌, [], arith, ◌∉◌, eq-cases}
use e_os_aarch64_hal.Base.Run.{Run, fault, ok}
use e_os_aarch64_hal.Kernel.{
  Kernel, queue_node, alarm_node, enter_ready, remove, set_status, set_tcb,
}
use e_os_aarch64_hal.Kernel.Queues.{appended, erased}
use e_os_aarch64_hal.Task.{ready, waiting, schedule, wake_first, wakeup_from_alarm_queue}
use e_os_aarch64_hal.Task.Invariant.{IsValid, Queues-same, Tasks-same}
use e_os_aarch64_hal.Task.Schedule.{Scheduled}
use e_os_aarch64_hal.Task.Alarm.{wakeup_from_alarm_queue-IsValid, wakeup_from_alarm_queue-late}
use e_os_aarch64_hal.Timer.{set_alarm, sleep}
use e_os_aarch64_hal.Timer.Alarms.{Armed, set_alarm-Armed}
use e_os_aarch64_hal.Timer.Sleep.{armed_lists, released, sleep-periodic, sleep-forever}
use e_os_aarch64_hal.Timer.{expire, trigger_counter}
use e_os_aarch64_hal.Timer.Fire.{Waiter}
use e_os_aarch64_hal.Timer.Expire.{Expired}
use e_os_aarch64_hal.Timer.Tick.{ticked, trigger_counter-Scheduled}
use e_os_aarch64_hal.Tests.States.{
  alarmed_state, alarmed_lists, alarmed_state-IsValid, start_state, no_lists, start_state-IsValid,
  waiting_state, waiting_lists, waiting_state-IsValid, one_ready, one_list, one_ready-IsValid,
  held_state, held_lists, held_state-IsValid,
}

wakeup_from_alarm_queue-IsValid_example :
    IsValid (wakeup_from_alarm_queue 3 waiting_state) (appended 10 6 (erased 81 6 waiting_lists))
    × (((wakeup_from_alarm_queue 3 waiting_state).tcbs 3).status ≡ ready)
    × (((wakeup_from_alarm_queue 3 waiting_state).tcbs 3).wait_queue_owner ≡ 0)
wakeup_from_alarm_queue-IsValid_example =
    wakeup_from_alarm_queue-IsValid waiting_state waiting_lists waiting_state-IsValid 3 refl
      (omega arith) refl

-- Task 2 is the waiter that is lost.
wakeup_from_alarm_queue-late_example :
    let k1 = wake_first 81 held_state in
    ((k1.tcbs 3).wait_queue_owner ≡ 81)
    × (k1.heads 81 ≡ 4)
    × ((wakeup_from_alarm_queue 3 k1).heads 81 ≡ 0)
    × ((wakeup_from_alarm_queue 3 k1).heap.next 0 ≡ 6)
wakeup_from_alarm_queue-late_example =
    wakeup_from_alarm_queue-late held_state held_lists held_state-IsValid 81 3 4 [] (omega arith)
      refl refl refl refl

set_alarm-Armed_example : Armed start_state no_lists 1 3 5 1 3 (set_alarm 0 1 3 5 1 3 start_state)
set_alarm-Armed_example =
    set_alarm-Armed start_state no_lists start_state-IsValid 1 3 0 5 1 3 (omega arith) (omega arith)
      (omega arith) (omega arith) (λ r ne. refl) tt (omega arith)

sleep-periodic_example :
    ((110 ≤ 100) × (sleep 0 0 one_ready ≡ ok (released one_ready 110)))
    ⊎ ((100 < 110)
        × (a : Armed
            (released one_ready 110)
            one_list
            1
            1
            10
            1
            1
            (set_alarm 0 1 1 10 1 1 (released one_ready 110)))
        × (a.state.heap.order_val 3 ≡ 110)
        × (s : Scheduled
            (set_status 1 waiting a.state)
            (armed_lists a.state one_list 1 1)
            (schedule (set_status 1 waiting a.state)))
        × (sleep 0 0 one_ready ≡ ok s.after))
unfolding one_ready enter_ready
sleep-periodic_example =
    sleep-periodic one_ready one_list one_ready-IsValid 0 5 4 refl (omega arith)
      (λ r ne. ground arith) tt (omega arith) (λ e. omega arith) (λ e. omega arith) (omega arith)
      refl

-- Task 1 without its period.
aperiodic : Kernel
aperiodic = set_tcb 1 (record (one_ready.tcbs 1) { period = 0 }) one_ready

aperiodic-IsValid : IsValid aperiodic one_list
unfolding aperiodic
aperiodic-IsValid = record {
  queues = Queues-same one_ready aperiodic one_list refl refl refl one_ready-IsValid.queues;
  tasks =
      Tasks-same one_ready.tcbs aperiodic.tcbs one_ready.heap.pnode one_ready.current_task one_list
        (λ u. ground (arith, eq-cases 1 u)) (λ u. ground (arith, eq-cases 1 u))
        one_ready-IsValid.tasks;
}

sleep-forever_example :
    let w = set_status 1 waiting (remove 68 3 aperiodic) in
    let lists = erased 68 3 one_list in
    (s : Scheduled w lists (schedule w)) × (sleep 0 0 aperiodic ≡ ok s.after)
    × ((w.tcbs 1).status ≡ waiting)
    × ((r : ℕ) → (queue_node 1 ∉ lists r) × (alarm_node 1 ∉ lists r))
unfolding aperiodic one_ready enter_ready
sleep-forever_example =
    sleep-forever aperiodic one_list aperiodic-IsValid 0 5 4 refl refl (λ r ne. ground arith)
      (λ e. omega arith) (λ e. omega arith) (omega arith) refl

alarmed-Waiter : (n : ℕ) → n ∈ 7 ∷ [] → Waiter alarmed_state alarmed_lists n
alarmed-Waiter n i =
    let e : n ≡ 7 = ground arith in
    rw e (refl, (λ h. omega arith), refl, refl, inl (omega arith, refl))

-- A handler that is never called.
abbrev no_handler : ℕ → ℕ → Kernel → Run Kernel
no_handler entry arg k = fault

trigger_counter-Scheduled_example :
    (e : Expired
      (ticked alarmed_state 1)
      1
      (7 ∷ [])
      (expire no_handler 2 1 (ticked alarmed_state 1)))
    × (s : Scheduled e.state e.lists (schedule e.state)) × (trigger_counter no_handler 2 1
          alarmed_state
        ≡ ok s.after)
trigger_counter-Scheduled_example =
    trigger_counter-Scheduled no_handler alarmed_state alarmed_lists alarmed_state-IsValid 1 2
      (omega arith) alarmed-Waiter tt (omega arith) (omega arith) (omega arith) refl
