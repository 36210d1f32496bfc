-- ===== src/Tests/Tasks.antt =====
-- Tasks and scheduling, and wait queues.
use e_os_aarch64_hal.Base.{ℕ, ◌≡◌, refl, ◌≢◌, ◌⊎◌, [], ◌∷◌, arith}
use e_os_aarch64_hal.Base.Run.{ok}
use e_os_aarch64_hal.Kernel.{update, ready_queue, enter_ready, set_status}
use e_os_aarch64_hal.Kernel.Queues.{appended, erased}
use e_os_aarch64_hal.Task.{
  create_task, schedule, suspend_task, resume_task, ready, waiting, suspended, enter_wait,
  wait_in_queue, wakeup_from_queue, wake_first,
}
use e_os_aarch64_hal.Task.Invariant.{IsValid}
use e_os_aarch64_hal.Task.Schedule.{Scheduled, schedule-Scheduled}
use e_os_aarch64_hal.Task.Moves.{suspend_task-IsValid, resume_task-Scheduled}
use e_os_aarch64_hal.Task.Create.{Makes, create_task-Scheduled}
use e_os_aarch64_hal.Task.Wait.{Waits, wait_in_queue-Scheduled}
use e_os_aarch64_hal.Task.Wake.{wakeup_from_queue-Scheduled}
use e_os_aarch64_hal.Tests.States.{
  start_state, no_lists, start_state-IsValid, waiting_state, waiting_lists, waiting_state-IsValid,
  one_ready, one_list, one_ready-IsValid,
}

-- One turn of the scheduler: task 1 yields, task 2 is due.
schedule-Scheduled_example : Scheduled one_ready one_list (schedule one_ready)
schedule-Scheduled_example =
    schedule-Scheduled one_ready one_list 5 4 one_ready-IsValid
      (unfold one_ready enter_ready in (omega arith))
      (unfold one_ready enter_ready in (λ ne. omega arith)) (omega arith)
      (unfold one_ready enter_ready in refl)

suspend_task-IsValid_example :
    ((suspend_task 2 one_ready).0 ≡ 0)
    × ((((one_ready.tcbs 2).status ≡ ready)
          × (((suspend_task 2 one_ready).1.tcbs 2).status ≡ suspended)
          × IsValid
              (suspend_task 2 one_ready).1
              (erased (ready_queue (one_ready.tcbs 2).priority) 4 one_list))
        ⊎ (((one_ready.tcbs 2).status ≢ ready) × ((suspend_task 2 one_ready).1 ≡ one_ready)))
suspend_task-IsValid_example =
    suspend_task-IsValid one_ready one_list one_ready-IsValid 2 (omega arith)

resume_task-Scheduled_example :
    let k1 = set_status 2 ready (enter_ready 5 2 start_state) in
    ((s : Scheduled k1 one_list (schedule k1)) × ((start_state.tcbs 2).status ≡ suspended)
      × (resume_task 2 start_state ≡ ok (0, s.after)))
    ⊎ (((start_state.tcbs 2).status ≢ suspended)
        × (resume_task 2 start_state ≡ ok (0, start_state)))
resume_task-Scheduled_example =
    resume_task-Scheduled start_state no_lists start_state-IsValid 2 (omega arith) (omega arith)
      (omega arith) refl

wakeup_from_queue-Scheduled_example :
    let k1 = wake_first 81 waiting_state in
    let qs1 = appended 10 6 (update waiting_lists 81 []) in
    (s : Scheduled k1 qs1 (schedule k1)) × ((k1.tcbs 3).status ≡ ready)
    × ((u : ℕ) → u ≢ 3 → k1.tcbs u ≡ waiting_state.tcbs u)
    × (wakeup_from_queue 81 waiting_state ≡ ok s.after)
wakeup_from_queue-Scheduled_example =
    wakeup_from_queue-Scheduled waiting_state waiting_lists waiting_state-IsValid 81 (omega arith) 3
      [] refl refl (omega arith) (omega arith) refl

wait_in_queue-Scheduled_example :
    (w : Waits one_ready one_list 81 0 (enter_wait 0 81 0 one_ready)) × (s : Scheduled w.state
      (update one_list 81 (2 ∷ []))
      (schedule w.state))
    × (wait_in_queue 0 81 0 one_ready ≡ ok s.after)
    × ((w.state.tcbs 1).status ≡ waiting)
unfolding one_ready enter_ready
wait_in_queue-Scheduled_example =
    wait_in_queue-Scheduled one_ready one_list one_ready-IsValid 81 (omega arith) 0 0 5 4
      (unfold one_ready enter_ready in refl) (omega arith)
      (unfold one_ready enter_ready in (λ ne. omega arith))
      (unfold one_ready enter_ready in (λ ne. omega arith)) (omega arith) refl

-- Task 6 is new.
create_task-Scheduled_example :
    (m : Makes start_state no_lists start_state-IsValid 6 (λ q. refl) refl 4100 2048 64 5 9)
    × (s : Scheduled m.state (appended 10 12 no_lists) (schedule m.state)) × (create_task 6 4100
          2048 64 5 9 start_state
        ≡ ok (0, s.after))
create_task-Scheduled_example =
    create_task-Scheduled start_state no_lists start_state-IsValid 6 (λ q. refl) refl 4100 2048 64 5
      9 (omega arith) (omega arith) (omega arith) (omega arith) (omega arith) refl (omega arith)
      (λ ne. omega arith)
