-- ===== src/Tests/Semaphores.antt =====
-- Semaphores.
use e_os_aarch64_hal.Base.{◌≡◌, refl, [], arith}
use e_os_aarch64_hal.Base.Run.{ok}
use e_os_aarch64_hal.Kernel.{Kernel, update, enter_ready, restore_interrupt}
use e_os_aarch64_hal.Kernel.Queues.{appended}
use e_os_aarch64_hal.Task.{ready, schedule, wake_first, enter_wait}
use e_os_aarch64_hal.Task.Schedule.{Scheduled}
use e_os_aarch64_hal.Task.Wait.{Waits, waiting_list}
use e_os_aarch64_hal.Timer.{set_alarm}
use e_os_aarch64_hal.Timer.Alarms.{Armed}
use e_os_aarch64_hal.Timer.Sleep.{armed_lists}
use e_os_aarch64_hal.Sync.{blocked, acquire_semaphore, release_semaphore, set_count}
use e_os_aarch64_hal.Sync.Acquire.{masked, acquire_semaphore-blocks}
use e_os_aarch64_hal.Sync.Release.{release_semaphore-Scheduled}
use e_os_aarch64_hal.Tests.States.{
  start_state, waiting_state, waiting_lists, waiting_state-IsValid, one_ready, one_list,
  one_ready-IsValid,
}

-- Three are free.
abbrev stocked : Kernel
stocked = set_count 5 3 start_state

acquire_semaphore-blocks_example :
    (a : Armed (masked one_ready) one_list 1 1 7 1 1 (set_alarm 0 1 1 7 1 1 (masked one_ready)))
    × (let k2 = restore_interrupt 0 a.state in
        let qs2 = armed_lists a.state one_list 1 1 in
        (w : Waits k2 qs2 81 1 (enter_wait 0 81 1 k2)) × (s : Scheduled w.state
          (update qs2 81 (waiting_list k2 qs2 81 1))
          (schedule w.state))
        × (acquire_semaphore 0 5 7 one_ready ≡ ok (blocked s.after)))
unfolding one_ready enter_ready
acquire_semaphore-blocks_example =
    acquire_semaphore-blocks one_ready one_list 0 5 7 5 4 one_ready-IsValid (omega arith) refl refl
      refl (omega arith) (omega arith) (λ r ne. ground arith) tt (omega arith) (omega arith)
      (λ ne. omega arith) (omega arith) refl

release_semaphore-Scheduled_example :
    let k1 = wake_first 81 (set_count 5 1 waiting_state) in
    (s : Scheduled k1 (appended 10 6 (update waiting_lists 81 [])) (schedule k1)) × ((k1.tcbs
        3).status
      ≡ ready)
    × ((k1.semaphores 5).count ≡ 1)
    × (release_semaphore 5 waiting_state ≡ ok s.after)
release_semaphore-Scheduled_example =
    release_semaphore-Scheduled waiting_state waiting_lists waiting_state-IsValid 5 3 []
      (omega arith) (omega arith) refl refl (omega arith) (omega arith) refl
