-- ===== src/Calls.antt =====
-- Calls of the kernel and ticks of the timer in any order, by whatever tasks run:
-- eos_aarch64/core/task.c, eos_aarch64/core/timer.c, the semaphores of eos_aarch64/core/sync.c,
-- acquired without a time limit, and the critical sections of eos_aarch64/core/comm.c.
pub mod Keep
pub mod Switch
pub mod Tasks
pub mod Waits
pub mod Times
pub mod Semaphores
pub mod Messages
pub mod Reach
use e_os_aarch64_hal.Base.{ℕ, ◌<◌, ◌≤◌, ◌≡◌, ◌≢◌, ◌∉◌, length}
use e_os_aarch64_hal.Base.Run.{Run, ok, ◌>>=◌}
use e_os_aarch64_hal.NodeList.{Ptr, null}
use e_os_aarch64_hal.Kernel.{Kernel, queue_node, alarm_queue, wait_queue, system_timer}
use e_os_aarch64_hal.Kernel.Lists.{Lists}
use e_os_aarch64_hal.Task.{
  schedule, create_task, resume_task, suspend_task, change_priority, wait_in_queue,
  wakeup_from_queue, set_period,
}
use e_os_aarch64_hal.Task.Live.{IsLive}
use e_os_aarch64_hal.Timer.{sleep, timer_interrupt_handler}
use e_os_aarch64_hal.Timer.Sleepers.{IsTimed}
use e_os_aarch64_hal.Sync.{
  Acquired, returned, blocked, acquire_semaphore, resume_acquire, release_semaphore,
  notify_condition,
}
use e_os_aarch64_hal.Comm.{send_body, receive_body}

-- A call of the kernel, or a tick. `again` is the part of `eos_acquire_semaphore` that a task goes on
-- with when it is resumed, `send` and `receive` are the critical sections of the message queues, and
-- `pause` is `eos_sleep`.
pub data Call : Type 0 where
  create : (task start size entry arg priority : ℕ) → Call
  resume : Ptr → Call
  suspend : Ptr → Call
  change : Ptr → ℕ → Call
  wait : (q queue_type fuel : ℕ) → Call
  wake : Ptr → Call
  acquire : (sem fuel : ℕ) → Call
  release : Ptr → Call
  period : Ptr → ℕ → Call
  yield : Call
  again : (sem fuel : ℕ) → Call
  notify : Ptr → Call
  send : (mq message : ℕ) → Call
  receive : (mq message : ℕ) → Call
  pause : (fuel timeout : ℕ) → Call
  tick : (fuel : ℕ) → Call

-- The state that `eos_acquire_semaphore` leaves when it returns or blocks.
abbrev pub left_by : Acquired → Kernel
left_by (returned n k) = k
left_by (blocked k) = k

abbrev pub perform : (ℕ → ℕ → Kernel → Run Kernel) → Call → Kernel → Run Kernel
perform user_handler (create task start size entry arg priority) k =
    create_task task start size entry arg priority k >>= λ r. ok r.1
perform user_handler (resume t) k = resume_task t k >>= λ r. ok r.1
perform user_handler (suspend t) k = ok (suspend_task t k).1
perform user_handler (change t p) k = change_priority t p k
perform user_handler (wait q queue_type fuel) k = wait_in_queue fuel q queue_type k
perform user_handler (wake q) k = wakeup_from_queue q k
perform user_handler (acquire sem fuel) k = acquire_semaphore fuel sem 0 k >>= λ r. ok (left_by r)
perform user_handler (release sem) k = release_semaphore sem k
perform user_handler (period t p) k = ok (set_period t p k)
perform user_handler yield k = schedule k
perform user_handler (again sem fuel) k = resume_acquire fuel sem 0 0 k >>= λ r. ok (left_by r)
perform user_handler (notify cond) k = notify_condition cond k
perform user_handler (send mq message) k = send_body mq message k
perform user_handler (receive mq message) k = receive_body mq message k
perform user_handler (pause fuel timeout) k = sleep fuel timeout k
perform user_handler (tick fuel) k = timer_interrupt_handler user_handler fuel k

-- What a caller has to see to. The idle task neither waits nor is suspended.
abbrev pub Allowed : Ptr → Kernel → Lists → Call → Type 0
Allowed idle k qs (create task start size entry arg priority) =
    ((q : Ptr) → queue_node task ∉ qs q)
    × ((k.tcbs task).status ≡ 0)
    × (task ≢ null)
    × (entry ≢ null)
    × (start ≢ null)
    × (1024 ≤ size)
    × (priority < 64)
Allowed idle k qs (resume t) = t ≢ null
Allowed idle k qs (suspend t) = (t ≢ null) × (t ≢ idle)
Allowed idle k qs (change t p) = (p < 64) × ((k.tcbs t).status ≢ 0)
Allowed idle k qs (wait q queue_type fuel) =
    (64 < q) × (q ≢ alarm_queue system_timer) × (k.current_task ≢ idle) × (length (qs q) ≤ fuel)
Allowed idle k qs (wake q) = (64 < q) × (q ≢ alarm_queue system_timer)
Allowed idle k qs (acquire sem fuel) =
    (k.current_task ≢ idle) × (length (qs (wait_queue sem)) ≤ fuel)
Allowed idle k qs (release sem) = Unit {0}
Allowed idle k qs (period t p) = Unit {0}
Allowed idle k qs yield = Unit {0}
Allowed idle k qs (again sem fuel) = (k.current_task ≢ idle) × (length (qs (wait_queue sem)) ≤ fuel)
Allowed idle k qs (notify cond) = Unit {0}
Allowed idle k qs (send mq message) = Unit {0}
Allowed idle k qs (receive mq message) = Unit {0}
Allowed idle k qs (pause fuel timeout) =
    (k.current_task ≢ idle) × (length (qs (alarm_queue system_timer)) ≤ fuel)
Allowed idle k qs (tick fuel) = length (qs (alarm_queue system_timer)) < fuel

-- The system is live, and every alarm belongs to a task that sleeps.
abbrev pub Sound : Ptr → Kernel → Lists → Type 0
Sound idle k qs = IsLive idle k qs × IsTimed k qs

-- A call returns, and the system is sound afterwards.
abbrev pub Returns : Ptr → Run Kernel → Type 0
Returns idle r = (a : Kernel) × (qs : Lists) × (r ≡ ok a) × Sound idle a qs

-- No task comes into use.
abbrev pub NoneNew : Kernel → Kernel → Type 0
NoneNew k k' = (t : Ptr) → (k.tcbs t).status ≡ 0 → (k'.tcbs t).status ≡ 0

-- The parts of the state that tasks communicate through, the lock of the scheduler and the tasks that
-- are not in use.
pub record SameStore (k k' : Kernel) : Type 0 where
  pub semaphores : k'.semaphores ≡ k.semaphores
  pub mqueues : k'.mqueues ≡ k.mqueues
  pub bytes : k'.bytes ≡ k.bytes
  pub scheduler_lock : k'.scheduler_lock ≡ k.scheduler_lock
  pub none_new : NoneNew k k'

-- So does a call that leaves the store as it is in `k`.
abbrev pub Goes : Ptr → Kernel → Run Kernel → Type 0
Goes idle k r = (a : Kernel) × (qs : Lists) × (r ≡ ok a) × Sound idle a qs × SameStore k a
