-- ===== src/Sync.antt =====
-- Semaphores and condition variables: eos_aarch64/core/sync.c.
--
-- A call that blocks ends in a switch to another task, and goes on when its task is resumed. So the
-- acquisition is two functions: up to the wait, and from each resumption to the next wait or the
-- return.
pub mod Acquire
pub mod Release
use e_os_aarch64_hal.Base.{ℕ, ◌+◌, ◌%◌, ◌^◌, Bool, ◌&&◌, ◌||◌, not, if◌then◌else◌, ◌==◌, leb}
use e_os_aarch64_hal.Base.Run.{Run, ok, ◌>>=◌}
use e_os_aarch64_hal.NodeList.{Ptr, null}
use e_os_aarch64_hal.Kernel.{
  Semaphore, Kernel, update, wait_queue, condition_queue, disable_interrupt, restore_interrupt,
  system_timer,
}
use e_os_aarch64_hal.Task.{wait_in_queue, wakeup_from_queue}
use e_os_aarch64_hal.Timer.{set_alarm, wakeup_handler}

-- `count <= 0` and `timeout < 0` on the bit patterns of an `int8s_t` and an `int32s_t`.
abbrev pub not_positive : ℕ → Bool
not_positive count = count == 0 || leb 128 count

abbrev pub is_negative : ℕ → Bool
is_negative timeout = leb (2 ^ 31) timeout

abbrev pub set_semaphore : Ptr → Semaphore → Kernel → Kernel
set_semaphore sem s k = record k { semaphores = update k.semaphores sem s }

-- `sem->count++` and `sem->count--`.
abbrev pub increment : ℕ → ℕ
increment count = (count + 1) % 256

abbrev pub decrement : ℕ → ℕ
decrement count = (count + 255) % 256

abbrev pub set_count : Ptr → ℕ → Kernel → Kernel
set_count sem c k = set_semaphore sem (record (k.semaphores sem) { count = c }) k

-- The caller's `initial_count` is converted to an `int8s_t`.
unfoldable pub init_semaphore : Ptr → ℕ → ℕ → Kernel → Kernel
init_semaphore sem initial_count queue_type k = if sem == null then k else record k {
  semaphores =
      update k.semaphores sem (record { count = initial_count % 256; queue_type = queue_type });
  heads = update k.heads (wait_queue sem) null;
}

pub data Acquired : Type 0 where
  returned : ℕ → Kernel → Acquired
  blocked : Kernel → Acquired

-- `sem->count--; hal_restore_interrupt(flag); return 1;`.
unfoldable pub take : Ptr → ℕ → Kernel → Acquired
take sem flag k =
    returned 1 (restore_interrupt flag (set_count sem (decrement (k.semaphores sem).count) k))

-- The time at which a wait that begins now gives up.
unfoldable pub deadline : ℕ → Kernel → ℕ
deadline timeout k = (k.ticks system_timer + timeout) % 2 ^ 32

unfoldable pub acquire_semaphore : ℕ → Ptr → ℕ → Kernel → Run Acquired
acquire_semaphore fuel sem timeout k =
    if sem == null
    then ok (returned 0 k)
    else if not (k.scheduler_lock == 0)
    then ok (returned 0 k)
    else let (flag, k1) = disable_interrupt k in
      let s = k1.semaphores sem in
      if not (not_positive s.count)
      then ok (take sem flag k1)
      else if is_negative timeout
      then ok (returned 0 (restore_interrupt flag k1))
      else (do
        let task = k1.current_task
        k2 ← set_alarm fuel system_timer task timeout wakeup_handler task k1
        k3 ← wait_in_queue fuel (wait_queue sem) s.queue_type (restore_interrupt flag k2)
        ok (blocked k3))

-- From the return of `_os_wait_in_queue` on; `abs_timeout` was computed at the start of the call.
unfoldable pub resume_acquire : ℕ → Ptr → ℕ → ℕ → Kernel → Run Acquired
resume_acquire fuel sem timeout abs_timeout k =
    if not (timeout == 0) && leb abs_timeout (k.ticks system_timer)
    then ok (returned 0 k)
    else let (flag, k1) = disable_interrupt k in
      let s = k1.semaphores sem in
      if not_positive s.count
      then (do
        k2 ← wait_in_queue fuel (wait_queue sem) s.queue_type (restore_interrupt flag k1)
        ok (blocked k2))
      else (do
        k2 ← set_alarm fuel system_timer k1.current_task 0 null null k1
        ok (take sem flag k2))

unfoldable pub release_semaphore : Ptr → Kernel → Run Kernel
release_semaphore sem k =
    if sem == null
    then ok k
    else let (flag, k1) = disable_interrupt k in
      let k2 = restore_interrupt flag (set_count sem (increment (k1.semaphores sem).count) k1) in
      if k2.heads (wait_queue sem) == null then ok k2 else wakeup_from_queue (wait_queue sem) k2

unfoldable pub init_condition : Ptr → ℕ → Kernel → Kernel
init_condition cond queue_type k = if cond == null then k else record k {
  heads = update k.heads (condition_queue cond) null;
  conditions = update k.conditions cond (queue_type % 256);
}

-- `eos_wait_condition` up to the wait on the condition. It is entered again at `start_wait` if the
-- release of the mutex switches to another task.
unfoldable pub release_mutex : Ptr → Ptr → Kernel → Run Kernel
release_mutex cond mutex k =
    if cond == null || mutex == null then ok k else release_semaphore mutex k

unfoldable pub start_wait : ℕ → Ptr → Kernel → Run Kernel
start_wait fuel cond k = wait_in_queue fuel (condition_queue cond) (k.conditions cond) k

-- The last part, when the waiter is resumed.
unfoldable pub end_wait : ℕ → Ptr → Kernel → Run Acquired
end_wait fuel mutex k = acquire_semaphore fuel mutex 0 k

unfoldable pub notify_condition : Ptr → Kernel → Run Kernel
notify_condition cond k = if cond == null then ok k else wakeup_from_queue (condition_queue cond) k
