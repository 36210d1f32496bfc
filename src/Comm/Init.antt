-- ===== src/Comm/Init.antt =====
-- A new message queue: `eos_init_mqueue` of eos_aarch64/core/comm.c, and the first send.
use e_os_aarch64_hal.Base.{
  ℕ, ◌≤◌, ◌<◌, ◌^◌, ◌%◌, ◌≡◌, ◌≢◌, refl, ◌⊎◌, [], arith, ◌==◌, false, true, ◌||◌,
}
use e_os_aarch64_hal.Base.Run.{ok}
use e_os_aarch64_hal.NodeList.{null}
use e_os_aarch64_hal.Kernel.{Kernel}
use e_os_aarch64_hal.Sync.{returned, init_semaphore, acquire_semaphore}
use e_os_aarch64_hal.Comm.{init_mqueue, put_semaphore, get_semaphore, start_send}
use e_os_aarch64_hal.Comm.Ring.{Holds, Filled}

-- With a buffer, and sizes other than 0, the new queue holds no message; the semaphore of the
-- senders starts with the low byte of the number of slots, the one of the receivers with 0.
pub init_mqueue-Holds :
    (k : Kernel) (mq start size msg_size queue_type : ℕ)
    → mq ≢ null
    → start ≢ null
    → size ≢ 0
    → msg_size ≢ 0
    → size < 2 ^ 16
    → let k1 = init_mqueue mq start size msg_size queue_type k in
      Holds (k1.mqueues mq) k1.bytes []
      × ((k1.semaphores (put_semaphore mq)).count ≡ size % 256)
      × ((k1.semaphores (get_semaphore mq)).count ≡ 0)
unfolding init_mqueue init_semaphore Filled
init_mqueue-Holds k mq start size msg_size queue_type nmq nstart nsize nmsg small =
    let guard : (mq == null || start == null || size == 0 || msg_size == 0) ≡ false =
      ground arith in
    let same : (mq == mq) ≡ true = ground arith in
    let put : (put_semaphore mq == null) ≡ false = ground arith in
    let get : (get_semaphore mq == null) ≡ false = ground arith in
    rw (guard, put, get, same)
      (
        record {
          small = small;
          front = ground arith;
          room = ground arith;
          rear = ground arith;
          filled = refl;
        },
        ground arith,
        ground arith,
      )

-- The count of a semaphore is a signed byte. So in a new queue whose number of slots has a low byte
-- of 0, or of 128 and more, the first send finds no room: one that is told not to wait returns 0 and
-- changes nothing.
pub start_send-init_mqueue :
    (k : Kernel) (fuel mq start size msg_size queue_type message timeout : ℕ)
    → mq ≢ null
    → start ≢ null
    → size ≢ 0
    → msg_size ≢ 0
    → (size % 256 ≡ 0) ⊎ (128 ≤ size % 256)
    → 2 ^ 31 ≤ timeout
    → let k1 = init_mqueue mq start size msg_size queue_type k in
      start_send fuel mq message timeout k1 ≡ ok (returned 0 k1)
unfolding init_mqueue init_semaphore start_send acquire_semaphore
start_send-init_mqueue k fuel mq start size msg_size queue_type message timeout nmq nstart nsize
      nmsg wide neg =
    ground arith
