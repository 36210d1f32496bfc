-- ===== src/Comm.antt =====
-- Message queues: eos_aarch64/core/comm.c.
--
-- `eos_send_message` and `eos_receive_message` may switch tasks at the semaphores and where they
-- give the scheduler back, so each is modelled as its parts between those points.
pub mod Copy
pub mod Ring
pub mod Init
use e_os_aarch64_hal.Base.{ℕ, zero, suc, ◌+◌, ◌*◌, ◌%◌, ◌^◌, ◌||◌, if◌then◌else◌, ◌==◌}
use e_os_aarch64_hal.Base.Run.{Run, ok, ◌>>=◌}
use e_os_aarch64_hal.NodeList.{Ptr, null}
use e_os_aarch64_hal.Kernel.{Mqueue, Kernel, update}
use e_os_aarch64_hal.Task.{lock_scheduler, restore_scheduler}
use e_os_aarch64_hal.Sync.{Acquired, returned, init_semaphore, acquire_semaphore, release_semaphore}

-- The semaphores are fields of the structure.
abbrev pub put_semaphore : Ptr → Ptr
put_semaphore mq = mq + 24

abbrev pub get_semaphore : Ptr → Ptr
get_semaphore mq = mq + 48

unfoldable pub init_mqueue : (mq start size msg_size queue_type : ℕ) → Kernel → Kernel
init_mqueue mq start size msg_size queue_type k =
    if mq == null || start == null || size == 0 || msg_size == 0
    then k
    else let q : Mqueue = record {
      queue_size = size;
      msg_size = msg_size;
      queue_start = start;
      front = 0;
      rear = 0;
      queue_type = queue_type;
    } in
      init_semaphore (get_semaphore mq) 0 queue_type (
        init_semaphore (put_semaphore mq) size queue_type
          (record k { mqueues = update k.mqueues mq q }))

-- `for (i = 0; i < n; i++) dest[i] = src[i];`, with the rounds that are left.
unfoldable pub copy_loop : ℕ → ℕ → ℕ → ℕ → (ℕ → ℕ) → ℕ → ℕ
copy_loop zero i dest src bytes = bytes
copy_loop (suc left) i dest src bytes =
    copy_loop left (i + 1) dest src (update bytes (dest + i) (bytes (src + i)))

unfoldable pub copy : ℕ → ℕ → ℕ → (ℕ → ℕ) → ℕ → ℕ
unfolding copy_loop
copy n dest src bytes = copy_loop n 0 dest src bytes

-- `index++; if (index == queue_size) index = 0;` on an `int16u_t`.
abbrev pub advance : ℕ → ℕ → ℕ
advance size index = let next = (index + 1) % 2 ^ 16 in if next == size then 0 else next

-- The start of slot `i` of the buffer.
abbrev pub slot : Mqueue → ℕ → ℕ
slot q i = q.queue_start + q.msg_size * i

unfoldable pub put_message : Ptr → ℕ → Kernel → Kernel
put_message mq message k =
    let q = k.mqueues mq in
    record k {
      mqueues = update k.mqueues mq (record q { rear = advance q.queue_size q.rear });
      bytes = copy q.msg_size (slot q q.rear) message k.bytes;
    }

unfoldable pub get_message : Ptr → ℕ → Kernel → Kernel
get_message mq message k =
    let q = k.mqueues mq in
    record k {
      mqueues = update k.mqueues mq (record q { front = advance q.queue_size q.front });
      bytes = copy q.msg_size message (slot q q.front) k.bytes;
    }

-- The start of both functions: the arguments are checked and the semaphore is acquired.
unfoldable pub start_send : ℕ → Ptr → ℕ → ℕ → Kernel → Run Acquired
start_send fuel mq message timeout k =
    if mq == null || message == null
    then ok (returned 0 k)
    else acquire_semaphore fuel (put_semaphore mq) timeout k

unfoldable pub start_receive : ℕ → Ptr → ℕ → ℕ → Kernel → Run Acquired
start_receive fuel mq message timeout k =
    if mq == null || message == null
    then ok (returned 0 k)
    else acquire_semaphore fuel (get_semaphore mq) timeout k

-- The critical section, with the scheduler locked.
unfoldable pub send_body : Ptr → ℕ → Kernel → Run Kernel
send_body mq message k =
    let (lock_flag, k1) = lock_scheduler k in
    restore_scheduler lock_flag (put_message mq message k1)

unfoldable pub receive_body : Ptr → ℕ → Kernel → Run Kernel
receive_body mq message k =
    let (lock_flag, k1) = lock_scheduler k in
    restore_scheduler lock_flag (get_message mq message k1)

-- The other side is told, and the size of the message is returned.
unfoldable pub end_send : Ptr → Kernel → Run (ℕ × Kernel)
end_send mq k = do k1 ← release_semaphore (get_semaphore mq) k; ok ((k1.mqueues mq).msg_size, k1)

unfoldable pub end_receive : Ptr → Kernel → Run (ℕ × Kernel)
end_receive mq k = do k1 ← release_semaphore (put_semaphore mq) k; ok ((k1.mqueues mq).msg_size, k1)
