-- ===== src/Kernel.antt =====
-- The state that the kernel's components share, and the moves on it that they are made of.
--
-- Objects are named by their addresses, 0 is NULL. A task's list node and the node of an alarm are
-- fields of their structures, so their addresses are functions of the structure's; so are those of
-- the list heads. The functions below give distinct objects distinct addresses. The alarm inside a
-- TCB carries the number of the TCB.
pub mod Lists
pub mod Queues
use e_os_aarch64_hal.Base.{ℕ, ◌+◌, ◌*◌, ◌%◌, some, none, if◌then◌else◌, ◌==◌, bit_or}
use e_os_aarch64_hal.Base.Run.{Run, ok, hang, ◌>>=◌}
use e_os_aarch64_hal.NodeList.{Ptr, null, Heap, add_node_tail, add_node_ordered, remove_node}
use e_os_aarch64_hal.Bitmap.{Bitmap, set_ready, unset_ready}

pub record Tcb : Type 0 where
  pub status : ℕ
  pub sp : ℕ
  pub priority : ℕ
  pub period : ℕ
  pub wakeup_time : ℕ
  pub wait_queue_owner : Ptr

pub record Alarm : Type 0 where
  pub timeout : ℕ
  pub handler : ℕ
  pub arg : ℕ

-- `count` is the bit pattern of an `int8s_t`.
pub record Semaphore : Type 0 where
  pub count : ℕ
  pub queue_type : ℕ

pub record Mqueue : Type 0 where
  pub queue_size : ℕ
  pub msg_size : ℕ
  pub queue_start : ℕ
  pub front : ℕ
  pub rear : ℕ
  pub queue_type : ℕ

-- `words` is the memory of the stacks, `daif` is the interrupt mask register, `frame` the address that `_os_save_context` returns at the
-- present stack pointer, `resumed` the context last handed to `_os_restore_and_eret`.
pub record Kernel : Type 0 where
  pub heap : Heap
  pub heads : Ptr → Ptr
  pub tcbs : Ptr → Tcb
  pub alarms : Ptr → Alarm
  pub ticks : Ptr → ℕ
  pub semaphores : Ptr → Semaphore
  pub conditions : Ptr → ℕ
  pub mqueues : Ptr → Mqueue
  pub bytes : ℕ → ℕ
  pub words : ℕ → ℕ
  pub bitmap : Bitmap
  pub scheduler_lock : ℕ
  pub ready_queue_lock : ℕ
  pub current_task : Ptr
  pub daif : ℕ
  pub frame : ℕ
  pub resumed : ℕ

abbrev pub update {ℓ} : {A : Type ℓ} → (ℕ → A) → ℕ → A → ℕ → A
update f p v q = if p == q then v else f q

abbrev pub queue_node : Ptr → Ptr
queue_node task = 2 * task

abbrev pub alarm_node : Ptr → Ptr
alarm_node alarm = 2 * alarm + 1

-- `&_os_ready_queue[p]`, `&counter->alarm_queue`, `&sem->wait_queue` and `&cond->wait_queue`.
abbrev pub ready_queue : ℕ → Ptr
ready_queue p = p + 1

abbrev pub alarm_queue : Ptr → Ptr
alarm_queue counter = 65 + 3 * counter

abbrev pub wait_queue : Ptr → Ptr
wait_queue sem = 66 + 3 * sem

abbrev pub condition_queue : Ptr → Ptr
condition_queue cond = 67 + 3 * cond

-- The address of `system_timer`.
abbrev pub system_timer : Ptr
system_timer = 1

abbrev pub locked : ℕ
locked = 1

abbrev pub unlocked : ℕ
unlocked = 0

abbrev pub disable_interrupt : Kernel → ℕ × Kernel
disable_interrupt k = (k.daif, record k { daif = bit_or k.daif 0x80 })

abbrev pub restore_interrupt : ℕ → Kernel → Kernel
restore_interrupt flag k = record k { daif = flag }

-- A lock that is held is never given back while interrupts are masked on the one core.
unfoldable pub spin_lock : Kernel → Run Kernel
spin_lock k = if k.ready_queue_lock == 0 then ok (record k { ready_queue_lock = 1 }) else hang

unfoldable pub spin_unlock : Kernel → Kernel
spin_unlock k = record k { ready_queue_lock = 0 }

unfoldable pub lock_sync : Kernel → Run (ℕ × Kernel)
unfolding spin_lock
lock_sync k = do let (flag, k1) = disable_interrupt k; k2 ← spin_lock k1; ok (flag, k2)

unfoldable pub unlock_sync : ℕ → Kernel → Kernel
unfolding spin_unlock
unlock_sync flag k = restore_interrupt flag (spin_unlock k)

-- The list functions on a head in memory.
unfoldable pub add_tail : Ptr → Ptr → Kernel → Kernel
add_tail q node k =
    let (h, head) = add_node_tail (k.heads q) node k.heap in
    record k { heap = h; heads = update k.heads q head }

unfoldable pub add_ordered : ℕ → Ptr → Ptr → Kernel → Run Kernel
add_ordered fuel q node k = elim (add_node_ordered fuel (k.heads q) node k.heap) [
  | none ↦ hang
  | some (h, head) ↦ ok (record k { heap = h; heads = update k.heads q head })
]

unfoldable pub remove : Ptr → Ptr → Kernel → Kernel
remove q node k =
    let (found, h, head) = remove_node (k.heads q) node k.heap in
    record k { heap = h; heads = update k.heads q head }

abbrev pub set_tcb : Ptr → Tcb → Kernel → Kernel
set_tcb task t k = record k { tcbs = update k.tcbs task t }

abbrev pub set_status : Ptr → ℕ → Kernel → Kernel
set_status task s k = set_tcb task (record (k.tcbs task) { status = s }) k

-- `_os_add_node_tail(&_os_ready_queue[p], &task->queue_node); _os_set_ready(p);`, where the
-- priority becomes an `int8u_t` in the second call.
unfoldable pub enter_ready : ℕ → Ptr → Kernel → Kernel
unfolding add_tail
enter_ready p task k =
    let k1 = add_tail (ready_queue p) (queue_node task) k in
    record k1 { bitmap = set_ready (p % 256) k1.bitmap }

-- `_os_remove_node(&_os_ready_queue[p], node); if (!_os_ready_queue[p]) _os_unset_ready(p);`.
unfoldable pub leave_ready : ℕ → Ptr → Kernel → Kernel
unfolding remove
leave_ready p node k =
    let k1 = remove (ready_queue p) node k in
    if k1.heads (ready_queue p) == null
    then record k1 { bitmap = unset_ready (p % 256) k1.bitmap }
    else k1
