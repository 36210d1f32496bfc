-- ===== src/Task.antt =====
-- Tasks and scheduling: eos_aarch64/core/task.c, and the scheduler lock of
-- eos_aarch64/core/scheduler.c. What the kernel prints is not modelled.
pub mod Invariant
pub mod Dispatch
pub mod Ready
pub mod Schedule
pub mod Moves
pub mod Wait
pub mod Wake
pub mod Create
pub mod Live
pub mod Priority
pub mod Alarm
use e_os_aarch64_hal.Base.{ℕ, zero, suc, ◌+◌, ◌-◌, ◌^◌, ◌||◌, if◌then◌else◌, ◌==◌, ltb}
use e_os_aarch64_hal.Base.Run.{Run, ok, fault, ◌>>=◌}
use e_os_aarch64_hal.NodeList.{Ptr, null, write}
use e_os_aarch64_hal.Bitmap.{get_highest_priority, lowest_priority}
use e_os_aarch64_hal.Hal.Context.{create_context}
use e_os_aarch64_hal.Kernel.{
  Kernel, update, queue_node, ready_queue, locked, disable_interrupt, restore_interrupt, lock_sync,
  unlock_sync, add_tail, add_ordered, remove, set_tcb, set_status, enter_ready, leave_ready,
  system_timer,
}

abbrev pub ready : ℕ
ready = 1

abbrev pub running : ℕ
running = 2

abbrev pub waiting : ℕ
waiting = 3

abbrev pub suspended : ℕ
suspended = 4

abbrev pub min_stack_size : ℕ
min_stack_size = 1024

-- `(int32u_t)-1`.
abbrev pub failure : ℕ
failure = 2 ^ 32 - 1

-- The part of `eos_schedule` that selects the next task and hands the processor over. An empty
-- ready queue makes `node->pnode` a read through NULL.
unfoldable pub dispatch : Kernel → Run Kernel
dispatch k =
    let node = k.heads (ready_queue (get_highest_priority k.bitmap)) in
    if node == null
    then fault
    else let next_task = k.heap.pnode node in
      let k1 = leave_ready (k.tcbs next_task).priority node k in
      let k2 = set_status next_task running k1 in
      ok (record k2 { current_task = next_task; resumed = (k2.tcbs next_task).sp })

-- The running task goes behind the ready tasks of its priority.
unfoldable pub yield_current : Kernel → Kernel
yield_current k =
    let task = k.current_task in
    if (k.tcbs task).status == running
    then set_status task ready (enter_ready (k.tcbs task).priority task k)
    else k

unfoldable pub schedule : Kernel → Run Kernel
schedule k =
    let (flag, masked) = disable_interrupt k in
    if masked.scheduler_lock == locked
    then ok (restore_interrupt flag masked)
    else let k1 = restore_interrupt flag masked in
      if k1.current_task == null
      then dispatch k1
      else let k2 = yield_current k1 in
        if k2.frame == null
        then ok k2
        else dispatch
            (set_tcb k2.current_task (record (k2.tcbs k2.current_task) { sp = k2.frame }) k2)

unfoldable pub create_task : (task start size entry arg priority : ℕ) → Kernel → Run (ℕ × Kernel)
create_task task start size entry arg priority k =
    if task == null || entry == null
    then ok (failure, k)
    else if ltb lowest_priority priority
    then ok (failure, k)
    else if start == null || ltb size min_stack_size
    then ok (failure, k)
    else do
      let t = record (k.tcbs task) { priority = priority; period = 0; wakeup_time = 0 }
      let node = queue_node task
      let h = record k.heap {
        pnode = write k.heap.pnode node task;
        order_val = write k.heap.order_val node priority;
      }
      let (ctx, words) = create_context start size entry arg k.words
      let k1 = record k {
        heap = h;
        words = words;
        tcbs = update k.tcbs task (record t { sp = ctx });
      }
      (flag, k2) ← lock_sync k1
      let k3 = enter_ready (k2.tcbs task).priority task k2
      let k4 = unlock_sync flag k3
      let k5 = set_status task ready k4
      k6 ← schedule k5
      ok (0, k6)

unfoldable pub change_priority : Ptr → ℕ → Kernel → Run Kernel
change_priority task priority k =
    if task == null || ltb lowest_priority priority
    then ok k
    else let t = k.tcbs task in
      let k1 =
        if t.status == ready
        then enter_ready priority task (leave_ready t.priority (queue_node task) k)
        else k in
      let h = record k1.heap { order_val = write k1.heap.order_val (queue_node task) priority } in
      schedule (record k1 {
        heap = h;
        tcbs = update k1.tcbs task (record (k1.tcbs task) { priority = priority });
      })

pub get_priority : Ptr → Kernel → ℕ
get_priority task k = (k.tcbs task).priority

unfoldable pub set_period : Ptr → ℕ → Kernel → Kernel
set_period task period k =
    set_tcb task (record (k.tcbs task) { period = period; wakeup_time = k.ticks system_timer }) k

pub get_period : Ptr → Kernel → ℕ
get_period task k = (k.tcbs task).period

unfoldable pub suspend_task : Ptr → Kernel → ℕ × Kernel
suspend_task task k =
    if task == null
    then (failure, k)
    else let t = k.tcbs task in
      if t.status == ready
      then (0, set_status task suspended (leave_ready t.priority (queue_node task) k))
      else (0, k)

unfoldable pub resume_task : Ptr → Kernel → Run (ℕ × Kernel)
resume_task task k =
    if task == null
    then ok (failure, k)
    else let t = k.tcbs task in
      if t.status == suspended
      then (do k1 ← schedule (set_status task ready (enter_ready t.priority task k)); ok (0, k1))
      else ok (0, k)

-- The insertion into a wait queue: `queue_type` 0 is first come, first served.
abbrev pub insert_by : ℕ → Ptr → ℕ → Ptr → Kernel → Run Kernel
insert_by fuel q queue_type node k =
    if queue_type == 0 then ok (add_tail q node k) else add_ordered fuel q node k

unfoldable pub enter_wait : ℕ → Ptr → ℕ → Kernel → Run Kernel
enter_wait fuel q queue_type k = do
  let task = k.current_task
  k1 ← insert_by fuel q queue_type (queue_node task) k
  ok (set_tcb task (record (k1.tcbs task) { wait_queue_owner = q; status = waiting }) k1)

unfoldable pub wait_in_queue : ℕ → Ptr → ℕ → Kernel → Run Kernel
wait_in_queue fuel q queue_type k =
    if k.current_task == null then fault else enter_wait fuel q queue_type k >>= schedule

-- The first task of a wait queue becomes ready.
unfoldable pub wake_first : Ptr → Kernel → Kernel
wake_first q k =
    let task = k.heap.pnode (k.heads q) in
    let k1 = remove q (queue_node task) k in
    set_status task ready (enter_ready (k1.tcbs task).priority task k1)

unfoldable pub wakeup_from_queue : Ptr → Kernel → Run Kernel
wakeup_from_queue q k = if k.heads q == null then ok k else schedule (wake_first q k)

unfoldable pub wakeup_from_alarm_queue : Ptr → Kernel → Kernel
wakeup_from_alarm_queue task k =
    let owner = (k.tcbs task).wait_queue_owner in
    let k1 =
      if owner == null
      then k
      else let k' = remove owner (queue_node task) k in
        set_tcb task (record (k'.tcbs task) { wait_queue_owner = null }) k' in
    set_status task ready (enter_ready (k1.tcbs task).priority task k1)

-- The scheduler lock.
unfoldable pub lock_scheduler : Kernel → ℕ × Kernel
lock_scheduler k =
    let (flag, k1) = disable_interrupt k in
    let temp = k1.scheduler_lock in
    (temp, restore_interrupt flag (record k1 { scheduler_lock = locked }))

unfoldable pub restore_scheduler : ℕ → Kernel → Run Kernel
restore_scheduler scheduler_state k =
    let (flag, k1) = disable_interrupt k in
    schedule (restore_interrupt flag (record k1 { scheduler_lock = scheduler_state }))

unfoldable pub clear_heads : ℕ → (Ptr → Ptr) → Ptr → Ptr
clear_heads zero heads = heads
clear_heads (suc n) heads = clear_heads n (update heads (ready_queue (lowest_priority - n)) null)

unfoldable pub init_task : Kernel → Kernel
unfolding clear_heads
init_task k = record k { current_task = null; heads = clear_heads (lowest_priority + 1) k.heads }
