-- ===== src/Task/Ready.antt =====
-- A task enters and leaves the ready queues, as most calls of eos_aarch64/core/task.c make it do.
use e_os_aarch64_hal.Base.{ℕ, ◌<◌, ◌≡◌, refl, fun_ext, ◌≢◌, arith, ◌∉◌, eq-cases}
use e_os_aarch64_hal.NodeList.{Ptr, null}
use e_os_aarch64_hal.NodeList.Chain.{Ring-Distinct}
use e_os_aarch64_hal.Kernel.{Kernel, queue_node, ready_queue, enter_ready, leave_ready, set_status}
use e_os_aarch64_hal.Kernel.Lists.{Lists}
use e_os_aarch64_hal.Kernel.Queues.{
  appended, erased, enter_ready-Queues, enter_ready-SameNodes, enter_ready-SameTasks,
  leave_ready-Queues, leave_ready-SameNodes, leave_ready-SameTasks,
}
use e_os_aarch64_hal.Task.{ready, running}
use e_os_aarch64_hal.Task.Invariant.{IsValid, Tasks-enter, Tasks-leave}

module _ (k : Kernel) (qs : Lists) (v : IsValid k qs) (t : Ptr) where
  -- A task in no list becomes ready, at the end of the queue of its priority.
  pub make_ready-IsValid :
      (k.tcbs t).priority < 64
      → k.heap.pnode (queue_node t) ≡ t
      → t ≢ null
      → ((q : Ptr) → queue_node t ∉ qs q)
      → IsValid
          (set_status t ready (enter_ready (k.tcbs t).priority t k))
          (appended (ready_queue (k.tcbs t).priority) (queue_node t) qs)
  make_ready-IsValid hp node ne out =
      let p = (k.tcbs t).priority in
      let same = enter_ready-SameTasks p t k in
      let nodes = enter_ready-SameNodes k qs v.queues p t in
      let entered = enter_ready-Queues k qs v.queues p t hp (ground arith) out in
      let tasks =
        Tasks-enter k.tcbs k.heap.pnode k.current_task qs v.tasks t
          (record (k.tcbs t) { status = ready }) refl hp node ne out in
      record {
        queues = record { rep = entered.rep; bits = entered.bits; agree = entered.agree };
        tasks = rw (same.tcbs, same.current_task, fun_ext nodes.pnode) tasks;
      }

  -- A ready task leaves its queue for another status.
  pub make_idle-IsValid :
      (s : ℕ)
      → (k.tcbs t).status ≡ ready
      → s ≢ ready
      → s ≢ running
      → IsValid
          (set_status t s (leave_ready (k.tcbs t).priority (queue_node t) k))
          (erased (ready_queue (k.tcbs t).priority) (queue_node t) qs)
  make_idle-IsValid s e ne ne' =
      let p = (k.tcbs t).priority in
      let made = v.tasks.created t (ground arith) in
      let here = v.tasks.listed t e in
      let same = leave_ready-SameTasks p (queue_node t) k in
      let nodes = leave_ready-SameNodes k qs v.queues p (queue_node t) here in
      let left = leave_ready-Queues k qs v.queues p (queue_node t) made.0 here in
      let distinct =
        Ring-Distinct k.heap (k.heads (ready_queue p)) (qs (ready_queue p))
          (v.queues.rep.ring (ready_queue p)) in
      let tasks =
        Tasks-leave k.tcbs k.heap.pnode k.current_task qs v.tasks t k.current_task
          (record (k.tcbs t) { status = s }) e distinct ne refl
          (λ u r. ground (arith, v.tasks.running u, eq-cases t u)) in
      record {
        queues = record { rep = left.rep; bits = left.bits; agree = left.agree };
        tasks = rw (same.tcbs, same.current_task, fun_ext nodes.pnode) tasks;
      }
