-- ===== src/Calls/Keep.antt =====
-- What the moves of eos_aarch64/core/task.c between lists leave alone.
use e_os_aarch64_hal.Base.{ℕ, ap, inl, inr, arith, ◌==◌, Bool-cases}
use e_os_aarch64_hal.NodeList.{Ptr, write}
use e_os_aarch64_hal.Kernel.{Tcb, Kernel, queue_node, alarm_node, enter_ready, leave_ready, remove}
use e_os_aarch64_hal.Task.{ready, wake_first}
use e_os_aarch64_hal.Task.Priority.{prioritized}
use e_os_aarch64_hal.Task.Live.{Kept, Kept-refl, Kept-trans, leave_ready-Kept}
use e_os_aarch64_hal.Timer.Untouched.{
  SameAlarms, SameAlarms-trans, enter_ready-SameAlarms, remove-SameAlarms,
}

pub SameAlarms-Kept : (k k' : Kernel) → SameAlarms k k' → Kept k k'
SameAlarms-Kept k k' same = record {
  scheduler_lock = same.scheduler_lock;
  ready_queue_lock = same.ready_queue_lock;
  frame = same.frame;
  alarms = same.alarms;
  semaphores = same.semaphores;
  mqueues = same.mqueues;
  bytes = same.bytes;
  pnode = λ t. ap (λ (f : Ptr → Ptr). f (alarm_node t)) same.pnode;
  order_val = λ t. ap (λ (f : Ptr → ℕ). f (alarm_node t)) same.order_val;
}

-- Nothing of it is in a TCB.
pub Kept-tcbs : (k w : Kernel) (tcbs : Ptr → Tcb) → Kept k w → Kept k (record w { tcbs = tcbs })
Kept-tcbs k w tcbs c = record {
  scheduler_lock = c.scheduler_lock;
  ready_queue_lock = c.ready_queue_lock;
  frame = c.frame;
  alarms = c.alarms;
  semaphores = c.semaphores;
  mqueues = c.mqueues;
  bytes = c.bytes;
  pnode = c.pnode;
  order_val = c.order_val;
}

pub enter_ready-Kept : (p t : Ptr) (k : Kernel) → Kept k (enter_ready p t k)
enter_ready-Kept p t k = SameAlarms-Kept k (enter_ready p t k) (enter_ready-SameAlarms p t k)

pub wake_first-Kept : (q : Ptr) (k : Kernel) → Kept k (wake_first q k)
unfolding wake_first
wake_first-Kept q k =
    let t = k.heap.pnode (k.heads q) in
    let k1 = remove q (queue_node t) k in
    let k2 = enter_ready (k1.tcbs t).priority t k1 in
    let same =
      SameAlarms-trans k k1 k2 (remove-SameAlarms q (queue_node t) k)
        (enter_ready-SameAlarms (k1.tcbs t).priority t k1) in
    Kept-tcbs k k2 _ (SameAlarms-Kept k k2 same)

reordered-Kept :
    (k w : Kernel) (t : Ptr) (p : ℕ) (tcbs : Ptr → Tcb)
    → Kept k w
    → Kept k (record w {
      heap = record w.heap { order_val = write w.heap.order_val (queue_node t) p };
      tcbs = tcbs;
    })
reordered-Kept k w t p tcbs c = record {
  scheduler_lock = c.scheduler_lock;
  ready_queue_lock = c.ready_queue_lock;
  frame = c.frame;
  alarms = c.alarms;
  semaphores = c.semaphores;
  mqueues = c.mqueues;
  bytes = c.bytes;
  pnode = c.pnode;
  order_val = λ u. ground (arith, c.order_val u);
}

pub prioritized-Kept : (k : Kernel) (t : Ptr) (p : ℕ) → Kept k (prioritized k t p)
prioritized-Kept k t p = elim (Bool-cases ((k.tcbs t).status == ready)) [
  | inl e ↦
      let k1 = leave_ready (k.tcbs t).priority (queue_node t) k in
      let k2 = enter_ready p t k1 in
      let c =
        Kept-trans k k1 k2 (leave_ready-Kept (k.tcbs t).priority (queue_node t) k)
          (enter_ready-Kept p t k1) in
      rw e (reordered-Kept k k2 t p _ c)
  | inr e ↦ rw e (reordered-Kept k k t p _ (Kept-refl k))
]
