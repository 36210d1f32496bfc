-- ===== src/Timer/Untouched.antt =====
-- What waking a task by its alarm leaves alone.
use e_os_aarch64_hal.Base.{◌≡◌, refl, ap, ◌≢◌, inl, inr, ◌∙◌, true, arith, ◌==◌, eq-cases}
use e_os_aarch64_hal.NodeList.{Ptr, null, add_node_tail, link_before, link_self}
use e_os_aarch64_hal.Kernel.{
  Tcb, Kernel, queue_node, enter_ready, add_tail, remove, set_status, set_tcb,
}
use e_os_aarch64_hal.Task.{ready, wakeup_from_alarm_queue}
use e_os_aarch64_hal.Task.Live.{remove_node-fields}

-- What the kernel's moves on lists leave alone: all that says which alarm is due when, for whom.
pub record SameAlarms (k k' : Kernel) : Type 0 where
  pub pnode : k'.heap.pnode ≡ k.heap.pnode
  pub order_val : k'.heap.order_val ≡ k.heap.order_val
  pub alarms : k'.alarms ≡ k.alarms
  pub ticks : k'.ticks ≡ k.ticks
  pub current_task : k'.current_task ≡ k.current_task
  pub scheduler_lock : k'.scheduler_lock ≡ k.scheduler_lock
  pub frame : k'.frame ≡ k.frame
  pub ready_queue_lock : k'.ready_queue_lock ≡ k.ready_queue_lock
  pub semaphores : k'.semaphores ≡ k.semaphores
  pub mqueues : k'.mqueues ≡ k.mqueues
  pub bytes : k'.bytes ≡ k.bytes

pub SameAlarms-refl : (k : Kernel) → SameAlarms k k
SameAlarms-refl k = record {
  pnode = refl;
  order_val = refl;
  alarms = refl;
  ticks = refl;
  current_task = refl;
  scheduler_lock = refl;
  frame = refl;
  ready_queue_lock = refl;
  semaphores = refl;
  mqueues = refl;
  bytes = refl;
}

pub SameAlarms-trans : (j k l : Kernel) → SameAlarms j k → SameAlarms k l → SameAlarms j l
SameAlarms-trans j k l a b = record {
  pnode = b.pnode ∙ a.pnode;
  order_val = b.order_val ∙ a.order_val;
  alarms = b.alarms ∙ a.alarms;
  ticks = b.ticks ∙ a.ticks;
  current_task = b.current_task ∙ a.current_task;
  scheduler_lock = b.scheduler_lock ∙ a.scheduler_lock;
  frame = b.frame ∙ a.frame;
  ready_queue_lock = b.ready_queue_lock ∙ a.ready_queue_lock;
  semaphores = b.semaphores ∙ a.semaphores;
  mqueues = b.mqueues ∙ a.mqueues;
  bytes = b.bytes ∙ a.bytes;
}

pub remove-SameAlarms : (q n : Ptr) (k : Kernel) → SameAlarms k (remove q n k)
unfolding remove
remove-SameAlarms q n k =
    let (p, o) = remove_node-fields (k.heads q) n k.heap in
    record {
      pnode = p;
      order_val = o;
      alarms = refl;
      ticks = refl;
      current_task = refl;
      scheduler_lock = refl;
      frame = refl;
      ready_queue_lock = refl;
      semaphores = refl;
      mqueues = refl;
      bytes = refl;
    }

pub remove-tcbs : (q n : Ptr) (k : Kernel) → (remove q n k).tcbs ≡ k.tcbs
unfolding remove
remove-tcbs q n k = refl

pub enter_ready-SameAlarms : (p t : Ptr) (k : Kernel) → SameAlarms k (enter_ready p t k)
unfolding enter_ready add_tail add_node_tail link_before link_self
enter_ready-SameAlarms p t k = record {
  pnode = ground arith;
  order_val = ground arith;
  alarms = refl;
  ticks = refl;
  current_task = refl;
  scheduler_lock = refl;
  frame = refl;
  ready_queue_lock = refl;
  semaphores = refl;
  mqueues = refl;
  bytes = refl;
}

pub enter_ready-tcbs : (p t : Ptr) (k : Kernel) → (enter_ready p t k).tcbs ≡ k.tcbs
unfolding enter_ready
enter_ready-tcbs p t k = refl

abbrev pub Untouched : Kernel → Kernel → Ptr → Type 0
Untouched k k' t = SameAlarms k k' × ((u : Ptr) → u ≢ t → k'.tcbs u ≡ k.tcbs u)

pub ready-Untouched :
    (k k1 : Kernel) (t : Ptr)
    → Untouched k k1 t
    → Untouched k (set_status t ready (enter_ready (k1.tcbs t).priority t k1)) t
ready-Untouched k k1 t (same, others) =
    let e = enter_ready-SameAlarms (k1.tcbs t).priority t k1 in
    let k2 = enter_ready (k1.tcbs t).priority t k1 in
    let w = set_status t ready k2 in
    let f : SameAlarms k2 w = record {
      pnode = refl;
      order_val = refl;
      alarms = refl;
      ticks = refl;
      current_task = refl;
      scheduler_lock = refl;
      frame = refl;
      ready_queue_lock = refl;
      semaphores = refl;
      mqueues = refl;
      bytes = refl;
    } in
    let tcbs = enter_ready-tcbs (k1.tcbs t).priority t k1 in
    (
      SameAlarms-trans k k2 w (SameAlarms-trans k k1 k2 same e) f,
      λ u ne. ground (arith, others u ne, tcbs, eq-cases t u, ap (λ (g : Ptr → Tcb). g u) tcbs),
    )

-- The handler touches no alarm, and no task but its own.
pub wakeup-Untouched : (t : Ptr) (k : Kernel) → Untouched k (wakeup_from_alarm_queue t k) t
unfolding wakeup_from_alarm_queue
wakeup-Untouched t k = elim (eq-cases (k.tcbs t).wait_queue_owner null) [
  | inl e ↦
      let named : ((k.tcbs t).wait_queue_owner == null) ≡ true = ground arith in
      rw named (ready-Untouched k k t (SameAlarms-refl k, λ u ne. refl))
  | inr e ↦
      let q = (k.tcbs t).wait_queue_owner in
      let k1 = remove q (queue_node t) k in
      let k2 = set_tcb t (record (k1.tcbs t) { wait_queue_owner = null }) k1 in
      let s = remove-SameAlarms q (queue_node t) k in
      let same : SameAlarms k k2 = record {
        pnode = s.pnode;
        order_val = s.order_val;
        alarms = s.alarms;
        ticks = s.ticks;
        current_task = s.current_task;
        scheduler_lock = s.scheduler_lock;
        frame = s.frame;
        ready_queue_lock = s.ready_queue_lock;
        semaphores = s.semaphores;
        mqueues = s.mqueues;
        bytes = s.bytes;
      } in
      let tcbs = remove-tcbs q (queue_node t) k in
      rw e (
        ready-Untouched k k2 t
          (same, λ u ne. ground (arith, ap (λ (g : Ptr → Tcb). g u) tcbs, eq-cases t u)))
]
