-- ===== src/Task/Live.antt =====
-- What holds of the tasks between two calls: a task runs, and the idle task is ready or runs itself.
use e_os_aarch64_hal.Base.{
  ℕ, ◌≡◌, refl, ap, subst, ◌≢◌, ◌∙◌, ◌⊎◌, inl, inr, [], ◌∷◌, arith, ◌∈◌, ◌==◌, eq-cases, Bool-cases,
  has-append,
}
use e_os_aarch64_hal.Base.Run.{Run, ok, fault, hang}
use e_os_aarch64_hal.NodeList.{
  Ptr, null, Heap, remove_node, detach, unlink, add_node_tail, link_before, link_self,
}
use e_os_aarch64_hal.Kernel.{
  Kernel, update, queue_node, alarm_node, ready_queue, enter_ready, leave_ready, set_tcb, locked,
  remove, add_tail,
}
use e_os_aarch64_hal.Bitmap.{get_highest_priority}
use e_os_aarch64_hal.Kernel.Lists.{Lists}
use e_os_aarch64_hal.Task.{ready, running, yield_current, dispatch, schedule}
use e_os_aarch64_hal.Task.Invariant.{IsValid}
use e_os_aarch64_hal.Task.Schedule.{Scheduled, yielded}

pub remove_node-fields :
    (head n : Ptr) (h : Heap)
    → ((remove_node head n h).1.pnode ≡ h.pnode)
      × ((remove_node head n h).1.order_val ≡ h.order_val)
unfolding remove_node detach unlink
remove_node-fields head n h = ground arith

-- What the calls on tasks leave alone.
pub record Kept (k k' : Kernel) : Type 0 where
  pub scheduler_lock : k'.scheduler_lock ≡ k.scheduler_lock
  pub ready_queue_lock : k'.ready_queue_lock ≡ k.ready_queue_lock
  pub frame : k'.frame ≡ k.frame
  pub alarms : k'.alarms ≡ k.alarms
  pub semaphores : k'.semaphores ≡ k.semaphores
  pub mqueues : k'.mqueues ≡ k.mqueues
  pub bytes : k'.bytes ≡ k.bytes
  pub pnode : (t : Ptr) → k'.heap.pnode (alarm_node t) ≡ k.heap.pnode (alarm_node t)
  pub order_val : (t : Ptr) → k'.heap.order_val (alarm_node t) ≡ k.heap.order_val (alarm_node t)

pub Kept-refl : (k : Kernel) → Kept k k
Kept-refl k = record {
  scheduler_lock = refl;
  ready_queue_lock = refl;
  frame = refl;
  alarms = refl;
  semaphores = refl;
  mqueues = refl;
  bytes = refl;
  pnode = λ t. refl;
  order_val = λ t. refl;
}

pub Kept-trans : (j k l : Kernel) → Kept j k → Kept k l → Kept j l
Kept-trans j k l c d = record {
  scheduler_lock = d.scheduler_lock ∙ c.scheduler_lock;
  ready_queue_lock = d.ready_queue_lock ∙ c.ready_queue_lock;
  frame = d.frame ∙ c.frame;
  alarms = d.alarms ∙ c.alarms;
  semaphores = d.semaphores ∙ c.semaphores;
  mqueues = d.mqueues ∙ c.mqueues;
  bytes = d.bytes ∙ c.bytes;
  pnode = λ t. d.pnode t ∙ c.pnode t;
  order_val = λ t. d.order_val t ∙ c.order_val t;
}

abbrev pub Keeps : Kernel → Run Kernel → Type 0
Keeps k (ok a) = Kept k a
Keeps k fault = Unit {0}
Keeps k hang = Unit {0}

pub leave_ready-Kept : (p : ℕ) (n : Ptr) (k : Kernel) → Kept k (leave_ready p n k)
unfolding leave_ready remove
leave_ready-Kept p n k =
    let (same, order) = remove_node-fields (k.heads (ready_queue p)) n k.heap in
    record {
      scheduler_lock = ground arith;
      ready_queue_lock = ground arith;
      frame = ground arith;
      alarms = ground arith;
      semaphores = ground arith;
      mqueues = ground arith;
      bytes = ground arith;
      pnode = λ t. ground (arith, ap (λ (f : Ptr → Ptr). f (alarm_node t)) same);
      order_val = λ t. ground (arith, ap (λ (f : Ptr → ℕ). f (alarm_node t)) order);
    }

yield_current-Kept : (k : Kernel) → Kept k (yield_current k)
unfolding yield_current enter_ready add_tail add_node_tail link_before link_self
yield_current-Kept k = record {
  scheduler_lock = ground arith;
  ready_queue_lock = ground arith;
  frame = ground arith;
  alarms = ground arith;
  semaphores = ground arith;
  mqueues = ground arith;
  bytes = ground arith;
  pnode = λ t. ground arith;
  order_val = λ t. ground arith;
}

dispatch-Keeps : (k : Kernel) → Keeps k (dispatch k)
unfolding dispatch
dispatch-Keeps k =
    let node = k.heads (ready_queue (get_highest_priority k.bitmap)) in
    elim (Bool-cases (node == null)) [
      | inl e ↦ rw e tt
      | inr e ↦
          let c = leave_ready-Kept (k.tcbs (k.heap.pnode node)).priority node k in
          rw e (record {
            scheduler_lock = c.scheduler_lock;
            ready_queue_lock = c.ready_queue_lock;
            frame = c.frame;
            alarms = c.alarms;
            semaphores = c.semaphores;
            mqueues = c.mqueues;
            bytes = c.bytes;
            pnode = c.pnode;
            order_val = c.order_val;
          })
    ]

Keeps-trans : (k l : Kernel) (r : Run Kernel) → Kept k l → Keeps l r → Keeps k r
Keeps-trans k l (ok a) c d = Kept-trans k l a c d
Keeps-trans k l fault c d = tt
Keeps-trans k l hang c d = tt

schedule-Keeps : (k : Kernel) → Keeps k (schedule k)
unfolding schedule
schedule-Keeps k = elim (Bool-cases (k.scheduler_lock == locked)) [
  | inl e ↦ rw e (Kept-refl k)
  | inr e ↦ elim (Bool-cases (k.current_task == null)) [
    | inl f ↦ rw (e, f) (dispatch-Keeps k)
    | inr f ↦
        let y = yield_current k in
        let c = yield_current-Kept k in
        elim (Bool-cases (y.frame == null)) [
          | inl g ↦ rw (e, f, g) c
          | inr g ↦
              let z = set_tcb y.current_task (record (y.tcbs y.current_task) { sp = y.frame }) y in
              let d : Kept k z = record {
                scheduler_lock = c.scheduler_lock;
                ready_queue_lock = c.ready_queue_lock;
                frame = c.frame;
                alarms = c.alarms;
                semaphores = c.semaphores;
                mqueues = c.mqueues;
                bytes = c.bytes;
                pnode = c.pnode;
                order_val = c.order_val;
              } in
              rw (e, f, g) (Keeps-trans k z (dispatch z) d (dispatch-Keeps z))
        ]
  ]
]

pub schedule-Kept : (k a : Kernel) → schedule k ≡ ok a → Kept k a
schedule-Kept k a e = subst (Keeps k) e (schedule-Keeps k)

-- A task runs with the scheduler open and the lock of the ready queues free, and the idle task is
-- ready or runs.
pub record IsLive (idle : Ptr) (k : Kernel) (qs : Lists) : Type 0 where
  pub valid : IsValid k qs
  pub open_lock : k.scheduler_lock ≢ locked
  pub free : k.ready_queue_lock ≡ 0
  pub saved : k.frame ≢ null
  pub runs : (k.tcbs k.current_task).status ≡ running
  pub idles : ((k.tcbs idle).status ≡ ready) ⊎ ((k.tcbs idle).status ≡ running)

-- The lists after the first task of a queue was dispatched.
abbrev pub dispatched : (k : Kernel) (qs : Lists) (r : Run Kernel) → Scheduled k qs r → Lists
dispatched k qs r s = update (yielded k qs) (ready_queue (k.tcbs s.task).priority) s.rest

module _ (idle : Ptr) (k : Kernel) (qs : Lists) (v : IsValid k qs)
    (s : Scheduled k qs (schedule k)) where
  -- A task that yields is ready afterwards, or runs again.
  yielded-ready :
      (k.tcbs k.current_task).status ≡ running
      → ((s.after.tcbs k.current_task).status ≡ ready)
        ⊎ ((s.after.tcbs k.current_task).status ≡ running)
  yielded-ready run = elim (eq-cases k.current_task s.task) [
    | inl e ↦ inr (rw e s.runs)
    | inr e ↦
        let t = k.current_task in
        let p = (k.tcbs t).priority in
        let made = v.tasks.created t (ground arith) in
        let there : queue_node t ∈ yielded k qs (ready_queue p) =
          ground (arith, has-append (queue_node t) (qs (ready_queue p)) (queue_node t ∷ [])) in
        let here : queue_node t ∈ dispatched k qs (schedule k) s (ready_queue p) =
          ground (arith, s.first) in
        let m = s.valid.tasks.member (ready_queue p) t here in inl (ground (arith, m, made.0))
  ]

  -- After a switch the idle task is ready or runs, if it was before.
  pub Scheduled-IsLive :
      k.scheduler_lock ≢ locked
      → k.ready_queue_lock ≡ 0
      → k.frame ≢ null
      → (((k.tcbs idle).status ≡ ready) × (idle ≢ k.current_task))
        ⊎ ((k.tcbs idle).status ≡ running)
      → IsLive idle s.after (dispatched k qs (schedule k) s)
  Scheduled-IsLive open_lock free saved idles =
      let c = schedule-Kept k s.after s.returns in
      record {
        valid = s.valid;
        open_lock = rw c.scheduler_lock open_lock;
        free = c.ready_queue_lock ∙ free;
        saved = rw c.frame saved;
        runs = rw s.current s.runs;
        idles = ground (
          arith,
          s.others idle,
          eq-cases idle s.task,
          eq-cases idle k.current_task,
          s.runs,
          yielded-ready,
          idles,
          v.tasks.running idle,
        );
      }
