-- ===== src/Task/Invariant.antt =====
-- How the status of the tasks and the kernel's lists belong together.
use e_os_aarch64_hal.Base.{
  ℕ, ◌<◌, ◌≡◌, ap, ◌≢◌, ◌⊎◌, List, [], ◌∷◌, arith, has, ◌∈◌, ◌∉◌, Distinct, ◌==◌, ◌||◌, eq-cases,
  inl, inr, Bool-cases, has-append, has-erase, has-erase_ne, erase-not-mem,
}
use e_os_aarch64_hal.NodeList.{Ptr, null}
use e_os_aarch64_hal.NodeList.Chain.{Ring-frame}
use e_os_aarch64_hal.Kernel.{Tcb, Kernel, update, queue_node, ready_queue}
use e_os_aarch64_hal.Kernel.Lists.{Lists}
use e_os_aarch64_hal.Kernel.Queues.{Queues, appended, erased}
use e_os_aarch64_hal.Task.{ready, running, waiting}

-- Stated of the TCBs, of the `pnode` fields and of the running task apart, so that it can be used
-- where only some of them change.
pub record Tasks (tcbs : Ptr → Tcb) (pnode : Ptr → ℕ) (current : Ptr) (qs : Lists) : Type 0 where
  -- A task that was created has a priority in range, and its node leads back to it.
  pub created :
      (t : Ptr)
      → (tcbs t).status ≢ 0
      → ((tcbs t).priority < 64) × (pnode (queue_node t) ≡ t) × (t ≢ null)
  -- A task's node is in the ready queue of its priority or in a wait queue, as its status says.
  pub member :
      (q t : Ptr)
      → queue_node t ∈ qs q
      → (((tcbs t).status ≡ ready) × (q ≡ ready_queue (tcbs t).priority))
        ⊎ (((tcbs t).status ≡ waiting) × (64 < q))
  pub listed :
      (t : Ptr) → (tcbs t).status ≡ ready → queue_node t ∈ qs (ready_queue (tcbs t).priority)
  pub nodes : (p n : ℕ) → p < 64 → n ∈ qs (ready_queue p) → n ≡ queue_node (pnode n)
  pub running : (t : Ptr) → (tcbs t).status ≡ running → t ≡ current

-- The lists, the bitmap and the tasks of a state are in order.
pub record IsValid (k : Kernel) (qs : Lists) : Type 0 where
  pub queues : Queues k qs
  pub tasks : Tasks k.tcbs k.heap.pnode k.current_task qs

module _ (tcbs : Ptr → Tcb) (pnode : Ptr → ℕ) (current : Ptr) (qs : Lists)
    (v : Tasks tcbs pnode current qs) where
  -- A task that is neither ready nor waiting is in no list.
  pub unlisted :
      (t : Ptr)
      → (tcbs t).status ≢ ready
      → (tcbs t).status ≢ waiting
      → (q : Ptr) → queue_node t ∉ qs q
  unlisted t a b q = elim (Bool-cases (has (queue_node t) (qs q))) [
    | inl i ↦ absurd (ground (arith, v.member q t i))
    | inr e ↦ e
  ]

  -- A task in no list becomes ready.
  pub Tasks-enter :
      (t : Ptr) (u : Tcb)
      → u.status ≡ ready
      → u.priority < 64
      → pnode (queue_node t) ≡ t
      → t ≢ null
      → ((q : Ptr) → queue_node t ∉ qs q)
      → Tasks (update tcbs t u) pnode current (appended (ready_queue u.priority) (queue_node t) qs)
  Tasks-enter t u s hp here ne out =
      let q = ready_queue u.priority in
      let more = λ (a : Ptr). has-append a (qs q) (queue_node t ∷ []) in
      record {
        created = λ a. ground (arith, v.created a);
        member = λ r a i.
            ground (arith, v.member r a, more (queue_node a), eq-cases t a, eq-cases q r, out r);
        listed = λ a e. ground (arith, v.listed a, more (queue_node a), eq-cases t a);
        nodes = λ p n hp i. ground (arith, v.nodes p n, more n);
        running = λ a e. ground (arith, v.running a);
      }

  -- A task in the ready queue of its priority leaves it, for a status other than ready.
  pub Tasks-leave :
      (t c : Ptr) (u : Tcb)
      → (tcbs t).status ≡ ready
      → Distinct (qs (ready_queue (tcbs t).priority))
      → u.status ≢ ready
      → u.priority ≡ (tcbs t).priority
      → ((a : Ptr) → (update tcbs t u a).status ≡ running → a ≡ c)
      → Tasks (update tcbs t u) pnode c (erased (ready_queue (tcbs t).priority) (queue_node t) qs)
  Tasks-leave t c u s d ne same run =
      let q = ready_queue (tcbs t).priority in
      let here = queue_node t in
      let left = λ (a : Ptr). has-erase_ne a here (qs q) in
      let fewer = λ (a : Ptr). has-erase a here (qs q) in
      record {
        created = λ a. ground (arith, v.created a);
        member = λ r a i. ground (
          arith,
          v.member r a,
          left (queue_node a),
          erase-not-mem here (qs q) d,
          eq-cases t a,
          eq-cases q r,
        );
        listed = λ a e. ground (arith, v.listed a, left (queue_node a), eq-cases t a);
        nodes = λ p n hp i. ground (arith, v.nodes p n, fewer n);
        running = run;
      }

  -- A waiting task's node leaves a wait queue.
  pub Tasks-drop :
      (q t : Ptr) → 64 < q → Distinct (qs q) → Tasks tcbs pnode current (erased q (queue_node t) qs)
  Tasks-drop q t far d =
      let here = queue_node t in
      let fewer = λ (a : Ptr). has-erase a here (qs q) in
      record {
        created = v.created;
        member = λ r a i. ground (arith, v.member r a, fewer (queue_node a), eq-cases q r);
        listed = λ a e. ground (arith, v.listed a, v.created a);
        nodes = λ p n hp i. ground (arith, v.nodes p n);
        running = v.running;
      }

  -- The running task, in no list, is put into a wait queue, with its node at any place.
  pub Tasks-wait :
      (q t : Ptr) (u : Tcb) (xs : List Ptr)
      → 64 < q
      → (tcbs t).status ≡ running
      → u.status ≡ waiting
      → u.priority ≡ (tcbs t).priority
      → ((a : Ptr) → has a xs ≡ (a == queue_node t || has a (qs q)))
      → Tasks (update tcbs t u) pnode current (update qs q xs)
  Tasks-wait q t u xs far run s p more = record {
    created = λ a. ground (arith, v.created a, v.created t);
    member = λ r a i.
        ground (arith, v.member r a, v.member r t, more (queue_node a), eq-cases t a, eq-cases q r);
    listed = λ a e. ground (arith, v.listed a, v.created a, eq-cases t a);
    nodes = λ r n hr i. ground (arith, v.nodes r n);
    running = λ a e. ground (arith, v.running a, eq-cases t a);
  }

-- The invariant reads only the status and the priority of a task.
pub Tasks-same :
    (tcbs tcbs' : Ptr → Tcb) (pnode : Ptr → ℕ) (current : Ptr) (qs : Lists)
    → ((t : Ptr) → (tcbs' t).status ≡ (tcbs t).status)
    → ((t : Ptr) → (tcbs' t).priority ≡ (tcbs t).priority)
    → Tasks tcbs pnode current qs
    → Tasks tcbs' pnode current qs
Tasks-same tcbs tcbs' pnode current qs s p v = record {
  created = λ t ne. ground (arith, s t, p t, v.created t);
  member = λ q t i. ground (arith, s t, p t, v.member q t i);
  listed = λ t e. ground (arith, s t, p t, v.listed t);
  nodes = v.nodes;
  running = λ t e. ground (arith, s t, v.running t);
}

pub Queues-same :
    (k k' : Kernel) (qs : Lists)
    → k'.heap ≡ k.heap
    → k'.heads ≡ k.heads
    → k'.bitmap ≡ k.bitmap
    → Queues k qs
    → Queues k' qs
Queues-same k k' qs h d b v = record {
  rep = rw (h, d) v.rep;
  bits = rw b v.bits;
  agree = rw b v.agree;
}

-- The lists do not see a change of the fields of the nodes other than the links.
pub Queues-links :
    (k k' : Kernel) (qs : Lists)
    → k'.heap.next ≡ k.heap.next
    → k'.heap.prev ≡ k.heap.prev
    → k'.heads ≡ k.heads
    → k'.bitmap ≡ k.bitmap
    → Queues k qs
    → Queues k' qs
Queues-links k k' qs n p d b v = record {
  rep = record {
    ring = λ q. rw d (
        Ring-frame k.heap k'.heap (k.heads q) (qs q) (λ a i. ap (λ (f : Ptr → Ptr). f a) n)
          (λ a i. ap (λ (f : Ptr → Ptr). f a) p) (v.rep.ring q));
    apart = v.rep.apart;
    loose = λ a out. rw n (v.rep.loose a out);
  };
  bits = rw b v.bits;
  agree = rw b v.agree;
}
