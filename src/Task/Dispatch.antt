-- ===== src/Task/Dispatch.antt =====
-- The selection of the next task, and `eos_schedule`.
use e_os_aarch64_hal.Base.{
  ℕ, ◌<◌, ◌≤◌, ◌≡◌, refl, ap, sym, subst, fun_ext, ◌≢◌, ◌∙◌, not, false, true, List, [], ◌∷◌, arith,
  ◌∈◌, ◌==◌, eq-cases, erase, erase_append,
}
use e_os_aarch64_hal.Base.Run.{Run, ok}
use e_os_aarch64_hal.NodeList.{Ptr, null}
use e_os_aarch64_hal.NodeList.Chain.{is_empty, Ring-Distinct, Ring}
use e_os_aarch64_hal.Bitmap.{get_highest_priority}
use e_os_aarch64_hal.Bitmap.Ready.{get_highest_priority-least}
use e_os_aarch64_hal.Kernel.{Kernel, update, queue_node, ready_queue, leave_ready, set_status}
use e_os_aarch64_hal.Kernel.Lists.{Lists}
use e_os_aarch64_hal.Kernel.Queues.{
  leave_ready-Queues, leave_ready-SameNodes, leave_ready-SameTasks,
}
use e_os_aarch64_hal.Task.{ready, running, dispatch}
use e_os_aarch64_hal.Task.Invariant.{IsValid, Tasks-leave}

-- The first task of the least priority that has a ready task is dispatched.
pub record Dispatched (k : Kernel) (qs : Lists) (r : Run Kernel) : Type 0 where
  pub after : Kernel
  pub task : Ptr
  pub rest : List Ptr
  pub returns : r ≡ ok after
  pub first : qs (ready_queue (k.tcbs task).priority) ≡ queue_node task ∷ rest
  pub in_range : (k.tcbs task).priority < 64
  pub least : (q n : ℕ) → q < 64 → n ∈ qs (ready_queue q) → (k.tcbs task).priority ≤ q
  pub current : after.current_task ≡ task
  pub resumed : after.resumed ≡ (k.tcbs task).sp
  pub runs : (after.tcbs task).status ≡ running
  pub others : (t : Ptr) → t ≢ task → after.tcbs t ≡ k.tcbs t
  pub valid : IsValid after (update qs (ready_queue (k.tcbs task).priority) rest)

nonempty : (n : Ptr) (xs : List Ptr) → n ∈ xs → is_empty xs ≡ false
nonempty n [] i = ground arith
nonempty n (x ∷ xs) i = refl

uncons :
    (xs : List Ptr) → not (is_empty xs) ≡ true → (m : Ptr) × (rest : List Ptr) × (xs ≡ m ∷ rest)
uncons [] e = cc
uncons (x ∷ xs) e = (x, xs, refl)

module _ (k : Kernel) (qs : Lists) (v : IsValid k qs)
    (idle : (t : Ptr) → (k.tcbs t).status ≢ running) where
  dispatch-first :
      (t : Ptr) (rest : List Ptr)
      → (k.tcbs t).status ≡ ready
      → get_highest_priority k.bitmap ≡ (k.tcbs t).priority
      → qs (ready_queue (k.tcbs t).priority) ≡ queue_node t ∷ rest
      → ((q n : ℕ) → q < 64 → n ∈ qs (ready_queue q) → (k.tcbs t).priority ≤ q)
      → Dispatched k qs (dispatch k)
  unfolding dispatch
  dispatch-first t rest s top first least =
      let p = (k.tcbs t).priority in
      let made = v.tasks.created t (ground arith) in
      let ring =
        subst (Ring k.heap (k.heads (ready_queue p))) first (v.queues.rep.ring (ready_queue p)) in
      let here : queue_node t ∈ qs (ready_queue p) = ground (arith, first) in
      let used : (queue_node t == null) ≡ false = ground arith in
      let k1 = leave_ready p (queue_node t) k in
      let same = leave_ready-SameTasks p (queue_node t) k in
      let distinct =
        Ring-Distinct k.heap (k.heads (ready_queue p)) (qs (ready_queue p))
          (v.queues.rep.ring (ready_queue p)) in
      let k2 = set_status t running k1 in
      let after = record k2 { current_task = t; resumed = (k2.tcbs t).sp } in
      let left = leave_ready-Queues k qs v.queues p (queue_node t) made.0 here in
      let nodes = leave_ready-SameNodes k qs v.queues p (queue_node t) here in
      let eq : erase (queue_node t) (qs (ready_queue p)) ≡ rest =
        rw first (erase_append (queue_node t) [] rest refl) in
      let tasks =
        Tasks-leave k.tcbs k.heap.pnode k.current_task qs v.tasks t t
          (record (k.tcbs t) { status = running }) s distinct (ground arith) refl
          (λ u e. ground (arith, idle u, eq-cases t u)) in
      record {
        after = after;
        task = t;
        rest = rest;
        returns = rw (top, ring.0, used, made.1) refl;
        first = first;
        in_range = made.0;
        least = least;
        current = refl;
        resumed = ground (arith, same.tcbs);
        runs = ground arith;
        others = λ u ne. rw same.tcbs (ground (arith, eq-cases t u));
        valid =
            subst (λ l. IsValid after (update qs (ready_queue p) l)) eq
              (record {
                queues = record { rep = left.rep; bits = left.bits; agree = left.agree };
                tasks = rw (same.tcbs, fun_ext nodes.pnode) tasks;
              });
      }

  member-ready :
      (t p : ℕ)
      → p < 64
      → queue_node t ∈ qs (ready_queue p)
      → ((k.tcbs t).status ≡ ready) × (p ≡ (k.tcbs t).priority)
  member-ready t p hp i = ground (arith, v.tasks.member (ready_queue p) t i)

  -- With a ready task in the lists the dispatcher finds it.
  pub dispatch-Dispatched :
      (p n : ℕ) → p < 64 → n ∈ qs (ready_queue p) → Dispatched k qs (dispatch k)
  dispatch-Dispatched p n hp i =
      let q = v.queues in
      let bit = λ (r : ℕ) (m : Ptr) (hr : r < 64) (j : m ∈ qs (ready_queue r)).
        q.agree r hr ∙ ap not (nonempty m (qs (ready_queue r)) j) in
      let top = get_highest_priority k.bitmap in
      let found = get_highest_priority-least k.bitmap p q.bits hp (bit p n hp i) in
      let (m, rest, first) = uncons (qs (ready_queue top)) (sym (q.agree top found.2) ∙ found.0) in
      let t = k.heap.pnode m in
      let here : m ∈ qs (ready_queue top) = ground (arith, first) in
      let node = v.tasks.nodes top m found.2 here in
      let here' : queue_node t ∈ qs (ready_queue top) =
        subst (λ a. a ∈ qs (ready_queue top)) node here in
      let (s, prio) = member-ready t top found.2 here' in
      dispatch-first t rest s prio (ground (arith, first, node, prio)) (λ r l hr j.
        ground (arith, get_highest_priority-least k.bitmap r q.bits hr (bit r l hr j), prio))
