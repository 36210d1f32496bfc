-- ===== src/Kernel/Queues.antt =====
-- The lists and the ready bitmap agree, and the moves of the kernel keep them so.
use e_os_aarch64_hal.Base.{
  ℕ, ◌%◌, ◌<◌, ◌≤◌, ◌≡◌, refl, ap, fun_ext, ◌≢◌, not, false, List, [], ◌∷◌, ◌++◌, arith, ◌∈◌, ◌∉◌,
  length, erase,
}
use e_os_aarch64_hal.Base.Run.{ok}
use e_os_aarch64_hal.NodeList.{Ptr, null, Heap, remove_node}
use e_os_aarch64_hal.NodeList.Chain.{is_empty, Ring-empty}
use e_os_aarch64_hal.NodeList.Insert.{add_node_tail-SameOutside}
use e_os_aarch64_hal.NodeList.Ordered.{insert}
use e_os_aarch64_hal.NodeList.Remove.{remove_node-detached}
use e_os_aarch64_hal.Bitmap.Ready.{
  IsValid, is_ready, set_ready-IsValid, unset_ready-IsValid, is_ready-set_ready,
  is_ready-unset_ready,
}
use e_os_aarch64_hal.Kernel.{
  Kernel, update, queue_node, ready_queue, add_tail, add_ordered, remove, enter_ready, leave_ready,
}
use e_os_aarch64_hal.Kernel.Lists.{
  Lists, Rep, Rep-add_node_tail, Rep-remove_node, Rep-add_node_ordered,
}

-- A priority is in the bitmap exactly when its ready queue is not empty.
pub record Queues (k : Kernel) (qs : Lists) : Type 0 where
  pub rep : Rep k.heap k.heads qs
  pub bits : IsValid k.bitmap
  pub agree : (p : ℕ) → p < 64 → is_ready k.bitmap p ≡ not (is_empty (qs (ready_queue p)))

-- The lists after a node was put at the end of one, or taken out of one.
abbrev pub appended : Ptr → Ptr → Lists → Lists
appended q n qs = update qs q (qs q ++ n ∷ [])

abbrev pub erased : Ptr → Ptr → Lists → Lists
erased q n qs = update qs q (erase n (qs q))

is_empty-snoc : (xs : List Ptr) (n : Ptr) → is_empty (xs ++ n ∷ []) ≡ false
is_empty-snoc [] n = refl
is_empty-snoc (x ∷ xs) n = refl

mod-lt_64 : (p : ℕ) → p < 64 → p % 256 ≡ p
mod-lt_64 p h = omega arith

-- What a move leaves alone in the nodes.
pub record SameNodes (k k' : Kernel) : Type 0 where
  pub pnode : (a : Ptr) → k'.heap.pnode a ≡ k.heap.pnode a
  pub order_val : (a : Ptr) → k'.heap.order_val a ≡ k.heap.order_val a

module _ (k : Kernel) (qs : Lists) (v : Queues k qs) where
  pub add_tail-Queues :
      (q n : Ptr)
      → 64 < q
      → n ≢ null
      → ((r : Ptr) → n ∉ qs r)
      → Queues (add_tail q n k) (appended q n qs)
  unfolding add_tail
  add_tail-Queues q n far ne new = record {
    rep = Rep-add_node_tail k.heap k.heads qs v.rep q n ne new;
    bits = v.bits;
    agree = λ p hp. ground (arith, v.agree p hp);
  }

  pub add_tail-SameNodes : (q n : Ptr) → SameNodes k (add_tail q n k)
  unfolding add_tail
  add_tail-SameNodes q n =
      let s = add_node_tail-SameOutside k.heap (k.heads q) n (qs q) (v.rep.ring q) in
      record { pnode = s.pnode; order_val = s.order_val }

  pub remove-Queues : (q n : Ptr) → 64 < q → n ∈ qs q → Queues (remove q n k) (erased q n qs)
  unfolding remove
  remove-Queues q n far i = record {
    rep = (Rep-remove_node k.heap k.heads qs v.rep q n i).0;
    bits = v.bits;
    agree = λ p hp. ground (arith, v.agree p hp);
  }

  pub remove-SameNodes : (q n : Ptr) → n ∈ qs q → SameNodes k (remove q n k)
  unfolding remove
  remove-SameNodes q n i =
      let s = (Rep-remove_node k.heap k.heads qs v.rep q n i).2 in
      record { pnode = s.pnode; order_val = s.order_val }

  pub add_ordered-Queues :
      (fuel : ℕ) (q n : Ptr)
      → 64 < q
      → n ≢ null
      → ((r : Ptr) → n ∉ qs r)
      → length (qs q) ≤ fuel
      → (h : Heap) × (heads : Ptr → Ptr) × (add_ordered fuel q n k
          ≡ ok (record k { heap = h; heads = heads }))
        × Queues
            (record k { heap = h; heads = heads })
            (update qs q (insert k.heap.order_val n (qs q)))
        × SameNodes k (record k { heap = h; heads = heads })
  unfolding add_ordered
  add_ordered-Queues fuel q n far ne new f =
      let (h, head, returns, rep, same) =
        Rep-add_node_ordered k.heap k.heads qs v.rep q n fuel ne new f in
      (
        h,
        update k.heads q head,
        rw (returns, add_ordered) refl,
        record { rep = rep; bits = v.bits; agree = λ p hp. ground (arith, v.agree p hp) },
        record { pnode = same.pnode; order_val = same.order_val },
      )

  pub enter_ready-Queues :
      (p : ℕ) (task : Ptr)
      → p < 64
      → queue_node task ≢ null
      → ((r : Ptr) → queue_node task ∉ qs r)
      → Queues (enter_ready p task k) (appended (ready_queue p) (queue_node task) qs)
  unfolding enter_ready
  enter_ready-Queues p task hp ne new = record {
    rep = Rep-add_node_tail k.heap k.heads qs v.rep (ready_queue p) (queue_node task) ne new;
    bits = rw (mod-lt_64 p hp) (set_ready-IsValid k.bitmap p hp v.bits);
    agree = λ r hr.
        rw (mod-lt_64 p hp, is_ready-set_ready k.bitmap p r hp hr v.bits)
          (ground (arith, v.agree r hr, is_empty-snoc (qs (ready_queue p)) (queue_node task)));
  }

  pub enter_ready-SameNodes : (p : ℕ) (task : Ptr) → SameNodes k (enter_ready p task k)
  unfolding enter_ready
  enter_ready-SameNodes p task =
      let s =
        add_node_tail-SameOutside k.heap (k.heads (ready_queue p)) (queue_node task)
          (qs (ready_queue p)) (v.rep.ring (ready_queue p)) in
      record { pnode = s.pnode; order_val = s.order_val }

  pub leave_ready-Queues :
      (p : ℕ) (n : Ptr)
      → p < 64
      → n ∈ qs (ready_queue p)
      → Queues (leave_ready p n k) (erased (ready_queue p) n qs)
  unfolding leave_ready
  leave_ready-Queues p n hp i =
      let q = ready_queue p in
      let r = remove_node (k.heads q) n k.heap in
      let rep = (Rep-remove_node k.heap k.heads qs v.rep q n i).0 in
      let gone = Ring-empty r.1 (update k.heads q r.2 q) (erased q n qs q) (rep.ring q) in
      record {
        rep = ground (arith, rep);
        bits = rw (mod-lt_64 p hp) (ground (arith, unset_ready-IsValid k.bitmap p hp v.bits));
        agree = λ s hs.
            ground
              (arith, v.agree s hs, mod-lt_64 p hp, is_ready-unset_ready k.bitmap p s hp hs v.bits);
      }

  pub leave_ready-SameNodes :
      (p : ℕ) (n : Ptr) → n ∈ qs (ready_queue p) → SameNodes k (leave_ready p n k)
  unfolding leave_ready
  leave_ready-SameNodes p n i =
      let s = (Rep-remove_node k.heap k.heads qs v.rep (ready_queue p) n i).2 in
      record {
        pnode = λ a. ground (arith, s.pnode a);
        order_val = λ a. ground (arith, s.order_val a);
      }

-- The moves on the ready queues leave every other part of the state.
pub record SameTasks (k k' : Kernel) : Type 0 where
  pub tcbs : k'.tcbs ≡ k.tcbs
  pub current_task : k'.current_task ≡ k.current_task
  pub scheduler_lock : k'.scheduler_lock ≡ k.scheduler_lock
  pub frame : k'.frame ≡ k.frame

pub enter_ready-SameTasks : (p : ℕ) (task : Ptr) (k : Kernel) → SameTasks k (enter_ready p task k)
unfolding enter_ready
enter_ready-SameTasks p task k = record {
  tcbs = refl;
  current_task = refl;
  scheduler_lock = refl;
  frame = refl;
}

pub leave_ready-SameTasks : (p : ℕ) (n : Ptr) (k : Kernel) → SameTasks k (leave_ready p n k)
unfolding leave_ready
leave_ready-SameTasks p n k = record {
  tcbs = ground arith;
  current_task = ground arith;
  scheduler_lock = ground arith;
  frame = ground arith;
}

-- A node with clear links is in no list, and removing it changes nothing.
pub remove-none : (k : Kernel) (q n : Ptr) → k.heap.next n ≡ null → remove q n k ≡ k
unfolding remove
remove-none k q n e =
    rw (remove_node-detached k.heap (k.heads q) n e, remove)
      (ap (λ (hs : Ptr → Ptr). record k { heads = hs }) (fun_ext λ r. ground arith))
