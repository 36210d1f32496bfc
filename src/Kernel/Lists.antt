-- ===== src/Kernel/Lists.antt =====
-- All the kernel's lists at once: each head in memory stands for a list of nodes, no node is in two
-- lists, and a node that is in none has clear links.
use e_os_aarch64_hal.Base.{
  ℕ, ◌≤◌, ◌≡◌, fun_ext, ◌≢◌, ◌∙◌, false, List, [], ◌∷◌, ◌++◌, arith, has, ◌∈◌, ◌∉◌, ◌==◌,
  has-append, has-erase, has-erase_ne, eq-cases, inl, inr, length, some, erase, Bool-cases,
}
use e_os_aarch64_hal.NodeList.{Ptr, null, Heap, add_node_tail, add_node_ordered, remove_node}
use e_os_aarch64_hal.NodeList.Chain.{Ring, SameOutside, Ring-frame, Ring-unique}
use e_os_aarch64_hal.NodeList.Insert.{add_node_tail-append, add_node_tail-SameOutside}
use e_os_aarch64_hal.NodeList.Remove.{remove_node-erase}
use e_os_aarch64_hal.NodeList.Ordered.{insert, has-insert, add_node_ordered-insert}
use e_os_aarch64_hal.Kernel.{update}

abbrev pub Lists : Type 0
Lists = Ptr → List Ptr

pub record Rep (h : Heap) (heads : Ptr → Ptr) (qs : Lists) : Type 0 where
  pub ring : (q : Ptr) → Ring h (heads q) (qs q)
  pub apart : (q r n : Ptr) → n ∈ qs q → n ∈ qs r → q ≡ r
  pub loose : (n : Ptr) → ((q : Ptr) → n ∉ qs q) → h.next n ≡ null

-- One list changes: by nodes of its own and a node `n` that is in no other list.
pub Rep-update :
    (h g : Heap) (heads : Ptr → Ptr) (qs : Lists) (q n head : Ptr) (xs : List Ptr)
    → Rep h heads qs
    → ((r : Ptr) → (q == r) ≡ false → n ∉ qs r)
    → Ring g head xs
    → SameOutside (n ∷ qs q) h g
    → ((a : Ptr) → a ∈ xs → a ∈ n ∷ qs q)
    → ((a : Ptr) → a ∈ n ∷ qs q → a ∉ xs → g.next a ≡ null)
    → Rep g (update heads q head) (update qs q xs)
Rep-update h g heads qs q n head xs v new ring same old cleared = record {
  ring = λ r. elim (Bool-cases (q == r)) [
    | inl e ↦ rw e ring
    | inr e ↦ rw e (
        Ring-frame h g (heads r) (qs r) (λ p i. same.next p (outside r p e i))
          (λ p i. same.prev p (outside r p e i)) (v.ring r))
  ];
  apart = λ r s a i j. ground (
    arith,
    eq-cases q r,
    eq-cases q s,
    v.apart r s a,
    v.apart r q a,
    v.apart q s a,
    old a,
    new r,
    new s,
    eq-cases a n,
  );
  loose = λ a out. elim (Bool-cases (has a (n ∷ qs q))) [
    | inl i ↦ ground (arith, out q, cleared a)
    | inr i ↦ same.next a i ∙ v.loose a (λ r. ground (arith, out r, eq-cases q r))
  ];
}
  where
    outside : (r p : Ptr) → (q == r) ≡ false → p ∈ qs r → p ∉ n ∷ qs q
    outside r p e i = ground (arith, v.apart q r p, new r e)

module _ (h : Heap) (heads : Ptr → Ptr) (qs : Lists) (v : Rep h heads qs) (q n : Ptr) where
  pub Rep-add_node_tail :
      n ≢ null
      → ((r : Ptr) → n ∉ qs r)
      → let (g, head) = add_node_tail (heads q) n h in
        Rep g (update heads q head) (update qs q (qs q ++ n ∷ []))
  Rep-add_node_tail ne new =
      let (g, head) = add_node_tail (heads q) n h in
      let more = λ (a : Ptr). has-append a (qs q) (n ∷ []) in
      Rep-update h g heads qs q n head (qs q ++ n ∷ []) v (λ r e. new r)
        (add_node_tail-append h (heads q) n (qs q) (v.ring q) (new q) ne)
        (add_node_tail-SameOutside h (heads q) n (qs q) (v.ring q)) (λ a i. ground (arith, more a))
        (λ a i j. ground (arith, more a))

  pub Rep-remove_node :
      n ∈ qs q
      → let r = remove_node (heads q) n h in
        Rep r.1 (update heads q r.2) (update qs q (erase n (qs q)))
        × (r.1.next n ≡ null)
        × SameOutside (qs q) h r.1
  Rep-remove_node i =
      let r = remove_node (heads q) n h in
      let out = remove_node-erase h (heads q) n (qs q) (v.ring q) i in
      let wider = λ (a : Ptr). has-erase a n (qs q) in
      let kept = λ (a : Ptr). has-erase_ne a n (qs q) in
      let same : SameOutside (n ∷ qs q) h r.1 = record {
        prev = λ a j. out.same.prev a (ground arith);
        next = λ a j. out.same.next a (ground arith);
        pnode = out.same.pnode;
        order_val = out.same.order_val;
      } in
      (
        Rep-update h r.1 heads qs q n r.2 (erase n (qs q)) v
            (λ s e. ground (arith, v.apart q s n, eq-cases 0 1)) out.ring same
            (λ a j. ground (arith, wider a))
            (λ a j k. ground (arith, kept a, eq-cases a n, out.next)),
        out.next,
        out.same,
      )

  pub Rep-add_node_ordered :
      (fuel : ℕ)
      → n ≢ null
      → ((r : Ptr) → n ∉ qs r)
      → length (qs q) ≤ fuel
      → (g : Heap) × (head : Ptr) × (add_node_ordered fuel (heads q) n h ≡ some (g, head))
        × Rep g (update heads q head) (update qs q (insert h.order_val n (qs q)))
        × SameOutside (n ∷ qs q) h g
  Rep-add_node_ordered fuel ne new k =
      let out = add_node_ordered-insert fuel h (heads q) n (qs q) (v.ring q) (new q) ne k in
      let more = λ (a : Ptr). has-insert h.order_val a n (qs q) in
      (
        out.heap,
        out.head,
        out.returns,
        Rep-update h out.heap heads qs q n out.head (insert h.order_val n (qs q)) v (λ r e. new r)
            out.ring out.same (λ a i. ground (arith, more a)) (λ a i j. ground (arith, more a)),
        out.same,
      )

-- The memory determines the lists.
pub Rep-unique :
    (h : Heap) (heads : Ptr → Ptr) (qs rs : Lists) → Rep h heads qs → Rep h heads rs → qs ≡ rs
Rep-unique h heads qs rs v w =
    fun_ext λ q. Ring-unique h (heads q) (qs q) (rs q) (v.ring q) (w.ring q)
