-- ===== src/NodeList/Remove.antt =====
-- `_os_remove_node`: a node leaves its ring.
use e_os_aarch64_hal.Base.{
  ℕ, ◌≡◌, refl, ◌≢◌, List, [], ◌∷◌, ◌++◌, arith, ◌∈◌, ◌∉◌, Distinct, ◌==◌, has-append, append-nil,
  subst, eq-cases, Distinct-left, Distinct-right, Distinct-apart, Distinct-delete, erase,
  erase_append, split_at_mem, inl, inr, ne_of_mem, if◌then◌else◌,
}
use e_os_aarch64_hal.NodeList.{Ptr, null, Heap, detach, unlink, remove_node}
use e_os_aarch64_hal.NodeList.Chain.{
  Chain, Ring, SameOutside, Chain-append, Chain-split, prev-mem, next-mem, Chain-frame,
}

-- The memory after a node is cut out and its own links are cleared.
abbrev cut : Ptr → Heap → Heap
cut n h = detach n (unlink n h)

-- The chain that ended at the removed node ends at the node behind it.
cut-Chain :
    (h : Heap) (a : Ptr) (us : List Ptr) (n y : Ptr)
    → Chain h a us n
    → h.next n ≡ y
    → h.prev y ≡ n
    → Distinct (a ∷ us)
    → y ∉ us
    → n ∉ y ∷ a ∷ us
    → Chain (cut n h) a us y
unfolding detach unlink
cut-Chain h a [] n y c e e' d out fresh = ground arith
cut-Chain h a (u ∷ us) n y c e e' d out fresh = (
  ground (arith, prev-mem h u us n c.1),
  cut-Chain h u us n y c.1 e e' d.1 (ground arith) (ground arith),
)

-- The chain behind it stays.
cut-rest :
    (h : Heap) (p n y : Ptr) (ws : List Ptr) (b : Ptr)
    → Chain h y ws b
    → h.next n ≡ y
    → h.prev n ≡ p
    → p ∉ y ∷ ws
    → y ∉ b ∷ ws
    → n ∉ b ∷ y ∷ ws
    → Chain (cut n h) y ws b
unfolding detach unlink
cut-rest h p n y ws b c e e' p_out y_out n_out =
    Chain-frame h (cut n h) y ws b (λ q i. ground (arith, eq-cases q n, eq-cases q p))
      (λ q i. ground (arith, eq-cases q n, eq-cases q y)) c

-- What `remove_node` does to a node that is in a ring: the only one, the head, or another one.
remove_only : (h : Heap) (n : Ptr) → Ring h n (n ∷ []) → remove_node n n h ≡ (1, detach n h, null)
unfolding remove_node
remove_only h n r = ground arith

remove_linked :
    (h : Heap) (head n : Ptr)
    → h.next n ≢ null
    → h.prev n ≢ null
    → h.next n ≢ n
    → h.prev n ≢ n
    → remove_node head n h ≡ (1, cut n h, if n == head then h.next n else head)
unfolding remove_node
remove_linked h head n p q r s = ground arith

remove_first :
    (h : Heap) (n x : Ptr) (xs : List Ptr)
    → Ring h n (n ∷ x ∷ xs)
    → (remove_node n n h ≡ (1, cut n h, x)) × Ring (cut n h) x (x ∷ xs)
remove_first h n x xs r =
    let back = prev-mem h x xs n (r.1).1 in
    let back_ne = ne_of_mem {b = null} (x ∷ xs) back (ground arith) in
    let back_ne' = ne_of_mem {b = n} (x ∷ xs) back (r.2).0 in
    (
      rw (remove_linked h n n (ground arith) back_ne (ground arith) back_ne') (ground arith),
      (
        refl,
        cut-Chain h x xs n x (r.1).1 (ground arith) (ground arith) (r.2).1 (ground arith)
            (ground arith),
        (r.2).1,
        ground arith,
      ),
    )

-- The chain of a ring from which a node other than the head was cut.
cut-ring :
    (h : Heap) (a n : Ptr) (us ws : List Ptr)
    → Chain h a us n
    → Chain h n ws a
    → Distinct ((a ∷ us) ++ n ∷ ws)
    → Chain (cut n h) a (us ++ ws) a
cut-ring h a n us [] c e d =
    let (d', out) = Distinct-delete n (a ∷ us) [] d in
    let left = Distinct-left (a ∷ us) _ d in
    let fresh : n ∉ a ∷ a ∷ us = ground (arith, has-append n us []) in
    rw (append-nil us) (cut-Chain h a us n a c (ground arith) (ground arith) left left.0 fresh)
cut-ring h a n us (w ∷ ws) c e d =
    let (d', out) = Distinct-delete n (a ∷ us) (w ∷ ws) d in
    let apart = Distinct-apart a (a ∷ us) (w ∷ ws) d' (ground arith) in
    let right = Distinct-right (a ∷ us) (w ∷ ws) d' in
    let left = Distinct-left (a ∷ us) (w ∷ ws) d' in
    let w_out : w ∉ us = ground (arith, Distinct-apart w (a ∷ us) (w ∷ ws) d') in
    let back = Distinct-apart (h.prev n) (a ∷ us) (w ∷ ws) d' (prev-mem h a us n c) in
    let fresh : n ∉ w ∷ a ∷ us = ground (arith, has-append n us (w ∷ ws)) in
    let fresh' : n ∉ a ∷ w ∷ ws = ground (arith, has-append n us (w ∷ ws)) in
    Chain-append (cut n h) a us w ws a
      (cut-Chain h a us n w c (ground arith) (ground arith) left w_out fresh)
      (cut-rest h (h.prev n) n w ws a e.1 (ground arith) refl back (ground arith) fresh')

remove_middle :
    (h : Heap) (a n : Ptr) (us ws : List Ptr)
    → Ring h a ((a ∷ us) ++ n ∷ ws)
    → (remove_node a n h ≡ (1, cut n h, a)) × Ring (cut n h) a ((a ∷ us) ++ ws)
remove_middle h a n us ws r =
    let (c, e) = Chain-split h a us n ws a r.1 in
    let (d, out) = Distinct-delete n (a ∷ us) ws r.2 in
    let back = prev-mem h a us n c in
    let forth = next-mem h n ws a e in
    let n_out : n ∉ a ∷ ws = ground (arith, has-append n us ws) in
    let out' : n ∉ a ∷ us = ground (arith, has-append n us ws) in
    let null_out : null ∉ a ∷ us = ground (arith, has-append 0 us (n ∷ ws)) in
    let null_out' : null ∉ a ∷ ws = ground (arith, has-append 0 us (n ∷ ws)) in
    (
      rw
          (remove_linked h a n (ne_of_mem (a ∷ ws) forth null_out')
            (ne_of_mem (a ∷ us) back null_out) (ne_of_mem (a ∷ ws) forth n_out)
            (ne_of_mem (a ∷ us) back out'))
          (ground arith),
      (
        refl,
        cut-ring h a n us ws c e r.2,
        d,
        ground (arith, has-append 0 us (n ∷ ws), has-append 0 us ws),
      ),
    )

cut-SameOutside :
    (h : Heap) (n : Ptr) (xs : List Ptr)
    → n ∈ xs
    → h.prev n ∈ xs
    → h.next n ∈ xs
    → SameOutside xs h (cut n h)
unfolding detach unlink
cut-SameOutside h n xs i p q = record {
  prev = λ a out. ground (arith, eq-cases a n, eq-cases a (h.next n));
  next = λ a out. ground (arith, eq-cases a n, eq-cases a (h.prev n));
  pnode = λ a. refl;
  order_val = λ a. refl;
}

-- The outcome of a removal: the node is gone from the ring, its own links are cleared, and only
-- links of the ring's nodes are written.
pub record Removed (h : Heap) (n : Ptr) (xs : List Ptr) (r : ℕ × Heap × Ptr) : Type 0 where
  pub found : r.0 ≡ 1
  pub ring : Ring r.1 r.2 (erase n xs)
  pub next : r.1.next n ≡ null
  pub prev : r.1.prev n ≡ null
  pub same : SameOutside xs h r.1

remove-head :
    (h : Heap) (n : Ptr) (xs : List Ptr)
    → Ring h n (n ∷ xs)
    → Removed h n (n ∷ xs) (remove_node n n h)
unfolding erase detach
remove-head h n [] r =
    let same = cut-SameOutside h n (n ∷ []) (ground arith) (ground arith) (ground arith) in
    rw (remove_only h n r) (record {
      found = refl;
      ring = ground arith;
      next = ground arith;
      prev = ground arith;
      same = record {
        prev = λ a out. ground (arith, eq-cases a n);
        next = λ a out. ground (arith, eq-cases a n);
        pnode = λ a. refl;
        order_val = λ a. refl;
      };
    })
remove-head h n (x ∷ xs) r =
    let (eq, ring) = remove_first h n x xs r in
    let back = prev-mem h x xs n (r.1).1 in
    rw eq (record {
      found = refl;
      ring = rw (erase_append n [] (x ∷ xs) refl) ring;
      next = ground arith;
      prev = ground arith;
      same = cut-SameOutside h n (n ∷ x ∷ xs) (ground arith) (ground arith) (ground arith);
    })

remove-other :
    (h : Heap) (a n : Ptr) (us ws : List Ptr)
    → Ring h a ((a ∷ us) ++ n ∷ ws)
    → Removed h n ((a ∷ us) ++ n ∷ ws) (remove_node a n h)
unfolding detach
remove-other h a n us ws r =
    let (eq, ring) = remove_middle h a n us ws r in
    let (d, out) = Distinct-delete n (a ∷ us) ws r.2 in
    let (c, e) = Chain-split h a us n ws a r.1 in
    let back = prev-mem h a us n c in
    let forth = next-mem h n ws a e in
    let fresh : n ∉ a ∷ us = ground (arith, has-append n us ws) in
    let mem = λ (q : Ptr). has-append q us (n ∷ ws) in
    rw eq (record {
      found = refl;
      ring = rw (erase_append n (a ∷ us) ws fresh) ring;
      next = ground arith;
      prev = ground arith;
      same =
          cut-SameOutside h n ((a ∷ us) ++ n ∷ ws) (ground (arith, mem n))
            (ground (arith, mem (h.prev n))) (ground (arith, mem (h.next n)));
    })

-- A node of a list is removed: what is left is the list without it, in the same order, and the node
-- has no links.
pub remove_node-erase :
    (h : Heap) (head n : Ptr) (xs : List Ptr)
    → Ring h head xs
    → n ∈ xs
    → Removed h n xs (remove_node head n h)
remove_node-erase h head n [] r i = absurd (ground arith)
remove_node-erase h head n (x ∷ xs) r i = elim (eq-cases n x) [
  | inl e ↦ rw (e, r.0) (remove-head h x xs (refl, r.1, r.2, r.3))
  | inr e ↦
      let (us, ws, split, out) = split_at_mem n xs (ground arith) in
      rw (split, r.0)
        (remove-other h x n us ws (subst (λ l. Ring h x (x ∷ l)) split (refl, r.1, r.2, r.3)))
]

-- A node whose links are clear is left alone, and so is the list.
pub remove_node-detached :
    (h : Heap) (head n : Ptr) → h.next n ≡ null → remove_node head n h ≡ (0, h, head)
unfolding remove_node
remove_node-detached h head n e = ground arith
