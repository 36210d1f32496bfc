-- ===== src/NodeList/Insert.antt =====
-- `_os_add_node_tail`: insertion in front of a node, and at the end of a ring.
use e_os_aarch64_hal.Base.{
  ◌≡◌, refl, ◌≢◌, false, List, [], ◌∷◌, ◌++◌, arith, ◌∈◌, ◌∉◌, Distinct, ◌==◌, has-append,
  append-nil, append_assoc, subst, eq-cases, Distinct-left, Distinct-right, Distinct-apart,
  Distinct-insert,
}
use e_os_aarch64_hal.NodeList.{Ptr, null, Heap, link_before, link_self, add_node_tail}
use e_os_aarch64_hal.NodeList.Chain.{
  Chain, Ring, SameOutside, Chain-append, Chain-split, prev-mem, Chain-frame,
}

-- The chain that ends at `y` gets the new node at its end.
pub link_before-Chain :
    (h : Heap) (a : Ptr) (us : List Ptr) (y n : Ptr)
    → Chain h a us y
    → Distinct (a ∷ us)
    → y ∉ us
    → n ∉ y ∷ a ∷ us
    → Chain (link_before y n h) a (us ++ n ∷ []) y
unfolding link_before
link_before-Chain h a [] y n c d out fresh = ground arith
link_before-Chain h a (u ∷ us) y n c d out fresh = (
  ground (arith, prev-mem h u us y c.1),
  link_before-Chain h u us y n c.1 d.1 (ground arith) (ground arith),
)

-- The chain that begins at `y` is left as it is.
link_before-rest :
    (h : Heap) (a : Ptr) (us : List Ptr) (y n : Ptr) (ws : List Ptr) (b : Ptr)
    → Chain h a us y
    → Chain h y ws b
    → Distinct ((a ∷ us) ++ y ∷ ws)
    → y ∉ b ∷ []
    → n ∉ b ∷ (a ∷ us) ++ y ∷ ws
    → Chain (link_before y n h) y ws b
unfolding link_before
link_before-rest h a us y n ws b c e d apart fresh =
    let p = prev-mem h a us y c in
    let p_out = Distinct-apart (h.prev y) (a ∷ us) (y ∷ ws) d p in
    let d' = Distinct-right (a ∷ us) (y ∷ ws) d in
    Chain-frame h (link_before y n h) y ws b
      (λ q i. ground (arith, has-append n (a ∷ us) (y ∷ ws), eq-cases q n, eq-cases q (h.prev y)))
      (λ q i. ground (arith, has-append n (a ∷ us) (y ∷ ws), eq-cases q n, eq-cases q y)) e

-- The new node goes between two nodes of a ring.
pub link_before-middle :
    (h : Heap) (a : Ptr) (us : List Ptr) (y n : Ptr) (ws : List Ptr)
    → Ring h a ((a ∷ us) ++ y ∷ ws)
    → n ∉ (a ∷ us) ++ y ∷ ws
    → n ≢ null
    → Ring (link_before y n h) a ((a ∷ us) ++ n ∷ y ∷ ws)
link_before-middle h a us y n ws r out ne =
    let (c, e) = Chain-split h a us y ws a r.1 in
    let d = Distinct-insert n (a ∷ us) (y ∷ ws) out r.2 in
    let apart = Distinct-apart a (a ∷ us) (y ∷ ws) r.2 (ground arith) in
    let cut = Distinct-right (a ∷ us) (y ∷ ws) r.2 in
    let left = Distinct-left (a ∷ us) (y ∷ ws) r.2 in
    let y_out : y ∉ a ∷ us = ground (arith, Distinct-apart y (a ∷ us) (y ∷ ws) r.2) in
    (
      refl,
      subst (λ l. Chain (link_before y n h) a l a) (append_assoc us (n ∷ []) (y ∷ ws))
          (Chain-append (link_before y n h) a (us ++ n ∷ []) y ws a
            (link_before-Chain h a us y n c left (ground arith)
              (ground (arith, has-append n us (y ∷ ws))))
            (link_before-rest h a us y n ws a c e r.2 (ground arith) (ground arith))),
      d,
      ground (arith, has-append 0 us (y ∷ ws), has-append 0 us (n ∷ y ∷ ws)),
    )

-- In front of the head the new node ends the ring, or becomes its head.
pub link_before-last :
    (h : Heap) (a n : Ptr) (xs : List Ptr)
    → Ring h a (a ∷ xs)
    → n ∉ a ∷ xs
    → n ≢ null
    → Ring (link_before a n h) a ((a ∷ xs) ++ n ∷ [])
link_before-last h a n xs r out ne = (
  refl,
  link_before-Chain h a xs a n r.1 r.2 (r.2).0 (ground arith),
  Distinct-insert n (a ∷ xs) [] (rw (append-nil xs) out) (rw (append-nil xs) r.2),
  ground (arith, has-append 0 xs (n ∷ [])),
)

pub link_before-first :
    (h : Heap) (a n : Ptr) (xs : List Ptr)
    → Ring h a (a ∷ xs)
    → n ∉ a ∷ xs
    → n ≢ null
    → Ring (link_before a n h) n (n ∷ a ∷ xs)
link_before-first h a n xs r out ne =
    let s = link_before-last h a n xs r out ne in
    let (c, l) = Chain-split (link_before a n h) a xs n [] a s.1 in
    (refl, (l, c), (out, r.2), ground arith)

pub link_self-Ring : (h : Heap) (n : Ptr) → n ≢ null → Ring (link_self n h) n (n ∷ [])
unfolding link_self
link_self-Ring h n ne = (refl, ground arith, (refl, tt), ground arith)

-- A new node goes to the end of a list, whether that is empty or not.
pub add_node_tail-append :
    (h : Heap) (head n : Ptr) (xs : List Ptr)
    → Ring h head xs
    → n ∉ xs
    → n ≢ null
    → let (g, head') = add_node_tail head n h in Ring g head' (xs ++ n ∷ [])
unfolding add_node_tail
add_node_tail-append h head n [] r out ne = rw r (link_self-Ring h n ne)
add_node_tail-append h head n (x ∷ xs) r out ne = ground (arith, link_before-last h x n xs)

pub link_before-SameOutside :
    (h : Heap) (y n : Ptr) (xs : List Ptr)
    → y ∈ xs
    → h.prev y ∈ xs
    → SameOutside (n ∷ xs) h (link_before y n h)
unfolding link_before
link_before-SameOutside h y n xs i p = record {
  prev = λ a out. ground (arith, eq-cases a n, eq-cases a y);
  next = λ a out. ground (arith, eq-cases a n, eq-cases a (h.prev y));
  pnode = λ a. refl;
  order_val = λ a. refl;
}

pub link_self-SameOutside : (h : Heap) (n : Ptr) → SameOutside (n ∷ []) h (link_self n h)
unfolding link_self
link_self-SameOutside h n = record {
  prev = λ a out. ground arith;
  next = λ a out. ground arith;
  pnode = λ a. refl;
  order_val = λ a. refl;
}

-- It writes only the links of the list's nodes and of the new one.
pub add_node_tail-SameOutside :
    (h : Heap) (head n : Ptr) (xs : List Ptr)
    → Ring h head xs
    → SameOutside (n ∷ xs) h (add_node_tail head n h).0
unfolding add_node_tail
add_node_tail-SameOutside h head n [] r = rw r (link_self-SameOutside h n)
add_node_tail-SameOutside h head n (x ∷ xs) r =
    let same = link_before-SameOutside h x n (x ∷ xs) (ground arith) (prev-mem h x xs x r.1) in
    let used : (head == null) ≡ false = ground arith in rw (used, r.0) same
