-- ===== src/NodeList/Ordered.antt =====
-- `_os_add_node_ordered`: the insertion keeps a ring in ascending order, first come first.
use e_os_aarch64_hal.Base.{
  ℕ, zero, suc, ◌≡◌, refl, ◌≢◌, false, List, [], ◌∷◌, ◌++◌, arith, has, ◌∉◌, ◌==◌, ◌||◌, has-append,
  ap, append-nil, subst, inl, inr, if◌then◌else◌, ltb, leb, length, Option, some, sym, ◌∙◌, ◌≤◌,
  ◌<◌, Bool-cases,
}
use e_os_aarch64_hal.NodeList.{
  Ptr, null, Heap, link_before, link_self, find_later, add_node_ordered,
}
use e_os_aarch64_hal.NodeList.Chain.{Chain, Ring, SameOutside, prev-mem, Chain-split}
use e_os_aarch64_hal.NodeList.Insert.{
  link_before-first, link_before-last, link_before-middle, link_self-Ring, link_before-SameOutside,
  link_self-SameOutside,
}

-- The list with a node put in front of the first that comes later, and at the end where none does.
unfoldable pub insert : (Ptr → ℕ) → Ptr → List Ptr → List Ptr
insert order n [] = n ∷ []
insert order n (x ∷ xs) = if ltb (order n) (order x) then n ∷ x ∷ xs else x ∷ insert order n xs

pub has-insert :
    (order : Ptr → ℕ) (a n : Ptr) (xs : List Ptr) → has a (insert order n xs) ≡ (a == n || has a xs)
unfolding insert
has-insert order a n [] = refl
has-insert order a n (x ∷ xs) = ground (arith, has-insert order a n xs)

abbrev pub IsOrdered : (Ptr → ℕ) → List Ptr → Type 0
IsOrdered order [] = Unit {0}
IsOrdered order (x ∷ []) = Unit {0}
IsOrdered order (x ∷ y ∷ l) = (order x ≤ order y) × IsOrdered order (y ∷ l)

pub insert-IsOrdered :
    (order : Ptr → ℕ) (n : Ptr) (xs : List Ptr)
    → IsOrdered order xs
    → IsOrdered order (insert order n xs)
unfolding insert
insert-IsOrdered order n [] s = tt
insert-IsOrdered order n (x ∷ []) s = ground arith
insert-IsOrdered order n (x ∷ y ∷ l) s = ground (arith, insert-IsOrdered order n (y ∷ l) s.1)

-- The first node of a list that comes later than `v`, or the list's end.
abbrev first_later : (Ptr → ℕ) → ℕ → Ptr → List Ptr → Ptr
first_later order v end [] = end
first_later order v end (w ∷ ws) = if leb (order w) v then first_later order v end ws else w

find_later-first :
    (k : ℕ) (h : Heap) (v p a : Ptr) (ws : List Ptr)
    → Chain h p ws a
    → a ∉ ws
    → length ws < k
    → find_later k a v (h.next p) h ≡ some (first_later h.order_val v a ws)
unfolding find_later
find_later-first zero h v p a ws c out fuel = absurd (omega arith)
find_later-first (suc k) h v p a [] c out fuel = ground arith
find_later-first (suc k) h v p a (w ∷ ws) c out fuel =
    ground (arith, find_later-first k h v w a ws c.1)

abbrev first_of_or : Ptr → List Ptr → Ptr
first_of_or end [] = end
first_of_or end (w ∷ ws) = w

-- Where the search stops is where the list is divided.
record Divided (order : Ptr → ℕ) (n end : Ptr) (xs : List Ptr) : Type 0 where
  before : List Ptr
  behind : List Ptr
  whole : xs ≡ before ++ behind
  result : insert order n xs ≡ before ++ n ∷ behind
  place : first_later order (order n) end xs ≡ first_of_or end behind

divide : (order : Ptr → ℕ) (n end : Ptr) (xs : List Ptr) → Divided order n end xs
unfolding insert
divide order n end [] = record {
  before = [];
  behind = [];
  whole = refl;
  result = refl;
  place = refl;
}
divide order n end (x ∷ xs) = elim (Bool-cases (ltb (order n) (order x))) [
  | inl e ↦ record {
    before = [];
    behind = x ∷ xs;
    whole = refl;
    result = rw e;
    place = ground arith;
  }
  | inr e ↦
      let d = divide order n end xs in
      record {
        before = x ∷ d.before;
        behind = d.behind;
        whole = ap (◌∷◌ x) d.whole;
        result = rw e (ap (◌∷◌ x) d.result);
        place = ground (arith, d.place);
      }
]

link_before-place :
    (h : Heap) (a n : Ptr) (us ws : List Ptr)
    → Ring h a ((a ∷ us) ++ ws)
    → n ∉ (a ∷ us) ++ ws
    → n ≢ null
    → Ring (link_before (first_of_or a ws) n h) a ((a ∷ us) ++ n ∷ ws)
link_before-place h a n us [] r out ne =
    link_before-last h a n us (subst (λ l. Ring h a (a ∷ l)) (append-nil us) r)
      (subst (λ l. n ∉ a ∷ l) (append-nil us) out) ne
link_before-place h a n us (w ∷ ws) r out ne = link_before-middle h a us w n ws r out ne

place-SameOutside :
    (h : Heap) (a n : Ptr) (us ws : List Ptr)
    → Ring h a ((a ∷ us) ++ ws)
    → SameOutside (n ∷ (a ∷ us) ++ ws) h (link_before (first_of_or a ws) n h)
place-SameOutside h a n us [] r =
    let last = prev-mem h a us a (subst (λ l. Chain h a l a) (append-nil us) r.1) in
    link_before-SameOutside h a n ((a ∷ us) ++ []) (ground arith)
      (ground (arith, has-append (h.prev a) us []))
place-SameOutside h a n us (w ∷ ws) r =
    let last = prev-mem h a us w (Chain-split h a us w ws a r.1).0 in
    link_before-SameOutside h w n ((a ∷ us) ++ w ∷ ws) (ground (arith, has-append w us (w ∷ ws)))
      (ground (arith, has-append (h.prev w) us (w ∷ ws)))

-- The outcome of an ordered insertion.
pub record Inserted (h : Heap) (n : Ptr) (xs : List Ptr) (r : Option (Heap × Ptr)) : Type 0 where
  pub heap : Heap
  pub head : Ptr
  pub returns : r ≡ some (heap, head)
  pub ring : Ring heap head (insert h.order_val n xs)
  pub same : SameOutside (n ∷ xs) h heap

insert-behind :
    (fuel : ℕ) (h : Heap) (x n : Ptr) (xs : List Ptr)
    → Ring h x (x ∷ xs)
    → n ∉ x ∷ xs
    → n ≢ null
    → length xs < fuel
    → ltb (h.order_val n) (h.order_val x) ≡ false
    → Inserted h n (x ∷ xs) (add_node_ordered fuel x n h)
unfolding add_node_ordered insert
insert-behind fuel h x n xs r out ne k later =
    let d = divide h.order_val n x xs in
    let used : (x == null) ≡ false = ground arith in
    let found = find_later-first fuel h (h.order_val n) x x xs r.1 (r.2).0 k ∙ ap some d.place in
    let r' = subst (λ l. Ring h x (x ∷ l)) d.whole r in
    let out' = subst (λ l. n ∉ x ∷ l) d.whole out in
    record {
      heap = link_before (first_of_or x d.behind) n h;
      head = x;
      returns = rw (used, later, found) refl;
      ring = rw (later, d.result) (link_before-place h x n d.before d.behind r' out' ne);
      same =
          subst (λ l. SameOutside (n ∷ x ∷ l) h (link_before (first_of_or x d.behind) n h))
            (sym d.whole) (place-SameOutside h x n d.before d.behind r');
    }

-- With as much fuel as the list has nodes the search ends, and the new node stands in front of the
-- first node of the list that comes later, or at the end where none does; the other nodes keep their
-- order, and only links of the list's nodes and of the new one are written.
pub add_node_ordered-insert :
    (fuel : ℕ) (h : Heap) (head n : Ptr) (xs : List Ptr)
    → Ring h head xs
    → n ∉ xs
    → n ≢ null
    → length xs ≤ fuel
    → Inserted h n xs (add_node_ordered fuel head n h)
unfolding add_node_ordered insert
add_node_ordered-insert fuel h head n [] r out ne k = record {
  heap = link_self n h;
  head = n;
  returns = rw r refl;
  ring = link_self-Ring h n ne;
  same = link_self-SameOutside h n;
}
add_node_ordered-insert fuel h head n (x ∷ xs) r out ne k =
    let r' : Ring h x (x ∷ xs) = (refl, r.1, r.2, r.3) in
    let used : (x == null) ≡ false = ground arith in
    elim (Bool-cases (ltb (h.order_val n) (h.order_val x))) [
      | inl sooner ↦ record {
        heap = link_before x n h;
        head = n;
        returns = rw (r.0, used, sooner) refl;
        ring = rw sooner (link_before-first h x n xs r' out ne);
        same = link_before-SameOutside h x n (x ∷ xs) (ground arith) (prev-mem h x xs x r.1);
      }
      | inr later ↦ rw r.0 (insert-behind fuel h x n xs r' out ne k later)
    ]
