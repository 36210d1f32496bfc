-- ===== src/NodeList/Chain.antt =====
-- What a list stands for: from the head the `next` fields lead through the distinct nodes of a list
-- and back to the head, and each `prev` field leads back.
use e_os_aarch64_hal.Base.{
  ◌≡◌, refl, sym, subst, ◌∙◌, ◌≢◌, false, true, Bool, List, [], ◌∷◌, ◌++◌, arith, ◌∈◌, ◌∉◌,
  Distinct, ◌==◌,
}
use e_os_aarch64_hal.NodeList.{Ptr, null, Heap}

abbrev pub Link : Heap → Ptr → Ptr → Type 0
Link h a b = (h.next a ≡ b) × (h.prev b ≡ a)

-- From `a` through `xs` to `b`.
abbrev pub Chain : Heap → Ptr → List Ptr → Ptr → Type 0
Chain h a [] b = Link h a b
Chain h a (x ∷ xs) b = Link h a x × Chain h x xs b

abbrev pub Ring : Heap → Ptr → List Ptr → Type 0
Ring h head [] = head ≡ null
Ring h head (x ∷ xs) = (head ≡ x) × Chain h x xs x × Distinct (x ∷ xs) × (null ∉ x ∷ xs)

-- `g` has the links of `h` at every address outside `xs`, and the other fields everywhere.
pub record SameOutside (xs : List Ptr) (h g : Heap) : Type 0 where
  pub prev : (a : Ptr) → a ∉ xs → g.prev a ≡ h.prev a
  pub next : (a : Ptr) → a ∉ xs → g.next a ≡ h.next a
  pub pnode : (a : Ptr) → g.pnode a ≡ h.pnode a
  pub order_val : (a : Ptr) → g.order_val a ≡ h.order_val a

pub Chain-append :
    (h : Heap) (a : Ptr) (us : List Ptr) (y : Ptr) (ws : List Ptr) (b : Ptr)
    → Chain h a us y
    → Chain h y ws b
    → Chain h a (us ++ y ∷ ws) b
Chain-append h a [] y ws b c d = (c, d)
Chain-append h a (u ∷ us) y ws b c d = (c.0, Chain-append h u us y ws b c.1 d)

pub Chain-split :
    (h : Heap) (a : Ptr) (us : List Ptr) (y : Ptr) (ws : List Ptr) (b : Ptr)
    → Chain h a (us ++ y ∷ ws) b
    → Chain h a us y × Chain h y ws b
Chain-split h a [] y ws b c = c
Chain-split h a (u ∷ us) y ws b c = let (d, e) = Chain-split h u us y ws b c.1 in ((c.0, d), e)

-- The node before the end of a chain is one of its own.
pub prev-mem : (h : Heap) (a : Ptr) (us : List Ptr) (y : Ptr) → Chain h a us y → h.prev y ∈ a ∷ us
prev-mem h a [] y c = ground arith
prev-mem h a (u ∷ us) y c = ground (arith, prev-mem h u us y c.1)

pub next-mem : (h : Heap) (a : Ptr) (us : List Ptr) (y : Ptr) → Chain h a us y → h.next a ∈ y ∷ us
next-mem h a [] y c = ground arith
next-mem h a (u ∷ us) y c = ground arith

-- A chain survives a change that spares the `next` of its nodes and the `prev` of their successors.
pub Chain-frame :
    (h g : Heap) (a : Ptr) (xs : List Ptr) (b : Ptr)
    → ((p : Ptr) → p ∈ a ∷ xs → g.next p ≡ h.next p)
    → ((p : Ptr) → p ∈ b ∷ xs → g.prev p ≡ h.prev p)
    → Chain h a xs b
    → Chain g a xs b
Chain-frame h g a [] b n p c = ground (arith, n a, p b)
Chain-frame h g a (x ∷ xs) b n p c = (
  ground (arith, n a, p x),
  Chain-frame h g x xs b (λ q i. n q (ground arith)) (λ q i. p q (ground arith)) c.1,
)

pub Ring-frame :
    (h g : Heap) (head : Ptr) (xs : List Ptr)
    → ((p : Ptr) → p ∈ xs → g.next p ≡ h.next p)
    → ((p : Ptr) → p ∈ xs → g.prev p ≡ h.prev p)
    → Ring h head xs
    → Ring g head xs
Ring-frame h g head [] n p r = r
Ring-frame h g head (x ∷ xs) n p r = (r.0, Chain-frame h g x xs x n p r.1, r.2, r.3)

pub Ring-Distinct : (h : Heap) (head : Ptr) (xs : List Ptr) → Ring h head xs → Distinct xs
Ring-Distinct h head [] r = tt
Ring-Distinct h head (x ∷ xs) r = r.2

pub Ring-null : (h : Heap) (head : Ptr) (xs : List Ptr) → Ring h head xs → null ∉ xs
Ring-null h head [] r = refl
Ring-null h head (x ∷ xs) r = r.3

-- The head pointer is NULL exactly when the list is empty.
abbrev pub is_empty : List Ptr → Bool
is_empty [] = true
is_empty (x ∷ xs) = false

pub Ring-empty :
    (h : Heap) (head : Ptr) (xs : List Ptr) → Ring h head xs → (head == null) ≡ is_empty xs
Ring-empty h head [] r = ground arith
Ring-empty h head (x ∷ xs) r = ground arith

pub Ring-head : (h : Heap) (head : Ptr) (xs : List Ptr) → Ring h head xs → head ≢ null → head ∈ xs
Ring-head h head [] r ne = absurd (ne r)
Ring-head h head (y ∷ ys) r ne = ground arith

Chain-unique :
    (h : Heap) (a : Ptr) (xs ys : List Ptr) (b : Ptr)
    → Chain h a xs b
    → Chain h a ys b
    → b ∉ xs
    → b ∉ ys
    → xs ≡ ys
Chain-unique h a [] [] b c d e f = refl
Chain-unique h a [] (y ∷ ys) b c d e f = absurd (ground arith)
Chain-unique h a (x ∷ xs) [] b c d e f = absurd (ground arith)
Chain-unique h a (x ∷ xs) (y ∷ ys) b c d e f =
    let same : y ≡ x = sym d.0.0 ∙ c.0.0 in
    let there : Chain h x ys b = subst (λ z. Chain h z ys b) same d.1 in
    let rest = Chain-unique h x xs ys b c.1 there (ground arith) (ground arith) in
    rw (same, rest) refl

-- A head in memory stands for one list at most.
pub Ring-unique :
    (h : Heap) (head : Ptr) (xs ys : List Ptr) → Ring h head xs → Ring h head ys → xs ≡ ys
Ring-unique h head [] [] r s = refl
Ring-unique h head [] (y ∷ ys) r s = absurd (ground arith)
Ring-unique h head (x ∷ xs) [] r s = absurd (ground arith)
Ring-unique h head (x ∷ xs) (y ∷ ys) r s =
    let same : y ≡ x = sym s.0 ∙ r.0 in
    let there : Ring h head (x ∷ ys) = subst (λ z. Ring h head (z ∷ ys)) same s in
    let rest = Chain-unique h x xs ys x r.1 there.1 r.2.0 there.2.0 in rw (same, rest) refl
