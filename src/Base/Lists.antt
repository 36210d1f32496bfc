-- ===== src/Base/Lists.antt =====
-- Lists of addresses: membership as a test, distinctness, removal, and lists indexed by native
-- numbers.
use Prim.Native.Nat.{ℕ, suc, ◌+◌}
use mathlib.Core.Path.{◌≡◌, refl, ap}
use mathlib.Core.Logic.{inl, inr, ◌≢◌}
use mathlib.Core.Bool.{Bool, true, false, ◌||◌}
use mathlib.Core.List.{List, [], ◌∷◌, ◌++◌}
use native.Mathlib.Omega.{arith}
use e_os_aarch64_hal.Base.Tests.{◌==◌, if◌then◌else◌, eq-cases}

module _ {ℓ} {A : Type ℓ} where
  abbrev pub length : List A → ℕ
  length [] = 0
  length (x ∷ xs) = suc (length xs)

  pub length-append : (xs ys : List A) → length (xs ++ ys) ≡ length xs + length ys
  length-append [] ys = omega arith
  length-append (x ∷ xs) ys = omega (arith, length-append xs ys)

abbrev pub has : ℕ → List ℕ → Bool
has a [] = false
has a (x ∷ xs) = (a == x) || has a xs

infix 40 ◌∈◌ ◌∉◌
abbrev pub ◌∈◌ : ℕ → List ℕ → Type 0
a ∈ xs = has a xs ≡ true

abbrev pub ◌∉◌ : ℕ → List ℕ → Type 0
a ∉ xs = has a xs ≡ false

pub has-append : (a : ℕ) (xs ys : List ℕ) → has a (xs ++ ys) ≡ (has a xs || has a ys)
has-append a [] ys = refl
has-append a (x ∷ xs) ys = ground (arith, has-append a xs ys)

abbrev pub Distinct : List ℕ → Type 0
Distinct [] = Unit {0}
Distinct (x ∷ xs) = (x ∉ xs) × Distinct xs

-- The list without the first occurrence of an address.
unfoldable pub erase : ℕ → List ℕ → List ℕ
erase n [] = []
erase n (x ∷ xs) = if n == x then xs else x ∷ erase n xs

pub erase_append : (n : ℕ) (us ws : List ℕ) → n ∉ us → erase n (us ++ n ∷ ws) ≡ us ++ ws
unfolding erase
erase_append n [] ws out = ground arith
erase_append n (u ∷ us) ws out = ground (arith, erase_append n us ws)

pub has-erase : (a n : ℕ) (xs : List ℕ) → a ∉ xs → a ∉ erase n xs
unfolding erase
has-erase a n [] out = refl
has-erase a n (x ∷ xs) out = ground (arith, has-erase a n xs)

-- In a distinct list exactly the erased element goes.
pub has-erase_ne : (a n : ℕ) (xs : List ℕ) → (a == n) ≡ false → has a (erase n xs) ≡ has a xs
unfolding erase
has-erase_ne a n [] e = refl
has-erase_ne a n (x ∷ xs) e = ground (arith, has-erase_ne a n xs e)

pub erase-not-mem : (n : ℕ) (xs : List ℕ) → Distinct xs → n ∉ erase n xs
unfolding erase
erase-not-mem n [] d = refl
erase-not-mem n (x ∷ xs) d = ground (arith, erase-not-mem n xs d.1)

pub split_at_mem :
    (n : ℕ) (xs : List ℕ) → n ∈ xs → (us : List ℕ) × (ws : List ℕ) × (xs ≡ us ++ n ∷ ws) × (n ∉ us)
split_at_mem n [] i = absurd (ground arith)
split_at_mem n (x ∷ xs) i = elim (eq-cases n x) [
  | inl e ↦ ([], xs, ground arith, refl)
  | inr e ↦
      let (us, ws, eq, out) = split_at_mem n xs (ground arith) in
      (x ∷ us, ws, ap (◌∷◌ x) eq, ground arith)
]

-- What distinctness says of the two halves of a list.
pub Distinct-left : (us ws : List ℕ) → Distinct (us ++ ws) → Distinct us
Distinct-left [] ws d = tt
Distinct-left (u ∷ us) ws d = ground (arith, has-append u us ws, Distinct-left us ws d.1)

pub Distinct-right : (us ws : List ℕ) → Distinct (us ++ ws) → Distinct ws
Distinct-right [] ws d = d
Distinct-right (u ∷ us) ws d = Distinct-right us ws d.1

pub Distinct-apart : (a : ℕ) (us ws : List ℕ) → Distinct (us ++ ws) → a ∈ us → a ∉ ws
Distinct-apart a [] ws d i = absurd (ground arith)
Distinct-apart a (u ∷ us) ws d i = elim (eq-cases a u) [
  | inl e ↦ ground (arith, has-append u us ws)
  | inr e ↦ Distinct-apart a us ws d.1 (ground arith)
]

pub Distinct-insert :
    (n : ℕ) (us ws : List ℕ) → n ∉ us ++ ws → Distinct (us ++ ws) → Distinct (us ++ n ∷ ws)
Distinct-insert n [] ws out d = (out, d)
Distinct-insert n (u ∷ us) ws out d = (
  ground (arith, has-append u us ws, has-append u us (n ∷ ws)),
  Distinct-insert n us ws (ground arith) d.1,
)

pub Distinct-delete :
    (n : ℕ) (us ws : List ℕ) → Distinct (us ++ n ∷ ws) → Distinct (us ++ ws) × (n ∉ us ++ ws)
Distinct-delete n [] ws d = (d.1, d.0)
Distinct-delete n (u ∷ us) ws d =
    let (e, out) = Distinct-delete n us ws d.1 in
    (
      (ground (arith, has-append u us ws, has-append u us (n ∷ ws)), e),
      ground (arith, has-append u us (n ∷ ws)),
    )

pub ne_of_mem : {a b : ℕ} (xs : List ℕ) → a ∈ xs → b ∉ xs → a ≢ b
ne_of_mem xs i out e = cc
