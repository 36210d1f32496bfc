-- ===== src/Print/Digits.antt =====
-- The digits that `number` prints read back as the number.
use e_os_aarch64_hal.Base.{
  ℕ, zero, suc, ◌+◌, ◌-◌, ◌*◌, ◌/◌, ◌%◌, ◌^◌, ◌<◌, ◌≤◌, ◌≡◌, refl, ap, sym, ◌∙◌, inl, inr, arith,
  if◌then◌else◌, ◌==◌, leb, eq-cases, ==_iff, all_below, law-all_below, List, [], ◌∷◌,
}
use native.Mathlib.Nat.{div-add-mod', mod-lt}
use e_os_aarch64_hal.Bitmap.{entry}
use e_os_aarch64_hal.Print.Number.{small_digits, large_digits, put_digits, digits_of}

-- What a byte counts as a digit: 0 to 9, then the letters, small or large.
abbrev pub digit_value : ℕ → ℕ
digit_value c = if leb c b'9' then c - b'0' else if leb c b'Z' then c - b'A' + 10 else c - b'a' + 10

-- The number that digits stand for in a base, read from the left.
abbrev pub value : ℕ → ℕ → List ℕ → ℕ
value base n [] = n
value base n (c ∷ cs) = value base (n * base + digit_value c) cs

-- Both tables give the digits their values.
abbrev pub IsDigits : List ℕ → Type 0
IsDigits digits = (entry digits 0 ≡ b'0') × ((d : ℕ) → d < 36 → digit_value (entry digits d) ≡ d)

pub small_digits-IsDigits : IsDigits small_digits
unfolding all_below
small_digits-IsDigits = (
  refl,
  λ d lt.
      (==_iff _ _).0 (law-all_below (λ i. digit_value (entry small_digits i) == i) 36 refl d lt),
)

pub large_digits-IsDigits : IsDigits large_digits
unfolding all_below
large_digits-IsDigits = (
  refl,
  λ d lt.
      (==_iff _ _).0 (law-all_below (λ i. digit_value (entry large_digits i) == i) 36 refl d lt),
)

double-le : (q base : ℕ) → 2 ≤ base → q * 2 ≤ q * base
double-le zero base h = omega arith
double-le (suc q) base h = omega (arith, double-le q base h)

div-lt : (n base m : ℕ) → 2 ≤ base → n < 2 * m → n / base < m
div-lt n base m h lt = omega (arith, double-le (n / base) base h, div-add-mod' n base)

-- The bytes are digits of a base.
abbrev pub AreDigits : List ℕ → ℕ → List ℕ → Type 0
AreDigits digits base [] = Unit {0}
AreDigits digits base (c ∷ cs) =
    ((d : ℕ) × (d < base) × (c ≡ entry digits d)) × AreDigits digits base cs

value-put_digits :
    (left : ℕ) (digits : List ℕ) (base num : ℕ) (tmp : List ℕ)
    → IsDigits digits
    → 2 ≤ base
    → base ≤ 36
    → num < 2 ^ left
    → AreDigits digits base tmp
    → (value base 0 (put_digits left digits base num tmp) ≡ value base num tmp)
      × AreDigits digits base (put_digits left digits base num tmp)
unfolding put_digits
value-put_digits zero digits base num tmp table low high lt all =
    let none : num ≡ 0 = ground arith in rw none (refl, all)
value-put_digits (suc left) digits base num tmp table low high lt all = elim (eq-cases num 0) [
  | inl e ↦ rw e (refl, all)
  | inr e ↦
      let d = num % base in
      let small : d < base = mod-lt num (omega arith) in
      let back : num / base * base + digit_value (entry digits d) ≡ num =
        omega (arith, table.1 d (omega arith), div-add-mod' num base) in
      let (v, ds) =
        value-put_digits left digits base (num / base) (entry digits d ∷ tmp) table low high
          (div-lt num base (2 ^ left) low (ground arith)) ((d, small, refl), all) in
      rw e (v ∙ ap (λ n. value base n tmp) back, ds)
]

-- The digits printed for a number of 64 bits, in a base of 2 to 36, are digits of that base and read
-- as the number: the buffer of 66 bytes is enough.
pub value-digits_of :
    (digits : List ℕ) (base num : ℕ)
    → IsDigits digits
    → 2 ≤ base
    → base ≤ 36
    → num < 2 ^ 64
    → (value base 0 (digits_of digits base num) ≡ num)
      × AreDigits digits base (digits_of digits base num)
unfolding digits_of
value-digits_of digits base num table low high lt = elim (eq-cases num 0) [
  | inl e ↦ rw e (omega arith, ((0, omega arith, sym table.0), tt))
  | inr e ↦ rw e (value-put_digits 64 digits base num [] table low high lt tt)
]
