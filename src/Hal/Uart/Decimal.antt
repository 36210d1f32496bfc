-- ===== src/Hal/Uart/Decimal.antt =====
-- What is printed reads back as the number.
use e_os_aarch64_hal.Base.{
  ℕ, zero, suc, ◌+◌, ◌-◌, ◌*◌, ◌/◌, ◌%◌, ◌^◌, ◌<◌, ◌≡◌, refl, ap, ◌∙◌, inl, inr, arith, ◌==◌,
  eq-cases, List, [], ◌∷◌, true, Bool, ◌&&◌, leb,
}
use e_os_aarch64_hal.Hal.Uart.{dec_digits, put_dec}

-- The number that decimal digits stand for, read from the left.
abbrev pub decimal : ℕ → List ℕ → ℕ
decimal n [] = n
decimal n (c ∷ cs) = decimal (n * 10 + (c - 48)) cs

-- All bytes are digits.
abbrev pub are_digits : List ℕ → Bool
are_digits [] = true
are_digits (c ∷ cs) = leb 48 c && leb c 57 && are_digits cs

decimal-dec_digits :
    (left val : ℕ) (buf : List ℕ)
    → val < 10 ^ left
    → are_digits buf ≡ true
    → (decimal 0 (dec_digits left val buf) ≡ decimal val buf)
      × (are_digits (dec_digits left val buf) ≡ true)
unfolding dec_digits
decimal-dec_digits zero val buf lt d = let none : val ≡ 0 = ground arith in rw none (refl, d)
decimal-dec_digits (suc left) val buf lt d = elim (eq-cases val 0) [
  | inl e ↦ let zero_val : (val == 0) ≡ true = ground arith in rw (zero_val, e) (refl, d)
  | inr e ↦
      let back : val / 10 * 10 + (val % 10 + 48 - 48) ≡ val = omega arith in
      let (value, digits) =
        decimal-dec_digits left (val / 10) ((val % 10 + 48) ∷ buf) (ground arith) (ground arith) in
      rw e (value ∙ ap (λ n. decimal n buf) back, digits)
]

-- The bytes printed for a number of 64 bits are decimal digits, and read as that number: the buffer's
-- twenty digits are enough.
pub decimal-put_dec :
    (val : ℕ) → val < 2 ^ 64 → (decimal 0 (put_dec val) ≡ val) × (are_digits (put_dec val) ≡ true)
unfolding put_dec
decimal-put_dec val lt = elim (eq-cases val 0) [
  | inl e ↦ let zero_val : (val == 0) ≡ true = ground arith in rw (zero_val, e) (refl, refl)
  | inr e ↦ rw e (decimal-dec_digits 20 val [] (omega arith) refl)
]
