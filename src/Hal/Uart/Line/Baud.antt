-- ===== src/Hal/Uart/Line/Baud.antt =====
-- The divisors of the baud rate.
use e_os_aarch64_hal.Base.{
  ℕ, ◌+◌, ◌*◌, ◌/◌, ◌%◌, ◌^◌, ◌≤◌, ◌<◌, ◌≡◌, arith, ◌⊎◌, inl, inr, Bool-cases, ltb,
}
use native.Mathlib.Nat.{div-add-mod', mod-lt, mul-le-mul_right}
use e_os_aarch64_hal.Hal.Uart.Line.{baud_divisors}

-- For a baud rate up to 1000000 the divisor written, in parts of 64, is the quotient of the clock and
-- sixteen times the rate up to half a part. The fraction is below 64 or is 64 itself, which does not
-- fit into its register of six bits; that is so exactly where the remainder is at least 127 of 128
-- parts of the divisor.
pub baud_divisors-nearest :
    (clk_hz baud : ℕ)
    → 1 ≤ baud
    → baud ≤ 1000000
    → let denom = 16 * baud in
      let ibrd = (baud_divisors clk_hz baud).0 in
      let fbrd = (baud_divisors clk_hz baud).1 in
      (64 * (ibrd * denom) + fbrd * denom ≤ 64 * clk_hz + 8 * baud)
      × (64 * clk_hz < 64 * (ibrd * denom) + fbrd * denom + 8 * baud)
      × (((fbrd < 64) × (clk_hz % denom * 128 < 127 * denom))
          ⊎ ((fbrd ≡ 64) × (127 * denom ≤ clk_hz % denom * 128)))
unfolding baud_divisors
baud_divisors-nearest clk_hz baud lo hi =
    let denom = 16 * baud in
    let whole : 16 * baud % 2 ^ 32 ≡ denom = omega arith in
    let rem = clk_hz % denom in
    let small : rem < denom = mod-lt clk_hz (omega arith) in
    let fits : rem * 64 % 2 ^ 32 ≡ rem * 64 = omega arith in
    let half : denom / 2 ≡ 8 * baud = omega arith in
    let t = rem * 64 + 8 * baud in
    let fits2 : t % 2 ^ 32 ≡ t = omega arith in
    let f = t / denom in
    let first = div-add-mod' clk_hz denom in
    let second = div-add-mod' t denom in
    let left : t % denom < denom = mod-lt t (omega arith) in
    rw (whole, fits, half, fits2)
      (
        omega (arith, first, second, left),
        omega (arith, first, second, left),
        elim (Bool-cases (ltb f 64)) [
          | inl e ↦
              let lt : f ≤ 63 = ground arith in
              inl (omega (arith, lt), omega (arith, second, left, small, mul-le-mul_right denom lt))
          | inr e ↦
              let ge : 64 ≤ f = ground arith in
              let least = mul-le-mul_right denom ge in
              inr (
                top f denom ge (omega (arith, second, left, small)),
                omega (arith, second, left, small, least),
              )
        ],
      )
  where
    top : (f denom : ℕ) → 64 ≤ f → f * denom < 65 * denom → f ≡ 64
    top f denom ge lt = elim (Bool-cases (ltb f 65)) [
      | inl e ↦ ground arith
      | inr e ↦
          let more : 65 ≤ f = ground arith in absurd (omega (arith, mul-le-mul_right denom more))
    ]
