-- ===== src/Hal/Gic/Lines.antt =====
-- The lines of the interrupt controller are told apart.
use e_os_aarch64_hal.Base.{
  ℕ, ◌+◌, ◌*◌, ◌/◌, ◌%◌, ◌^◌, ◌<◌, ◌≡◌, ◌≢◌, refl, ap, ◌==◌, arith, all_below, law-all_below, not,
  ◌||◌, List, [], ◌∷◌, ◌++◌, true,
}
use e_os_aarch64_hal.Hal.Device.{Device}
use e_os_aarch64_hal.Hal.Gic.{enable_irq_line, disable_irq_line, gicd_isenabler0, gicd_icenabler0}

-- The bits of a register are distinct.
power-injective : (i j : ℕ) → i < 32 → j < 32 → 2 ^ i ≡ 2 ^ j → i ≡ j
unfolding all_below
power-injective i j hi hj e =
    let row : all_below 32 (λ b. not (2 ^ i == 2 ^ b) || i == b) ≡ true =
      law-all_below (λ a. all_below 32 (λ b. not (2 ^ a == 2 ^ b) || a == b)) 32 refl i hi in
    let cell : (not (2 ^ i == 2 ^ j) || i == j) ≡ true =
      law-all_below (λ b. not (2 ^ i == 2 ^ b) || i == b) 32 row j hj in
    ground (arith, cell, e)

last-write : (l : List (ℕ × ℕ)) (x y : ℕ × ℕ) → l ++ x ∷ [] ≡ l ++ y ∷ [] → x ≡ y
last-write [] x y e = cc
last-write (w ∷ l) x y e = last-write l x y cc

-- Enabling two different lines never comes to the same write, and enabling a line of the controller's
-- 1024 is told apart from disabling any.
pub enable_irq_line-injective :
    (i j : ℕ) (d : Device)
    → (enable_irq_line i d ≡ enable_irq_line j d → i ≡ j)
      × (i < 1024 → enable_irq_line i d ≢ disable_irq_line j d)
unfolding enable_irq_line disable_irq_line
enable_irq_line-injective i j d = (
  λ e.
      let w =
        last-write d.written (gicd_isenabler0 + i / 32 * 4, 2 ^ (i % 32))
          (gicd_isenabler0 + j / 32 * 4, 2 ^ (j % 32)) (ap (λ (x : Device). x.written) e) in
      let reg : i / 32 ≡ j / 32 = omega (arith, ap (λ (x : ℕ × ℕ). x.0) w) in
      let place : i % 32 ≡ j % 32 =
        power-injective (i % 32) (j % 32) (omega arith) (omega arith) (ap (λ (x : ℕ × ℕ). x.1) w) in
      omega arith,
  λ lt e.
      let w =
        last-write d.written (gicd_isenabler0 + i / 32 * 4, 2 ^ (i % 32))
          (gicd_icenabler0 + j / 32 * 4, 2 ^ (j % 32)) (ap (λ (x : Device). x.written) e) in
      absurd (omega (arith, ap (λ (x : ℕ × ℕ). x.0) w)),
)
