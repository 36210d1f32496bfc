-- ===== src/Interrupt/Table.antt =====
-- The table of handlers.
use e_os_aarch64_hal.Base.{
  ℕ, ◌+◌, ◌≤◌, ◌<◌, ◌≡◌, refl, ◌≢◌, ◌⊎◌, inl, inr, arith, ◌==◌, Bool-cases, true,
}
use e_os_aarch64_hal.Base.Run.{Run}
use e_os_aarch64_hal.Hal.Device.{Device}
use e_os_aarch64_hal.Interrupt.{
  Interrupts, irq_max, out_of_table, set_interrupt_handler, get_interrupt_handler, word_count,
}

-- Registering a handler for one of the 32 interrupts returns 0; from then on that handler is found
-- under its number, and under every other number the one that was found there before. For any other
-- number the call returns -1 and changes nothing.
pub get-set_interrupt_handler :
    (s : Interrupts) (irqnum handler arg other : ℕ)
    → irqnum < 256
    → let r = set_interrupt_handler irqnum handler arg s in
      ((irqnum < irq_max)
        × (r.0 ≡ 0)
        × (get_interrupt_handler irqnum r.1 ≡ handler)
        × (other ≢ irqnum → get_interrupt_handler other r.1 ≡ get_interrupt_handler other s))
      ⊎ ((irq_max ≤ irqnum) × (r.0 ≡ 255) × (r.1 ≡ s))
unfolding set_interrupt_handler get_interrupt_handler
get-set_interrupt_handler s irqnum handler arg other byte =
    elim (Bool-cases (out_of_table irqnum)) [
      | inl e ↦ rw e (inr (ground arith, refl, refl))
      | inr e ↦
          let same : (irqnum == irqnum) ≡ true = ground arith in
          rw (e, same) (inl (ground arith, refl, refl, λ ne. ground arith))
    ]

-- The state in which a handler is called: the words of the saved context stand at the place that the
-- running task's stack pointer names, and nothing else changed.
pub record Copied (s : Interrupts) (saved : ℕ) (s' : Interrupts) : Type 0 where
  pub moved : (j : ℕ) → j < word_count → s'.words (s.sp s.current + j) ≡ s.words (saved + j)
  pub outside :
      (a : ℕ) → (a < s.sp s.current) ⊎ (s.sp s.current + word_count ≤ a) → s'.words a ≡ s.words a
  pub table : s'.icb_table ≡ s.icb_table
  pub current : s'.current ≡ s.current
  pub sp : s'.sp ≡ s.sp
