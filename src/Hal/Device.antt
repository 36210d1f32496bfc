-- ===== src/Hal/Device.antt =====
-- The devices behind memory mapped registers: eos_aarch64/hal/aarch64/mmio.h.
use e_os_aarch64_hal.Base.{ℕ, ◌+◌, List, [], ◌∷◌, ◌++◌}

-- The registers written so far, in order, as pairs of an address and a value, and the number of
-- reads. `cntp_ctl` and `cntp_tval` are registers of the timer, `reload` is its tick in cycles.
pub record Device : Type 0 where
  pub written : List (ℕ × ℕ)
  pub reads : ℕ
  pub cntp_ctl : ℕ
  pub cntp_tval : ℕ
  pub reload : ℕ

abbrev pub mmio_write32 : ℕ → ℕ → Device → Device
mmio_write32 a v d = record d { written = d.written ++ (a, v) ∷ [] }

-- What the device answers to a read, by the address and the number of reads before, is an argument.
module _ (answer : ℕ → ℕ → ℕ) where
  abbrev pub mmio_read32 : ℕ → Device → ℕ × Device
  mmio_read32 a d = (answer a d.reads, record d { reads = d.reads + 1 })
