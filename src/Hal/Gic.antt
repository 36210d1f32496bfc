-- ===== src/Hal/Gic.antt =====
-- The interrupt controller: eos_aarch64/hal/aarch64/interrupt.c. A line and an interrupt number is
-- not negative.
pub mod Lines
use e_os_aarch64_hal.Base.{
  ℕ, zero, suc, ◌+◌, ◌-◌, ◌*◌, ◌/◌, ◌%◌, ◌^◌, bit_or, bit_and, leb, if◌then◌else◌,
}
use e_os_aarch64_hal.Hal.Device.{Device, mmio_write32, mmio_read32}

abbrev pub gicd_base : ℕ
gicd_base = 0x08000000

abbrev pub gicc_base : ℕ
gicc_base = 0x08010000

abbrev pub gicc_ctlr : ℕ
gicc_ctlr = gicc_base

abbrev pub gicd_ctlr : ℕ
gicd_ctlr = gicd_base

abbrev pub gicd_isenabler0 : ℕ
gicd_isenabler0 = gicd_base + 0x100

abbrev pub gicd_icenabler0 : ℕ
gicd_icenabler0 = gicd_base + 0x180

abbrev pub gicd_itargetsr : ℕ
gicd_itargetsr = gicd_base + 0x800

abbrev pub gicc_iar : ℕ
gicc_iar = gicc_base + 0x00C

abbrev pub gicc_eoir : ℕ
gicc_eoir = gicc_base + 0x010

abbrev pub gicc_dir : ℕ
gicc_dir = gicc_base + 0x1000

-- `for (int reg = 8; reg < 24; reg++)`, with the rounds that are left.
unfoldable pub route : ℕ → Device → Device
route zero d = d
route (suc left) d = route left (mmio_write32 (gicd_itargetsr + (24 - suc left) * 4) 0x01010101 d)

-- A line is a bit of a bank of registers of 32 lines each.
unfoldable pub enable_irq_line : ℕ → Device → Device
enable_irq_line irq d = mmio_write32 (gicd_isenabler0 + irq / 32 * 4) (2 ^ (irq % 32)) d

unfoldable pub disable_irq_line : ℕ → Device → Device
disable_irq_line irq d = mmio_write32 (gicd_icenabler0 + irq / 32 * 4) (2 ^ (irq % 32)) d

-- The end of an interrupt.
unfoldable pub ack_irq : ℕ → Device → Device
ack_irq irq d =
    let d1 = mmio_write32 gicc_eoir irq d in
    let intid = bit_and irq 0x3FF in mmio_write32 gicc_dir intid d1

module _ (answer : ℕ → ℕ → ℕ) where
  unfoldable pub gic_init : Device → Device
  unfolding route
  gic_init d =
      let d1 = mmio_write32 gicc_ctlr 0 d in
      let d2 = mmio_write32 gicd_ctlr 0 d1 in
      let d3 = mmio_write32 (gicc_base + 0x004) 0xFF d2 in
      let d4 = mmio_write32 (gicc_base + 0x008) 0 d3 in
      let d5 = route 16 d4 in
      let (ctl, d6) = mmio_read32 answer gicc_ctlr d5 in
      let d7 = mmio_write32 gicc_ctlr (bit_or (bit_and ctl (2 ^ 32 - 1 - 2 ^ 9)) 3) d6 in
      mmio_write32 gicd_ctlr 3 d7

  -- The number of the interrupt to handle, or -1 as an `int32u_t` for a spurious one.
  unfoldable pub get_irq : Device → ℕ × Device
  get_irq d =
      let (irq, d1) = mmio_read32 answer gicc_iar d in
      let id = bit_and irq 0x3FF in if leb 1020 id then (2 ^ 32 - 1, d1) else (id, d1)
