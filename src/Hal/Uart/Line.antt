-- ===== src/Hal/Uart/Line.antt =====
-- The registers of the UART and the bytes sent: `pl011_set_baud`, `early_uart_init`,
-- `early_uart_putc` and `early_uart_puts` of eos_aarch64/hal/aarch64/uart.c.
pub mod Baud
pub mod Sent
use e_os_aarch64_hal.Base.{
  ℕ, zero, suc, ◌+◌, ◌*◌, ◌/◌, ◌%◌, ◌^◌, bit_and, ◌==◌, if◌then◌else◌, List, [], ◌∷◌, Option, none,
  some,
}
use e_os_aarch64_hal.Base.Run.{Run, ok, hang, ◌>>=◌}
use e_os_aarch64_hal.Hal.Device.{Device, mmio_write32, mmio_read32}

abbrev pub uart0_base : ℕ
uart0_base = 0x09000000

-- The data register and the flag register.
abbrev pub uartdr : ℕ
uartdr = uart0_base + 0x00

abbrev pub uartfr : ℕ
uartfr = uart0_base + 0x18

abbrev pub fr_txff : ℕ
fr_txff = 0x20

-- The integer and the fractional divisor, on 32 bits. A baud rate whose multiple by 16 is 0 divides
-- by 0 in C.
unfoldable pub baud_divisors : ℕ → ℕ → ℕ × ℕ
baud_divisors clk_hz baud =
    let denom = 16 * baud % 2 ^ 32 in
    let ibrd = clk_hz / denom in
    let rem = clk_hz % denom in
    let fbrd = (rem * 64 % 2 ^ 32 + denom / 2) % 2 ^ 32 / denom in (ibrd, fbrd)

unfoldable pub set_baud : ℕ → ℕ → Device → Device
set_baud clk_hz baud d =
    let (ibrd, fbrd) = baud_divisors clk_hz baud in
    mmio_write32 (uart0_base + 0x28) fbrd (mmio_write32 (uart0_base + 0x24) ibrd d)

module _ (answer : ℕ → ℕ → ℕ) where
  unfoldable pub uart_init : ℕ → Device → Device
  unfolding set_baud
  uart_init uart_clk_hz d =
      let d1 = mmio_write32 (uart0_base + 0x30) 0 d in
      let d2 = mmio_write32 (uart0_base + 0x44) 0x7FF d1 in
      let (status, d3) = mmio_read32 answer (uart0_base + 0x04) d2 in
      let d4 = set_baud uart_clk_hz 115200 d3 in
      let d5 = mmio_write32 (uart0_base + 0x2C) 0x70 d4 in
      let d6 = mmio_write32 (uart0_base + 0x30) 0x301 d5 in mmio_write32 (uart0_base + 0x38) 0 d6

  -- `while (mmio_read32(base + UARTFR) & FR_TXFF)`, on fuel.
  unfoldable pub wait_room : ℕ → Device → Run Device
  wait_room zero d = hang
  wait_room (suc fuel) d =
      let (flags, d1) = mmio_read32 answer uartfr d in
      let rest = wait_room fuel d1 in if bit_and flags fr_txff == 0 then ok d1 else rest

  -- One byte, when there is room for it.
  unfoldable pub send_byte : ℕ → ℕ → Device → Run Device
  send_byte fuel c d = wait_room fuel d >>= λ d1. ok (mmio_write32 uartdr c d1)

  -- A line feed goes out behind a carriage return.
  unfoldable pub putc : ℕ → ℕ → Device → Run Device
  putc fuel c d =
      if c == b'\n'
      then send_byte fuel b'\r' d >>= send_byte fuel (c % 256)
      else send_byte fuel (c % 256) d

  unfoldable pub put_bytes : ℕ → List ℕ → Device → Run Device
  put_bytes fuel [] d = ok d
  put_bytes fuel (c ∷ s) d = putc fuel c d >>= put_bytes fuel s

  unfoldable pub puts : ℕ → Option (List ℕ) → Device → Run Device
  puts fuel none d = ok d
  puts fuel (some s) d = put_bytes fuel s d

  -- `_os_serial_puts`.
  abbrev pub serial_puts : ℕ → Option (List ℕ) → Device → Run Device
  serial_puts = puts
