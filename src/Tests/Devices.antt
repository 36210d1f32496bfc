-- ===== src/Tests/Devices.antt =====
-- The UART and the timer.
use e_os_aarch64_hal.Base.{
  ℕ, ◌≡◌, ◌≤◌, ◌<◌, ◌⊎◌, ◌+◌, ◌*◌, ◌/◌, ◌%◌, ◌^◌, refl, [], ◌∷◌, ◌++◌, List, some, arith,
  if◌then◌else◌, ◌==◌,
}
use e_os_aarch64_hal.Base.Run.{ok, fault}
use e_os_aarch64_hal.Hal.Device.{Device}
use e_os_aarch64_hal.Hal.Timer.{
  init_hal, timer_rearm, read_cntp_ctl_el0, read_cntp_tval_el0, write_cntp_tval_el0,
}
use e_os_aarch64_hal.Hal.Timer.Reload.{timer_rearm-init_hal}
use e_os_aarch64_hal.Hal.Uart.Line.{puts, baud_divisors}
use e_os_aarch64_hal.Hal.Uart.Line.Baud.{baud_divisors-nearest}
use e_os_aarch64_hal.Hal.Uart.Line.Sent.{Drains, on_line, puts-sends}
use e_os_aarch64_hal.Hal.Uart.Serial.{serial_bytes}
use e_os_aarch64_hal.Hal.Uart.Serial.Pieces.{
  Piece, plain, str, unsigned, long_hex, unknown, format, arguments, shown, serial_bytes-format,
}
use e_os_aarch64_hal.Print.{codes}

abbrev quiet_device : Device
quiet_device = record { written = []; reads = 0; cntp_ctl = 0; cntp_tval = 0; reload = 0 }

timer_rearm-init_hal_example :
    let a = init_hal 100 62500000 quiet_device in
    (read_cntp_ctl_el0 a ≡ 1)
    × (1 ≤ read_cntp_tval_el0 a)
    × (read_cntp_tval_el0 (timer_rearm (write_cntp_tval_el0 17 a)) ≡ read_cntp_tval_el0 a)
    × ((read_cntp_tval_el0 a ≡ 62500000 / 100) ⊎ (62500000 / 100 ≡ 0) ⊎ (2 ^ 32 ≤ 62500000 / 100))
timer_rearm-init_hal_example = timer_rearm-init_hal 100 62500000 17 quiet_device (omega arith)

-- The transmitter is full at the first read.
abbrev full_at_first : ℕ → ℕ → ℕ
full_at_first a n = if n == 0 then 0x20 else 0

full_at_first-Drains : Drains full_at_first 2
full_at_first-Drains n = (1, omega arith, ground arith)

puts-sends_example :
    (after : Device) × (puts full_at_first 2 (some (codes "on\n")) quiet_device ≡ ok after)
    × (after.written ≡ quiet_device.written ++ on_line (codes "on\n"))
puts-sends_example =
    puts-sends full_at_first 2 2 full_at_first-Drains (omega arith) (codes "on\n") quiet_device

baud_divisors-nearest_example :
    let ibrd = (baud_divisors 24000000 115200).0 in
    let fbrd = (baud_divisors 24000000 115200).1 in
    (64 * (ibrd * (16 * 115200)) + fbrd * (16 * 115200) ≤ 64 * 24000000 + 8 * 115200)
    × (64 * 24000000 < 64 * (ibrd * (16 * 115200)) + fbrd * (16 * 115200) + 8 * 115200)
    × (((fbrd < 64) × (24000000 % (16 * 115200) * 128 < 127 * (16 * 115200)))
        ⊎ ((fbrd ≡ 64) × (127 * (16 * 115200) ≤ 24000000 % (16 * 115200) * 128)))
baud_divisors-nearest_example = baud_divisors-nearest 24000000 115200 (omega arith) (omega arith)

abbrev beef : ℕ
beef = 0xbeef

abbrev pieces : List Piece
pieces =
    str (some (codes "sp"))
    ∷ plain b'=' refl
    ∷ long_hex 48879
    ∷ unsigned 42
    ∷ unknown b'z' refl
    ∷ []

serial_bytes-format_example :
    (serial_bytes (format pieces []) (arguments pieces) ≡ ok (shown pieces))
    × (serial_bytes (format pieces (b'%' ∷ [])) (arguments pieces) ≡ fault)
serial_bytes-format_example = serial_bytes-format pieces
