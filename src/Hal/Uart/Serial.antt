-- ===== src/Hal/Uart/Serial.antt =====
-- The small printer of the driver: `uart_put_hex` and `_os_serial_printf` of
-- eos_aarch64/hal/aarch64/uart.c. What it hands to `early_uart_putc` is a list of bytes.
pub mod Hex
pub mod Pieces
use e_os_aarch64_hal.Base.{
  ℕ, zero, suc, ◌+◌, ◌-◌, ◌/◌, ◌%◌, ◌^◌, ◌==◌, ◌||◌, not, ltb, if◌then◌else◌, List, [], ◌∷◌, ◌++◌,
  none, some, length,
}
use e_os_aarch64_hal.Base.Run.{Run, ok, fault, hang, ◌>>=◌}
use e_os_aarch64_hal.Bitmap.{entry}
use e_os_aarch64_hal.Hal.Device.{Device}
use e_os_aarch64_hal.Hal.Uart.{put_dec}
use e_os_aarch64_hal.Hal.Uart.Line.{puts}
use e_os_aarch64_hal.Print.{codes}
use e_os_aarch64_hal.Print.Number.{replicate}
use e_os_aarch64_hal.Print.Format.{Arg, va_word, va_text}

abbrev pub hex : List ℕ
hex = codes "0123456789ABCDEF"

-- `while (val && i < 16) { buf[i++] = hex[val & 0xF]; val >>= 4; }`, with the rounds that are left; the
-- byte stored last is in front.
unfoldable pub hex_digits : ℕ → ℕ → List ℕ → List ℕ
hex_digits zero val buf = buf
hex_digits (suc left) val buf =
    let rest = hex_digits left (val / 16) (entry hex (val % 16) ∷ buf) in
    if val == 0 then buf else rest

-- The buffer has 32 bytes; 0 is printed without its width.
unfoldable pub put_hex : ℕ → ℕ → Run (List ℕ)
put_hex val width =
    let digits = hex_digits 16 val [] in
    if val == 0
    then ok (b'0' ∷ [])
    else if ltb 32 width
    then fault
    else ok (replicate (width - length digits) b'0' ++ digits)

-- The `switch` on the byte behind a `%`: what is printed, the rest of the format and the arguments left.
-- Where the format ends with the `%`, the loop steps over the NUL and reads on behind the text.
unfoldable pub serial_directive : List ℕ → List Arg → Run (List ℕ × List ℕ × List Arg)
serial_directive [] args = fault
serial_directive (c ∷ s) args =
    if c == b's'
    then (do
      (t, rest) ← va_text args
      ok (elim t as (λ _. List ℕ) [ none ↦ codes "(null)" | some l ↦ l ], s, rest))
    else if c == b'c'
    then (do (w, rest) ← va_word args; ok ((w % 256) ∷ [], s, rest))
    else if c == b'd' || c == b'u'
    then (do (w, rest) ← va_word args; ok (put_dec (w % 2 ^ 32), s, rest))
    else if c == b'x' || c == b'X'
    then (do (w, rest) ← va_word args; out ← put_hex (w % 2 ^ 32) 0; ok (out, s, rest))
    else if c == b'l'
    then elim s as (λ _. Run (List ℕ × List ℕ × List Arg)) [
      | [] ↦ ok ([], [], args)
      | e ∷ s2 ↦
          if e == b'x'
          then (do (w, rest) ← va_word args; out ← put_hex w 16; ok (out, s2, rest))
          else ok ([], e ∷ s2, args)
    ]
    else if c == b'%'
    then ok (b'%' ∷ [], s, args)
    else ok (b'?' ∷ [], s, args)

-- The loop over the format, on fuel: the bytes printed.
unfoldable pub serial_loop : ℕ → List ℕ → List Arg → Run (List ℕ)
serial_loop zero fmt args = hang
serial_loop (suc fuel) [] args = ok []
serial_loop (suc fuel) (c ∷ s) args =
    if not (c == b'%')
    then (serial_loop fuel s args >>= λ out. ok (c ∷ out))
    else (serial_directive s args >>= λ r. serial_loop fuel r.1 r.2 >>= λ out. ok (r.0 ++ out))

unfoldable pub serial_bytes : List ℕ → List Arg → Run (List ℕ)
serial_bytes fmt args = serial_loop (length fmt + 1) fmt args

module _ (answer : ℕ → ℕ → ℕ) where
  unfoldable pub serial_printf : ℕ → List ℕ → List Arg → Device → Run Device
  serial_printf fuel fmt args d = serial_bytes fmt args >>= λ out. puts answer fuel (some out) d
