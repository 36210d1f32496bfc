-- ===== src/Hal/Uart.antt =====
-- Printing of numbers: `uart_put_dec` of eos_aarch64/hal/aarch64/uart.c. The output is the list of
-- the bytes that are sent.
pub mod Decimal
pub mod Line
pub mod Serial
use e_os_aarch64_hal.Base.{ℕ, zero, suc, ◌+◌, ◌/◌, ◌%◌, ◌==◌, if◌then◌else◌, List, [], ◌∷◌}

-- `while (val && i < 20) { buf[i++] = (val % 10) + '0'; val /= 10; }`, with the rounds that are left.
-- The list has the byte stored last in front, which is the order in which the bytes are sent.
unfoldable pub dec_digits : ℕ → ℕ → List ℕ → List ℕ
dec_digits zero val buf = buf
dec_digits (suc left) val buf =
    let rest = dec_digits left (val / 10) ((val % 10 + 48) ∷ buf) in if val == 0 then buf else rest

unfoldable pub put_dec : ℕ → List ℕ
put_dec val = if val == 0 then 48 ∷ [] else dec_digits 20 val []
