-- ===== src/Print.antt =====
-- Formatted printing: `vsprintf`, `number` and `eos_printf` of eos_aarch64/core/common.c.
--
-- A text is the list of its bytes up to the NUL that ends it, and the output is the list of the bytes
-- stored. A width or a precision is a number, and the C's value -1 is 0 for a width and `none` for a
-- precision: the loops on a width only ask whether it is positive, so a subtraction stops at 0.
pub mod Number
pub mod Format
pub mod Digits
pub mod Padding
use e_os_aarch64_hal.Base.{
  ℕ, suc, ◌+◌, ◌-◌, ◌*◌, Bool, ◌&&◌, if◌then◌else◌, ◌==◌, leb, List, [], ◌∷◌,
}
use Prim.Native.Char.{code}
use Prim.Native.String.{String}

-- The bytes of a literal.
abbrev pub codes : String → List ℕ
codes String.[] = []
codes (String.◌∷◌ c s) = code c ∷ codes s

-- `is_digit`.
abbrev pub is_digit : ℕ → Bool
is_digit c = leb b'0' c && leb c b'9'

-- The bits ZEROPAD, SIGN, PLUS, SPACE, LEFT, SPECIAL and LARGE of the flags.
pub record Flags : Type 0 where
  pub zeropad : Bool
  pub sign : Bool
  pub plus : Bool
  pub space : Bool
  pub left : Bool
  pub special : Bool
  pub large : Bool

-- `strnlen`: the length, at most `count`.
unfoldable pub strnlen : List ℕ → ℕ → ℕ
strnlen [] count = 0
strnlen (c ∷ s) count = if count == 0 then 0 else suc (strnlen s (count - 1))

-- `skip_atoi`: the number at the start of the text, counted on from `i`, and the rest of the text. A
-- number beyond an `int` is undefined in C.
unfoldable pub skip_atoi : ℕ → List ℕ → ℕ × List ℕ
skip_atoi i [] = (i, [])
skip_atoi i (c ∷ s) = if is_digit c then skip_atoi (i * 10 + c - b'0') s else (i, c ∷ s)
