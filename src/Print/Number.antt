-- ===== src/Print/Number.antt =====
-- `number` of eos_aarch64/core/common.c.
use e_os_aarch64_hal.Base.{
  ℕ, zero, suc, ◌-◌, ◌/◌, ◌%◌, ◌^◌, Bool, ◌&&◌, ◌||◌, not, if◌then◌else◌, ◌==◌, ltb, leb, List, [],
  ◌∷◌, ◌++◌, Option, none, some, length,
}
use e_os_aarch64_hal.Bitmap.{entry}
use e_os_aarch64_hal.Print.{Flags, codes}

abbrev pub small_digits : List ℕ
small_digits = codes "0123456789abcdefghijklmnopqrstuvwxyz"

abbrev pub large_digits : List ℕ
large_digits = codes "0123456789ABCDEFGHIJKLMNOPQRSTUVWXYZ"

-- `*str++ = c`, `n` times.
unfoldable pub replicate : ℕ → ℕ → List ℕ
replicate zero c = []
replicate (suc n) c = c ∷ replicate n c

-- The first bytes of a text.
unfoldable pub take : ℕ → List ℕ → List ℕ
take zero s = []
take (suc n) [] = []
take (suc n) (c ∷ s) = c ∷ take n s

-- `while (num != 0) tmp[i++] = digits[do_div(num,base)];`, with the rounds that are left; 64 are enough
-- for a number of 64 bits. The digit stored last is in front, which is the order of the output.
unfoldable pub put_digits : ℕ → List ℕ → ℕ → ℕ → List ℕ → List ℕ
put_digits zero digits base num tmp = tmp
put_digits (suc left) digits base num tmp =
    let rest = put_digits left digits base (num / base) (entry digits (num % base) ∷ tmp) in
    if num == 0 then tmp else rest

-- The digits of a number, `tmp` from its end to its start.
unfoldable pub digits_of : List ℕ → ℕ → ℕ → List ℕ
digits_of digits base num = if num == 0 then b'0' ∷ [] else put_digits 64 digits base num []

-- The sign to print, none or one byte, and the number without it. `num` is the bit pattern of a `long`.
unfoldable pub sign_of : Flags → ℕ → List ℕ × ℕ
sign_of type num =
    if type.sign
    then if leb (2 ^ 63) num
      then (b'-' ∷ [], (2 ^ 64 - num) % 2 ^ 64)
      else if type.plus
      then (b'+' ∷ [], num)
      else if type.space
      then (b' ' ∷ [], num)
      else ([], num)
    else ([], num)

-- The prefix of SPECIAL: `digits[33]` is the letter x.
unfoldable pub prefix_of : Flags → List ℕ → ℕ → List ℕ
prefix_of type digits base =
    if type.special
    then if base == 8 then b'0' ∷ [] else if base == 16 then b'0' ∷ entry digits 33 ∷ [] else []
    else []

-- `if (i > precision) precision = i;`.
abbrev pub digits_wanted : Option ℕ → ℕ → ℕ
digits_wanted none i = i
digits_wanted (some p) i = if ltb p i then i else p

-- The stores from the subtraction of the precision on: `size` is what the width leaves for blanks,
-- `lead` what the precision wants in front of the digits. After a loop `while (size-- > 0)` nothing is
-- left of the size.
unfoldable pub put_padded : Bool → Bool → ℕ → ℕ → List ℕ → List ℕ → List ℕ → List ℕ
put_padded zeropad left size lead sign prefix tmp =
    let c = if zeropad then b'0' else b' ' in
    let spaces = if not (zeropad || left) then size else 0 in
    let size1 = size - spaces in
    let pads = if not left then size1 else 0 in
    let size2 = size1 - pads in
    replicate spaces b' '
    ++ (sign
        ++ (prefix ++ (replicate pads c ++ (replicate lead b'0' ++ (tmp ++ replicate size2 b' ')))))

-- The bytes that `number` stores, or `none` where it returns NULL.
unfoldable pub number : ℕ → ℕ → ℕ → Option ℕ → Flags → Option (List ℕ)
number num base size precision type =
    let digits = if type.large then large_digits else small_digits in
    let zeropad = type.zeropad && not type.left in
    if ltb base 2 || ltb 36 base
    then none
    else let (sign, num1) = sign_of type num in
      let prefix = prefix_of type digits base in
      let tmp = digits_of digits base num1 in
      let precision1 = digits_wanted precision (length tmp) in
      some (
        put_padded zeropad type.left (size - length sign - length prefix - precision1)
          (precision1 - length tmp) sign prefix tmp)
