-- ===== src/Print/Format.antt =====
-- `vsprintf` and `eos_printf` of eos_aarch64/core/common.c.
--
-- An argument is a word of 64 bits or a text; reading past the arguments, or one kind as the other, is
-- undefined in C and a fault here. What `%n` stores is kept beside the output.
pub mod Plain
pub mod Ends
pub mod Decimal
use e_os_aarch64_hal.Base.{
  ℕ, zero, suc, ◌+◌, ◌-◌, ◌*◌, ◌%◌, ◌^◌, Bool, true, false, ◌&&◌, ◌||◌, not, if◌then◌else◌, ◌==◌,
  leb, List, [], ◌∷◌, ◌++◌, Option, none, some, length,
}
use e_os_aarch64_hal.Base.Run.{Run, ok, fault, hang, ◌>>=◌}
use e_os_aarch64_hal.Print.{Flags, codes, is_digit, strnlen, skip_atoi}
use e_os_aarch64_hal.Print.Number.{replicate, take, number}

pub data Arg : Type 0 where
  word : ℕ → Arg
  text : Option (List ℕ) → Arg

-- A store of `%n`: where, how many bytes, and the count as the pattern of their bits.
pub record Store : Type 0 where
  pub address : ℕ
  pub size : ℕ
  pub value : ℕ

-- The bytes printed so far, the stores of `%n`, the last in front, and the arguments that are left.
pub record Printing : Type 0 where
  pub out : List ℕ
  pub stores : List Store
  pub args : List Arg

abbrev pub put : List ℕ → Printing → Printing
put s p = record p { out = p.out ++ s }

-- `va_arg`.
abbrev pub va_word : List Arg → Run (ℕ × List Arg)
va_word [] = fault
va_word (word w ∷ args) = ok (w, args)
va_word (text t ∷ args) = fault

abbrev pub va_text : List Arg → Run (Option (List ℕ) × List Arg)
va_text [] = fault
va_text (word w ∷ args) = fault
va_text (text t ∷ args) = ok (t, args)

abbrev pub no_flags : Flags
no_flags = record {
  zeropad = false;
  sign = false;
  plus = false;
  space = false;
  left = false;
  special = false;
  large = false;
}

-- One turn of the `switch` below `repeat`.
abbrev pub flag_of : ℕ → Flags → Option Flags
flag_of c flags =
    if c == b'-'
    then some (record flags { left = true })
    else if c == b'+'
    then some (record flags { plus = true })
    else if c == b' '
    then some (record flags { space = true })
    else if c == b'#'
    then some (record flags { special = true })
    else if c == b'0'
    then some (record flags { zeropad = true })
    else none

unfoldable pub parse_flags : Flags → List ℕ → Flags × List ℕ
parse_flags flags [] = (flags, [])
parse_flags flags (c ∷ s) = elim (flag_of c flags) [
  | none ↦ (flags, c ∷ s)
  | some more ↦ parse_flags more s
]

-- The field width: `none` is -1.
unfoldable pub parse_width : Flags → List ℕ → List Arg → Run (Option ℕ × Flags × List ℕ × List Arg)
parse_width flags [] args = ok (none, flags, [], args)
parse_width flags (c ∷ s) args =
    if is_digit c
    then (let (n, rest) = skip_atoi 0 (c ∷ s) in ok (some n, flags, rest, args))
    else if c == b'*'
    then (do
      (w, args1) ← va_word args
      let v = w % 2 ^ 32
      (if leb (2 ^ 31) v
          then ok (some (2 ^ 32 - v), record flags { left = true }, s, args1)
          else ok (some v, flags, s, args1)))
    else ok (none, flags, c ∷ s, args)

-- The precision behind a point: a negative one, and none at all, is 0.
unfoldable pub point_precision : List ℕ → List Arg → Run (ℕ × List ℕ × List Arg)
point_precision [] args = ok (0, [], args)
point_precision (c ∷ s) args =
    if is_digit c
    then (let (n, rest) = skip_atoi 0 (c ∷ s) in ok (n, rest, args))
    else if c == b'*'
    then (do
      (w, args1) ← va_word args
      let v = w % 2 ^ 32
      ok (if leb (2 ^ 31) v then 0 else v, s, args1))
    else ok (0, c ∷ s, args)

unfoldable pub parse_precision : List ℕ → List Arg → Run (Option ℕ × List ℕ × List Arg)
unfolding point_precision
parse_precision [] args = ok (none, [], args)
parse_precision (c ∷ s) args =
    if c == b'.'
    then (do (n, rest, args1) ← point_precision s args; ok (some n, rest, args1))
    else ok (none, c ∷ s, args)

-- The qualifier, or 0 for -1.
unfoldable pub parse_qualifier : List ℕ → ℕ × List ℕ
parse_qualifier [] = (0, [])
parse_qualifier (c ∷ s) = if c == b'h' || c == b'l' || c == b'L' then (c, s) else (0, c ∷ s)

abbrev pub size_of : Option ℕ → ℕ
size_of none = 0
size_of (some n) = n

-- The argument of an integer conversion, as the bit pattern of a `long`.
unfoldable pub int_arg : ℕ → Bool → ℕ → ℕ
int_arg qualifier sign w =
    if qualifier == b'l'
    then w
    else if qualifier == b'h'
    then (let n = w % 2 ^ 16 in if sign && leb (2 ^ 15) n then n + 2 ^ 64 - 2 ^ 16 else n)
    else (let n = w % 2 ^ 32 in if sign && leb (2 ^ 31) n then n + 2 ^ 64 - 2 ^ 32 else n)

-- `str = number(...)`: NULL as the place of the next byte is a fault.
unfoldable pub put_number : ℕ → ℕ → Option ℕ → Option ℕ → Flags → Printing → Run Printing
put_number num base width precision flags p =
    elim (number num base (size_of width) precision flags) [ none ↦ fault | some s ↦ ok (put s p) ]

unfoldable pub put_int : ℕ → Option ℕ → Option ℕ → ℕ → Flags → Printing → Run Printing
put_int base width precision qualifier flags p = do
  (w, args) ← va_word p.args
  put_number (int_arg qualifier flags.sign w) base width precision flags (record p { args = args })

unfoldable pub put_char : Option ℕ → Flags → Printing → Run Printing
put_char width flags p = do
  (w, args) ← va_word p.args
  let pads = replicate (size_of width - 1) b' '
  let c = (w % 256) ∷ []
  ok (put (if flags.left then c ++ pads else pads ++ c) (record p { args = args }))

-- `strnlen(s, precision)`, where -1 is the largest count.
unfoldable pub put_text : Option ℕ → Option ℕ → Flags → Printing → Run Printing
put_text width precision flags p = do
  (t, args) ← va_text p.args
  let s = elim t as (λ _. List ℕ) [ none ↦ codes "<NULL>" | some l ↦ l ]
  let len = strnlen s (elim precision as (λ _. ℕ) [ none ↦ 2 ^ 64 - 1 | some n ↦ n ])
  let pads = replicate (size_of width - len) b' '
  let c = take len s
  ok (put (if flags.left then c ++ pads else pads ++ c) (record p { args = args }))

unfoldable pub put_pointer : Option ℕ → Option ℕ → Flags → Printing → Run Printing
put_pointer width precision flags p = do
  (w, args) ← va_word p.args
  let q = record p { args = args }
  elim width as (λ _. Run Printing) [
    | none ↦ put_number w 16 (some 16) precision (record flags { zeropad = true }) q
    | some n ↦ put_number w 16 (some n) precision flags q
  ]

-- `%n` stores the number of bytes so far, in a `long` or an `int`.
unfoldable pub put_count : ℕ → Printing → Run Printing
put_count qualifier p = do
  (w, args) ← va_word p.args
  let n = length p.out
  let store =
      if qualifier == b'l'
      then record { address = w; size = 8; value = n % 2 ^ 64 }
      else record { address = w; size = 4; value = n % 2 ^ 32 }
  ok (record p { args = args; stores = store ∷ p.stores })

-- The `switch` on the conversion, and the call of `number` below it. At the end of the text only the
-- `%` is stored.
unfoldable pub convert : ℕ → Option ℕ → Option ℕ → ℕ → Flags → Printing → Run Printing
convert c width precision qualifier flags p =
    if c == b'c'
    then put_char width flags p
    else if c == b's'
    then put_text width precision flags p
    else if c == b'p'
    then put_pointer width precision flags p
    else if c == b'n'
    then put_count qualifier p
    else if c == b'%'
    then ok (put (b'%' ∷ []) p)
    else if c == b'o'
    then put_int 8 width precision qualifier flags p
    else if c == b'X'
    then put_int 16 width precision qualifier (record flags { large = true }) p
    else if c == b'x'
    then put_int 16 width precision qualifier flags p
    else if c == b'd' || c == b'i'
    then put_int 10 width precision qualifier (record flags { sign = true }) p
    else if c == b'u'
    then put_int 10 width precision qualifier flags p
    else ok (put (b'%' ∷ c ∷ []) p)

-- What follows a `%`, up to and with the conversion: the rest of the text and the state.
unfoldable pub directive : List ℕ → Printing → Run (List ℕ × Printing)
directive fmt p = do
  let (flags, s1) = parse_flags no_flags fmt
  (width, flags1, s2, args2) ← parse_width flags s1 p.args
  (precision, s3, args3) ← parse_precision s2 args2
  let (qualifier, s4) = parse_qualifier s3
  let q = record p { args = args3 }
  elim s4 as (λ _. Run (List ℕ × Printing)) [
    | [] ↦ ok ([], put (b'%' ∷ []) q)
    | c ∷ rest ↦ convert c width precision qualifier flags1 q >>= λ r. ok (rest, r)
  ]

-- The loop over the format, on fuel.
unfoldable pub print_loop : ℕ → List ℕ → Printing → Run Printing
print_loop zero fmt p = hang
print_loop (suc fuel) [] p = ok p
print_loop (suc fuel) (c ∷ s) p =
    if not (c == b'%')
    then print_loop fuel s (put (c ∷ []) p)
    else directive s p >>= λ r. print_loop fuel r.0 r.1

-- The output, without the NUL that ends it.
unfoldable pub vsprintf : List ℕ → List Arg → Run Printing
vsprintf fmt args = print_loop (length fmt + 1) fmt (record { out = []; stores = []; args = args })

abbrev pub print_buffer_size : ℕ
print_buffer_size = 256

-- `printbuffer` has 256 bytes; a longer output, with its NUL, writes past its end.
unfoldable pub printf : List ℕ → List Arg → Run (List ℕ)
printf fmt args = do
  p ← vsprintf fmt args
  (if leb print_buffer_size (length p.out) then fault else ok p.out)
