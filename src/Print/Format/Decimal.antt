-- ===== src/Print/Format/Decimal.antt =====
-- `%d` and `%u`, read back.
use e_os_aarch64_hal.Base.{
  ℕ, zero, suc, ◌+◌, ◌/◌, ◌%◌, ◌^◌, ◌<◌, ◌≡◌, refl, sym, ap, ◌∙◌, inl, inr, true, false,
  if◌then◌else◌, ◌==◌, List, [], ◌∷◌, ◌++◌, Option, none, some, arith, append-nil, eq-cases, ==_iff,
  all_below, law-all_below,
}
use e_os_aarch64_hal.Base.Run.{Run, ok, fault, ◌>>=◌}
use e_os_aarch64_hal.Bitmap.{entry}
use e_os_aarch64_hal.Hal.Uart.{put_dec, dec_digits}
use e_os_aarch64_hal.Print.{Flags, codes}
use e_os_aarch64_hal.Print.Number.{
  replicate, number, sign_of, prefix_of, small_digits, digits_of, put_digits,
}
use e_os_aarch64_hal.Print.Padding.{number-Printed, padded, digits_for}
use e_os_aarch64_hal.Print.Format.{
  word, Printing, put, no_flags, parse_flags, parse_width, parse_precision, parse_qualifier,
  int_arg, put_number, put_int, convert, directive, print_loop, vsprintf,
}

abbrev signed : Flags
signed = record no_flags { sign = true }

-- Without width and precision `number` prints the sign and the digits.
number-bare :
    (num : ℕ) (type : Flags)
    → num < 2 ^ 64
    → type.special ≡ false
    → type.large ≡ false
    → number num 10 0 none type
      ≡ some ((sign_of type num).0 ++ digits_of small_digits 10 (sign_of type num).1)
unfolding prefix_of replicate
number-bare num type lt plain small =
    let r = number-Printed num 10 0 none type (omega arith) (omega arith) lt in
    let tight = r.tight in
    let b : r.before ≡ 0 = omega (arith, tight) in
    let l : r.lead ≡ 0 = omega (arith, tight) in
    let a : r.after ≡ 0 = omega (arith, tight) in
    let bare : r.prefix ≡ [] = r.bare (inl plain) in
    let sign : r.sign ≡ (sign_of type num).0 = ap (λ (x : List ℕ × ℕ). x.0) (sym r.signed) in
    let magnitude : r.magnitude ≡ (sign_of type num).1 =
      ap (λ (x : List ℕ × ℕ). x.1) (sym r.signed) in
    let table : digits_for type ≡ small_digits = ground arith in
    let digits : r.digits ≡ digits_of small_digits 10 (sign_of type num).1 =
      r.these
      ∙ (ap (λ (t : List ℕ). digits_of t 10 r.magnitude) table
          ∙ ap (digits_of small_digits 10) magnitude) in
    let shape : padded r.before r.lead r.after r.sign r.prefix r.digits
        ≡ (sign_of type num).0 ++ r.digits =
      rw (b, l, a, bare, sign)
        (ap (λ (t : List ℕ). (sign_of type num).0 ++ t) (append-nil r.digits)) in
    r.returns
    ∙ ap (λ (t : List ℕ). some t) (shape ∙ ap (λ (t : List ℕ). (sign_of type num).0 ++ t) digits)

digit-lt : (d : ℕ) → d < 10 → entry small_digits d ≡ d + 48
unfolding all_below
digit-lt d lt = (==_iff _ _).0 (law-all_below (λ i. entry small_digits i == i + 48) 10 refl d lt)

-- The loops of the two decimal printers store the same bytes.
put_digits-dec_digits :
    (m n num : ℕ) (tmp : List ℕ)
    → num < 2 ^ m
    → num < 10 ^ n
    → put_digits m small_digits 10 num tmp ≡ dec_digits n num tmp
unfolding put_digits dec_digits
put_digits-dec_digits zero zero num tmp a b = refl
put_digits-dec_digits zero (suc n) num tmp a b = let none : num ≡ 0 = ground arith in rw none refl
put_digits-dec_digits (suc m) zero num tmp a b = let none : num ≡ 0 = ground arith in rw none refl
put_digits-dec_digits (suc m) (suc n) num tmp a b = elim (eq-cases num 0) [
  | inl e ↦ rw e refl
  | inr e ↦
      rw (e, digit-lt (num % 10) (omega arith))
        (put_digits-dec_digits m n (num / 10) ((num % 10 + 48) ∷ tmp) (ground arith) (ground arith))
]

digits_of-put_dec : (num : ℕ) → num < 2 ^ 64 → digits_of small_digits 10 num ≡ put_dec num
unfolding digits_of put_dec
digits_of-put_dec num lt =
    ap (λ (l : List ℕ). if num == 0 then b'0' ∷ [] else l)
      (put_digits-dec_digits 64 20 num [] (omega arith) (omega arith))

abbrev start : Printing
start = record { out = []; stores = []; args = [] }

abbrev done : Printing → Run (List ℕ × Printing)
done p = ok ([], p)

-- A directive alone, with one argument, is a call of `number`.
abbrev alone : Run Printing → Run Printing
alone m = (m >>= done) >>= λ r. print_loop 2 r.0 r.1

call_number :
    (num : ℕ) (type : Flags)
    → num < 2 ^ 64
    → type.special ≡ false
    → type.large ≡ false
    → alone (put_number num 10 none none type start)
      ≡ ok (put ((sign_of type num).0 ++ digits_of small_digits 10 (sign_of type num).1) start)
unfolding put_number print_loop
call_number num type lt plain small =
    ap
      (λ (o : Option (List ℕ)).
        alone (elim o as (λ _. Run Printing) [ none ↦ fault | some s ↦ ok (put s start) ]))
      (number-bare num type lt plain small)

-- The two decimal printers of the system agree: `vsprintf` prints an argument by `%u` as
-- `uart_put_dec` prints its low 32 bits.
pub vsprintf-put_dec :
    (w : ℕ)
    → vsprintf (codes "%u") (word w ∷ [])
      ≡ ok (record { out = put_dec (w % 2 ^ 32); stores = []; args = [] })
unfolding vsprintf print_loop directive parse_flags parse_width parse_precision parse_qualifier
    convert put_int int_arg sign_of
vsprintf-put_dec w =
    call_number (w % 2 ^ 32) no_flags (omega arith) refl refl
    ∙ ap (λ (l : List ℕ). ok (put l start)) (digits_of-put_dec (w % 2 ^ 32) (omega arith))
