-- ===== src/Print/Format/Ends.antt =====
-- `vsprintf` comes to an end.
use e_os_aarch64_hal.Base.{
  ℕ, zero, suc, ◌+◌, ◌-◌, ◌*◌, ◌%◌, ◌^◌, ◌≤◌, ◌<◌, ◌≢◌, Bool, true, false, ◌||◌, not, if◌then◌else◌,
  ◌==◌, leb, List, [], ◌∷◌, Option, none, some, length, arith,
}
use e_os_aarch64_hal.Base.Run.{Run, ok, fault, hang, ◌>>=◌}
use e_os_aarch64_hal.Print.{Flags, is_digit, skip_atoi}
use e_os_aarch64_hal.Print.Number.{number}
use e_os_aarch64_hal.Print.Format.{
  Arg, word, text, Printing, put, va_word, va_text, no_flags, flag_of, parse_flags, parse_width,
  point_precision, parse_precision, parse_qualifier, put_number, put_int, put_char, put_text,
  put_pointer, put_count, convert, directive, print_loop, vsprintf, size_of,
}

-- A run ends: in a result that satisfies `P`, or in a fault.
abbrev Ends : {A : Type 0} → (A → Type 0) → Run A → Type 0
Ends P (ok a) = P a
Ends P fault = Unit {0}
Ends P hang = ⊥

Ends-bind :
    {A B : Type 0} (P : A → Type 0) (Q : B → Type 0) (m : Run A) (f : A → Run B)
    → Ends P m
    → ((a : A) → P a → Ends Q (f a))
    → Ends Q (m >>= f)
Ends-bind P Q (ok a) f h next = next a h
Ends-bind P Q fault f h next = tt
Ends-bind P Q hang f h next = absurd h

Ends-if :
    {A : Type 0} (P : A → Type 0) (t : Bool) (a b : Run A)
    → Ends P a
    → Ends P b
    → Ends P (if t then a else b)
Ends-if P true a b h k = h
Ends-if P false a b h k = k

va_word-Ends : (args : List Arg) → Ends (λ _. Unit {0}) (va_word args)
va_word-Ends [] = tt
va_word-Ends (word w ∷ args) = tt
va_word-Ends (text t ∷ args) = tt

va_text-Ends : (args : List Arg) → Ends (λ _. Unit {0}) (va_text args)
va_text-Ends [] = tt
va_text-Ends (word w ∷ args) = tt
va_text-Ends (text t ∷ args) = tt

skip_atoi-le : (i : ℕ) (s : List ℕ) → length (skip_atoi i s).1 ≤ length s
unfolding skip_atoi
skip_atoi-le i [] = omega arith
skip_atoi-le i (c ∷ s) = ground (arith, skip_atoi-le (i * 10 + c - b'0') s)

parse_flags-le : (flags : Flags) (s : List ℕ) → length (parse_flags flags s).1 ≤ length s
unfolding parse_flags
parse_flags-le flags [] = omega arith
parse_flags-le flags (c ∷ s) = after (flag_of c flags) (λ f. parse_flags-le f s)
  where
    after :
        (o : Option Flags)
        → ((f : Flags) → length (parse_flags f s).1 ≤ length s)
        → length
            (elim o as (λ _. Flags × List ℕ) [
              | none ↦ (flags, c ∷ s)
              | some more ↦ parse_flags more s
            ]).1
          ≤ suc (length s)
    after none rec = omega arith
    after (some f) rec = omega (arith, rec f)

parse_width-Ends :
    (flags : Flags) (s : List ℕ) (args : List Arg)
    → Ends (λ r. length r.2 ≤ length s) (parse_width flags s args)
unfolding parse_width
parse_width-Ends flags [] args = omega arith
parse_width-Ends flags (c ∷ s) args = Ends-if _ (is_digit c) _ _ (skip_atoi-le 0 (c ∷ s)) (
    Ends-if _ (c == b'*') _ _
      (Ends-bind _ _ (va_word args) _ (va_word-Ends args)
        (λ a h. Ends-if _ (leb (2 ^ 31) (a.0 % 2 ^ 32)) _ _ (omega arith) (omega arith)))
      (omega arith))

point_precision-Ends :
    (s : List ℕ) (args : List Arg) → Ends (λ r. length r.1 ≤ length s) (point_precision s args)
unfolding point_precision
point_precision-Ends [] args = omega arith
point_precision-Ends (c ∷ s) args = Ends-if _ (is_digit c) _ _ (skip_atoi-le 0 (c ∷ s)) (
    Ends-if _ (c == b'*') _ _
      (Ends-bind _ _ (va_word args) _ (va_word-Ends args) (λ a h. omega arith)) (omega arith))

parse_precision-Ends :
    (s : List ℕ) (args : List Arg) → Ends (λ r. length r.1 ≤ length s) (parse_precision s args)
unfolding parse_precision
parse_precision-Ends [] args = omega arith
parse_precision-Ends (c ∷ s) args =
    Ends-if _ (c == b'.') _ _
      (Ends-bind _ _ (point_precision s args) _ (point_precision-Ends s args) (λ a h. omega arith))
      (omega arith)

parse_qualifier-le : (s : List ℕ) → length (parse_qualifier s).1 ≤ length s
unfolding parse_qualifier
parse_qualifier-le [] = omega arith
parse_qualifier-le (c ∷ s) = ground arith

put_number-Ends :
    (num base : ℕ) (width precision : Option ℕ) (flags : Flags) (p : Printing)
    → Ends (λ _. Unit {0}) (put_number num base width precision flags p)
unfolding put_number
put_number-Ends num base width precision flags p =
    after (number num base (size_of width) precision flags)
  where
    after :
        (o : Option (List ℕ))
        → Ends
            (λ _. Unit {0})
            (elim o as (λ _. Run Printing) [ none ↦ fault | some s ↦ ok (put s p) ])
    after none = tt
    after (some s) = tt

put_int-Ends :
    (base : ℕ) (width precision : Option ℕ) (qualifier : ℕ) (flags : Flags) (p : Printing)
    → Ends (λ _. Unit {0}) (put_int base width precision qualifier flags p)
unfolding put_int
put_int-Ends base width precision qualifier flags p =
    Ends-bind _ _ (va_word p.args) _ (va_word-Ends p.args)
      (λ a h. put_number-Ends _ base width precision flags _)

put_pointer-Ends :
    (width precision : Option ℕ) (flags : Flags) (p : Printing)
    → Ends (λ _. Unit {0}) (put_pointer width precision flags p)
unfolding put_pointer
put_pointer-Ends none precision flags p =
    Ends-bind _ _ (va_word p.args) _ (va_word-Ends p.args)
      (λ a h. put_number-Ends _ 16 (some 16) precision _ _)
put_pointer-Ends (some n) precision flags p =
    Ends-bind _ _ (va_word p.args) _ (va_word-Ends p.args)
      (λ a h. put_number-Ends _ 16 (some n) precision _ _)

-- Every conversion ends.
convert-Ends :
    (c : ℕ) (width precision : Option ℕ) (qualifier : ℕ) (flags : Flags) (p : Printing)
    → Ends (λ _. Unit {0}) (convert c width precision qualifier flags p)
unfolding convert put_char put_text put_count
convert-Ends c width precision qualifier flags p =
    let int = λ (base : ℕ) (f : Flags). put_int-Ends base width precision qualifier f p in
    let word =
      λ (f : ℕ × List Arg → Run Printing)
          (next : (a : ℕ × List Arg) → Unit {0} → Ends (λ _. Unit {0}) (f a)).
        Ends-bind (λ _. Unit {0}) (λ _. Unit {0}) (va_word p.args) f (va_word-Ends p.args) next in
    Ends-if _ (c == b'c') _ _ (word _ (λ a h. tt)) (
      Ends-if _ (c == b's') _ _ (Ends-bind _ _ (va_text p.args) _ (va_text-Ends p.args) (λ a h. tt))
        (Ends-if _ (c == b'p') _ _ (put_pointer-Ends width precision flags p) (
          Ends-if _ (c == b'n') _ _ (word _ (λ a h. tt)) (
            Ends-if _ (c == b'%') _ _ tt (
              Ends-if _ (c == b'o') _ _ (int 8 flags) (
                Ends-if _ (c == b'X') _ _ (int 16 _) (
                  Ends-if _ (c == b'x') _ _ (int 16 flags) (
                    Ends-if _ (c == b'd' || c == b'i') _ _ (int 10 _)
                      (Ends-if _ (c == b'u') _ _ (int 10 flags) tt)))))))))

-- A directive leaves no more text than it was given.
directive-Ends :
    (fmt : List ℕ) (p : Printing) → Ends (λ r. length r.0 ≤ length fmt) (directive fmt p)
unfolding directive
directive-Ends fmt p =
    let f = parse_flags no_flags fmt in
    Ends-bind _ _ (parse_width f.0 f.1 p.args) _ (parse_width-Ends f.0 f.1 p.args) (λ w hw.
      Ends-bind _ _ (parse_precision w.2 w.3) _ (parse_precision-Ends w.2 w.3) (λ r hr.
        last w r (parse_qualifier r.1).1
          (omega (arith, hw, hr, parse_flags-le no_flags fmt, parse_qualifier-le r.1))))
  where
    last :
        (w : Option ℕ × Flags × List ℕ × List Arg) (r : Option ℕ × List ℕ × List Arg) (s : List ℕ)
        → length s ≤ length fmt
        → Ends
            (λ r. length r.0 ≤ length fmt)
            (elim s as (λ _. Run (List ℕ × Printing)) [
              | [] ↦ ok ([], put (b'%' ∷ []) (record p { args = r.2 }))
              | c ∷ rest ↦
                  convert c w.0 r.0 (parse_qualifier r.1).0 w.1 (record p { args = r.2 }) >>= λ q.
                  ok (rest, q)
            ])
    last w r [] h = omega arith
    last w r (c ∷ rest) h =
        Ends-bind _ _ (convert c w.0 r.0 (parse_qualifier r.1).0 w.1 (record p { args = r.2 })) _
          (convert-Ends c w.0 r.0 (parse_qualifier r.1).0 w.1 _) (λ q hq. omega arith)

print_loop-Ends :
    (fuel : ℕ) (fmt : List ℕ) (p : Printing)
    → length fmt < fuel
    → Ends (λ _. Unit {0}) (print_loop fuel fmt p)
unfolding print_loop
print_loop-Ends zero fmt p f = absurd (omega arith)
print_loop-Ends (suc fuel) [] p f = tt
print_loop-Ends (suc fuel) (c ∷ s) p f =
    Ends-if _ (not (c == b'%')) _ _ (print_loop-Ends fuel s _ (omega arith)) (
      Ends-bind _ _ (directive s p) _ (directive-Ends s p)
        (λ r h. print_loop-Ends fuel r.0 r.1 (omega arith)))

Ends-ne-hang : {A : Type 0} (P : A → Type 0) (m : Run A) → Ends P m → m ≢ hang
Ends-ne-hang P (ok a) h e = cc
Ends-ne-hang P fault h e = cc
Ends-ne-hang P hang h e = h

-- With one more round of fuel than the format has bytes, `vsprintf` comes to an end on every format
-- and all arguments.
pub vsprintf-ne-hang : (fmt : List ℕ) (args : List Arg) → vsprintf fmt args ≢ hang
unfolding vsprintf
vsprintf-ne-hang fmt args = Ends-ne-hang _ _ (print_loop-Ends (length fmt + 1) fmt _ (omega arith))
