-- ===== src/Print/Format/Plain.antt =====
-- Formats that are printed as they are.
use e_os_aarch64_hal.Base.{
  ℕ, zero, suc, ◌+◌, ◌≤◌, ◌<◌, ◌≡◌, refl, sym, ap, ◌∙◌, ◌⊎◌, inl, inr, Bool, true, false, ◌&&◌, not,
  ◌==◌, leb, List, [], ◌∷◌, ◌++◌, length, arith, Bool-cases, has, append_assoc, append-nil,
}
use e_os_aarch64_hal.Base.Run.{ok, fault}
use e_os_aarch64_hal.Print.{codes}
use e_os_aarch64_hal.Print.Format.{
  Arg, Printing, put, parse_flags, parse_width, parse_precision, parse_qualifier, convert,
  directive, print_loop, vsprintf, printf, print_buffer_size,
}

-- No byte of the text is a `%`.
abbrev pub is_plain : List ℕ → Bool
is_plain [] = true
is_plain (c ∷ s) = not (c == b'%') && is_plain s

put-put : (s t : List ℕ) (p : Printing) → put t (put s p) ≡ put (s ++ t) p
put-put s t p = ap (λ (o : List ℕ). record p { out = o }) (append_assoc p.out s t)

pub print_loop-plain :
    (fuel : ℕ) (s : List ℕ) (p : Printing)
    → length s < fuel
    → is_plain s ≡ true
    → print_loop fuel s p ≡ ok (put s p)
unfolding print_loop
print_loop-plain zero s p f h = absurd (omega arith)
print_loop-plain (suc fuel) [] p f h =
    ap (λ (o : List ℕ). ok (record p { out = o })) (sym (append-nil p.out))
print_loop-plain (suc fuel) (c ∷ s) p f h =
    let this : (c == b'%') ≡ false = ground arith in
    let rest : is_plain s ≡ true = ground arith in
    rw this (
      print_loop-plain fuel s (put (c ∷ []) p) (omega arith) rest
      ∙ ap (λ (q : Printing). ok q) (put-put (c ∷ []) s p))

-- A format with no `%` is printed as it is, whatever the arguments, if it has less than 256 bytes. A
-- longer one runs over the buffer.
pub printf-plain :
    (fmt : List ℕ) (args : List Arg)
    → is_plain fmt ≡ true
    → ((length fmt < print_buffer_size) × (printf fmt args ≡ ok fmt))
      ⊎ ((print_buffer_size ≤ length fmt) × (printf fmt args ≡ fault))
unfolding printf vsprintf
printf-plain fmt args h =
    let start : Printing = record { out = []; stores = []; args = args } in
    let e = print_loop-plain (length fmt + 1) fmt start (omega arith) h in
    elim (Bool-cases (leb print_buffer_size (length fmt))) [
      | inl long ↦ inr (ground arith, rw (e, long) refl)
      | inr short ↦ inl (ground arith, rw (e, short) refl)
    ]

-- The bytes that mean something after a `%`.
abbrev pub known : List ℕ
known = codes "-+ #0123456789*.hlLcspn%oXxdiu"

unknown-directive :
    (c : ℕ) (s : List ℕ) (p : Printing)
    → has c known ≡ false
    → directive (c ∷ s) p ≡ ok (s, put (b'%' ∷ c ∷ []) p)
unfolding directive parse_flags parse_width parse_precision parse_qualifier convert
unknown-directive c s p h = ground arith

-- A conversion that `vsprintf` does not know is printed with its `%`, and takes no argument.
pub vsprintf-unknown :
    (c : ℕ) (s : List ℕ) (args : List Arg)
    → has c known ≡ false
    → is_plain s ≡ true
    → vsprintf (b'%' ∷ c ∷ s) args ≡ ok (record { out = b'%' ∷ c ∷ s; stores = []; args = args })
unfolding vsprintf print_loop
vsprintf-unknown c s args h plain =
    let start : Printing = record { out = []; stores = []; args = args } in
    let fuel : length (b'%' ∷ c ∷ s) + 1 ≡ suc (length s + 2) = omega arith in
    rw (fuel, unknown-directive c s start h)
      (print_loop-plain (length s + 2) s _ (omega arith) plain)
