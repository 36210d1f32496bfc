-- ===== src/Hal/Uart/Serial/Pieces.antt =====
-- Formats of `_os_serial_printf`, piece by piece.
use e_os_aarch64_hal.Base.{
  ℕ, zero, suc, ◌+◌, ◌-◌, ◌%◌, ◌^◌, ◌≤◌, ◌<◌, ◌≡◌, refl, ap, sym, ◌∙◌, arith, ◌==◌, eq-cases, inl,
  inr, if◌then◌else◌, ltb, false, Bool, ◌||◌, List, [], ◌∷◌, ◌++◌, Option, none, some, length,
  append_assoc, append-nil,
}
use e_os_aarch64_hal.Base.Run.{Run, ok, fault, hang, ◌>>=◌}
use e_os_aarch64_hal.Print.{codes}
use e_os_aarch64_hal.Print.Number.{replicate}
use e_os_aarch64_hal.Print.Format.{Arg, word, text}
use e_os_aarch64_hal.Hal.Uart.{put_dec}
use e_os_aarch64_hal.Hal.Uart.Serial.{
  hex_digits, put_hex, serial_directive, serial_loop, serial_bytes,
}

-- The letters that the `switch` has a case for.
abbrev pub has_case : ℕ → Bool
has_case c =
    c == b's'
    || c == b'c'
    || c == b'd'
    || c == b'u'
    || c == b'x'
    || c == b'X'
    || c == b'l'
    || c == b'%'

-- A byte other than `%`, a directive with its argument, or a `%` in front of any other letter.
pub data Piece : Type 0 where
  plain : (c : ℕ) → (c == b'%') ≡ false → Piece
  str : Option (List ℕ) → Piece
  chr : ℕ → Piece
  dec : ℕ → Piece
  unsigned : ℕ → Piece
  low_hex : ℕ → Piece
  large_hex : ℕ → Piece
  long_hex : ℕ → Piece
  percent : Piece
  unknown : (c : ℕ) → has_case c ≡ false → Piece

-- The format of the pieces, in front of more of it.
abbrev pub format : List Piece → List ℕ → List ℕ
format [] t = t
format (plain c h ∷ ps) t = c ∷ format ps t
format (str s ∷ ps) t = b'%' ∷ b's' ∷ format ps t
format (chr w ∷ ps) t = b'%' ∷ b'c' ∷ format ps t
format (dec w ∷ ps) t = b'%' ∷ b'd' ∷ format ps t
format (unsigned w ∷ ps) t = b'%' ∷ b'u' ∷ format ps t
format (low_hex w ∷ ps) t = b'%' ∷ b'x' ∷ format ps t
format (large_hex w ∷ ps) t = b'%' ∷ b'X' ∷ format ps t
format (long_hex w ∷ ps) t = b'%' ∷ b'l' ∷ b'x' ∷ format ps t
format (percent ∷ ps) t = b'%' ∷ b'%' ∷ format ps t
format (unknown c h ∷ ps) t = b'%' ∷ c ∷ format ps t

abbrev pub arguments : List Piece → List Arg
arguments [] = []
arguments (plain c h ∷ ps) = arguments ps
arguments (str s ∷ ps) = text s ∷ arguments ps
arguments (chr w ∷ ps) = word w ∷ arguments ps
arguments (dec w ∷ ps) = word w ∷ arguments ps
arguments (unsigned w ∷ ps) = word w ∷ arguments ps
arguments (low_hex w ∷ ps) = word w ∷ arguments ps
arguments (large_hex w ∷ ps) = word w ∷ arguments ps
arguments (long_hex w ∷ ps) = word w ∷ arguments ps
arguments (percent ∷ ps) = arguments ps
arguments (unknown c h ∷ ps) = arguments ps

-- A number in base 16, other than 0 with zeros up to a width.
abbrev pub in_hex : ℕ → ℕ → List ℕ
in_hex val width =
    if val == 0
    then b'0' ∷ []
    else replicate (width - length (hex_digits 16 val [])) b'0' ++ hex_digits 16 val []

abbrev pub shown_as : Piece → List ℕ
shown_as (plain c h) = c ∷ []
shown_as (str none) = codes "(null)"
shown_as (str (some s)) = s
shown_as (chr w) = w % 256 ∷ []
shown_as (dec w) = put_dec (w % 2 ^ 32)
shown_as (unsigned w) = put_dec (w % 2 ^ 32)
shown_as (low_hex w) = in_hex (w % 2 ^ 32) 0
shown_as (large_hex w) = in_hex (w % 2 ^ 32) 0
shown_as (long_hex w) = in_hex w 16
shown_as percent = b'%' ∷ []
shown_as (unknown c h) = b'?' ∷ []

abbrev pub shown : List Piece → List ℕ
shown [] = []
shown (p ∷ ps) = shown_as p ++ shown ps

pub put_hex-in_hex : (val width : ℕ) → width ≤ 32 → put_hex val width ≡ ok (in_hex val width)
unfolding put_hex
put_hex-in_hex val width small = elim (eq-cases val 0) [
  | inl e ↦ rw e refl
  | inr e ↦ let fits : ltb 32 width ≡ false = ground arith in rw (e, fits) refl
]

abbrev before : List ℕ → Run (List ℕ) → Run (List ℕ)
before s r = r >>= λ out. ok (s ++ out)

before-before : (s u : List ℕ) (r : Run (List ℕ)) → before s (before u r) ≡ before (s ++ u) r
before-before s u (ok out) = ap (λ (l : List ℕ). ok l) (sym (append_assoc s u out))
before-before s u fault = refl
before-before s u hang = refl

before-nil : (r : Run (List ℕ)) → before [] r ≡ r
before-nil (ok out) = refl
before-nil fault = refl
before-nil hang = refl

-- A directive for a number in base 16.
abbrev with_rest : List ℕ → List Arg → List ℕ → Run (List ℕ × List ℕ × List Arg)
with_rest s args out = ok (out, s, args)

hex-step :
    (val width : ℕ) (s : List ℕ) (args : List Arg) (f : List ℕ → List Arg → Run (List ℕ))
    → width ≤ 32
    → (put_hex val width >>= with_rest s args >>= λ r. before r.0 (f r.1 r.2))
      ≡ before (in_hex val width) (f s args)
hex-step val width s args f small =
    ap (λ (h : Run (List ℕ)). h >>= with_rest s args >>= λ r. before r.0 (f r.1 r.2))
      (put_hex-in_hex val width small)

-- A letter without a case.
serial_directive-unknown :
    (c : ℕ)
    → has_case c ≡ false
    → (s : List ℕ) (args : List Arg) → serial_directive (c ∷ s) args ≡ ok (b'?' ∷ [], s, args)
unfolding serial_directive
serial_directive-unknown c h s args = ground arith

-- One turn of the loop prints one piece.
serial_loop-piece :
    (p : Piece) (ps : List Piece) (fuel : ℕ) (t : List ℕ)
    → serial_loop (suc fuel) (format (p ∷ ps) t) (arguments (p ∷ ps))
      ≡ before (shown_as p) (serial_loop fuel (format ps t) (arguments ps))
unfolding serial_loop serial_directive
serial_loop-piece (plain c h) ps fuel t = rw h refl
serial_loop-piece (str none) ps fuel t = refl
serial_loop-piece (str (some s)) ps fuel t = refl
serial_loop-piece (chr w) ps fuel t = refl
serial_loop-piece (dec w) ps fuel t = refl
serial_loop-piece (unsigned w) ps fuel t = refl
serial_loop-piece (low_hex w) ps fuel t =
    hex-step (w % 2 ^ 32) 0 (format ps t) (arguments ps) (serial_loop fuel) (omega arith)
serial_loop-piece (large_hex w) ps fuel t =
    hex-step (w % 2 ^ 32) 0 (format ps t) (arguments ps) (serial_loop fuel) (omega arith)
serial_loop-piece (long_hex w) ps fuel t =
    hex-step w 16 (format ps t) (arguments ps) (serial_loop fuel) (omega arith)
serial_loop-piece percent ps fuel t = refl
serial_loop-piece (unknown c h) ps fuel t =
    ap (λ (r : Run (List ℕ × List ℕ × List Arg)). r >>= λ a. before a.0 (serial_loop fuel a.1 a.2))
      (serial_directive-unknown c h (format ps t) (arguments ps))

length-format :
    (p : Piece) (ps : List Piece) (t : List ℕ) → length (format ps t) < length (format (p ∷ ps) t)
length-format (plain c h) ps t = omega arith
length-format (str s) ps t = omega arith
length-format (chr w) ps t = omega arith
length-format (dec w) ps t = omega arith
length-format (unsigned w) ps t = omega arith
length-format (low_hex w) ps t = omega arith
length-format (large_hex w) ps t = omega arith
length-format (long_hex w) ps t = omega arith
length-format percent ps t = omega arith
length-format (unknown c h) ps t = omega arith

-- After the pieces the loop goes on with the rest of the format, with fuel enough for it.
serial_loop-format :
    (ps : List Piece) (fuel : ℕ) (t : List ℕ)
    → length (format ps t) < fuel
    → (left : ℕ) × (length t < left)
      × (serial_loop fuel (format ps t) (arguments ps) ≡ before (shown ps) (serial_loop left t []))
serial_loop-format ps zero t f = absurd (omega arith)
serial_loop-format [] (suc fuel) t f = (suc fuel, f, sym (before-nil (serial_loop (suc fuel) t [])))
serial_loop-format (p ∷ ps) (suc fuel) t f =
    let (left, lt, e) = serial_loop-format ps fuel t (omega (arith, length-format p ps t)) in
    (
      left,
      lt,
      serial_loop-piece p ps fuel t
          ∙ (ap (before (shown_as p)) e
              ∙ before-before (shown_as p) (shown ps) (serial_loop left t [])),
    )

serial_loop-end : (n : ℕ) → 0 < n → serial_loop n [] [] ≡ ok []
unfolding serial_loop
serial_loop-end zero lt = absurd (omega arith)
serial_loop-end (suc n) lt = refl

serial_loop-percent : (n : ℕ) → 1 < n → serial_loop n (b'%' ∷ []) [] ≡ fault
unfolding serial_loop serial_directive
serial_loop-percent zero lt = absurd (omega arith)
serial_loop-percent (suc n) lt = refl

-- A format of plain bytes, of the directives s, c, d, u, x, X, lx and `%`, with an argument of the right
-- kind for each, and of letters that are no directive prints its pieces in order, a question mark for an
-- unknown letter; with a `%` at its end the printer reads behind the text.
pub serial_bytes-format :
    (ps : List Piece)
    → (serial_bytes (format ps []) (arguments ps) ≡ ok (shown ps))
      × (serial_bytes (format ps (b'%' ∷ [])) (arguments ps) ≡ fault)
unfolding serial_bytes
serial_bytes-format ps =
    let (n, ln, e) = serial_loop-format ps (length (format ps []) + 1) [] (omega arith) in
    let (m, lm, f) =
      serial_loop-format ps (length (format ps (b'%' ∷ [])) + 1) (b'%' ∷ []) (omega arith) in
    (
      e
          ∙ (ap (before (shown ps)) (serial_loop-end n ln)
              ∙ ap (λ (l : List ℕ). ok l) (append-nil (shown ps))),
      f ∙ ap (before (shown ps)) (serial_loop-percent m lm),
    )
