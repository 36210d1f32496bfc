-- ===== src/Print/Padding.antt =====
-- What `number` of eos_aarch64/core/common.c puts around the digits.
use e_os_aarch64_hal.Base.{
  ℕ, zero, suc, ◌+◌, ◌-◌, ◌^◌, ◌<◌, ◌≤◌, ◌≡◌, refl, ap, ◌≢◌, ◌⊎◌, inl, inr, arith, Bool, true,
  false, ◌&&◌, ◌||◌, not, if◌then◌else◌, ltb, leb, eq-cases, Bool-cases, List, [], ◌∷◌, ◌++◌,
  Option, none, some, length,
}
use e_os_aarch64_hal.Print.{Flags}
use e_os_aarch64_hal.Print.Number.{
  small_digits, large_digits, replicate, digits_of, sign_of, prefix_of, digits_wanted, put_padded,
  number,
}
use e_os_aarch64_hal.Print.Digits.{
  value, AreDigits, value-digits_of, small_digits-IsDigits, large_digits-IsDigits,
}

replicate-append :
    (a b c : ℕ) (s : List ℕ) → replicate a c ++ (replicate b c ++ s) ≡ replicate (a + b) c ++ s
unfolding replicate
replicate-append zero b c s = let e : zero + b ≡ b = omega arith in rw e refl
replicate-append (suc a) b c s =
    let e : suc a + b ≡ suc (a + b) = omega arith in
    rw e (ap (λ (l : List ℕ). c ∷ l) (replicate-append a b c s))

sign_of-lt : (type : Flags) (num : ℕ) → num < 2 ^ 64 → (sign_of type num).1 < 2 ^ 64
unfolding sign_of
sign_of-lt type num lt = ground arith

abbrev pub digits_for : Flags → List ℕ
digits_for type = if type.large then large_digits else small_digits

sign_of-unsigned :
    (type : Flags) (num : ℕ)
    → type.sign ≡ false
    → ((sign_of type num).0 ≡ []) × ((sign_of type num).1 ≡ num)
unfolding sign_of
sign_of-unsigned type num e = rw e (refl, refl)

sign_of-negative :
    (type : Flags) (num : ℕ)
    → num < 2 ^ 64
    → type.sign ≡ true
    → 2 ^ 63 ≤ num
    → ((sign_of type num).0 ≡ b'-' ∷ []) × ((sign_of type num).1 + num ≡ 2 ^ 64)
unfolding sign_of
sign_of-negative type num lt e low =
    let high : leb (2 ^ 63) num ≡ true = ground arith in rw (e, high) (refl, omega arith)

sign_of-positive :
    (type : Flags) (num : ℕ)
    → type.sign ≡ true
    → num < 2 ^ 63
    → ((sign_of type num).0
        ≡ (if type.plus then b'+' ∷ [] else if type.space then b' ' ∷ [] else []))
      × ((sign_of type num).1 ≡ num)
unfolding sign_of
sign_of-positive type num e lt =
    let low : leb (2 ^ 63) num ≡ false = ground arith in
    rw (e, low)
      (elim (Bool-cases type.plus) [
        | inl p ↦ rw p (refl, refl)
        | inr p ↦
            rw p (elim (Bool-cases type.space) [
              | inl q ↦ rw q (refl, refl)
              | inr q ↦ rw q (refl, refl)
            ])
      ])

prefix_of-bare :
    (type : Flags) (digits : List ℕ) (base : ℕ)
    → (type.special ≡ false) ⊎ ((base ≢ 8) × (base ≢ 16))
    → prefix_of type digits base ≡ []
unfolding prefix_of
prefix_of-bare type digits base h = ground arith

prefix_of-octal :
    (type : Flags) (digits : List ℕ) (base : ℕ)
    → type.special ≡ true
    → base ≡ 8
    → prefix_of type digits base ≡ b'0' ∷ []
unfolding prefix_of
prefix_of-octal type digits base e b = rw (e, b) refl

prefix_of-hexadecimal :
    (type : Flags) (base : ℕ)
    → type.special ≡ true
    → base ≡ 16
    → prefix_of type (digits_for type) base ≡ b'0' ∷ (if type.large then b'X' else b'x') ∷ []
unfolding prefix_of
prefix_of-hexadecimal type base e b =
    rw (e, b) (elim (Bool-cases type.large) [ inl l ↦ rw l refl | inr l ↦ rw l refl ])

-- Blanks, the sign, the prefix, lead, the digits, blanks.
abbrev pub padded : ℕ → ℕ → ℕ → List ℕ → List ℕ → List ℕ → List ℕ
padded before lead after sign prefix digits =
    replicate before b' '
    ++ (sign ++ (prefix ++ (replicate lead b'0' ++ (digits ++ replicate after b' '))))

-- The blanks are all in front or all behind, and with ZEROPAD they are lead.
record Pads (zeropad left : Bool) (size lead : ℕ) (sign prefix tmp : List ℕ) : Type 0 where
  pub before : ℕ
  pub more : ℕ
  pub after : ℕ
  pub out :
      put_padded zeropad left size lead sign prefix tmp
      ≡ padded before (more + lead) after sign prefix tmp
  pub all : before + more + after ≡ size
  pub left_pads : left ≡ true → (before ≡ 0) × (more ≡ 0)
  pub zero_pads : zeropad ≡ true → before ≡ 0
  pub blank_pads : zeropad ≡ false → more ≡ 0
  pub right_pads : left ≡ false → after ≡ 0

put_padded-Pads :
    (zeropad left : Bool) (size lead : ℕ) (sign prefix tmp : List ℕ)
    → (zeropad && left) ≡ false
    → Pads zeropad left size lead sign prefix tmp
unfolding put_padded replicate
put_padded-Pads true true size lead sign prefix tmp h = cc
put_padded-Pads false true size lead sign prefix tmp h = record {
  before = 0;
  more = 0;
  after = size;
  out =
      let e : size - 0 - 0 ≡ size = omega arith in
      let z : 0 + lead ≡ lead = omega arith in rw (e, z) refl;
  all = omega arith;
  left_pads = λ e. (refl, refl);
  zero_pads = λ e. refl;
  blank_pads = λ e. refl;
  right_pads = λ e. cc;
}
put_padded-Pads true false size lead sign prefix tmp h = record {
  before = 0;
  more = size;
  after = 0;
  out =
      let e : size - 0 ≡ size = omega arith in
      let z : size - size ≡ 0 = omega arith in
      rw (e, z)
        (ap (λ (l : List ℕ). sign ++ (prefix ++ l)) (replicate-append size lead b'0' (tmp ++ [])));
  all = omega arith;
  left_pads = λ e. cc;
  zero_pads = λ e. refl;
  blank_pads = λ e. cc;
  right_pads = λ e. refl;
}
put_padded-Pads false false size lead sign prefix tmp h = record {
  before = size;
  more = 0;
  after = 0;
  out =
      let z : size - size ≡ 0 = omega arith in
      let n : 0 + lead ≡ lead = omega arith in rw (z, n) refl;
  all = omega arith;
  left_pads = λ e. cc;
  zero_pads = λ e. cc;
  blank_pads = λ e. refl;
  right_pads = λ e. refl;
}

-- The output of `number`: blanks, the sign, the prefix, lead, the digits, blanks.
pub record Printed (num base size : ℕ) (precision : Option ℕ) (type : Flags) : Type 0 where
  pub before : ℕ
  pub lead : ℕ
  pub after : ℕ
  pub sign : List ℕ
  pub magnitude : ℕ
  pub signed : sign_of type num ≡ (sign, magnitude)
  pub unsigned : type.sign ≡ false → (sign ≡ []) × (magnitude ≡ num)
  pub negative : type.sign ≡ true → 2 ^ 63 ≤ num → (sign ≡ b'-' ∷ []) × (magnitude + num ≡ 2 ^ 64)
  pub positive :
      type.sign ≡ true
      → num < 2 ^ 63
      → (sign ≡ (if type.plus then b'+' ∷ [] else if type.space then b' ' ∷ [] else []))
        × (magnitude ≡ num)
  pub prefix : List ℕ
  pub bare : (type.special ≡ false) ⊎ ((base ≢ 8) × (base ≢ 16)) → prefix ≡ []
  pub octal : type.special ≡ true → base ≡ 8 → prefix ≡ b'0' ∷ []
  pub hexadecimal :
      type.special ≡ true → base ≡ 16 → prefix ≡ b'0' ∷ (if type.large then b'X' else b'x') ∷ []
  pub digits : List ℕ
  pub these : digits ≡ digits_of (digits_for type) base magnitude
  pub returns :
      number num base size precision type ≡ some (padded before lead after sign prefix digits)
  pub reads : value base 0 digits ≡ magnitude
  pub valid : AreDigits (digits_for type) base digits
  pub fills : size ≤ before + length sign + length prefix + lead + length digits + after
  pub precise : digits_wanted precision (length digits) ≤ lead + length digits
  pub tight :
      ((before ≡ 0)
        × (after ≡ 0)
        × (lead + length digits ≡ digits_wanted precision (length digits)))
      ⊎ (before + length sign + length prefix + lead + length digits + after ≡ size)
  pub left : type.left ≡ true → before ≡ 0
  pub right : type.left ≡ false → after ≡ 0

digits_for_lem :
    (type : Flags) (base num : ℕ)
    → 2 ≤ base
    → base ≤ 36
    → num < 2 ^ 64
    → (value base 0 (digits_of (digits_for type) base num) ≡ num)
      × AreDigits (digits_for type) base (digits_of (digits_for type) base num)
digits_for_lem type base num low high lt = elim (Bool-cases type.large) [
  | inl e ↦
      let table : digits_for type ≡ large_digits = ground arith in
      rw table (value-digits_of large_digits base num large_digits-IsDigits low high lt)
  | inr e ↦
      let table : digits_for type ≡ small_digits = ground arith in
      rw table (value-digits_of small_digits base num small_digits-IsDigits low high lt)
]

wanted-le : (precision : Option ℕ) (i : ℕ) → i ≤ digits_wanted precision i
wanted-le none i = omega arith
wanted-le (some p) i = ground arith

pub number-Printed :
    (num base size : ℕ) (precision : Option ℕ) (type : Flags)
    → 2 ≤ base
    → base ≤ 36
    → num < 2 ^ 64
    → Printed num base size precision type
unfolding number
number-Printed num base size precision type low high lt =
    let digits = digits_for type in
    let (sign, magnitude) = sign_of type num in
    let prefix = prefix_of type digits base in
    let tmp = digits_of digits base magnitude in
    let w = digits_wanted precision (length tmp) in
    let more = wanted-le precision (length tmp) in
    let rest = size - length sign - length prefix - w in
    let zp : Bool = type.zeropad && not type.left in
    let one : (zp && type.left) ≡ false = ground arith in
    let p = put_padded-Pads zp type.left rest (w - length tmp) sign prefix tmp one in
    let guard : (ltb base 2 || ltb 36 base) ≡ false = ground arith in
    let (reads, valid) = digits_for_lem type base magnitude low high (sign_of-lt type num lt) in
    let all = p.all in
    record {
      before = p.before;
      lead = p.more + (w - length tmp);
      after = p.after;
      sign = sign;
      magnitude = magnitude;
      signed = refl;
      unsigned = sign_of-unsigned type num;
      negative = sign_of-negative type num lt;
      positive = sign_of-positive type num;
      prefix = prefix;
      bare = prefix_of-bare type digits base;
      octal = prefix_of-octal type digits base;
      hexadecimal = prefix_of-hexadecimal type base;
      digits = tmp;
      these = refl;
      returns = rw guard (ap (λ (l : List ℕ). some l) p.out);
      reads = reads;
      valid = valid;
      fills = omega (arith, all);
      precise = omega arith;
      tight = elim (eq-cases rest 0) [
        | inl e ↦ inl (omega (arith, all), omega (arith, all), omega (arith, all))
        | inr e ↦ inr (ground (arith, all))
      ];
      left = λ e. (p.left_pads e).0;
      right = λ e. p.right_pads e;
    }
