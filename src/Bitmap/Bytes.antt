-- ===== src/Bitmap/Bytes.antt =====
-- Bits of a byte under the operations of the ready bitmap, each law checked at every value.
use e_os_aarch64_hal.Base.{
  ℕ, ◌/◌, ◌%◌, ◌^◌, ◌<◌, ◌≡◌, ◌≢◌, refl, Bool, true, false, not, ◌&&◌, ◌||◌, bit_and, bit_or, ◌==◌,
  ltb, leb, ==_iff, all_below, law-all_below, arith,
}
use e_os_aarch64_hal.Bitmap.{entry, map_table, unmap_table, byte_not}

-- Bit `i` of `b`.
abbrev pub bit : ℕ → ℕ → Bool
bit b i = (b / 2 ^ i) % 2 == 1

abbrev same : Bool → Bool → Bool
same true b = b
same false b = not b

same-eq : (a b : Bool) → same a b ≡ true → a ≡ b
same-eq true b h = ground arith
same-eq false b h = ground arith

-- A law with three places, checked at every byte and every two positions.
all_bytes : (ℕ → ℕ → ℕ → Bool) → Bool
unfolding all_below
all_bytes law = all_below 256 λ b. all_below 8 λ i. all_below 8 λ j. law b i j

all_bytes_sound :
    (law : ℕ → ℕ → ℕ → Bool)
    → all_bytes law ≡ true
    → (b i j : ℕ) → b < 256
    → i < 8
    → j < 8
    → law b i j ≡ true
unfolding all_bytes
all_bytes_sound law table b i j hb hi hj =
    let at_b = law-all_below (λ c. all_below 8 λ k. all_below 8 λ l. law c k l) 256 table b hb in
    law-all_below (law b i) 8 (law-all_below (λ k. all_below 8 λ l. law b k l) 8 at_b i hi) j hj

abbrev or_law : ℕ → ℕ → ℕ → Bool
or_law b i j =
    same (bit (bit_or b (entry map_table i)) j) (bit b j || i == j)
    && ltb (bit_or b (entry map_table i)) 256

or_table : all_bytes or_law ≡ true
unfolding all_bytes
or_table = refl

abbrev and_law : ℕ → ℕ → ℕ → Bool
and_law b i j =
    same (bit (bit_and b (byte_not (entry map_table i))) j) (bit b j && not (i == j))
    && ltb (bit_and b (byte_not (entry map_table i))) 256

and_table : all_bytes and_law ≡ true
unfolding all_bytes
and_table = refl

abbrev lowest_law : ℕ → ℕ → ℕ → Bool
lowest_law b i j =
    (b == 0 || bit b (entry unmap_table b))
    && ltb (entry unmap_table b) 8
    && (leb (entry unmap_table b) j || not (bit b j))

lowest_table : all_bytes lowest_law ≡ true
unfolding all_bytes unmap_table
lowest_table = refl

or-left : (a b : Bool) → (a && b) ≡ true → a ≡ true
or-left a b h = ground arith

module _ (b i j : ℕ) (hb : b < 256) (hi : i < 8) (hj : j < 8) where
  pub bit-bit_or : bit (bit_or b (entry map_table i)) j ≡ (bit b j || i == j)
  bit-bit_or = same-eq _ _ (or-left _ _ (all_bytes_sound or_law or_table b i j hb hi hj))

  pub bit-bit_and : bit (bit_and b (byte_not (entry map_table i))) j ≡ (bit b j && not (i == j))
  bit-bit_and = same-eq _ _ (or-left _ _ (all_bytes_sound and_law and_table b i j hb hi hj))

module _ (b i : ℕ) (hb : b < 256) (hi : i < 8) where
  pub bit_or-lt : bit_or b (entry map_table i) < 256
  bit_or-lt = ground (arith, all_bytes_sound or_law or_table b i i hb hi hi)

  pub bit_and-lt : bit_and b (byte_not (entry map_table i)) < 256
  bit_and-lt = ground (arith, all_bytes_sound and_law and_table b i i hb hi hi)

-- The lookup table gives the lowest bit that is set.
module _ (b : ℕ) (hb : b < 256) where
  pub lowest-lt : entry unmap_table b < 8
  lowest-lt = ground (arith, all_bytes_sound lowest_law lowest_table b 0 0 hb)

  pub lowest-bit : b ≢ 0 → bit b (entry unmap_table b) ≡ true
  lowest-bit ne = ground (arith, all_bytes_sound lowest_law lowest_table b 0 0 hb)

  pub below_lowest : (j : ℕ) → j < 8 → j < entry unmap_table b → bit b j ≡ false
  below_lowest j hj lt = ground (arith, all_bytes_sound lowest_law lowest_table b j j hb hj hj)

pub bit-zero : (j : ℕ) → bit 0 j ≡ false
bit-zero j = ground arith

pub ne_of_bit : (b j : ℕ) → bit b j ≡ true → b ≢ 0
ne_of_bit b j h = ground (arith, bit-zero j)

-- Clearing a bit of the empty byte leaves it empty.
pub bit_and-ne : (b i : ℕ) → b < 256 → i < 8 → bit_and b (byte_not (entry map_table i)) ≢ 0 → b ≢ 0
bit_and-ne b i hb hi ne =
    let left = bit_and b (byte_not (entry map_table i)) in
    let lt = bit_and-lt b i hb hi in
    let k = entry unmap_table left in
    ne_of_bit b k
      (ground (arith, bit-bit_and b i k hb hi (lowest-lt left lt), lowest-bit left lt ne))

pub bit_and_seven : (p : ℕ) → p < 64 → bit_and p 0x07 ≡ p % 8
unfolding all_below
bit_and_seven p hp = (==_iff _ _).0 (law-all_below (λ q. bit_and q 0x07 == q % 8) 64 refl p hp)
