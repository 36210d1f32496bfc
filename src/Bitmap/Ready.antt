-- ===== src/Bitmap/Ready.antt =====
-- The ready bitmap as a set of priorities: `_os_set_ready` and `_os_unset_ready` add and remove an
-- element, `_os_get_highest_priority` finds the least.
use e_os_aarch64_hal.Base.{
  ℕ, ◌+◌, ◌*◌, ◌/◌, ◌%◌, ◌≤◌, ◌<◌, ◌≡◌, ◌≢◌, refl, Bool, true, false, not, ◌&&◌, ◌||◌, bit_or, ◌==◌,
  arith, eq-cases, inl, inr,
}
use e_os_aarch64_hal.Bitmap.{
  Bitmap, entry, map_table, unmap_table, init_scheduler, get_highest_priority, set_ready,
  unset_ready,
}
use e_os_aarch64_hal.Bitmap.Bytes.{
  bit, bit-bit_or, bit-bit_and, bit_or-lt, bit_and-lt, lowest-lt, lowest-bit, below_lowest,
  bit-zero, ne_of_bit, bit_and-ne, bit_and_seven,
}

abbrev pub is_ready : Bitmap → ℕ → Bool
is_ready b p = bit (b.ready_table (p / 8)) (p % 8)

-- Bytes are bytes, and a bit of the group is set exactly when its row is not empty.
pub record IsValid (b : Bitmap) : Type 0 where
  pub group : b.ready_group < 256
  pub rows : (y : ℕ) → y < 8 → b.ready_table y < 256
  pub agree : (y : ℕ) → y < 8 → bit b.ready_group y ≡ not (b.ready_table y == 0)

row-lt : (p : ℕ) → p < 64 → p / 8 < 8
row-lt p h = omega arith

place-lt : (p : ℕ) → p % 8 < 8
place-lt p = omega arith

eq-rows : (p q : ℕ) → (p == q) ≡ (p / 8 == q / 8 && p % 8 == q % 8)
eq-rows p q = ground arith

pub init_scheduler-IsValid : (b : Bitmap) → IsValid (init_scheduler b)
unfolding init_scheduler
init_scheduler-IsValid b = record {
  group = ground arith;
  rows = λ y hy. ground arith;
  agree = λ y hy. ground (arith, bit-zero y);
}

pub is_ready-init_scheduler : (b : Bitmap) (q : ℕ) → q < 64 → is_ready (init_scheduler b) q ≡ false
unfolding init_scheduler
is_ready-init_scheduler b q hq = ground (arith, bit-zero (q % 8), row-lt q hq)

-- Setting the bit of a priority below 64 keeps the bitmap in order.
pub set_ready-IsValid : (b : Bitmap) (p : ℕ) → p < 64 → IsValid b → IsValid (set_ready p b)
unfolding set_ready
set_ready-IsValid b p hp v =
    let row = b.ready_table (p / 8) in
    let hrow = v.rows (p / 8) (row-lt p hp) in
    let mask = bit_and_seven p hp in
    let placed = bit-bit_or row (p % 8) (p % 8) hrow (place-lt p) (place-lt p) in
    record {
      group = bit_or-lt b.ready_group (p / 8) v.group (row-lt p hp);
      rows = λ y hy. rw mask (ground (arith, bit_or-lt row (p % 8) hrow (place-lt p), v.rows y hy));
      agree = λ y hy. rw mask (
          ground (
            arith,
            bit-bit_or b.ready_group (p / 8) y v.group (row-lt p hp) hy,
            ne_of_bit (bit_or row (entry map_table (p % 8))) (p % 8),
            placed,
            v.agree y hy,
          ));
    }

-- Clearing the bit of a priority below 64 keeps the bitmap in order.
pub unset_ready-IsValid : (b : Bitmap) (p : ℕ) → p < 64 → IsValid b → IsValid (unset_ready p b)
unfolding unset_ready
unset_ready-IsValid b p hp v =
    let row = b.ready_table (p / 8) in
    let hrow = v.rows (p / 8) (row-lt p hp) in
    let mask = bit_and_seven p hp in
    record {
      group = rw mask (ground (arith, bit_and-lt b.ready_group (p / 8) v.group (row-lt p hp)));
      rows =
          λ y hy. rw mask (ground (arith, bit_and-lt row (p % 8) hrow (place-lt p), v.rows y hy));
      agree = λ y hy. rw mask (
          ground (
            arith,
            bit-bit_and b.ready_group (p / 8) y v.group (row-lt p hp) hy,
            bit_and-ne row (p % 8) hrow (place-lt p),
            v.agree y hy,
          ));
    }

-- In a bitmap in order, setting one priority below 64 makes that priority ready and leaves every
-- other one as it was.
pub is_ready-set_ready :
    (b : Bitmap) (p q : ℕ)
    → p < 64
    → q < 64
    → IsValid b
    → is_ready (set_ready p b) q ≡ (is_ready b q || p == q)
unfolding set_ready
is_ready-set_ready b p q hp hq v =
    let row = b.ready_table (p / 8) in
    let hrow = v.rows (p / 8) (row-lt p hp) in
    rw (bit_and_seven p hp)
      (ground (arith, bit-bit_or row (p % 8) (q % 8) hrow (place-lt p) (place-lt q), eq-rows p q))

-- In a bitmap in order, clearing one priority below 64 leaves that priority not ready and every
-- other one as it was.
pub is_ready-unset_ready :
    (b : Bitmap) (p q : ℕ)
    → p < 64
    → q < 64
    → IsValid b
    → is_ready (unset_ready p b) q ≡ (is_ready b q && not (p == q))
unfolding unset_ready
is_ready-unset_ready b p q hp hq v =
    let row = b.ready_table (p / 8) in
    let hrow = v.rows (p / 8) (row-lt p hp) in
    rw (bit_and_seven p hp)
      (ground (arith, bit-bit_and row (p % 8) (q % 8) hrow (place-lt p) (place-lt q), eq-rows p q))

-- The row and the place that the two lookups find.
record Found (b : Bitmap) : Type 0 where
  row : ℕ
  place : ℕ
  row_lt : row < 8
  place_lt : place < 8
  result : get_highest_priority b ≡ row * 8 + place
  ready : bit (b.ready_table row) place ≡ true
  rows_before : (y : ℕ) → y < row → y < 8 → b.ready_table y ≡ 0
  places_before : (x : ℕ) → x < place → x < 8 → bit (b.ready_table row) x ≡ false

find : (b : Bitmap) → IsValid b → b.ready_group ≢ 0 → Found b
unfolding get_highest_priority
find b v ne =
    let y = entry unmap_table b.ready_group in
    let hy = lowest-lt b.ready_group v.group in
    let used = lowest-bit b.ready_group v.group ne in
    let row_ne : b.ready_table y ≢ 0 = ground (arith, v.agree y hy) in
    let hrow = v.rows y hy in
    record {
      row = y;
      place = entry unmap_table (b.ready_table y);
      row_lt = hy;
      place_lt = lowest-lt (b.ready_table y) hrow;
      result = refl;
      ready = lowest-bit (b.ready_table y) hrow row_ne;
      rows_before = λ z lt hz. ground (arith, below_lowest b.ready_group v.group z, v.agree z hz);
      places_before = λ x lt hx. below_lowest (b.ready_table y) hrow x hx lt;
    }

is_ready-row : (b : Bitmap) (y x : ℕ) → x < 8 → is_ready b (y * 8 + x) ≡ bit (b.ready_table y) x
is_ready-row b y x hx =
    let e : (y * 8 + x) / 8 ≡ y = omega arith in
    let f : (y * 8 + x) % 8 ≡ x = omega arith in rw (e, f) refl

-- In a bitmap in order where some priority is ready, the result is a ready priority below 64 and the least of all.
pub get_highest_priority-least :
    (b : Bitmap) (q : ℕ)
    → IsValid b
    → q < 64
    → is_ready b q ≡ true
    → (is_ready b (get_highest_priority b) ≡ true)
      × (get_highest_priority b ≤ q)
      × (get_highest_priority b < 64)
get_highest_priority-least b q v hq r =
    let row_ne = ne_of_bit (b.ready_table (q / 8)) (q % 8) r in
    let group_bit : bit b.ready_group (q / 8) ≡ true =
      ground (arith, v.agree (q / 8) (row-lt q hq)) in
    let f = find b v (ne_of_bit b.ready_group (q / 8) group_bit) in
    let row_le : f.row ≤ q / 8 = ground (arith, f.rows_before (q / 8)) in
    let place_le : f.row * 8 + f.place ≤ q =
      ground (arith, f.places_before (q % 8), eq-cases f.row (q / 8)) in
    (
      rw (f.result, is_ready-row b f.row f.place f.place_lt) f.ready,
      omega (arith, f.result),
      omega (arith, f.result, f.row_lt, f.place_lt),
    )

empty-group : (b : Bitmap) → IsValid b → b.ready_group ≡ 0 → get_highest_priority b ≡ 0
unfolding get_highest_priority
empty-group b v e =
    let row : b.ready_table 0 ≡ 0 = ground (arith, v.agree 0, bit-zero 0) in rw (e, row) refl

-- In a bitmap in order where no priority is ready, the result is 0, which is the number of the
-- highest priority.
pub get_highest_priority-empty :
    (b : Bitmap)
    → IsValid b
    → ((q : ℕ) → q < 64 → is_ready b q ≡ false)
    → get_highest_priority b ≡ 0
get_highest_priority-empty b v idle = elim (eq-cases b.ready_group 0) [
  | inl e ↦ empty-group b v e
  | inr e ↦
      let f = find b v (ground arith) in
      let r = is_ready-row b f.row f.place f.place_lt in
      absurd (ground (arith, idle (f.row * 8 + f.place), f.ready, f.row_lt, f.place_lt, r))
]
