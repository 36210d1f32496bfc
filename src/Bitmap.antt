-- ===== src/Bitmap.antt =====
-- The ready bitmap of eos_aarch64/core/scheduler.c: `_os_ready_group`, `_os_ready_table`, the two
-- lookup tables and the functions that set, clear and search it.
--
-- The table of eight bytes is a map from its index, and a byte is a number below 256. The functions
-- are called with priorities below 64, so the index `priority >> 3` is below 8.
pub mod Bytes
pub mod Ready
use e_os_aarch64_hal.Base.{
  ℕ, zero, suc, ◌+◌, ◌-◌, ◌*◌, ◌/◌, List, [], ◌∷◌, bit_and, bit_or, if◌then◌else◌, ◌==◌,
}

abbrev pub lowest_priority : ℕ
lowest_priority = 63

abbrev pub medium_priority : ℕ
medium_priority = 32

abbrev pub ready_table_size : ℕ
ready_table_size = lowest_priority / 8 + 1

pub record Bitmap : Type 0 where
  pub ready_group : ℕ
  pub ready_table : ℕ → ℕ

-- An element of a constant array. The arrays are read within their bounds.
abbrev pub entry : List ℕ → ℕ → ℕ
entry [] i = 0
entry (x ∷ xs) zero = x
entry (x ∷ xs) (suc i) = entry xs i

abbrev pub map_table : List ℕ
map_table = 0x01 ∷ 0x02 ∷ 0x04 ∷ 0x08 ∷ 0x10 ∷ 0x20 ∷ 0x40 ∷ 0x80 ∷ []

abbrev unmap_row : ℕ → List ℕ → List ℕ
unmap_row first rest = first ∷ 0 ∷ 1 ∷ 0 ∷ 2 ∷ 0 ∷ 1 ∷ 0 ∷ 3 ∷ 0 ∷ 1 ∷ 0 ∷ 2 ∷ 0 ∷ 1 ∷ 0 ∷ rest

-- The rows of sixteen entries differ in the first one.
unfoldable pub unmap_table : List ℕ
unmap_table = unmap_row 0 (
    unmap_row 4 (
      unmap_row 5 (
        unmap_row 4 (
          unmap_row 6 (
            unmap_row 4 (
              unmap_row 5 (
                unmap_row 4 (
                  unmap_row 7 (
                    unmap_row 4 (
                      unmap_row 5 (
                        unmap_row 4
                          (unmap_row 6 (unmap_row 4 (unmap_row 5 (unmap_row 4 [])))))))))))))))

-- `~mask`, cut to a byte by the store that follows.
abbrev pub byte_not : ℕ → ℕ
byte_not mask = 255 - mask

abbrev pub set_row : ℕ → ℕ → (ℕ → ℕ) → ℕ → ℕ
set_row i v table j = if i == j then v else table j

clear_rows : ℕ → (ℕ → ℕ) → ℕ → ℕ
clear_rows zero table = table
clear_rows (suc k) table = clear_rows k (set_row (ready_table_size - suc k) 0 table)

unfoldable pub init_scheduler : Bitmap → Bitmap
unfolding clear_rows
init_scheduler b = record b {
  ready_group = 0;
  ready_table = clear_rows ready_table_size b.ready_table;
}

unfoldable pub get_highest_priority : Bitmap → ℕ
unfolding unmap_table
get_highest_priority b =
    let y = entry unmap_table b.ready_group in y * 8 + entry unmap_table (b.ready_table y)

unfoldable pub set_ready : ℕ → Bitmap → Bitmap
set_ready priority b =
    let row = priority / 8 in
    record {
      ready_group = bit_or b.ready_group (entry map_table row);
      ready_table =
          set_row row (bit_or (b.ready_table row) (entry map_table (bit_and priority 0x07)))
            b.ready_table;
    }

unfoldable pub unset_ready : ℕ → Bitmap → Bitmap
unset_ready priority b =
    let row = priority / 8 in
    let left = bit_and (b.ready_table row) (byte_not (entry map_table (bit_and priority 0x07))) in
    record {
      ready_group =
          if left == 0
          then bit_and b.ready_group (byte_not (entry map_table row))
          else b.ready_group;
      ready_table = set_row row left b.ready_table;
    }
