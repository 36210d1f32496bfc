-- ===== src/Interrupt/Copy.antt =====
-- The copy of a context, when source and destination may overlap.
use e_os_aarch64_hal.Base.{
  ℕ, zero, suc, ◌+◌, ◌-◌, ◌≤◌, ◌<◌, ◌≡◌, refl, ◌≢◌, ◌⊎◌, inl, inr, arith, ◌==◌, ◌&&◌, ◌||◌, ltb,
  eq-cases, Bool-cases, true, false,
}
use e_os_aarch64_hal.NodeList.{null}
use e_os_aarch64_hal.Kernel.{update}
use e_os_aarch64_hal.Interrupt.{copy_context, copy_down, copy_up, word_count}

-- Words outside the part that is still to be written are left alone.
copy_down-outside :
    (i dst src : ℕ) (words : ℕ → ℕ) (a : ℕ)
    → (a < dst) ⊎ (dst + i ≤ a)
    → copy_down i dst src words a ≡ words a
unfolding copy_down
copy_down-outside zero dst src words a out = refl
copy_down-outside (suc i) dst src words a out =
    ground (arith, copy_down-outside i dst src (update words (dst + i) (words (src + i))) a)

-- Downwards each word is read before it is written, when the destination is above the source.
copy_down-inside :
    (i dst src : ℕ) (words : ℕ → ℕ) (j : ℕ)
    → src < dst
    → j < i
    → copy_down i dst src words (dst + j) ≡ words (src + j)
unfolding copy_down
copy_down-inside zero dst src words j above lt = absurd (omega arith)
copy_down-inside (suc i) dst src words j above lt =
    let w1 = update words (dst + i) (words (src + i)) in
    elim (eq-cases i j) [
      | inl e ↦ ground (arith, copy_down-outside i dst src w1 (dst + j))
      | inr e ↦ ground (arith, copy_down-inside i dst src w1 j above)
    ]

copy_up-outside :
    (left dst src : ℕ) (words : ℕ → ℕ) (a : ℕ)
    → left ≤ word_count
    → (a < dst + (word_count - left)) ⊎ (dst + word_count ≤ a)
    → copy_up left dst src words a ≡ words a
unfolding copy_up
copy_up-outside zero dst src words a fits out = refl
copy_up-outside (suc left) dst src words a fits out = ground (
  arith,
  copy_up-outside left dst src
      (update words (dst + (word_count - suc left)) (words (src + (word_count - suc left)))) a,
)

-- Upwards each word is read before it is written, when the destination is below the source or past
-- its end.
copy_up-inside :
    (left dst src : ℕ) (words : ℕ → ℕ) (j : ℕ)
    → left ≤ word_count
    → (dst < src) ⊎ (src + word_count ≤ dst)
    → word_count ≤ j + left
    → j < word_count
    → copy_up left dst src words (dst + j) ≡ words (src + j)
unfolding copy_up
copy_up-inside zero dst src words j fits apart le lt = absurd (omega arith)
copy_up-inside (suc left) dst src words j fits apart le lt =
    let i = word_count - suc left in
    let w1 = update words (dst + i) (words (src + i)) in
    elim (eq-cases i j) [
      | inl e ↦ ground (arith, copy_up-outside left dst src w1 (dst + j))
      | inr e ↦ ground (arith, copy_up-inside left dst src w1 j)
    ]

-- However source and destination overlap, the words of the destination become those that the source
-- had, and no other word changes.
pub copy_context-moves :
    (dst src : ℕ) (words : ℕ → ℕ)
    → dst ≢ null
    → src ≢ null
    → ((j : ℕ) → j < word_count → copy_context dst src words (dst + j) ≡ words (src + j))
      × ((a : ℕ) → (a < dst) ⊎ (dst + word_count ≤ a) → copy_context dst src words a ≡ words a)
unfolding copy_context
copy_context-moves dst src words nd ns =
    let guard : (dst == null || src == null) ≡ false = ground arith in
    elim (eq-cases dst src) [
      | inl e ↦
          let same : (dst == src) ≡ true = ground arith in
          rw (guard, same) (λ j lt. rw e refl, λ a out. refl)
      | inr e ↦ elim (Bool-cases (ltb src dst && ltb dst (src + word_count))) [
        | inl above ↦
            rw (guard, e, above)
              (
                λ j lt. copy_down-inside word_count dst src words j (ground arith) lt,
                λ a out. copy_down-outside word_count dst src words a out,
              )
        | inr below ↦
            rw (guard, e, below)
              (
                λ j lt.
                    copy_up-inside word_count dst src words j (omega arith) (ground arith)
                      (omega arith) lt,
                λ a out. copy_up-outside word_count dst src words a (omega arith) (ground arith),
              )
      ]
    ]
