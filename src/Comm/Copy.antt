-- ===== src/Comm/Copy.antt =====
-- The copying loop of eos_aarch64/core/comm.c.
use e_os_aarch64_hal.Base.{
  ℕ, zero, suc, ◌+◌, ◌≤◌, ◌<◌, ◌≡◌, refl, ◌⊎◌, inl, inr, List, [], ◌∷◌, arith, eq-cases,
}
use e_os_aarch64_hal.Kernel.{update}
use e_os_aarch64_hal.Comm.{copy, copy_loop}

-- The bytes of a block of memory.
unfoldable pub read : ℕ → ℕ → (ℕ → ℕ) → List ℕ
read zero a bytes = []
read (suc n) a bytes = bytes a ∷ read n (a + 1) bytes

-- Two blocks of memory have no byte in common.
abbrev pub Apart : ℕ → ℕ → ℕ → ℕ → Type 0
Apart a m b n = (a + m ≤ b) ⊎ (b + n ≤ a)

-- The loop leaves every byte outside the rest of the destination.
pub copy_loop-outside :
    (left i dest src : ℕ) (bytes : ℕ → ℕ) (a : ℕ)
    → (a < dest + i) ⊎ (dest + i + left ≤ a)
    → copy_loop left i dest src bytes a ≡ bytes a
unfolding copy_loop
copy_loop-outside zero i dest src bytes a out = refl
copy_loop-outside (suc left) i dest src bytes a out =
    ground
      (arith, copy_loop-outside left (i + 1) dest src (update bytes (dest + i) (bytes (src + i))) a)

-- A byte of the destination is the byte of the source.
copy_loop-inside :
    (left i dest src n : ℕ) (bytes : ℕ → ℕ) (j : ℕ)
    → Apart dest n src n
    → i + left ≤ n
    → i ≤ j
    → j < i + left
    → copy_loop left i dest src bytes (dest + j) ≡ bytes (src + j)
unfolding copy_loop
copy_loop-inside zero i dest src n bytes j out fits le lt = absurd (omega arith)
copy_loop-inside (suc left) i dest src n bytes j out fits le lt =
    let b1 = update bytes (dest + i) (bytes (src + i)) in
    elim (eq-cases i j) [
      | inl e ↦ ground (arith, copy_loop-outside left (i + 1) dest src b1 (dest + j))
      | inr e ↦ ground (arith, copy_loop-inside left (i + 1) dest src n b1 j out)
    ]

pub read_same :
    (n a b : ℕ) (f g : ℕ → ℕ) → ((j : ℕ) → j < n → f (a + j) ≡ g (b + j)) → read n a f ≡ read n b g
unfolding read
read_same zero a b f g same = refl
read_same (suc n) a b f g same =
    let first = same 0 (omega arith) in
    let rest = read_same n (a + 1) (b + 1) f g (λ j lt. ground (arith, same (j + 1))) in
    ground (arith, first, rest)

-- Copying a block to one that is apart from it makes the two equal.
pub read-copy :
    (n dest src : ℕ) (bytes : ℕ → ℕ)
    → Apart dest n src n
    → read n dest (copy n dest src bytes) ≡ read n src bytes
unfolding copy
read-copy n dest src bytes out =
    read_same n dest src (copy_loop n 0 dest src bytes) bytes (λ j lt.
      copy_loop-inside n 0 dest src n bytes j out (omega arith) (omega arith) (omega arith))

-- A block apart from the destination is left alone.
pub read-copy-Apart :
    (m a n dest src : ℕ) (bytes : ℕ → ℕ)
    → Apart a m dest n
    → read m a (copy n dest src bytes) ≡ read m a bytes
unfolding copy
read-copy-Apart m a n dest src bytes out =
    read_same m a a (copy_loop n 0 dest src bytes) bytes
      (λ j lt. copy_loop-outside n 0 dest src bytes (a + j) (ground arith))
