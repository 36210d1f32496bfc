-- ===== src/Hal/Context.antt =====
-- The initial context of a task: `_os_context_t` (eos_aarch64/hal/aarch64/context.h) and
-- `_os_create_context` (eos_aarch64/hal/aarch64/context.c). The memory of the stacks is seen in words
-- of eight bytes, the word `a` from the address `8 * a` on; a context is 34 words at a multiple of 8,
-- and two contexts may overlap.
pub mod Frame
pub mod Dump
use e_os_aarch64_hal.Base.{ℕ, zero, suc, ◌+◌, ◌-◌, ◌*◌, ◌/◌, ◌%◌, ◌^◌}
use e_os_aarch64_hal.NodeList.{write}

pub record Context : Type 0 where
  pub x : ℕ → ℕ
  pub sp : ℕ
  pub elr_el1 : ℕ
  pub spsr_el1 : ℕ

abbrev pub ctx_size : ℕ
ctx_size = 34 * 8

-- The words of a structure at an address, read as its fields.
abbrev pub context_at : (ℕ → ℕ) → ℕ → Context
context_at words ctx = record {
  x = λ i. words (ctx / 8 + i);
  sp = words (ctx / 8 + 31);
  elr_el1 = words (ctx / 8 + 32);
  spsr_el1 = words (ctx / 8 + 33);
}

-- `(stack_base + stack_size) & ~0xFUL`.
unfoldable pub stack_top : ℕ → ℕ → ℕ
stack_top stack_base stack_size = let end = (stack_base + stack_size) % 2 ^ 64 in end - end % 16

-- `memset(ctx, 0, sizeof(*ctx))`, which stores zero bytes, with the words that are left.
unfoldable pub clear_words : ℕ → ℕ → (ℕ → ℕ) → ℕ → ℕ
clear_words zero at words = words
clear_words (suc left) at words = clear_words left (at + 1) (write words at 0)

unfoldable pub create_context : ℕ → ℕ → ℕ → ℕ → (ℕ → ℕ) → ℕ × (ℕ → ℕ)
unfolding stack_top
create_context stack_base stack_size entry arg words =
    let sp = stack_top stack_base stack_size in
    let ctx = (sp + 2 ^ 64 - ctx_size) % 2 ^ 64 in
    let at = ctx / 8 in
    let w1 = clear_words (ctx_size / 8) at words in
    let w2 = write w1 at arg in
    let w3 = write w2 (at + 31) sp in
    let w4 = write w3 (at + 32) entry in let w5 = write w4 (at + 33) 5 in (ctx, w5)
