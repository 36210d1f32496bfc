-- ===== src/Hal/Context/Frame.antt =====
-- Where the first context of a task lies.
use e_os_aarch64_hal.Base.{
  ℕ, zero, suc, ◌+◌, ◌-◌, ◌*◌, ◌/◌, ◌%◌, ◌^◌, ◌<◌, ◌≤◌, ◌≡◌, ◌⊎◌, refl, arith, eq-cases,
}
use e_os_aarch64_hal.NodeList.{write}
use e_os_aarch64_hal.Hal.Context.{ctx_size, stack_top, clear_words, context_at, create_context}

clear_words-outside :
    (n at a : ℕ) (words : ℕ → ℕ) → (a < at) ⊎ (at + n ≤ a) → clear_words n at words a ≡ words a
unfolding clear_words
clear_words-outside zero at a words out = refl
clear_words-outside (suc n) at a words out =
    ground (arith, clear_words-outside n (at + 1) a (write words at 0), eq-cases at a)

clear_words-inside :
    (n at a : ℕ) (words : ℕ → ℕ) → at ≤ a → a < at + n → clear_words n at words a ≡ 0
unfolding clear_words
clear_words-inside zero at a words low high = absurd (omega arith)
clear_words-inside (suc n) at a words low high =
    let rest = clear_words-outside n (at + 1) a (write words at 0) in
    ground (arith, rest, clear_words-inside n (at + 1) a (write words at 0), eq-cases at a)

-- What the words of a context start: a task at its entry with its argument, with interrupts allowed
-- and the other registers cleared.
pub record Starts (words : ℕ → ℕ) (ctx sp entry arg : ℕ) : Type 0 where
  pub stack : (context_at words ctx).sp ≡ sp
  pub entered : (context_at words ctx).elr_el1 ≡ entry
  pub argument : (context_at words ctx).x 0 ≡ arg
  pub allowed : (context_at words ctx).spsr_el1 ≡ 5
  pub cleared : (i : ℕ) → 1 ≤ i → i < 31 → (context_at words ctx).x i ≡ 0

-- The end of a stack, rounded down to a multiple of 16.
stack_top-multiple :
    (stack_base stack_size : ℕ)
    → stack_top stack_base stack_size ≡ (stack_base + stack_size) % 2 ^ 64 / 16 * 16
unfolding stack_top
stack_top-multiple stack_base stack_size = omega arith

pub create_context-Starts :
    (stack_base stack_size entry arg : ℕ) (words : ℕ → ℕ)
    → let (ctx, after) = create_context stack_base stack_size entry arg words in
      Starts after ctx ((stack_base + stack_size) % 2 ^ 64 / 16 * 16) entry arg
unfolding create_context
create_context-Starts stack_base stack_size entry arg words =
    let at = (stack_top stack_base stack_size + 2 ^ 64 - ctx_size) % 2 ^ 64 / 8 in
    record {
      stack = ground (arith, stack_top-multiple stack_base stack_size);
      entered = ground arith;
      argument = ground arith;
      allowed = ground arith;
      cleared = λ i low high.
          ground (arith, clear_words-inside 34 at (at + i) words (omega arith) (omega arith));
    }

pub create_context-address :
    (stack_base stack_size entry arg : ℕ) (words : ℕ → ℕ)
    → (create_context stack_base stack_size entry arg words).0
      ≡ ((stack_base + stack_size) % 2 ^ 64 / 16 * 16 + 2 ^ 64 - ctx_size) % 2 ^ 64
unfolding create_context
create_context-address stack_base stack_size entry arg words =
    rw (stack_top-multiple stack_base stack_size) refl

-- On a stack of 1024 bytes and more that does not wrap around, the context lies inside the stack at a
-- multiple of 16. It starts the task at its entry with its argument, with interrupts allowed, the other
-- registers cleared, and a stack pointer that is a multiple of 16 and stands at the end of the context.
-- No word of the memory outside the context changes.
pub create_context-frame :
    (stack_base stack_size entry arg : ℕ) (words : ℕ → ℕ)
    → 1024 ≤ stack_size
    → stack_base + stack_size < 2 ^ 64
    → let (ctx, after) = create_context stack_base stack_size entry arg words in
      (stack_base ≤ ctx)
      × (ctx + ctx_size ≤ stack_base + stack_size)
      × (ctx % 16 ≡ 0)
      × Starts after ctx (ctx + ctx_size) entry arg
      × ((a : ℕ) → (8 * a + 8 ≤ ctx) ⊎ (ctx + ctx_size ≤ 8 * a) → after a ≡ words a)
unfolding create_context stack_top
create_context-frame stack_base stack_size entry arg words big fits =
    let end = stack_base + stack_size in
    let sp = stack_top stack_base stack_size in
    let whole : end % 2 ^ 64 ≡ end = omega arith in
    let below : sp ≡ end - end % 16 = rw whole refl in
    let ctx = (sp + 2 ^ 64 - ctx_size) % 2 ^ 64 in
    let place : ctx ≡ end - end % 16 - ctx_size = omega arith in
    let behind : (stack_base + stack_size) % 2 ^ 64 / 16 * 16 ≡ ctx + ctx_size = omega arith in
    let s = create_context-Starts stack_base stack_size entry arg words in
    (
      omega arith,
      omega arith,
      omega arith,
      rw (← behind) s,
      λ a out. ground (arith, clear_words-outside 34 (ctx / 8) a words),
    )
