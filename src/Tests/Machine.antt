-- ===== src/Tests/Machine.antt =====
-- Interrupts, contexts and printing.
use e_os_aarch64_hal.Base.{ℕ, ◌≡◌, ◌+◌, ◌*◌, ◌%◌, ◌≤◌, ◌<◌, ◌⊎◌, ◌≢◌, [], arith}
use e_os_aarch64_hal.Base.Run.{Run, ok}
use e_os_aarch64_hal.Hal.Device.{Device}
use e_os_aarch64_hal.Interrupt.{
  Interrupts, set_interrupt_handler, get_interrupt_handler, copy_context,
}
use e_os_aarch64_hal.Interrupt.Table.{get-set_interrupt_handler}
use e_os_aarch64_hal.Interrupt.Copy.{copy_context-moves}
use e_os_aarch64_hal.Hal.Context.{create_context}
use e_os_aarch64_hal.Hal.Context.Frame.{Starts, create_context-frame}
use e_os_aarch64_hal.Tests.States.{start_state}

abbrev table : Interrupts
table = record {
  icb_table = λ i. record { irqnum = i; handler = 7; arg = 8 };
  words = λ a. a;
  current = 1;
  sp = λ t. 200;
}

abbrev quiet_device : Device
quiet_device = record { written = []; reads = 0; cntp_ctl = 0; cntp_tval = 0; reload = 0 }

-- A handler that leaves the state alone.
abbrev quiet : ℕ → ℕ → ℕ → Device → Interrupts → Run (Device × Interrupts)
quiet handler irqnum arg d s = ok (d, s)

get-set_interrupt_handler_example :
    let bound : ℕ = 32 in
    let other : ℕ = 7 in
    let r = set_interrupt_handler 30 64 9 table in
    ((30 < bound)
      × (r.0 ≡ 0)
      × (get_interrupt_handler 30 r.1 ≡ 64)
      × (other ≢ 30 → get_interrupt_handler other r.1 ≡ get_interrupt_handler other table))
    ⊎ ((bound ≤ 30) × (r.0 ≡ 255) × (r.1 ≡ table))
get-set_interrupt_handler_example = get-set_interrupt_handler table 30 64 9 7 (omega arith)

-- The blocks overlap.
copy_context-moves_example :
    ((j : ℕ) → j < 34 → copy_context 210 200 table.words (210 + j) ≡ table.words (200 + j))
    × ((a : ℕ) → (a < 210) ⊎ (244 ≤ a) → copy_context 210 200 table.words a ≡ table.words a)
copy_context-moves_example = copy_context-moves 210 200 table.words (omega arith) (omega arith)

create_context-frame_example :
    let (ctx, after) = create_context 4100 2048 64 5 start_state.words in
    (4100 ≤ ctx)
    × (ctx + 272 ≤ 4100 + 2048)
    × (ctx % 16 ≡ 0)
    × Starts after ctx (ctx + 272) 64 5
    × ((a : ℕ) → (8 * a + 8 ≤ ctx) ⊎ (ctx + 272 ≤ 8 * a) → after a ≡ start_state.words a)
create_context-frame_example =
    create_context-frame 4100 2048 64 5 start_state.words (omega arith) (omega arith)
