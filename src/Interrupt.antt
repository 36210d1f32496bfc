-- ===== src/Interrupt.antt =====
-- Handlers of interrupts: eos_aarch64/core/interrupt.c.
--
-- Memory is seen in words of eight bytes, and an address of it counts words, so that a context is 34
-- words from its address on; the addresses of contexts are multiples of eight bytes. A handler is named by its address, and what it does to
-- this state and to the devices is an argument.
pub mod Table
pub mod Copy
use e_os_aarch64_hal.Base.{
  ℕ, zero, suc, ◌+◌, ◌-◌, Bool, ◌&&◌, ◌||◌, not, if◌then◌else◌, ◌==◌, ltb, leb,
}
use e_os_aarch64_hal.Base.Run.{Run, ok}
use e_os_aarch64_hal.NodeList.{Ptr, null}
use e_os_aarch64_hal.Hal.Device.{Device}
use e_os_aarch64_hal.Hal.Gic.{ack_irq}
use e_os_aarch64_hal.Kernel.{update}

pub record Icb : Type 0 where
  pub irqnum : ℕ
  pub handler : ℕ
  pub arg : ℕ

-- `current` is the running task and `sp` the field of that name of every task.
pub record Interrupts : Type 0 where
  pub icb_table : ℕ → Icb
  pub words : ℕ → ℕ
  pub current : Ptr
  pub sp : Ptr → ℕ

abbrev pub irq_max : ℕ
irq_max = 32

-- The loop over the table, with the rounds that are left.
unfoldable pub clear_table : ℕ → (ℕ → Icb) → ℕ → Icb
clear_table zero table = table
clear_table (suc left) table =
    let i = irq_max - suc left in
    clear_table left (update table i (record { irqnum = i; handler = null; arg = null }))

unfoldable pub init_icb_table : Interrupts → Interrupts
init_icb_table s = record s { icb_table = clear_table irq_max s.icb_table }

abbrev pub word_count : ℕ
word_count = 34

-- `for (size_t i = word_count; i-- > 0;)`.
unfoldable pub copy_down : ℕ → ℕ → ℕ → (ℕ → ℕ) → ℕ → ℕ
copy_down zero dst src words = words
copy_down (suc i) dst src words = copy_down i dst src (update words (dst + i) (words (src + i)))

-- `for (size_t i = 0; i < word_count; ++i)`, with the rounds that are left.
unfoldable pub copy_up : ℕ → ℕ → ℕ → (ℕ → ℕ) → ℕ → ℕ
copy_up zero dst src words = words
copy_up (suc left) dst src words =
    let i = word_count - suc left in copy_up left dst src (update words (dst + i) (words (src + i)))

unfoldable pub copy_context : ℕ → ℕ → (ℕ → ℕ) → ℕ → ℕ
copy_context dst src words =
    if dst == null || src == null
    then words
    else if dst == src
    then words
    else if ltb src dst && ltb dst (src + word_count)
    then copy_down word_count dst src words
    else copy_up word_count dst src words

unfoldable pub save_current_task_sp : ℕ → Interrupts → Interrupts
save_current_task_sp sp s =
    if s.current == null
    then s
    else let dest = s.sp s.current in
      if dest == null then s else record s { words = copy_context dest sp s.words }

-- The table is read at the number that the assembly hands over, which nothing has checked: the entries
-- from 32 on stand for what the memory behind the table holds.
module _ (call : ℕ → ℕ → ℕ → Device → Interrupts → Run (Device × Interrupts)) where
  unfoldable pub common_interrupt_handler : ℕ → ℕ → Device → Interrupts → Run (Device × Interrupts)
  common_interrupt_handler irq_num saved_context_ptr d s =
      let d1 = ack_irq irq_num d in
      let p = s.icb_table irq_num in
      if not (p.handler == null)
      then call p.handler irq_num p.arg d1 (save_current_task_sp saved_context_ptr s)
      else ok (d1, s)

-- `irqnum < 0 || irqnum >= IRQ_MAX` on the bit pattern of an `int8s_t`.
abbrev pub out_of_table : ℕ → Bool
out_of_table irqnum = leb 128 irqnum || leb irq_max irqnum

-- The result -1 is an `int8s_t` too.
unfoldable pub set_interrupt_handler : ℕ → ℕ → ℕ → Interrupts → ℕ × Interrupts
set_interrupt_handler irqnum handler arg s = if out_of_table irqnum then (255, s) else (
  0,
  record s {
    icb_table =
        update s.icb_table irqnum (record (s.icb_table irqnum) { handler = handler; arg = arg });
  },
)

unfoldable pub get_interrupt_handler : ℕ → Interrupts → ℕ
get_interrupt_handler irqnum s = if out_of_table irqnum then null else (s.icb_table irqnum).handler
