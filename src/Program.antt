-- ===== src/Program.antt =====
-- The tasks of eos_aarch64/user/work_assignment3.c: where their TCBs are, and what happens between
-- two points at which a task may lose the processor.
pub mod Bound
pub mod Sleepers
use e_os_aarch64_hal.Base.{ℕ}
use e_os_aarch64_hal.NodeList.{Ptr}

-- The TCBs of the idle task and of the three tasks of the program.
pub record Layout : Type 0 where
  pub idle : Ptr
  pub tcb1 : Ptr
  pub tcb2 : Ptr
  pub tcb3 : Ptr

-- What happens next: a tick, or a round of the task that runs.
pub data Event : Type 0 where
  tick : Event
  act : Event

-- Fuel for the loops over the alarms: the idle task and the three tasks have no more than four.
abbrev pub enough : ℕ
enough = 5
