-- ===== src/Start.antt =====
-- The start of the system: `_os_init` of eos_aarch64/core/init.c, `_os_init_timer` of
-- eos_aarch64/core/timer.c, and the user's part of it in eos_aarch64/user/work_assignment4.c and
-- work_assignment3.c. Addresses that the linker chooses are arguments.
pub mod Setup
pub mod Boot
pub mod User
use e_os_aarch64_hal.Base.{ℕ, ◌-◌, ◌^◌, bit_and}
use e_os_aarch64_hal.Base.Run.{Run, ok, ◌>>=◌}
use e_os_aarch64_hal.NodeList.{Ptr, null}
use e_os_aarch64_hal.Bitmap.{init_scheduler, lowest_priority}
use e_os_aarch64_hal.Kernel.{Kernel, disable_interrupt, locked, unlocked, system_timer}
use e_os_aarch64_hal.Task.{create_task, init_task, schedule, set_period}
use e_os_aarch64_hal.Timer.{init_counter}
use e_os_aarch64_hal.Comm.{init_mqueue}
use e_os_aarch64_hal.Interrupt.{Interrupts, init_icb_table, set_interrupt_handler}
use e_os_aarch64_hal.Hal.Device.{Device}
use e_os_aarch64_hal.Hal.Gic.{gic_init}
use e_os_aarch64_hal.Hal.Timer.{init_hal, irq_cntp}

pub record System : Type 0 where
  pub kernel : Kernel
  pub interrupts : Interrupts
  pub device : Device

-- The address of `timer_interrupt_handler`.
abbrev pub timer_handler : ℕ
timer_handler = 2

unfoldable pub init_timer : System → System
init_timer s = record s {
  kernel = (init_counter system_timer 0 s.kernel).1;
  interrupts = (set_interrupt_handler irq_cntp timer_handler null s.interrupts).1;
}

-- What devices answer, the rate of ticks and the frequency of the timer.
module _ (answer : ℕ → ℕ → ℕ) (tick_hz freq : ℕ) where
  -- The part of `_os_init` before the idle task is created.
  unfoldable pub init_parts : System → System
  unfolding init_timer
  init_parts s =
      let (flag, k) = disable_interrupt s.kernel in
      let k1 = record k { scheduler_lock = locked } in
      let d1 = init_hal tick_hz freq (gic_init answer s.device) in
      let i1 = init_icb_table s.interrupts in
      let k2 = record k1 { bitmap = init_scheduler k1.bitmap } in
      init_timer (record { kernel = init_task k2; interrupts = i1; device = d1 })

-- `msr daifclr, #2`.
abbrev pub enable_interrupt : Kernel → Kernel
enable_interrupt k = record k { daif = bit_and k.daif (2 ^ 64 - 1 - 0x80) }

unfoldable pub start_tasks : Kernel → Run Kernel
start_tasks k = schedule (enable_interrupt (record k { scheduler_lock = unlocked }))

module _ (idle_task idle_stack idle_entry : Ptr) (user_main : Kernel → Run Kernel) where
  -- The part from the idle task on: with the first switch to a task `_os_init` is left for good.
  unfoldable pub start_system : Kernel → Run Kernel
  unfolding start_tasks
  start_system k = do
    (r, k1) ← create_task idle_task idle_stack 8096 idle_entry null lowest_priority k
    k2 ← user_main k1
    start_tasks k2

  unfoldable pub os_init : (answer : ℕ → ℕ → ℕ) (tick_hz freq : ℕ) → System → Run System
  unfolding start_system
  os_init answer tick_hz freq s =
      let s1 = init_parts answer tick_hz freq s in
      start_system s1.kernel >>= λ k. ok (record s1 { kernel = k })

-- The order of a wait queue by priority.
abbrev pub by_priority : ℕ
by_priority = 1

module _ (tcb1 tcb2 tcb3 stack1 stack2 stack3 task1 task2 task3 : Ptr) where
  -- `eos_user_main` of work_assignment4.c: the tasks are the sender and two receivers.
  unfoldable pub user_main : (mq1 mq2 queue1 queue2 : Ptr) → Kernel → Run Kernel
  user_main mq1 mq2 queue1 queue2 k = do
    (r1, k1) ← create_task tcb1 stack1 8096 task1 null 50 k
    (r2, k2) ← create_task tcb2 stack2 8096 task2 null 20 k1
    (r3, k3) ← create_task tcb3 stack3 8096 task3 null 10 k2
    let k4 = set_period tcb3 6 (set_period tcb2 4 (set_period tcb1 2 k3))
    ok (init_mqueue mq2 queue2 5 2 by_priority (init_mqueue mq1 queue1 5 2 by_priority k4))

  -- `eos_user_main3` of work_assignment3.c.
  unfoldable pub user_main3 : Kernel → Run Kernel
  user_main3 k = do
    (r1, k1) ← create_task tcb1 stack1 8096 task1 null 1 k
    (r2, k2) ← create_task tcb2 stack2 8096 task2 null 10 (set_period tcb1 2 k1)
    (r3, k3) ← create_task tcb3 stack3 8096 task3 null 50 (set_period tcb2 4 k2)
    ok (set_period tcb3 8 k3)
