-- ===== src/Lib.antt =====
-- The kernel of eOS for AArch64: eos_aarch64/core, and eos_aarch64/hal/aarch64 as far as it is C.
--
-- The kernel schedules tasks of 64 priorities on one core. A task is a TCB; a ready task stands in
-- the ready queue of its priority, and a bitmap of two levels tells which queues are not empty. A
-- task that waits stands in the queue of a semaphore or of a condition, or only in the queue of the
-- alarms of the system timer. Semaphores, conditions and message queues block and wake tasks through
-- the wait queues, the timer's interrupt wakes them through alarms. All these queues are circular
-- lists of the same kind of node. The kernel prints through its own `vsprintf` to the UART.
--
-- The files:
--   Base.antt           shared notation: Booleans, lists of addresses, the results of a run
--   NodeList.antt       the list of core/common.c (`_os_add_node_tail`, `_os_add_node_ordered`,
--                       `_os_remove_node`) over a memory of nodes; Chain says when a part of the
--                       memory is a ring that holds a list, Insert, Ordered and Remove are about the
--                       operations
--   Bitmap.antt         the ready bitmap of core/scheduler.c; Bytes is about single bits, Ready about
--                       the operations
--   Hal/Context.antt    `_os_create_context` of hal/aarch64/context.c; Dump is `print_context` and the
--                       dump of hal/aarch64/test.c
--   Hal/Device.antt     memory mapped registers: the writes, in order (hal/aarch64/mmio.h)
--   Hal/Gic.antt        the interrupt controller (hal/aarch64/interrupt.c); Lines is about its lines
--   Hal/Timer.antt      the hardware timer (hal/aarch64/timer.c); Reload is about its tick
--   Hal/Uart.antt       hal/aarch64/uart.c: `uart_put_dec`, in Line the registers and the bytes sent,
--                       in Serial `uart_put_hex` and `_os_serial_printf`
--   Kernel.antt         the kernel's state and the moves that the parts share, among them the
--                       interrupt mask (hal/aarch64/interrupt.c) and the spin lock
--                       (hal/aarch64/lock.c); Lists and Queues relate the state to the lists it holds
--   Task.antt           core/task.c, and the scheduler lock of core/scheduler.c; Invariant is the
--                       invariant of the tasks, Dispatch, Schedule, Ready, Moves, Wait, Wake,
--                       Alarm, Create and Priority are about the operations, Live is what holds
--                       between two calls
--   Timer.antt          core/timer.c, and `eos_sleep` of core/task.c; Alarms is about setting
--                       an alarm, Sleep about sleeping, Untouched, Fire, Expire and Tick about the
--                       alarms that are due, Sleepers and Pass about those of sleeping tasks
--   Sync.antt           core/sync.c; Acquire and Release are about semaphores
--   Comm.antt           core/comm.c; Ring says which messages a buffer holds
--   Interrupt.antt      core/interrupt.c, over a state of its own: Table is about the handlers, Copy
--                       about the copy of a context
--   Print.antt          `vsprintf`, `number` and `eos_printf` of core/common.c; Number is the printing
--                       of a number, Digits and Padding are about it, Format is the format string
--   Start.antt          core/init.c, and the set up of the tasks in user/work_assignment4.c and
--                       work_assignment3.c; Setup, Boot and User lead from reset to the first task
--   Calls.antt          calls of core/task.c, core/sync.c and core/comm.c and ticks of the timer in any
--                       order; Tasks, Waits, Times, Semaphores and Messages are about each call, Switch
--                       about the switch that ends one, Keep about what a move leaves alone, Reach
--                       about sequences
--   Program.antt        the tasks of user/work_assignment3.c, interleaved with each other and with ticks;
--                       Bound is about the number of alarms, Sleepers about runs from reset on
--   Tests.antt          runs at concrete inputs
--
-- A function of C is a function of the same name, without the prefix `eos_`, `_os_` or `hal_`, from
-- the state before to the state after. A pointer is a number, 0 is NULL, and a structure is a record
-- found at its address in a map of the state. A function that may read through NULL or may not come
-- back returns a `Run`: a result, a fault, or no end. An integer of w bits is a natural number with
-- the wrap written out, a signed one is its bit pattern.
--
-- A switch of context ends the run of a function: `eos_schedule` stores the context it hands to
-- `_os_restore_and_eret`, and what a blocked call does when its task is resumed is a function of its
-- own (`resume_acquire`, `end_wait`). `_os_save_context` is assembly; the address it returns is a
-- field of the state.
--
-- Some loops run on fuel. For the search of the ordered insertion the length of the list is
-- enough, for the alarms that are due one more than the alarms (five for the four tasks of a
-- program), for the two printers one more than the bytes of the format, which they take
-- themselves, and for a wait on the UART the number of reads within which the transmitter makes
-- room.
--
-- What a device answers when a register is read is a parameter, and so are the addresses that the linker
-- chooses, the frequency of the timer, and what a handler of an interrupt or of an alarm does that is
-- not the kernel's own.
--
-- A call is taken as one step up to the point where its task may lose the processor, and the timer ticks
-- between two such steps: a tick inside a call is not modelled.
--
-- Not modelled: the assembly (entry, vectors, saving and restoring a context), the linker script and
-- what the kernel and the tasks print about their own work, which is left out of the operations that
-- print it. A sequence of calls holds no wait for a semaphore with a time limit. The words of a stack
-- are changed only by the creation of its task: what the tasks keep on their stacks, and the context
-- that an interrupt copies there (which Interrupt.antt shows over a state of its own), are no part of
-- the kernel's state. That a task goes on behind its call when it is restored is the work of the
-- assembly; the programs in Program.antt take it so. The tasks of user/work_assignment4.c, which keep
-- what they receive on their stacks, are therefore not modelled.
pub mod Base
pub mod NodeList
pub mod Bitmap
pub mod Hal
pub mod Kernel
pub mod Task
pub mod Timer
pub mod Sync
pub mod Comm
pub mod Interrupt
pub mod Print
pub mod Start
pub mod Calls
pub mod Program
mod Tests
