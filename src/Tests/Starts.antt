-- ===== src/Tests/Starts.antt =====
-- The start of the system, with the idle task at 2 and the tasks at 5, 6 and 7.
use e_os_aarch64_hal.Base.{◌≡◌, refl, List, [], ◌∷◌, arith}
use e_os_aarch64_hal.Base.Run.{ok}
use e_os_aarch64_hal.Kernel.Lists.{Lists}
use e_os_aarch64_hal.Calls.{Sound}
use e_os_aarch64_hal.Start.{System, user_main, user_main3, os_init}
use e_os_aarch64_hal.Start.Boot.{IsReset}
use e_os_aarch64_hal.Start.User.{os_init-user_main}
use e_os_aarch64_hal.Program.{Layout, Event, tick, act}
use e_os_aarch64_hal.Kernel.{Kernel}
use e_os_aarch64_hal.Program.Bound.{OnlyFour}
use e_os_aarch64_hal.Program.Sleepers.{sleepers_run, os_init-sleepers}
use e_os_aarch64_hal.Tests.States.{start_state, blank}

abbrev power_on : System
power_on = record {
  kernel = record start_state { tcbs = λ t. blank; current_task = 0 };
  interrupts = record {
    icb_table = λ i. record { irqnum = 0; handler = 0; arg = 0 };
    words = λ a. 0;
    current = 0;
    sp = λ t. 0;
  };
  device = record { written = []; reads = 0; cntp_ctl = 0; cntp_tval = 0; reload = 0 };
}

power_on-IsReset : IsReset power_on.kernel
power_on-IsReset = record {
  heads = λ q. refl;
  links = λ n. refl;
  status = λ t. refl;
  free = refl;
  saved = omega arith;
}

os_init-user_main_example :
    (a : System) × (qs : Lists) × (os_init 2 8192 64
        (user_main 5 6 7 16384 24576 32768 80 96 112 200 300 400 500)
        (λ r n. 0)
        1
        62500000
        power_on
      ≡ ok a)
    × (a.kernel.current_task ≡ 7)
    × (qs 68 ≡ [])
    × Sound 2 a.kernel qs
os_init-user_main_example =
    os_init-user_main 2 5 6 7 16384 24576 32768 80 96 112 200 300 400 500 (omega arith)
      (omega arith) (omega arith) (omega arith) (omega arith) (omega arith) (omega arith)
      (omega arith) (omega arith) (omega arith) (omega arith) (omega arith) (omega arith)
      (omega arith) (omega arith) (λ r n. 0) 1 62500000 power_on power_on-IsReset 8192 64
      (omega arith) (omega arith) (omega arith)

abbrev layout : Layout
layout = record { idle = 2; tcb1 = 5; tcb2 = 6; tcb3 = 7 }

-- The third program: the first task sleeps for two ticks, while the others have their turns.
abbrev sleeper_events : List Event
sleeper_events = act ∷ act ∷ act ∷ tick ∷ tick ∷ act ∷ []

os_init-sleepers_example :
    (a : System) × (b : Kernel) × (rs : Lists) × (os_init 2 8192 64
        (user_main3 5 6 7 16384 24576 32768 80 96 112)
        (λ r n. 0)
        1
        62500000
        power_on
      ≡ ok a)
    × (sleepers_run (λ h x k. ok k) layout sleeper_events a.kernel ≡ ok b)
    × Sound 2 b rs
    × OnlyFour layout b
os_init-sleepers_example =
    os_init-sleepers layout 16384 24576 32768 80 96 112 (omega arith) (omega arith) (omega arith)
      (omega arith) (omega arith) (omega arith) (omega arith) (omega arith) (omega arith)
      (omega arith) (omega arith) (omega arith) (omega arith) (omega arith) (omega arith) (λ r n. 0)
      1 62500000 (λ h x k. ok k) power_on power_on-IsReset 8192 64 (omega arith) (omega arith)
      (omega arith) sleeper_events
