-- ===== src/Tests/Calls.antt =====
-- Sequences of calls, where task 1 runs and task 2 stands for the idle task.
use e_os_aarch64_hal.Base.{ℕ, ◌≡◌, refl, eq-cases, inl, arith}
use e_os_aarch64_hal.Base.Run.{Run, ok, fault}
use e_os_aarch64_hal.Kernel.{Kernel, enter_ready}
use e_os_aarch64_hal.Kernel.Lists.{Lists}
use e_os_aarch64_hal.Task.{change_priority, schedule}
use e_os_aarch64_hal.Task.Schedule.{Scheduled}
use e_os_aarch64_hal.Task.Priority.{prioritized, moved, change_priority-Scheduled}
use e_os_aarch64_hal.Task.Live.{IsLive}
use e_os_aarch64_hal.Calls.{Sound, perform, pause, change}
use e_os_aarch64_hal.Calls.Reach.{Reach, here, Reach-Sound, perform-returns}
use e_os_aarch64_hal.Tests.States.{one_ready, one_list, one_ready-IsValid}

change_priority-Scheduled_example :
    (s : Scheduled
      (prioritized one_ready 2 20)
      (moved one_ready one_list 2 20)
      (schedule (prioritized one_ready 2 20)))
    × (((prioritized one_ready 2 20).tcbs 2).priority ≡ 20)
    × (change_priority 2 20 one_ready ≡ ok s.after)
change_priority-Scheduled_example =
    change_priority-Scheduled one_ready one_list one_ready-IsValid 2 20 (omega arith)
      (unfold one_ready enter_ready in (omega arith))
      (unfold one_ready enter_ready in (omega arith))
      (unfold one_ready enter_ready in (omega arith)) (unfold one_ready enter_ready in refl)

one_ready-IsLive : IsLive 2 one_ready one_list
unfolding one_ready enter_ready
one_ready-IsLive = record {
  valid = one_ready-IsValid;
  open_lock = omega arith;
  free = refl;
  saved = omega arith;
  runs = refl;
  idles = inl refl;
}

one_ready-Sound : Sound 2 one_ready one_list
unfolding one_ready enter_ready
one_ready-Sound = (
  one_ready-IsLive,
  record {
    homes = λ t q i. absurd (ground (arith, eq-cases 6 q));
    sleepers = λ n i. absurd (ground arith);
    sorted = tt;
  },
)

-- No alarm has another handler, so what one would do is of no account.
abbrev other_handler : ℕ → ℕ → Kernel → Run Kernel
other_handler handler arg k = fault

sleeping_once :
    (b : Kernel) × (perform other_handler (pause 1 5) one_ready ≡ ok b)
    × Reach other_handler 2 one_ready b
sleeping_once =
    perform-returns other_handler 2 one_list one_list (pause 1 5) one_ready-Sound here
      one_ready-IsValid (unfold one_ready enter_ready in (omega arith), omega arith)

Reach-Sound_example : (qs : Lists) × Sound 2 sleeping_once.0 qs
Reach-Sound_example = Reach-Sound other_handler 2 one_list one_ready-Sound sleeping_once.2

perform-returns_example :
    (b : Kernel) × (perform other_handler (change 2 20) one_ready ≡ ok b)
    × Reach other_handler 2 one_ready b
perform-returns_example =
    perform-returns other_handler 2 one_list one_list (change 2 20) one_ready-Sound here
      one_ready-IsValid (omega arith, unfold one_ready enter_ready in (omega arith))
