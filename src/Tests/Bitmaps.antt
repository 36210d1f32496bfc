-- ===== src/Tests/Bitmaps.antt =====
-- The ready bitmap.
use e_os_aarch64_hal.Base.{◌≡◌, refl, ◌≤◌, ◌<◌, true, arith}
use e_os_aarch64_hal.Bitmap.{Bitmap, init_scheduler, set_ready, get_highest_priority}
use e_os_aarch64_hal.Bitmap.Ready.{
  IsValid, is_ready, init_scheduler-IsValid, is_ready-init_scheduler, set_ready-IsValid,
  get_highest_priority-least, get_highest_priority-empty,
}

abbrev start : Bitmap
start = init_scheduler (record { ready_group = 7; ready_table = λ y. y })

start-IsValid : IsValid start
start-IsValid = init_scheduler-IsValid _

-- Priorities 63 and 20 are ready.
two_ready : Bitmap
two_ready = set_ready 20 (set_ready 63 start)

two_ready-IsValid : IsValid two_ready
unfolding two_ready
two_ready-IsValid =
    set_ready-IsValid _ 20 (omega arith) (set_ready-IsValid _ 63 (omega arith) start-IsValid)

highest_example : get_highest_priority two_ready ≡ 20
unfolding two_ready get_highest_priority set_ready init_scheduler
highest_example = refl

two_ready-sixty_three : is_ready two_ready 63 ≡ true
unfolding two_ready set_ready init_scheduler
two_ready-sixty_three = refl

get_highest_priority-least_example :
    (is_ready two_ready (get_highest_priority two_ready) ≡ true)
    × (get_highest_priority two_ready ≤ 63)
    × (get_highest_priority two_ready < 64)
get_highest_priority-least_example =
    get_highest_priority-least two_ready 63 two_ready-IsValid (omega arith) two_ready-sixty_three

get_highest_priority-empty_example : get_highest_priority start ≡ 0
get_highest_priority-empty_example =
    get_highest_priority-empty start start-IsValid (is_ready-init_scheduler _)
