-- ===== src/Hal/Timer/Reload.antt =====
-- The tick of the timer.
use e_os_aarch64_hal.Base.{ℕ, ◌/◌, ◌^◌, ◌≤◌, ◌≡◌, ◌⊎◌, ◌≢◌, refl, arith, false, ◌==◌}
use e_os_aarch64_hal.Hal.Device.{Device}
use e_os_aarch64_hal.Hal.Gic.{enable_irq_line}
use e_os_aarch64_hal.Hal.Timer.{
  init_hal, reload_of, timer_rearm, read_cntp_ctl_el0, read_cntp_tval_el0, write_cntp_tval_el0,
}

-- With a rate of ticks above 0 the timer is left running, loaded with a tick of at least one and less
-- than 2 ^ 32 cycles, and rearming it loads the same tick again; the tick is the frequency divided by
-- the rate where that is positive and fits into 32 bits.
pub timer_rearm-init_hal :
    (tick_hz freq count : ℕ) (d : Device)
    → tick_hz ≢ 0
    → let a = init_hal tick_hz freq d in
      (read_cntp_ctl_el0 a ≡ 1)
      × (1 ≤ read_cntp_tval_el0 a)
      × (read_cntp_tval_el0 (timer_rearm (write_cntp_tval_el0 count a)) ≡ read_cntp_tval_el0 a)
      × ((read_cntp_tval_el0 a ≡ freq / tick_hz) ⊎ (freq / tick_hz ≡ 0) ⊎ (2 ^ 32 ≤ freq / tick_hz))
unfolding init_hal reload_of timer_rearm enable_irq_line
timer_rearm-init_hal tick_hz freq count d ne =
    let some_rate : (tick_hz == 0) ≡ false = ground arith in
    rw some_rate (refl, ground arith, refl, ground arith)
