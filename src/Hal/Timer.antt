-- ===== src/Hal/Timer.antt =====
-- The generic timer: eos_aarch64/hal/aarch64/timer.c. The frequency that `CNTFRQ_EL0` holds is an
-- argument, and so is the rate of ticks TICK_HZ of the build.
pub mod Reload
use e_os_aarch64_hal.Base.{ℕ, ◌/◌, ◌%◌, ◌^◌, ◌==◌, if◌then◌else◌}
use e_os_aarch64_hal.Hal.Device.{Device}
use e_os_aarch64_hal.Hal.Gic.{enable_irq_line}

abbrev pub irq_cntp : ℕ
irq_cntp = 30

abbrev pub write_cntp_tval_el0 : ℕ → Device → Device
write_cntp_tval_el0 val d = record d { cntp_tval = val }

abbrev pub write_cntp_ctl_el0 : ℕ → Device → Device
write_cntp_ctl_el0 val d = record d { cntp_ctl = val }

-- The accessors of the registers: a read gives the low 32 bits.
abbrev pub read_cntp_ctl_el0 : Device → ℕ
read_cntp_ctl_el0 d = d.cntp_ctl % 2 ^ 32

abbrev pub read_cntp_tval_el0 : Device → ℕ
read_cntp_tval_el0 d = d.cntp_tval % 2 ^ 32

unfoldable pub timer_rearm : Device → Device
timer_rearm d = write_cntp_tval_el0 d.reload d

-- The cycles of a tick.
unfoldable pub reload_of : ℕ → ℕ → ℕ
reload_of tick_hz freq =
    if tick_hz == 0
    then freq % 2 ^ 32
    else (let r = freq / tick_hz % 2 ^ 32 in if r == 0 then 1 else r)

unfoldable pub init_hal : ℕ → ℕ → Device → Device
init_hal tick_hz freq d =
    let d1 = record d { reload = reload_of tick_hz freq } in
    let d2 = write_cntp_ctl_el0 0 d1 in
    let d3 = write_cntp_tval_el0 d2.reload d2 in
    let d4 = write_cntp_ctl_el0 1 d3 in enable_irq_line irq_cntp d4
