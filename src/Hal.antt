-- ===== src/Hal.antt =====
-- The hardware abstraction layer, eos_aarch64/hal/aarch64.
pub mod Context
pub mod Uart
pub mod Device
pub mod Gic
pub mod Timer
