-- ===== src/Tests.antt =====
-- Concrete runs of the model, and each theorem with hypotheses at an input that meets them.
mod Lists
mod Bitmaps
mod States
mod Tasks
mod Alarms
mod Semaphores
mod Messages
mod Machine
mod Prints
mod Calls
mod Starts
mod Devices
