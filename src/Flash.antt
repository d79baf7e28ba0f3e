-- ===== src/Flash.antt =====
-- platform/mcu: the flash drivers.
pub mod Area
pub mod Sectors
pub mod Stm32f4
pub mod Stm32f3
pub mod HalfWords
