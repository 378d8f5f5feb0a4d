-- ===== src/Hal.antt =====
-- The board's registers and drivers of hal/.
pub mod Clock
pub mod Gpio
pub mod Uart
pub mod Nvic
