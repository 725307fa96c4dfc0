-- ===== src/Drivers.antt =====
-- TomatKernel/core/drivers: the PS/2 controller and the keyboard.
pub mod Ps2
pub mod Vbe
pub mod Keyboard
