-- ===== src/Devices.antt =====
-- The devices on the external bus.
pub mod Keyboard
pub mod Mpme
pub mod Emem
pub mod Rom
