-- ===== src/Machine.antt =====
-- The processor on its bus.
pub mod Bus
pub mod State
pub mod Io
pub mod Step
pub mod Run
pub mod Frame
pub mod Protection
