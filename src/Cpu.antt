-- ===== src/Cpu.antt =====
-- The processor of emulator/src/cpu.cc.
pub mod Status
pub mod State
pub mod Exc
pub mod Monad
pub mod Access
pub mod Memory
pub mod Alu
pub mod Interrupt
pub mod Operand
pub mod Exec
pub mod Control
pub mod Frame
pub mod Boundary
pub mod Fetch
pub mod Rom
pub mod Confined
