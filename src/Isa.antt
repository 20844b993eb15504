-- ===== src/Isa.antt =====
-- The instruction set of common/encoding.hh.
pub mod Opcode
pub mod Encoding
pub mod Valid
pub mod Laws
