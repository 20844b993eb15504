-- ===== src/Asm.antt =====
-- The last pass of the assembler, assembler/include/assembler.hh, on what the analyzer leaves: syntax
-- trees, labels and instructions with their addressing modes.
pub mod Comments
pub mod Lexer
pub mod Tree
pub mod Eval
pub mod Encode
pub mod Dump
pub mod Size
pub mod Gives
pub mod Modes
pub mod Analyze
