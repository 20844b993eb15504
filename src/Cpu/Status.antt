-- ===== src/Cpu/Status.antt =====
-- The status register of emulator/src/cpu.cc: the byte `sr` as its eight flags, under the masks
-- N = 0x80, O = 0x40, I = 0x20, T = 0x10, S = 8, A = 4, Z = 2, C = 1.
pub mod Laws
use anc.Base.{ℕ, ◌+◌, ◌*◌, ◌/◌, ◌%◌, Bool, true, false, ◌==◌, if◌then◌else◌}

pub record Status : Type 0 where
  pub negative : Bool
  pub overflow : Bool
  pub external : Bool
  pub timed : Bool
  pub system : Bool
  pub additional : Bool
  pub zeroed : Bool
  pub carried : Bool

abbrev pub bit : Bool → ℕ
bit b = if b then 1 else 0

-- The byte that the register is stored as.
unfoldable pub to_byte : Status → ℕ
to_byte s =
    128 * bit s.negative
    + 64 * bit s.overflow
    + 32 * bit s.external
    + 16 * bit s.timed
    + 8 * bit s.system
    + 4 * bit s.additional
    + 2 * bit s.zeroed
    + bit s.carried

unfoldable pub of_byte : ℕ → Status
of_byte b = record {
  negative = b / 128 % 2 == 1;
  overflow = b / 64 % 2 == 1;
  external = b / 32 % 2 == 1;
  timed = b / 16 % 2 == 1;
  system = b / 8 % 2 == 1;
  additional = b / 4 % 2 == 1;
  zeroed = b / 2 % 2 == 1;
  carried = b % 2 == 1;
}

-- `(saved & ~(S | I | T)) | (sr & (S | I | T))`: the flags that user code may not change are kept.
unfoldable pub keep_protected : Status → Status → Status
keep_protected sr saved = record saved {
  system = sr.system;
  external = sr.external;
  timed = sr.timed;
}

-- `(sr | S) & ~(I | T)`.
unfoldable pub enter_system : Status → Status
enter_system sr = record sr { system = true; external = false; timed = false }
