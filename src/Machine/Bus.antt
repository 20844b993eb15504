-- ===== src/Machine/Bus.antt =====
-- What the processor uses of `EmemMapper` (emulator/include/emem.hh): the devices' state `D` and the
-- synchronous transactions on it. `EmemMapper::request` and `pump_keyboard` call the processor back,
-- and are written with these in Machine/Io.antt.
use anc.Base.{ℕ, Bool}
use anc.Cpu.Exc.{Exc}

pub record Bus (D : Type 0) : Type 0 where
  pub info_req : D → ℕ → ℕ
  pub is_rom : D → ℕ → Bool
  -- The payload, the address, the A flag and the width.
  pub read : D → ℕ → ℕ → Bool → ℕ → Exc ℕ × D
  -- Behind these, whether the priority is high.
  pub write : D → ℕ → ℕ → Bool → ℕ → Bool → Exc (Unit {0}) × D
  -- The keyboard at its default address: its next event, 0 if none, and the end of its delivery.
  pub pending : D → ℕ
  pub consume : D → D
