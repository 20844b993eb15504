-- ===== src/Machine/Run.antt =====
-- The methods of `CPU` that run instructions: `step`, and a batch of `cycle`.
pub mod Compose
use anc.Base.{ℕ, true, false, not, ◌&&◌, List, [], ◌∷◌, if◌then◌else◌}
use anc.Cpu.Control.{before_step}
use anc.Machine.Bus.{Bus}
use anc.Machine.State.{Machine, update_cpu}
use anc.Machine.Step.{execute}

module _ {D : Type 0} (bus : Bus D) where
  unfoldable pub step : ℕ → Machine D → Machine D
  unfolding execute before_step
  step now m =
      let m' = update_cpu before_step m in if m'.cpu.killed then m' else execute bus false now m'

  -- One turn of the worker under the lock: at most a batch of instructions, at these clock readings.
  unfoldable pub batch : List ℕ → Machine D → Machine D
  unfolding execute
  batch [] m = m
  batch (now ∷ rest) m =
      let next = batch rest (execute bus true now m) in
      if m.cpu.running && not m.cpu.killed then next else m
