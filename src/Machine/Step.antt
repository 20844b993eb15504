-- ===== src/Machine/Step.antt =====
-- `CPU::execute` of emulator/src/cpu.cc.
use anc.Base.{ℕ, Bool, true, false, ◌&&◌, Option, none, some, if◌then◌else◌}
use anc.Cpu.Exc.{Exc, ok, fault, error}
use anc.Cpu.Interrupt.{update_timer, caught}
use anc.Cpu.Operand.{operand, Operand}
use anc.Cpu.Boundary.{pins, at_breakpoint, break_at, count_instruction}
use anc.Cpu.Fetch.{Fetched, fetch}
use anc.Machine.Bus.{Bus}
use anc.Machine.State.{Machine, Act, on_cpu, update_cpu, ◌>>=◌, ◌>>◌}
use anc.Machine.Io.{exec_io, pump_keyboard}

module _ {D : Type 0} (bus : Bus D) where
  -- No address is ROM if no mapper is attached.
  unfoldable pub rom_test : Option D → ℕ → Bool
  rom_test none a = false
  rom_test (some d) a = bus.is_rom d a

  unfoldable pub operate : ℕ → Fetched → Exc Operand → Act D (Unit {0})
  operate now f (ok x) m = exec_io bus f.op f.encoding x m.emem now m
  operate now f (fault k) m = (fault k, m)
  operate now f (error e) m = (error e, m)

  unfoldable pub perform : ℕ → Fetched → Act D (Unit {0})
  unfolding rom_test operate
  perform now f m = operate now f (operand m.cpu f.encoding f.op (rom_test m.emem) f.operands) m

  -- From the fetch to the end of the switch.
  unfoldable pub instruction : ℕ → Act D (Unit {0})
  unfolding fetch perform
  instruction now = do f ← on_cpu fetch; perform now f

  unfoldable pub pump : Option D → Act D (Unit {0})
  pump none m = (ok tt, m)
  pump (some d) m = if m.cpu.killed then (ok tt, m) else pump_keyboard bus d m

  -- The rest of the boundary once the pins are served.
  unfoldable pub attend : ℕ → Bool → Act D Bool
  attend now true = λ m. (ok true, m)
  attend now false = do (λ m. pump m.emem m); on_cpu (update_timer now); (λ m. (ok m.cpu.killed, m))

  -- What comes before the breakpoints: the pins, the keyboard and the timer. `true` ends the call.
  unfoldable pub boundary : ℕ → Act D Bool
  unfolding attend
  boundary now = on_cpu pins >>= attend now

  -- The handlers, for an exception from the code behind the boundary.
  unfoldable pub finish : ℕ → Exc (Unit {0}) × Machine D → Machine D
  finish instruction_pc (r, m) = update_cpu (λ c. caught instruction_pc (r, c)) m

  unfoldable pub run_instruction : Bool → ℕ → Machine D → Machine D
  unfolding instruction finish
  run_instruction honor now m =
      if honor && at_breakpoint m.cpu
      then update_cpu break_at m
      else finish m.cpu.pc (instruction now (update_cpu count_instruction m))

  unfoldable pub after_boundary : Bool → ℕ → ℕ → Exc Bool × Machine D → Machine D
  unfolding run_instruction finish
  after_boundary honor now entry_pc (ok true, m) = m
  after_boundary honor now entry_pc (ok false, m) = run_instruction honor now m
  after_boundary honor now entry_pc (fault k, m) = finish entry_pc (fault k, m)
  after_boundary honor now entry_pc (error e, m) = finish entry_pc (error e, m)

  -- `execute(honor_breakpoints)` at the clock reading `now`.
  unfoldable pub execute : Bool → ℕ → Machine D → Machine D
  unfolding boundary after_boundary
  execute honor now m = after_boundary honor now m.cpu.pc (boundary now m)
