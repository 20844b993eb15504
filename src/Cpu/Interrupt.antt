-- ===== src/Cpu/Interrupt.antt =====
-- Interrupt entry and the timer of emulator/src/cpu.cc: `interrupt`, `einr`, `update_timer`, and the
-- handlers of the exceptions that leave `execute`.
pub mod Entry
pub mod Response
pub mod Page
pub mod Timer
pub mod Nmi
use anc.Base.{
  ℕ, ◌+◌, ◌-◌, ◌*◌, ◌/◌, Bool, true, false, not, ◌||◌, Option, none, some, ltb, leb, ◌==◌,
  if◌then◌else◌, u8, u16, update,
}
use anc.Cpu.State.{Cpu, Failure, unhandled, invalid_system_stack, nmi_entry}
use anc.Cpu.Status.{to_byte, enter_system}
use anc.Cpu.Exc.{Exc, ok, fault, error}
use anc.Cpu.Monad.{M, pure, modify, ◌>>◌, ◌>>=◌, ◌>>◌}
use anc.Cpu.Access.{raw_word}
use anc.Cpu.Memory.{push}
use anc.Cpu.Alu.{set_register}

-- The old SP and BP in their slots.
unfoldable pub save_slots : Cpu → ℕ → ℕ
save_slots c =
    update
      (update (update (update c.imem 0x31fe (u8 (c.sp / 256))) 0x31ff (u8 c.sp)) 0x31fc
        (u8 (c.bp / 256)))
      0x31fd (u8 c.bp)

-- A vector of zero halts the processor.
unfoldable pub no_handler : ℕ → Option ℕ → Cpu → Cpu
no_handler vector code c = record c {
  failure = some (unhandled vector code);
  killed = true;
  running = false;
}

-- The state with the interrupted context saved, at the system stack.
unfoldable pub enter : Cpu → Cpu
unfolding save_slots enter_system raw_word
enter c = record c {
  imem = save_slots c;
  sr = enter_system c.sr;
  bp = 0x3000;
  sp = raw_word (save_slots c) 0x0c;
}

-- An NMI also saves L0, and passes its code in R0.
unfoldable pub push_code : Option ℕ → M (Unit {0})
push_code none = pure tt
push_code (some code) = do
  c ← (λ s. (ok s, s))
  push (u8 (c.reg 0)) 1
  modify λ s. record s { reg = update s.reg 0 (u16 code) }

-- What is pushed behind the check of the system stack pointer.
unfoldable pub push_frame : ℕ → ℕ → Option ℕ → ℕ → M (Unit {0})
unfolding push_code
push_frame saved_pc saved_sr code target = do
  push saved_pc 2
  push saved_sr 1
  push_code code
  modify λ s. record s { pc = target }

-- `none` is the default code of -1.
unfoldable pub interrupt : ℕ → Option ℕ → M (Unit {0})
interrupt vector code c =
    let target = raw_word c.imem vector in
    let c' = enter c in
    if target == 0
    then (ok tt, no_handler vector code c)
    else if ltb c'.sp 0x3000 || ltb 0x31f0 c'.sp
    then (error invalid_system_stack, c')
    else push_frame c.pc (to_byte c.sr) code target c'

-- The old R0, R1 and L2 go behind the frame; the new ones carry the address, the data and the type.
unfoldable pub answered : (ℕ → ℕ) → ℕ → ℕ → ℕ → M Bool
unfolding set_register
answered saved address payload kind = do
  push (saved 0) 2
  push (saved 1) 2
  push (u8 (saved 2)) 1
  modify λ s. set_register 2 kind 1 (record s { reg = update (update s.reg 0 address) 1 payload })
  pure true

-- The rest of `einr` once the interrupt is entered; `saved` are the registers before it.
unfoldable pub pass_response : (ℕ → ℕ) → ℕ → ℕ → ℕ → M Bool
unfolding answered
pass_response saved address payload kind c =
    if c.killed then (ok false, c) else answered saved address payload kind c

-- `catch (const std::exception &e)` of `einr`; a `Fault` passes through.
unfoldable pub catch_error : Exc Bool × Cpu → Exc Bool × Cpu
catch_error (error m, c) = (ok false, record c { failure = some m; killed = true })
catch_error (r, c) = (r, c)

unfoldable pub einr : ℕ → ℕ → ℕ → M Bool
unfolding pass_response catch_error
einr address payload kind c =
    if not c.sr.external || c.killed
    then (ok false, c)
    else catch_error ((interrupt 2 none >> pass_response c.reg address payload kind) c)

abbrev pub millisecond : ℕ
millisecond = 1_000_000

-- `now` is the reading of the steady clock.
unfoldable pub expire : M (Unit {0})
expire c =
    let c' = record c { timer = 0; timer_running = false } in
    if c.sr.timed then interrupt 8 none c' else (ok tt, c')

-- `elapsed` whole milliseconds have passed.
unfoldable pub count_down : ℕ → M (Unit {0})
unfolding expire
count_down elapsed c =
    let c' = record c { timer_tick = c.timer_tick + elapsed * millisecond } in
    if leb c.timer elapsed then expire c' else (ok tt, record c' { timer = c.timer - elapsed })

unfoldable pub update_timer : ℕ → M (Unit {0})
unfolding count_down
update_timer now c =
    let elapsed = (now - c.timer_tick) / millisecond in
    if not c.timer_running || elapsed == 0 then (ok tt, c) else count_down elapsed c

-- `failure = …; killed = true; running = false`.
unfoldable pub halt : Failure → Cpu → Cpu
halt m c = record c { failure = some m; killed = true; running = false }

-- The `try` inside the handler of a `Fault`.
unfoldable pub nmi_result : Exc (Unit {0}) × Cpu → Cpu
unfolding halt
nmi_result (ok _, c) = c
nmi_result (fault _, c) = halt nmi_entry c
nmi_result (error m, c) = halt m c

-- The handlers at the end of `execute`: a fault becomes an NMI at the instruction's PC.
unfoldable pub caught : ℕ → Exc (Unit {0}) × Cpu → Cpu
unfolding nmi_result halt
caught instruction_pc (ok _, c) = c
caught instruction_pc (fault k, c) =
    nmi_result (interrupt 4 (some k) (record c { pc = instruction_pc }))
caught instruction_pc (error m, c) = halt m c
