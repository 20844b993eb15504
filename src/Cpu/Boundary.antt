-- ===== src/Cpu/Boundary.antt =====
-- What `execute` of emulator/src/cpu.cc does before the fetch: the control pins and the breakpoints.
pub mod Resume
use anc.Base.{
  ℕ, ◌+◌, ◌%◌, ◌^◌, Bool, true, false, not, ◌&&◌, ◌||◌, Option, none, some, ◌==◌, if◌then◌else◌,
}
use anc.Cpu.State.{Cpu}
use anc.Cpu.Status.{enter_system}
use anc.Cpu.Exc.{ok}
use anc.Cpu.Monad.{M, pure, ◌>>◌}
use anc.Cpu.Access.{raw_word}
use anc.Cpu.Interrupt.{interrupt}

-- The shutdown pin pushes no frame; with no vector it stops the processor. `true` tells the caller to
-- return.
unfoldable pub shutdown_pin : Cpu → Bool × Cpu
unfolding raw_word enter_system
shutdown_pin c =
    let c' = record c { shutdown_requested = false; reset_requested = false } in
    let target = raw_word c.imem 10 in
    if target == 0
    then (true, record c' { killed = true; running = false })
    else (false, record c' { sr = enter_system c.sr; pc = target })

-- The reset pin is a soft NMI with code 5.
unfoldable pub reset_pin : M Bool
reset_pin c = (interrupt 4 (some 5) >> pure false) (record c { reset_requested = false })

-- The control pins at an instruction boundary.
unfoldable pub pins : M Bool
unfolding shutdown_pin reset_pin
pins c =
    if c.shutdown_requested
    then (ok (shutdown_pin c).0, (shutdown_pin c).1)
    else if c.reset_requested
    then reset_pin c
    else (ok false, c)

abbrev pub is_at : Option ℕ → ℕ → Bool
is_at none a = false
is_at (some b) a = b == a

abbrev is_enabled : Option Bool → Bool
is_enabled none = false
is_enabled (some on) = on

abbrev allows : Option ℕ → ℕ → Bool
allows none sp = true
allows (some b) sp = b == sp

unfoldable pub persistent_hit : Cpu → Bool
persistent_hit c =
    is_enabled (c.debug.breakpoints c.pc) && not (is_at c.debug.resume_breakpoint c.pc)

unfoldable pub temporary_hit_at : Cpu → Bool
temporary_hit_at c = is_at c.debug.temporary_pc c.pc && allows c.debug.temporary_sp c.sp

unfoldable pub at_breakpoint : Cpu → Bool
unfolding persistent_hit temporary_hit_at
at_breakpoint c = persistent_hit c || temporary_hit_at c

-- The stop at a breakpoint.
unfoldable pub break_at : Cpu → Cpu
unfolding temporary_hit_at
break_at c =
    let temporary = temporary_hit_at c in
    record c {
      running = false;
      debug = record (c.debug) {
        breakpoint_hit = some c.pc;
        temporary_hit = temporary;
        stop_serial = (c.debug.stop_serial + 1) % 2 ^ 64;
        temporary_pc = if temporary then none else c.debug.temporary_pc;
        temporary_sp = if temporary then none else c.debug.temporary_sp;
      };
    }

unfoldable pub count_instruction : Cpu → Cpu
count_instruction c = record c {
  debug = record (c.debug) {
    resume_breakpoint = none;
    instruction_count = (c.debug.instruction_count + 1) % 2 ^ 64;
  };
}
