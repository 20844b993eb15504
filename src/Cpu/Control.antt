-- ===== src/Cpu/Control.antt =====
-- The public methods of `CPU` that run no instruction (emulator/src/cpu.cc): reset, loading, start
-- and stop, the control pins, and the debugger's breakpoints and edits.
pub mod Copy
pub mod Inspect
use anc.Base.{
  ℕ, ◌+◌, ◌-◌, Bool, true, false, ◌&&◌, ◌||◌, Option, none, some, List, [], ◌∷◌, ltb, leb, ◌==◌,
  if◌then◌else◌, length, update,
}
use anc.Cpu.State.{Cpu}
use anc.Cpu.Status.{of_byte}
use anc.Cpu.Access.{max_mem, rom_addr}
use anc.Cpu.Alu.{set_register}
use anc.Cpu.Exec.{jump_target}

-- The bounds after a reset, `{0, 0xfeff, 0, 0xffff, 0x3200, 0xfeff}`.
abbrev pub reset_mtu : ℕ → ℕ
reset_mtu i =
    if i == 1 || i == 5 then 0xfeff else if i == 3 then 0xffff else if i == 4 then 0x3200 else 0

-- `load_init_state` keeps the memory but for the system stack's default, the clock and the
-- breakpoints.
unfoldable pub load_init_state : Cpu → Cpu
unfolding of_byte
load_init_state c = record c {
  reg = λ _. 0;
  sr = of_byte 0x3c;
  pc = rom_addr;
  sp = 0x3000;
  bp = 0x3000;
  current_instruction = 0;
  killed = false;
  running = false;
  failure = none;
  mtu = reset_mtu;
  cpuid = 0x8000;
  timer = 0;
  timer_running = false;
  reset_requested = false;
  shutdown_requested = false;
  imem = update (update c.imem 0x0c 0x30) 0x0d 0;
  debug = record (c.debug) {
    breakpoint_hit = none;
    resume_breakpoint = none;
    temporary_pc = none;
    temporary_sp = none;
    temporary_hit = false;
    instruction_count = 0;
  };
}

-- `std::copy` into IMEM.
unfoldable pub copy_bytes : List ℕ → ℕ → (ℕ → ℕ) → ℕ → ℕ
copy_bytes [] at m = m
copy_bytes (b ∷ bs) at m = copy_bytes bs (at + 1) (update m at b)

-- `none` is the exception for an image that does not fit.
unfoldable pub load : List ℕ → ℕ → Cpu → Option Cpu
unfolding copy_bytes
load image address c =
    if ltb (max_mem - address) (length image)
    then none
    else some (record c { imem = copy_bytes image address c.imem })

-- The worker thread itself is not part of the state.
unfoldable pub start : Cpu → Cpu
start c = if c.killed then c else if c.running then c else record c {
  running = true;
  debug = record (c.debug) {
    resume_breakpoint = c.debug.breakpoint_hit;
    breakpoint_hit = none;
    temporary_hit = false;
  };
}

unfoldable pub stop : Cpu → Cpu
stop c = record c {
  running = false;
  debug = record (c.debug) { temporary_pc = none; temporary_sp = none };
}

unfoldable pub shutdown : Cpu → Cpu
shutdown c = record c { killed = true; running = false }

-- What `step` clears before it executes.
unfoldable pub before_step : Cpu → Cpu
before_step c = record c {
  running = false;
  debug = record (c.debug) {
    breakpoint_hit = none;
    temporary_pc = none;
    temporary_sp = none;
    temporary_hit = false;
    resume_breakpoint = none;
  };
}

unfoldable pub peek : ℕ → Cpu → ℕ
peek a c = c.imem a

unfoldable pub poke : ℕ → ℕ → Cpu → Cpu
poke a v c = record c { imem = update c.imem a v }

unfoldable pub request_soft_reset : Cpu → Cpu
request_soft_reset c = record c { reset_requested = true }

unfoldable pub request_shutdown : Cpu → Cpu
request_shutdown c = record c { shutdown_requested = true }

abbrev set_entry : (ℕ → Option Bool) → ℕ → Option Bool → ℕ → Option Bool
set_entry f a v b = if a == b then v else f b

unfoldable pub set_breakpoint : ℕ → Bool → Cpu → Cpu
set_breakpoint a enabled c = record c {
  debug = record (c.debug) { breakpoints = set_entry c.debug.breakpoints a (some enabled) };
}

-- The answer tells whether there was one.
unfoldable pub remove_breakpoint : ℕ → Cpu → Bool × Cpu
remove_breakpoint a c = (
  elim (c.debug.breakpoints a) [ none ↦ false | some on ↦ true ],
  record c { debug = record (c.debug) { breakpoints = set_entry c.debug.breakpoints a none } },
)

unfoldable pub clear_breakpoints : Cpu → Cpu
clear_breakpoints c = record c { debug = record (c.debug) { breakpoints = λ _. none } }

unfoldable pub run_until : ℕ → Option ℕ → Cpu → Cpu
unfolding start jump_target
run_until address stack c = start (record c {
  debug = record (c.debug) { temporary_pc = some (jump_target c address); temporary_sp = stack };
})

-- The names that `debug_set` accepts.
pub data Target : Type 0 where
  word_register byte_register : ℕ → Target
  pc_target sp_target bp_target sr_target other : Target

-- The register that is set; `none` is the exception, which leaves the state alone.
unfoldable pub debug_assign : Target → ℕ → Cpu → Option Cpu
unfolding set_register of_byte
debug_assign (word_register r) value c = if leb r 7 then some (set_register r value 2 c) else none
debug_assign (byte_register r) value c =
    if leb r 7 && leb value 0xff then some (set_register r value 1 c) else none
debug_assign pc_target value c = some (record c { pc = value })
debug_assign sp_target value c = some (record c { sp = value })
debug_assign bp_target value c = some (record c { bp = value })
debug_assign sr_target value c =
    if leb value 0xff then some (record c { sr = of_byte value }) else none
debug_assign other value c = none

unfoldable pub after_edit : Cpu → Cpu
after_edit c = record c {
  running = false;
  debug = record (c.debug) {
    breakpoint_hit = elim (c.debug.breakpoint_hit) [
      | none ↦ none
      | some a ↦ if a == c.pc then some a else none
    ];
    resume_breakpoint = none;
    temporary_pc = none;
    temporary_sp = none;
    temporary_hit = false;
  };
}

unfoldable pub debug_set : Target → ℕ → Cpu → Option Cpu
unfolding debug_assign after_edit
debug_set t value c = elim (debug_assign t value c) [ none ↦ none | some c' ↦ some (after_edit c') ]
