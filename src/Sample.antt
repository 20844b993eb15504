-- ===== src/Sample.antt =====
-- States and programs for the tests and the instances of theorems.
mod Examples
mod Peripherals
mod Files
mod Programs
mod Assembly
mod Tokens
mod Analysis
use anc.Base.{ℕ, ◌≡◌, refl, true, false, none, some, List, [], ◌∷◌, update}
use anc.Cpu.State.{Cpu, Debug}
use anc.Cpu.Status.{of_byte}
use anc.Cpu.Control.{copy_bytes, reset_mtu}
use anc.Cpu.Access.{rom_addr}
use anc.Cpu.Exc.{ok}
use anc.Machine.Bus.{Bus}
use anc.Machine.State.{Machine}
use anc.Machine.Run.{batch}
use anc.Machine.Step.{execute, pump}
use anc.Cpu.Boundary.{pins, at_breakpoint, count_instruction}
use anc.Cpu.Fetch.{fetch, decoded}
use anc.Machine.Io.{pump_keyboard, exec_io}
use anc.Cpu.Interrupt.{update_timer, caught}
use anc.Cpu.Access.{mapped, check, read, stack_address}
use anc.Cpu.Memory.{push, write, store_bytes}
use anc.Cpu.Alu.{assign, arith_into, sum_of, nz}
use anc.Cpu.Status.{keep_protected, to_byte, enter_system}
use anc.Cpu.Operand.{operand}
use anc.Cpu.Exec.{exec}
use anc.Isa.Opcode.{of_code, privileged}
use anc.Isa.Valid.{valid}
use anc.Isa.Encoding.{decode}

abbrev pub quiet : Debug
quiet = record {
  breakpoints = λ _. none;
  breakpoint_hit = none;
  resume_breakpoint = none;
  temporary_pc = none;
  temporary_sp = none;
  temporary_hit = false;
  instruction_count = 0;
  stop_serial = 0;
}

-- A processor after reset, over this memory.
abbrev pub fresh : (ℕ → ℕ) → Cpu
unfolding of_byte
fresh m = record {
  reg = λ _. 0;
  sr = of_byte 0x3c;
  sp = 0x3000;
  bp = 0x3000;
  pc = rom_addr;
  current_instruction = 0;
  imem = update (update m 0x0c 0x30) 0x0d 0;
  mtu = reset_mtu;
  cpuid = 0x8000;
  timer = 0;
  timer_running = false;
  timer_tick = 0;
  killed = false;
  running = true;
  reset_requested = false;
  shutdown_requested = false;
  failure = none;
  debug = quiet;
}

-- A bus with no device and no keyboard event.
abbrev pub empty_bus : Bus (Unit {0})
empty_bus = record {
  info_req = λ d a. 0xffff;
  is_rom = λ d a. false;
  read = λ d v a f w. (ok 0, d);
  write = λ d v a f w h. (ok tt, d);
  pending = λ d. 0;
  consume = λ d. d;
}

abbrev pub on_empty_bus : Cpu → Machine (Unit {0})
on_empty_bus c = record { cpu = c; emem = some tt }

-- `load r1, word 0x0012`, `add r1, word 0x0005`, `push r1`, `kill` at the boot address.
abbrev pub boot_program : List ℕ
boot_program = 0xc9 ∷ 0x3a ∷ 0 ∷ 0x12 ∷ 0xc9 ∷ 0x2f ∷ 0 ∷ 5 ∷ 9 ∷ 0x06 ∷ 0 ∷ 0 ∷ []

abbrev pub booted : Cpu
unfolding copy_bytes
booted = fresh (copy_bytes boot_program 0xff00 (λ _. 0))

-- All that a run computes with.
simulator : Unit {0}
unfolding pins pump_keyboard update_timer at_breakpoint caught mapped count_instruction check
    of_code valid decode privileged operand exec_io exec assign arith_into keep_protected sum_of nz
    push write store_bytes stack_address fetch decoded read to_byte enter_system execute
simulator = tt

after_boot : Machine (Unit {0})
unfolding batch
after_boot = batch empty_bus (1 ∷ 2 ∷ 3 ∷ 4 ∷ 5 ∷ 6 ∷ []) (on_empty_bus booted)

boot_runs :
    (after_boot.cpu.reg 1 ≡ 0x17)
    × (after_boot.cpu.imem 0x3001 ≡ 0x17)
    × (after_boot.cpu.killed ≡ true)
    × (after_boot.cpu.debug.instruction_count ≡ 4)
unfolding simulator after_boot copy_bytes of_byte pump
boot_runs = (refl, refl, refl, refl)

-- `push r1` in user mode, in memory of its own at 0x4000..0x4fff with its stack at 0x4100..0x41ff.
abbrev pub user_code : Cpu
unfolding of_byte copy_bytes
user_code = record (fresh (copy_bytes (9 ∷ 6 ∷ []) 0x4000 (λ _. 0))) {
  sr = of_byte 0;
  mtu = update (update (update (update reset_mtu 0 0x4000) 1 0x4fff) 4 0x4100) 5 0x41ff;
  sp = 0x100;
  bp = 0x100;
  pc = 0;
}
