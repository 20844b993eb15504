-- ===== src/Sample/Examples.antt =====
-- Instances of the theorems at concrete states.
use anc.Base.{
  ℕ, ◌+◌, ◌≤◌, ◌<◌, ◌≡◌, refl, ◌≢◌, ◌↔◌, ◌⊎◌, inl, inr, true, false, none, some, arith, ◌==◌,
  if◌then◌else◌, ◌+ℤ◌, ◌-ℤ◌, signed, out_of_range, update,
}
use anc.Sample.{fresh, booted, user_code, empty_bus, on_empty_bus, boot_program, simulator}
use anc.Cpu.State.{Cpu}
use anc.Cpu.Exc.{ok, fault}
use anc.Cpu.Status.{of_byte, enter_system}
use anc.Cpu.Access.{raw_word, read, check, stack_address}
use anc.Cpu.Memory.{push, write, pop}
use anc.Cpu.Memory.RoundTrip.{pop-push, read-write}
use anc.Cpu.Alu.{sum_of}
use anc.Cpu.Alu.Arith.{sum_of-add, sum_of-subtract}
use anc.Cpu.Interrupt.{einr, interrupt, update_timer, caught}
use anc.Cpu.Interrupt.Entry.{interrupt_result, interrupt_lem, interrupt-ne-fault}
use anc.Cpu.Interrupt.Response.{einr_result, einr_lem}
use anc.Cpu.Interrupt.Page.{SystemPage, interrupt-SystemPage}
use anc.Cpu.Interrupt.Nmi.{IsNmiFrame, caught-fault}
use anc.Cpu.Interrupt.Timer.{update_timer-update_timer}
use anc.Cpu.Exec.{call, ret, exec, jump_target}
use anc.Cpu.Operand.{Operand}
use anc.Cpu.Control.Inspect.{memory, memory-load}
use anc.Cpu.Alu.Compare.{jump_after_cmp}
use anc.Cpu.Exec.CallReturn.{ret-call}
use anc.Cpu.Fetch.{Fetched, fetch}
use anc.Cpu.Fetch.Facts.{IsFound}
use anc.Cpu.Fetch.Exact.{fetch-ok_iff}
use anc.Cpu.Boundary.{at_breakpoint, persistent_hit, break_at}
use anc.Cpu.Boundary.Resume.{start-break_at}
use anc.Cpu.Control.{copy_bytes, start, load}
use anc.Cpu.Rom.{SameRom}
use anc.Isa.Opcode.{Op}
use anc.Isa.Encoding.{Encoding, decode}
use anc.Isa.Laws.{IsEncoding, decode-IsEncoding}
use anc.Machine.Step.{run_instruction, execute}
use anc.Machine.Protection.{Sealed, run_instruction-Sealed, execute-SameRom}

run_instruction-Sealed_example :
    Sealed user_code (run_instruction empty_bus true 1 (on_empty_bus user_code)).cpu
unfolding of_byte user_code
run_instruction-Sealed_example =
    run_instruction-Sealed empty_bus true 1 (on_empty_bus user_code) refl

execute-SameRom_example : SameRom booted (execute empty_bus true 1 (on_empty_bus booted)).cpu
execute-SameRom_example = execute-SameRom empty_bus true 1 (on_empty_bus booted)

-- The NMI vector points at 0x8000.
abbrev with_nmi : Cpu
with_nmi = record booted { imem = update (update booted.imem 4 0x80) 5 0 }

caught-fault_example :
    ((caught 0xff00 (fault 2, with_nmi)).pc ≡ 0x8000)
    × ((caught 0xff00 (fault 2, with_nmi)).sr ≡ enter_system booted.sr)
    × ((caught 0xff00 (fault 2, with_nmi)).killed ≡ false)
    × IsNmiFrame with_nmi 0xff00 2 (caught 0xff00 (fault 2, with_nmi))
unfolding raw_word copy_bytes booted fresh
caught-fault_example =
    caught-fault with_nmi 0xff00 2 (omega arith) (omega arith) (omega arith) (omega arith)
      (omega arith) (omega arith) (omega arith)

ret-call_example :
    ((call 0x5000 booted).0 ≡ ok tt)
    × (ret (call 0x5000 booted).1
        ≡ (ok tt, record ((call 0x5000 booted).1) { sp = 0x3000; pc = 0xff00; sr = booted.sr }))
unfolding of_byte booted fresh
ret-call_example =
    ret-call 0x5000 booted (call 0x5000 booted).1 (omega arith) (omega arith, inl refl) refl refl
      refl (λ b lo hi. refl)

-- A processor in user mode that takes external interrupts, with a handler at 0x9000.
abbrev answering : Cpu
unfolding of_byte
answering = record booted { sr = of_byte 0x20; imem = update booted.imem 2 0x90 }

einr_lem_example : einr 7 8 1 answering ≡ einr_result 7 8 1 answering
einr_lem_example = einr_lem 7 8 1 answering

interrupt_lem_example :
    interrupt 6 none booted ≡ interrupt_result 6 none (raw_word booted.imem 0x0c) booted
interrupt_lem_example = interrupt_lem 6 none booted

interrupt-ne-fault_example : (interrupt 4 (some 3) with_nmi).0 ≢ fault 2
interrupt-ne-fault_example = interrupt-ne-fault 4 (some 3) with_nmi 2

interrupt-SystemPage_example : SystemPage with_nmi (interrupt 4 (some 3) with_nmi).1
interrupt-SystemPage_example = interrupt-SystemPage 4 (some 3) with_nmi

pop-push_example :
    pop 2 (push 0x1234 2 booted).1 ≡ (ok 0x1234, record ((push 0x1234 2 booted).1) { sp = 0x3000 })
unfolding push write check stack_address of_byte booted fresh
pop-push_example = pop-push 0x1234 2 booted (push 0x1234 2 booted).1 (inr refl) (omega arith) refl

read-write_example :
    (read (write 0x4000 0x1234 2 booted).1 0x4000 2 ≡ ok 0x1234)
    × ((b : ℕ)
        → (b < 0x4000) ⊎ (0x4002 ≤ b)
        → (write 0x4000 0x1234 2 booted).1.imem b ≡ booted.imem b)
unfolding write check of_byte booted fresh
read-write_example =
    read-write 0x4000 0x1234 2 booted (write 0x4000 0x1234 2 booted).1 (inr refl) (omega arith) refl

-- `cmp r1, byte` and a jump.
abbrev compare_byte : Encoding
compare_byte = decode 0x81

sum_of-add_example :
    ((sum_of 1 100 100 false).value + (if (sum_of 1 100 100 false).carry then 256 else 0) ≡ 200)
    × ((sum_of 1 100 100 false).overflow ≡ out_of_range 1 (signed 1 100 +ℤ signed 1 100))
    × (((sum_of 1 100 100 false).overflow ≡ true)
        ⊎ (signed 1 (sum_of 1 100 100 false).value ≡ signed 1 100 +ℤ signed 1 100))
sum_of-add_example = sum_of-add 1 100 100 (inl refl) (omega arith) (omega arith)

sum_of-subtract_example :
    ((sum_of 1 5 7 true).value + 7 ≡ 5 + (if (sum_of 1 5 7 true).carry then 256 else 0))
    × ((sum_of 1 5 7 true).overflow ≡ out_of_range 1 (signed 1 5 -ℤ signed 1 7))
    × (((sum_of 1 5 7 true).overflow ≡ true)
        ⊎ (signed 1 (sum_of 1 5 7 true).value ≡ signed 1 5 -ℤ signed 1 7))
sum_of-subtract_example = sum_of-subtract 1 5 7 (inl refl) (omega arith) (omega arith)

-- `load r1` of a word, at the boot address.
abbrev first_load : Fetched
first_load = record { op = Op.load; encoding = decode 0xc9; operands = 0xff02 }

first_fetch : (fetch booted).0 ≡ ok first_load
unfolding simulator copy_bytes of_byte booted fresh fetch
first_fetch = refl

fetch-ok_iff_example : ((fetch booted).0 ≡ ok first_load) ↔ IsFound booted first_load
fetch-ok_iff_example = fetch-ok_iff booted first_load

decode-IsEncoding_example : IsEncoding (decode 0xc9)
decode-IsEncoding_example = decode-IsEncoding 0xc9 (omega arith)

-- A timer of five milliseconds, with its interrupt enabled.
abbrev timing : Cpu
timing = record booted { timer = 5; timer_running = true }

update_timer-update_timer_example :
    update_timer 9_500_000 (update_timer 2_700_000 timing).1 ≡ update_timer 9_500_000 timing
unfolding booted fresh
update_timer-update_timer_example =
    update_timer-update_timer 2_700_000 9_500_000 timing refl (omega arith) (omega arith)
      (omega arith)

-- A breakpoint at the boot address.
abbrev watched : Cpu
watched = record booted {
  debug = record (booted.debug) { breakpoints = λ a. if a == 0xff00 then some true else none };
}

start-break_at_example : at_breakpoint (start (break_at watched)) ≡ false
unfolding at_breakpoint persistent_hit booted fresh
start-break_at_example = start-break_at watched refl refl

-- R1 holds -2, which `cmp r1, word 0x0005` compares with 5; the jumps go to 0x5000.
abbrev holding : Cpu
holding = record booted { reg = update booted.reg 1 0xfffe }

abbrev against : Operand
against = record { address = 0; payload = 5; has_address = false }

abbrev aim : Operand
aim = record { address = 0x5000; payload = 0; has_address = true }

abbrev compared : Cpu
compared = (exec 0 Op.cmp (decode 0xc9) against holding).1

jump_after_cmp_example :
    ((exec 0 Op.jls (decode 0x20) aim compared).1.pc ≡ 0x5000)
    × ((exec 0 Op.jge (decode 0x20) aim compared).1.pc ≡ 0xff00)
    × ((exec 0 Op.jgr (decode 0x20) aim compared).1.pc ≡ 0xff00)
    × ((exec 0 Op.jle (decode 0x20) aim compared).1.pc ≡ 0x5000)
    × ((exec 0 Op.jeq (decode 0x20) aim compared).1.pc ≡ 0xff00)
    × ((exec 0 Op.jne (decode 0x20) aim compared).1.pc ≡ 0x5000)
unfolding decode booted fresh of_byte jump_target
jump_after_cmp_example =
    jump_after_cmp 0 (decode 0xc9) (decode 0x20) against aim holding (inr refl) (omega arith)
      (omega arith)

memory-load_example :
    (d : Cpu) × (load boot_program 0xff00 booted ≡ some d)
    × (memory 0xff00 12 d ≡ some boot_program)
memory-load_example = memory-load boot_program 0xff00 booted (omega arith)
