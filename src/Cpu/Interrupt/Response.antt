-- ===== src/Cpu/Interrupt/Response.antt =====
-- The state that `einr` leaves, in closed form: the interrupt frame with the old R0, R1 and L2 on it.
use anc.Base.{
  ℕ, ◌+◌, ◌≤◌, ◌≡◌, refl, Bool, true, false, not, ◌||◌, none, some, arith, ltb, ◌==◌, if◌then◌else◌,
  u8, update,
}
use anc.Cpu.State.{Cpu, invalid_system_stack}
use anc.Cpu.Status.{to_byte, enter_system}
use anc.Cpu.Exc.{Exc, ok}
use anc.Cpu.Access.{raw_word}
use anc.Cpu.Alu.{set_register}
use anc.Cpu.Interrupt.{
  einr, answered, pass_response, catch_error, enter, no_handler, enter_system, invalid_system_stack,
}
use anc.Cpu.Interrupt.Entry.{pushed, push_lem, framed, interrupt_parts, interrupt-interrupt_parts}

abbrev pub responded : (ℕ → ℕ) → ℕ → ℕ → ℕ → Cpu → Cpu
responded saved address payload kind c =
    let d = pushed (u8 (saved 2)) 1 (pushed (saved 1) 2 (pushed (saved 0) 2 c)) in
    set_register 2 kind 1 (record d { reg = update (update d.reg 0 address) 1 payload })

answered_lem :
    (saved : ℕ → ℕ) (address payload kind : ℕ) (c : Cpu)
    → c.sr.system ≡ true
    → c.sp + 5 ≤ 0xff00
    → answered saved address payload kind c ≡ (ok true, responded saved address payload kind c)
unfolding answered
answered_lem saved address payload kind c s h =
    rw
      (
        push_lem (saved 0) 2 c s (omega arith),
        push_lem (saved 1) 2 (pushed (saved 0) 2 c) s (omega arith),
        push_lem (u8 (saved 2)) 1 (pushed (saved 1) 2 (pushed (saved 0) 2 c)) s (omega arith),
      )
      refl

-- The frame of an external interrupt, at vector 2.
abbrev pub external_frame : Cpu → Cpu
external_frame c = framed c.pc (to_byte c.sr) none (raw_word c.imem 2) (enter c)

-- `einr` refuses, halts the processor, or hands the response over.
unfoldable pub einr_result : ℕ → ℕ → ℕ → Cpu → Exc Bool × Cpu
einr_result address payload kind c =
    if not c.sr.external || c.killed
    then (ok false, c)
    else if raw_word c.imem 2 == 0
    then (ok false, no_handler 2 none c)
    else if ltb (enter c).sp 0x3000 || ltb 0x31f0 (enter c).sp
    then (ok false, record (enter c) { failure = some invalid_system_stack; killed = true })
    else (ok true, responded c.reg address payload kind (external_frame c))

framed_facts :
    (c : Cpu)
    → ((external_frame c).sr.system ≡ true)
      × ((external_frame c).killed ≡ c.killed)
      × ((external_frame c).sp ≡ (enter c).sp + 3)
unfolding enter enter_system
framed_facts c = (refl, refl, omega arith)

no_handler_killed : (c : Cpu) → (no_handler 2 none c).killed ≡ true
unfolding no_handler
no_handler_killed c = refl

-- `einr` refuses while external interrupts are masked or the processor is halted, halts the processor
-- without a handler or a valid system stack, and otherwise pushes the frame and the old R0, R1 and L2,
-- and hands over the address, the data and the type.
pub einr_lem :
    (address payload kind : ℕ) (c : Cpu)
    → einr address payload kind c ≡ einr_result address payload kind c
unfolding einr einr_result interrupt_parts catch_error pass_response
einr_lem address payload kind c = rw interrupt-interrupt_parts (
    ground (
      arith,
      no_handler_killed c,
      framed_facts c,
      answered_lem c.reg address payload kind (external_frame c),
    ))
