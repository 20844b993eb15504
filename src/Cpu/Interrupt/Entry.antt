-- ===== src/Cpu/Interrupt/Entry.antt =====
-- The state that interrupt entry leaves, in closed form: no push of it can fail.
use anc.Base.{
  ℕ, ◌+◌, ◌/◌, ◌≤◌, ◌≡◌, refl, ◌≢◌, true, false, ◌||◌, Option, none, some, arith, ltb, ◌==◌,
  if◌then◌else◌, u8, u16, update,
}
use anc.Cpu.State.{Cpu, unhandled, invalid_system_stack}
use anc.Cpu.Status.{to_byte, enter_system}
use anc.Cpu.Exc.{Exc, ok, fault, error}
use anc.Cpu.Access.{stack_address, check, raw_word}
use anc.Cpu.Memory.{push, write, store_bytes}
use anc.Cpu.Interrupt.{
  save_slots, interrupt, push_frame, push_code, enter, no_handler, invalid_system_stack,
  enter_system,
}

abbrev pub pushed : ℕ → ℕ → Cpu → Cpu
pushed v w c = record c { imem = store_bytes c.sp v w c.imem; sp = c.sp + w }

-- In system mode a push below the ROM succeeds.
pub push_lem :
    (v w : ℕ) (c : Cpu)
    → c.sr.system ≡ true
    → c.sp + w ≤ 0xff00
    → push v w c ≡ (ok tt, pushed v w c)
unfolding push stack_address write check
push_lem v w c s h = ground arith

abbrev pub coded : Option ℕ → Cpu → Cpu
coded none c = c
coded (some k) c = let d = pushed (u8 (c.reg 0)) 1 c in record d { reg = update d.reg 0 (u16 k) }

push_code_lem :
    (code : Option ℕ) (c : Cpu)
    → c.sr.system ≡ true
    → c.sp + 1 ≤ 0xff00
    → push_code code c ≡ (ok tt, coded code c)
unfolding push_code
push_code_lem none c s h = refl
push_code_lem (some k) c s h = rw (push_lem (u8 (c.reg 0)) 1 c s h) refl

-- PC, then SR, then the old L0 of an NMI.
abbrev pub framed : ℕ → ℕ → Option ℕ → ℕ → Cpu → Cpu
framed pc sr code target c = record (coded code (pushed sr 1 (pushed pc 2 c))) { pc = target }

push_frame_lem :
    (pc sr : ℕ) (code : Option ℕ) (target : ℕ) (c : Cpu)
    → c.sr.system ≡ true
    → c.sp + 4 ≤ 0xff00
    → push_frame pc sr code target c ≡ (ok tt, framed pc sr code target c)
unfolding push_frame
push_frame_lem pc sr code target c s h =
    rw
      (
        push_lem pc 2 c s (omega arith),
        push_lem sr 1 (pushed pc 2 c) s (omega arith),
        push_code_lem code (pushed sr 1 (pushed pc 2 c)) s (omega arith),
      )
      refl

enter_system_lem : (c : Cpu) → (enter c).sr.system ≡ true
unfolding enter enter_system
enter_system_lem c = refl

-- The three ways in which `interrupt` ends, by its own parts.
unfoldable pub interrupt_parts : ℕ → Option ℕ → Cpu → Exc (Unit {0}) × Cpu
interrupt_parts vector code c =
    if raw_word c.imem vector == 0
    then (ok tt, no_handler vector code c)
    else if ltb (enter c).sp 0x3000 || ltb 0x31f0 (enter c).sp
    then (error invalid_system_stack, enter c)
    else (ok tt, framed c.pc (to_byte c.sr) code (raw_word c.imem vector) (enter c))

pub interrupt-interrupt_parts :
    (vector : ℕ) (code : Option ℕ) (c : Cpu)
    → interrupt vector code c ≡ interrupt_parts vector code c
unfolding interrupt interrupt_parts
interrupt-interrupt_parts vector code c = ground (
  arith,
  enter_system_lem c,
  push_frame_lem c.pc (to_byte c.sr) code (raw_word c.imem vector) (enter c),
)

-- The two bytes of a word, at an address.
abbrev word_at : ℕ → ℕ → (ℕ → ℕ) → ℕ → ℕ
word_at a w m = update (update m a (u8 (w / 256))) (a + 1) (u8 w)

-- The old SP at 0x31fe, the old BP at 0x31fc.
abbrev with_slots : Cpu → ℕ → ℕ
with_slots c = word_at 0x31fc c.bp (word_at 0x31fe c.sp c.imem)

-- System mode with I and T clear, on the installed system stack.
abbrev entered : Cpu → Cpu
entered c = record c {
  imem = with_slots c;
  sr = record (c.sr) { system = true; external = false; timed = false };
  bp = 0x3000;
  sp = raw_word c.imem 0x0c;
}

-- PC, then SR, at the system stack pointer `s`.
abbrev with_frame : Cpu → ℕ → ℕ → ℕ
with_frame c s = update (word_at s c.pc (with_slots c)) (s + 2) (u8 (to_byte c.sr))

-- The handler's state: with a code, L0 is on the frame and R0 holds the code.
abbrev handling : ℕ → Option ℕ → ℕ → Cpu → Cpu
handling vector none s c = record (entered c) {
  imem = with_frame c s;
  sp = s + 3;
  pc = raw_word c.imem vector;
}
handling vector (some k) s c = record (entered c) {
  imem = update (with_frame c s) (s + 3) (u8 (c.reg 0));
  sp = s + 4;
  reg = update c.reg 0 (u16 k);
  pc = raw_word c.imem vector;
}

-- The end of an interrupt with the system stack pointer `s`.
unfoldable pub interrupt_result : ℕ → Option ℕ → ℕ → Cpu → Exc (Unit {0}) × Cpu
interrupt_result vector code s c =
    if raw_word c.imem vector == 0
    then (
      ok tt,
      record c { failure = some (unhandled vector code); killed = true; running = false },
    )
    else if ltb s 0x3000 || ltb 0x31f0 s
    then (error invalid_system_stack, entered c)
    else (ok tt, handling vector code s c)

-- With a vector of zero an interrupt halts the processor and notes the vector and the code. Else the
-- old SP and BP are in their slots, BP is 0x3000, SP the word at 0x0c and the mode is system, with I
-- and T clear; an SP outside 0x3000..0x31f0 is an error, and otherwise the frame (PC, SR, and L0 if
-- there is a code) is at SP, R0 holds the code if there is one, and PC is the vector.
pub interrupt_lem :
    (vector : ℕ) (code : Option ℕ) (c : Cpu)
    → interrupt vector code c ≡ interrupt_result vector code (raw_word c.imem 0x0c) c
unfolding interrupt_parts interrupt_result no_handler enter save_slots enter_system store_bytes
interrupt_lem vector none c = rw interrupt-interrupt_parts (ground arith)
interrupt_lem vector (some k) c = rw interrupt-interrupt_parts (ground arith)

-- Interrupt entry raises no `Fault`, whatever the state.
pub interrupt-ne-fault :
    (vector : ℕ) (code : Option ℕ) (c : Cpu) (k : ℕ) → (interrupt vector code c).0 ≢ fault k
interrupt-ne-fault vector code c k =
    rw interrupt-interrupt_parts (unfold interrupt_parts in ground arith)
