-- ===== src/Cpu/Control/Inspect.antt =====
-- The `const` methods of `CPU` (emulator/src/cpu.cc) that the debugger looks at the processor with.
use anc.Base.{
  ℕ, zero, suc, ◌+◌, ◌-◌, ◌≤◌, ◌≡◌, refl, ap, ◌∙◌, inl, Bool, false, Option, none, some, List, [],
  ◌∷◌, arith, ltb, if◌then◌else◌, length, update,
}
use anc.Cpu.State.{Cpu}
use anc.Cpu.Status.{to_byte}
use anc.Cpu.Access.{max_mem}
use anc.Cpu.Control.{copy_bytes, load}
use mathlib.Core.Path.{ap₂}
use anc.Cpu.Control.Copy.{copy_outside}

pub record CpuInfo : Type 0 where
  pub reg : ℕ → ℕ
  pub mtu : ℕ → ℕ
  pub sr : ℕ
  pub sp : ℕ
  pub bp : ℕ
  pub pc : ℕ
  pub current_instruction : ℕ

unfoldable pub get_info : Cpu → CpuInfo
unfolding to_byte
get_info c = record {
  reg = c.reg;
  mtu = c.mtu;
  sr = to_byte c.sr;
  sp = c.sp;
  bp = c.bp;
  pc = c.pc;
  current_instruction = c.current_instruction;
}

pub record CpuDebugState : Type 0 where
  pub running : Bool
  pub halted : Bool
  pub instructions : ℕ
  pub stop_serial : ℕ
  pub breakpoint : Option ℕ
  pub temporary : Bool

unfoldable pub debug_state : Cpu → CpuDebugState
debug_state c = record {
  running = c.running;
  halted = c.killed;
  instructions = c.debug.instruction_count;
  stop_serial = c.debug.stop_serial;
  breakpoint = c.debug.breakpoint_hit;
  temporary = c.debug.temporary_hit;
}

abbrev pub list_breakpoints : Cpu → ℕ → Option Bool
list_breakpoints c = c.debug.breakpoints

unfoldable pub slice : ℕ → ℕ → (ℕ → ℕ) → List ℕ
slice zero at m = []
slice (suc size) at m = m at ∷ slice size (at + 1) m

-- `none` is the exception for a range beyond IMEM.
unfoldable pub memory : ℕ → ℕ → Cpu → Option (List ℕ)
unfolding slice
memory address size c =
    if ltb (max_mem - address) size then none else some (slice size address c.imem)

pub slice-copy_bytes :
    (xs : List ℕ) (at : ℕ) (m : ℕ → ℕ) → slice (length xs) at (copy_bytes xs at m) ≡ xs
unfolding slice copy_bytes
slice-copy_bytes [] at m = refl
slice-copy_bytes (x ∷ xs) at m =
    let here : update m at x at ≡ x = ground arith in
    let head = copy_outside xs (at + 1) (update m at x) at (inl (omega arith)) ∙ here in
    ap₂ (λ y ys. y ∷ ys) head (slice-copy_bytes xs (at + 1) (update m at x))

-- An image that ends at or below 0x10000 is loaded, and the debugger
-- reads back the image at its address.
pub memory-load :
    (image : List ℕ) (address : ℕ) (c : Cpu)
    → address + length image ≤ max_mem
    → (d : Cpu) × (load image address c ≡ some d) × (memory address (length image) d ≡ some image)
unfolding load memory
memory-load image address c fits =
    let room : ltb (max_mem - address) (length image) ≡ false = ground arith in
    (
      record c { imem = copy_bytes image address c.imem },
      rw room refl,
      rw room (ap some (slice-copy_bytes image address c.imem)),
    )
