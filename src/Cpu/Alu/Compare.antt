-- ===== src/Cpu/Alu/Compare.antt =====
-- CMP and the conditional jumps behind it, against the order of the numbers compared.
use anc.Base.{
  ℕ, ◌%◌, ◌<◌, ◌≡◌, refl, ap, ◌∙◌, Bool, true, false, not, xor, ◌&&◌, ◌||◌, arith, ltb, ◌==◌,
  if◌then◌else◌, signed, ltb_ℤ, IsWidth, at_width,
}
use mathlib.Core.Path.{ap₂}
use anc.Cpu.State.{Cpu}
use anc.Cpu.Alu.{sum_of, modulus, arith_flags, nz, sign_bit, Sum}
use anc.Cpu.Exec.{exec, jump, jump_target}
use anc.Cpu.Operand.{Operand, register_value}
use anc.Isa.Encoding.{Encoding}
use anc.Isa.Opcode.{Op}

abbrev Compares : ℕ → Type 0
Compares width =
    (l r : ℕ)
    → l < modulus width
    → r < modulus width
    → let s = sum_of width l r true in
      (xor (sign_bit width s.value) s.overflow ≡ ltb_ℤ (signed width l) (signed width r))
      × ((s.value % modulus width == 0) ≡ (l == r))
      × (s.carry ≡ ltb l r)

compare_bytes : Compares 1
unfolding sum_of
compare_bytes l r hl hr = (ground arith, ground arith, ground arith)

compare_words : Compares 2
unfolding sum_of
compare_words l r hl hr = (ground arith, ground arith, ground arith)

pub compares :
    (width l r : ℕ)
    → IsWidth width
    → l < modulus width
    → r < modulus width
    → let s = sum_of width l r true in
      (xor (sign_bit width s.value) s.overflow ≡ ltb_ℤ (signed width l) (signed width r))
      × ((s.value % modulus width == 0) ≡ (l == r))
      × (s.carry ≡ ltb l r)
compares width l r w hl hr = at_width Compares compare_bytes compare_words width w l r hl hr

jump_pc :
    (b : Bool) (a : ℕ) (c : Cpu) (width : ℕ) (s : Sum)
    → (if b then jump a (arith_flags width s c) else arith_flags width s c).pc
      ≡ (if b then jump_target c a else c.pc)
unfolding jump jump_target arith_flags
jump_pc true a c width s = refl
jump_pc false a c width s = refl

-- After CMP of two operands of its width, JLS, JGE, JGR, JLE, JEQ and JNE jump exactly when the first,
-- read as a signed number, is less than, at least, greater than, at most, equal to or unequal to the
-- second; otherwise PC stays.
pub jump_after_cmp :
    (now : ℕ) (e f : Encoding) (x y : Operand) (c : Cpu)
    → IsWidth e.width
    → register_value e.width e.reg c < modulus e.width
    → x.payload < modulus e.width
    → let d = (exec now Op.cmp e x c).1 in
      let left = register_value e.width e.reg c in
      let less = ltb_ℤ (signed e.width left) (signed e.width x.payload) in
      let same = left == x.payload in
      let taken = λ (b : Bool). if b then jump_target c y.address else c.pc in
      ((exec now Op.jls f y d).1.pc ≡ taken less)
      × ((exec now Op.jge f y d).1.pc ≡ taken (not less))
      × ((exec now Op.jgr f y d).1.pc ≡ taken (not less && not same))
      × ((exec now Op.jle f y d).1.pc ≡ taken (less || same))
      × ((exec now Op.jeq f y d).1.pc ≡ taken same)
      × ((exec now Op.jne f y d).1.pc ≡ taken (not same))
unfolding exec arith_flags nz
jump_after_cmp now e f x y c w hl hr =
    let k = compares e.width (register_value e.width e.reg c) x.payload w hl hr in
    let s = sum_of e.width (register_value e.width e.reg c) x.payload true in
    let at = λ (b : Bool). jump_pc b y.address c e.width s in
    let go = λ (b : Bool). if b then jump_target c y.address else c.pc in
    (
      at _ ∙ ap go k.0,
      at _ ∙ ap (λ (b : Bool). go (not b)) k.0,
      at _ ∙ ap₂ (λ (a b : Bool). go (not a && not b)) k.0 k.1,
      at _ ∙ ap₂ (λ (a b : Bool). go (a || b)) k.0 k.1,
      at _ ∙ ap go k.1,
      at _ ∙ ap (λ (b : Bool). go (not b)) k.1,
    )
