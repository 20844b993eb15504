-- ===== src/Cpu/Alu.antt =====
-- Registers, flags and arithmetic of emulator/src/cpu.cc: `nz`, `set_register`, `restore_status`
-- and the `arith` and `assign` lambdas, the shifts and the parity of `execute`.
pub mod Arith
pub mod Compare
use anc.Base.{
  ℕ, zero, suc, ◌+◌, ◌-◌, ◌*◌, ◌/◌, ◌%◌, ◌^◌, Bool, not, xor, ◌&&◌, ltb, leb, ◌==◌, if◌then◌else◌,
  u8, u16, update,
}
use anc.Cpu.State.{Cpu}
use anc.Cpu.Status.{Status, keep_protected}

abbrev pub modulus : ℕ → ℕ
modulus width = if width == 1 then 256 else 65536

-- `value & sign`.
abbrev pub sign_bit : ℕ → ℕ → Bool
sign_bit width value = if width == 1 then value / 128 % 2 == 1 else value / 32768 % 2 == 1

unfoldable pub nz : ℕ → ℕ → Cpu → Cpu
nz value width c = record c {
  sr = record (c.sr) { negative = sign_bit width value; zeroed = value % modulus width == 0 };
}

unfoldable pub set_register : ℕ → ℕ → ℕ → Cpu → Cpu
set_register r value width c = record c {
  reg = update c.reg r (if width == 1 then c.reg r / 256 * 256 + u8 value else u16 value);
}

-- `assign` writes a register and the flags N and Z.
unfoldable pub assign : ℕ → ℕ → ℕ → Cpu → Cpu
unfolding nz set_register
assign r value width c = nz value width (set_register r value width c)

unfoldable pub restore_status : Status → Cpu → Cpu
unfolding keep_protected
restore_status saved c =
    let kept = if c.sr.system then saved else keep_protected c.sr saved in
    if c.sr.system && not kept.system
    then record c {
      pc = u16 (c.pc + 65536 - c.mtu 0);
      sp = u16 (c.sp + 65536 - c.mtu 0);
      bp = u16 (c.bp + 65536 - c.mtu 0);
      sr = kept;
    }
    else record c { sr = kept }

pub record Sum : Type 0 where
  pub value : ℕ
  pub overflow : Bool
  pub carry : Bool

-- `arith` on operands that are cut to the width. The sign bit of an `^` is the `xor` of the sign
-- bits.
unfoldable pub sum_of : ℕ → ℕ → ℕ → Bool → Sum
sum_of width l r subtract =
    let m = modulus width in
    let left = l % m in
    let right = r % m in
    let value = (if subtract then left + m - right else left + right) % m in
    record {
      value = value;
      overflow =
          (if subtract
            then xor (sign_bit width left) (sign_bit width right)
            else not (xor (sign_bit width left) (sign_bit width right)))
          && xor (sign_bit width left) (sign_bit width value);
      carry = if subtract then ltb left right else leb m (left + right);
    }

-- The flags that `arith` sets.
unfoldable pub arith_flags : ℕ → Sum → Cpu → Cpu
unfolding nz
arith_flags width s c =
    nz s.value width (record c { sr = record (c.sr) { overflow = s.overflow; carried = s.carry } })

-- `set_register(r, arith(left, right, subtract), width)`.
unfoldable pub arith_into : ℕ → ℕ → ℕ → ℕ → Bool → Cpu → Cpu
unfolding arith_flags set_register
arith_into r width left right subtract c =
    let s = sum_of width left right subtract in set_register r s.value width (arith_flags width s c)

-- The number of ones among the lowest bits, `std::popcount` of a 16-bit value.
unfoldable pub popcount : ℕ → ℕ → ℕ
popcount zero v = 0
popcount (suc n) v = v % 2 + popcount n (v / 2)

-- SHL and SHR. A shift by zero leaves C and the value alone.
unfoldable pub shift_carry : Bool → ℕ → ℕ → ℕ → Bool
shift_carry to_left bits left n =
    leb n bits && (if to_left then left / 2 ^ (bits - n) % 2 == 1 else left / 2 ^ (n - 1) % 2 == 1)

unfoldable pub shift_value : Bool → ℕ → ℕ → ℕ → ℕ
shift_value to_left bits left n =
    if leb bits n then 0 else if to_left then u16 (left * 2 ^ n) else left / 2 ^ n

unfoldable pub shift : Bool → ℕ → ℕ → ℕ → ℕ → Cpu → Cpu
unfolding shift_carry shift_value set_register
shift to_left r width left n c =
    let bits = width * 8 in
    if n == 0
    then set_register r left width c
    else set_register r (shift_value to_left bits left n) width
        (record c { sr = record (c.sr) { carried = shift_carry to_left bits left n } })
