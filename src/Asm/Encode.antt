-- ===== src/Asm/Encode.antt =====
-- `build_addressing_mode` and `get_arguments` of assembler/include/assembler.hh.
pub mod Byte
pub mod Length
use anc.Base.Int.{pos, negsuc}
use anc.Asm.Eval.{Evaluated, Stoi, negated, and_value, Place, evaluated, eval_expression}
use anc.Asm.Tree.{AddressingMode, Ast, Instruction, Environment, text_of}
use anc.Base.{
  ℕ, ◌+◌, ◌-◌, ◌*◌, ◌/◌, ◌%◌, bit_or, Bool, true, false, ◌&&◌, Option, none, some, List, [], ◌∷◌,
  ◌++◌, ◌==◌, if◌then◌else◌, get_elem?, ℤ, u8,
}

abbrev pub word_s : ℕ
word_s = 2

abbrev pub byte_s : ℕ
byte_s = 1

-- A character of a token's value, 0 behind the end and where there is no token.
abbrev pub char_at : Option Ast → ℕ → ℕ
char_at none i = 0
char_at (some a) i = elim (get_elem? (text_of a) i) [ none ↦ 0 | some c ↦ c ]

-- `value[1] - '0'`, in the eight bits that are kept of it.
abbrev pub number_of : Option Ast → ℕ
number_of a = (char_at a 1 + 208) % 256

abbrev pub is_low : Option Ast → Bool
is_low a = char_at a 0 == 108

abbrev pub mode_bits : AddressingMode → Instruction → ℕ
mode_bits AddressingMode.implied_mode ins = 0
mode_bits AddressingMode.immediate_byte ins = 8
mode_bits AddressingMode.immediate_word ins = 16
mode_bits AddressingMode.register_access_mode ins =
    bit_or (if char_at ins.op1 0 == 114 then 1 else 2) (number_of ins.op1 * 8)
mode_bits AddressingMode.register_to_register_mode ins =
    bit_or (bit_or 0x40 (number_of ins.op1 * 8)) (number_of ins.op2)
mode_bits AddressingMode.memory_absolute ins = 0x80
mode_bits AddressingMode.memory_absolute_indexed ins = bit_or 0x81 (number_of ins.index * 8)
mode_bits AddressingMode.memory_indirect ins = 0x82
mode_bits AddressingMode.memory_indirect_indexed ins = bit_or 0x83 (number_of ins.index * 8)
mode_bits AddressingMode.memory_relative_to_pc ins = 0x84
mode_bits AddressingMode.memory_relative_to_pc_with_register ins =
    bit_or 0x85 (number_of ins.index * 8)
mode_bits AddressingMode.memory_relative_to_bp ins = 0x8c
mode_bits AddressingMode.memory_relative_to_bp_with_register ins =
    bit_or 0x86 (number_of ins.index * 8)
mode_bits AddressingMode.immediate_to_memory_absolute ins =
    if ins.addr_mode_size == word_s + word_s then 0x0e else 0x06
mode_bits AddressingMode.immediate_to_memory_absolute_indexed ins =
    bit_or 0x07 (number_of ins.index * 8)
mode_bits AddressingMode.immediate_to_memory_relative_to_bp ins =
    if ins.addr_mode_size == word_s + byte_s then 0x0b else 0x03
mode_bits AddressingMode.immediate_to_memory_relative_to_bp_with_register ins =
    bit_or (if ins.addr_mode_size == word_s then 0x05 else 0x04) (number_of ins.index * 8)
mode_bits AddressingMode.register_to_memory_absolute ins =
    bit_or (if is_low ins.op2 then 0xc4 else 0xc0) (number_of ins.op2 * 8)
mode_bits AddressingMode.memory_absolute_to_register ins =
    bit_or (if is_low ins.op1 then 0xc4 else 0xc0) (number_of ins.op1 * 8)
mode_bits AddressingMode.immediate_to_register ins =
    bit_or (if is_low ins.op1 then 0xc5 else 0xc1) (number_of ins.op1 * 8)
mode_bits AddressingMode.register_to_memory_relative_to_pc ins =
    bit_or (if is_low ins.op2 then 0xc6 else 0xc2) (number_of ins.op2 * 8)
mode_bits AddressingMode.memory_relative_to_pc_to_register ins =
    bit_or (if is_low ins.op1 then 0xc6 else 0xc2) (number_of ins.op1 * 8)
mode_bits AddressingMode.register_to_memory_relative_to_bp ins =
    bit_or (if is_low ins.op1 then 0xc7 else 0xc3) (number_of ins.op1 * 8)
mode_bits AddressingMode.memory_relative_to_bp_to_register ins =
    bit_or (if is_low ins.op1 then 0xc7 else 0xc3) (number_of ins.op1 * 8)
mode_bits _ ins = 0

abbrev pub is_there : Option Ast → Bool
is_there none = false
is_there (some a) = true

-- The operands that `build_addressing_mode` reads.
abbrev pub has_operands : AddressingMode → Instruction → Bool
has_operands AddressingMode.register_access_mode ins = is_there ins.op1
has_operands AddressingMode.register_to_register_mode ins = is_there ins.op1 && is_there ins.op2
has_operands AddressingMode.memory_absolute_indexed ins = is_there ins.index
has_operands AddressingMode.memory_indirect_indexed ins = is_there ins.index
has_operands AddressingMode.memory_relative_to_pc_with_register ins = is_there ins.index
has_operands AddressingMode.memory_relative_to_bp_with_register ins = is_there ins.index
has_operands AddressingMode.immediate_to_memory_absolute_indexed ins = is_there ins.index
has_operands AddressingMode.immediate_to_memory_relative_to_bp_with_register ins =
    is_there ins.index
has_operands AddressingMode.register_to_memory_absolute ins = is_there ins.op2
has_operands AddressingMode.memory_absolute_to_register ins = is_there ins.op1
has_operands AddressingMode.immediate_to_register ins = is_there ins.op1
has_operands AddressingMode.register_to_memory_relative_to_pc ins = is_there ins.op2
has_operands AddressingMode.memory_relative_to_pc_to_register ins = is_there ins.op1
has_operands AddressingMode.register_to_memory_relative_to_bp ins = is_there ins.op1
has_operands AddressingMode.memory_relative_to_bp_to_register ins = is_there ins.op1
has_operands AddressingMode.implied_mode ins = true
has_operands _ ins = true

-- `none` is a null pointer that is read.
unfoldable pub build_addressing_mode : Instruction → Option ℕ
build_addressing_mode ins =
    if has_operands ins.addressing_mode ins
    then some (u8 (mode_bits ins.addressing_mode ins))
    else none

-- The low bytes of an integer in two's complement.
abbrev pub low_bits : ℕ → ℤ → ℕ
low_bits modulus (pos n) = n % modulus
low_bits modulus (negsuc n) = modulus - 1 - n % modulus

abbrev pub byte_bytes : ℤ → List ℕ
byte_bytes z = low_bits 256 z ∷ []

-- The high byte first.
abbrev pub word_bytes : ℤ → List ℕ
word_bytes z = low_bits 65536 z / 256 ∷ low_bits 65536 z % 256 ∷ []

abbrev pub signed_by : Bool → ℤ → ℤ
signed_by minus z = if minus then negated z else z

abbrev pub as_bytes : (ℤ → List ℕ) → Evaluated ℤ → Evaluated (List ℕ)
as_bytes to_bytes r = and_value r (λ z. evaluated (to_bytes z))

-- The bytes of one operand, then those of another.
abbrev pub followed_by : Evaluated (List ℕ) → Evaluated (List ℕ) → Evaluated (List ℕ)
followed_by r s = and_value r (λ xs. and_value s (λ ys. evaluated (xs ++ ys)))

module _ (stoi : Stoi) (env : Environment) (here : Place) where
  -- A null pointer is read with no result.
  abbrev pub value_at : Option Ast → Evaluated ℤ
  value_at none = none
  value_at (some a) = eval_expression stoi env here a

  abbrev pub byte_of : Option Ast → Evaluated (List ℕ)
  byte_of a = as_bytes byte_bytes (value_at a)

  abbrev pub word_of : Option Ast → Evaluated (List ℕ)
  word_of a = as_bytes word_bytes (value_at a)

  abbrev pub offset_of : Bool → Option Ast → Evaluated (List ℕ)
  offset_of minus a = as_bytes (λ z. byte_bytes (signed_by minus z)) (value_at a)

  -- The offset is cut to a byte before the sign.
  abbrev pub cut_offset_of : Bool → Option Ast → Evaluated (List ℕ)
  cut_offset_of minus a =
      as_bytes (λ z. byte_bytes (signed_by minus (pos (low_bits 256 z)))) (value_at a)

  abbrev pub argument_bytes : AddressingMode → Instruction → Evaluated (List ℕ)
  argument_bytes AddressingMode.implied_mode ins = evaluated []
  argument_bytes AddressingMode.register_access_mode ins = evaluated []
  argument_bytes AddressingMode.memory_relative_to_bp_with_register ins = evaluated []
  argument_bytes AddressingMode.memory_relative_to_pc_with_register ins = evaluated []
  argument_bytes AddressingMode.register_to_register_mode ins = evaluated []
  argument_bytes AddressingMode.immediate_byte ins = byte_of ins.op1
  argument_bytes AddressingMode.memory_relative_to_pc ins = byte_of ins.op1
  argument_bytes AddressingMode.register_to_memory_relative_to_pc ins = byte_of ins.op1
  argument_bytes AddressingMode.memory_relative_to_bp ins = offset_of ins.minus ins.index
  argument_bytes AddressingMode.memory_relative_to_bp_to_register ins =
      offset_of ins.minus ins.index
  argument_bytes AddressingMode.register_to_memory_relative_to_bp ins =
      offset_of ins.minus ins.index
  argument_bytes AddressingMode.immediate_word ins = word_of ins.op1
  argument_bytes AddressingMode.memory_absolute ins = word_of ins.op1
  argument_bytes AddressingMode.memory_absolute_indexed ins = word_of ins.op1
  argument_bytes AddressingMode.memory_indirect ins = word_of ins.op1
  argument_bytes AddressingMode.memory_indirect_indexed ins = word_of ins.op1
  argument_bytes AddressingMode.register_to_memory_absolute ins = word_of ins.op1
  argument_bytes AddressingMode.immediate_to_memory_absolute ins =
      followed_by (word_of ins.op1)
        (if ins.addr_mode_size == word_s + byte_s then byte_of ins.op2 else word_of ins.op2)
  argument_bytes AddressingMode.immediate_to_memory_absolute_indexed ins =
      followed_by (word_of ins.op1)
        (if ins.addr_mode_size == word_s + byte_s then byte_of ins.op2 else word_of ins.op2)
  argument_bytes AddressingMode.immediate_to_memory_relative_to_bp ins =
      followed_by (cut_offset_of ins.minus ins.index)
        (if ins.addr_mode_size == word_s then byte_of ins.op1 else word_of ins.op1)
  argument_bytes AddressingMode.immediate_to_memory_relative_to_bp_with_register ins =
      if ins.addr_mode_size == byte_s then byte_of ins.op1 else word_of ins.op1
  argument_bytes AddressingMode.memory_absolute_to_register ins = word_of ins.op2
  argument_bytes AddressingMode.immediate_to_register ins =
      if is_low ins.op1 then byte_of ins.op2 else word_of ins.op2
  argument_bytes AddressingMode.memory_relative_to_pc_to_register ins = byte_of ins.op2
  argument_bytes _ ins = evaluated []

  unfoldable pub get_arguments : Instruction → Evaluated (List ℕ)
  unfolding eval_expression
  get_arguments ins = argument_bytes ins.addressing_mode ins
