-- ===== src/Asm/Encode/Length.antt =====
-- How many bytes `get_arguments` of assembler/include/assembler.hh makes.
use anc.Base.{
  ℕ, ◌+◌, ◌≡◌, refl, Bool, true, false, Option, List, [], ◌∷◌, ◌++◌, arith, ◌==◌, if◌then◌else◌,
  length, ℤ,
}
use anc.Asm.Gives.{Gives, Gives-evaluated, Gives-and_value, Gives-and}
use anc.Asm.Encode.{
  get_arguments, argument_bytes, byte_of, word_of, offset_of, cut_offset_of, followed_by, as_bytes,
  value_at, byte_bytes, byte_s, is_low, word_bytes, signed_by, word_s, pos, low_bits,
}
use anc.Asm.Eval.{Stoi, Evaluated, Place, and_value, evaluated}
use anc.Asm.Tree.{AddressingMode, Ast, Environment, Instruction}

-- By the mode, `addr_mode_size` and whether the first operand is a low register.
abbrev pub arguments_size : AddressingMode → ℕ → Bool → ℕ
arguments_size AddressingMode.immediate_byte size low = byte_s
arguments_size AddressingMode.memory_relative_to_pc size low = byte_s
arguments_size AddressingMode.register_to_memory_relative_to_pc size low = byte_s
arguments_size AddressingMode.memory_relative_to_bp size low = byte_s
arguments_size AddressingMode.memory_relative_to_bp_to_register size low = byte_s
arguments_size AddressingMode.register_to_memory_relative_to_bp size low = byte_s
arguments_size AddressingMode.memory_relative_to_pc_to_register size low = byte_s
arguments_size AddressingMode.immediate_word size low = word_s
arguments_size AddressingMode.memory_absolute size low = word_s
arguments_size AddressingMode.memory_absolute_indexed size low = word_s
arguments_size AddressingMode.memory_indirect size low = word_s
arguments_size AddressingMode.memory_indirect_indexed size low = word_s
arguments_size AddressingMode.register_to_memory_absolute size low = word_s
arguments_size AddressingMode.memory_absolute_to_register size low = word_s
arguments_size AddressingMode.immediate_to_register size low = if low then byte_s else word_s
arguments_size AddressingMode.immediate_to_memory_absolute size low =
    word_s + (if size == word_s + byte_s then byte_s else word_s)
arguments_size AddressingMode.immediate_to_memory_absolute_indexed size low =
    word_s + (if size == word_s + byte_s then byte_s else word_s)
arguments_size AddressingMode.immediate_to_memory_relative_to_bp size low =
    byte_s + (if size == word_s then byte_s else word_s)
arguments_size AddressingMode.immediate_to_memory_relative_to_bp_with_register size low =
    if size == byte_s then byte_s else word_s
arguments_size _ size low = 0

abbrev pub HasLength : ℕ → Evaluated (List ℕ) → Type 0
HasLength n r = Gives (λ xs. length xs ≡ n) r

pub length-++ : (xs ys : List ℕ) → length (xs ++ ys) ≡ length xs + length ys
length-++ [] ys = omega arith
length-++ (x ∷ xs) ys = let rest = length-++ xs ys in omega arith

as_bytes-HasLength :
    (n : ℕ) (to_bytes : ℤ → List ℕ) (r : Evaluated ℤ)
    → ((z : ℤ) → length (to_bytes z) ≡ n)
    → HasLength n (as_bytes to_bytes r)
as_bytes-HasLength n to_bytes r same =
    Gives-and (λ xs. length xs ≡ n) r (λ z. evaluated (to_bytes z))
      λ z. Gives-evaluated (λ xs. length xs ≡ n) (to_bytes z) (same z)

followed_by-HasLength :
    (n k : ℕ) (r s : Evaluated (List ℕ))
    → HasLength n r
    → HasLength k s
    → HasLength (n + k) (followed_by r s)
followed_by-HasLength n k r s first second =
    Gives-and_value (λ zs. length zs ≡ n + k) (λ xs. length xs ≡ n) r
      (λ xs. and_value s (λ ys. evaluated (xs ++ ys))) first
      λ xs first_is.
        Gives-and_value (λ zs. length zs ≡ n + k) (λ ys. length ys ≡ k) s
          (λ ys. evaluated (xs ++ ys)) second
          λ ys second_is.
            Gives-evaluated (λ zs. length zs ≡ n + k) (xs ++ ys)
              (let joined = length-++ xs ys in omega arith)

pub either_length :
    (b : Bool) (n k : ℕ) (r s : Evaluated (List ℕ))
    → HasLength n r
    → HasLength k s
    → HasLength (if b then n else k) (if b then r else s)
either_length true n k r s p q = p
either_length false n k r s p q = q

module _ (stoi : Stoi) (env : Environment) (here : Place) where
  byte_of-HasLength : (a : Option Ast) → HasLength 1 (byte_of stoi env here a)
  byte_of-HasLength a = as_bytes-HasLength 1 byte_bytes (value_at stoi env here a) λ z. refl

  word_of-HasLength : (a : Option Ast) → HasLength 2 (word_of stoi env here a)
  word_of-HasLength a = as_bytes-HasLength 2 word_bytes (value_at stoi env here a) λ z. refl

  offset_of-HasLength :
      (minus : Bool) (a : Option Ast) → HasLength 1 (offset_of stoi env here minus a)
  offset_of-HasLength minus a =
      as_bytes-HasLength 1 (λ z. byte_bytes (signed_by minus z)) (value_at stoi env here a)
        λ z. refl

  cut_offset_of-HasLength :
      (minus : Bool) (a : Option Ast) → HasLength 1 (cut_offset_of stoi env here minus a)
  cut_offset_of-HasLength minus a =
      as_bytes-HasLength 1 (λ z. byte_bytes (signed_by minus (pos (low_bits 256 z))))
        (value_at stoi env here a) λ z. refl

  one_or_two :
      (b : Bool) (a : Option Ast)
      → HasLength
          (if b then byte_s else word_s)
          (if b then byte_of stoi env here a else word_of stoi env here a)
  one_or_two b a =
      either_length b 1 2 (byte_of stoi env here a) (word_of stoi env here a) (byte_of-HasLength a)
        (word_of-HasLength a)

  nothing : HasLength 0 (evaluated [])
  nothing = Gives-evaluated (λ xs. length xs ≡ 0) [] refl

  argument_bytes-HasLength :
      (m : AddressingMode) (ins : Instruction)
      → HasLength
          (arguments_size m ins.addr_mode_size (is_low ins.op1))
          (argument_bytes stoi env here m ins)
  argument_bytes-HasLength AddressingMode.immediate_byte ins = byte_of-HasLength ins.op1
  argument_bytes-HasLength AddressingMode.memory_relative_to_pc ins = byte_of-HasLength ins.op1
  argument_bytes-HasLength AddressingMode.register_to_memory_relative_to_pc ins =
      byte_of-HasLength ins.op1
  argument_bytes-HasLength AddressingMode.memory_relative_to_bp ins =
      offset_of-HasLength ins.minus ins.index
  argument_bytes-HasLength AddressingMode.memory_relative_to_bp_to_register ins =
      offset_of-HasLength ins.minus ins.index
  argument_bytes-HasLength AddressingMode.register_to_memory_relative_to_bp ins =
      offset_of-HasLength ins.minus ins.index
  argument_bytes-HasLength AddressingMode.immediate_word ins = word_of-HasLength ins.op1
  argument_bytes-HasLength AddressingMode.memory_absolute ins = word_of-HasLength ins.op1
  argument_bytes-HasLength AddressingMode.memory_absolute_indexed ins = word_of-HasLength ins.op1
  argument_bytes-HasLength AddressingMode.memory_indirect ins = word_of-HasLength ins.op1
  argument_bytes-HasLength AddressingMode.memory_indirect_indexed ins = word_of-HasLength ins.op1
  argument_bytes-HasLength AddressingMode.register_to_memory_absolute ins =
      word_of-HasLength ins.op1
  argument_bytes-HasLength AddressingMode.memory_absolute_to_register ins =
      word_of-HasLength ins.op2
  argument_bytes-HasLength AddressingMode.memory_relative_to_pc_to_register ins =
      byte_of-HasLength ins.op2
  argument_bytes-HasLength AddressingMode.immediate_to_register ins =
      one_or_two (is_low ins.op1) ins.op2
  argument_bytes-HasLength AddressingMode.immediate_to_memory_relative_to_bp_with_register ins =
      one_or_two (ins.addr_mode_size == byte_s) ins.op1
  argument_bytes-HasLength AddressingMode.implied_mode ins = nothing
  argument_bytes-HasLength AddressingMode.register_access_mode ins = nothing
  argument_bytes-HasLength AddressingMode.memory_relative_to_bp_with_register ins = nothing
  argument_bytes-HasLength AddressingMode.memory_relative_to_pc_with_register ins = nothing
  argument_bytes-HasLength AddressingMode.register_to_register_mode ins = nothing
  argument_bytes-HasLength AddressingMode.low_register_to_memory_absolute ins = nothing
  argument_bytes-HasLength AddressingMode.memory_absolute_to_low_register ins = nothing
  argument_bytes-HasLength AddressingMode.immediate_to_low_register ins = nothing
  argument_bytes-HasLength AddressingMode.low_register_to_memory_relative_to_pc ins = nothing
  argument_bytes-HasLength AddressingMode.memory_relative_to_pc_to_low_register ins = nothing
  argument_bytes-HasLength AddressingMode.low_register_to_memory_relative_to_bp ins = nothing
  argument_bytes-HasLength AddressingMode.memory_relative_to_bp_to_low_register ins = nothing
  argument_bytes-HasLength AddressingMode.immediate_to_memory_absolute ins =
      let short = ins.addr_mode_size == word_s + byte_s in
      followed_by-HasLength 2 (if short then byte_s else word_s) (word_of stoi env here ins.op1)
        (if short then byte_of stoi env here ins.op2 else word_of stoi env here ins.op2)
        (word_of-HasLength ins.op1) (one_or_two short ins.op2)
  argument_bytes-HasLength AddressingMode.immediate_to_memory_absolute_indexed ins =
      let short = ins.addr_mode_size == word_s + byte_s in
      followed_by-HasLength 2 (if short then byte_s else word_s) (word_of stoi env here ins.op1)
        (if short then byte_of stoi env here ins.op2 else word_of stoi env here ins.op2)
        (word_of-HasLength ins.op1) (one_or_two short ins.op2)
  argument_bytes-HasLength AddressingMode.immediate_to_memory_relative_to_bp ins =
      let short = ins.addr_mode_size == word_s in
      followed_by-HasLength 1 (if short then byte_s else word_s)
        (cut_offset_of stoi env here ins.minus ins.index)
        (if short then byte_of stoi env here ins.op1 else word_of stoi env here ins.op1)
        (cut_offset_of-HasLength ins.minus ins.index) (one_or_two short ins.op1)

  pub get_arguments-HasLength :
      (ins : Instruction)
      → HasLength
          (arguments_size ins.addressing_mode ins.addr_mode_size (is_low ins.op1))
          (get_arguments stoi env here ins)
  unfolding get_arguments
  get_arguments-HasLength ins = argument_bytes-HasLength ins.addressing_mode ins
