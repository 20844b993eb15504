-- ===== src/Isa/Laws.antt =====
-- Facts about the instruction set that the processor and its tools rest on.
use anc.Base.{
  ℕ, zero, suc, ◌+◌, ◌≤◌, ◌<◌, ◌≡◌, refl, ◌⊎◌, Bool, true, ◌&&◌, ◌||◌, Option, none, some, List, [],
  ◌∷◌, arith, ltb, ◌==◌, all_below, all_below_sound, length, get_elem?,
}
use anc.Isa.Opcode.{Op, code, of_code}
use anc.Isa.Encoding.{Mode, Encoding, decode}

-- Each operation is found under its own byte.
pub of_code-code : (o : Op) → of_code (code o) ≡ some o
unfolding of_code code
of_code-code Op.kill = refl
of_code-code _ = refl

code_fits : (o : Op) → code o < 256
unfolding code
code_fits Op.kill = omega arith
code_fits _ = omega arith

-- The table holds an operation only under its own byte.
abbrev is_own : ℕ → Option Op → Bool
is_own n none = true
is_own n (some o) = code o == n

own_table : all_below 100 (λ n. is_own n (of_code n)) ≡ true
unfolding all_below of_code code
own_table = refl

get_elem?_beyond {ℓ} : {A : Type ℓ} (xs : List A) (n : ℕ) → length xs ≤ n → get_elem? xs n ≡ none
get_elem?_beyond [] n h = refl
get_elem?_beyond (x ∷ xs) zero h = absurd (omega arith)
get_elem?_beyond (x ∷ xs) (suc n) h = get_elem?_beyond xs n (omega arith)

-- The operand bytes that the processor reads in each mode: a word address, a byte offset, an
-- immediate of the given width, or two of these.
abbrev pub operand_bytes : Mode → ℕ → ℕ
operand_bytes Mode.invalid w = 0
operand_bytes Mode.implied w = 0
operand_bytes Mode.immediate w = w
operand_bytes Mode.reg w = 0
operand_bytes Mode.regs w = 0
operand_bytes Mode.absolute w = 2
operand_bytes Mode.indexed w = 2
operand_bytes Mode.indirect w = 2
operand_bytes Mode.indirect_indexed w = 2
operand_bytes Mode.pc w = 1
operand_bytes Mode.bp w = 1
operand_bytes Mode.pc_reg w = 0
operand_bytes Mode.bp_reg w = 0
operand_bytes Mode.store_bp w = 1 + w
operand_bytes Mode.store_bp_reg w = w
operand_bytes Mode.store_absolute w = 2 + w
operand_bytes Mode.store_indexed w = 2 + w
operand_bytes Mode.reg_absolute w = 2
operand_bytes Mode.reg_immediate w = w
operand_bytes Mode.reg_pc w = 1
operand_bytes Mode.reg_bp w = 1

abbrev well_formed : Encoding → Bool
well_formed e =
    (e.width == 1 || e.width == 2)
    && (ltb e.reg 8 && (ltb e.source 8 && (e.size == operand_bytes e.mode e.width)))

well_formed_table : all_below 256 (λ a. well_formed (decode a)) ≡ true
unfolding all_below decode
well_formed_table = refl

pub record IsEncoding (e : Encoding) : Type 0 where
  pub widths : (e.width ≡ 1) ⊎ (e.width ≡ 2)
  pub reg_bound : e.reg < 8
  pub source_bound : e.source < 8
  pub layout : e.size ≡ operand_bytes e.mode e.width

well_formed-IsEncoding : (e : Encoding) → well_formed e ≡ true → IsEncoding e
well_formed-IsEncoding e h = record {
  widths = ground arith;
  reg_bound = ground arith;
  source_bound = ground arith;
  layout = ground arith;
}

-- Every addressing byte decodes to operands of one or two bytes, register numbers below eight,
-- and the size that the mode's operands take.
pub decode-IsEncoding : (a : ℕ) → a < 256 → IsEncoding (decode a)
decode-IsEncoding a h =
    well_formed-IsEncoding (decode a)
      (all_below_sound 256 (λ n. well_formed (decode n)) a well_formed_table h)
