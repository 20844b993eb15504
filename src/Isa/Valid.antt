-- ===== src/Isa/Valid.antt =====
-- `valid` of common/encoding.hh: which operation takes which addressing mode, at which width.
use anc.Base.{ℕ, Bool, true, false, not, ◌&&◌, ◌||◌, List, [], ◌∷◌, leb, ◌==◌, if◌then◌else◌}
use anc.Isa.Opcode.{Op, Family, code, families}
use anc.Isa.Encoding.{Mode, Encoding}

abbrev pub same_mode : Mode → Mode → Bool
same_mode Mode.invalid Mode.invalid = true
same_mode Mode.implied Mode.implied = true
same_mode Mode.immediate Mode.immediate = true
same_mode Mode.reg Mode.reg = true
same_mode Mode.regs Mode.regs = true
same_mode Mode.absolute Mode.absolute = true
same_mode Mode.indexed Mode.indexed = true
same_mode Mode.indirect Mode.indirect = true
same_mode Mode.indirect_indexed Mode.indirect_indexed = true
same_mode Mode.pc Mode.pc = true
same_mode Mode.bp Mode.bp = true
same_mode Mode.pc_reg Mode.pc_reg = true
same_mode Mode.bp_reg Mode.bp_reg = true
same_mode Mode.store_bp Mode.store_bp = true
same_mode Mode.store_bp_reg Mode.store_bp_reg = true
same_mode Mode.store_absolute Mode.store_absolute = true
same_mode Mode.store_indexed Mode.store_indexed = true
same_mode Mode.reg_absolute Mode.reg_absolute = true
same_mode Mode.reg_immediate Mode.reg_immediate = true
same_mode Mode.reg_pc Mode.reg_pc = true
same_mode Mode.reg_bp Mode.reg_bp = true
same_mode _ _ = false

abbrev same_family : Family → Family → Bool
same_family Family.implied Family.implied = true
same_family Family.immediate Family.immediate = true
same_family Family.immediate_to_memory Family.immediate_to_memory = true
same_family Family.memory_related Family.memory_related = true
same_family Family.register_access Family.register_access = true
same_family Family.register_to_memory Family.register_to_memory = true
same_family Family.memory_to_register Family.memory_to_register = true
same_family Family.register_to_register Family.register_to_register = true
same_family Family.indirect Family.indirect = true
same_family _ _ = false

-- `families & f`.
unfoldable pub has : Family → List Family → Bool
has f [] = false
has f (g ∷ gs) = same_family f g || has f gs

-- Stores and writes with a register operand go to memory, all others come from it.
abbrev register_direction : ℕ → Family
register_direction op =
    if op == 0x3b || op == 0x1b || op == 0x1d
    then Family.register_to_memory
    else Family.memory_to_register

-- The family that the switch of `valid` finds for a mode other than `invalid`.
unfoldable pub family_of : ℕ → Mode → Family
family_of op Mode.implied = Family.implied
family_of op Mode.immediate = Family.immediate
family_of op Mode.reg = Family.register_access
family_of op Mode.regs = Family.register_to_register
family_of op Mode.indirect = Family.indirect
family_of op Mode.indirect_indexed = Family.indirect
family_of op Mode.store_bp = Family.immediate_to_memory
family_of op Mode.store_bp_reg = Family.immediate_to_memory
family_of op Mode.store_absolute = Family.immediate_to_memory
family_of op Mode.store_indexed = Family.immediate_to_memory
family_of op Mode.reg_immediate = Family.memory_to_register
family_of op Mode.reg_absolute = register_direction op
family_of op Mode.reg_pc = register_direction op
family_of op Mode.reg_bp = register_direction op
family_of op _ = Family.memory_related

-- The tests behind the family test: jumps and calls, then the special registers' widths.
unfoldable pub form_ok : ℕ → Encoding → Bool
form_ok op e =
    if (op == 4 || leb 0x22 op && leb op 0x2c) && same_mode e.mode Mode.immediate
    then false
    else if op == 4 && not (same_mode e.mode Mode.absolute)
    then false
    else if (op == 0x44 || op == 0x3e && same_mode e.mode Mode.reg) && not (e.width == 1)
    then false
    else if (op == 0x45 || op == 0x46 || leb 0x56 op && leb op 0x5b || op == 0x5d || op == 0x63)
        && not (e.width == 2)
    then false
    else true

unfoldable pub valid : Op → Encoding → Bool
unfolding has families family_of form_ok code
valid op e =
    if same_mode e.mode Mode.invalid
    then false
    else if not (has (family_of (code op) e.mode) (families op))
    then false
    else form_ok (code op) e
