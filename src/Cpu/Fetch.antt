-- ===== src/Cpu/Fetch.antt =====
-- The fetch in `execute` of emulator/src/cpu.cc: the instruction at PC, its validity, its privilege
-- and its bounds.
pub mod Facts
pub mod Exact
use anc.Base.{ℕ, ◌+◌, false, not, ◌&&◌, Option, none, some, if◌then◌else◌, u16}
use anc.Cpu.State.{Cpu}
use anc.Cpu.Exc.{Exc, ok, fault, error}
use anc.Cpu.Monad.{M, reads, modify, ◌>>=◌, ◌>>◌}
use anc.Cpu.Access.{mapped, check, raw_word}
use anc.Isa.Opcode.{Op, of_code, privileged}
use anc.Isa.Encoding.{Encoding, decode}
use anc.Isa.Valid.{valid}

-- What the fetch finds: the operation, its encoding and the address of its operands.
pub record Fetched : Type 0 where
  pub op : Op
  pub encoding : Encoding
  pub operands : ℕ

-- The operation of the byte if `valid` accepts it in this encoding.
unfoldable pub operation : ℕ → Encoding → Option Op
operation byte e = elim (of_code byte) [
  | none ↦ none
  | some op ↦ if valid op e then some op else none
]

-- The operand bytes are in bounds too.
unfoldable pub admit : ℕ → Op → Encoding → Exc (Unit {0}) → Exc Fetched
admit at op e (ok _) = ok (record { op = op; encoding = e; operands = at + 2 })
admit at op e (fault k) = fault k
admit at op e (error m) = error m

unfoldable pub authorise : Cpu → ℕ → Encoding → Option Op → Exc Fetched
unfolding admit
authorise c at e none = fault 0
authorise c at e (some op) =
    if privileged op && not c.sr.system
    then fault 1
    else admit at op e (check c at (2 + e.size) false)

-- What `fetch` finds behind the header's bounds check at this address.
unfoldable pub decoded : ℕ → Cpu → Exc Fetched
unfolding authorise operation
decoded at c = let e = decode (c.imem at) in authorise c at e (operation (c.imem (at + 1)) e)

-- PC moves behind the instruction.
unfoldable pub advance : Fetched → M Fetched
advance f c = (ok f, record c { pc = u16 (c.pc + 2 + f.encoding.size) })

unfoldable pub note_header : ℕ → M (Unit {0})
unfolding raw_word
note_header at = modify λ c. record c { current_instruction = raw_word c.imem at }

unfoldable pub fetch_body : ℕ → M Fetched
unfolding decoded advance
fetch_body at = reads (decoded at) >>= advance

unfoldable pub fetch_at : ℕ → M Fetched
unfolding note_header fetch_body
fetch_at at = do reads (λ c. check c at 2 false); note_header at; fetch_body at

-- The fetch and its checks, in the source's order.
unfoldable pub fetch : M Fetched
unfolding fetch_at
fetch = reads (λ c. mapped c c.pc false false) >>= fetch_at
