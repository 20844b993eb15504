-- ===== src/Cpu/Fetch/Exact.antt =====
-- The fetch of emulator/src/cpu.cc returns exactly what its conditions describe.
use mathlib.Core.Path.{subst}
use anc.Base.{
  ℕ, ◌+◌, ◌≤◌, ◌≡◌, refl, sym, ◌↔◌, ◌⊎◌, true, false, not, ◌&&◌, Option, none, some, arith,
  if◌then◌else◌,
}
use anc.Cpu.State.{Cpu}
use anc.Cpu.Exc.{ok}
use anc.Cpu.Access.{mapped, check, raw_word}
use anc.Cpu.Fetch.{
  advance, fetch_body, fetch_at, note_header, fetch, Fetched, authorise, admit, decoded, operation,
}
use anc.Cpu.Fetch.Facts.{IsFound, fetch-IsFound}
use anc.Isa.Opcode.{Op, of_code, privileged}
use anc.Isa.Valid.{valid}
use anc.Isa.Encoding.{Encoding, decode}

-- The bounds of the header are among those of the instruction.
check_header : (c : Cpu) (at n : ℕ) → check c at (2 + n) false ≡ ok tt → check c at 2 false ≡ ok tt
unfolding check
check_header c at n h = ground arith

-- The explicit bounds pass the code's tests.
mapped_found :
    (c : Cpu) (a at n : ℕ)
    → at ≡ (if c.sr.system then a else c.mtu 0 + a)
    → at + 2 + n ≤ 65536
    → (c.sr.system ≡ true) ⊎ ((c.mtu 0 ≤ at) × (at + 1 + n ≤ c.mtu 1))
    → mapped c a false false ≡ ok at
unfolding mapped
mapped_found c a at n p q r = ground arith

check_found :
    (c : Cpu) (at n : ℕ)
    → at + 2 + n ≤ 65536
    → (c.sr.system ≡ true) ⊎ ((c.mtu 0 ≤ at) × (at + 1 + n ≤ c.mtu 1))
    → check c at (2 + n) false ≡ ok tt
unfolding check
check_found c at n p q = ground arith

module _ (c : Cpu) (at : ℕ) (op : Op) (e : Encoding) (coded : of_code (c.imem (at + 1)) ≡ some op)
    (accepted : valid op e ≡ true) (allowed : (privileged op && not c.sr.system) ≡ false)
    (bounded : check c at (2 + e.size) false ≡ ok tt) where
  operation_found : operation (c.imem (at + 1)) e ≡ some op
  unfolding operation
  operation_found =
      subst
        (λ o. elim o [ none ↦ none | some op' ↦ if valid op' e then some op' else none ] ≡ some op)
        (sym coded) (rw accepted refl)

  authorised :
      authorise c at e (operation (c.imem (at + 1)) e)
      ≡ ok (record { op = op; encoding = e; operands = at + 2 })
  unfolding authorise admit
  authorised = rw (operation_found, allowed, bounded) refl

-- The recorded instruction plays no part in what is found.
authorise_mode :
    (c : Cpu) (n at : ℕ) (e : Encoding) (o : Option Op)
    → authorise (record c { current_instruction = n }) at e o ≡ authorise c at e o
unfolding authorise check
authorise_mode c n at e none = refl
authorise_mode c n at e (some op) = refl

found_fetch :
    (c : Cpu) (at : ℕ) (f : Fetched)
    → mapped c c.pc false false ≡ ok at
    → check c at 2 false ≡ ok tt
    → decoded at c ≡ ok f
    → (fetch c).0 ≡ ok f
unfolding fetch fetch_at note_header fetch_body advance decoded
found_fetch c at f p q r =
    rw (p, q, authorise_mode c (raw_word c.imem at) at (decode (c.imem at)), r) refl

IsFound-fetch : (c : Cpu) (f : Fetched) → IsFound c f → (fetch c).0 ≡ ok f
unfolding decoded
IsFound-fetch c f h =
    let n = f.encoding.size in
    let bounded = check_found c h.at n h.in_memory h.in_user in
    found_fetch c h.at f (mapped_found c c.pc h.at n h.placed h.in_memory h.in_user)
      (check_header c h.at n bounded)
      (rw
        (
          ← h.encoded,
          authorised c h.at f.op f.encoding h.coded h.accepted h.allowed bounded,
          ← h.behind,
        )
        refl)

-- A fetch returns exactly the operation, encoding and operands' address that PC, the bytes there, the
-- mode and the memory bounds allow: the two bytes at PC, in user mode at PC behind the lower bound
-- `mtu 0`, decode to a valid operation, not a privileged one unless the mode is system, and every
-- byte of the instruction lies below 65536 and, in user mode, between the bounds `mtu 0` and `mtu 1`.
pub fetch-ok_iff : (c : Cpu) (f : Fetched) → ((fetch c).0 ≡ ok f) ↔ IsFound c f
fetch-ok_iff c f = (fetch-IsFound c f, IsFound-fetch c f)
