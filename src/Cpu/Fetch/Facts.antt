-- ===== src/Cpu/Fetch/Facts.antt =====
-- What a fetch that succeeds has established.
use mathlib.Core.Path.{subst}
use anc.Base.{
  ℕ, ◌+◌, ◌≤◌, ◌≡◌, refl, sym, ◌∙◌, ◌⊎◌, inl, inr, Bool, true, false, not, ◌&&◌, Option, none, some,
  arith, if◌then◌else◌, Bool-cases, u16,
}
use anc.Cpu.State.{Cpu}
use anc.Cpu.Exc.{Exc, ok, fault, error}
use anc.Cpu.Monad.{M, and_then_ok, reads, ◌>>=◌, ◌>>◌}
use anc.Cpu.Frame.{Keeps, Keeps->>=, IsFrame}
use anc.Cpu.Access.{mapped, check, raw_word}
use anc.Cpu.Fetch.{
  advance, fetch_body, fetch_at, note_header, fetch, Fetched, authorise, admit, decoded, operation,
}
use anc.Isa.Opcode.{Op, of_code, privileged}
use anc.Isa.Valid.{valid}
use anc.Isa.Encoding.{Encoding, decode}

-- The instruction's address, its encoding and operation from the two bytes there, its privilege, and
-- the bounds of all its bytes.
pub record IsFound (c : Cpu) (f : Fetched) : Type 0 where
  pub at : ℕ
  pub encoded : f.encoding ≡ decode (c.imem at)
  pub coded : of_code (c.imem (at + 1)) ≡ some f.op
  pub accepted : valid f.op f.encoding ≡ true
  pub allowed : (privileged f.op && not c.sr.system) ≡ false
  pub behind : f.operands ≡ at + 2
  pub placed : at ≡ (if c.sr.system then c.pc else c.mtu 0 + c.pc)
  pub in_memory : at + 2 + f.encoding.size ≤ 65536
  pub in_user : (c.sr.system ≡ true) ⊎ ((c.mtu 0 ≤ at) × (at + 1 + f.encoding.size ≤ c.mtu 1))

-- The gate is open to a privileged operation in system mode alone.
pub gate_system :
    (op : Op) (c : Cpu)
    → privileged op ≡ true
    → (privileged op && not c.sr.system) ≡ false
    → c.sr.system ≡ true
gate_system op c p g = ground (arith, p, g)

admit_lem :
    (at : ℕ) (op : Op) (e : Encoding) (r : Exc (Unit {0})) (f : Fetched)
    → admit at op e r ≡ ok f
    → (r ≡ ok tt) × (f ≡ record { op = op; encoding = e; operands = at + 2 })
unfolding admit
admit_lem at op e (ok u) f h = (refl, cc)
admit_lem at op e (fault k) f h = cc
admit_lem at op e (error m) f h = cc

module _ (c : Cpu) (at : ℕ) (e : Encoding) (op : Op) (f : Fetched) where
  barred : (privileged op && not c.sr.system) ≡ true → authorise c at e (some op) ≡ ok f → ⊥
  unfolding authorise
  barred p h = ground arith

  open_gate :
      (privileged op && not c.sr.system) ≡ false
      → authorise c at e (some op) ≡ ok f
      → admit at op e (check c at (2 + e.size) false) ≡ ok f
  open_gate p h = rw (← h) (unfold authorise in rw p refl)

authorise_lem :
    (c : Cpu) (at : ℕ) (e : Encoding) (o : Option Op) (f : Fetched)
    → authorise c at e o ≡ ok f
    → (op : Op) × (o ≡ some op)
      × ((privileged op && not c.sr.system) ≡ false)
      × (check c at (2 + e.size) false ≡ ok tt)
      × (f ≡ record { op = op; encoding = e; operands = at + 2 })
authorise_lem c at e none f h = unfold authorise in cc
authorise_lem c at e (some op) f h = elim (Bool-cases (privileged op && not c.sr.system)) [
  | inl p ↦ absurd (barred c at e op f p h)
  | inr p ↦
      let q = admit_lem at op e (check c at (2 + e.size) false) f (open_gate c at e op f p h) in
      (op, refl, p, q.0, q.1)
]

check_mode :
    (c : Cpu) (n at w : ℕ)
    → check (record c { current_instruction = n }) at w false ≡ check c at w false
unfolding check
check_mode c n at w = refl

-- The mapped address is physical: in user mode the base is added, without a wrap.
mapped_place :
    (c : Cpu) (a at : ℕ)
    → mapped c a false false ≡ ok at
    → at ≡ (if c.sr.system then a else c.mtu 0 + a)
unfolding mapped
mapped_place c a at h = ground arith

-- What the check of a read of `2 + n` bytes says of the bounds.
check_bounds :
    (c : Cpu) (at n : ℕ)
    → check c at (2 + n) false ≡ ok tt
    → (at + 2 + n ≤ 65536) × ((c.sr.system ≡ true) ⊎ ((c.mtu 0 ≤ at) × (at + 1 + n ≤ c.mtu 1)))
unfolding check
check_bounds c at n h = ground arith

if_valid :
    (op op' : Op) (b : Bool)
    → (if b then some op else none) ≡ some op'
    → (some op ≡ some op') × (b ≡ true)
if_valid op op' true h = (h, refl)
if_valid op op' false h = cc

some_inj : (op op' : Op) → some op ≡ some op' → op ≡ op'
some_inj op op' h = cc

guarded_lem :
    (o : Option Op) (e : Encoding) (op : Op)
    → elim o [ none ↦ none | some op' ↦ if valid op' e then some op' else none ] ≡ some op
    → (o ≡ some op) × (valid op e ≡ true)
guarded_lem none e op h = cc
guarded_lem (some op') e op h =
    let (same, good) = if_valid op' op (valid op' e) h in
    (same, subst (λ x. valid x e ≡ true) (some_inj op' op same) good)

operation_lem :
    (byte : ℕ) (e : Encoding) (op : Op)
    → operation byte e ≡ some op
    → (of_code byte ≡ some op) × (valid op e ≡ true)
unfolding operation
operation_lem byte e op h = guarded_lem (of_code byte) e op h

ok_inj : (f g : Fetched) → ◌≡◌ {A = Exc Fetched} (ok f) (ok g) → f ≡ g
ok_inj f g h = cc

-- Whatever a fetch returns is what its conditions describe.
pub fetch-IsFound : (c : Cpu) (f : Fetched) → (fetch c).0 ≡ ok f → IsFound c f
unfolding fetch decoded
fetch-IsFound c f h =
    let (at, p, h1) = and_then_ok _ (mapped c c.pc false false) c h in
    let (_, q, h2) = and_then_ok _ (check c at 2 false) c h1 in
    let c' = record c { current_instruction = raw_word c.imem at } in
    let e = decode (c.imem at) in
    let (g, r, h3) = and_then_ok _ (authorise c' at e (operation (c.imem (at + 1)) e)) c' h2 in
    let (op, selected, gate, bounds, same) =
      authorise_lem c' at e (operation (c.imem (at + 1)) e) g r in
    let within = sym (check_mode c (raw_word c.imem at) at (2 + e.size)) ∙ bounds in
    let known = operation_lem (c.imem (at + 1)) e op selected in
    subst (IsFound c) (sym same ∙ ok_inj g f h3) (record {
      at = at;
      encoded = refl;
      coded = known.0;
      accepted = known.1;
      allowed = gate;
      behind = refl;
      placed = mapped_place c c.pc at p;
      in_memory = (check_bounds c at e.size within).0;
      in_user = (check_bounds c at e.size within).1;
    })

-- The fetch changes the PC and the recorded instruction alone.
module _ (R : Cpu → Cpu → Type 0) (frame : IsFrame R)
    (records : (c : Cpu) (n : ℕ) → R c (record c { current_instruction = n }))
    (moves : (c : Cpu) (n : ℕ) → R c (record c { pc = n })) where
  seq :
      {A B : Type 0} (m : M A) (f : A → M B)
      → Keeps R m
      → ((a : A) → Keeps R (f a))
      → Keeps R (m >>= f)
  seq = Keeps->>= R frame

  advance-Keeps : (f : Fetched) → Keeps R (advance f)
  unfolding advance
  advance-Keeps f c = moves c (u16 (c.pc + 2 + f.encoding.size))

  fetch_body-Keeps : (at : ℕ) → Keeps R (fetch_body at)
  unfolding fetch_body
  fetch_body-Keeps at = seq (reads (decoded at)) advance frame.same advance-Keeps

  note_header-Keeps : (at : ℕ) → Keeps R (note_header at)
  unfolding note_header
  note_header-Keeps at c = records c (raw_word c.imem at)

  fetch_at-Keeps : (at : ℕ) → Keeps R (fetch_at at)
  unfolding fetch_at
  fetch_at-Keeps at =
      seq (reads (λ c. check c at 2 false)) (λ _. note_header at >> fetch_body at) frame.same
        λ _.
          seq (note_header at) (λ _. fetch_body at) (note_header-Keeps at) λ _. fetch_body-Keeps at

  pub fetch-Keeps : Keeps R fetch
  unfolding fetch
  fetch-Keeps = seq (reads (λ c. mapped c c.pc false false)) fetch_at frame.same fetch_at-Keeps

abbrev SameStatus : Cpu → Cpu → Type 0
SameStatus c d = d.sr ≡ c.sr

SameStatus-IsFrame : IsFrame SameStatus
SameStatus-IsFrame = record { same = λ c. refl; chain = λ c d e p q. q ∙ p }

pub fetch-sr : (c : Cpu) → (fetch c).1.sr ≡ c.sr
fetch-sr = fetch-Keeps SameStatus SameStatus-IsFrame (λ c n. refl) (λ c n. refl)
