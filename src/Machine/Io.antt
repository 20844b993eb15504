-- ===== src/Machine/Io.antt =====
-- The bus operations of `execute` (emulator/src/cpu.cc), with `EmemMapper::request` and
-- `EmemMapper::pump_keyboard` (emulator/src/emem.cc).
use anc.Cpu.State.{Cpu}
use anc.Base.{ℕ, Bool, true, false, not, ◌&&◌, Option, none, some, ◌==◌, if◌then◌else◌, u16, update}
use anc.Cpu.Exc.{Exc, ok, fault, error}
use anc.Cpu.Interrupt.{einr}
use anc.Cpu.Operand.{Operand, target_of}
use anc.Cpu.Exec.{exec}
use anc.Isa.Opcode.{Op}
use anc.Isa.Encoding.{Encoding}
use anc.Machine.Bus.{Bus}
use anc.Machine.State.{Machine, Act, on_cpu, update_cpu}

abbrev pub keyboard_address : ℕ
keyboard_address = 0xfffc

-- A method that answers is called for its effect.
abbrev pub ignored {ℓ} : {A : Type ℓ} → Exc A → Exc (Unit {0})
ignored (ok a) = ok tt
ignored (fault k) = fault k
ignored (error e) = error e

module _ {D : Type 0} (bus : Bus D) where
  -- IREQ: the identity in R0 and the address in R1.
  unfoldable pub identify : ℕ → D → Machine D → Machine D
  identify a d m =
      update_cpu
        (λ c. record c { reg = update (update c.reg 0 (u16 (bus.info_req d a))) 1 (u16 a) }) m

  -- The interrupt that answers a request; its result is dropped.
  unfoldable pub answer : ℕ → Bool → ℕ → Act D (Unit {0})
  answer a additional response m =
      let (r, c) = einr a response (if additional then 2 else 1) m.cpu in
      (ignored r, record m { cpu = c })

  -- What `request` does with the response.
  unfoldable pub requested : ℕ → Bool → Exc ℕ → Act D (Unit {0})
  unfolding answer
  requested a additional (ok response) m = answer a additional response m
  requested a additional (fault k) m = (fault k, m)
  requested a additional (error e) m = (error e, m)

  -- `EmemMapper::request`: a read of a word, then the interrupt that hands it over.
  unfoldable pub request : ℕ → ℕ → Bool → D → Act D (Unit {0})
  unfolding requested
  request a value additional d m =
      let (r, d') = bus.read d value a additional 2 in
      requested a additional r (record m { emem = some d' })

  unfoldable pub received : Exc ℕ → Act D (Unit {0})
  received (ok response) m =
      (ok tt, update_cpu (λ c. record c { reg = update c.reg 1 (u16 response) }) m)
  received (fault k) m = (fault k, m)
  received (error e) m = (error e, m)

  -- READ: the response in R1.
  unfoldable pub bus_read : ℕ → ℕ → D → Act D (Unit {0})
  unfolding received
  bus_read a width d m =
      let (r, d') = bus.read d (m.cpu.reg 1) a m.cpu.sr.additional width in
      received r (record m { emem = some d' })

  unfoldable pub bus_write : ℕ → ℕ → ℕ → Bool → D → Act D (Unit {0})
  bus_write value a width high d m =
      let (r, d') = bus.write d value a m.cpu.sr.additional width high in
      (r, record m { emem = some d' })

  -- The operations on the bus; each but READ does nothing if no mapper is attached.
  unfoldable pub exec_io : Op → Encoding → Operand → Option D → ℕ → Act D (Unit {0})
  unfolding identify request bus_read bus_write
  exec_io Op.ireq e x (some d) now m = (ok tt, identify (target_of x) d m)
  exec_io Op.req e x (some d) now m = request (target_of x) (m.cpu.reg 1) m.cpu.sr.additional d m
  exec_io Op.hreq e x (some d) now m = request (target_of x) (m.cpu.reg 1) m.cpu.sr.additional d m
  exec_io Op.read e x (some d) now m = bus_read (target_of x) e.width d m
  exec_io Op.write e x (some d) now m = bus_write x.payload x.address e.width false d m
  exec_io Op.hwrite e x (some d) now m = bus_write x.payload x.address e.width true d m
  exec_io Op.ireq e x none now m = (ok tt, m)
  exec_io Op.req e x none now m = (ok tt, m)
  exec_io Op.hreq e x none now m = (ok tt, m)
  exec_io Op.read e x none now m = (ok tt, update_cpu (λ c. record c { reg = update c.reg 1 0 }) m)
  exec_io Op.write e x none now m = (ok tt, m)
  exec_io Op.hwrite e x none now m = (ok tt, m)
  exec_io op e x d now m = on_cpu (exec now op e x) m

  -- The event leaves the queue only if it was accepted.
  unfoldable pub delivered : D → Exc Bool × Cpu → Exc (Unit {0}) × Machine D
  delivered d (ok true, c) = (ok tt, record { cpu = c; emem = some (bus.consume d) })
  delivered d (ok false, c) = (ok tt, record { cpu = c; emem = some d })
  delivered d (fault k, c) = (fault k, record { cpu = c; emem = some d })
  delivered d (error e, c) = (error e, record { cpu = c; emem = some d })

  -- `pump_keyboard`: with the external vector installed, the next event is delivered once.
  unfoldable pub pump_keyboard : D → Act D (Unit {0})
  unfolding delivered
  pump_keyboard d m =
      if not (bus.pending d == 0) && not (m.cpu.imem 2 == 0 && m.cpu.imem 3 == 0)
      then delivered d (einr keyboard_address (bus.pending d) 1 m.cpu)
      else (ok tt, m)
