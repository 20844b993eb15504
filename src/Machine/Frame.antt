-- ===== src/Machine/Frame.antt =====
-- What the parts of an instruction keep, the instruction keeps: a relation between the processor
-- before and after is carried through `execute`, on every path and over every bus.
use anc.Base.{
  ℕ, ◌+◌, ◌-◌, ◌*◌, ◌/◌, ◌≤◌, ◌≡◌, refl, inl, inr, Bool, true, false, not, ◌&&◌, ◌||◌, Option, none,
  some, arith, leb, ◌==◌, if◌then◌else◌, Bool-cases, if_cases,
}
use anc.Cpu.State.{Cpu}
use anc.Cpu.Status.{Status}
use anc.Cpu.Exc.{Exc, ok, fault, error}
use anc.Cpu.Frame.{Keeps, IsFrame, Keeps->>=}
use anc.Cpu.Interrupt.{interrupt, einr, caught, nmi_result, halt, update_timer, count_down, expire}
use anc.Cpu.Operand.{Operand, target_of}
use anc.Cpu.Exec.{exec}
use anc.Cpu.Boundary.{break_at, at_breakpoint, count_instruction, pins, shutdown_pin, reset_pin}
use anc.Cpu.Fetch.{Fetched, fetch}
use anc.Cpu.Fetch.Facts.{IsFound, fetch-IsFound, fetch-Keeps, fetch-sr, gate_system}
use anc.Isa.Opcode.{Op, privileged}
use anc.Isa.Encoding.{Encoding, decode}
use anc.Machine.Bus.{Bus}
use anc.Cpu.Monad.{pure}
use anc.Machine.State.{Act, on_cpu, Machine, and_then}
use anc.Machine.Io.{
  exec_io, request, answer, requested, received, bus_read, pump_keyboard, delivered,
  keyboard_address,
}
use anc.Machine.Step.{
  execute, perform, instruction, run_instruction, finish, operate, boundary, attend, pump,
  after_boundary,
}

-- `P` is what is known of the status when an operation runs.
pub record IsInstructionFrame (P : Status → Type 0) (R : Cpu → Cpu → Type 0) : Type 0 where
  pub frame : IsFrame R
  pub registers : (c d : Cpu) → d.imem ≡ c.imem → d.mtu ≡ c.mtu → d.cpuid ≡ c.cpuid → R c d
  pub entry : (vector : ℕ) (code : Option ℕ) → Keeps R (interrupt vector code)
  pub response : (a p k : ℕ) → Keeps R (einr a p k)
  pub operation :
      (now : ℕ) (op : Op) (e : Encoding) (x : Operand) (c : Cpu)
      → 1 ≤ e.width
      → (privileged op ≡ true → c.sr.system ≡ true)
      → P c.sr
      → R c (exec now op e x c).1

decode-width : (a : ℕ) → 1 ≤ (decode a).width
unfolding decode
decode-width a = ground arith

module _ (P : Status → Type 0) (R : Cpu → Cpu → Type 0) (step : IsInstructionFrame P R) where
  nmi_result-R : (c : Cpu) (s : Exc (Unit {0}) × Cpu) → R c s.1 → R c (nmi_result s)
  unfolding nmi_result halt
  nmi_result-R c (ok a, d) r = r
  nmi_result-R c (fault k, d) r = step.frame.chain c d _ r (step.registers d _ refl refl refl)
  nmi_result-R c (error m, d) r = step.frame.chain c d _ r (step.registers d _ refl refl refl)

  -- The handlers.
  caught-R : (c : Cpu) (at : ℕ) (s : Exc (Unit {0}) × Cpu) → R c s.1 → R c (caught at s)
  unfolding caught halt
  caught-R c at (ok a, d) r = r
  caught-R c at (fault k, d) r =
      let d' = record d { pc = at } in
      nmi_result-R c (interrupt 4 (some k) d') (
        step.frame.chain c d (interrupt 4 (some k) d').1 r (
          step.frame.chain d d' (interrupt 4 (some k) d').1 (step.registers d d' refl refl refl)
            (step.entry 4 (some k) d')))
  caught-R c at (error m, d) r = step.frame.chain c d _ r (step.registers d _ refl refl refl)

  fetch-R : Keeps R fetch
  fetch-R =
      fetch-Keeps R step.frame (λ c n. step.registers c _ refl refl refl)
        (λ c n. step.registers c _ refl refl refl)

  module _ {D : Type 0} (bus : Bus D) where
    requested-R :
        (a : ℕ) (additional : Bool) (r : Exc ℕ) (m : Machine D)
        → R m.cpu (requested bus a additional r m).1.cpu
    unfolding requested answer
    requested-R a additional (ok v) m = step.response a v (if additional then 2 else 1) m.cpu
    requested-R a additional (fault k) m = step.frame.same m.cpu
    requested-R a additional (error e) m = step.frame.same m.cpu

    request-R :
        (a v : ℕ) (additional : Bool) (d : D) (m : Machine D)
        → R m.cpu (request bus a v additional d m).1.cpu
    unfolding request
    request-R a v additional d m =
        let s = bus.read d v a additional 2 in
        requested-R a additional s.0 (record m { emem = some s.1 })

    received-R : (r : Exc ℕ) (m : Machine D) → R m.cpu (received bus r m).1.cpu
    unfolding received
    received-R (ok v) m = step.registers _ _ refl refl refl
    received-R (fault k) m = step.frame.same m.cpu
    received-R (error e) m = step.frame.same m.cpu

    bus_read-R : (a w : ℕ) (d : D) (m : Machine D) → R m.cpu (bus_read bus a w d m).1.cpu
    unfolding bus_read
    bus_read-R a w d m =
        let s = bus.read d (m.cpu.reg 1) a m.cpu.sr.additional w in
        received-R s.0 (record m { emem = some s.1 })

    exec_io-R :
        (now : ℕ) (op : Op) (e : Encoding) (x : Operand) (d : Option D) (m : Machine D)
        → 1 ≤ e.width
        → (privileged op ≡ true → m.cpu.sr.system ≡ true)
        → P m.cpu.sr
        → R m.cpu (exec_io bus op e x d now m).1.cpu
    unfolding exec_io
    exec_io-R now Op.ireq e x (some d) m w p u = step.registers _ _ refl refl refl
    exec_io-R now Op.req e x (some d) m w p u =
        request-R (target_of x) (m.cpu.reg 1) m.cpu.sr.additional d m
    exec_io-R now Op.hreq e x (some d) m w p u =
        request-R (target_of x) (m.cpu.reg 1) m.cpu.sr.additional d m
    exec_io-R now Op.read e x (some d) m w p u = bus_read-R (target_of x) e.width d m
    exec_io-R now Op.write e x (some d) m w p u = step.frame.same m.cpu
    exec_io-R now Op.hwrite e x (some d) m w p u = step.frame.same m.cpu
    exec_io-R now Op.ireq e x none m w p u = step.frame.same m.cpu
    exec_io-R now Op.req e x none m w p u = step.frame.same m.cpu
    exec_io-R now Op.hreq e x none m w p u = step.frame.same m.cpu
    exec_io-R now Op.read e x none m w p u = step.registers _ _ refl refl refl
    exec_io-R now Op.write e x none m w p u = step.frame.same m.cpu
    exec_io-R now Op.hwrite e x none m w p u = step.frame.same m.cpu
    exec_io-R now op e x d m w p u = step.operation now op e x m.cpu w p u

    operate-R :
        (now : ℕ) (f : Fetched) (r : Exc Operand) (m : Machine D)
        → 1 ≤ f.encoding.width
        → (privileged f.op ≡ true → m.cpu.sr.system ≡ true)
        → P m.cpu.sr
        → R m.cpu (operate bus now f r m).1.cpu
    unfolding operate
    operate-R now f (ok x) m w p u = exec_io-R now f.op f.encoding x m.emem m w p u
    operate-R now f (fault k) m w p u = step.frame.same m.cpu
    operate-R now f (error e) m w p u = step.frame.same m.cpu

    -- The part behind the fetch, from a state with the same status as before it.
    perform-R :
        (now : ℕ) (c : Cpu) (r : Exc Fetched) (m : Machine D)
        → ((f : Fetched) → r ≡ ok f → IsFound c f)
        → m.cpu.sr ≡ c.sr
        → P c.sr
        → R m.cpu (and_then (perform bus now) (r, m)).1.cpu
    unfolding perform
    perform-R now c (ok f) m found same p =
        let at = found f refl in
        operate-R now f _ m (rw (at.encoded) (decode-width (c.imem at.at)))
          (λ q. rw same (gate_system f.op c q at.allowed)) (rw same p)
    perform-R now c (fault k) m found same p = step.frame.same m.cpu
    perform-R now c (error e) m found same p = step.frame.same m.cpu

    instruction-R : (now : ℕ) (m : Machine D) → P m.cpu.sr → R m.cpu (instruction bus now m).1.cpu
    unfolding instruction
    instruction-R now m p =
        let m' = record m { cpu = (fetch m.cpu).1 } in
        step.frame.chain m.cpu m'.cpu _ (fetch-R m.cpu)
          (perform-R now m.cpu (fetch m.cpu).0 m' (fetch-IsFound m.cpu) (fetch-sr m.cpu) p)

    pub run_instruction-R :
        (honor : Bool) (now : ℕ) (m : Machine D)
        → P m.cpu.sr
        → R m.cpu (run_instruction bus honor now m).cpu
    unfolding run_instruction finish break_at count_instruction
    run_instruction-R honor now m p = elim (Bool-cases (honor && at_breakpoint m.cpu)) [
      | inl e ↦ rw e (step.registers m.cpu (break_at m.cpu) refl refl refl)
      | inr e ↦
          let m' = record m { cpu = count_instruction m.cpu } in
          let s = instruction bus now m' in
          rw e (
            caught-R m.cpu m.cpu.pc (s.0, s.1.cpu)
              (step.frame.chain m.cpu m'.cpu s.1.cpu (step.registers m.cpu m'.cpu refl refl refl)
                (instruction-R now m' p)))
    ]

    shutdown_pin-R : (c : Cpu) → R c (shutdown_pin c).1
    unfolding shutdown_pin
    shutdown_pin-R c =
        step.registers c (shutdown_pin c).1 (ground arith) (ground arith) (ground arith)

    reset_pin-R : Keeps R reset_pin
    unfolding reset_pin
    reset_pin-R c =
        let c' = record c { reset_requested = false } in
        step.frame.chain c c' (reset_pin c).1 (step.registers c c' refl refl refl) (
          Keeps->>= R step.frame (interrupt 4 (some 5)) (λ _. pure false) (step.entry 4 (some 5))
            (λ _. step.frame.same) c')

    pins-R : Keeps R pins
    unfolding pins
    pins-R c =
        if_cases (λ (s : Exc Bool × Cpu). R c s.1) c.shutdown_requested (λ _. shutdown_pin-R c)
          λ _.
            if_cases (λ (s : Exc Bool × Cpu). R c s.1) c.reset_requested (λ _. reset_pin-R c)
              λ _. step.frame.same c

    delivered-R : (c : Cpu) (d : D) (s : Exc Bool × Cpu) → R c s.1 → R c (delivered bus d s).1.cpu
    unfolding delivered
    delivered-R c d (ok true, e) r = r
    delivered-R c d (ok false, e) r = r
    delivered-R c d (fault k, e) r = r
    delivered-R c d (error x, e) r = r

    pump_keyboard-R : (d : D) (m : Machine D) → R m.cpu (pump_keyboard bus d m).1.cpu
    unfolding pump_keyboard
    pump_keyboard-R d m =
        if_cases (λ (s : Exc (Unit {0}) × Machine D). R m.cpu s.1.cpu)
          (not (bus.pending d == 0) && not (m.cpu.imem 2 == 0 && m.cpu.imem 3 == 0))
          (λ _.
            delivered-R m.cpu d (einr keyboard_address (bus.pending d) 1 m.cpu)
              (step.response keyboard_address (bus.pending d) 1 m.cpu))
          (λ _. step.frame.same m.cpu)

    pump-R : (d : Option D) (m : Machine D) → R m.cpu (pump bus d m).1.cpu
    unfolding pump
    pump-R none m = step.frame.same m.cpu
    pump-R (some d) m =
        if_cases (λ (s : Exc (Unit {0}) × Machine D). R m.cpu s.1.cpu) m.cpu.killed
          (λ _. step.frame.same m.cpu) (λ _. pump_keyboard-R d m)

    expire-R : Keeps R expire
    unfolding expire
    expire-R c =
        let c' = record c { timer = 0; timer_running = false } in
        let quiet = step.registers c c' refl refl refl in
        if_cases (λ (s : Exc (Unit {0}) × Cpu). R c s.1) c.sr.timed
          (λ _. step.frame.chain c c' (interrupt 8 none c').1 quiet (step.entry 8 none c'))
          (λ _. quiet)

    count_down-R : (n : ℕ) → Keeps R (count_down n)
    unfolding count_down
    count_down-R n c =
        let c' = record c { timer_tick = c.timer_tick + n * 1_000_000 } in
        if_cases (λ (s : Exc (Unit {0}) × Cpu). R c s.1) (leb c.timer n)
          (λ _.
            step.frame.chain c c' (expire c').1 (step.registers c c' refl refl refl) (expire-R c'))
          (λ _. step.registers c _ refl refl refl)

    update_timer-R : (now : ℕ) → Keeps R (update_timer now)
    unfolding update_timer
    update_timer-R now c =
        let n = (now - c.timer_tick) / 1_000_000 in
        if_cases (λ (s : Exc (Unit {0}) × Cpu). R c s.1) (not c.timer_running || n == 0)
          (λ _. step.frame.same c) (λ _. count_down-R n c)

    -- Two steps in a row.
    both :
        {A B : Type 0} (f : A → Act D B) (c : Cpu) (s : Exc A × Machine D)
        → R c s.1.cpu
        → ((a : A) (m : Machine D) → R m.cpu (f a m).1.cpu)
        → R c (and_then f s).1.cpu
    both f c (ok a, m) r next = step.frame.chain c m.cpu (f a m).1.cpu r (next a m)
    both f c (fault k, m) r next = r
    both f c (error e, m) r next = r

    attend-R : (now : ℕ) (stop : Bool) (m : Machine D) → R m.cpu (attend bus now stop m).1.cpu
    unfolding attend
    attend-R now true m = step.frame.same m.cpu
    attend-R now false m = both _ m.cpu (pump bus m.emem m) (pump-R m.emem m) λ _ n.
        both _ n.cpu (on_cpu (update_timer now) n) (update_timer-R now n.cpu)
          λ _ k. step.frame.same k.cpu

    boundary-R : (now : ℕ) (m : Machine D) → R m.cpu (boundary bus now m).1.cpu
    unfolding boundary
    boundary-R now m = both (attend bus now) m.cpu (on_cpu pins m) (pins-R m.cpu) (attend-R now)

    after_boundary-R :
        (all : (s : Status) → P s) (honor : Bool) (now : ℕ) (c : Cpu) (r : Exc Bool) (m : Machine D)
        → R c m.cpu
        → R c (after_boundary bus honor now c.pc (r, m)).cpu
    unfolding after_boundary finish
    after_boundary-R all honor now c (ok true) m r = r
    after_boundary-R all honor now c (ok false) m r =
        step.frame.chain c m.cpu _ r (run_instruction-R honor now m (all m.cpu.sr))
    after_boundary-R all honor now c (fault k) m r = caught-R c c.pc (fault k, m.cpu) r
    after_boundary-R all honor now c (error e) m r = caught-R c c.pc (error e, m.cpu) r

    -- A relation that asks nothing of the status is kept by all of `execute`.
    pub execute-R :
        (all : (s : Status) → P s) (honor : Bool) (now : ℕ) (m : Machine D)
        → R m.cpu (execute bus honor now m).cpu
    unfolding execute
    execute-R all honor now m =
        let s = boundary bus now m in
        after_boundary-R all honor now m.cpu s.0 s.1 (boundary-R now m)
