-- ===== src/Cpu/Exec.antt =====
-- The `switch (op)` of `execute` in emulator/src/cpu.cc, but for the bus operations.
pub mod CallReturn
use anc.Base.{
  ℕ, ◌+◌, ◌-◌, ◌%◌, bit_and, bit_or, bit_xor, Bool, true, false, not, xor, ◌&&◌, ◌||◌, none, some,
  ltb, ◌==◌, if◌then◌else◌, u8, u16, update,
}
use anc.Cpu.State.{Cpu}
use anc.Cpu.Status.{Status, to_byte, of_byte}
use anc.Cpu.Exc.{ok, fault}
use anc.Cpu.Monad.{M, throw, reads, modify, ◌>>=◌, ◌>>◌}
use anc.Cpu.Access.{read, stack_address}
use anc.Cpu.Memory.{write, push, pop}
use anc.Cpu.Alu.{
  nz, set_register, assign, restore_status, arith_flags, arith_into, sum_of, popcount, shift,
  sign_bit,
}
use anc.Cpu.Interrupt.{interrupt}
use anc.Cpu.Operand.{Operand, register_value}
use anc.Isa.Opcode.{Op}
use anc.Isa.Encoding.{Encoding}

-- `uint16_t(address - ((sr & S) ? 0 : mtu[0]))`: user addresses are offsets from the lower bound.
unfoldable pub jump_target : Cpu → ℕ → ℕ
jump_target c address = u16 (address + 65536 - (if c.sr.system then 0 else c.mtu 0))

unfoldable pub jump : ℕ → Cpu → Cpu
unfolding jump_target
jump address c = record c { pc = jump_target c address }

abbrev pub jump_if : (Status → Bool) → ℕ → M (Unit {0})
jump_if test address = modify λ c. if test c.sr then jump address c else c

abbrev pub set_status : (Status → Status) → M (Unit {0})
set_status f = modify λ c. record c { sr = f c.sr }

unfoldable pub call : ℕ → M (Unit {0})
unfolding jump
call address = do
  c ← (λ s. (ok s, s))
  push c.pc 2
  push (to_byte c.sr) 1
  modify λ s. jump address (record s { bp = s.sp })

-- BP marks the first local byte, immediately after PC and SR.
unfoldable pub ret : M (Unit {0})
unfolding restore_status of_byte
ret c =
    if ltb c.bp 3
    then (fault 4, c)
    else (do
      frame ← reads (λ s. stack_address s (s.bp - 3) 3)
      saved ← reads (λ s. read s (u16 (frame + 2)) 1)
      target ← reads (λ s. read s frame 2)
      modify λ s. restore_status (of_byte saved) (record s { sp = s.bp - 3; pc = target }))
        c

-- SIGN changes N only and PAR changes Z only.
unfoldable pub sign : ℕ → ℕ → M (Unit {0})
sign width payload = set_status λ s. record s { negative = sign_bit width payload }

unfoldable pub parity : ℕ → M (Unit {0})
unfolding popcount
parity payload = set_status λ s. record s { zeroed = popcount 16 payload % 2 == 0 }

-- `std::swap(reg[a], reg[b])`.
unfoldable pub swap : ℕ → ℕ → Cpu → Cpu
swap a b c = record c { reg = update (update c.reg a (c.reg b)) b (c.reg a) }

unfoldable pub store : ℕ → ℕ → ℕ → M (Unit {0})
store address payload width = do write address payload width; modify (nz payload width)

-- `mtu[i] = data`.
abbrev pub set_mtu : ℕ → ℕ → M (Unit {0})
set_mtu i payload = modify λ c. record c { mtu = update c.mtu i payload }

abbrev pub get_mtu : ℕ → Encoding → M (Unit {0})
get_mtu i e = modify λ c. assign e.reg (c.mtu i) e.width c

abbrev left_of : Encoding → Cpu → ℕ
left_of e c = register_value e.width e.reg c

abbrev pub logic : (ℕ → ℕ) → Encoding → M (Unit {0})
logic f e = modify λ c. assign e.reg (f (left_of e c)) e.width c

abbrev pub arith_step : Encoding → (ℕ → ℕ) → (ℕ → ℕ) → Bool → M (Unit {0})
arith_step e l r subtract =
    modify λ c. arith_into e.reg e.width (l (left_of e c)) (r (left_of e c)) subtract c

abbrev pub shift_step : Bool → Encoding → ℕ → M (Unit {0})
shift_step to_left e n = modify λ c. shift to_left e.reg e.width (left_of e c) n c

-- `now` is the reading of the steady clock.
unfoldable pub exec : ℕ → Op → Encoding → Operand → M (Unit {0})
unfolding jump call ret sign parity swap store
exec now Op.kill e x = modify λ c. record c { killed = true; running = false }
exec now Op.reset e x = interrupt 4 (some 5)
exec now Op.cpuid e x = modify λ c. record c { reg = update c.reg 0 c.cpuid }
exec now Op.syscall e x = interrupt 6 none
exec now Op.call e x = call x.address
exec now Op.ret e x = ret
exec now Op.push e x = push x.payload e.width
exec now Op.pop e x = do v ← pop e.width; modify (assign e.reg v e.width)
exec now Op.phpc e x = do c ← (λ s. (ok s, s)); push c.pc 2
exec now Op.popc e x = do v ← pop 2; modify λ c. record c { pc = v }
exec now Op.phsr e x = do c ← (λ s. (ok s, s)); push (to_byte c.sr) 1
exec now Op.posr e x = do saved ← pop 1; modify (restore_status (of_byte saved))
exec now Op.phsp e x = do c ← (λ s. (ok s, s)); push c.sp 2
exec now Op.posp e x = do v ← pop 2; modify λ c. record c { sp = v }
exec now Op.phbp e x = do c ← (λ s. (ok s, s)); push c.bp 2
exec now Op.pobp e x = do v ← pop 2; modify λ c. nz v 2 (record c { bp = v })
exec now Op.seti e x = set_status λ s. record s { external = true }
exec now Op.sett e x = set_status λ s. record s { timed = true }
exec now Op.sets e x = set_status λ s. record s { system = true }
exec now Op.clri e x = set_status λ s. record s { external = false }
exec now Op.clrt e x = set_status λ s. record s { timed = false }
exec now Op.clrs e x = modify λ c. restore_status (record (c.sr) { system = false }) c
exec now Op.clrn e x = set_status λ s. record s { negative = false }
exec now Op.clro e x = set_status λ s. record s { overflow = false }
exec now Op.clrc e x = set_status λ s. record s { carried = false }
exec now Op.pareq e x = set_status λ s. record s { additional = true }
exec now Op.careq e x = set_status λ s. record s { additional = false }
exec now Op.cmp e x =
    modify λ c. arith_flags e.width (sum_of e.width (left_of e c) x.payload true) c
exec now Op.jmp e x = jump_if (λ s. true) x.address
exec now Op.jeq e x = jump_if (λ s. s.zeroed) x.address
exec now Op.jne e x = jump_if (λ s. not s.zeroed) x.address
exec now Op.jge e x = jump_if (λ s. not (xor s.negative s.overflow)) x.address
exec now Op.jgr e x = jump_if (λ s. not (xor s.negative s.overflow) && not s.zeroed) x.address
exec now Op.jle e x = jump_if (λ s. xor s.negative s.overflow || s.zeroed) x.address
exec now Op.jls e x = jump_if (λ s. xor s.negative s.overflow) x.address
exec now Op.jo e x = jump_if (λ s. s.overflow) x.address
exec now Op.jno e x = jump_if (λ s. not s.overflow) x.address
exec now Op.jn e x = jump_if (λ s. s.negative) x.address
exec now Op.jnn e x = jump_if (λ s. not s.negative) x.address
exec now Op.inc e x = arith_step e (λ v. v) (λ _. 1) false
exec now Op.dec e x = arith_step e (λ v. v) (λ _. 1) true
exec now Op.add e x = arith_step e (λ v. v) (λ _. x.payload) false
exec now Op.sub e x = arith_step e (λ v. v) (λ _. x.payload) true
exec now Op.neg e x = arith_step e (λ _. 0) (λ v. v) true
exec now Op.and e x = logic (λ v. bit_and v x.payload) e
exec now Op.or e x = logic (λ v. bit_or v x.payload) e
exec now Op.xor e x = logic (λ v. bit_xor v x.payload) e
exec now Op.not e x = logic (λ v. 65535 - v) e
exec now Op.sign e x = sign e.width x.payload
exec now Op.par e x = parity x.payload
exec now Op.shl e x = shift_step true e x.payload
exec now Op.shr e x = shift_step false e x.payload
exec now Op.load e x = modify (assign e.reg x.payload e.width)
exec now Op.tran e x = modify (assign e.reg x.payload e.width)
exec now Op.store e x = store x.address x.payload e.width
exec now Op.swap e x = modify (swap e.reg e.source)
exec now Op.ldsr e x = modify (restore_status (of_byte (u8 x.payload)))
exec now Op.ldsp e x = modify λ c. record c { sp = x.payload }
exec now Op.ldbp e x = modify λ c. record c { bp = x.payload }
exec now Op.stsr e x = do c ← (λ s. (ok s, s)); write x.address (to_byte c.sr) 1
exec now Op.stsp e x = do c ← (λ s. (ok s, s)); write x.address c.sp 2
exec now Op.stbp e x = do c ← (λ s. (ok s, s)); write x.address c.bp 2
exec now Op.trsr e x = modify λ c. set_register e.reg (to_byte c.sr) 1 c
exec now Op.trsp e x = modify λ c. assign e.reg c.sp e.width c
exec now Op.trbp e x = modify λ c. assign e.reg c.bp e.width c
exec now Op.sili e x = set_mtu 0 x.payload
exec now Op.sihi e x = set_mtu 1 x.payload
exec now Op.seli e x = set_mtu 2 x.payload
exec now Op.sehi e x = set_mtu 3 x.payload
exec now Op.sbp e x = set_mtu 4 x.payload
exec now Op.stp e x = set_mtu 5 x.payload
exec now Op.tili e x = get_mtu 0 e
exec now Op.tihi e x = get_mtu 1 e
exec now Op.teli e x = get_mtu 2 e
exec now Op.tehi e x = get_mtu 3 e
exec now Op.tbp e x = get_mtu 4 e
exec now Op.ttp e x = get_mtu 5 e
exec now Op.lcpid e x = modify λ c. record c { cpuid = x.payload }
exec now Op.tcpid e x = modify λ c. assign e.reg c.cpuid e.width c
exec now Op.time e x = modify λ c. record c {
  timer = x.payload;
  timer_running = false;
  sr = record (c.sr) { zeroed = x.payload == 0 };
}
exec now Op.tstart e x = modify λ c. record c { timer_running = true; timer_tick = now }
exec now Op.tstop e x = modify λ c. record c { timer_running = false }
exec now Op.trt e x = modify λ c. assign e.reg c.timer e.width c
exec now _ e x = throw 0
