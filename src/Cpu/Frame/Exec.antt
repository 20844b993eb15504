-- ===== src/Cpu/Frame/Exec.antt =====
-- What the checked writes keep, every unprivileged operation of the switch keeps: memory is written
-- in no other way.
use anc.Base.{ℕ, ◌≤◌, ◌≡◌, refl, ◌≢◌, false, arith, u8}
use anc.Cpu.State.{Cpu}
use anc.Cpu.Status.{Status, to_byte, of_byte}
use anc.Cpu.Monad.{M, modify, reads, ◌>>=◌}
use anc.Cpu.Frame.{Keeps, Keeps->>=, IsStepFrame}
use anc.Cpu.Access.{stack_address, read, check}
use anc.Cpu.Memory.{write, push, pop}
use anc.Cpu.Alu.{nz, restore_status, assign, arith_flags, arith_into, set_register, shift}
use anc.Cpu.Exec.{exec, call, ret}
use anc.Cpu.Operand.{Operand}
use anc.Isa.Encoding.{Encoding}
use anc.Isa.Opcode.{Op, privileged}

module _ (R : Cpu → Cpu → Type 0) (step : IsStepFrame R) where
  seq :
      {A B : Type 0} (m : M A) (f : A → M B)
      → Keeps R m
      → ((a : A) → Keeps R (f a))
      → Keeps R (m >>= f)
  seq = Keeps->>= R step.frame

  -- A change of registers, PC, SP, BP and flags other than S.
  abbrev Quiet : (Cpu → Cpu) → Type 0
  Quiet f =
      (c : Cpu)
      → ((f c).imem ≡ c.imem)
        × ((f c).mtu ≡ c.mtu)
        × ((f c).cpuid ≡ c.cpuid)
        × (c.sr.system ≡ false → (f c).sr.system ≡ false)

  modify-Keeps : (f : Cpu → Cpu) → Quiet f → Keeps R (modify f)
  modify-Keeps f q c = step.quiet c (f c) (q c).0 (q c).1 (q c).2 (q c).3

  pub push-Keeps : (v w : ℕ) → 1 ≤ w → Keeps R (push v w)
  unfolding push
  push-Keeps v w pos = seq (reads λ c. stack_address c c.sp w) _ (step.frame.same) λ at.
      seq (write at v w) _ (step.writes at v w pos)
        λ _. modify-Keeps _ λ c. (refl, refl, refl, λ u. u)

  pub pop-Keeps : (w : ℕ) → Keeps R (pop w)
  unfolding pop stack_address read check
  pop-Keeps w c =
      step.quiet c (pop w c).1 (ground arith) (ground arith) (ground arith) (λ u. ground arith)

  pop_then :
      (w : ℕ) (f : ℕ → Cpu → Cpu) → ((v : ℕ) → Quiet (f v)) → Keeps R (pop w >>= λ v. modify (f v))
  pop_then w f q = seq (pop w) _ (pop-Keeps w) λ v. modify-Keeps (f v) (q v)

  restore_status-Quiet : (s : Status) → Quiet (restore_status s)
  unfolding restore_status
  restore_status-Quiet s c = (ground arith, ground arith, ground arith, λ u. ground arith)

  call-Keeps : (a : ℕ) → Keeps R (call a)
  unfolding call
  call-Keeps a c =
      seq (push c.pc 2) _ (push-Keeps c.pc 2 (omega arith))
        (λ _.
          seq (push (to_byte c.sr) 1) _ (push-Keeps (to_byte c.sr) 1 (omega arith))
            λ _. modify-Keeps _ λ s. (refl, refl, refl, λ u. u))
        c

  ret-Keeps : Keeps R ret
  unfolding ret stack_address read check
  ret-Keeps c =
      step.quiet c (ret c).1 (ground arith) (ground arith) (ground arith) (λ u. ground arith)

  pub exec-Keeps :
      (now : ℕ) (op : Op) (e : Encoding) (x : Operand)
      → 1 ≤ e.width
      → privileged op ≡ false
      → op ≢ Op.syscall
      → Keeps R (exec now op e x)
  unfolding exec privileged assign arith_flags arith_into shift set_register nz
  exec-Keeps now Op.syscall e x w p n c = absurd (n refl)
  exec-Keeps now Op.call e x w p n c = call-Keeps x.address c
  exec-Keeps now Op.ret e x w p n c = ret-Keeps c
  exec-Keeps now Op.push e x w p n c = push-Keeps x.payload e.width w c
  exec-Keeps now Op.pop e x w p n c =
      pop_then e.width (λ v. assign e.reg v e.width) (λ v s. (refl, refl, refl, λ u. u)) c
  exec-Keeps now Op.phpc e x w p n c = push-Keeps c.pc 2 (omega arith) c
  exec-Keeps now Op.popc e x w p n c = pop_then 2 _ (λ v s. (refl, refl, refl, λ u. u)) c
  exec-Keeps now Op.phsr e x w p n c = push-Keeps (to_byte c.sr) 1 (omega arith) c
  exec-Keeps now Op.posr e x w p n c = pop_then 1 _ (λ v. restore_status-Quiet (of_byte v)) c
  exec-Keeps now Op.phsp e x w p n c = push-Keeps c.sp 2 (omega arith) c
  exec-Keeps now Op.posp e x w p n c = pop_then 2 _ (λ v s. (refl, refl, refl, λ u. u)) c
  exec-Keeps now Op.phbp e x w p n c = push-Keeps c.bp 2 (omega arith) c
  exec-Keeps now Op.pobp e x w p n c = pop_then 2 _ (λ v s. (refl, refl, refl, λ u. u)) c
  exec-Keeps now Op.store e x w p n c =
      seq (write x.address x.payload e.width) _ (step.writes x.address x.payload e.width w)
        (λ _. modify-Keeps _ λ s. (refl, refl, refl, λ u. u)) c
  exec-Keeps now Op.stsr e x w p n c = step.writes x.address (to_byte c.sr) 1 (omega arith) c
  exec-Keeps now Op.stsp e x w p n c = step.writes x.address c.sp 2 (omega arith) c
  exec-Keeps now Op.stbp e x w p n c = step.writes x.address c.bp 2 (omega arith) c
  exec-Keeps now Op.ldsr e x w p n c =
      modify-Keeps (restore_status (of_byte (u8 x.payload)))
        (restore_status-Quiet (of_byte (u8 x.payload))) c
  exec-Keeps now op e x w p n c =
      step.quiet c (exec now op e x c).1 (ground arith) (ground arith) (ground arith)
        (λ u. ground arith)
