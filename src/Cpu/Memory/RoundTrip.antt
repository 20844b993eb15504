-- ===== src/Cpu/Memory/RoundTrip.antt =====
-- What is written is read back, and what is pushed is popped.
use anc.Base.{ℕ, ◌+◌, ◌≤◌, ◌<◌, ◌≡◌, ◌⊎◌, arith, IsWidth}
use anc.Cpu.State.{Cpu}
use anc.Cpu.Exc.{ok}
use anc.Cpu.Access.{read, check, raw_word, stack_address}
use anc.Cpu.Alu.{modulus}
use anc.Cpu.Memory.{write, push, pop, store_bytes}

-- A value of one or two bytes that a write has accepted is read back at its address, and no other byte
-- is changed.
pub read-write :
    (a v w : ℕ) (c d : Cpu)
    → IsWidth w
    → v < modulus w
    → write a v w c ≡ (ok tt, d)
    → (read d a w ≡ ok v) × ((b : ℕ) → (b < a) ⊎ (a + w ≤ b) → d.imem b ≡ c.imem b)
unfolding write read check store_bytes raw_word
read-write a v w c d i h e = (ground arith, λ b o. ground arith)

-- A value of one or two bytes that a push has accepted is popped again, and SP is back where it was.
pub pop-push :
    (v w : ℕ) (c d : Cpu)
    → IsWidth w
    → v < modulus w
    → push v w c ≡ (ok tt, d)
    → pop w d ≡ (ok v, record d { sp = c.sp })
unfolding push pop stack_address write read check store_bytes raw_word
pop-push v w c d i h e = ground arith
