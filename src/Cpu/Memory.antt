-- ===== src/Cpu/Memory.antt =====
-- Checked writes and the stack of emulator/src/cpu.cc: `write`, `push` and `pop`.
pub mod RoundTrip
use anc.Base.{ℕ, ◌+◌, ◌-◌, ◌/◌, true, ltb, ◌==◌, if◌then◌else◌, u8, u16, update}
use anc.Cpu.Exc.{fault}
use anc.Cpu.Monad.{M, pure, reads, modify, ◌>>=◌, ◌>>◌}
use anc.Cpu.Access.{check, read, stack_address}

unfoldable pub store_bytes : ℕ → ℕ → ℕ → (ℕ → ℕ) → ℕ → ℕ
store_bytes a value width m =
    if width == 1
    then update m a (u8 value)
    else update (update m a (u8 (value / 256))) (a + 1) (u8 value)

unfoldable pub write : ℕ → ℕ → ℕ → M (Unit {0})
write a value width = do
  reads λ c. check c a width true
  modify λ c. record c { imem = store_bytes a value width c.imem }

unfoldable pub push : ℕ → ℕ → M (Unit {0})
push value width = do
  at ← reads (λ c. stack_address c c.sp width)
  write at value width
  modify λ c. record c { sp = u16 (c.sp + width) }

unfoldable pub pop : ℕ → M ℕ
pop width c =
    if ltb c.sp width
    then (fault 4, c)
    else (do
      at ← reads (λ c. stack_address c (c.sp - width) width)
      value ← reads (λ c. read c at width)
      modify λ c. record c { sp = u16 (c.sp - width) }
      pure value)
        c
