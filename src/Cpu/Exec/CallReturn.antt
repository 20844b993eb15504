-- ===== src/Cpu/Exec/CallReturn.antt =====
-- CALL and RET: a subroutine returns to its caller.
use anc.Base.{
  ℕ, ◌+◌, ◌-◌, ◌≤◌, ◌<◌, ◌≡◌, refl, ap, ◌∙◌, ◌⊎◌, inl, inr, Bool, true, false, arith, ltb, ◌==◌,
  if◌then◌else◌, take, u16,
}
use anc.Cpu.State.{Cpu}
use anc.Cpu.Status.{to_byte, of_byte, keep_protected}
use anc.Cpu.Status.Laws.{of_byte-to_byte, to_byte-lt}
use anc.Cpu.Exc.{ok}
use anc.Cpu.Access.{read, check, raw_word, stack_address}
use anc.Cpu.Alu.{restore_status}
use anc.Cpu.Memory.{write, push, store_bytes}
use anc.Cpu.Exec.{call, ret, jump, jump_target}

-- The physical address of the stack's address 0.
abbrev pub base : Cpu → ℕ
base c = if c.sr.system then 0 else c.mtu 0

-- The bytes from `at` on the stack are below the ROM and, in user mode, within the bounds of the stack
-- and of the memory.
abbrev pub HasRoom : Cpu → ℕ → ℕ → Type 0
HasRoom c at w =
    (at + base c + w ≤ 0xff00)
    × ((c.sr.system ≡ true)
        ⊎ ((c.mtu 4 ≤ at + c.mtu 0)
            × (at + c.mtu 0 + w ≤ c.mtu 5 + 1)
            × (at + c.mtu 0 + w ≤ c.mtu 1 + 1)))

stack_address_room :
    (c : Cpu) (at w : ℕ) → 1 ≤ w → HasRoom c at w → stack_address c at w ≡ ok (at + base c)
unfolding stack_address
stack_address_room c at w p (h, inl s) = ground arith
stack_address_room c at w p (h, inr b) = ground arith

check_room :
    (c : Cpu) (at w : ℕ) (writing : Bool)
    → 1 ≤ w
    → HasRoom c at w
    → check c (at + base c) w writing ≡ ok tt
unfolding check
check_room c at w writing p (h, inl s) = ground arith
check_room c at w writing p (h, inr b) = ground arith

abbrev pub stacked : ℕ → ℕ → Cpu → Cpu
stacked v w c = record c { imem = store_bytes (c.sp + base c) v w c.imem; sp = c.sp + w }

-- A push into room succeeds.
pub push_room : (v w : ℕ) (c : Cpu) → 1 ≤ w → HasRoom c c.sp w → push v w c ≡ (ok tt, stacked v w c)
unfolding push write
push_room v w c p h =
    rw (stack_address_room c c.sp w p h, check_room c c.sp w true p h)
      (ap (λ s. (ok tt, record c { imem = store_bytes (c.sp + base c) v w c.imem; sp = s }))
        (omega arith))

-- A part of the span is in the room too.
room_part :
    (c : Cpu) (at w start take : ℕ)
    → at ≤ start
    → start + take ≤ at + w
    → HasRoom c at w
    → HasRoom c start take
room_part c at w start take lo hi (h, inl s) = (omega arith, inl s)
room_part c at w start take lo hi (h, inr (x, y, z)) =
    (omega arith, inr (omega arith, omega arith, omega arith))

abbrev pub called : ℕ → Cpu → Cpu
called address c =
    let d = stacked (to_byte c.sr) 1 (stacked c.pc 2 c) in
    record d { bp = d.sp; pc = jump_target c address }

pub call_lem :
    (address : ℕ) (c : Cpu) → HasRoom c c.sp 3 → call address c ≡ (ok tt, called address c)
unfolding call jump jump_target
call_lem address c h =
    rw
      (
        push_room c.pc 2 c (omega arith) (room_part c c.sp 3 c.sp 2 (omega arith) (omega arith) h),
        push_room (to_byte c.sr) 1 (stacked c.pc 2 c) (omega arith)
            (room_part c c.sp 3 (c.sp + 2) 1 (omega arith) (omega arith) h),
      )
      refl

read_room :
    (c : Cpu) (at w start take : ℕ)
    → 1 ≤ take
    → at ≤ start
    → start + take ≤ at + w
    → HasRoom c at w
    → read c (start + base c) take
      ≡ ok (if take == 1 then c.imem (start + base c) else raw_word c.imem (start + base c))
unfolding read
read_room c at w start take p lo hi h =
    rw (check_room c start take false p (room_part c at w start take lo hi h)) refl

-- The status and the address that RET finds below BP.
abbrev saved_status : Cpu → ℕ
saved_status s = s.imem (s.bp - 3 + 2 + base s)

abbrev saved_pc : Cpu → ℕ
saved_pc s = raw_word s.imem (s.bp - 3 + base s)

frame_u16 : (c : Cpu) (at : ℕ) → HasRoom c at 3 → u16 (at + base c + 2) ≡ at + 2 + base c
frame_u16 c at (h, _) = omega arith

ret_lem :
    (s : Cpu)
    → 3 ≤ s.bp
    → HasRoom s (s.bp - 3) 3
    → ret s ≡ (
      ok tt,
      restore_status (of_byte (saved_status s)) (record s { sp = s.bp - 3; pc = saved_pc s }),
    )
unfolding ret
ret_lem s p h =
    let deep : ltb s.bp 3 ≡ false = ground arith in
    rw
      (
        deep,
        stack_address_room s (s.bp - 3) 3 (omega arith) h,
        frame_u16 s (s.bp - 3) h,
        read_room s (s.bp - 3) 3 (s.bp - 3 + 2) 1 (omega arith) (omega arith) (omega arith) h,
        read_room s (s.bp - 3) 3 (s.bp - 3) 2 (omega arith) (omega arith) (omega arith) h,
      )
      refl

-- What RET restores in the mode of the call.
abbrev pub returned : Cpu → Cpu → Cpu
returned c s = record s {
  sp = c.sp;
  pc = c.pc;
  sr = if c.sr.system then c.sr else keep_protected s.sr c.sr;
}

restore_same :
    (c s : Cpu)
    → s.sr.system ≡ c.sr.system
    → restore_status c.sr (record s { sp = c.sp; pc = c.pc }) ≡ returned c s
unfolding restore_status keep_protected
restore_same c s h = ground (arith, h)

frame_bytes :
    (address : ℕ) (c : Cpu)
    → c.pc < 65536
    → (raw_word (called address c).imem (c.sp + base c) ≡ c.pc)
      × ((called address c).imem (c.sp + 2 + base c) ≡ to_byte c.sr)
unfolding raw_word store_bytes
frame_bytes address c h = (ground (arith, to_byte-lt c.sr), ground (arith, to_byte-lt c.sr))

room_same :
    (c s : Cpu) (at w : ℕ)
    → s.sr.system ≡ c.sr.system
    → s.mtu ≡ c.mtu
    → HasRoom c at w
    → HasRoom s at w
room_same c s at w e m h = rw (e, m) h

-- The bytes that RET finds in a later state, if the three of the frame are as CALL left them.
found_frame :
    (address : ℕ) (c s : Cpu)
    → c.pc < 65536
    → s.bp - 3 ≡ c.sp
    → base s ≡ base c
    → ((b : ℕ) → c.sp + base c ≤ b → b < c.sp + base c + 3 → s.imem b ≡ (called address c).imem b)
    → (of_byte (saved_status s) ≡ c.sr) × (saved_pc s ≡ c.pc)
unfolding raw_word
found_frame address c s p bottom same i =
    let found = frame_bytes address c p in
    let b0 = i (c.sp + base c) (omega arith) (omega arith) in
    let b1 = i (c.sp + base c + 1) (omega arith) (omega arith) in
    let b2 = i (c.sp + 2 + base c) (omega arith) (omega arith) in
    let at : s.bp - 3 + base s ≡ c.sp + base c = omega arith in
    let at2 : s.bp - 3 + 2 + base s ≡ c.sp + 2 + base c = omega arith in
    let low : raw_word s.imem (c.sp + base c) ≡ c.pc = rw (b0, b1) found.0 in
    (
      ap of_byte (ap s.imem at2 ∙ b2 ∙ found.1) ∙ of_byte-to_byte c.sr,
      ap (raw_word s.imem) at ∙ low,
    )

-- With room for three bytes on the stack, CALL succeeds. RET succeeds in every later state in which
-- BP, the mode, the MTU and the three bytes pushed are as CALL left them, whatever SP and the rest
-- are; it restores the caller's SP and PC, and the caller's SR, of which user code keeps its
-- current S, I and T.
pub ret-call :
    (address : ℕ) (c s : Cpu)
    → c.pc < 65536
    → HasRoom c c.sp 3
    → s.bp ≡ (call address c).1.bp
    → s.sr.system ≡ (call address c).1.sr.system
    → s.mtu ≡ (call address c).1.mtu
    → ((b : ℕ) → c.sp + base c ≤ b → b < c.sp + base c + 3 → s.imem b ≡ (call address c).1.imem b)
    → ((call address c).0 ≡ ok tt)
      × (ret s ≡ (
        ok tt,
        record s {
          sp = c.sp;
          pc = c.pc;
          sr = if c.sr.system then c.sr else keep_protected s.sr c.sr;
        },
      ))
ret-call address c s p room = rw (call_lem address c room) λ b e m i.
    let bottom : s.bp - 3 ≡ c.sp = omega arith in
    let same : base s ≡ base c = rw (e, m) refl in
    let (status, target) = found_frame address c s p bottom same i in
    (
      refl,
      rw
          (
            ret_lem s (omega arith) (rw bottom (room_same c s c.sp 3 e m room)),
            status,
            target,
            bottom,
            restore_same c s e,
          )
          refl,
    )
