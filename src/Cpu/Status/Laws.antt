-- ===== src/Cpu/Status/Laws.antt =====
-- The flags against the byte and the masks of the source.
use anc.Base.{
  ℕ, ◌/◌, ◌%◌, ◌≤◌, ◌<◌, bit_and, bit_or, ◌≡◌, refl, Bool, true, arith, ◌==◌, all_below,
  all_below_sound, agree_below,
}
use anc.Cpu.Status.{Status, to_byte, of_byte, keep_protected, enter_system, bit}

byte_table : all_below 256 (λ b. to_byte (of_byte b) == b) ≡ true
unfolding all_below to_byte of_byte
byte_table = refl

-- A byte below 256 is what the flags read from it are stored as.
pub to_byte-of_byte : (b : ℕ) → b < 256 → to_byte (of_byte b) ≡ b
to_byte-of_byte b h = agree_below 256 (λ b. to_byte (of_byte b)) (λ b. b) b byte_table h

-- `(saved & ~(S | I | T)) | (sr & (S | I | T))` on the bytes.
abbrev pub keep_mask : ℕ → ℕ → ℕ
keep_mask sr saved = bit_or (bit_and saved 0xc7) (bit_and sr 0x38)

abbrev keeps_mask : ℕ → ℕ → Bool
keeps_mask saved sr = to_byte (keep_protected (of_byte sr) (of_byte saved)) == keep_mask sr saved

keep_table : all_below 256 (λ saved. all_below 256 (keeps_mask saved)) ≡ true
unfolding all_below to_byte of_byte keep_protected
keep_table = refl

enter_table :
    all_below 256 (λ b. to_byte (enter_system (of_byte b)) == bit_and (bit_or b 8) 0xcf) ≡ true
unfolding all_below to_byte of_byte enter_system
enter_table = refl

-- On bytes, the status that user code gets by restoring a saved one is
-- `(saved & ~(S | I | T)) | (sr & (S | I | T))`, and the one a handler is entered with is
-- `(sr | S) & ~(I | T)`.
pub status_masks :
    (sr saved : ℕ)
    → sr < 256
    → saved < 256
    → (to_byte (keep_protected (of_byte sr) (of_byte saved)) ≡ keep_mask sr saved)
      × (to_byte (enter_system (of_byte sr)) ≡ bit_and (bit_or sr 8) 0xcf)
status_masks sr saved h k = (
  agree_below 256 (λ a. to_byte (keep_protected (of_byte a) (of_byte saved)))
      (λ a. keep_mask a saved) sr
      (all_below_sound 256 (λ b. all_below 256 (keeps_mask b)) saved keep_table k) h,
  agree_below 256 (λ a. to_byte (enter_system (of_byte a))) (λ a. bit_and (bit_or a 8) 0xcf) sr
      enter_table h,
)

bit_le : (b : Bool) → bit b ≤ 1
bit_le b = ground arith

is_one-bit : (b : Bool) (x : ℕ) → x ≡ bit b → (x == 1) ≡ b
is_one-bit b x h = ground arith

-- No flag is lost in the byte.
pub of_byte-to_byte : (s : Status) → of_byte (to_byte s) ≡ s
unfolding of_byte to_byte
of_byte-to_byte s =
    let n = bit_le s.negative in
    let o = bit_le s.overflow in
    let i = bit_le s.external in
    let t = bit_le s.timed in
    let m = bit_le s.system in
    let a = bit_le s.additional in
    let z = bit_le s.zeroed in
    let c = bit_le s.carried in
    λ j. record {
      negative = is_one-bit s.negative (to_byte s / 128 % 2) (omega arith) j;
      overflow = is_one-bit s.overflow (to_byte s / 64 % 2) (omega arith) j;
      external = is_one-bit s.external (to_byte s / 32 % 2) (omega arith) j;
      timed = is_one-bit s.timed (to_byte s / 16 % 2) (omega arith) j;
      system = is_one-bit s.system (to_byte s / 8 % 2) (omega arith) j;
      additional = is_one-bit s.additional (to_byte s / 4 % 2) (omega arith) j;
      zeroed = is_one-bit s.zeroed (to_byte s / 2 % 2) (omega arith) j;
      carried = is_one-bit s.carried (to_byte s % 2) (omega arith) j;
    }

pub to_byte-lt : (s : Status) → to_byte s < 256
unfolding to_byte
to_byte-lt s =
    let n = bit_le s.negative in
    let o = bit_le s.overflow in
    let i = bit_le s.external in
    let t = bit_le s.timed in
    let m = bit_le s.system in
    let a = bit_le s.additional in
    let z = bit_le s.zeroed in let c = bit_le s.carried in omega arith
