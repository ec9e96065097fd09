-- ===== src/Mouse/Packet.antt =====
-- Decoding of the nine-bit movements in kernel/drivers/mouse.c.
use dev_os.Prelude.{
  ℕ, ◌+◌, ◌≤◌, ◌<◌, ◌≡◌, ◌↔◌, arith, ◌!=◌, if◌then◌else◌, Bool, true, false, Bool-cases, inl, inr,
  bit_and, bit_or,
}
use dev_os.Prelude.Int.{ℤ, pos, sub_ℕ}
use dev_os.Word.{u8}
use dev_os.Bits.{bit_or_apart, bit_or_comm}
use dev_os.Mouse.{decode, int8}

-- The movement that a packet reports: nine bits in two's complement, the sign in the flags.
abbrev pub moved : Bool → ℕ → ℤ
moved sign raw = if sign then sub_ℕ raw 256 else pos raw

-- The movements that fit an int8_t: from -128 to 127.
abbrev pub FitsByte : Bool → ℕ → Type 0
FitsByte sign raw = if sign then 128 ≤ raw else raw < 128

with_sign : (raw : ℕ) → raw < 256 → int8 (bit_or raw 0x100) ≡ int8 raw
with_sign raw lt =
    let e : bit_or raw 0x100 ≡ 256 + raw =
      omega (arith, bit_or_comm raw 0x100, bit_or_apart 8 raw 1 lt) in
    let low : u8 (256 + raw) ≡ u8 raw = omega arith in simp (e, low)

int8-moved : (sign : Bool) (raw : ℕ) → raw < 256 → (int8 raw ≡ moved sign raw) ↔ FitsByte sign raw
int8-moved true raw lt = ground arith
int8-moved false raw lt = ground arith

-- The horizontal movement of an event is the one that the packet reports exactly when that fits
-- eight bits: movements of more than 127 are decoded as something else, and the overflow flags,
-- which are for nine bits, do not tell.
pub decode-moved :
    (flags raw_x raw_y : ℕ)
    → raw_x < 256
    → ((decode flags raw_x raw_y).dx ≡ moved (bit_and flags 0x10 != 0) raw_x)
      ↔ FitsByte (bit_and flags 0x10 != 0) raw_x
unfolding decode
decode-moved flags raw_x raw_y lt = elim (Bool-cases (bit_and flags 0x10 != 0)) [
  | inl e ↦ simp (e, with_sign raw_x lt) (int8-moved true raw_x lt)
  | inr e ↦ simp e (int8-moved false raw_x lt)
]
