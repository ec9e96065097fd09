-- ===== src/Net/Swap.antt =====
-- What the byte-order functions do to numbers: they reverse the bytes.
use dev_os.Prelude.{◌∙◌, ◌/◌, ℕ, ◌+◌, ◌*◌, ◌/◌, ◌%◌, ◌^◌, ◌<◌, ◌≡◌, arith, bit_and, bit_or}
use dev_os.Bits.{bit_and_low, bit_or_apart, bit_or_comm}
use dev_os.Net.Order.{htons, htonl}

low_byte : (v : ℕ) → bit_and v 0xFF ≡ v % 256
low_byte v = bit_and_low 8 v

-- Four bytes put together.
join :
    (a b c d : ℕ)
    → a < 256
    → b < 256
    → c < 256
    → d < 256
    → bit_or (bit_or (bit_or (a * 2 ^ 24) (b * 2 ^ 16)) (c * 2 ^ 8)) d
      ≡ a * 2 ^ 24 + b * 2 ^ 16 + c * 2 ^ 8 + d
join a b c d ha hb hc hd =
    let e1 : bit_or (a * 2 ^ 24) (b * 2 ^ 16) ≡ (a * 2 ^ 8 + b) * 2 ^ 16 =
      omega (arith, bit_or_apart 24 (b * 2 ^ 16) a (omega arith)) in
    let e2 : bit_or ((a * 2 ^ 8 + b) * 2 ^ 16) (c * 2 ^ 8) ≡ ((a * 2 ^ 8 + b) * 2 ^ 8 + c) * 2 ^ 8 =
      omega (arith, bit_or_apart 16 (c * 2 ^ 8) (a * 2 ^ 8 + b) (omega arith)) in
    rw (e1, e2)
      (let e3 = bit_or_apart 8 d ((a * 2 ^ 8 + b) * 2 ^ 8 + c) (omega arith) in omega (arith, e3))

pub htonl_lem :
    (v : ℕ)
    → v < 2 ^ 32
    → htonl v ≡ v % 256 * 2 ^ 24 + v / 2 ^ 8 % 256 * 2 ^ 16 + v / 2 ^ 16 % 256 * 2 ^ 8 + v / 2 ^ 24
unfolding htonl
htonl_lem v h =
    rw (low_byte v, low_byte (v / 2 ^ 8), low_byte (v / 2 ^ 16), low_byte (v / 2 ^ 24))
      (let top : v % 256 * 2 ^ 24 % 2 ^ 32 ≡ v % 256 * 2 ^ 24 = omega arith in
        let last : v / 2 ^ 24 % 256 ≡ v / 2 ^ 24 = omega arith in
        rw (top, last)
          (join (v % 256) (v / 2 ^ 8 % 256) (v / 2 ^ 16 % 256) (v / 2 ^ 24) (omega arith)
            (omega arith) (omega arith) (omega arith)))

-- Reversing the four bytes twice.
pub htonl-htonl : (v : ℕ) → v < 2 ^ 32 → htonl (htonl v) ≡ v
htonl-htonl v h =
    let e = htonl_lem v h in
    let b : htonl v < 2 ^ 32 = omega (arith, e) in
    let f = htonl_lem (htonl v) b in omega (arith, e, f)

pub htons_lem : (v : ℕ) → v < 2 ^ 16 → htons v ≡ v % 256 * 256 + v / 256
unfolding htons
htons_lem v h =
    let flip : bit_or (v / 2 ^ 8) (v * 2 ^ 8) ≡ v * 2 ^ 8 + v / 2 ^ 8 =
      bit_or_comm (v / 2 ^ 8) (v * 2 ^ 8) ∙ bit_or_apart 8 (v / 2 ^ 8) v (omega arith) in
    omega (arith, flip)

pub htons-htons : (v : ℕ) → v < 2 ^ 16 → htons (htons v) ≡ v
htons-htons v h =
    let e = htons_lem v h in
    let b : htons v < 2 ^ 16 = omega (arith, e) in
    let f = htons_lem (htons v) b in omega (arith, e, f)
