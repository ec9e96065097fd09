-- ===== src/Bits/Laws.antt =====
-- The value of bit `j` of a word, and what each operation does to it.
use dev_os.Prelude.{
  ℕ, zero, suc, ◌-◌, ◌/◌, ◌%◌, ◌^◌, ◌≤◌, ◌<◌, min, max, bit_and, bit_or, ◌≡◌, refl, arith, ◌==◌,
  if◌then◌else◌, pow-suc, one-le-pow, sym, ◌∙◌, ap, ◌*◌,
}
use Prim.Native.Nat.{bit_and-bitwise, bit_or-bitwise, ◌+◌}
use native.Mathlib.Nat.{div-add-mod', mod-lt, mul_assoc}
use dev_os.Bits.Step.{bit_or-halves, bit_and-halves}

-- Bit `j` of `w`, 0 or 1.
unfoldable pub bit : ℕ → ℕ → ℕ
bit zero w = w % 2
bit (suc j) w = bit j (w / 2)

pub bit-lt : (j w : ℕ) → bit j w < 2
unfolding bit
bit-lt zero w = omega arith
bit-lt (suc j) w = bit-lt j (w / 2)

pub bit-bit_or : (j a b : ℕ) → bit j (bit_or a b) ≡ max (bit j a) (bit j b)
unfolding bit
bit-bit_or zero a b = omega (arith, bit_or-halves a b)
bit-bit_or (suc j) a b =
    let e : bit_or a b / 2 ≡ bit_or (a / 2) (b / 2) = omega (arith, bit_or-halves a b) in
    rw e (bit-bit_or j (a / 2) (b / 2))

pub bit-bit_and : (j a b : ℕ) → bit j (bit_and a b) ≡ min (bit j a) (bit j b)
unfolding bit
bit-bit_and zero a b = omega (arith, bit_and-halves a b)
bit-bit_and (suc j) a b =
    let e : bit_and a b / 2 ≡ bit_and (a / 2) (b / 2) = omega (arith, bit_and-halves a b) in
    rw e (bit-bit_and j (a / 2) (b / 2))

pub bit_zero : (j : ℕ) → bit j 0 ≡ 0
unfolding bit
bit_zero zero = refl
bit_zero (suc j) = bit_zero j

-- `1 << k` has bit `k` and no other.
pub bit_pow : (j k : ℕ) → bit j (2 ^ k) ≡ (if j == k then 1 else 0)
unfolding bit
bit_pow zero zero = refl
bit_pow zero (suc k) = ground (arith, pow-suc 2 k)
bit_pow (suc j) zero = bit_zero j ∙ (ground arith)
bit_pow (suc j) (suc k) =
    let e : 2 ^ suc k / 2 ≡ 2 ^ k = omega (arith, pow-suc 2 k) in
    rw e (bit_pow j k ∙ (ground arith))

-- Two numbers below `2 ^ n` are equal if their first `n` bits are.
pub bit_ext : (n a b : ℕ) → a < 2 ^ n → b < 2 ^ n → ((j : ℕ) → j < n → bit j a ≡ bit j b) → a ≡ b
unfolding bit
bit_ext zero a b ha hb h = omega arith
bit_ext (suc n) a b ha hb h =
    let low : a % 2 ≡ b % 2 = h 0 (omega arith) in
    let high : a / 2 ≡ b / 2 =
      bit_ext n (a / 2) (b / 2) (omega (arith, pow-suc 2 n)) (omega (arith, pow-suc 2 n))
        (λ j p. h (suc j) (omega arith)) in
    omega arith

-- `~w` on `n` bits flips each of them.
pub bit_complement : (n j w : ℕ) → w < 2 ^ n → j < n → bit j (2 ^ n - 1 - w) ≡ 1 - bit j w
unfolding bit
bit_complement zero j w hw hj = absurd (omega arith)
bit_complement (suc n) zero w hw hj = omega (arith, pow-suc 2 n)
bit_complement (suc n) (suc j) w hw hj =
    let e : (2 ^ suc n - 1 - w) / 2 ≡ 2 ^ n - 1 - w / 2 = omega (arith, pow-suc 2 n) in
    rw e (bit_complement n j (w / 2) (omega (arith, pow-suc 2 n)) (omega arith))

-- No bit stands at or above the width.
pub bit_above : (n j w : ℕ) → w < 2 ^ n → n ≤ j → bit j w ≡ 0
unfolding bit
bit_above zero j w hw hj = let e : w ≡ 0 = omega arith in rw e (bit_zero j)
bit_above (suc n) zero w hw hj = absurd (omega arith)
bit_above (suc n) (suc j) w hw hj = bit_above n j (w / 2) (omega (arith, pow-suc 2 n)) (omega arith)

bit_or_bound_step : (n a b : ℕ) → bit_or (a / 2) (b / 2) < 2 ^ n → bit_or a b < 2 ^ suc n
bit_or_bound_step n a b h = omega (arith, pow-suc 2 n, bit_or-halves a b)

pub bit_or_bound : (n a b : ℕ) → a < 2 ^ n → b < 2 ^ n → bit_or a b < 2 ^ n
bit_or_bound zero a b ha hb =
    let e : a ≡ 0 = omega arith in let f : b ≡ 0 = omega arith in rw (e, f) (omega arith)
bit_or_bound (suc n) a b ha hb =
    bit_or_bound_step n a b
      (bit_or_bound n (a / 2) (b / 2) (omega (arith, pow-suc 2 n)) (omega (arith, pow-suc 2 n)))

pub bit_and-le : (n a b : ℕ) → a < 2 ^ n → bit_and a b ≤ a
bit_and-le zero a b ha = let e : a ≡ 0 = omega arith in rw (e, bit_and-bitwise 0 b) (omega arith)
bit_and-le (suc n) a b ha =
    omega (arith, bit_and-halves a b, bit_and-le n (a / 2) (b / 2) (omega (arith, pow-suc 2 n)))

bit_and_zero_fuel : (n a : ℕ) → a ≤ n → bit_and a 0 ≡ 0
bit_and_zero_fuel n zero h = bit_and-bitwise 0 0
bit_and_zero_fuel zero (suc a) h = absurd (omega arith)
bit_and_zero_fuel (suc n) (suc a) h =
    omega (arith, bit_and-halves (suc a) 0, bit_and_zero_fuel n (suc a / 2) (omega arith))

pub bit_and_zero : (a : ℕ) → bit_and a 0 ≡ 0
bit_and_zero a = bit_and_zero_fuel a a (omega arith)

-- Masking with one bit leaves that bit in its place.
pub bit_and_pow : (k w : ℕ) → bit_and w (2 ^ k) ≡ bit k w * 2 ^ k
unfolding bit
bit_and_pow zero w = omega (arith, bit_and-halves w 1, bit_and_zero (w / 2))
bit_and_pow (suc k) w =
    let e : 2 ^ suc k / 2 ≡ 2 ^ k = omega (arith, pow-suc 2 k) in
    let r : bit_and (w / 2) (2 ^ suc k / 2) ≡ bit k (w / 2) * 2 ^ k =
      rw e (bit_and_pow k (w / 2)) in
    omega (
      arith,
      bit_and-halves w (2 ^ suc k),
      pow-suc 2 k,
      ap (λ (t : ℕ). bit k (w / 2) * t) (pow-suc 2 k),
    )

-- Masking with `n` ones keeps a number of `n` bits.
pub bit_and_ones : (n w : ℕ) → w < 2 ^ n → bit_and w (2 ^ n - 1) ≡ w
bit_and_ones zero w h = omega (arith, bit_and_zero w)
bit_and_ones (suc n) w h =
    let half : (2 ^ suc n - 1) / 2 ≡ 2 ^ n - 1 = omega (arith, pow-suc 2 n) in
    let ih : bit_and (w / 2) ((2 ^ suc n - 1) / 2) ≡ w / 2 =
      rw half (bit_and_ones n (w / 2) (omega (arith, pow-suc 2 n))) in
    omega (arith, bit_and-halves w (2 ^ suc n - 1), pow-suc 2 n, one-le-pow n 2)

fields_low : (k q r : ℕ) → r < 2 ^ k → bit_and (q * 2 ^ k + r) (2 ^ k - 1) ≡ r
fields_low zero q r h = omega (arith, bit_and_zero (q * 1 + r))
fields_low (suc k) q r h =
    let half : (2 ^ suc k - 1) / 2 ≡ 2 ^ k - 1 = omega (arith, pow-suc 2 k) in
    let double : q * 2 ^ suc k ≡ 2 * (q * 2 ^ k) =
      omega (arith, ap (λ (t : ℕ). q * t) (pow-suc 2 k)) in
    let lower : (q * 2 ^ suc k + r) / 2 ≡ q * 2 ^ k + r / 2 = omega arith in
    let ih : bit_and ((q * 2 ^ suc k + r) / 2) ((2 ^ suc k - 1) / 2) ≡ r / 2 =
      rw (half, lower) (fields_low k q (r / 2) (omega (arith, pow-suc 2 k))) in
    omega (arith, bit_and-halves (q * 2 ^ suc k + r) (2 ^ suc k - 1), pow-suc 2 k, one-le-pow k 2)

-- Masking with the `k` low ones is the remainder by `2 ^ k`.
pub bit_and_low : (k w : ℕ) → bit_and w (2 ^ k - 1) ≡ w % 2 ^ k
bit_and_low k w =
    let whole : w / 2 ^ k * 2 ^ k + w % 2 ^ k ≡ w = div-add-mod' w (2 ^ k) in
    ap (λ (t : ℕ). bit_and t (2 ^ k - 1)) (sym whole)
    ∙ fields_low k (w / 2 ^ k) (w % 2 ^ k) (mod-lt w (omega (arith, one-le-pow k 2)))

pub bit_and-le_right : (n a b : ℕ) → b < 2 ^ n → bit_and a b ≤ b
bit_and-le_right zero a b h = let e : b ≡ 0 = omega arith in rw (e, bit_and_zero a) (omega arith)
bit_and-le_right (suc n) a b h =
    omega
      (arith, bit_and-halves a b, bit_and-le_right n (a / 2) (b / 2) (omega (arith, pow-suc 2 n)))

-- Shifting both operands shifts the result.
pub bit_and_shift : (k a b : ℕ) → bit_and (a * 2 ^ k) (b * 2 ^ k) ≡ bit_and a b * 2 ^ k
bit_and_shift zero a b =
    let p : a * 1 ≡ a = omega arith in let q : b * 1 ≡ b = omega arith in rw (p, q) (omega arith)
bit_and_shift (suc k) a b =
    let double : (c : ℕ) → c * 2 ^ suc k ≡ 2 * (c * 2 ^ k) =
      λ c. omega (arith, ap (λ (t : ℕ). c * t) (pow-suc 2 k)) in
    let p : a * 2 ^ suc k / 2 ≡ a * 2 ^ k = omega (arith, double a) in
    let q : b * 2 ^ suc k / 2 ≡ b * 2 ^ k = omega (arith, double b) in
    let ih : bit_and (a * 2 ^ suc k / 2) (b * 2 ^ suc k / 2) ≡ bit_and a b * 2 ^ k =
      rw (p, q) (bit_and_shift k a b) in
    omega (
      arith,
      bit_and-halves (a * 2 ^ suc k) (b * 2 ^ suc k),
      double a,
      double b,
      double (bit_and a b),
    )

bit_or_zero_fuel : (n a : ℕ) → a ≤ n → bit_or a 0 ≡ a
bit_or_zero_fuel n zero h = bit_or-bitwise 0 0
bit_or_zero_fuel zero (suc a) h = absurd (omega arith)
bit_or_zero_fuel (suc n) (suc a) h =
    omega (arith, bit_or-halves (suc a) 0, bit_or_zero_fuel n (suc a / 2) (omega arith))

zero_bit_or : (n b : ℕ) → b ≤ n → bit_or 0 b ≡ b
zero_bit_or n zero h = bit_or-bitwise 0 0
zero_bit_or zero (suc b) h = absurd (omega arith)
zero_bit_or (suc n) (suc b) h =
    omega (arith, bit_or-halves 0 (suc b), zero_bit_or n (suc b / 2) (omega arith))

bit_or_comm_fuel : (n a b : ℕ) → a ≤ n → bit_or a b ≡ bit_or b a
bit_or_comm_fuel n zero b h =
    zero_bit_or b b (omega arith) ∙ sym (bit_or_zero_fuel b b (omega arith))
bit_or_comm_fuel zero (suc a) b h = absurd (omega arith)
bit_or_comm_fuel (suc n) (suc a) b h = omega (
  arith,
  bit_or-halves (suc a) b,
  bit_or-halves b (suc a),
  bit_or_comm_fuel n (suc a / 2) (b / 2) (omega arith),
)

-- Numbers that share no bit: one is below `2 ^ n`, the other a multiple of it.
pub bit_or_apart : (n a b : ℕ) → a < 2 ^ n → bit_or (b * 2 ^ n) a ≡ b * 2 ^ n + a
bit_or_apart zero a b h =
    let e : a ≡ 0 = omega arith in
    rw e (let z = bit_or_zero_fuel (b * 1) (b * 1) (omega arith) in omega (arith, z))
bit_or_apart (suc n) a b h =
    let w : 2 ^ suc n ≡ 2 ^ n * 2 = pow-suc 2 n in
    let m : b * 2 ^ suc n ≡ b * 2 ^ n * 2 = ap (λ (t : ℕ). b * t) w ∙ sym (mul_assoc b (2 ^ n) 2) in
    let e : b * 2 ^ suc n / 2 ≡ b * 2 ^ n = omega (arith, m) in
    let ih : bit_or (b * 2 ^ suc n / 2) (a / 2) ≡ b * 2 ^ n + a / 2 =
      rw e (bit_or_apart n (a / 2) b (omega (arith, w))) in
    omega (arith, bit_or-halves (b * 2 ^ suc n) a, ih, m)

pub bit_or_comm : (a b : ℕ) → bit_or a b ≡ bit_or b a
bit_or_comm a b = bit_or_comm_fuel a a b (omega arith)
