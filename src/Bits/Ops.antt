-- ===== src/Bits/Ops.antt =====
-- The operations on 64-bit words that the kernel writes with shifts: setting, clearing and testing
-- one bit, and the compiler's count of trailing zeros.
use dev_os.Prelude.{
  ℕ, zero, suc, ◌-◌, ◌*◌, ◌/◌, ◌%◌, ◌^◌, ◌≤◌, ◌<◌, ◌≡◌, ◌≢◌, arith, Bool, true, false, ◌==◌, ◌!=◌,
  bit_and, bit_or, if◌then◌else◌, pow-suc, one-le-pow, Bool-cases, inl, inr, ==_iff,
}
use dev_os.Bits.Laws.{
  bit, bit-lt, bit-bit_or, bit-bit_and, bit_pow, bit_complement, bit_and_pow, bit_or_bound,
  bit_and-le,
}

-- `~w` on a uint64_t.
abbrev pub not64 : ℕ → ℕ
not64 w = 2 ^ 64 - 1 - w

-- `w | (1ULL << k)`
unfoldable pub set_bit : ℕ → ℕ → ℕ
set_bit w k = bit_or w (2 ^ k)

-- `w & ~(1ULL << k)`
unfoldable pub clear_bit : ℕ → ℕ → ℕ
clear_bit w k = bit_and w (not64 (2 ^ k))

-- `!!(w & (1ULL << k))`
unfoldable pub has_bit : ℕ → ℕ → Bool
has_bit w k = bit_and w (2 ^ k) != 0

-- `__builtin_ctzll`, on the `n` low bits of a word.
unfoldable pub ctz : ℕ → ℕ → ℕ
ctz zero w = 0
ctz (suc n) w = if w % 2 == 1 then 0 else suc (ctz n (w / 2))

pow_mono : (k n : ℕ) → k < n → 2 ^ k < 2 ^ n
pow_mono k zero h = absurd (omega arith)
pow_mono zero (suc n) h = omega (arith, pow-suc 2 n, one-le-pow n 2)
pow_mono (suc k) (suc n) h = omega (arith, pow-suc 2 n, pow-suc 2 k, pow_mono k n (omega arith))

pub pow_lt : (k : ℕ) → k < 64 → 2 ^ k < 2 ^ 64
pow_lt k h = pow_mono k 64 h

pub bit-set_bit : (j w k : ℕ) → bit j (set_bit w k) ≡ (if j == k then 1 else bit j w)
unfolding set_bit
bit-set_bit j w k = ground (arith, bit-bit_or j w (2 ^ k), bit_pow j k, bit-lt j w)

pub bit-clear_bit :
    (j w k : ℕ) → j < 64 → k < 64 → bit j (clear_bit w k) ≡ (if j == k then 0 else bit j w)
unfolding clear_bit
bit-clear_bit j w k hj hk = ground (
  arith,
  bit-bit_and j w (not64 (2 ^ k)),
  bit_complement 64 j (2 ^ k) (pow_lt k hk) hj,
  bit_pow j k,
  bit-lt j w,
)

-- A bit that is not 0 stands in the word after masking.
pub has_bit_lem : (w k : ℕ) → has_bit w k ≡ (bit k w == 1)
unfolding has_bit
has_bit_lem w k = elim (Bool-cases (bit k w == 1)) [
  | inl e ↦ ground (arith, scaled 1 ((==_iff (bit k w) 1).0 e), one-le-pow k 2)
  | inr e ↦ ground (arith, scaled 0 (ground (arith, bit-lt k w)))
]
  where
    scaled : (b : ℕ) → bit k w ≡ b → bit_and w (2 ^ k) ≡ b * 2 ^ k
    scaled b e = rw (← e) (bit_and_pow k w)

pub has_bit-set_bit : (w k j : ℕ) → has_bit (set_bit w k) j ≡ (if j == k then true else has_bit w j)
has_bit-set_bit w k j = rw (has_bit_lem, bit-set_bit, has_bit_lem w j) (ground arith)

pub has_bit-clear_bit :
    (w k j : ℕ)
    → j < 64
    → k < 64
    → has_bit (clear_bit w k) j ≡ (if j == k then false else has_bit w j)
has_bit-clear_bit w k j hj hk =
    rw (has_bit_lem, bit-clear_bit j w k hj hk, has_bit_lem w j) (ground arith)

pub set_bit-lt : (w k : ℕ) → w < 2 ^ 64 → k < 64 → set_bit w k < 2 ^ 64
unfolding set_bit
set_bit-lt w k hw hk = bit_or_bound 64 w (2 ^ k) hw (pow_lt k hk)

pub clear_bit-le : (w k : ℕ) → w < 2 ^ 64 → clear_bit w k ≤ w
unfolding clear_bit
clear_bit-le w k hw = bit_and-le 64 w (not64 (2 ^ k)) hw

-- A word that is not 0 has a lowest bit, which `ctz` finds.
pub record IsLowest (n w k : ℕ) : Type 0 where
  pub inside : k < n
  pub is_set : bit k w ≡ 1
  pub below : (j : ℕ) → j < k → bit j w ≡ 0

pub ctz-IsLowest : (n w : ℕ) → w ≢ 0 → w < 2 ^ n → IsLowest n w (ctz n w)
unfolding ctz bit
ctz-IsLowest zero w ne h = absurd (ne (omega arith))
ctz-IsLowest (suc n) w ne h = elim (Bool-cases (w % 2 == 1)) [
  | inl odd ↦
      rw (odd, ctz)
        (record {
          inside = omega arith;
          is_set = ground arith;
          below = λ j p. absurd (omega arith);
        })
  | inr even ↦
      rw (even, ctz)
        (go even (ctz-IsLowest n (w / 2) (λ z. ne (ground arith)) (omega (arith, pow-suc 2 n))))
]
  where
    go :
        w % 2 == 1 ≡ false
        → IsLowest n (w / 2) (ctz n (w / 2))
        → IsLowest (suc n) w (suc (ctz n (w / 2)))
    go even r = record {
      inside = omega (arith, r.inside);
      is_set = r.is_set;
      below = elim [ zero ↦ λ p. ground arith | suc j ↦ λ p. r.below j (omega arith) ];
    }
