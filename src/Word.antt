-- ===== src/Word.antt =====
-- The fixed-width types and the alignment macros of kernel/include/types.h.
use dev_os.Prelude.{
  ℕ, zero, suc, ◌+◌, ◌-◌, ◌*◌, ◌/◌, ◌%◌, ◌^◌, ◌≤◌, ◌<◌, ◌≡◌, arith, bit_and, pow-suc, sym, ap, ◌∙◌,
}
use dev_os.Bits.{not64, bit_and-halves, bit_and_ones}
use native.Mathlib.Nat.{div-div-eq-div-mul, mul_comm}

abbrev pub u8 : ℕ → ℕ
u8 n = n % 2 ^ 8

abbrev pub u16 : ℕ → ℕ
u16 n = n % 2 ^ 16

abbrev pub u32 : ℕ → ℕ
u32 n = n % 2 ^ 32

abbrev pub u64 : ℕ → ℕ
u64 n = n % 2 ^ 64

-- `a - b` on a uint64_t: 2 ^ 64 is added first, since `-` on ℕ stops at 0.
abbrev pub sub64 : ℕ → ℕ → ℕ
sub64 a b = (a + 2 ^ 64 - b) % 2 ^ 64

abbrev pub page_size : ℕ
page_size = 4096

-- `(uint64_t)(x) & ~((a) - 1)`
unfoldable pub align_down : ℕ → ℕ → ℕ
align_down x a = bit_and (u64 x) (not64 (a - 1))

-- `((uint64_t)(x) + (a) - 1) & ~((a) - 1)`
unfoldable pub align_up : ℕ → ℕ → ℕ
align_up x a = bit_and (sub64 (u64 (u64 x + a)) 1) (not64 (a - 1))

div_pow_suc : (k w : ℕ) → w / 2 / 2 ^ k ≡ w / 2 ^ suc k
div_pow_suc k w =
    div-div-eq-div-mul w 2 (2 ^ k) ∙ ap (λ (t : ℕ). w / t) (sym (pow-suc 2 k ∙ mul_comm (2 ^ k) 2))

-- Masking away the `k` low bits of an `n`-bit number rounds it down to a multiple of `2 ^ k`.
mask_high : (n k w : ℕ) → k ≤ n → w < 2 ^ n → bit_and w (2 ^ n - 2 ^ k) ≡ w / 2 ^ k * 2 ^ k
mask_high n zero w hk hw = omega (arith, bit_and_ones n w hw)
mask_high zero (suc k) w hk hw = absurd (omega arith)
mask_high (suc n) (suc k) w hk hw =
    let half : (2 ^ suc n - 2 ^ suc k) / 2 ≡ 2 ^ n - 2 ^ k =
      omega (arith, pow-suc 2 n, pow-suc 2 k) in
    let ih : bit_and (w / 2) ((2 ^ suc n - 2 ^ suc k) / 2) ≡ w / 2 / 2 ^ k * 2 ^ k =
      rw half (mask_high n k (w / 2) (omega arith) (omega (arith, pow-suc 2 n))) in
    omega (
      arith,
      bit_and-halves w (2 ^ suc n - 2 ^ suc k),
      pow-suc 2 n,
      pow-suc 2 k,
      div_pow_suc k w,
      ap (λ (t : ℕ). w / 2 ^ suc k * t) (pow-suc 2 k),
      ap (λ (t : ℕ). t * 2 ^ k) (div_pow_suc k w),
    )

-- The macros at the sizes that the kernel aligns to.
pub align_down-page : (x : ℕ) → align_down x page_size ≡ u64 x / 4096 * 4096
unfolding align_down
align_down-page x = mask_high 64 12 (u64 x) (omega arith) (omega arith)

pub align_up-page : (x : ℕ) → align_up x page_size ≡ sub64 (u64 (u64 x + 4096)) 1 / 4096 * 4096
unfolding align_up
align_up-page x = mask_high 64 12 (sub64 (u64 (u64 x + 4096)) 1) (omega arith) (omega arith)

pub align_down_16 : (x : ℕ) → align_down x 16 ≡ u64 x / 16 * 16
unfolding align_down
align_down_16 x = mask_high 64 4 (u64 x) (omega arith) (omega arith)
