-- ===== src/Mm/Pmm/Count.antt =====
-- The number of free frames below a bound, which `free_frames` is meant to hold.
use dev_os.Prelude.{ℕ, zero, suc, ◌+◌, ◌≤◌, ◌<◌, ◌≡◌, refl, arith, true, false, if◌then◌else◌}
use dev_os.Mm.Pmm.{frame_set, frame_clear, frame_used}
use dev_os.Mm.Pmm.Bitmap.{frame_used-frame_set, frame_used-frame_clear}

unfoldable pub count_free : (ℕ → ℕ) → ℕ → ℕ
count_free b zero = 0
count_free b (suc n) = (if frame_used b n then 0 else 1) + count_free b n

pub count_free-le : (b : ℕ → ℕ) (n : ℕ) → count_free b n ≤ n
unfolding count_free
count_free-le b zero = omega arith
count_free-le b (suc n) = ground (arith, count_free-le b n)

count_free-frame_set_above :
    (b : ℕ → ℕ) (f n : ℕ) → n ≤ f → count_free (frame_set b f) n ≡ count_free b n
unfolding count_free
count_free-frame_set_above b f zero h = refl
count_free-frame_set_above b f (suc n) h =
    ground (arith, frame_used-frame_set b f n, count_free-frame_set_above b f n)

pub count_free-frame_set :
    (b : ℕ → ℕ) (f n : ℕ)
    → f < n
    → frame_used b f ≡ false
    → count_free (frame_set b f) n + 1 ≡ count_free b n
unfolding count_free
count_free-frame_set b f zero h u = absurd (omega arith)
count_free-frame_set b f (suc n) h u = ground (
  arith,
  frame_used-frame_set b f n,
  count_free-frame_set_above b f n,
  count_free-frame_set b f n,
)

count_free-frame_clear_above :
    (b : ℕ → ℕ) (f n : ℕ) → n ≤ f → count_free (frame_clear b f) n ≡ count_free b n
unfolding count_free
count_free-frame_clear_above b f zero h = refl
count_free-frame_clear_above b f (suc n) h =
    ground (arith, frame_used-frame_clear b f n, count_free-frame_clear_above b f n)

pub count_free-frame_clear :
    (b : ℕ → ℕ) (f n : ℕ)
    → f < n
    → frame_used b f ≡ true
    → count_free (frame_clear b f) n ≡ count_free b n + 1
unfolding count_free
count_free-frame_clear b f zero h u = absurd (omega arith)
count_free-frame_clear b f (suc n) h u = ground (
  arith,
  frame_used-frame_clear b f n,
  count_free-frame_clear_above b f n,
  count_free-frame_clear b f n,
)

-- A free frame is counted.
pub count_free_pos : (b : ℕ → ℕ) (f n : ℕ) → f < n → frame_used b f ≡ false → 0 < count_free b n
unfolding count_free
count_free_pos b f zero h u = absurd (omega arith)
count_free_pos b f (suc n) h u = ground (arith, count_free_pos b f n)

-- Without a free frame nothing is counted.
pub count_free_zero :
    (b : ℕ → ℕ) (n : ℕ) → ((f : ℕ) → f < n → frame_used b f ≡ true) → count_free b n ≡ 0
unfolding count_free
count_free_zero b zero h = refl
count_free_zero b (suc n) h =
    ground (arith, h n (omega arith), count_free_zero b n (λ f p. h f (omega arith)))
