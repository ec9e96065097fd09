-- ===== src/Mm/Pmm/Bitmap.antt =====
-- What setting and clearing one frame's bit does to every frame.
use dev_os.Prelude.{ℕ, ◌/◌, ◌%◌, ◌^◌, ◌<◌, ◌≡◌, arith, true, false, ◌==◌, if◌then◌else◌}
use dev_os.Bits.{has_bit-set_bit, has_bit-clear_bit, set_bit-lt, clear_bit-le}
use dev_os.Mm.Pmm.{frame_set, frame_clear, frame_used}

-- Every word of the bitmap is a uint64_t.
abbrev pub IsWords : (ℕ → ℕ) → Type 0
IsWords b = (i : ℕ) → b i < 2 ^ 64

-- Setting a frame makes it used and leaves every other frame as it was.
pub frame_used-frame_set :
    (b : ℕ → ℕ) (f g : ℕ) → frame_used (frame_set b f) g ≡ (if f == g then true else frame_used b g)
unfolding frame_used frame_set
frame_used-frame_set b f g = ground (arith, has_bit-set_bit (b (f / 64)) (f % 64) (g % 64))

-- Clearing a frame makes it free and leaves every other frame as it was.
pub frame_used-frame_clear :
    (b : ℕ → ℕ) (f g : ℕ)
    → frame_used (frame_clear b f) g ≡ (if f == g then false else frame_used b g)
unfolding frame_used frame_clear
frame_used-frame_clear b f g =
    ground (arith, has_bit-clear_bit (b (f / 64)) (f % 64) (g % 64) (omega arith) (omega arith))

pub frame_set-IsWords : (b : ℕ → ℕ) (f : ℕ) → IsWords b → IsWords (frame_set b f)
unfolding frame_set
frame_set-IsWords b f h i =
    ground (arith, h (f / 64), h i, set_bit-lt (b (f / 64)) (f % 64) (h (f / 64)) (omega arith))

pub frame_clear-IsWords : (b : ℕ → ℕ) (f : ℕ) → IsWords b → IsWords (frame_clear b f)
unfolding frame_clear
frame_clear-IsWords b f h i =
    ground (arith, h (f / 64), h i, clear_bit-le (b (f / 64)) (f % 64) (h (f / 64)))
