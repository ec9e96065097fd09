-- ===== src/Mm/Pmm.antt =====
-- kernel/mm/pmm.c, the bitmap allocator of physical frames. A set bit is a used frame.
-- The state is the file's four static variables; an address is a number, and physical memory is
-- a function from the index of a 64-bit word (`address / 8`) to its value.
pub mod Bitmap
pub mod Count
pub mod Alloc
pub mod Free
pub mod Init
pub mod Boot
use dev_os.Prelude.{
  ℕ, zero, suc, ◌+◌, ◌-◌, ◌*◌, ◌/◌, ◌%◌, ◌^◌, Bool, ◌==◌, ltb, leb, ◌&&◌, ◌||◌, if◌then◌else◌,
  Option, none, some, List, [], ◌∷◌, update, not,
}
use dev_os.Bits.{has_bit, set_bit, clear_bit, ctz, not64}
use dev_os.Word.{u64, sub64, page_size}

abbrev pub max_frames : ℕ
max_frames = 1 * 1024 * 1024

abbrev pub bitmap_words : ℕ
bitmap_words = max_frames / 64

abbrev pub Memory : Type 0
Memory = ℕ → ℕ

pub record Pmm : Type 0 where
  pub bitmap : ℕ → ℕ
  pub total_frames : ℕ
  pub free_frames : ℕ
  pub search_hint : ℕ

unfoldable pub frame_set : (ℕ → ℕ) → ℕ → ℕ → ℕ
frame_set b frame = update b (frame / 64) (set_bit (b (frame / 64)) (frame % 64))

unfoldable pub frame_clear : (ℕ → ℕ) → ℕ → ℕ → ℕ
frame_clear b frame = update b (frame / 64) (clear_bit (b (frame / 64)) (frame % 64))

unfoldable pub frame_used : (ℕ → ℕ) → ℕ → Bool
frame_used b frame = has_bit (b (frame / 64)) (frame % 64)

-- The loop of `pmm_alloc` at round `wi`, with `n` rounds left: the word that it stops at, and
-- the frame.
unfoldable pub find_free : (ℕ → ℕ) → ℕ → ℕ → ℕ → Option (ℕ × ℕ)
find_free b hint zero wi = none
find_free b hint (suc n) wi =
    let rest = find_free b hint n (wi + 1) in
    let actual = u64 (hint + wi) % bitmap_words in
    let frame = actual * 64 + ctz 64 (not64 (b actual)) in
    if b actual == 2 ^ 64 - 1
    then rest
    else if leb max_frames frame
    then rest
    else some (actual, frame)

-- `memset(phys, 0, PAGE_SIZE)` at a page-aligned address.
unfoldable pub zero_page : Memory → ℕ → Memory
zero_page m phys w = if leb (phys / 8) w && ltb w (phys / 8 + page_size / 8) then 0 else m w

-- `none` is NULL: the answer when no frame is free, and the address of frame 0.
unfoldable pub pmm_alloc : Pmm → Memory → Option ℕ × Pmm × Memory
pmm_alloc p m = elim (find_free p.bitmap p.search_hint bitmap_words 0) [
  | none ↦ (none, p, m)
  | some (actual, frame) ↦ (
    (if frame == 0 then none else some (frame * page_size)),
    record p {
      bitmap = frame_set p.bitmap frame;
      free_frames = sub64 p.free_frames 1;
      search_hint = actual;
    },
    zero_page m (frame * page_size),
  )
]

unfoldable pub pmm_free_page : Pmm → ℕ → Pmm
pmm_free_page p phys =
    let frame = phys / page_size in
    if frame == 0 || leb max_frames frame
    then p
    else if not (frame_used p.bitmap frame)
    then p
    else record p { bitmap = frame_clear p.bitmap frame; free_frames = u64 (p.free_frames + 1) }
