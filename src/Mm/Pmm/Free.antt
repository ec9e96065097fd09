-- ===== src/Mm/Pmm/Free.antt =====
-- `pmm_free_page`: its branches, and the round trip with `pmm_alloc`.
use dev_os.Prelude.{
  ℕ, ◌+◌, ◌*◌, ◌/◌, ◌<◌, ◌≡◌, arith, true, false, ◌==◌, leb, ◌||◌, ◌&&◌, not, if◌then◌else◌, some,
  Bool-cases, inl, inr,
}
use dev_os.Word.{u64, page_size}
use dev_os.Mm.Pmm.{Pmm, Memory, max_frames, frame_clear, frame_used, pmm_alloc, pmm_free_page}
use dev_os.Mm.Pmm.Bitmap.{frame_clear-IsWords, frame_used-frame_clear}
use dev_os.Mm.Pmm.Count.{count_free-frame_clear, count_free-le}
use dev_os.Mm.Pmm.Alloc.{IsValid, Allocated, pmm_alloc_succeeds, pmm_alloc_exhausted}

-- What freeing the page at `phys` has done: it acts on a used frame other than 0 below the limit,
-- and otherwise leaves the allocator as it was.
pub record Freed (p : Pmm) (phys : ℕ) (p' : Pmm) : Type 0 where
  pub used :
      (g : ℕ)
      → frame_used p'.bitmap g ≡ (
          if (phys / page_size == g) && (not (g == 0) && not (leb max_frames g))
          then false
          else frame_used p.bitmap g)
  pub given : p'.free_frames ≡ (
      if frame_used p.bitmap (phys / page_size)
        && (not (phys / page_size == 0) && not (leb max_frames (phys / page_size)))
      then p.free_frames + 1
      else p.free_frames)
  pub total : p'.total_frames ≡ p.total_frames
  pub valid : IsValid p'

freed_frame :
    (p : Pmm) (frame : ℕ)
    → IsValid p
    → frame < max_frames
    → (frame == 0) ≡ false
    → frame_used p.bitmap frame ≡ true
    → (u64 (p.free_frames + 1) ≡ p.free_frames + 1)
      × IsValid
          (record p { bitmap = frame_clear p.bitmap frame; free_frames = u64 (p.free_frames + 1) })
freed_frame p frame v lt nz u = (
  omega (arith, v.counted, count_free-le p.bitmap max_frames),
  record {
    words = frame_clear-IsWords p.bitmap frame v.words;
    hint = v.hint;
    counted = omega (
      arith,
      v.counted,
      count_free-frame_clear p.bitmap frame max_frames lt u,
      count_free-le p.bitmap max_frames,
    );
    reserved = ground (arith, nz, v.reserved, frame_used-frame_clear p.bitmap frame 0);
  },
)

-- `pmm_free_page` frees the frame of the address if that is a used frame, not frame 0, and below
-- the limit, and counts it; on any other address, a frame already free included, it changes
-- nothing. Either way the allocator stays valid.
pub pmm_free_page-Freed : (p : Pmm) (phys : ℕ) → IsValid p → Freed p phys (pmm_free_page p phys)
unfolding pmm_free_page
pmm_free_page-Freed p phys v = record {
  used = λ g. ground (arith, frame_used-frame_clear p.bitmap (phys / page_size) g);
  given = ground (arith, freed_frame p (phys / page_size) v);
  total = ground arith;
  valid = elim (Bool-cases (phys / page_size == 0 || leb max_frames (phys / page_size))) [
    | inl out ↦ rw out v
    | inr in_range ↦ rw in_range (in_table (ground arith) (ground arith))
  ];
}
  where
    in_table :
        phys / page_size < max_frames
        → (phys / page_size == 0) ≡ false
        → IsValid (
            if not (frame_used p.bitmap (phys / page_size)) then p else record p {
              bitmap = frame_clear p.bitmap (phys / page_size);
              free_frames = u64 (p.free_frames + 1);
            })
    in_table lt nz = elim (Bool-cases (frame_used p.bitmap (phys / page_size))) [
      | inl u ↦ rw u (freed_frame p (phys / page_size) v lt nz u).1
      | inr u ↦ rw u v
    ]

-- Freeing what `pmm_alloc` returned gives back the set of used frames and the count.
pub pmm_free_page-pmm_alloc :
    (p : Pmm) (m : Memory) {phys : ℕ} {p' : Pmm} {m' : Memory}
    → IsValid p
    → pmm_alloc p m ≡ (some phys, p', m')
    → ((g : ℕ) → frame_used (pmm_free_page p' phys).bitmap g ≡ frame_used p.bitmap g)
      × ((pmm_free_page p' phys).free_frames ≡ p.free_frames)
pmm_free_page-pmm_alloc p m {phys} {p'} {m'} v e = elim (Bool-cases (p.free_frames == 0)) [
  | inl none_left ↦ cc (pmm_alloc_exhausted p m v (ground arith))
  | inr some_left ↦ taken (pmm_alloc_succeeds p m v (ground arith))
]
  where
    taken :
        (frame : ℕ) × (q : Pmm) × (m1 : Memory) × (pmm_alloc p m
            ≡ (some (frame * page_size), q, m1))
          × Allocated p m frame q m1
        → ((g : ℕ) → frame_used (pmm_free_page p' phys).bitmap g ≡ frame_used p.bitmap g)
          × ((pmm_free_page p' phys).free_frames ≡ p.free_frames)
    taken (frame, q, m1, e1, a) =
        let f : Freed q (frame * page_size) (pmm_free_page q (frame * page_size)) =
          pmm_free_page-Freed q (frame * page_size) a.valid in
        let d : frame * page_size / page_size ≡ frame = omega arith in
        let back : pmm_free_page p' phys ≡ pmm_free_page q (frame * page_size) = ground arith in
        (
          λ g. ground (arith, v.reserved, a.used g, a.used frame, a.was_free, f.used g, a.inside),
          ground (arith, v.reserved, a.used frame, a.was_free, f.given, a.inside, a.taken),
        )
