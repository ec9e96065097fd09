-- ===== src/Mm/Pmm/Boot.antt =====
-- What `pmm_init` leaves: which frames are free, and that they are counted.
use dev_os.Prelude.{
  ℕ, zero, suc, ◌+◌, ◌-◌, ◌*◌, ◌/◌, ◌%◌, ◌^◌, ◌≤◌, ◌<◌, ◌≡◌, refl, arith, Bool, true, false, not,
  ◌==◌, ◌!=◌, ltb, leb, ◌&&◌, ◌||◌, if◌then◌else◌, List, [], ◌∷◌, Bool-cases, inl, inr, ◌∙◌, sym,
}
use dev_os.Bits.{has_bit_lem, bit_complement, bit_zero}
use dev_os.Word.{u64, page_size, align_up, align_up-page, align_down-page}
use dev_os.Mm.Pmm.{some, Pmm, max_frames, frame_clear, frame_used}
use dev_os.Mm.Pmm.Bitmap.{
  frame_set-IsWords, frame_clear-IsWords, frame_used-frame_set, frame_used-frame_clear,
}
use dev_os.Mm.Pmm.Count.{
  count_free-frame_set, count_free-frame_clear, count_free-le, count_free_zero,
}
use dev_os.Mm.Pmm.Alloc.{IsCounted, IsValid}
use dev_os.Mm.Pmm.Init.{
  Entry, region_start, region_end, free_region, free_entry, free_entries, reserve_frame,
  reserve_region, kernel_start, pmm_init,
}

-- A usable entry covers the frames whose 4096 bytes lie inside it.
abbrev pub covers : Entry → ℕ → Bool
covers e g = e.type == 1 && (leb e.base (g * 4096) && leb (g * 4096 + 4096) (e.base + e.length))

-- The entries end a page before the end of the address space at the latest.
abbrev pub InRange : List Entry → Type 0
InRange [] = Unit {0}
InRange (e ∷ es) = (e.base + e.length + 4096 ≤ 2 ^ 64) × InRange es

unfoldable pub usable : List Entry → ℕ → Bool
usable [] g = false
usable (e ∷ es) g = covers e g || usable es g

-- No frame is covered by two entries.
abbrev pub NoOverlap : List Entry → Type 0
NoOverlap [] = Unit {0}
NoOverlap (e ∷ es) = ((g : ℕ) → covers e g ≡ true → usable es g ≡ false) × NoOverlap es

free_region-used :
    (p : Pmm) (n addr g : ℕ)
    → g < max_frames
    → frame_used (free_region p n addr).bitmap g ≡ (
        if leb (addr / page_size) g && ltb g (addr / page_size + n)
        then false
        else frame_used p.bitmap g)
unfolding free_region
free_region-used p zero addr g h = ground arith
free_region-used p (suc n) addr g h = ground (
  arith,
  free_region-used
      (record p {
        bitmap = frame_clear p.bitmap (addr / page_size);
        total_frames = u64 (p.total_frames + 1);
        free_frames = u64 (p.free_frames + 1);
      })
      n (addr + page_size) g h,
  frame_used-frame_clear p.bitmap (addr / page_size) g,
)

free_region-IsCounted :
    (p : Pmm) (n addr : ℕ)
    → IsCounted p
    → ((g : ℕ)
        → g < max_frames
        → addr / page_size ≤ g
        → g < addr / page_size + n
        → frame_used p.bitmap g ≡ true)
    → IsCounted (free_region p n addr)
unfolding free_region
free_region-IsCounted p zero addr v h = v
free_region-IsCounted p (suc n) addr v h = elim (Bool-cases (leb max_frames (addr / page_size))) [
  | inl out ↦ rw out v
  | inr in_range ↦ rw in_range (
      free_region-IsCounted
        (record p {
          bitmap = frame_clear p.bitmap (addr / page_size);
          total_frames = u64 (p.total_frames + 1);
          free_frames = u64 (p.free_frames + 1);
        })
        n (addr + page_size)
        (record {
          words = frame_clear-IsWords p.bitmap (addr / page_size) v.words;
          hint = v.hint;
          counted = ground (
            arith,
            v.counted,
            count_free-le p.bitmap max_frames,
            count_free-frame_clear p.bitmap (addr / page_size) max_frames,
            h (addr / page_size),
          );
        })
        (λ g a b c. ground (arith, frame_used-frame_clear p.bitmap (addr / page_size) g, h g)))
]

free_entry-used :
    (p : Pmm) (e : Entry) (g : ℕ)
    → e.base + e.length + 4096 ≤ 2 ^ 64
    → g < max_frames
    → frame_used (free_entry p e).bitmap g ≡ (if covers e g then false else frame_used p.bitmap g)
unfolding free_entry
free_entry-used p e g fits h = ground (
  arith,
  free_region-used p ((region_end e - region_start e) / page_size) (region_start e) g h,
  align_up-page e.base,
  align_down-page (u64 (e.base + e.length)),
)

free_entry-IsCounted :
    (p : Pmm) (e : Entry)
    → e.base + e.length + 4096 ≤ 2 ^ 64
    → IsCounted p
    → ((g : ℕ) → g < max_frames → covers e g ≡ true → frame_used p.bitmap g ≡ true)
    → IsCounted (free_entry p e)
unfolding free_entry
free_entry-IsCounted p e fits v h = elim (Bool-cases (e.type != 1)) [
  | inl other ↦ rw other v
  | inr ram ↦ rw ram (elim (Bool-cases (leb (region_end e) (region_start e))) [
    | inl empty ↦ rw empty v
    | inr room ↦ rw room (
        free_region-IsCounted p ((region_end e - region_start e) / page_size) (region_start e) v
          (λ g lt a b.
            h g lt
              (ground (arith, align_up-page e.base, align_down-page (u64 (e.base + e.length))))))
  ])
]

free_entries-used :
    (p : Pmm) (es : List Entry) (g : ℕ)
    → InRange es
    → g < max_frames
    → frame_used (free_entries p es).bitmap g
      ≡ (if usable es g then false else frame_used p.bitmap g)
unfolding free_entries usable
free_entries-used p [] g fits h = refl
free_entries-used p (e ∷ es) g fits h =
    free_entries-used (free_entry p e) es g fits.1 h
    ∙ (ground (arith, free_entry-used p e g fits.0 h))

free_entries-IsCounted :
    (p : Pmm) (es : List Entry)
    → InRange es
    → IsCounted p
    → NoOverlap es
    → ((g : ℕ) → g < max_frames → usable es g ≡ true → frame_used p.bitmap g ≡ true)
    → IsCounted (free_entries p es)
unfolding free_entries usable
free_entries-IsCounted p [] fits v apart h = v
free_entries-IsCounted p (e ∷ es) fits v apart h =
    free_entries-IsCounted (free_entry p e) es fits.1
      (free_entry-IsCounted p e fits.0 v (λ g lt c. h g lt (ground arith))) apart.1
      (λ g lt u. ground (arith, free_entry-used p e g fits.0 lt, apart.0 g, h g))

reserve_frame-used :
    (p : Pmm) (f g : ℕ)
    → frame_used (reserve_frame p f).bitmap g ≡ (if f == g then true else frame_used p.bitmap g)
unfolding reserve_frame
reserve_frame-used p f g = ground (arith, frame_used-frame_set p.bitmap f g)

reserve_frame-IsCounted :
    (p : Pmm) (f : ℕ) → f < max_frames → IsCounted p → IsCounted (reserve_frame p f)
unfolding reserve_frame
reserve_frame-IsCounted p f lt v = elim (Bool-cases (frame_used p.bitmap f)) [
  | inl used ↦ rw used v
  | inr open_frame ↦ rw open_frame (record {
    words = frame_set-IsWords p.bitmap f v.words;
    hint = v.hint;
    counted = omega (
      arith,
      v.counted,
      count_free-frame_set p.bitmap f max_frames lt open_frame,
      count_free-le p.bitmap max_frames,
    );
  })
]

-- Within the bitmap the loop runs to its end and marks its frames.
record Reserved (p : Pmm) (n a : ℕ) (p' : Pmm) : Type 0 where
  used :
      (g : ℕ)
      → frame_used p'.bitmap g ≡ (
          if leb (a / page_size) g && ltb g (a / page_size + n)
          then true
          else frame_used p.bitmap g)
  counted : IsCounted p → IsCounted p'

reserve_region-Reserved :
    (p : Pmm) (n a : ℕ)
    → a / page_size + n ≤ max_frames
    → (p' : Pmm) × (reserve_region p n a ≡ some p') × Reserved p n a p'
unfolding reserve_region
reserve_region-Reserved p zero a h =
    (p, refl, record { used = λ g. ground arith; counted = λ v. v })
reserve_region-Reserved p (suc n) a h =
    let inside : leb max_frames (a / page_size) ≡ false = ground arith in
    let (p', run, r) =
      reserve_region-Reserved (reserve_frame p (a / page_size)) n (a + page_size) (omega arith) in
    (
      p',
      rw (inside, reserve_region) run,
      record {
        used = λ g. ground (arith, r.used g, reserve_frame-used p (a / page_size) g);
        counted = λ v. r.counted (reserve_frame-IsCounted p (a / page_size) (omega arith) v);
      },
    )

-- The state that the loader leaves in the static variables.
abbrev pub at_boot : Pmm
at_boot = record { bitmap = λ i. 0; total_frames = 0; free_frames = 0; search_hint = 0 }

all_used : (g : ℕ) → frame_used (λ i. 2 ^ 64 - 1) g ≡ true
unfolding frame_used
all_used g =
    rw has_bit_lem
      (ground (arith, bit_complement 64 (g % 64) 0 (omega arith) (omega arith), bit_zero (g % 64)))

blank-IsCounted : IsCounted (record at_boot { bitmap = λ i. 2 ^ 64 - 1 })
blank-IsCounted = record {
  words = λ i. omega arith;
  hint = omega arith;
  counted = sym (count_free_zero (λ i. 2 ^ 64 - 1) max_frames (λ f lt. all_used f));
}

-- The frames of the kernel, from 1 MB up to the end of the image.
abbrev pub of_kernel : ℕ → ℕ → Bool
of_kernel kernel_end g = leb 0x100000 (g * 4096) && ltb (g * 4096) kernel_end

booted_from :
    (map : List Entry) (kernel_end : ℕ)
    → InRange map
    → kernel_end ≤ max_frames * page_size
    → (p : Pmm) × (pmm_init at_boot map kernel_end ≡ some p)
      × ((g : ℕ)
          → g < max_frames
          → frame_used p.bitmap g
            ≡ not (usable map g && (not (g == 0) && not (of_kernel kernel_end g))))
      × (NoOverlap map → IsCounted p)
unfolding pmm_init
booted_from map kernel_end fits small =
    let freed = free_entries (record at_boot { bitmap = λ i. 2 ^ 64 - 1 }) map in
    let (p, run, r) =
      reserve_region-Reserved (reserve_frame freed 0)
        ((align_up kernel_end page_size - kernel_start) / page_size) kernel_start
        (omega (arith, align_up-page kernel_end, align_down-page 0x100000)) in
    (
      p,
      run,
      λ g lt. ground (
        arith,
        r.used g,
        reserve_frame-used freed 0 g,
        free_entries-used (record at_boot { bitmap = λ i. 2 ^ 64 - 1 }) map g fits lt,
        all_used g,
        align_up-page kernel_end,
        align_down-page 0x100000,
      ),
      λ apart. r.counted (
          reserve_frame-IsCounted freed 0 (omega arith) (
            free_entries-IsCounted (record at_boot { bitmap = λ i. 2 ^ 64 - 1 }) map fits
              blank-IsCounted apart (λ g lt u. all_used g))),
    )

-- On a memory map that ends before the end of the address space, and with the kernel's end within
-- the bitmap's 4 GB, `pmm_init` runs to its end, and a frame below the limit is then free exactly
-- when its 4096 bytes lie inside a usable entry, it is not frame 0, and it does not start between
-- 1 MB and the end of the kernel.
pub pmm_init-used :
    (map : List Entry) (kernel_end : ℕ)
    → InRange map
    → kernel_end ≤ max_frames * page_size
    → (p : Pmm) × (pmm_init at_boot map kernel_end ≡ some p)
      × ((g : ℕ)
          → g < max_frames
          → frame_used p.bitmap g
            ≡ not (usable map g && (not (g == 0) && not (of_kernel kernel_end g))))
pmm_init-used map kernel_end fits small =
    let b = booted_from map kernel_end fits small in (b.0, b.1, b.2)

-- When besides the usable entries do not overlap, `pmm_init` leaves a valid allocator:
-- `free_frames` is the number of free frames, and frame 0 is not free.
pub pmm_init-IsValid :
    (map : List Entry) (kernel_end : ℕ)
    → InRange map
    → NoOverlap map
    → kernel_end ≤ max_frames * page_size
    → (p : Pmm) × (pmm_init at_boot map kernel_end ≡ some p) × IsValid p
pmm_init-IsValid map kernel_end fits apart small =
    let b = booted_from map kernel_end fits small in
    let c = b.3 apart in
    (
      b.0,
      b.1,
      record {
        words = c.words;
        hint = c.hint;
        counted = c.counted;
        reserved = ground (arith, b.2 0 (omega arith));
      },
    )
