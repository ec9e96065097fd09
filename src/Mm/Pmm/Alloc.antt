-- ===== src/Mm/Pmm/Alloc.antt =====
-- `pmm_alloc`: what it returns, what it changes, and when it fails.
use dev_os.Prelude.{
  ℕ, zero, suc, ◌+◌, ◌-◌, ◌*◌, ◌/◌, ◌%◌, ◌^◌, ◌<◌, ◌≡◌, ◌≢◌, refl, arith, true, false, ◌==◌, ltb,
  leb, ◌&&◌, if◌then◌else◌, Option, none, some, Option-cases, inl, inr, Bool-cases, subst,
}
use dev_os.Bits.{
  bit, has_bit_lem, bit_complement, ctz, not64, ctz-IsLowest, bit-lt, has_bit, bit_zero,
}
use dev_os.Word.{u64, sub64, page_size}
use dev_os.Mm.Pmm.{
  Pmm, Memory, max_frames, bitmap_words, frame_set, frame_used, find_free, zero_page, pmm_alloc,
}
use dev_os.Mm.Pmm.Bitmap.{IsWords, frame_set-IsWords, frame_used-frame_set}
use dev_os.Mm.Pmm.Count.{
  count_free, count_free-frame_set, count_free_pos, count_free_zero, count_free-le,
}

-- The bitmap holds words, the hint is one of them, and `free_frames` counts the free frames.
pub record IsCounted (p : Pmm) : Type 0 where
  pub words : IsWords p.bitmap
  pub hint : p.search_hint < bitmap_words
  pub counted : p.free_frames ≡ count_free p.bitmap max_frames

-- Besides, frame 0, whose address is NULL, is not free.
pub record IsValid (p : Pmm) : Type 0 where
  pub words : IsWords p.bitmap
  pub hint : p.search_hint < bitmap_words
  pub counted : p.free_frames ≡ count_free p.bitmap max_frames
  pub reserved : frame_used p.bitmap 0 ≡ true

-- A word with a clear bit: the lowest one is a free frame of that word.
pub record IsFree (b : ℕ → ℕ) (actual frame : ℕ) : Type 0 where
  pub inside : frame < max_frames
  pub word : actual ≡ frame / 64
  pub is_free : frame_used b frame ≡ false

lowest-IsFree :
    (b : ℕ → ℕ) (actual : ℕ)
    → IsWords b
    → actual < bitmap_words
    → b actual ≢ 2 ^ 64 - 1
    → IsFree b actual (actual * 64 + ctz 64 (not64 (b actual)))
unfolding frame_used
lowest-IsFree b actual h ha ne = record {
  inside = omega (arith, low.inside);
  word = omega (arith, low.inside);
  is_free = rw (block, offset, has_bit_lem) (ground (arith, low.is_set, low.inside, flipped));
}
  where
    low : dev_os.Bits.IsLowest 64 (not64 (b actual)) (ctz 64 (not64 (b actual)))
    low = ctz-IsLowest 64 (not64 (b actual)) (omega (arith, h actual)) (omega (arith, h actual))

    block : (actual * 64 + ctz 64 (not64 (b actual))) / 64 ≡ actual
    block = omega (arith, low.inside)

    offset : (actual * 64 + ctz 64 (not64 (b actual))) % 64 ≡ ctz 64 (not64 (b actual))
    offset = omega (arith, low.inside)

    flipped :
        bit (ctz 64 (not64 (b actual))) (not64 (b actual))
        ≡ 1 - bit (ctz 64 (not64 (b actual))) (b actual)
    flipped = bit_complement 64 (ctz 64 (not64 (b actual))) (b actual) (h actual) low.inside

abbrev word_at : ℕ → ℕ → ℕ
word_at hint wi = u64 (hint + wi) % bitmap_words

-- One round, on a bitmap of words: the test of the frame's number never fails.
find_free_step :
    (b : ℕ → ℕ) (hint n wi : ℕ)
    → IsWords b
    → find_free b hint (suc n) wi ≡ (
        if b (word_at hint wi) == 2 ^ 64 - 1
        then find_free b hint n (wi + 1)
        else some (word_at hint wi, word_at hint wi * 64 + ctz 64 (not64 (b (word_at hint wi)))))
unfolding find_free
find_free_step b hint n wi h = elim (Bool-cases (b (word_at hint wi) == 2 ^ 64 - 1)) [
  | inl full ↦ rw full
  | inr room ↦
      rw room
        (ground (arith, (lowest-IsFree b (word_at hint wi) h (omega arith) (ground arith)).inside))
]

find_free-IsFree :
    (b : ℕ → ℕ) (hint n wi : ℕ) {actual frame : ℕ}
    → IsWords b
    → find_free b hint n wi ≡ some (actual, frame)
    → IsFree b actual frame
unfolding find_free
find_free-IsFree b hint zero wi h e = absurd (ground arith)
find_free-IsFree b hint (suc n) wi {actual} {frame} h e =
    elim (Bool-cases (b (word_at hint wi) == 2 ^ 64 - 1)) [
      | inl full ↦
          find_free-IsFree b hint n (wi + 1) h (rw (find_free_step b hint n wi h, full) at e)
      | inr room ↦
          found (rw (find_free_step b hint n wi h, room) at e)
            (lowest-IsFree b (word_at hint wi) h (omega arith) (ground arith))
    ]
  where
    found :
        {a c : ℕ}
        → ◌≡◌ {A = Option (ℕ × ℕ)} (some (a, c)) (some (actual, frame))
        → IsFree b a c
        → IsFree b actual frame
    found q r = record {
      inside = ground (arith, r.inside);
      word = ground (arith, r.word);
      is_free = ground (arith, r.is_free);
    }

-- A search that finds nothing has seen a full word in each of its rounds.
find_free_full :
    (b : ℕ → ℕ) (hint n wi k : ℕ)
    → IsWords b
    → find_free b hint n wi ≡ none
    → k < n
    → b (word_at hint (wi + k)) ≡ 2 ^ 64 - 1
find_free_full b hint zero wi k h e lt = absurd (omega arith)
find_free_full b hint (suc n) wi zero h e lt =
    let same : wi + 0 ≡ wi = omega arith in rw same (ground (arith, find_free_step b hint n wi h))
find_free_full b hint (suc n) wi (suc k) h e lt =
    let same : wi + suc k ≡ wi + 1 + k = omega arith in
    rw same (
      find_free_full b hint n (wi + 1) k h (ground (arith, find_free_step b hint n wi h))
        (omega arith))

-- The rounds of one search visit every word.
find_free-none :
    (b : ℕ → ℕ) (hint f : ℕ)
    → IsWords b
    → hint < bitmap_words
    → find_free b hint bitmap_words 0 ≡ none
    → f < max_frames
    → frame_used b f ≡ true
unfolding frame_used
find_free-none b hint f h hh e lt =
    rw (has_bit_lem, full) (ground (arith, ones (f % 64) (omega arith)))
  where
    round : ℕ
    round = (f / 64 + bitmap_words - hint) % bitmap_words

    visited : word_at hint (0 + round) ≡ f / 64
    visited = omega arith

    full : b (f / 64) ≡ 2 ^ 64 - 1
    full =
        subst (λ w. b w ≡ 2 ^ 64 - 1) visited
          (find_free_full b hint bitmap_words 0 round h e (omega arith))

    ones : (j : ℕ) → j < 64 → bit j (2 ^ 64 - 1) ≡ 1
    ones j hj = omega (arith, bit_complement 64 j 0 (omega arith) hj, bit_zero j)

-- What an allocation of `frame` has done.
pub record Allocated (p : Pmm) (m : Memory) (frame : ℕ) (p' : Pmm) (m' : Memory) : Type 0 where
  pub inside : frame < max_frames
  pub was_free : frame_used p.bitmap frame ≡ false
  pub used : (g : ℕ) → frame_used p'.bitmap g ≡ (if frame == g then true else frame_used p.bitmap g)
  pub taken : p'.free_frames + 1 ≡ p.free_frames
  pub total : p'.total_frames ≡ p.total_frames
  pub zeroed :
      (w : ℕ) → m' w ≡ (if leb (frame * 512) w && ltb w (frame * 512 + 512) then 0 else m w)
  pub valid : IsValid p'

alloc_step :
    (p : Pmm) (m : Memory) (actual frame : ℕ)
    → IsValid p
    → IsFree p.bitmap actual frame
    → Allocated p m frame
        (record p {
          bitmap = frame_set p.bitmap frame;
          free_frames = sub64 p.free_frames 1;
          search_hint = actual;
        })
        (zero_page m (frame * page_size))
unfolding zero_page
alloc_step p m actual frame v r = record {
  inside = r.inside;
  was_free = r.is_free;
  used = frame_used-frame_set p.bitmap frame;
  taken = omega (arith, v.counted, fewer, count_free-le p.bitmap max_frames);
  total = refl;
  zeroed = λ w. ground arith;
  valid = record {
    words = frame_set-IsWords p.bitmap frame v.words;
    hint = omega (arith, r.word, r.inside);
    counted = omega (arith, v.counted, fewer, count_free-le p.bitmap max_frames);
    reserved = ground (arith, v.reserved, frame_used-frame_set p.bitmap frame 0);
  };
}
  where
    fewer : count_free (frame_set p.bitmap frame) max_frames + 1 ≡ count_free p.bitmap max_frames
    fewer = count_free-frame_set p.bitmap frame max_frames r.inside r.is_free

-- With a free frame counted, `pmm_alloc` returns the address of a frame that was free, marks that
-- frame and no other as used, counts it, zeroes its 4096 bytes and no other memory, leaves
-- `total_frames`, and keeps the allocator valid.
pub pmm_alloc_succeeds :
    (p : Pmm) (m : Memory)
    → IsValid p
    → 0 < p.free_frames
    → (frame : ℕ) × (p' : Pmm) × (m' : Memory) × (pmm_alloc p m
        ≡ (some (frame * page_size), p', m'))
      × Allocated p m frame p' m'
unfolding pmm_alloc
pmm_alloc_succeeds p m v pos =
    elim (Option-cases (find_free p.bitmap p.search_hint bitmap_words 0)) [
      | inl e ↦ absurd (
          omega (
            arith,
            v.counted,
            count_free_zero p.bitmap max_frames
                (λ f lt. find_free-none p.bitmap p.search_hint f v.words v.hint e lt),
          ))
      | inr ((actual, frame), e) ↦
          let r = find_free-IsFree p.bitmap p.search_hint bitmap_words 0 v.words e in
          let not_null : (frame == 0) ≡ false = elim (Bool-cases (frame == 0)) [
            | inl zero_frame ↦
                let at_zero : frame ≡ 0 = ground arith in
                let free_zero : frame_used p.bitmap 0 ≡ false =
                  subst (λ (f : ℕ). frame_used p.bitmap f ≡ false) at_zero r.is_free in
                absurd (ground (arith, free_zero, v.reserved))
            | inr other ↦ other
          ] in
          (
            frame,
            record p {
              bitmap = frame_set p.bitmap frame;
              free_frames = sub64 p.free_frames 1;
              search_hint = actual;
            },
            zero_page m (frame * page_size),
            rw (e, not_null, pmm_alloc) refl,
            alloc_step p m actual frame v r,
          )
    ]

-- With no free frame counted, `pmm_alloc` returns NULL and changes nothing.
pub pmm_alloc_exhausted :
    (p : Pmm) (m : Memory) → IsValid p → p.free_frames ≡ 0 → pmm_alloc p m ≡ (none, p, m)
unfolding pmm_alloc
pmm_alloc_exhausted p m v z =
    elim (Option-cases (find_free p.bitmap p.search_hint bitmap_words 0)) [
      | inl e ↦ rw (e, pmm_alloc)
      | inr ((actual, frame), e) ↦
          let r : IsFree p.bitmap actual frame =
            find_free-IsFree p.bitmap p.search_hint bitmap_words 0 v.words e in
          absurd
            (omega (arith, v.counted, count_free_pos p.bitmap frame max_frames r.inside r.is_free))
    ]
