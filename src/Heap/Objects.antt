-- ===== src/Heap/Objects.antt =====
-- Taking an object from a slab page.
use dev_os.Prelude.{
  ℕ, zero, suc, ◌+◌, ◌-◌, ◌*◌, ◌/◌, ◌%◌, ◌^◌, ◌≤◌, ◌<◌, ◌≡◌, ◌≢◌, ◌⊎◌, refl, sym, ◌∙◌, arith, true,
  false, ◌==◌, ltb, leb, if◌then◌else◌, Bool-cases, Option-cases, inl, inr, none, some, subst,
}
use dev_os.Word.{u16}
use native.Mathlib.Nat.{add-mod_right, mod-lt, mod-eq_of_lt}
use dev_os.Bits.{
  bit, has_bit, has_bit_lem, bit-lt, bit_complement, bit_zero, ctz, ctz-IsLowest, not64, IsLowest,
}
use dev_os.Mm.Pmm.{frame_used}
use dev_os.Mm.Pmm.Bitmap.{IsWords}
use dev_os.Mm.Pmm.Count.{count_free}
use dev_os.Heap.State.{SlabPage}
use dev_os.Heap.Slab.{bitmap_words_of, find_object}

-- The page's bitmap holds words, `free_count` counts its free objects, and the hint is an object.
pub record IsPage (p : SlabPage) : Type 0 where
  pub words : IsWords p.bitmap
  pub counted : p.free_count ≡ count_free p.bitmap p.capacity
  pub hint : p.first_free < p.capacity
  pub small : p.capacity < 2 ^ 15

-- The lowest clear bit of word `a`.
pub record IsLowestFree (b : ℕ → ℕ) (a idx : ℕ) : Type 0 where
  pub word : idx / 64 ≡ a
  pub is_free : frame_used b idx ≡ false
  pub below : (f : ℕ) → f / 64 ≡ a → frame_used b f ≡ false → idx ≤ f

lowest_free :
    (b : ℕ → ℕ) (a : ℕ)
    → IsWords b
    → b a ≢ 2 ^ 64 - 1
    → IsLowestFree b a (a * 64 + ctz 64 (not64 (b a)))
unfolding frame_used
lowest_free b a h ne = record {
  word = block;
  is_free =
      rw (block, offset, has_bit_lem)
        (ground (arith, low.is_set, low.inside, flipped k low.inside));
  below = λ f e free. first f e free;
}
  where
    k : ℕ
    k = ctz 64 (not64 (b a))

    low : IsLowest 64 (not64 (b a)) k
    low = ctz-IsLowest 64 (not64 (b a)) (omega (arith, h a)) (omega (arith, h a))

    block : (a * 64 + k) / 64 ≡ a
    block = omega (arith, low.inside)

    offset : (a * 64 + k) % 64 ≡ k
    offset = omega (arith, low.inside)

    flipped : (j : ℕ) → j < 64 → bit j (not64 (b a)) ≡ 1 - bit j (b a)
    flipped j lt = bit_complement 64 j (b a) (h a) lt

    first : (f : ℕ) → f / 64 ≡ a → has_bit (b (f / 64)) (f % 64) ≡ false → a * 64 + k ≤ f
    first f e free = elim (Bool-cases (ltb f (a * 64 + k))) [
      | inl lt ↦
          let early : f % 64 < k = ground (arith, e) in
          let used : has_bit (b a) (f % 64) ≡ true = rw has_bit_lem (
            ground (
              arith,
              low.below (f % 64) early,
              flipped (f % 64) (omega arith),
              bit-lt (f % 64) (b a),
            )) in
          let clear : has_bit (b a) (f % 64) ≡ false =
            subst (λ (t : ℕ). has_bit (b t) (f % 64) ≡ false) e free in
          absurd (ground (arith, used, clear))
      | inr ge ↦ ground arith
    ]

-- The word that round `w` looks at, and its lowest clear bit.
abbrev word_of : SlabPage → ℕ → ℕ
word_of p w = (p.first_free / 64 + w) % bitmap_words_of p.capacity

abbrev bit_of : SlabPage → ℕ → ℕ
bit_of p w = word_of p w * 64 + ctz 64 (not64 (p.bitmap (word_of p w)))

-- A round that finds nothing.
abbrev Passed : SlabPage → ℕ → Type 0
Passed p w = (p.bitmap (word_of p w) ≡ 2 ^ 64 - 1) ⊎ (p.capacity ≤ u16 (bit_of p w))

find_object-Passed :
    (p : SlabPage) (n w k : ℕ) → find_object p n w ≡ none → k < n → Passed p (w + k)
unfolding find_object
find_object-Passed p zero w k e lt = absurd (omega arith)
find_object-Passed p (suc n) w zero e lt =
    let same : w + 0 ≡ w = omega arith in
    rw same (elim (Bool-cases (p.bitmap (word_of p w) == 2 ^ 64 - 1)) [
      | inl full ↦ inl (ground arith)
      | inr room ↦ elim (Bool-cases (leb p.capacity (u16 (bit_of p w)))) [
        | inl far ↦ inr (ground arith)
        | inr near ↦ absurd (ground arith)
      ]
    ])
find_object-Passed p (suc n) w (suc k) e lt =
    let same : w + suc k ≡ w + 1 + k = omega arith in
    let rest : find_object p n (w + 1) ≡ none = ground arith in
    rw same (find_object-Passed p n (w + 1) k rest (omega arith))

-- A free object of the page.
pub record IsObject (p : SlabPage) (idx : ℕ) : Type 0 where
  pub inside : idx < p.capacity
  pub is_free : frame_used p.bitmap idx ≡ false

words_lem : (c : ℕ) → c < 2 ^ 15 → bitmap_words_of c ≡ (c + 63) / 64
words_lem c h = omega arith

find_object-IsObject :
    (p : SlabPage) (n w : ℕ) {idx : ℕ} → IsPage p → find_object p n w ≡ some idx → IsObject p idx
unfolding find_object
find_object-IsObject p zero w v e = absurd (ground arith)
find_object-IsObject p (suc n) w {idx} v e =
    elim (Bool-cases (p.bitmap (word_of p w) == 2 ^ 64 - 1)) [
      | inl full ↦ find_object-IsObject p n (w + 1) v (ground arith)
      | inr room ↦ elim (Bool-cases (leb p.capacity (u16 (bit_of p w)))) [
        | inl far ↦ find_object-IsObject p n (w + 1) v (ground arith)
        | inr near ↦
            let low = lowest_free p.bitmap (word_of p w) v.words (ground arith) in
            let lt : word_of p w < bitmap_words_of p.capacity =
              mod-lt (p.first_free / 64 + w) (omega (arith, v.hint, v.small)) in
            let same : u16 (bit_of p w) ≡ bit_of p w = omega (arith, low.word, lt, v.small) in
            let here : u16 (bit_of p w) ≡ idx = ground arith in
            record {
              inside = ground arith;
              is_free =
                  subst (λ (t : ℕ). frame_used p.bitmap t ≡ false) (sym same ∙ here) low.is_free;
            }
      ]
    ]

-- Every frame of a full word is used.
full_used : (b : ℕ → ℕ) (f : ℕ) → b (f / 64) ≡ 2 ^ 64 - 1 → frame_used b f ≡ true
unfolding frame_used
full_used b f e =
    let one : bit (f % 64) (2 ^ 64 - 1) ≡ 1 =
      omega (arith, bit_complement 64 (f % 64) 0 (omega arith) (omega arith), bit_zero (f % 64)) in
    rw (has_bit_lem, e) (ground (arith, one))

-- With a free object in the page the search finds one.
pub find_object-some :
    (p : SlabPage) (f : ℕ)
    → IsPage p
    → IsObject p f
    → (idx : ℕ) × (find_object p (bitmap_words_of p.capacity) 0 ≡ some idx) × IsObject p idx
find_object-some p f v o = elim (Option-cases (find_object p (bitmap_words_of p.capacity) 0)) [
  | inr (idx, e) ↦ (idx, e, find_object-IsObject p (bitmap_words_of p.capacity) 0 v e)
  | inl e ↦ absurd (missed e)
]
  where
    n : ℕ
    n = bitmap_words_of p.capacity

    h : ℕ
    h = p.first_free / 64

    a : ℕ
    a = f / 64

    round : ℕ
    round = if leb h a then a - h else a + n - h

    n_lem : n ≡ (p.capacity + 63) / 64
    n_lem = words_lem p.capacity v.small

    round_in : round < n
    round_in = ground (arith, n_lem, v.hint, o.inside)

    a_in : a < n
    a_in = omega (arith, n_lem, o.inside)

    h_in : h < n
    h_in = omega (arith, n_lem, v.hint)

    visited : (h + round) % n ≡ a
    visited = elim (Bool-cases (leb h a)) [
      | inl le ↦ (let e : h + round ≡ a = ground arith in rw e (mod-eq_of_lt a_in))
      | inr gt ↦
          (let e : h + round ≡ a + n = ground (arith, h_in) in
            rw e (add-mod_right a n ∙ mod-eq_of_lt a_in))
    ]

    there : word_of p (0 + round) ≡ a
    there = let e : h + (0 + round) ≡ h + round = omega arith in rw e visited

    missed : find_object p n 0 ≡ none → ⊥
    missed e = elim (find_object-Passed p n 0 round e round_in) [
      | inl full ↦
          let at : p.bitmap a ≡ 2 ^ 64 - 1 =
            subst (λ (t : ℕ). p.bitmap t ≡ 2 ^ 64 - 1) there full in
          let used = full_used p.bitmap f at in ground (arith, used, o.is_free)
      | inr far ↦ elim (Bool-cases (p.bitmap a == 2 ^ 64 - 1)) [
        | inl full ↦
            let used = full_used p.bitmap f (ground arith) in ground (arith, used, o.is_free)
        | inr room ↦
            let low = lowest_free p.bitmap a v.words (ground arith) in
            let first = low.below f refl o.is_free in
            let far' : p.capacity ≤ u16 (a * 64 + ctz 64 (not64 (p.bitmap a))) =
              subst (λ (t : ℕ). p.capacity ≤ u16 (t * 64 + ctz 64 (not64 (p.bitmap t)))) there
                far in
            omega (arith, first, far', o.inside, v.small)
      ]
    ]
