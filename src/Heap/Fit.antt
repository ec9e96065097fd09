-- ===== src/Heap/Fit.antt =====
-- The free list of blocks as a sequence: `large_insert_free`, and the best-fit search.
use dev_os.Word.{page_size}
use dev_os.Prelude.{
  some, ℕ, zero, suc, ◌+◌, ◌≤◌, ◌<◌, ◌≡◌, ◌≢◌, ◌⊎◌, refl, arith, false, ◌==◌, ltb, leb, ◌&&◌, ◌||◌,
  Bool-cases, inl, inr, List, [], ◌∷◌, length, ==-eq_of, ==-ne_of,
}
use dev_os.Heap.State.{large_hdr_size, heap_magic_alloc, Heap, LargeHdr, heap_magic_free}
use dev_os.Heap.Large.{split_block, best_from, large_insert_free}

-- From `b` the `next` links pass through the blocks of the list and end at NULL.
abbrev pub Chain : (ℕ → LargeHdr) → ℕ → List ℕ → Type 0
Chain l b [] = b ≡ 0
Chain l b (x ∷ xs) = (b ≡ x) × (x ≢ 0) × Chain l (l x).next xs

-- One of the list, or 0.
abbrev pub OneOf : ℕ → List ℕ → Type 0
OneOf r [] = r ≡ 0
OneOf r (x ∷ xs) = (r ≡ x) ⊎ OneOf r xs

-- No block of the list is big enough and smaller than `r`; when `r` is 0, none is big enough.
abbrev pub NoBetter : (ℕ → LargeHdr) → ℕ → ℕ → List ℕ → Type 0
NoBetter l total r [] = Unit {0}
NoBetter l total r (x ∷ xs) =
    (total ≤ (l x).size → (r ≢ 0) × ((l r).size ≤ (l x).size)) × NoBetter l total r xs

-- What the search answers, with `best` as the best block so far.
pub record IsBest (l : ℕ → LargeHdr) (total best : ℕ) (xs : List ℕ) (r : ℕ) : Type 0 where
  pub found : (r ≡ best) ⊎ OneOf r xs
  pub enough : (r ≡ 0) ⊎ (total ≤ (l r).size)
  pub kept : best ≢ 0 → (r ≢ 0) × ((l r).size ≤ (l best).size)
  pub no_better : NoBetter l total r xs

best_from_lem :
    (l : ℕ → LargeHdr) (total fuel b best : ℕ) (xs : List ℕ)
    → Chain l b xs
    → length xs < fuel
    → (best ≡ 0) ⊎ (total ≤ (l best).size)
    → IsBest l total best xs (best_from fuel total b best l)
unfolding best_from
best_from_lem l total zero b best xs c h good = absurd (omega arith)
best_from_lem l total (suc fuel) b best [] c h good =
    rw (==-eq_of b 0 c)
      (record { found = inl refl; enough = good; kept = λ ne. (ne, omega arith); no_better = tt })
best_from_lem l total (suc fuel) b best (x ∷ xs) c h good =
    elim (Bool-cases (leb total (l x).size && (best == 0 || ltb (l x).size (l best).size))) [
      | inl yes_better ↦
          let ih =
            best_from_lem l total fuel (l x).next x xs c.2 (omega arith) (inr (ground arith)) in
          let win = ih.kept c.1 in
          rw (c.0, x_nz, yes_better)
            (record {
              found = inr (ih.found);
              enough = ih.enough;
              kept = λ ne. (win.0, ground (arith, win.1));
              no_better = (λ e. win, ih.no_better);
            })
      | inr not_better ↦
          let ih = best_from_lem l total fuel (l x).next best xs c.2 (omega arith) good in
          rw (c.0, x_nz, not_better)
            (record {
              found = elim ih.found [ inl e ↦ inl e | inr o ↦ inr (inr o) ];
              enough = ih.enough;
              kept = ih.kept;
              no_better = (
                λ e.
                    let win = ih.kept (ground arith) in
                    let less : (l best).size ≤ (l x).size = ground arith in
                    (win.0, omega (arith, win.1, less)),
                ih.no_better,
              );
            })
    ]
  where
    x_nz : (x == 0) ≡ false
    x_nz = ==-ne_of x 0 c.1

-- The search of `large_alloc` is a best fit: with a free list of blocks and fuel for its length it
-- answers 0 only when no block is big enough, and otherwise a block of the list that is big enough
-- and no larger than any other that is.
pub best_from-IsBest :
    (h : Heap) (total fuel : ℕ) (xs : List ℕ)
    → Chain h.larges h.large_free_list xs
    → length xs < fuel
    → IsBest h.larges total 0 xs (best_from fuel total h.large_free_list 0 h.larges)
best_from-IsBest h total fuel xs c lt =
    best_from_lem h.larges total fuel h.large_free_list 0 xs c lt (inl refl)

-- The heap after `split_block` handed out block `b` for `total` bytes.
pub record Split (total b : ℕ) (h h' : Heap) : Type 0 where
  pub marked : h'.magic b ≡ heap_magic_alloc
  pub enough : total ≤ (h'.larges b).size
  pub conserved :
      (((h.larges b).size < total + 4096 + 32)
        × ((h'.larges b).size ≡ (h.larges b).size)
        × (h'.large_free_list ≡ h.large_free_list))
      ⊎ ((total + 4096 + 32 ≤ (h.larges b).size)
          × ((h'.larges b).size ≡ total)
          × ((h'.larges (b + total)).size + total ≡ (h.larges b).size)
          × (h'.large_free_list ≡ b + total)
          × ((h'.larges (b + total)).next ≡ h.large_free_list)
          × (h'.magic (b + total) ≡ heap_magic_free))

-- `split_block` hands out a block that holds `total` bytes. When the block has less than a page and a
-- header more than that, it is the whole block and the free list is as it was. Otherwise its size is
-- `total`, and the rest of the block, with a free block's magic and the bytes that remain as its
-- size, heads the free list: no byte of the block is lost.
pub split_block-Split :
    (total b : ℕ) (h : Heap)
    → 0 < total
    → total ≤ (h.larges b).size
    → (h' : Heap) × (split_block total b h ≡ (some (b + 32), h')) × Split total b h h'
unfolding split_block large_insert_free
split_block-Split total b h pos le =
    elim (Bool-cases (leb (total + page_size + large_hdr_size) (h.larges b).size)) [
      | inl cut ↦ elim (Bool-cases (h.large_free_list == 0)) [
        | inl z ↦ (
          (split_block total b h).1,
          simp cut,
          rw (cut, z)
              (record {
                marked = ground arith;
                enough = ground arith;
                conserved = inr (
                  ground arith,
                  ground arith,
                  ground arith,
                  ground arith,
                  ground arith,
                  ground arith,
                );
              }),
        )
        | inr z ↦ (
          (split_block total b h).1,
          simp cut,
          rw (cut, z)
              (record {
                marked = ground arith;
                enough = ground arith;
                conserved = inr (
                  ground arith,
                  ground arith,
                  ground arith,
                  ground arith,
                  ground arith,
                  ground arith,
                );
              }),
        )
      ]
      | inr whole ↦ (
        (split_block total b h).1,
        simp whole,
        rw whole (record {
          marked = ground arith;
          enough = ground arith;
          conserved = inl (ground arith, ground arith, refl);
        }),
      )
    ]
