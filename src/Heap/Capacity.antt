-- ===== src/Heap/Capacity.antt =====
-- The layout of a new slab page.
use dev_os.Prelude.{ℕ, zero, suc, ◌+◌, ◌*◌, ◌%◌, ◌^◌, ◌≤◌, ◌<◌, ◌≡◌, arith, refl, subst, ◌-◌}
use dev_os.Word.{align_up}
use dev_os.Heap.Slab.{new_page, data_offset, shrink, bitmap_words_of}

-- The header, the bitmap and the objects lie behind one another in the page; the bitmap has a bit
-- for every object, and the objects are aligned to their size.
pub record Fits (order : ℕ) : Type 0 where
  pub some_object : 0 < (new_page order).capacity
  pub size : (new_page order).obj_size ≡ 2 ^ order
  pub bitmap :
      32 + bitmap_words_of (new_page order).capacity * 8
      ≤ data_offset (new_page order).capacity (2 ^ order)
  pub objects :
      data_offset (new_page order).capacity (2 ^ order) + (new_page order).capacity * 2 ^ order
      ≤ 4096
  pub bits : (new_page order).capacity ≤ 64 * bitmap_words_of (new_page order).capacity
  pub aligned : data_offset (new_page order).capacity (2 ^ order) % 2 ^ order ≡ 0

fits : (k : ℕ) → k < 8 → Fits (4 + k)
unfolding new_page data_offset shrink align_up
fits zero h = record {
  some_object = omega arith;
  size = refl;
  bitmap = omega arith;
  objects = omega arith;
  bits = omega arith;
  aligned = refl;
}
fits (suc zero) h = record {
  some_object = omega arith;
  size = refl;
  bitmap = omega arith;
  objects = omega arith;
  bits = omega arith;
  aligned = refl;
}
fits (suc (suc zero)) h = record {
  some_object = omega arith;
  size = refl;
  bitmap = omega arith;
  objects = omega arith;
  bits = omega arith;
  aligned = refl;
}
fits (suc (suc (suc zero))) h = record {
  some_object = omega arith;
  size = refl;
  bitmap = omega arith;
  objects = omega arith;
  bits = omega arith;
  aligned = refl;
}
fits (suc (suc (suc (suc zero)))) h = record {
  some_object = omega arith;
  size = refl;
  bitmap = omega arith;
  objects = omega arith;
  bits = omega arith;
  aligned = refl;
}
fits (suc (suc (suc (suc (suc zero))))) h = record {
  some_object = omega arith;
  size = refl;
  bitmap = omega arith;
  objects = omega arith;
  bits = omega arith;
  aligned = refl;
}
fits (suc (suc (suc (suc (suc (suc zero)))))) h = record {
  some_object = omega arith;
  size = refl;
  bitmap = omega arith;
  objects = omega arith;
  bits = omega arith;
  aligned = refl;
}
fits (suc (suc (suc (suc (suc (suc (suc zero))))))) h = record {
  some_object = omega arith;
  size = refl;
  bitmap = omega arith;
  objects = omega arith;
  bits = omega arith;
  aligned = refl;
}
fits (suc (suc (suc (suc (suc (suc (suc (suc k)))))))) h = absurd (omega arith)

-- In every class a new slab page has room for at least one object, and its header, its bitmap and
-- its objects, each aligned to its size, lie behind one another inside the page; the bitmap has a
-- bit for every object.
pub new_page-Fits : (order : ℕ) → 4 ≤ order → order ≤ 11 → Fits order
new_page-Fits order lo hi =
    let e : 4 + (order - 4) ≡ order = omega arith in subst Fits e (fits (order - 4) (omega arith))
