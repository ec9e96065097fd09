-- ===== src/Heap/Take.antt =====
-- `slab_alloc` on a page with a free object, and `slab_free` of what it handed out.
use dev_os.Prelude.{
  ℕ, zero, suc, ◌+◌, ◌-◌, ◌*◌, ◌/◌, ◌%◌, ◌^◌, ◌≤◌, ◌<◌, ◌≡◌, ◌≢◌, refl, ◌∙◌, arith, true, false,
  ◌==◌, ◌!=◌, ltb, leb, if◌then◌else◌, Bool-cases, inl, inr, some, update, update_self,
}
use dev_os.Word.{u16, align_down, align_down-page, page_size}
use native.Mathlib.Nat.{mul-le-mul_right, suc-mul, mul-div_cancel, mul-mod_left}
use dev_os.Mm.Pmm.{frame_set, frame_clear, frame_used}
use dev_os.Mm.Pmm.Bitmap.{
  frame_used-frame_set, frame_set-IsWords, frame_used-frame_clear, frame_clear-IsWords,
}
use dev_os.Mm.Pmm.Count.{count_free, count_free-frame_set, count_free-frame_clear, count_free-le}
use dev_os.Heap.State.{Heap, SlabPage, slab_page_magic}
use dev_os.Heap.Slab.{taken, given, take_object, slab_object, slab_free, data_offset}
use dev_os.Heap.Objects.{IsPage, IsObject, find_object-some}

-- The page after object `idx` was taken.
pub record Taken (p : SlabPage) (idx : ℕ) (p' : SlabPage) : Type 0 where
  pub object : IsObject p idx
  pub used : (g : ℕ) → frame_used p'.bitmap g ≡ (if idx == g then true else frame_used p.bitmap g)
  pub fewer : p'.free_count + 1 ≡ p.free_count
  pub valid : IsPage p'
  pub same_layout : (p'.capacity ≡ p.capacity) × (p'.obj_size ≡ p.obj_size)

taken-Taken : (p : SlabPage) (idx : ℕ) → IsPage p → IsObject p idx → Taken p idx (taken p idx)
taken-Taken p idx v o = record {
  object = o;
  used = frame_used-frame_set p.bitmap idx;
  fewer = omega (arith, fewer, v.counted, total, v.small);
  valid = record {
    words = frame_set-IsWords p.bitmap idx v.words;
    counted = omega (arith, fewer, v.counted, total, v.small);
    hint = o.inside;
    small = v.small;
  };
  same_layout = (refl, refl);
}
  where
    fewer : count_free (frame_set p.bitmap idx) p.capacity + 1 ≡ count_free p.bitmap p.capacity
    fewer = count_free-frame_set p.bitmap idx p.capacity o.inside o.is_free

    total : count_free p.bitmap p.capacity ≤ p.capacity
    total = count_free-le p.bitmap p.capacity

free_below : (b : ℕ → ℕ) (n : ℕ) → 0 < count_free b n → (f : ℕ) × (f < n) × (frame_used b f ≡ false)
unfolding count_free
free_below b zero pos = absurd (omega arith)
free_below b (suc n) pos = elim (Bool-cases (frame_used b n)) [
  | inl used ↦ let r = free_below b n (ground arith) in (r.0, omega (arith, r.1), r.2)
  | inr free ↦ (n, omega arith, free)
]

free-IsObject : (p : SlabPage) → IsPage p → 0 < p.free_count → (f : ℕ) × IsObject p f
free-IsObject p v pos =
    let r = free_below p.bitmap p.capacity (omega (arith, v.counted)) in
    (r.0, record { inside = r.1; is_free = r.2 })

-- A page with a free object gives one out: the address is that of an object that was free, and
-- the page has it taken and keeps its invariant.
pub take_object-Taken :
    (sp : ℕ) (h : Heap)
    → IsPage (h.slabs sp)
    → 0 < (h.slabs sp).free_count
    → (idx : ℕ) × (h' : Heap) × (take_object sp h ≡ (some (slab_object sp (h.slabs sp) idx), h'))
      × Taken (h.slabs sp) idx (h'.slabs sp)
      × ((q : ℕ) → q ≢ sp → h'.slabs q ≡ h.slabs q)
unfolding take_object
take_object-Taken sp h v pos =
    let f = free-IsObject (h.slabs sp) v pos in
    let found = find_object-some (h.slabs sp) f.0 v f.1 in
    (
      found.0,
      record h { slabs = update h.slabs sp (taken (h.slabs sp) found.0) },
      rw (found.1, take_object),
      rw (update_self h.slabs sp (taken (h.slabs sp) found.0))
          (taken-Taken (h.slabs sp) found.0 v found.2),
      λ q ne. ground arith,
    )

-- The objects lie inside the page.
pub record IsLayout (p : SlabPage) : Type 0 where
  pub size : 0 < p.obj_size
  pub inside : data_offset p.capacity p.obj_size + p.capacity * p.obj_size ≤ 4096

-- `slab_free` at the address of an object of a slab page: the object is given back if it was taken,
-- and nothing changes if it was free.
slab_free_step :
    (sp idx : ℕ) (h : Heap) (p : SlabPage)
    → h.slabs sp ≡ p
    → sp % 4096 ≡ 0
    → sp + 4096 ≤ 2 ^ 64
    → h.magic sp ≡ slab_page_magic
    → IsLayout p
    → p.capacity < 2 ^ 15
    → idx < p.capacity
    → slab_free (slab_object sp p idx) h ≡ (
      true,
      if frame_used p.bitmap idx then record h { slabs = update h.slabs sp (given p idx) } else h,
    )
unfolding slab_free slab_object
slab_free_step sp idx h p here aligned fits magic lay small lt =
    elim (Bool-cases (frame_used p.bitmap idx)) [
      | inl u ↦ simp (here, base, is_slab, behind, off, whole, index, inside, u)
      | inr u ↦ simp (here, base, is_slab, behind, off, whole, index, inside, u)
    ]
  where
    ptr : ℕ
    ptr = sp + data_offset p.capacity p.obj_size + idx * p.obj_size

    last : idx * p.obj_size + p.obj_size ≤ p.capacity * p.obj_size
    last =
        let step : suc idx * p.obj_size ≤ p.capacity * p.obj_size =
          mul-le-mul_right p.obj_size lt in
        omega (arith, step, suc-mul idx p.obj_size)

    base : align_down ptr page_size ≡ sp
    base = align_down-page ptr ∙ omega (arith, last, lay.inside, lay.size)

    is_slab : (h.magic sp != slab_page_magic) ≡ false
    is_slab = rw magic refl

    behind : ltb ptr (sp + data_offset p.capacity p.obj_size) ≡ false
    behind = ground arith

    off : ptr - (sp + data_offset p.capacity p.obj_size) ≡ idx * p.obj_size
    off = omega arith

    whole : (idx * p.obj_size % p.obj_size != 0) ≡ false
    whole = rw (mul-mod_left idx p.obj_size) refl

    index : u16 (idx * p.obj_size / p.obj_size) ≡ idx
    index = rw (mul-div_cancel idx lay.size) (omega (arith, lt, small))

    inside : leb p.capacity idx ≡ false
    inside = ground arith

-- The page after object `idx` was given back.
pub record Given (p : SlabPage) (idx : ℕ) (p' : SlabPage) : Type 0 where
  pub used : (g : ℕ) → frame_used p'.bitmap g ≡ (if idx == g then false else frame_used p.bitmap g)
  pub more : p'.free_count ≡ p.free_count + 1
  pub valid : IsPage p'

given-Given :
    (p : SlabPage) (idx : ℕ)
    → IsPage p
    → idx < p.capacity
    → frame_used p.bitmap idx ≡ true
    → Given p idx (given p idx)
given-Given p idx v lt u = record {
  used = frame_used-frame_clear p.bitmap idx;
  more = omega (arith, grown, v.counted, total, v.small);
  valid = record {
    words = frame_clear-IsWords p.bitmap idx v.words;
    counted = omega (arith, grown, v.counted, total, v.small);
    hint = ground (arith, v.hint);
    small = v.small;
  };
}
  where
    grown : count_free (frame_clear p.bitmap idx) p.capacity ≡ count_free p.bitmap p.capacity + 1
    grown = count_free-frame_clear p.bitmap idx p.capacity lt u

    total : count_free p.bitmap p.capacity ≤ p.capacity
    total = count_free-le p.bitmap p.capacity

-- The round trip, for the object that was taken.
slab_free-taken :
    (sp idx : ℕ) (h : Heap)
    → sp % 4096 ≡ 0
    → sp + 4096 ≤ 2 ^ 64
    → h.magic sp ≡ slab_page_magic
    → IsPage (h.slabs sp)
    → IsLayout (h.slabs sp)
    → IsObject (h.slabs sp) idx
    → (h' : Heap) × (slab_free
          (slab_object sp (h.slabs sp) idx)
          (record h { slabs = update h.slabs sp (taken (h.slabs sp) idx) })
        ≡ (true, h'))
      × ((g : ℕ) → frame_used (h'.slabs sp).bitmap g ≡ frame_used (h.slabs sp).bitmap g)
      × ((h'.slabs sp).free_count ≡ (h.slabs sp).free_count)
      × IsPage (h'.slabs sp)
unfolding slab_object
slab_free-taken sp idx h aligned fits magic v lay o =
    let t = taken-Taken (h.slabs sp) idx v o in
    let mine : frame_used (taken (h.slabs sp) idx).bitmap idx ≡ true = ground (arith, t.used idx) in
    let g = given-Given (taken (h.slabs sp) idx) idx t.valid o.inside mine in
    let freed =
      slab_free_step sp idx (record h { slabs = update h.slabs sp (taken (h.slabs sp) idx) })
        (taken (h.slabs sp) idx) (update_self h.slabs sp (taken (h.slabs sp) idx)) aligned fits
        magic (record { size = lay.size; inside = lay.inside }) v.small o.inside in
    let back =
      update_self (update h.slabs sp (taken (h.slabs sp) idx)) sp
        (given (taken (h.slabs sp) idx) idx) in
    (
      record h {
        slabs =
            update (update h.slabs sp (taken (h.slabs sp) idx)) sp
              (given (taken (h.slabs sp) idx) idx);
      },
      freed ∙ rw mine refl,
      λ f. rw back (ground (arith, g.used f, t.used f, o.is_free)),
      rw back (omega (arith, g.more, t.fewer)),
      rw back g.valid,
    )

-- What `take_object` hands out comes back whole: on a valid slab page with a free object, aligned,
-- below the end of the address space and with the magic of its kind, it answers an address at which
-- `slab_free` finds the object, and after that every object is as free as before, the count is as
-- it was, and the page keeps its invariant.
pub slab_free-take_object :
    (sp : ℕ) (h : Heap)
    → sp % 4096 ≡ 0
    → sp + 4096 ≤ 2 ^ 64
    → h.magic sp ≡ slab_page_magic
    → IsPage (h.slabs sp)
    → IsLayout (h.slabs sp)
    → 0 < (h.slabs sp).free_count
    → (ptr : ℕ) × (h1 : Heap) × (h' : Heap) × (take_object sp h ≡ (some ptr, h1))
      × (slab_free ptr h1 ≡ (true, h'))
      × ((g : ℕ) → frame_used (h'.slabs sp).bitmap g ≡ frame_used (h.slabs sp).bitmap g)
      × ((h'.slabs sp).free_count ≡ (h.slabs sp).free_count)
      × IsPage (h'.slabs sp)
unfolding take_object
slab_free-take_object sp h aligned fits magic v lay pos =
    let f = free-IsObject (h.slabs sp) v pos in
    let found = find_object-some (h.slabs sp) f.0 v f.1 in
    let idx = found.0 in
    let (h', back, same, count, page) = slab_free-taken sp idx h aligned fits magic v lay found.2 in
    (
      slab_object sp (h.slabs sp) idx,
      record h { slabs = update h.slabs sp (taken (h.slabs sp) idx) },
      h',
      rw (found.1, take_object),
      back,
      same,
      count,
      page,
    )
