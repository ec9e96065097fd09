-- ===== src/Heap/Slab.antt =====
-- Slab pages: `slab_new_page`, `slab_alloc` and `slab_free` of kernel/mm/heap.c.
use dev_os.Prelude.{
  ℕ, zero, suc, ◌+◌, ◌-◌, ◌*◌, ◌/◌, ◌%◌, ◌^◌, ◌==◌, ◌!=◌, ltb, leb, not, if◌then◌else◌, Option,
  none, some, List, [], ◌∷◌, Bool, true, false, update,
}
use dev_os.Word.{u16, u32, page_size, align_up, align_down}
use dev_os.Bits.{ctz, not64}
use dev_os.Mm.Pmm.{frame_set, frame_clear, frame_used}
use dev_os.Heap.State.{
  Heap, SlabPage, heap_map_pages, slab_hdr_size, slab_page_magic, slab_min_order,
}

-- `slab_bitmap_words` of a page with this capacity.
abbrev pub bitmap_words_of : ℕ → ℕ
bitmap_words_of capacity = u16 ((capacity + 63) / 64)

-- The offset of the first object.
unfoldable pub data_offset : ℕ → ℕ → ℕ
data_offset capacity obj_size =
    u32 (align_up (slab_hdr_size + u16 (bitmap_words_of capacity * 8)) obj_size)

-- `slab_object`
unfoldable pub slab_object : ℕ → SlabPage → ℕ → ℕ
slab_object sp p idx = sp + data_offset p.capacity p.obj_size + idx * p.obj_size

-- The loop that shrinks the capacity: at 0 it stops, as nothing but the header is left.
unfoldable pub shrink : ℕ → ℕ → ℕ
shrink obj_size zero = zero
shrink obj_size (suc cap) =
    let less = shrink obj_size cap in
    if leb (u32 (data_offset (suc cap) obj_size + suc cap * obj_size)) page_size
    then suc cap
    else less

-- The header of a new page of a class.
unfoldable pub new_page : ℕ → SlabPage
new_page order =
    let obj_size = u16 (2 ^ order) in
    let cap = shrink obj_size (u16 ((page_size - slab_hdr_size) / obj_size)) in
    record {
      order = order;
      obj_size = obj_size;
      capacity = cap;
      free_count = cap;
      first_free = 0;
      bitmap = λ w. 0;
    }

unfoldable pub slab_new_page : ℕ → Heap → Option ℕ × Heap
slab_new_page order h =
    let (page, h1) = heap_map_pages 1 h in
    elim page [
      | none ↦ (none, h1)
      | some sp ↦ (
        some sp,
        record h1 {
          magic = update h1.magic sp slab_page_magic;
          slabs = update h1.slabs sp (new_page order);
        },
      )
    ]

-- `while (sp && sp->free_count == 0) sp = sp->next;`
unfoldable pub find_page : (ℕ → SlabPage) → List ℕ → Option ℕ
find_page slabs [] = none
find_page slabs (sp ∷ sps) =
    let rest = find_page slabs sps in if (slabs sp).free_count == 0 then rest else some sp

-- The search of the bitmap from the hint's word on, at round `w` with `n` rounds left.
unfoldable pub find_object : SlabPage → ℕ → ℕ → Option ℕ
find_object p zero w = none
find_object p (suc n) w =
    let rest = find_object p n (w + 1) in
    let actual = (p.first_free / 64 + w) % bitmap_words_of p.capacity in
    let idx = u16 (actual * 64 + ctz 64 (not64 (p.bitmap actual))) in
    if p.bitmap actual == 2 ^ 64 - 1 then rest else if leb p.capacity idx then rest else some idx

-- The page with object `idx` taken.
abbrev pub taken : SlabPage → ℕ → SlabPage
taken p idx = record p {
  bitmap = frame_set p.bitmap idx;
  free_count = u16 (p.free_count + 2 ^ 16 - 1);
  first_free = idx;
}

-- The second half of `slab_alloc`, on the page `sp`. `none` is NULL.
unfoldable pub take_object : ℕ → Heap → Option ℕ × Heap
take_object sp h = elim (find_object (h.slabs sp) (bitmap_words_of (h.slabs sp).capacity) 0) [
  | none ↦ (none, h)
  | some idx ↦ (
    some (slab_object sp (h.slabs sp) idx),
    record h { slabs = update h.slabs sp (taken (h.slabs sp) idx) },
  )
]

unfoldable pub slab_alloc : ℕ → Heap → Option ℕ × Heap
slab_alloc order h =
    let cls = order - slab_min_order in
    elim (find_page h.slabs (h.slab_classes cls)) [
      | some sp ↦ take_object sp h
      | none ↦
          (let (page, h1) = slab_new_page order h in
            elim page [
              | none ↦ (none, h1)
              | some sp ↦ take_object sp (record h1 {
                slab_classes = update h1.slab_classes cls (sp ∷ h1.slab_classes cls);
              })
            ])
    ]

-- The page with object `idx` given back.
abbrev pub given : SlabPage → ℕ → SlabPage
given p idx = record p {
  bitmap = frame_clear p.bitmap idx;
  free_count = u16 (p.free_count + 1);
  first_free = if ltb idx p.first_free then idx else p.first_free;
}

-- Whether the pointer was in a slab.
unfoldable pub slab_free : ℕ → Heap → Bool × Heap
slab_free ptr h =
    let sp = align_down ptr page_size in
    let p = h.slabs sp in
    let objects = sp + data_offset p.capacity p.obj_size in
    let off = ptr - objects in
    let idx = u16 (off / p.obj_size) in
    if h.magic sp != slab_page_magic
    then (false, h)
    else if ltb ptr objects
    then (false, h)
    else if off % p.obj_size != 0
    then (false, h)
    else if leb p.capacity idx
    then (false, h)
    else if not (frame_used p.bitmap idx)
    then (true, h)
    else (true, record h { slabs = update h.slabs sp (given p idx) })
