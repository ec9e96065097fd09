-- ===== src/Heap/Api.antt =====
-- `kmalloc`, `kfree`, `krealloc` and `heap_init` of kernel/mm/heap.c. The contents of blocks, which
-- `kzalloc` clears and `krealloc` copies, are not part of the state.
use dev_os.Prelude.{
  ℕ, zero, suc, ◌+◌, ◌*◌, ◌^◌, ◌==◌, ltb, leb, ◌&&◌, if◌then◌else◌, Option, none, some, [], update,
}
use dev_os.Word.{sub64, page_size, align_down}
use dev_os.Heap.State.{
  Heap, heap_map_pages, heap_virt_base, large_threshold, large_hdr_size, slab_min_order,
  slab_max_order, slab_page_magic, heap_magic_free,
}
use dev_os.Heap.Slab.{slab_alloc, slab_free}
use dev_os.Heap.Large.{large_alloc, large_free, set_magic}

-- The loop of `kmalloc` over the classes, with `n` rounds left: from order 4 it ends by order 12.
unfoldable pub order_from : ℕ → ℕ → ℕ → ℕ
order_from zero size order = order
order_from (suc n) size order =
    let next = order_from n size (order + 1) in
    if ltb (2 ^ order) size && leb order slab_max_order then next else order

abbrev pub order_for : ℕ → ℕ
order_for size = order_from 8 size slab_min_order

-- `none` is NULL. The fuel bounds the walk of the free list.
unfoldable pub kmalloc : ℕ → ℕ → Heap → Option ℕ × Heap
kmalloc fuel size h =
    if size == 0
    then (none, h)
    else if leb size large_threshold && leb (order_for size) slab_max_order
    then slab_alloc (order_for size) h
    else large_alloc fuel size h

unfoldable pub kfree : ℕ → Heap → Heap
kfree ptr h =
    let (in_slab, h1) = slab_free ptr h in
    if ptr == 0 then h else if in_slab then h1 else large_free ptr h1

unfoldable pub krealloc : ℕ → ℕ → ℕ → Heap → Option ℕ × Heap
krealloc fuel ptr new_size h =
    let sp = align_down ptr page_size in
    let old_size =
      if h.magic sp == slab_page_magic
      then (h.slabs sp).obj_size
      else sub64 (h.larges (sub64 ptr large_hdr_size)).size large_hdr_size in
    let (moved, h1) = kmalloc fuel new_size h in
    if ptr == 0
    then (moved, h1)
    else if new_size == 0
    then (none, kfree ptr h)
    else if leb new_size old_size
    then (some ptr, h)
    else elim moved [ none ↦ (none, h1) | some p ↦ (some p, kfree ptr h1) ]

unfoldable pub heap_init : Heap → Heap
heap_init h =
    let h1 = record h {
      heap_cursor = heap_virt_base;
      heap_limit = heap_virt_base;
      large_free_list = 0;
      slab_classes = λ c. [];
    } in
    let h2 = (heap_map_pages 4 h1).1 in
    set_magic heap_virt_base heap_magic_free (record h2 {
      larges =
          update h2.larges heap_virt_base (record { size = 4 * page_size; next = 0; prev = 0 });
      large_free_list = heap_virt_base;
    })
