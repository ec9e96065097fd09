-- ===== src/Heap/Large.antt =====
-- Blocks of whole pages: `large_alloc` and `large_free` of kernel/mm/heap.c.
use dev_os.Prelude.{
  ℕ, zero, suc, ◌+◌, ◌-◌, ◌*◌, ◌/◌, ◌==◌, ◌!=◌, ltb, leb, ◌&&◌, ◌||◌, if◌then◌else◌, Option, none,
  some, update,
}
use dev_os.Word.{u64, sub64, page_size, align_up}
use dev_os.Heap.State.{
  Heap, LargeHdr, heap_map_pages, large_hdr_size, heap_magic_free, heap_magic_alloc,
}

-- `p->next = v` and `p->prev = v`
abbrev pub set_next : ℕ → ℕ → Heap → Heap
set_next p v h = record h { larges = update h.larges p (record (h.larges p) { next = v }) }

abbrev pub set_prev : ℕ → ℕ → Heap → Heap
set_prev p v h = record h { larges = update h.larges p (record (h.larges p) { prev = v }) }

abbrev pub set_magic : ℕ → ℕ → Heap → Heap
set_magic p v h = record h { magic = update h.magic p v }

unfoldable pub large_insert_free : ℕ → Heap → Heap
large_insert_free hdr h =
    let h1 = set_prev hdr 0 (set_next hdr h.large_free_list (set_magic hdr heap_magic_free h)) in
    let h2 = if h1.large_free_list == 0 then h1 else set_prev h1.large_free_list hdr h1 in
    record h2 { large_free_list = hdr }

unfoldable pub large_remove_free : ℕ → Heap → Heap
large_remove_free hdr h =
    let before = (h.larges hdr).prev in
    let h1 =
      if before == 0
      then record h { large_free_list = (h.larges hdr).next }
      else set_next before (h.larges hdr).next h in
    let after = (h1.larges hdr).next in
    let h2 = if after == 0 then h1 else set_prev after (h1.larges hdr).prev h1 in
    set_prev hdr 0 (set_next hdr 0 h2)

-- The best-fit search at block `b`, with fuel; 0 is NULL.
unfoldable pub best_from : ℕ → ℕ → ℕ → ℕ → (ℕ → LargeHdr) → ℕ
best_from zero total b best larges = best
best_from (suc fuel) total b best larges =
    let size = (larges b).size in
    let better = leb total size && (best == 0 || ltb size (larges best).size) in
    let rest = best_from fuel total (larges b).next (if better then b else best) larges in
    if b == 0 then best else rest

-- Cuts the rest off a block that is big enough, and hands the block out.
unfoldable pub split_block : ℕ → ℕ → Heap → Option ℕ × Heap
split_block total b h =
    let size = (h.larges b).size in
    let rem = b + total in
    let h1 =
      if leb (total + page_size + large_hdr_size) size
      then large_insert_free rem (record h {
        larges =
            update (update h.larges rem (record (h.larges rem) { size = size - total })) b
              (record (h.larges b) { size = total });
      })
      else h in
    (some (b + large_hdr_size), set_prev b 0 (set_next b 0 (set_magic b heap_magic_alloc h1)))

unfoldable pub large_alloc : ℕ → ℕ → Heap → Option ℕ × Heap
large_alloc fuel size h =
    let total = align_up (u64 (size + large_hdr_size)) page_size in
    let best = best_from fuel total h.large_free_list 0 h.larges in
    let (fresh, h1) = heap_map_pages (total / page_size) h in
    let grown : Option ℕ × Heap = elim fresh [
      | none ↦ (none, h1)
      | some b ↦ split_block total b (
          set_magic b heap_magic_free (record h1 {
            larges =
                update h1.larges b
                  (record { size = total / page_size * page_size; next = 0; prev = 0 });
          }))
    ] in
    if best == 0 then grown else split_block total best (large_remove_free best h)

unfoldable pub large_free : ℕ → Heap → Heap
large_free ptr h =
    let hdr = sub64 ptr large_hdr_size in
    if h.magic hdr == heap_magic_free
    then h
    else if h.magic hdr != heap_magic_alloc
    then h
    else large_insert_free hdr h
