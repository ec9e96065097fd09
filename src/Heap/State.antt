-- ===== src/Heap/State.antt =====
-- The variables of kernel/mm/heap.c and the headers that it keeps in its pages, each kind as a
-- function from the address. What clients write into their blocks is not part of the state.
use dev_os.Prelude.{
  ℕ, zero, suc, ◌+◌, ◌*◌, ltb, if◌then◌else◌, Option, none, some, List, Bool, true, false, bit_or,
}
use dev_os.Word.{u64, page_size}
use dev_os.Mm.Machine.{Machine, alloc_page}
use dev_os.Mm.Vmm.{vmm_present, vmm_writable, vmm_no_exec}
use dev_os.Mm.Vmm.Ext.{vmm_map_kernel, ignoring}

abbrev pub heap_virt_base : ℕ
heap_virt_base = 0xFFFF_FF80_0000_0000

abbrev pub heap_max_size : ℕ
heap_max_size = 256 * 1024 * 1024

abbrev pub large_threshold : ℕ
large_threshold = 2048

abbrev pub heap_magic_free : ℕ
heap_magic_free = 0xDEAD_C0DE_DEAD_C0DE

abbrev pub heap_magic_alloc : ℕ
heap_magic_alloc = 0xA110_CA11_A110_CA11

abbrev pub slab_page_magic : ℕ
slab_page_magic = 0x5AB0_0000_5AB0_0000

abbrev pub slab_min_order : ℕ
slab_min_order = 4

abbrev pub slab_max_order : ℕ
slab_max_order = 11

-- The sizes of the two headers.
abbrev pub slab_hdr_size : ℕ
slab_hdr_size = 32

abbrev pub large_hdr_size : ℕ
large_hdr_size = 32

-- A slab page without its magic and its link; the bitmap is the words behind the header.
pub record SlabPage : Type 0 where
  pub order : ℕ
  pub obj_size : ℕ
  pub capacity : ℕ
  pub free_count : ℕ
  pub first_free : ℕ
  pub bitmap : ℕ → ℕ

-- A block's header without its magic. 0 is NULL.
pub record LargeHdr : Type 0 where
  pub size : ℕ
  pub next : ℕ
  pub prev : ℕ

-- A class's pages, linked from `slab_classes` through `next`, are the list of their addresses.
-- Both kinds of header have their magic at the same offset.
pub record Heap : Type 0 where
  pub machine : Machine
  pub kernel_pml4 : ℕ
  pub magic : ℕ → ℕ
  pub slabs : ℕ → SlabPage
  pub larges : ℕ → LargeHdr
  pub slab_classes : ℕ → List ℕ
  pub large_free_list : ℕ
  pub heap_cursor : ℕ
  pub heap_limit : ℕ

-- `VMM_KERNEL_RW | VMM_NO_EXEC`
abbrev pub heap_flags : ℕ
heap_flags = bit_or (bit_or (bit_or vmm_present vmm_writable) 256) vmm_no_exec

-- The loop of `heap_map_pages` at page `i`, with `n` rounds left: whether it got every page.
unfoldable pub map_fresh : ℕ → ℕ → ℕ → ℕ → Machine → Bool × Machine
map_fresh pml4 cursor zero i s = (true, s)
map_fresh pml4 cursor (suc n) i s =
    let (page, s1) = alloc_page s in
    elim page [
      | none ↦ (false, s1)
      | some phys ↦
          map_fresh pml4 cursor n (i + 1)
            (ignoring (vmm_map_kernel pml4 (u64 (cursor + i * page_size)) phys heap_flags) s1)
    ]

unfoldable pub heap_map_pages : ℕ → Heap → Option ℕ × Heap
heap_map_pages count h =
    let bytes = u64 (count * page_size) in
    let (done, s) = map_fresh h.kernel_pml4 h.heap_cursor count 0 h.machine in
    let next = u64 (h.heap_cursor + bytes) in
    if ltb (heap_virt_base + heap_max_size) next
    then (none, h)
    else if done
    then (some h.heap_cursor, record h { machine = s; heap_cursor = next; heap_limit = next })
    else (none, record h { machine = s })
