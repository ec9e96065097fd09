-- ===== src/Mm/Vmm/Ext.antt =====
-- The rest of kernel/mm/vmm.c and kernel/mm/vmm_ext.c: ranges, and new address spaces. A void
-- function's state is what its loop leaves, also where one page could not be mapped.
use dev_os.Prelude.{ℕ, zero, suc, ◌+◌, ◌*◌, ◌/◌, ◌==◌, if◌then◌else◌, none, some}
use dev_os.Prelude.Int.{ℤ, pos, negsuc}
use dev_os.Word.{u64, page_size, align_up}
use dev_os.Mm.Pmm.{pmm_free_page}
use dev_os.Mm.Machine.{Machine, M, ◌>>=◌, ◌>>◌, alloc_page, load, store, pure}
use dev_os.Mm.Vmm.{vmm_map, vmm_unmap, vmm_translate, slot}

-- A void call: its state, whatever it returned.
abbrev pub ignoring : {A : Type 0} → M A → Machine → Machine
ignoring m s = (m s).1

abbrev pub pages_of : ℕ → ℕ
pages_of size = align_up size page_size / page_size

-- The loop of `vmm_map_range` at page `i`, with `n` rounds left.
map_pages : ℕ → ℕ → ℕ → ℕ → ℕ → ℕ → Machine → Machine
map_pages pml4 virt phys flags zero i s = s
map_pages pml4 virt phys flags (suc n) i s =
    map_pages pml4 virt phys flags n (i + 1)
      (ignoring (vmm_map pml4 (u64 (virt + i * page_size)) (u64 (phys + i * page_size)) flags) s)

unfoldable pub vmm_map_range : ℕ → ℕ → ℕ → ℕ → ℕ → Machine → Machine
unfolding map_pages
vmm_map_range pml4 virt phys size flags s = map_pages pml4 virt phys flags (pages_of size) 0 s

-- `vmm_map_kernel`, over the global `kernel_pml4`.
unfoldable pub vmm_map_kernel : ℕ → ℕ → ℕ → ℕ → M (Unit {0})
vmm_map_kernel kernel_pml4 virt phys flags = vmm_map kernel_pml4 virt phys flags

-- The physical address, or 0 when no frame is left.
unfoldable pub vmm_alloc_map : ℕ → ℕ → ℕ → Machine → ℕ × Machine
vmm_alloc_map pml4 virt flags s =
    let (page, s1) = alloc_page s in
    elim page [ none ↦ (0, s1) | some phys ↦ (phys, ignoring (vmm_map pml4 virt phys flags) s1) ]

-- The loop of `vmm_alloc_range` at page `i`, with `n` rounds left.
unfoldable pub alloc_pages : ℕ → ℕ → ℕ → ℕ → ℕ → Machine → ℤ × Machine
alloc_pages pml4 virt flags zero i s = (pos 0, s)
alloc_pages pml4 virt flags (suc n) i s =
    let (phys, s1) = vmm_alloc_map pml4 (u64 (virt + i * page_size)) flags s in
    let rest = alloc_pages pml4 virt flags n (i + 1) s1 in
    if phys == 0 then (negsuc 0, s1) else rest

unfoldable pub vmm_alloc_range : ℕ → ℕ → ℕ → ℕ → Machine → ℤ × Machine
vmm_alloc_range pml4 virt size flags s = alloc_pages pml4 virt flags (pages_of size) 0 s

-- One page of `vmm_free_range`.
unfoldable pub free_mapping : ℕ → ℕ → Machine → Machine
free_mapping pml4 va s =
    let phys = vmm_translate pml4 va s in
    let s1 = vmm_unmap pml4 va s in
    if phys == 0 then s else record s1 { pmm = pmm_free_page s1.pmm phys }

free_pages : ℕ → ℕ → ℕ → ℕ → Machine → Machine
free_pages pml4 virt zero i s = s
free_pages pml4 virt (suc n) i s =
    free_pages pml4 virt n (i + 1) (free_mapping pml4 (u64 (virt + i * page_size)) s)

unfoldable pub vmm_free_range : ℕ → ℕ → ℕ → Machine → Machine
unfolding free_pages
vmm_free_range pml4 virt size s = free_pages pml4 virt (pages_of size) 0 s

-- Copies entries `i` on, `n` of them, from the kernel's root table.
unfoldable pub copy_entries : ℕ → ℕ → ℕ → ℕ → M (Unit {0})
copy_entries kernel_pml4 pml4 zero i = pure tt
copy_entries kernel_pml4 pml4 (suc n) i = do
  e ← load (slot kernel_pml4 i)
  store (slot pml4 i) e
  copy_entries kernel_pml4 pml4 n (i + 1)

-- The new root, or `none` for NULL.
unfoldable pub vmm_create_address_space : ℕ → M ℕ
vmm_create_address_space kernel_pml4 = do
  page ← alloc_page
  copy_entries kernel_pml4 page 256 256
  pure page
