-- ===== src/Mm/Vmm.antt =====
-- kernel/mm/vmm.c and kernel/mm/vmm_ext.c: four-level page tables in physical memory, which the
-- kernel reaches at its own address (`phys_to_pt` is a cast). TLB flushes, CR3 and the message of
-- the fatal branch have no counterpart in the state.
pub mod Entries
pub mod Tables
pub mod Map
pub mod Unmap
pub mod Ext
pub mod Space
use dev_os.Prelude.{
  ℕ, zero, suc, ◌+◌, ◌-◌, ◌*◌, ◌/◌, ◌^◌, Bool, true, false, not, ◌!=◌, ◌==◌, if◌then◌else◌, Option,
  none, some, bit_and, bit_or, update,
}
use dev_os.Word.{u64, page_size, align_up}
use dev_os.Mm.Pmm.{pmm_free_page}
use dev_os.Mm.Machine.{Machine, M, ◌>>=◌, ◌>>◌, alloc_page, load, store, pure}

abbrev pub vmm_present : ℕ
vmm_present = 1

abbrev pub vmm_writable : ℕ
vmm_writable = 2

abbrev pub vmm_user : ℕ
vmm_user = 4

abbrev pub vmm_huge : ℕ
vmm_huge = 128

abbrev pub vmm_no_exec : ℕ
vmm_no_exec = 2 ^ 63

abbrev pub vmm_phys_mask : ℕ
vmm_phys_mask = 0x000F_FFFF_FFFF_F000

abbrev pub pml4_idx : ℕ → ℕ
pml4_idx v = bit_and (v / 2 ^ 39) 0x1FF

abbrev pub pdpt_idx : ℕ → ℕ
pdpt_idx v = bit_and (v / 2 ^ 30) 0x1FF

abbrev pub pd_idx : ℕ → ℕ
pd_idx v = bit_and (v / 2 ^ 21) 0x1FF

abbrev pub pt_idx : ℕ → ℕ
pt_idx v = bit_and (v / 2 ^ 12) 0x1FF

abbrev pub is_present : ℕ → Bool
is_present e = bit_and e vmm_present != 0

abbrev pub is_huge : ℕ → Bool
is_huge e = bit_and e vmm_huge != 0

-- The index of the word `table[idx]`.
abbrev pub slot : ℕ → ℕ → ℕ
slot table idx = table / 8 + idx

-- A table's address, where 0 is NULL for the caller.
abbrev pub pointer : ℕ → M ℕ
pointer a s = (if a == 0 then none else some a, s)

unfoldable pub get_or_create : ℕ → ℕ → ℕ → M ℕ
get_or_create table idx flags = do
  e ← load (slot table idx)
  if is_present e
      then pure tt
      else (do page ← alloc_page; store (slot table idx) (bit_or page flags))
  e' ← load (slot table idx)
  pointer (bit_and e' vmm_phys_mask)

-- The void function's `none` is an early return, when `get_or_create` answered NULL.
unfoldable pub vmm_map : ℕ → ℕ → ℕ → ℕ → M (Unit {0})
vmm_map pml4 virt phys flags = do
  let mid_flags = bit_or (bit_or vmm_present vmm_writable) (bit_and flags vmm_user)
  pdpt ← get_or_create pml4 (pml4_idx virt) mid_flags
  pd ← get_or_create pdpt (pdpt_idx virt) mid_flags
  pt ← get_or_create pd (pd_idx virt) mid_flags
  store (slot pt (pt_idx virt)) (bit_or (bit_and phys vmm_phys_mask) flags)

unfoldable pub vmm_unmap : ℕ → ℕ → Machine → Machine
vmm_unmap pml4 virt s =
    let e4 = s.mem (slot pml4 (pml4_idx virt)) in
    if not (is_present e4)
    then s
    else let e3 = s.mem (slot (bit_and e4 vmm_phys_mask) (pdpt_idx virt)) in
      if not (is_present e3)
      then s
      else let e2 = s.mem (slot (bit_and e3 vmm_phys_mask) (pd_idx virt)) in
        if not (is_present e2)
        then s
        else record s { mem = update s.mem (slot (bit_and e2 vmm_phys_mask) (pt_idx virt)) 0 }

unfoldable pub vmm_translate : ℕ → ℕ → Machine → ℕ
vmm_translate pml4 virt s =
    let e4 = s.mem (slot pml4 (pml4_idx virt)) in
    if not (is_present e4)
    then 0
    else let e3 = s.mem (slot (bit_and e4 vmm_phys_mask) (pdpt_idx virt)) in
      if not (is_present e3)
      then 0
      else if is_huge e3
      then bit_or (bit_and e3 0x000F_FFFF_C000_0000) (bit_and virt 0x3FFF_FFFF)
      else let e2 = s.mem (slot (bit_and e3 vmm_phys_mask) (pd_idx virt)) in
        if not (is_present e2)
        then 0
        else if is_huge e2
        then bit_or (bit_and e2 0x000F_FFFF_FFE0_0000) (bit_and virt 0x1F_FFFF)
        else let e1 = s.mem (slot (bit_and e2 vmm_phys_mask) (pt_idx virt)) in
          if not (is_present e1) then 0 else bit_or (bit_and e1 vmm_phys_mask) (bit_and virt 0xFFF)
