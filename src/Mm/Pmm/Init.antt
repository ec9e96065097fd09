-- ===== src/Mm/Pmm/Init.antt =====
-- `pmm_init` of kernel/mm/pmm.c: the free frames that the firmware's memory map leaves. The map
-- is the list of the first `e820_count` entries of `e820_map`.
use dev_os.Prelude.{
  Option, none, some, true, false, ℕ, zero, suc, ◌+◌, ◌-◌, ◌/◌, ◌^◌, ◌!=◌, leb, if◌then◌else◌, List,
  [], ◌∷◌,
}
use dev_os.Word.{u64, sub64, page_size, align_up, align_down}
use dev_os.Mm.Pmm.{Pmm, max_frames, frame_set, frame_clear, frame_used}

pub record Entry : Type 0 where
  pub base : ℕ
  pub length : ℕ
  pub type : ℕ

abbrev pub region_start : Entry → ℕ
region_start e = align_up e.base page_size

abbrev pub region_end : Entry → ℕ
region_end e = align_down (u64 (e.base + e.length)) page_size

-- The inner loop at `addr`, with `n` rounds left of the `(end - start) / PAGE_SIZE` that it makes
-- between page-aligned ends.
unfoldable pub free_region : Pmm → ℕ → ℕ → Pmm
free_region p zero addr = p
free_region p (suc n) addr =
    let frame = addr / page_size in
    let freed = record p {
      bitmap = frame_clear p.bitmap frame;
      total_frames = u64 (p.total_frames + 1);
      free_frames = u64 (p.free_frames + 1);
    } in
    let rest = free_region freed n (addr + page_size) in if leb max_frames frame then p else rest

-- The body of the outer loop.
unfoldable pub free_entry : Pmm → Entry → Pmm
free_entry p e =
    if e.type != 1
    then p
    else if leb (region_end e) (region_start e)
    then p
    else free_region p ((region_end e - region_start e) / page_size) (region_start e)

unfoldable pub free_entries : Pmm → List Entry → Pmm
free_entries p [] = p
free_entries p (e ∷ es) = free_entries (free_entry p e) es

-- `if (!frame_used(f)) { frame_set(f); free_frames--; }`
unfoldable pub reserve_frame : Pmm → ℕ → Pmm
reserve_frame p f =
    if frame_used p.bitmap f
    then p
    else record p { bitmap = frame_set p.bitmap f; free_frames = sub64 p.free_frames 1 }

-- The loop over the kernel's pages at `a`, with `n` rounds left. `none` is an access behind the end
-- of the bitmap, which the code does not check.
unfoldable pub reserve_region : Pmm → ℕ → ℕ → Option Pmm
reserve_region p zero a = some p
reserve_region p (suc n) a = elim (leb max_frames (a / page_size)) [
  | true ↦ none
  | false ↦ reserve_region (reserve_frame p (a / page_size)) n (a + page_size)
]

abbrev pub kernel_start : ℕ
kernel_start = align_down 0x100000 page_size

-- The call on the static variables `p`. The bitmap's words all become ~0 first.
unfoldable pub pmm_init : Pmm → List Entry → ℕ → Option Pmm
pmm_init p map kernel_end_phys =
    let freed = free_entries (record p { bitmap = λ i. 2 ^ 64 - 1 }) map in
    let kend = align_up kernel_end_phys page_size in
    reserve_region (reserve_frame freed 0) ((kend - kernel_start) / page_size) kernel_start
