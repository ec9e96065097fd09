-- ===== src/Elf.antt =====
-- kernel/elf/elf.c up to the creation of the task. A file is a function from the offset of a byte.
pub mod Window
pub mod Page
mod Tests
use dev_os.Prelude.{
  ℕ, zero, suc, ◌+◌, ◌-◌, ◌*◌, ◌/◌, ◌%◌, ◌^◌, ◌==◌, ◌!=◌, ltb, leb, ◌&&◌, ◌||◌, if◌then◌else◌,
  bit_and, bit_or, Option, none, some, update, Bool, true, false, not,
}
use dev_os.Prelude.Int.{ℤ, pos, negsuc}
use dev_os.Word.{u64, sub64, page_size, align_down, align_up}
use dev_os.Bits.{not64}
use dev_os.Str.Memory.{little, Bytes}
use dev_os.Mm.Pmm.{Memory}
use dev_os.Mm.Machine.{Machine, alloc_page}
use dev_os.Mm.Vmm.{vmm_present, vmm_writable, vmm_user, vmm_no_exec, vmm_map, vmm_translate}
use dev_os.Mm.Vmm.Ext.{ignoring, vmm_alloc_range, vmm_create_address_space}

-- The fields of `elf64_hdr_t` and of `elf64_phdr_t` that are read.
abbrev pub e_type : Bytes → ℕ
e_type m = little 2 m 16

abbrev pub e_machine : Bytes → ℕ
e_machine m = little 2 m 18

abbrev pub e_version : Bytes → ℕ
e_version m = little 4 m 20

abbrev pub e_entry : Bytes → ℕ
e_entry m = little 8 m 24

abbrev pub e_phoff : Bytes → ℕ
e_phoff m = little 8 m 32

abbrev pub e_phentsize : Bytes → ℕ
e_phentsize m = little 2 m 54

abbrev pub e_phnum : Bytes → ℕ
e_phnum m = little 2 m 56

pub record Phdr : Type 0 where
  pub p_type : ℕ
  pub p_flags : ℕ
  pub p_offset : ℕ
  pub p_vaddr : ℕ
  pub p_filesz : ℕ
  pub p_memsz : ℕ

abbrev pub phdr_at : Bytes → ℕ → Phdr
phdr_at m o = record {
  p_type = little 4 m o;
  p_flags = little 4 m (o + 4);
  p_offset = little 8 m (o + 8);
  p_vaddr = little 8 m (o + 16);
  p_filesz = little 8 m (o + 32);
  p_memsz = little 8 m (o + 40);
}

unfoldable pub elf_flags_to_vmm : ℕ → ℕ
elf_flags_to_vmm pf =
    let base = bit_or vmm_present vmm_user in
    let writable = if bit_and pf 2 != 0 then bit_or base vmm_writable else base in
    if bit_and pf 1 == 0 then bit_or writable vmm_no_exec else writable

-- 64 and 56 are the sizes of the two headers.
unfoldable pub elf_validate : Bytes → ℕ → ℤ
elf_validate m size =
    if ltb size 64
      || (little 4 m 0 != 0x464C457F
          || (m 4 != 2
              || (m 5 != 1
                  || (e_type m != 2
                      || (e_machine m != 62
                          || (e_version m != 1
                              || (ltb (e_phentsize m) 56
                                  || (e_phnum m == 0 || e_entry m == 0))))))))
    then negsuc 0
    else pos 0

-- The part of the file that goes into the page at `page_va`: where it starts in the page, where in
-- the segment's data, and how many bytes it has.
unfoldable pub copy_window : Phdr → ℕ → Option (ℕ × ℕ × ℕ)
copy_window ph page_va =
    let page_end = u64 (page_va + page_size) in
    let seg_fend = u64 (ph.p_vaddr + ph.p_filesz) in
    let start = if ltb page_va ph.p_vaddr then ph.p_vaddr else page_va in
    let stop = if ltb seg_fend page_end then seg_fend else page_end in
    if ltb start stop && ltb start seg_fend
    then some (sub64 start page_va, sub64 start ph.p_vaddr, sub64 stop start)
    else none

-- A word with byte `i` from the lowest set to `v`.
unfoldable pub set_byte : ℕ → ℕ → ℕ → ℕ
set_byte zero v w = w / 256 * 256 + v
set_byte (suc i) v w = w % 256 + 256 * set_byte i v (w / 256)

-- Byte `a` of the physical memory, whose words have eight.
unfoldable pub store_byte : Memory → ℕ → ℕ → Memory
store_byte mem a v = update mem (a / 8) (set_byte (a % 8) v (mem (a / 8)))

unfoldable pub copy_in : Bytes → ℕ → ℕ → ℕ → Memory → Memory
copy_in file src dst zero mem = mem
copy_in file src dst (suc n) mem =
    copy_in file (src + 1) (dst + 1) n (store_byte mem dst (file src))

unfoldable pub fill_page : Bytes → Phdr → ℕ → ℕ → Machine → Machine
fill_page file ph page_va phys s = elim (copy_window ph page_va) [
  | none ↦ s
  | some (dst_off, src_off, len) ↦ record s {
    mem = copy_in file (ph.p_offset + src_off) (phys + dst_off) len s.mem;
  }
]

-- The loop of `elf_map_segment` at page `i`, with `n` rounds left.
unfoldable pub segment_pages : ℕ → Bytes → Phdr → ℕ → ℕ → ℕ → Machine → ℤ × Machine
segment_pages pml4 file ph va_start zero i s = (pos 0, s)
segment_pages pml4 file ph va_start (suc n) i s =
    let (page, s1) = alloc_page s in
    elim page [
      | none ↦ (negsuc 0, s1)
      | some phys ↦
          let va = u64 (va_start + i * page_size) in
          segment_pages pml4 file ph va_start n (i + 1) (
            fill_page file ph va phys
              (ignoring (vmm_map pml4 va phys (elf_flags_to_vmm ph.p_flags)) s1))
    ]

unfoldable pub elf_map_segment : ℕ → Bytes → ℕ → Phdr → Machine → ℤ × Machine
elf_map_segment pml4 file size ph s =
    let va_start = align_down ph.p_vaddr page_size in
    let va_end = align_up (ph.p_vaddr + ph.p_memsz) page_size in
    let pages = sub64 va_end va_start / page_size in
    if ph.p_memsz == 0
    then (pos 0, s)
    else if ltb 0 ph.p_filesz && ltb size (u64 (ph.p_offset + ph.p_filesz))
    then (negsuc 0, s)
    else segment_pages pml4 file ph va_start pages 0 s

abbrev pub pt_load : ℕ
pt_load = 1

-- The loop of `elf_load` over the program headers from number `i` on.
unfoldable pub load_segments : ℕ → Bytes → ℕ → ℕ → ℕ → Machine → ℤ × Machine
load_segments pml4 file size zero i s = (pos 0, s)
load_segments pml4 file size (suc n) i s =
    let ph = phdr_at file (e_phoff file + i * e_phentsize file) in
    let skipped = load_segments pml4 file size n (i + 1) s in
    let (r, s1) = elf_map_segment pml4 file size ph s in
    if ph.p_type != pt_load
    then skipped
    else elim r [ negsuc k ↦ (negsuc 0, s1) | pos k ↦ load_segments pml4 file size n (i + 1) s1 ]

abbrev pub user_stack_top : ℕ
user_stack_top = 0x7FFF_FFFF_0000

abbrev pub user_stack_size : ℕ
user_stack_size = 64 * 1024

abbrev pub user_rsp : ℕ
user_rsp = user_stack_top - 8

-- The store of the return address, a word.
unfoldable pub push_return : ℕ → Machine → Machine
push_return pml4 s =
    let rsp_phys = vmm_translate pml4 (bit_and user_rsp (not64 7)) s in
    if rsp_phys == 0
    then s
    else record s { mem = update s.mem ((rsp_phys + bit_and user_rsp 0xFFF) / 8) 0 }

-- `elf_load` up to `sched_create_user_task`: the root table for it, or `none` for NULL.
unfoldable pub elf_load : ℕ → Bytes → ℕ → Machine → Option ℕ × Machine
elf_load kernel_pml4 file size s =
    let (space, s1) = vmm_create_address_space kernel_pml4 s in
    elim (elf_validate file size) [
      | negsuc k ↦ (none, s)
      | pos k ↦ elim space [
        | none ↦ (none, s1)
        | some pml4 ↦
            let (r, s2) = load_segments pml4 file size (e_phnum file) 0 s1 in
            elim r [
              | negsuc j ↦ (none, s2)
              | pos j ↦
                  let flags =
                    bit_or (bit_or (bit_or vmm_present vmm_writable) vmm_user) vmm_no_exec in
                  let (stack, s3) =
                    vmm_alloc_range pml4 (user_stack_top - user_stack_size) user_stack_size flags
                      s2 in
                  elim stack [ negsuc i ↦ (none, s3) | pos i ↦ (some pml4, push_return pml4 s3) ]
            ]
      ]
    ]
