-- ===== src/Elf/Window.antt =====
-- Which bytes of a segment `elf_map_segment` copies into a page.
use dev_os.Prelude.{
  min, max, ℕ, ◌+◌, ◌^◌, ◌≤◌, ◌<◌, ◌≡◌, refl, arith, ltb, ◌&&◌, if◌then◌else◌, Option, none, some,
  Bool-cases, inl, inr,
}
use dev_os.Word.{u64, sub64, page_size}
use dev_os.Elf.{Phdr, copy_window}

-- Byte `x` of the page is in the file's part of the segment.
abbrev pub InFile : Phdr → ℕ → ℕ → Type 0
InFile ph page_va x = (ph.p_vaddr ≤ page_va + x) × (page_va + x < ph.p_vaddr + ph.p_filesz)

-- The window has the page's bytes that are in the file's part, at their place, and no others; it
-- stays inside the page and inside the file's part.
abbrev pub IsWindow : Phdr → ℕ → Option (ℕ × ℕ × ℕ) → Type 0
IsWindow ph page_va none = (x : ℕ) → x < 4096 → ¬ InFile ph page_va x
IsWindow ph page_va (some (dst, src, len)) =
    (dst + len ≤ 4096)
    × (src + len ≤ ph.p_filesz)
    × (ph.p_vaddr + src ≡ page_va + dst)
    × ((x : ℕ) → x < 4096 → InFile ph page_va x → (dst ≤ x) × (x < dst + len))

window :
    (ph : Phdr) (page_va start stop fend : ℕ)
    → ph.p_vaddr + ph.p_filesz < 2 ^ 64
    → page_va + 4096 < 2 ^ 64
    → start ≡ max page_va ph.p_vaddr
    → stop ≡ min fend (page_va + 4096)
    → fend ≡ ph.p_vaddr + ph.p_filesz
    → IsWindow ph page_va (
        if ltb start stop && ltb start fend
        then some (sub64 start page_va, sub64 start ph.p_vaddr, sub64 stop start)
        else none)
window ph page_va start stop fend seg page a b c =
    elim (Bool-cases (ltb start stop && ltb start fend)) [
      | inl e ↦
          let lt : (start < stop) × (start < fend) = (ground arith, ground arith) in
          simp e (
            omega (arith, lt),
            omega (arith, lt),
            omega (arith, lt),
            λ x hx h. (omega (arith, lt, h), omega (arith, lt, h)),
          )
      | inr e ↦ simp e (λ x hx h. ground (arith, h))
    ]

-- For a segment and a page that do not reach the end of the address space, `copy_window` is the
-- page's bytes that the segment has in the file, each with its place there.
pub copy_window-IsWindow :
    (ph : Phdr) (page_va : ℕ)
    → ph.p_vaddr + ph.p_filesz < 2 ^ 64
    → page_va + 4096 < 2 ^ 64
    → IsWindow ph page_va (copy_window ph page_va)
unfolding copy_window
copy_window-IsWindow ph page_va seg page =
    let page_end : u64 (page_va + page_size) ≡ page_va + 4096 = omega arith in
    let fend : u64 (ph.p_vaddr + ph.p_filesz) ≡ ph.p_vaddr + ph.p_filesz = omega arith in
    rw (page_end, fend, copy_window)
      (window ph page_va (if ltb page_va ph.p_vaddr then ph.p_vaddr else page_va)
        (if ltb (ph.p_vaddr + ph.p_filesz) (page_va + 4096)
          then ph.p_vaddr + ph.p_filesz
          else page_va + 4096)
        (ph.p_vaddr + ph.p_filesz) seg page (ground arith) (ground arith) refl)
