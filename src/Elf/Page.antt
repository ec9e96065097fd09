-- ===== src/Elf/Page.antt =====
-- The bytes that a page of a segment holds after its round of `elf_map_segment`.
use dev_os.Prelude.{
  ℕ, zero, suc, ◌+◌, ◌-◌, ◌*◌, ◌/◌, ◌%◌, ◌^◌, ◌≤◌, ◌<◌, ◌≡◌, ◌≢◌, refl, sym, ap, ◌∙◌, subst, arith,
  ◌==◌, true, some, Option-cases, Bool-cases, inl, inr,
}
use dev_os.Str.Memory.{Bytes}
use dev_os.Mm.Pmm.{Memory}
use dev_os.Mm.Machine.{Machine}
use dev_os.Elf.{Phdr, copy_window, set_byte, store_byte, copy_in, fill_page}
use dev_os.Elf.Window.{InFile, IsWindow, copy_window-IsWindow}

-- Byte `i` of a word, from the lowest.
abbrev pub word_byte : ℕ → ℕ → ℕ
word_byte zero w = w % 256
word_byte (suc i) w = word_byte i (w / 256)

-- Byte `a` of the physical memory.
abbrev pub byte_at : Memory → ℕ → ℕ
byte_at mem a = word_byte (a % 8) (mem (a / 8))

word_byte-set_byte : (i v w : ℕ) → v < 256 → word_byte i (set_byte i v w) ≡ v
unfolding set_byte
word_byte-set_byte zero v w lt = omega arith
word_byte-set_byte (suc i) v w lt =
    let rest : (w % 256 + 256 * set_byte i v (w / 256)) / 256 ≡ set_byte i v (w / 256) =
      omega arith in
    rw rest (word_byte-set_byte i v (w / 256) lt)

word_byte_other : (j i v w : ℕ) → v < 256 → j ≢ i → word_byte j (set_byte i v w) ≡ word_byte j w
unfolding set_byte
word_byte_other zero zero v w lt ne = absurd (ne refl)
word_byte_other zero (suc i) v w lt ne = omega arith
word_byte_other (suc j) zero v w lt ne =
    let rest : (w / 256 * 256 + v) / 256 ≡ w / 256 = omega arith in rw rest refl
word_byte_other (suc j) (suc i) v w lt ne =
    let rest : (w % 256 + 256 * set_byte i v (w / 256)) / 256 ≡ set_byte i v (w / 256) =
      omega arith in
    rw rest (word_byte_other j i v (w / 256) lt (λ e. ne (ap suc e)))

byte_at-store_byte : (mem : Memory) (a v : ℕ) → v < 256 → byte_at (store_byte mem a v) a ≡ v
unfolding store_byte
byte_at-store_byte mem a v lt =
    let here : (a / 8 == a / 8) ≡ true = ground arith in
    rw here (word_byte-set_byte (a % 8) v (mem (a / 8)) lt)

byte_at_other :
    (mem : Memory) (a v b : ℕ) → v < 256 → b ≢ a → byte_at (store_byte mem a v) b ≡ byte_at mem b
unfolding store_byte
byte_at_other mem a v b lt ne = elim (Bool-cases (a / 8 == b / 8)) [
  | inr e ↦ ap (word_byte (b % 8)) (simp e)
  | inl e ↦
      let same : b / 8 ≡ a / 8 = ground arith in
      let other : b % 8 ≢ a % 8 = λ eq. ne (omega (arith, same, eq)) in
      ap (word_byte (b % 8)) (simp e)
      ∙ word_byte_other (b % 8) (a % 8) v (mem (a / 8)) lt other
      ∙ ap (λ (q : ℕ). word_byte (b % 8) (mem q)) (sym same)
]

copy_in_outside :
    (n : ℕ) (file : Bytes) (src dst : ℕ) (mem : Memory) (b : ℕ)
    → ((o : ℕ) → file o < 256)
    → ¬ ((dst ≤ b) × (b < dst + n))
    → byte_at (copy_in file src dst n mem) b ≡ byte_at mem b
unfolding copy_in
copy_in_outside zero file src dst mem b small out = refl
copy_in_outside (suc n) file src dst mem b small out =
    copy_in_outside n file (src + 1) (dst + 1) (store_byte mem dst (file src)) b small
      (λ h. out (omega (arith, h), omega (arith, h)))
    ∙ byte_at_other mem dst (file src) b (small src) (λ e. out (omega (arith, e), omega (arith, e)))

copy_in_inside :
    (n : ℕ) (file : Bytes) (src dst : ℕ) (mem : Memory) (b : ℕ)
    → ((o : ℕ) → file o < 256)
    → dst ≤ b
    → b < dst + n
    → byte_at (copy_in file src dst n mem) b ≡ file (src + (b - dst))
unfolding copy_in
copy_in_inside zero file src dst mem b small lo hi = absurd (omega arith)
copy_in_inside (suc n) file src dst mem b small lo hi =
    let stored = store_byte mem dst (file src) in
    elim (Bool-cases (b == dst)) [
      | inl e ↦
          let here : b ≡ dst = ground arith in
          let first : src ≡ src + (b - dst) = omega (arith, here) in
          copy_in_outside n file (src + 1) (dst + 1) stored b small (λ h. omega (arith, h, here))
          ∙ ap (byte_at stored) here
          ∙ byte_at-store_byte mem dst (file src) (small src)
          ∙ ap file first
      | inr e ↦
          let ne : b ≢ dst = ground arith in
          let next : src + 1 + (b - (dst + 1)) ≡ src + (b - dst) = omega (arith, ne) in
          copy_in_inside n file (src + 1) (dst + 1) stored b small (omega (arith, ne)) (omega arith)
          ∙ ap file next
    ]

-- The page at the physical address `phys` after its round: a byte that the segment has in the file
-- is the file's byte, at the segment's offset and as far on as the byte's address is behind the
-- segment's start; every other byte of the page, and all memory around the page, is as before.
pub record IsLoaded (file : Bytes) (ph : Phdr) (page_va phys : ℕ) (before after : Memory)
    : Type 0 where
  pub loaded :
      (x : ℕ)
      → x < 4096
      → InFile ph page_va x
      → byte_at after (phys + x) ≡ file (ph.p_offset + (page_va + x - ph.p_vaddr))
  pub rest :
      (x : ℕ)
      → x < 4096
      → ¬ InFile ph page_va x
      → byte_at after (phys + x) ≡ byte_at before (phys + x)
  pub around : (a : ℕ) → ¬ ((phys ≤ a) × (a < phys + 4096)) → byte_at after a ≡ byte_at before a

copied :
    (file : Bytes) (ph : Phdr) (page_va phys dst src len : ℕ) (mem : Memory)
    → ((o : ℕ) → file o < 256)
    → IsWindow ph page_va (some (dst, src, len))
    → IsLoaded file ph page_va phys mem (copy_in file (ph.p_offset + src) (phys + dst) len mem)
copied file ph page_va phys dst src len mem small w = record {
  loaded = λ x hx h.
      let at_most = w.3 x hx h in
      copy_in_inside len file (ph.p_offset + src) (phys + dst) mem (phys + x) small
        (omega (arith, at_most)) (omega (arith, at_most))
      ∙ ap file (omega (arith, at_most, w.2, h));
  rest = λ x hx out.
      copy_in_outside len file (ph.p_offset + src) (phys + dst) mem (phys + x) small
        (λ h. out (omega (arith, h, w.1, w.2), omega (arith, h, w.1, w.2)));
  around = λ a out.
      copy_in_outside len file (ph.p_offset + src) (phys + dst) mem a small
        (λ h. out (omega (arith, h, w.0), omega (arith, h, w.0)));
}

-- One round of the copying in `elf_map_segment` fills the page's frame with the bytes that the
-- segment has in the file there: each of them is the byte of the file at the segment's offset plus
-- its distance from the segment's start; every other byte of the frame, and every byte outside it,
-- stays. The segment's part of the file and the page end below the end of the address space, and
-- what the file holds are bytes.
pub fill_page-IsLoaded :
    (file : Bytes) (ph : Phdr) (page_va phys : ℕ) (s : Machine)
    → ((o : ℕ) → file o < 256)
    → ph.p_vaddr + ph.p_filesz < 2 ^ 64
    → page_va + 4096 < 2 ^ 64
    → IsLoaded file ph page_va phys s.mem (fill_page file ph page_va phys s).mem
unfolding fill_page
fill_page-IsLoaded file ph page_va phys s small seg page =
    let w = copy_window-IsWindow ph page_va seg page in
    elim (Option-cases (copy_window ph page_va)) [
      | inl e ↦
          let out = subst (IsWindow ph page_va) e w in
          rw (e, fill_page)
            (record {
              loaded = λ x hx h. absurd (out x hx h);
              rest = λ x hx h. refl;
              around = λ a h. refl;
            })
      | inr (r, e) ↦
          rw (e, fill_page)
            (copied file ph page_va phys r.0 r.1 r.2 s.mem small (subst (IsWindow ph page_va) e w))
    ]
