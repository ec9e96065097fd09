-- ===== src/Mm/Vmm/Entries.antt =====
-- Page-table entries: what the masks read back from an address joined with flags.
use dev_os.Prelude.{
  ℕ, ◌-◌, ◌*◌, ◌^◌, ◌<◌, ◌≡◌, refl, ap, arith, min, max, bit_and, bit_or, true, false, ◌==◌,
  Bool-cases, ◌⊎◌, inl, inr,
}
use dev_os.Bits.{
  bit_and_low, bit, bit-lt, bit_ext, bit-bit_and, bit-bit_or, bit_zero, bit_and_pow,
  bit_and-le_right, bit_and_shift, bit_and_ones,
}
use dev_os.Mm.Vmm.{vmm_phys_mask, vmm_present, vmm_writable, vmm_user, is_present, is_huge}

disjoint_bits :
    (a f m : ℕ) → a < 2 → f < 2 → m < 2 → min f m ≡ 0 → min (max (min a m) f) m ≡ min a m
disjoint_bits a f m ha hf hm h = omega arith

mask-lt : (w : ℕ) → bit_and w vmm_phys_mask < 2 ^ 64
mask-lt w = omega (arith, bit_and-le_right 64 w vmm_phys_mask (omega arith))

-- Flags outside the mask do not disturb the masked address.
pub mask-bit_or :
    (p f : ℕ)
    → bit_and f vmm_phys_mask ≡ 0
    → bit_and (bit_or (bit_and p vmm_phys_mask) f) vmm_phys_mask ≡ bit_and p vmm_phys_mask
mask-bit_or p f h = bit_ext 64 _ _ (mask-lt _) (mask-lt p) λ j lt. omega (
  arith,
  bit-bit_and j (bit_or (bit_and p vmm_phys_mask) f) vmm_phys_mask,
  bit-bit_or j (bit_and p vmm_phys_mask) f,
  bit-bit_and j p vmm_phys_mask,
  bit-bit_and j f vmm_phys_mask,
  ap (bit j) h,
  bit_zero j,
  disjoint_bits (bit j p) (bit j f) (bit j vmm_phys_mask) (bit-lt j p) (bit-lt j f)
      (bit-lt j vmm_phys_mask),
)

-- The address of a frame below 2 ^ 40 is its own mask.
pub mask_frame : (t : ℕ) → t < 2 ^ 40 → bit_and (t * 4096) vmm_phys_mask ≡ t * 4096
mask_frame t h = omega (arith, bit_and_shift 12 t (2 ^ 40 - 1), bit_and_ones 40 t h)

-- An entry made of a frame's address and flags outside the mask reads back as that address.
pub mask_entry :
    (t f : ℕ)
    → t < 2 ^ 40
    → bit_and f vmm_phys_mask ≡ 0
    → bit_and (bit_or (t * 4096) f) vmm_phys_mask ≡ t * 4096
mask_entry t f h z =
    let e : bit_and (t * 4096) vmm_phys_mask ≡ t * 4096 = mask_frame t h in
    rw e at (mask-bit_or (t * 4096) f z)

pub is_present-bit : (e : ℕ) → is_present e ≡ (bit 0 e == 1)
is_present-bit e = ground (arith, bit_and_pow 0 e, bit-lt 0 e)

pub is_huge-bit : (e : ℕ) → is_huge e ≡ (bit 7 e == 1)
is_huge-bit e = ground (arith, bit_and_pow 7 e, bit-lt 7 e)

-- The flags that `vmm_map` gives to the tables that it creates.
abbrev pub mid : ℕ → ℕ
mid flags = bit_or (bit_or vmm_present vmm_writable) (bit_and flags vmm_user)

mid_cases : (flags : ℕ) → (mid flags ≡ 3) ⊎ (mid flags ≡ 7)
mid_cases flags = elim (Bool-cases (bit 2 flags == 1)) [
  | inl user ↦ let e : bit_and flags 4 ≡ 4 = ground (arith, bit_and_pow 2 flags) in inr (rw e)
  | inr kernel ↦
      let e : bit_and flags 4 ≡ 0 = ground (arith, bit_and_pow 2 flags, bit-lt 2 flags) in
      inl (rw e)
]

-- A new table's entry is present, is not huge, and points at its frame.
pub record IsLink (e t : ℕ) : Type 0 where
  pub present : is_present e ≡ true
  pub small : is_huge e ≡ false
  pub target : bit_and e vmm_phys_mask ≡ t * 4096

frame_bits : (t : ℕ) → (bit 0 (t * 4096) ≡ 0) × (bit 7 (t * 4096) ≡ 0)
unfolding bit
frame_bits t = omega arith

link_of :
    (t f : ℕ)
    → t < 2 ^ 40
    → bit_and f vmm_phys_mask ≡ 0
    → bit 0 f ≡ 1
    → bit 7 f ≡ 0
    → IsLink (bit_or (t * 4096) f) t
link_of t f h z p s = record {
  present = rw is_present-bit (ground (arith, bit-bit_or 0 (t * 4096) f, frame_bits t));
  small = rw is_huge-bit (ground (arith, bit-bit_or 7 (t * 4096) f, frame_bits t));
  target = mask_entry t f h z;
}

pub mid-IsLink : (t flags : ℕ) → t < 2 ^ 40 → IsLink (bit_or (t * 4096) (mid flags)) t
mid-IsLink t flags h = elim (mid_cases flags) [
  | inl e ↦ rw e (link_of t 3 h refl (unfold bit in refl) (unfold bit in refl))
  | inr e ↦ rw e (link_of t 7 h refl (unfold bit in refl) (unfold bit in refl))
]

pub idx_bound : (x : ℕ) → bit_and x 0x1FF < 512
idx_bound x = omega (arith, bit_and_low 9 x)
