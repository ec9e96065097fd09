-- ===== src/Mm/Vmm/Unmap.antt =====
-- `vmm_unmap` followed by `vmm_translate`.
use dev_os.Prelude.{
  ℕ, ◌+◌, ◌*◌, ◌/◌, ◌^◌, ◌<◌, ◌≡◌, ◌≢◌, arith, false, Bool-cases, inl, inr, update,
}
use dev_os.Mm.Machine.{Machine}
use dev_os.Mm.Vmm.{is_present, slot, vmm_unmap, vmm_translate, pml4_idx, pdpt_idx, pd_idx, pt_idx}
use dev_os.Mm.Vmm.Entries.{IsLink, idx_bound}
use dev_os.Mm.Vmm.Tables.{entry, HasTables, at_slot}

-- The walk of `virt` ends early, at a missing entry.
data Ends (s : Machine) (root virt : ℕ) : Type 0 where
  no_pdpt : is_present (entry s root (pml4_idx virt)) ≡ false → Ends s root virt
  no_pd :
      (f3 : ℕ)
      → IsLink (entry s root (pml4_idx virt)) f3
      → is_present (entry s f3 (pdpt_idx virt)) ≡ false
      → Ends s root virt
  no_pt :
      (f3 f2 : ℕ)
      → IsLink (entry s root (pml4_idx virt)) f3
      → IsLink (entry s f3 (pdpt_idx virt)) f2
      → is_present (entry s f2 (pd_idx virt)) ≡ false
      → Ends s root virt

-- In well-formed tables a walk ends early or reaches a last-level table.
data Reaches (s : Machine) (root virt : ℕ) : Type 0 where
  ends : Ends s root virt → Reaches s root virt
  leaf :
      (f3 f2 f1 : ℕ)
      → IsLink (entry s root (pml4_idx virt)) f3
      → IsLink (entry s f3 (pdpt_idx virt)) f2
      → IsLink (entry s f2 (pd_idx virt)) f1
      → (root ≢ f1) × (f3 ≢ f1) × (f2 ≢ f1)
      → Reaches s root virt

vmm_unmap-missing :
    (s : Machine) (root virt : ℕ) → Ends s root virt → vmm_unmap (root * 4096) virt s ≡ s
unfolding vmm_unmap
vmm_unmap-missing s root virt (no_pdpt e) = rw (at_slot root (pml4_idx virt), e)
vmm_unmap-missing s root virt (no_pd f3 l4 e) =
    rw (at_slot root (pml4_idx virt), l4.present, l4.target, at_slot f3 (pdpt_idx virt), e)
vmm_unmap-missing s root virt (no_pt f3 f2 l4 l3 e) = rw (
  at_slot root (pml4_idx virt),
  l4.present,
  l4.target,
  at_slot f3 (pdpt_idx virt),
  l3.present,
  l3.target,
  at_slot f2 (pd_idx virt),
  e,
)

vmm_translate-missing :
    (s : Machine) (root virt : ℕ) → Ends s root virt → vmm_translate (root * 4096) virt s ≡ 0
unfolding vmm_translate
vmm_translate-missing s root virt (no_pdpt e) = rw (at_slot root (pml4_idx virt), e)
vmm_translate-missing s root virt (no_pd f3 l4 e) =
    rw (at_slot root (pml4_idx virt), l4.present, l4.target, at_slot f3 (pdpt_idx virt), e)
vmm_translate-missing s root virt (no_pt f3 f2 l4 l3 e) = rw (
  at_slot root (pml4_idx virt),
  l4.present,
  l4.target,
  at_slot f3 (pdpt_idx virt),
  l3.present,
  l3.small,
  l3.target,
  at_slot f2 (pd_idx virt),
  e,
)

-- A walk through three links to an empty entry.
translate_missing :
    (s : Machine) (f4 f3 f2 f1 virt : ℕ)
    → IsLink (entry s f4 (pml4_idx virt)) f3
    → IsLink (entry s f3 (pdpt_idx virt)) f2
    → IsLink (entry s f2 (pd_idx virt)) f1
    → entry s f1 (pt_idx virt) ≡ 0
    → vmm_translate (f4 * 4096) virt s ≡ 0
unfolding vmm_translate
translate_missing s f4 f3 f2 f1 virt l4 l3 l2 last = rw (
  at_slot f4 (pml4_idx virt),
  l4.present,
  l4.target,
  at_slot f3 (pdpt_idx virt),
  l3.present,
  l3.small,
  l3.target,
  at_slot f2 (pd_idx virt),
  l2.present,
  l2.small,
  l2.target,
  at_slot f1 (pt_idx virt),
  last,
)

module _ (level : ℕ → ℕ) (s : Machine) (root virt : ℕ) (v : HasTables level s)
    (top : level root ≡ 4) where
  reaches : Reaches s root virt
  reaches = elim (Bool-cases (is_present (entry s root (pml4_idx virt)))) [
    | inr e ↦ ends (no_pdpt e)
    | inl e ↦ below4 (v.linked root (pml4_idx virt) (omega arith) (idx_bound (virt / 2 ^ 39)) e)
  ]
    where
      below2 :
          (f3 f2 : ℕ)
          → IsLink (entry s root (pml4_idx virt)) f3
          → level f3 ≡ 3
          → IsLink (entry s f3 (pdpt_idx virt)) f2
          → level f2 ≡ 2
          → (f1 : ℕ) × IsLink (entry s f2 (pd_idx virt)) f1 × (level f1 + 1 ≡ level f2)
          → Reaches s root virt
      below2 f3 f2 l4 k3 l3 k2 (f1, l2, k1) =
          leaf f3 f2 f1 l4 l3 l2
            (λ e. absurd (ground arith), λ e. absurd (ground arith), λ e. absurd (ground arith))

      below3 :
          (f3 : ℕ)
          → IsLink (entry s root (pml4_idx virt)) f3
          → level f3 ≡ 3
          → (f2 : ℕ) × IsLink (entry s f3 (pdpt_idx virt)) f2 × (level f2 + 1 ≡ level f3)
          → Reaches s root virt
      below3 f3 l4 k3 (f2, l3, k2) = elim (Bool-cases (is_present (entry s f2 (pd_idx virt)))) [
        | inr e ↦ ends (no_pt f3 f2 l4 l3 e)
        | inl e ↦
            below2 f3 f2 l4 k3 l3 (omega arith)
              (v.linked f2 (pd_idx virt) (omega arith) (idx_bound (virt / 2 ^ 21)) e)
      ]

      below4 :
          (f3 : ℕ) × IsLink (entry s root (pml4_idx virt)) f3 × (level f3 + 1 ≡ level root)
          → Reaches s root virt
      below4 (f3, l4, k3) = elim (Bool-cases (is_present (entry s f3 (pdpt_idx virt)))) [
        | inr e ↦ ends (no_pd f3 l4 e)
        | inl e ↦
            below3 f3 l4 (omega arith)
              (v.linked f3 (pdpt_idx virt) (omega arith) (idx_bound (virt / 2 ^ 30)) e)
      ]

  abbrev cleared : ℕ → Machine
  cleared f1 = record s { mem = update s.mem (slot (f1 * 4096) (pt_idx virt)) 0 }

  other_entry : (f1 g j : ℕ) → g ≢ f1 → j < 512 → entry (cleared f1) g j ≡ entry s g j
  other_entry f1 g j ne lt = ground (arith, at_slot f1 (pt_idx virt), idx_bound (virt / 2 ^ 12))

  unmap_last :
      (f3 f2 f1 : ℕ)
      → IsLink (entry s root (pml4_idx virt)) f3
      → IsLink (entry s f3 (pdpt_idx virt)) f2
      → IsLink (entry s f2 (pd_idx virt)) f1
      → vmm_unmap (root * 4096) virt s ≡ cleared f1
  unfolding vmm_unmap
  unmap_last f3 f2 f1 l4 l3 l2 = rw (
    at_slot root (pml4_idx virt),
    l4.present,
    l4.target,
    at_slot f3 (pdpt_idx virt),
    l3.present,
    l3.target,
    at_slot f2 (pd_idx virt),
    l2.present,
    l2.target,
  )

  cleared_walk :
      (f3 f2 f1 : ℕ)
      → IsLink (entry s root (pml4_idx virt)) f3
      → IsLink (entry s f3 (pdpt_idx virt)) f2
      → IsLink (entry s f2 (pd_idx virt)) f1
      → (root ≢ f1) × (f3 ≢ f1) × (f2 ≢ f1)
      → vmm_translate (root * 4096) virt (cleared f1) ≡ 0
  unfolding vmm_translate
  cleared_walk f3 f2 f1 l4 l3 l2 ne =
      let last : entry (cleared f1) f1 (pt_idx virt) ≡ 0 =
        ground (arith, at_slot f1 (pt_idx virt)) in
      let m4 = other_entry f1 root (pml4_idx virt) ne.0 (idx_bound (virt / 2 ^ 39)) in
      let m3 = other_entry f1 f3 (pdpt_idx virt) ne.1 (idx_bound (virt / 2 ^ 30)) in
      let m2 = other_entry f1 f2 (pd_idx virt) ne.2 (idx_bound (virt / 2 ^ 21)) in
      translate_missing (cleared f1) root f3 f2 f1 virt (rw m4 l4) (rw m3 l3) (rw m2 l2) last

  unmapped :
      Reaches s root virt → vmm_translate (root * 4096) virt (vmm_unmap (root * 4096) virt s) ≡ 0
  unmapped (ends e) = rw (vmm_unmap-missing s root virt e) (vmm_translate-missing s root virt e)
  unmapped (leaf f3 f2 f1 l4 l3 l2 ne) =
      rw (unmap_last f3 f2 f1 l4 l3 l2) (cleared_walk f3 f2 f1 l4 l3 l2 ne)

-- In well-formed page tables no translation is left for an address after `vmm_unmap`, whether it
-- was mapped before or not.
pub vmm_translate-vmm_unmap :
    (level : ℕ → ℕ) (s : Machine) (root virt : ℕ)
    → HasTables level s
    → level root ≡ 4
    → vmm_translate (root * 4096) virt (vmm_unmap (root * 4096) virt s) ≡ 0
vmm_translate-vmm_unmap level s root virt v top =
    unmapped level s root virt v top (reaches level s root virt v top)
