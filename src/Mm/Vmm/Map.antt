-- ===== src/Mm/Vmm/Map.antt =====
-- `vmm_map` followed by `vmm_translate`.
use dev_os.Prelude.{
  ℕ, ◌*◌, ◌/◌, ◌^◌, ◌<◌, ◌≡◌, ◌≢◌, arith, ap, true, some, update, bit_and, bit_or, ◌∙◌,
}
use dev_os.Bits.{bit-bit_or, bit-bit_and, bit-lt}
use dev_os.Mm.Machine.{Machine, M, ◌>>=◌, store}
use dev_os.Mm.Vmm.{
  vmm_phys_mask, is_present, slot, get_or_create, vmm_map, vmm_translate, pml4_idx, pdpt_idx,
  pd_idx, pt_idx,
}
use dev_os.Mm.Vmm.Entries.{idx_bound, IsLink, mid, mask-bit_or, is_present-bit}
use dev_os.Mm.Vmm.Tables.{at_slot, entry, HasTables, Descended, get_or_create-Descended}

-- The four tables of one walk and the states between its steps.
record Walked (level : ℕ → ℕ) (s : Machine) (f4 virt flags : ℕ) : Type 0 where
  f3 : ℕ
  f2 : ℕ
  f1 : ℕ
  s' : Machine
  level' : ℕ → ℕ
  tables : HasTables level' s'
  levels : (level' f4 ≡ 4) × (level' f3 ≡ 3) × (level' f2 ≡ 2) × (level' f1 ≡ 1)
  link4 : IsLink (entry s' f4 (pml4_idx virt)) f3
  link3 : IsLink (entry s' f3 (pdpt_idx virt)) f2
  link2 : IsLink (entry s' f2 (pd_idx virt)) f1
  runs :
      (k : ℕ → M (Unit {0}))
      → (get_or_create (f4 * 4096) (pml4_idx virt) (mid flags) >>= λ pdpt.
            get_or_create pdpt (pdpt_idx virt) (mid flags) >>= λ pd.
            get_or_create pd (pd_idx virt) (mid flags) >>= k)
          s
        ≡ k (f1 * 4096) s'

abbrev Step : (ℕ → ℕ) → Machine → ℕ → ℕ → ℕ → ℕ → Machine → (ℕ → ℕ) → Type 0
Step level s f i flags t s' level' =
    (get_or_create (f * 4096) i (mid flags) s ≡ (some (t * 4096), s'))
    × Descended level s f i t s' level'

module _ (level : ℕ → ℕ) (s : Machine) (f4 virt flags : ℕ) (v : HasTables level s)
    (top : level f4 ≡ 4) (room : 2 < s.pmm.free_frames) where
  assemble :
      (f3 : ℕ) (s3 : Machine) (l3 : ℕ → ℕ)
      → Step level s f4 (pml4_idx virt) flags f3 s3 l3
      → (f2 : ℕ) (s2 : Machine) (l2 : ℕ → ℕ) → Step l3 s3 f3 (pdpt_idx virt) flags f2 s2 l2
      → (f1 : ℕ) (s1 : Machine) (l1 : ℕ → ℕ) → Step l2 s2 f2 (pd_idx virt) flags f1 s1 l1
      → Walked level s f4 virt flags
  assemble f3 s3 l3 (e3, d3) f2 s2 l2 (e2, d2) f1 s1 l1 (e1, d1) =
      let k34 : l3 f4 ≡ 4 = ground (arith, d3.kept_levels f4) in
      let k33 : l3 f3 ≡ 3 = omega (arith, d3.below) in
      let k24 : l2 f4 ≡ 4 = ground (arith, d2.kept_levels f4) in
      let k23 : l2 f3 ≡ 3 = ground (arith, d2.kept_levels f3) in
      let k22 : l2 f2 ≡ 2 = omega (arith, d2.below) in
      let same4 : entry s2 f4 (pml4_idx virt) ≡ entry s3 f4 (pml4_idx virt) =
        d2.kept_entries f4 (pml4_idx virt) (omega arith) (idx_bound (virt / 2 ^ 39))
          (λ e. absurd (ground arith)) in
      let same4' : entry s1 f4 (pml4_idx virt) ≡ entry s2 f4 (pml4_idx virt) =
        d1.kept_entries f4 (pml4_idx virt) (omega arith) (idx_bound (virt / 2 ^ 39))
          (λ e. absurd (ground arith)) in
      let same3 : entry s1 f3 (pdpt_idx virt) ≡ entry s2 f3 (pdpt_idx virt) =
        d1.kept_entries f3 (pdpt_idx virt) (omega arith) (idx_bound (virt / 2 ^ 30))
          (λ e. absurd (ground arith)) in
      record {
        f3 = f3;
        f2 = f2;
        f1 = f1;
        s' = s1;
        level' = l1;
        tables = d1.tables;
        levels = (
          ground (arith, d1.kept_levels f4),
          ground (arith, d1.kept_levels f3),
          ground (arith, d1.kept_levels f2),
          omega (arith, d1.below),
        );
        link4 = rw (same4', same4) d3.link;
        link3 = rw same3 d2.link;
        link2 = d1.link;
        runs = λ k. rw (e3, e2, e1);
      }

  walk : Walked level s f4 virt flags
  walk = first (
      get_or_create-Descended level s f4 (pml4_idx virt) flags v (omega arith)
        (idx_bound (virt / 2 ^ 39)) (omega arith))
    where
      third :
          (f3 : ℕ) (s3 : Machine) (l3 : ℕ → ℕ)
          → Step level s f4 (pml4_idx virt) flags f3 s3 l3
          → (f2 : ℕ) (s2 : Machine) (l2 : ℕ → ℕ) → Step l3 s3 f3 (pdpt_idx virt) flags f2 s2 l2
          → (f1 : ℕ) × (s1 : Machine) × (l1 : ℕ → ℕ) × (get_or_create
                (f2 * 4096)
                (pd_idx virt)
                (mid flags)
                s2
              ≡ (some (f1 * 4096), s1))
            × Descended l2 s2 f2 (pd_idx virt) f1 s1 l1
          → Walked level s f4 virt flags
      third f3 s3 l3 a f2 s2 l2 b (f1, s1, l1, e1, d1) =
          assemble f3 s3 l3 a f2 s2 l2 b f1 s1 l1 (e1, d1)

      second :
          (f3 : ℕ) (s3 : Machine) (l3 : ℕ → ℕ)
          → Step level s f4 (pml4_idx virt) flags f3 s3 l3
          → (f2 : ℕ) × (s2 : Machine) × (l2 : ℕ → ℕ) × (get_or_create
                (f3 * 4096)
                (pdpt_idx virt)
                (mid flags)
                s3
              ≡ (some (f2 * 4096), s2))
            × Descended l3 s3 f3 (pdpt_idx virt) f2 s2 l2
          → Walked level s f4 virt flags
      second f3 s3 l3 a (f2, s2, l2, e2, d2) =
          third f3 s3 l3 a f2 s2 l2 (e2, d2)
            (get_or_create-Descended l2 s2 f2 (pd_idx virt) flags d2.tables
              (omega (arith, d2.below, a.1.below)) (idx_bound (virt / 2 ^ 21))
              (omega (arith, a.1.used_up, d2.used_up)))

      first :
          (f3 : ℕ) × (s3 : Machine) × (l3 : ℕ → ℕ) × (get_or_create
                (f4 * 4096)
                (pml4_idx virt)
                (mid flags)
                s
              ≡ (some (f3 * 4096), s3))
            × Descended level s f4 (pml4_idx virt) f3 s3 l3
          → Walked level s f4 virt flags
      first (f3, s3, l3, e3, d3) =
          second f3 s3 l3 (e3, d3)
            (get_or_create-Descended l3 s3 f3 (pdpt_idx virt) flags d3.tables
              (omega (arith, d3.below)) (idx_bound (virt / 2 ^ 30)) (omega (arith, d3.used_up)))

-- A walk through three links to a present entry.
translate_walk :
    (s : Machine) (f4 f3 f2 f1 virt e : ℕ)
    → IsLink (entry s f4 (pml4_idx virt)) f3
    → IsLink (entry s f3 (pdpt_idx virt)) f2
    → IsLink (entry s f2 (pd_idx virt)) f1
    → entry s f1 (pt_idx virt) ≡ e
    → is_present e ≡ true
    → vmm_translate (f4 * 4096) virt s ≡ bit_or (bit_and e vmm_phys_mask) (bit_and virt 0xFFF)
unfolding vmm_translate
translate_walk s f4 f3 f2 f1 virt e l4 l3 l2 last set = rw (
  at_slot f4 (pml4_idx virt),
  l4.present,
  l4.target,
  at_slot f3 (pdpt_idx virt),
  l3.present,
  l3.small,
  l3.target,
  at_slot f2 (pd_idx virt),
  l2.present,
  l2.small,
  l2.target,
  at_slot f1 (pt_idx virt),
  last,
  set,
)

-- The last entry that `vmm_map` writes is present.
leaf_present :
    (phys flags : ℕ)
    → is_present flags ≡ true
    → is_present (bit_or (bit_and phys vmm_phys_mask) flags) ≡ true
leaf_present phys flags h = rw is_present-bit (
    ground (
      arith,
      bit-bit_or 0 (bit_and phys vmm_phys_mask) flags,
      is_present-bit flags,
      bit-bit_and 0 phys vmm_phys_mask,
      bit-lt 0 phys,
      bit-lt 0 (bit_and phys vmm_phys_mask),
      bit-lt 0 flags,
    ))

module _ (level : ℕ → ℕ) (s : Machine) (f4 virt flags phys : ℕ)
    (w : Walked level s f4 virt flags) where
  abbrev leaf : ℕ
  leaf = bit_or (bit_and phys vmm_phys_mask) flags

  abbrev final : Machine
  final = record (w.s') { mem = update w.s'.mem (slot (w.f1 * 4096) (pt_idx virt)) leaf }

  above : (g j : ℕ) → 1 < w.level' g → j < 512 → entry final g j ≡ entry w.s' g j
  above g j h lt =
      let apart : g ≢ w.f1 = λ e. absurd (ground (arith, w.levels)) in
      ground (arith, at_slot w.f1 (pt_idx virt), idx_bound (virt / 2 ^ 12))

  final_tables : HasTables w.level' final
  final_tables = record {
    valid = w.tables.valid;
    not_null = w.tables.not_null;
    owned = w.tables.owned;
    linked =
        λ g j h lt e. rw (above g j h lt) (w.tables.linked g j h lt (rw (above g j h lt) at e));
  }

  mapped :
      bit_and flags vmm_phys_mask ≡ 0
      → is_present flags ≡ true
      → (s' : Machine) × (level' : ℕ → ℕ) × (vmm_map (f4 * 4096) virt phys flags s ≡ (some tt, s'))
        × HasTables level' s'
        × (level' f4 ≡ 4)
        × (vmm_translate (f4 * 4096) virt s'
            ≡ bit_or (bit_and phys vmm_phys_mask) (bit_and virt 0xFFF))
  unfolding vmm_map
  mapped clear set = (
    final,
    w.level',
    w.runs (λ pt. store (slot pt (pt_idx virt)) leaf),
    final_tables,
    w.levels.0,
    translate_walk final f4 w.f3 w.f2 w.f1 virt leaf
          (rw (above f4 (pml4_idx virt) (omega (arith, w.levels)) (idx_bound (virt / 2 ^ 39)))
            w.link4)
          (rw (above w.f3 (pdpt_idx virt) (omega (arith, w.levels)) (idx_bound (virt / 2 ^ 30)))
            w.link3)
          (rw (above w.f2 (pd_idx virt) (omega (arith, w.levels)) (idx_bound (virt / 2 ^ 21)))
            w.link2)
          (ground (arith, at_slot w.f1 (pt_idx virt))) (leaf_present phys flags set)
        ∙ ap (λ (a : ℕ). bit_or a (bit_and virt 0xFFF)) (mask-bit_or phys flags clear),
  )

-- With three free frames for tables, `vmm_map` on the root of well-formed page tables always runs
-- to its end, keeps the tables well formed under the same root, and from then on `vmm_translate`
-- gives the mapped physical page with the offset of the virtual address. The flags must have the
-- present bit and none in the address field.
pub vmm_translate-vmm_map :
    (level : ℕ → ℕ) (s : Machine) (root virt phys flags : ℕ)
    → HasTables level s
    → level root ≡ 4
    → 2 < s.pmm.free_frames
    → bit_and flags vmm_phys_mask ≡ 0
    → is_present flags ≡ true
    → (s' : Machine) × (level' : ℕ → ℕ) × (vmm_map (root * 4096) virt phys flags s ≡ (some tt, s'))
      × HasTables level' s'
      × (level' root ≡ 4)
      × (vmm_translate (root * 4096) virt s'
          ≡ bit_or (bit_and phys vmm_phys_mask) (bit_and virt 0xFFF))
vmm_translate-vmm_map level s root virt phys flags v top room clear set =
    mapped level s root virt flags phys (walk level s root virt flags v top room) clear set
