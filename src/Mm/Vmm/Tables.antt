-- ===== src/Mm/Vmm/Tables.antt =====
-- The shape of a set of page tables: each frame that holds one has a level, 4 for the root down to
-- 1, and a present entry of a table leads to a table one level below. The levels are not in the
-- program's state: they say which memory the tables own.
use dev_os.Prelude.{
  ◌∙◌, none, ℕ, ◌+◌, ◌-◌, ◌*◌, ◌≤◌, ◌<◌, ◌≡◌, ◌≢◌, inl, inr, refl, ap, arith, true, false, ◌==◌,
  ◌&&◌, if◌then◌else◌, Bool-cases, some, update, update_self, bit_and, bit_or, subst, sym,
}
use dev_os.Mm.Pmm.{Pmm, Memory, max_frames, frame_used, pmm_alloc}
use dev_os.Mm.Pmm.Alloc.{IsValid, Allocated, pmm_alloc_succeeds}
use dev_os.Mm.Machine.{Machine}
use dev_os.Mm.Vmm.{vmm_phys_mask, is_present, slot, get_or_create}
use dev_os.Mm.Vmm.Entries.{IsLink, mid, mid-IsLink}

pub at_slot : (f i : ℕ) → slot (f * 4096) i ≡ f * 512 + i
at_slot f i = omega arith

-- The word of entry `i` of the table in frame `f`.
abbrev pub entry : Machine → ℕ → ℕ → ℕ
entry s f i = s.mem (f * 512 + i)

pub record HasTables (level : ℕ → ℕ) (s : Machine) : Type 0 where
  pub valid : IsValid s.pmm
  pub not_null : level 0 ≡ 0
  pub owned : (f : ℕ) → 0 < level f → (f < max_frames) × (frame_used s.pmm.bitmap f ≡ true)
  pub linked :
      (f i : ℕ)
      → 1 < level f
      → i < 512
      → is_present (entry s f i) ≡ true
      → (t : ℕ) × IsLink (entry s f i) t × (level t + 1 ≡ level f)

-- What one level of the walk gives: the table below, in a state where everything that was a table
-- before still is, and where only the entry walked through may have changed.
pub record Descended (level : ℕ → ℕ) (s : Machine) (f i : ℕ) (t : ℕ) (s' : Machine) (level' : ℕ → ℕ)
    : Type 0 where
  pub tables : HasTables level' s'
  pub below : level' t + 1 ≡ level f
  pub link : IsLink (entry s' f i) t
  pub kept_levels : (g : ℕ) → 0 < level g → level' g ≡ level g
  pub kept_entries :
      (g j : ℕ) → 0 < level g → j < 512 → (g ≡ f → j ≢ i) → entry s' g j ≡ entry s g j
  pub used_up : s.pmm.free_frames ≤ s'.pmm.free_frames + 1

abbrev assign : (ℕ → ℕ) → ℕ → ℕ → ℕ → ℕ
assign level t k g = if t == g then k else level g

module _ (level : ℕ → ℕ) (s : Machine) (f i flags : ℕ) (v : HasTables level s) (high : 1 < level f)
    (fits : i < 512) (t : ℕ) (p : Pmm) (m : Memory) (a : Allocated s.pmm s.mem t p m) where
  abbrev link : ℕ
  link = bit_or (t * 4096) (mid flags)

  abbrev after : Machine
  after = record { pmm = p; mem = update m (f * 512 + i) link }

  abbrev level' : ℕ → ℕ
  level' = assign level t (level f - 1)

  fresh : level t ≡ 0
  fresh = elim (Bool-cases (level t == 0)) [
    | inl e ↦ ground arith
    | inr e ↦ cc ((v.owned t (ground arith)).1, a.was_free)
  ]

  new_entry :
      (g j : ℕ)
      → j < 512
      → entry after g j ≡ (if g == f && j == i then link else if g == t then 0 else entry s g j)
  new_entry g j lt = ground (arith, a.zeroed (g * 512 + j))

  is_link : IsLink link t
  is_link = mid-IsLink t flags (omega (arith, a.inside))

  hung_linked :
      (g j : ℕ)
      → 1 < level' g
      → j < 512
      → is_present (entry after g j) ≡ true
      → (u : ℕ) × IsLink (entry after g j) u × (level' u + 1 ≡ level' g)
  hung_linked g j h lt e = elim (Bool-cases (g == f && j == i)) [
    | inl here ↦ (t, rw (new_entry g j lt, here) is_link, ground (arith, fresh))
    | inr other ↦ elim (Bool-cases (g == t)) [
      | inl new ↦
          let zero_entry : entry after g j ≡ 0 = ground (arith, new_entry g j lt) in
          let absent : is_present (entry after g j) ≡ false = rw zero_entry in cc (absent, e)
      | inr old ↦
          let same : entry after g j ≡ entry s g j = ground (arith, new_entry g j lt) in
          old_entry (ground arith) old
            (v.linked g j (ground arith) lt (subst (λ w. is_present w ≡ true) same e)) same
    ]
  ]
    where
      old_entry :
          1 < level g
          → g == t ≡ false
          → (u : ℕ) × IsLink (entry s g j) u × (level u + 1 ≡ level g)
          → entry after g j ≡ entry s g j
          → (u : ℕ) × IsLink (entry after g j) u × (level' u + 1 ≡ level' g)
      old_entry big old (u, l, k) q = (u, rw q l, ground (arith, fresh))

  at_link : entry after f i ≡ link
  at_link = ground (arith, new_entry f i fits)

  hung : Descended level s f i t after level'
  hung = record {
    tables = record {
      valid = a.valid;
      not_null = ground (arith, v.not_null, v.valid.reserved, a.was_free);
      owned = λ g h. ground (arith, a.inside, a.used g, v.owned g);
      linked = hung_linked;
    };
    below = ground arith;
    link = subst (λ w. IsLink w t) (sym at_link) is_link;
    kept_levels = λ g h. ground (arith, fresh);
    kept_entries = λ g j h lt ne. ground (arith, new_entry g j lt, fresh);
    used_up = omega (arith, a.taken);
  }

-- `get_or_create` on an entry of a table above the last level, while a frame is free: it finds or
-- makes the table below.
pub get_or_create-Descended :
    (level : ℕ → ℕ) (s : Machine) (f i flags : ℕ)
    → HasTables level s
    → 1 < level f
    → i < 512
    → 0 < s.pmm.free_frames
    → (t : ℕ) × (s' : Machine) × (level' : ℕ → ℕ) × (get_or_create (f * 4096) i (mid flags) s
        ≡ (some (t * 4096), s'))
      × Descended level s f i t s' level'
unfolding get_or_create
get_or_create-Descended level s f i flags v high fits pos =
    elim (Bool-cases (is_present (entry s f i))) [
      | inl there ↦ old (v.linked f i high fits there)
      | inr missing ↦ new missing (pmm_alloc_succeeds s.pmm s.mem v.valid pos)
    ]
  where
    some_table : (t : ℕ) → level t + 1 ≡ level f → level 0 ≡ 0 → (t * 4096 == 0) ≡ false
    some_table t k z = ground (arith, high)

    new_frame :
        (t : ℕ) (p : Pmm) (m : Memory) → Allocated s.pmm s.mem t p m → (t * 4096 == 0) ≡ false
    new_frame t p m a = elim (Bool-cases (t * 4096 == 0)) [
      | inl null ↦
          let at_zero : t ≡ 0 = ground arith in
          let free_zero : frame_used s.pmm.bitmap 0 ≡ false =
            subst (λ (g : ℕ). frame_used s.pmm.bitmap g ≡ false) at_zero a.was_free in
          absurd (ground (arith, free_zero, v.valid.reserved))
      | inr other ↦ other
    ]

    old :
        (t : ℕ) × IsLink (entry s f i) t × (level t + 1 ≡ level f)
        → (t : ℕ) × (s' : Machine) × (level' : ℕ → ℕ) × (get_or_create (f * 4096) i (mid flags) s
            ≡ (some (t * 4096), s'))
          × Descended level s f i t s' level'
    old (t, l, k) = (
      t,
      s,
      level,
      rw (at_slot f i, l.present, l.target, some_table t k v.not_null) refl,
      record {
        tables = v;
        below = k;
        link = l;
        kept_levels = λ g h. refl;
        kept_entries = λ g j h lt ne. refl;
        used_up = omega arith;
      },
    )

    new :
        is_present (entry s f i) ≡ false
        → (t : ℕ) × (p : Pmm) × (m : Memory) × (pmm_alloc s.pmm s.mem ≡ (some (t * 4096), p, m))
          × Allocated s.pmm s.mem t p m
        → (t : ℕ) × (s' : Machine) × (level' : ℕ → ℕ) × (get_or_create (f * 4096) i (mid flags) s
            ≡ (some (t * 4096), s'))
          × Descended level s f i t s' level'
    new missing (t, p, m, e, a) =
        let target : bit_and (update m (f * 512 + i) (bit_or (t * 4096) (mid flags)) (f * 512 + i))
              vmm_phys_mask
            ≡ t * 4096 =
          rw update_self (is_link level s f i flags v high fits t p m a).target in
        (
          t,
          after level s f i flags v high fits t p m a,
          level' level s f i flags v high fits t p m a,
          rw (at_slot f i, missing, e)
              (ap
                  (λ (x : ℕ). (
                    if x == 0 then none else some x,
                    record {
                      pmm = p;
                      mem = update m (f * 512 + i) (bit_or (t * 4096) (mid flags));
                    },
                  ))
                  target
                ∙ rw (new_frame t p m a) refl),
          hung level s f i flags v high fits t p m a,
        )
