-- ===== src/Mm/Vmm/Space.antt =====
-- `vmm_create_address_space`: a new root that shares the kernel's half.
use dev_os.Prelude.{
  ℕ, zero, suc, ◌+◌, ◌-◌, ◌*◌, ◌≤◌, ◌<◌, ◌≡◌, ◌≢◌, refl, arith, true, false, ltb, leb, ◌&&◌,
  if◌then◌else◌, some, update,
}
use dev_os.Mm.Pmm.{Pmm, Memory, frame_used, pmm_alloc}
use dev_os.Mm.Pmm.Alloc.{IsValid, Allocated, pmm_alloc_succeeds}
use dev_os.Mm.Machine.{Machine}
use dev_os.Mm.Vmm.{slot}
use dev_os.Mm.Vmm.Tables.{entry, at_slot}
use dev_os.Mm.Vmm.Ext.{copy_entries, vmm_create_address_space}

-- Memory after entries `i` to `i + n` of table `t` were copied from table `k`.
abbrev copied : Memory → ℕ → ℕ → ℕ → ℕ → Memory
copied m k t n i w =
    if leb (t * 512 + i) w && ltb w (t * 512 + i + n) then m (k * 512 + (w - t * 512)) else m w

copy_entries_lem :
    (k t n i : ℕ) (s : Machine)
    → k ≢ t
    → i + n ≤ 512
    → (s' : Machine) × (copy_entries (k * 4096) (t * 4096) n i s ≡ (some tt, s'))
      × (s'.pmm ≡ s.pmm)
      × ((w : ℕ) → s'.mem w ≡ copied s.mem k t n i w)
unfolding copy_entries
copy_entries_lem k t zero i s ne h = (s, refl, refl, λ w. ground arith)
copy_entries_lem k t (suc n) i s ne h = step (copy_entries_lem k t n (i + 1) next ne (omega arith))
  where
    next : Machine
    next = record s { mem = update s.mem (slot (t * 4096) i) (s.mem (slot (k * 4096) i)) }

    step :
        (s' : Machine) × (copy_entries (k * 4096) (t * 4096) n (i + 1) next ≡ (some tt, s'))
          × (s'.pmm ≡ s.pmm)
          × ((w : ℕ) → s'.mem w ≡ copied next.mem k t n (i + 1) w)
        → (s' : Machine) × (copy_entries (k * 4096) (t * 4096) (suc n) i s ≡ (some tt, s'))
          × (s'.pmm ≡ s.pmm)
          × ((w : ℕ) → s'.mem w ≡ copied s.mem k t (suc n) i w)
    step (s', e, p, m) = (s', e, p, λ w. ground (arith, m w, at_slot t i, at_slot k i))

-- The machine after an address space with its root in frame `root` was made.
pub record NewSpace (s : Machine) (kernel root : ℕ) (s' : Machine) : Type 0 where
  pub was_free : frame_used s.pmm.bitmap root ≡ false
  pub used : frame_used s'.pmm.bitmap root ≡ true
  pub valid : IsValid s'.pmm
  pub halves : (i : ℕ) → i < 512 → entry s' root i ≡ (if ltb i 256 then 0 else entry s kernel i)
  pub others : (f i : ℕ) → f ≢ root → i < 512 → entry s' f i ≡ entry s f i

-- With a free frame, a new address space is a root in a frame that was free: its lower half is
-- empty, its upper half holds the kernel's entries, every other table is as it was, and the
-- allocator stays valid.
pub vmm_create_address_space_lem :
    (s : Machine) (kernel : ℕ)
    → IsValid s.pmm
    → 0 < s.pmm.free_frames
    → frame_used s.pmm.bitmap kernel ≡ true
    → (root : ℕ) × (s' : Machine) × (vmm_create_address_space (kernel * 4096) s
        ≡ (some (root * 4096), s'))
      × NewSpace s kernel root s'
unfolding vmm_create_address_space
vmm_create_address_space_lem s kernel v pos used = taken (pmm_alloc_succeeds s.pmm s.mem v pos)
  where
    copy :
        (t : ℕ) (p : Pmm) (m : Memory)
        → pmm_alloc s.pmm s.mem ≡ (some (t * 4096), p, m)
        → Allocated s.pmm s.mem t p m
        → kernel ≢ t
        → (s' : Machine) × (copy_entries
              (kernel * 4096)
              (t * 4096)
              256
              256
              (record { pmm = p; mem = m })
            ≡ (some tt, s'))
          × (s'.pmm ≡ p)
          × ((w : ℕ) → s'.mem w ≡ copied m kernel t 256 256 w)
        → (root : ℕ) × (s' : Machine) × (vmm_create_address_space (kernel * 4096) s
            ≡ (some (root * 4096), s'))
          × NewSpace s kernel root s'
    copy t p m e a ne (s', c, same, at) = (
      t,
      s',
      rw (e, c),
      record {
        was_free = a.was_free;
        used = ground (arith, a.used t);
        valid = rw same a.valid;
        halves = λ i lt.
            ground (arith, at (t * 512 + i), a.zeroed (t * 512 + i), a.zeroed (kernel * 512 + i));
        others = λ f i other lt. ground (arith, at (f * 512 + i), a.zeroed (f * 512 + i));
      },
    )

    taken :
        (t : ℕ) × (p : Pmm) × (m : Memory) × (pmm_alloc s.pmm s.mem ≡ (some (t * 4096), p, m))
          × Allocated s.pmm s.mem t p m
        → (root : ℕ) × (s' : Machine) × (vmm_create_address_space (kernel * 4096) s
            ≡ (some (root * 4096), s'))
          × NewSpace s kernel root s'
    taken (t, p, m, e, a) =
        let ne : kernel ≢ t = λ k. absurd (ground (arith, a.was_free)) in
        copy t p m e a ne
          (copy_entries_lem kernel t 256 256 (record { pmm = p; mem = m }) ne (omega arith))
