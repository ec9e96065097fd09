-- ===== src/Pci/Scan.antt =====
-- The scan of kernel/drivers/pci/pci.c: what it records, and that it misses nothing.
use dev_os.Prelude.{
  ◌≢◌, ◌⊎◌, ℕ, zero, suc, ◌+◌, ◌≤◌, ◌<◌, ◌≡◌, refl, ◌∙◌, subst, arith, ◌==◌, true, false, leb,
  update_self, update_ne, Bool-cases, inl, inr,
}
use dev_os.Pci.{
  is_multi, scan_device, scan_bus, pci_scan, PciDevice, Pci, pci_read32, answers, described,
  scan_function, scan_other, each,
}

-- `t` has the entries of `s`, and perhaps more.
pub record Extends (s t : Pci) : Type 0 where
  pub longer : s.pci_device_count ≤ t.pci_device_count
  pub keeps : (i : ℕ) → i < s.pci_device_count → t.pci_devices i ≡ s.pci_devices i

Extends-refl : (s : Pci) → Extends s s
Extends-refl s = record { longer = omega arith; keeps = λ i lt. refl }

Extends-trans : (s t u : Pci) → Extends s t → Extends t u → Extends s u
Extends-trans s t u a b = record {
  longer = omega (arith, a.longer, b.longer);
  keeps = λ i lt. b.keeps i (omega (arith, a.longer, lt)) ∙ a.keeps i lt;
}

module _ (body : ℕ → Pci → Pci) (grows : (i : ℕ) (s : Pci) → Extends s (body i s)) where
  each-Extends : (rounds i : ℕ) (s : Pci) → Extends s (each body rounds i s)
  unfolding each
  each-Extends zero i s = Extends-refl s
  each-Extends (suc rounds) i s =
      Extends-trans s (body i s) (each body rounds (i + 1) (body i s)) (grows i s)
        (each-Extends rounds (i + 1) (body i s))

  -- The loop runs its body for each number, on a state that goes before the result.
  each_runs :
      (rounds i k : ℕ) (s : Pci)
      → i ≤ k
      → k < i + rounds
      → (t : Pci) × Extends (body k t) (each body rounds i s)
  unfolding each
  each_runs zero i k s lo hi = absurd (omega arith)
  each_runs (suc rounds) i k s lo hi = elim (Bool-cases (i == k)) [
    | inl e ↦
        let here : i ≡ k = ground arith in
        (
          s,
          subst (λ x. Extends (body x s) (each body rounds (i + 1) (body i s))) here
              (each-Extends rounds (i + 1) (body i s)),
        )
    | inr e ↦ each_runs rounds (i + 1) k (body i s) (ground arith) (omega arith)
  ]

-- Function `f` of device `d` on bus `b` has an entry in the table.
abbrev pub Recorded : (ℕ → ℕ) → ℕ → ℕ → ℕ → Pci → Type 0
Recorded in32 b d f s =
    (i : ℕ) × (i < s.pci_device_count)
    × ((old : PciDevice) × (s.pci_devices i ≡ described in32 b d f old))

Recorded-Extends :
    (in32 : ℕ → ℕ) (b d f : ℕ) (s t : Pci)
    → Extends s t
    → Recorded in32 b d f s
    → Recorded in32 b d f t
Recorded-Extends in32 b d f s t x (i, lt, (old, e)) =
    (i, omega (arith, lt, x.longer), (old, x.keeps i lt ∙ e))

module _ (in32 : ℕ → ℕ) where
  scan_function-Extends : (b d f : ℕ) (s : Pci) → Extends s (scan_function in32 b d f s)
  unfolding scan_function
  scan_function-Extends b d f s = elim (Bool-cases (answers (pci_read32 in32 b d f 0))) [
    | inr a ↦ rw (a, scan_function) (Extends-refl s)
    | inl a ↦ elim (Bool-cases (leb 256 s.pci_device_count)) [
      | inl full ↦ rw (a, full, scan_function) (Extends-refl s)
      | inr room ↦
          rw (a, room, scan_function)
            (record {
              longer = omega arith;
              keeps = λ i lt. update_ne s.pci_devices s.pci_device_count i _ (omega arith);
            })
    ]
  ]

  scan_function-Recorded :
      (b d f : ℕ) (s : Pci)
      → answers (pci_read32 in32 b d f 0) ≡ true
      → (scan_function in32 b d f s).pci_device_count < 256
      → Recorded in32 b d f (scan_function in32 b d f s)
  unfolding scan_function
  scan_function-Recorded b d f s a lt =
      let x = scan_function-Extends b d f s in
      let room : leb 256 s.pci_device_count ≡ false = ground (arith, x.longer, lt) in
      rw (a, room, scan_function)
        (
          s.pci_device_count,
          omega arith,
          (s.pci_devices s.pci_device_count, update_self s.pci_devices s.pci_device_count _),
        )

  scan_other-Extends : (b d f : ℕ) (s : Pci) → Extends s (scan_other in32 b d f s)
  unfolding scan_other
  scan_other-Extends b d f s = elim (Bool-cases (answers (pci_read32 in32 b d f 0))) [
    | inr a ↦ rw (a, scan_other) (Extends-refl s)
    | inl a ↦ rw (a, scan_other) (scan_function-Extends b d f s)
  ]

  scan_device-Extends : (b d : ℕ) (s : Pci) → Extends s (scan_device in32 b d s)
  unfolding scan_device
  scan_device-Extends b d s =
      let s1 = scan_function in32 b d 0 s in
      let x = scan_function-Extends b d 0 s in
      elim (Bool-cases (answers (pci_read32 in32 b d 0 0))) [
        | inr a ↦ rw (a, scan_device) (Extends-refl s)
        | inl a ↦ elim (Bool-cases (is_multi in32 b d)) [
          | inr m ↦ rw (a, m, scan_device) x
          | inl m ↦
              rw (a, m, scan_device)
                (Extends-trans s s1 (each (scan_other in32 b d) 7 1 s1) x
                  (each-Extends (scan_other in32 b d) (scan_other-Extends b d) 7 1 s1))
        ]
      ]

  scan_bus-Extends : (b : ℕ) (s : Pci) → Extends s (scan_bus in32 b s)
  unfolding scan_bus
  scan_bus-Extends b s = each-Extends (scan_device in32 b) (scan_device-Extends b) 32 0 s

  -- A function that the scan of its device looks at: the device has a function 0, and if `f` is
  -- another one, function 0 says that there are several.
  pub record IsPresent (b d f : ℕ) : Type 0 where
    pub bus_in : b < 256
    pub device_in : d < 32
    pub function_in : f < 8
    pub first : answers (pci_read32 in32 b d 0 0) ≡ true
    pub itself : answers (pci_read32 in32 b d f 0) ≡ true
    pub multi : (f ≡ 0) ⊎ (is_multi in32 b d ≡ true)

  scan_device_first :
      (b d : ℕ) (s : Pci)
      → answers (pci_read32 in32 b d 0 0) ≡ true
      → Extends (scan_function in32 b d 0 s) (scan_device in32 b d s)
  unfolding scan_device
  scan_device_first b d s a =
      let s1 = scan_function in32 b d 0 s in
      elim (Bool-cases (is_multi in32 b d)) [
        | inr m ↦ rw (a, m, scan_device) (Extends-refl s1)
        | inl m ↦
            rw (a, m, scan_device)
              (each-Extends (scan_other in32 b d) (scan_other-Extends b d) 7 1 s1)
      ]

  scan_device_other :
      (b d f : ℕ) (s : Pci)
      → IsPresent b d f
      → f ≢ 0
      → is_multi in32 b d ≡ true
      → (t : Pci) × Extends (scan_function in32 b d f t) (scan_device in32 b d s)
  unfolding scan_device scan_other
  scan_device_other b d f s p ne m =
      let s1 = scan_function in32 b d 0 s in
      let (t, x) =
        each_runs (scan_other in32 b d) (scan_other-Extends b d) 7 1 f s1 (omega arith)
          (omega (arith, p.function_in)) in
      let run : scan_other in32 b d f t ≡ scan_function in32 b d f t =
        rw (p.itself, scan_other) refl in
      (
        t,
        rw (p.first, m, scan_device)
            (subst (λ u. Extends u (each (scan_other in32 b d) 7 1 s1)) run x),
      )

  scan_device_runs :
      (b d f : ℕ) (s : Pci)
      → IsPresent b d f
      → (t : Pci) × Extends (scan_function in32 b d f t) (scan_device in32 b d s)
  scan_device_runs b d f s p = elim (Bool-cases (f == 0)) [
    | inl z ↦
        let zero_f : 0 ≡ f = ground arith in
        (
          s,
          subst (λ x. Extends (scan_function in32 b d x s) (scan_device in32 b d s)) zero_f
              (scan_device_first b d s p.first),
        )
    | inr other ↦ elim p.multi [
      | inl z ↦ absurd (ground (arith, z))
      | inr m ↦ scan_device_other b d f s p (ground arith) m
    ]
  ]

  -- The scan records every function that is present, unless the table is full in the end.
  pub pci_scan-Recorded :
      (b d f : ℕ) (s : Pci)
      → IsPresent b d f
      → (pci_scan in32 s).pci_device_count < 256
      → Recorded in32 b d f (pci_scan in32 s)
  unfolding pci_scan scan_bus
  pci_scan-Recorded b d f s p lt =
      let s0 = record s { pci_device_count = 0 } in
      let (s1, x1) = each_runs (scan_bus in32) scan_bus-Extends 256 0 b s0 (omega arith) p.bus_in in
      let (s2, x2) =
        each_runs (scan_device in32 b) (scan_device-Extends b) 32 0 d s1 (omega arith)
          p.device_in in
      let (s3, x3) = scan_device_runs b d f s2 p in
      let x = Extends-trans _ _ _ x3 (Extends-trans _ _ _ x2 x1) in
      Recorded-Extends in32 b d f (scan_function in32 b d f s3) (pci_scan in32 s) x
        (scan_function-Recorded b d f s3 p.itself (omega (arith, x.longer, lt)))
