-- ===== src/Pci/Sound.antt =====
-- The table that the scan of kernel/drivers/pci/pci.c leaves: at most 256 entries, each of a
-- function that answers.
use dev_os.Prelude.{
  ℕ, zero, suc, ◌+◌, ◌≤◌, ◌<◌, ◌≡◌, arith, ◌==◌, true, leb, update, Bool-cases, inl, inr,
}
use dev_os.Pci.{
  Pci, pci_read32, answers, described, scan_function, scan_other, scan_device, scan_bus, is_multi,
  each, pci_scan,
}

pub record IsTable (in32 : ℕ → ℕ) (s : Pci) : Type 0 where
  pub bounded : s.pci_device_count ≤ 256
  pub answering :
      (i : ℕ)
      → i < s.pci_device_count
      → answers (
          pci_read32 in32
            (s.pci_devices i).bus
            (s.pci_devices i).device
            (s.pci_devices i).function
            0)
        ≡ true

each-IsTable :
    (in32 : ℕ → ℕ) (body : ℕ → Pci → Pci)
    → ((i : ℕ) (s : Pci) → IsTable in32 s → IsTable in32 (body i s))
    → (rounds i : ℕ) (s : Pci) → IsTable in32 s
    → IsTable in32 (each body rounds i s)
unfolding each
each-IsTable in32 body step zero i s v = v
each-IsTable in32 body step (suc rounds) i s v =
    each-IsTable in32 body step rounds (i + 1) (body i s) (step i s v)

module _ (in32 : ℕ → ℕ) where
  added :
      (b d f : ℕ) (s : Pci)
      → IsTable in32 s
      → answers (pci_read32 in32 b d f 0) ≡ true
      → s.pci_device_count < 256
      → IsTable in32 (record {
        pci_devices =
            update s.pci_devices s.pci_device_count
              (described in32 b d f (s.pci_devices s.pci_device_count));
        pci_device_count = s.pci_device_count + 1;
      })
  unfolding described
  added b d f s v a lt = record {
    bounded = omega (arith, lt);
    answering = λ i li. elim (Bool-cases (s.pci_device_count == i)) [
      | inl e ↦ simp e a
      | inr e ↦ simp e (v.answering i (ground arith))
    ];
  }

  scan_function-IsTable :
      (b d f : ℕ) (s : Pci) → IsTable in32 s → IsTable in32 (scan_function in32 b d f s)
  unfolding scan_function
  scan_function-IsTable b d f s v = elim (Bool-cases (answers (pci_read32 in32 b d f 0))) [
    | inr a ↦ rw (a, scan_function) v
    | inl a ↦ elim (Bool-cases (leb 256 s.pci_device_count)) [
      | inl full ↦ rw (a, full, scan_function) v
      | inr room ↦ rw (a, room, scan_function) (added b d f s v a (ground arith))
    ]
  ]

  scan_other-IsTable :
      (b d f : ℕ) (s : Pci) → IsTable in32 s → IsTable in32 (scan_other in32 b d f s)
  unfolding scan_other
  scan_other-IsTable b d f s v = elim (Bool-cases (answers (pci_read32 in32 b d f 0))) [
    | inr a ↦ rw (a, scan_other) v
    | inl a ↦ rw (a, scan_other) (scan_function-IsTable b d f s v)
  ]

  scan_device-IsTable : (b d : ℕ) (s : Pci) → IsTable in32 s → IsTable in32 (scan_device in32 b d s)
  unfolding scan_device
  scan_device-IsTable b d s v =
      let w = scan_function-IsTable b d 0 s v in
      elim (Bool-cases (answers (pci_read32 in32 b d 0 0))) [
        | inr a ↦ rw (a, scan_device) v
        | inl a ↦ elim (Bool-cases (is_multi in32 b d)) [
          | inr m ↦ rw (a, m, scan_device) w
          | inl m ↦
              rw (a, m, scan_device)
                (each-IsTable in32 (scan_other in32 b d) (scan_other-IsTable b d) 7 1
                  (scan_function in32 b d 0 s) w)
        ]
      ]

  -- Whatever the table held before, after a scan it has at most 256 entries, and each is that of
  -- a function which answers at its bus, device and function number.
  pub pci_scan-IsTable : (s : Pci) → IsTable in32 (pci_scan in32 s)
  unfolding pci_scan scan_bus
  pci_scan-IsTable s =
      each-IsTable in32 (scan_bus in32)
        (λ b t v. each-IsTable in32 (scan_device in32 b) (scan_device-IsTable b) 32 0 t v) 256 0
        (record s { pci_device_count = 0 })
        (record { bounded = omega arith; answering = λ i lt. absurd (omega (arith, lt)) })
