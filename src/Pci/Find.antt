-- ===== src/Pci/Find.antt =====
-- Lookups in the table of kernel/drivers/pci/pci.c, after a scan.
use dev_os.Prelude.{
  ℕ, zero, suc, ◌+◌, ◌/◌, ◌^◌, ◌≤◌, ◌<◌, ◌≡◌, ap, subst, arith, ◌==◌, ◌&&◌, Bool, true, false,
  Bool-cases, inl, inr, Option, none, some, bit_and, Option-cases,
}
use dev_os.Word.{u8}
use dev_os.Pci.{PciDevice, Pci, pci_read32, described, pci_scan, find_from, pci_find_class}
use dev_os.Pci.Scan.{IsPresent, pci_scan-Recorded}

-- The first of the entries that passes the test, or none does.
abbrev pub First : (PciDevice → Bool) → (ℕ → PciDevice) → ℕ → ℕ → Option ℕ → Type 0
First test devices rounds i none = (k : ℕ) → i ≤ k → k < i + rounds → test (devices k) ≡ false
First test devices rounds i (some j) =
    (i ≤ j)
    × (j < i + rounds)
    × (test (devices j) ≡ true)
    × ((k : ℕ) → i ≤ k → k < j → test (devices k) ≡ false)

module _ (test : PciDevice → Bool) (devices : ℕ → PciDevice) where
  First-suc :
      (rounds i : ℕ) (r : Option ℕ)
      → test (devices i) ≡ false
      → First test devices rounds (i + 1) r
      → First test devices (suc rounds) i r
  First-suc rounds i none e h = λ k lo hi. elim (Bool-cases (i == k)) [
    | inl s ↦ let here : i ≡ k = ground arith in subst (λ x. test (devices x) ≡ false) here e
    | inr s ↦ h k (ground arith) (omega arith)
  ]
  First-suc rounds i (some j) e h = (
    omega (arith, h.0),
    omega (arith, h.1),
    h.2,
    λ k lo hi. elim (Bool-cases (i == k)) [
      | inl s ↦ let here : i ≡ k = ground arith in subst (λ x. test (devices x) ≡ false) here e
      | inr s ↦ h.3 k (ground arith) hi
    ],
  )

  pub find_from-First :
      (rounds i : ℕ) → First test devices rounds i (find_from test devices rounds i)
  unfolding find_from
  find_from-First zero i = λ k lo hi. absurd (omega arith)
  find_from-First (suc rounds) i = elim (Bool-cases (test (devices i))) [
    | inl e ↦ rw (e, find_from) (omega arith, omega arith, e, λ k lo hi. absurd (omega arith))
    | inr e ↦
        rw (e, find_from)
          (First-suc rounds i (find_from test devices rounds (i + 1)) e
            (find_from-First rounds (i + 1)))
  ]

-- The class and the subclass that a function's configuration space gives.
abbrev pub class_of : (ℕ → ℕ) → ℕ → ℕ → ℕ → ℕ
class_of in32 b d f = u8 (bit_and (pci_read32 in32 b d f 8 / 2 ^ 24) 0xFF)

abbrev pub subclass_of : (ℕ → ℕ) → ℕ → ℕ → ℕ → ℕ
subclass_of in32 b d f = u8 (bit_and (pci_read32 in32 b d f 8 / 2 ^ 16) 0xFF)

-- A device of the table with the class and subclass, before which there is none.
abbrev pub FoundClass : ℕ → ℕ → Pci → Option ℕ → Type 0
FoundClass class sub s r =
    (i : ℕ) × (r ≡ some i)
    × (i < s.pci_device_count)
    × ((s.pci_devices i).class_code ≡ class)
    × ((s.pci_devices i).subclass ≡ sub)

both : (a b c d : ℕ) → (a == b && c == d) ≡ true → (a ≡ b) × (c ≡ d)
both a b c d e = (ground arith, ground arith)

found_class :
    (class sub : ℕ) (s : Pci) (k : ℕ)
    → k < s.pci_device_count
    → (s.pci_devices k).class_code ≡ class
    → (s.pci_devices k).subclass ≡ sub
    → FoundClass class sub s (pci_find_class class sub s)
unfolding pci_find_class
found_class class sub s k lt c u =
    let test = λ (d : PciDevice). d.class_code == class && d.subclass == sub in
    let first = find_from-First test s.pci_devices s.pci_device_count 0 in
    elim (Option-cases (find_from test s.pci_devices s.pci_device_count 0)) [
      | inl e ↦
          let miss =
            subst (First test s.pci_devices s.pci_device_count 0) e first k (omega arith)
              (omega (arith, lt)) in
          absurd (ground (arith, miss, c, u))
      | inr (i, e) ↦
          let hit = subst (First test s.pci_devices s.pci_device_count 0) e first in
          let same = both (s.pci_devices i).class_code class (s.pci_devices i).subclass sub hit.2 in
          (i, e, omega (arith, hit.1), same.0, same.1)
    ]

-- After a scan that did not fill the table, looking for the class and the subclass of any function
-- that is present finds a device with that class and subclass.
pub pci_find_class-pci_scan :
    (in32 : ℕ → ℕ) (b d f : ℕ) (s : Pci)
    → IsPresent in32 b d f
    → (pci_scan in32 s).pci_device_count < 256
    → FoundClass
        (class_of in32 b d f)
        (subclass_of in32 b d f)
        (pci_scan in32 s)
        (pci_find_class (class_of in32 b d f) (subclass_of in32 b d f) (pci_scan in32 s))
unfolding described
pci_find_class-pci_scan in32 b d f s p lt =
    let (i, in_table, (old, e)) = pci_scan-Recorded in32 b d f s p lt in
    found_class (class_of in32 b d f) (subclass_of in32 b d f) (pci_scan in32 s) i in_table
      (ap (λ (x : PciDevice). x.class_code) e) (ap (λ (x : PciDevice). x.subclass) e)
