-- ===== src/Acpi/Madt.antt =====
-- What `parse_madt` of kernel/acpi/acpi.c collects from the entries of the table.
use dev_os.Prelude.{
  Option-cases, ℕ, zero, suc, ◌+◌, ◌≤◌, ◌<◌, ◌≡◌, refl, ap, sym, ◌∙◌, arith, ◌==◌, ◌!=◌, ltb, leb,
  ◌&&◌, if◌then◌else◌, true, false, Bool-cases, inl, inr, List, [], ◌∷◌, ◌++◌, length, take,
  append_assoc, bit_and, length-append,
}
use dev_os.Str.Memory.{Bytes, little}
use dev_os.Acpi.{
  none, no_info, some, length_at, parse_madt, Option, AcpiInfo, IoApic, Iso, add_to, madt_entry,
  madt_entries,
}

-- The entries at the addresses `ps` follow one another from `p` to `end_at`, by their lengths.
abbrev pub IsLaid : Bytes → ℕ → ℕ → List ℕ → Type 0
IsLaid m p end_at [] = p ≡ end_at
IsLaid m p end_at (q ∷ qs) =
    (q ≡ p) × (p < end_at) × (0 < m (p + 1)) × IsLaid m (p + m (p + 1)) end_at qs

-- The processor that is enabled, the interrupt controller and the override at `p`.
abbrev pub cpu_at : Bytes → ℕ → Option ℕ
cpu_at m p = if m p == 0 && bit_and (little 4 m (p + 4)) 1 != 0 then some (m (p + 3)) else none

abbrev pub ioapic_at : Bytes → ℕ → Option IoApic
ioapic_at m p =
    if m p == 1
    then some (record { id = m (p + 2); phys = little 4 m (p + 4); gsi_base = little 4 m (p + 8) })
    else none

abbrev pub iso_at : Bytes → ℕ → Option Iso
iso_at m p =
    if m p == 2
    then some (record {
      bus = m (p + 2);
      irq = m (p + 3);
      gsi = little 4 m (p + 4);
      iso_flags = little 2 m (p + 8);
    })
    else none

-- What `f` finds at the addresses, in their order.
unfoldable pub gathered {ℓ} : {A : Type ℓ} → (ℕ → Option A) → List ℕ → List A
gathered f [] = []
gathered f (p ∷ ps) = elim (f p) [ some x ↦ x ∷ gathered f ps | none ↦ gathered f ps ]

abbrev kept {ℓ} : {A : Type ℓ} → ℕ → List A → Option A → List A
kept k l o = elim o [ some x ↦ add_to k l x | none ↦ l ]

unfoldable fold : Bytes → List ℕ → AcpiInfo → AcpiInfo
fold m [] info = info
fold m (p ∷ ps) info = fold m ps (madt_entry m p info)

-- The loop visits every entry, given fuel for each.
entries-fold :
    (fuel : ℕ) (m : Bytes) (p end_at : ℕ) (ps : List ℕ) (info : AcpiInfo)
    → IsLaid m p end_at ps
    → length ps ≤ fuel
    → madt_entries fuel m p end_at info ≡ fold m ps info
unfolding madt_entries fold
entries-fold zero m p end_at [] info laid enough = refl
entries-fold (suc fuel) m p end_at [] info laid enough =
    let over : leb end_at p ≡ true = ground arith in rw (over, madt_entries) refl
entries-fold zero m p end_at (q ∷ qs) info laid enough = absurd (omega arith)
entries-fold (suc fuel) m p end_at (q ∷ qs) info (at, before, some_bytes, rest) enough =
    let on : leb end_at p ≡ false = ground arith in
    let counts : (m (p + 1) == 0) ≡ false = ground arith in
    let ih =
      entries-fold fuel m (p + m (p + 1)) end_at qs (madt_entry m p info) rest (omega arith) in
    rw (on, counts, madt_entries) (ih ∙ ap (λ (x : ℕ). fold m qs (madt_entry m x info)) (sym at))

-- There are no more entries than bytes.
laid_length :
    (m : Bytes) (p end_at : ℕ) (ps : List ℕ) → IsLaid m p end_at ps → p + length ps ≤ end_at
laid_length m p end_at [] laid = omega arith
laid_length m p end_at (q ∷ qs) (at, before, some_bytes, rest) =
    omega (arith, laid_length m (p + m (p + 1)) end_at qs rest, some_bytes)

module _ {ℓ} {A : Type ℓ} where
  take-append : (l r : List A) → take (length l) (l ++ r) ≡ l
  take-append [] r = refl
  take-append (x ∷ l) r = ap (λ t. x ∷ t) (take-append l r)

  take-add_to :
      (k : ℕ) (l r : List A) (x : A)
      → length l ≤ k
      → (take k (add_to k l x ++ r) ≡ take k (l ++ (x ∷ r))) × (length (add_to k l x) ≤ k)
  take-add_to k l r x le = elim (Bool-cases (ltb (length l) k)) [
    | inl lt ↦ (
      simp lt (ap (take k) (append_assoc l (x ∷ []) r)),
      simp lt (ground (arith, length-append l (x ∷ []))),
    )
    | inr full ↦
        let same : length l ≡ k = ground arith in
        (simp full (rw (← same) (take-append l r ∙ sym (take-append l (x ∷ r)))), simp full le)
  ]

  take-whole : (k : ℕ) (l : List A) → length l ≤ k → take k (l ++ []) ≡ l
  take-whole zero [] le = refl
  take-whole (suc k) [] le = refl
  take-whole zero (x ∷ l) le = absurd (omega arith)
  take-whole (suc k) (x ∷ l) le = ap (λ t. x ∷ t) (take-whole k l (omega arith))

  -- A field that each entry extends by what `f` finds there collects it all, up to the limit.
  fold-gathered :
      (m : Bytes) (get : AcpiInfo → List A) (f : ℕ → Option A) (k : ℕ)
      → ((p : ℕ) (info : AcpiInfo) → get (madt_entry m p info) ≡ kept k (get info) (f p))
      → (ps : List ℕ) (info : AcpiInfo) → length (get info) ≤ k
      → get (fold m ps info) ≡ take k (get info ++ gathered f ps)
  unfolding fold gathered
  fold-gathered m get f k each [] info le = sym (take-whole k (get info) le)
  fold-gathered m get f k each (p ∷ ps) info le = elim (Option-cases (f p)) [
    | inl none_here ↦
        let kept_as : get (madt_entry m p info) ≡ get info =
          each p info ∙ ap (kept k (get info)) none_here in
        rw (none_here, gathered)
          (fold-gathered m get f k each ps (madt_entry m p info) (rw kept_as le) ∙ rw kept_as refl)
    | inr (x, found) ↦
        let added : get (madt_entry m p info) ≡ add_to k (get info) x =
          each p info ∙ ap (kept k (get info)) found in
        let (same, fits) = take-add_to k (get info) (gathered f ps) x le in
        rw (found, gathered)
          (fold-gathered m get f k each ps (madt_entry m p info) (rw added fits) ∙ rw added same)
  ]

entry-cpus :
    (m : Bytes) (p : ℕ) (info : AcpiInfo)
    → (madt_entry m p info).cpu_lapic_ids ≡ kept 64 info.cpu_lapic_ids (cpu_at m p)
unfolding madt_entry
entry-cpus m p info = ground arith

entry-ioapics :
    (m : Bytes) (p : ℕ) (info : AcpiInfo)
    → (madt_entry m p info).ioapics ≡ kept 16 info.ioapics (ioapic_at m p)
unfolding madt_entry
entry-ioapics m p info = ground arith

entry-isos :
    (m : Bytes) (p : ℕ) (info : AcpiInfo)
    → (madt_entry m p info).isos ≡ kept 32 info.isos (iso_at m p)
unfolding madt_entry
entry-isos m p info = ground arith

-- When the entries of the table follow one another from byte 44 to its end by their lengths, none
-- of which is 0, `parse_madt` visits all of them and collects the enabled processors, the interrupt
-- controllers and the overrides in the order of the table, the first 64, 16 and 32 of them.
pub parse_madt-IsLaid :
    (m : Bytes) (madt : ℕ) (ps : List ℕ)
    → IsLaid m (madt + 44) (madt + length_at m madt) ps
    → ((parse_madt m madt no_info).cpu_lapic_ids ≡ take 64 (gathered (cpu_at m) ps))
      × ((parse_madt m madt no_info).ioapics ≡ take 16 (gathered (ioapic_at m) ps))
      × ((parse_madt m madt no_info).isos ≡ take 32 (gathered (iso_at m) ps))
unfolding parse_madt
parse_madt-IsLaid m madt ps laid =
    let len = length_at m madt in
    let start : AcpiInfo = record no_info {
      lapic_phys = little 4 m (madt + 36);
      has_8259 = bit_and (little 4 m (madt + 40)) 1 != 0;
    } in
    let run =
      entries-fold len m (madt + 44) (madt + len) ps start laid
        (omega (arith, laid_length m (madt + 44) (madt + len) ps laid)) in
    (
      ap (λ (i : AcpiInfo). i.cpu_lapic_ids) run
          ∙ fold-gathered m (λ i. i.cpu_lapic_ids) (cpu_at m) 64 (entry-cpus m) ps start
              (omega arith),
      ap (λ (i : AcpiInfo). i.ioapics) run
          ∙ fold-gathered m (λ i. i.ioapics) (ioapic_at m) 16 (entry-ioapics m) ps start
              (omega arith),
      ap (λ (i : AcpiInfo). i.isos) run
          ∙ fold-gathered m (λ i. i.isos) (iso_at m) 32 (entry-isos m) ps start (omega arith),
    )
