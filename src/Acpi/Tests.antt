-- ===== src/Acpi/Tests.antt =====
-- kernel/acpi/acpi.c: a table with a processor, one that is disabled, and an override.
use dev_os.Prelude.{◌≡◌, refl, arith, ◌∷◌, [], List, ℕ, get_or, take, ◌++◌}
use dev_os.Str.Memory.{Bytes, little}
use dev_os.Acpi.{little, parse_madt, no_info}
use dev_os.Acpi.Madt.{gathered, cpu_at, ioapic_at, iso_at, parse_madt-IsLaid}

abbrev header : List ℕ
header =
    65 ∷ 80 ∷ 73 ∷ 67 ∷ 70 ∷ 0 ∷ 0 ∷ 0 ∷ 0 ∷ 1 ∷ 0 ∷ 0 ∷ 0 ∷ 0 ∷ 0 ∷ 0 ∷ 0 ∷ 0 ∷ 0 ∷ 0 ∷ 0 ∷ 0 ∷ 0
    ∷ 0 ∷ 0 ∷ 0 ∷ 0 ∷ 0 ∷ 0 ∷ 0 ∷ 0 ∷ 0 ∷ 0 ∷ 0 ∷ 0 ∷ 0 ∷ 0 ∷ 0 ∷ 0xE0 ∷ 0xFE ∷ 1 ∷ 0 ∷ 0 ∷ 0 ∷ []

abbrev entries : List ℕ
entries =
    0 ∷ 8 ∷ 0 ∷ 7 ∷ 1 ∷ 0 ∷ 0 ∷ 0 ∷ 0 ∷ 8 ∷ 1 ∷ 9 ∷ 0 ∷ 0 ∷ 0 ∷ 0 ∷ 2 ∷ 10 ∷ 0 ∷ 0 ∷ 2 ∷ 0 ∷ 0 ∷ 0
    ∷ 0 ∷ 0 ∷ []

abbrev madt_bytes : Bytes
madt_bytes o = get_or (header ++ entries) o 0

parse_madt-IsLaid_example :
    ((parse_madt madt_bytes 0 no_info).cpu_lapic_ids
      ≡ take 64 (gathered (cpu_at madt_bytes) (44 ∷ 52 ∷ 60 ∷ [])))
    × ((parse_madt madt_bytes 0 no_info).ioapics
        ≡ take 16 (gathered (ioapic_at madt_bytes) (44 ∷ 52 ∷ 60 ∷ [])))
    × ((parse_madt madt_bytes 0 no_info).isos
        ≡ take 32 (gathered (iso_at madt_bytes) (44 ∷ 52 ∷ 60 ∷ [])))
unfolding little
parse_madt-IsLaid_example = parse_madt-IsLaid madt_bytes 0 (44 ∷ 52 ∷ 60 ∷ []) (
  refl,
  omega arith,
  omega arith,
  (refl, omega arith, omega arith, (refl, omega arith, omega arith, refl)),
)

only_enabled : take 64 (gathered (cpu_at madt_bytes) (44 ∷ 52 ∷ 60 ∷ [])) ≡ 7 ∷ []
unfolding gathered little
only_enabled = refl
