-- ===== src/Acpi.antt =====
-- kernel/acpi/acpi.c: finding and reading the firmware's tables. The memory is a function from the
-- physical address; `phys_to_virt` only says where the kernel sees it.
pub mod Madt
mod Tests
use dev_os.Prelude.{
  ℕ, zero, suc, ◌+◌, ◌*◌, ◌/◌, ◌%◌, ◌^◌, ◌==◌, ◌!=◌, ltb, leb, ◌&&◌, if◌then◌else◌, Bool, true,
  false, Option, none, some, List, [], ◌∷◌, ◌++◌, length, bit_and,
}
use dev_os.Word.{u32, u8, sub64}
use dev_os.Str.Memory.{Bytes, little}

pub record IoApic : Type 0 where
  pub id : ℕ
  pub phys : ℕ
  pub gsi_base : ℕ

pub record Iso : Type 0 where
  pub bus : ℕ
  pub irq : ℕ
  pub gsi : ℕ
  pub iso_flags : ℕ

-- `acpi_info_t`: an array with its count is the list of its entries so far.
pub record AcpiInfo : Type 0 where
  pub lapic_phys : ℕ
  pub has_8259 : Bool
  pub ioapics : List IoApic
  pub isos : List Iso
  pub cpu_lapic_ids : List ℕ

-- `g_root_table` and its two companions. 0 is NULL.
pub record Root : Type 0 where
  pub g_root_table : ℕ
  pub g_root_entry_size : ℕ
  pub g_root_entry_count : ℕ

unfoldable pub sum_bytes : Bytes → ℕ → ℕ → ℕ → ℕ
sum_bytes m p zero sum = sum
sum_bytes m p (suc n) sum = sum_bytes m (p + 1) n (u8 (sum + m p))

abbrev pub checksum_valid : Bytes → ℕ → ℕ → Bool
checksum_valid m p len = sum_bytes m p len 0 == 0

-- `memcmp(p, text, size of the text) == 0`
unfoldable pub starts : Bytes → ℕ → List ℕ → Bool
starts m p [] = true
starts m p (c ∷ cs) = let rest = starts m (p + 1) cs in if m p == c then rest else false

-- "RSD PTR "
abbrev pub rsdp_signature : List ℕ
rsdp_signature = 82 ∷ 83 ∷ 68 ∷ 32 ∷ 80 ∷ 84 ∷ 82 ∷ 32 ∷ []

-- The loops of `find_rsdp`, over every sixteenth address.
unfoldable pub rsdp_from : Bytes → ℕ → ℕ → Option ℕ
rsdp_from m zero addr = none
rsdp_from m (suc rounds) addr =
    let rest = rsdp_from m rounds (addr + 16) in
    if starts m addr rsdp_signature && checksum_valid m addr 20 then some addr else rest

unfoldable pub find_rsdp : Bytes → Option ℕ
find_rsdp m = elim (rsdp_from m 64 (little 2 m 0x40E * 2 ^ 4)) [
  | some p ↦ some p
  | none ↦ rsdp_from m 8192 0xE0000
]

-- The size of `acpi_header_t`, and the table's `length`.
abbrev pub header_size : ℕ
header_size = 36

abbrev pub length_at : Bytes → ℕ → ℕ
length_at m p = little 4 m (p + 4)

abbrev pub entry_at : Bytes → Root → ℕ → ℕ
entry_at m r i =
    if r.g_root_entry_size == 4
    then little 4 m (r.g_root_table + header_size + u32 (i * 4))
    else little 8 m (r.g_root_table + header_size + u32 (i * 8))

-- The loop of `acpi_find_table` from entry `i` on.
unfoldable pub table_from : Bytes → Root → List ℕ → ℕ → ℕ → Option ℕ
table_from m r sig zero i = none
table_from m r sig (suc rounds) i =
    let t = entry_at m r i in
    let rest = table_from m r sig rounds (i + 1) in
    if starts m t sig && checksum_valid m t (length_at m t) then some t else rest

unfoldable pub acpi_find_table : Bytes → Root → List ℕ → Option ℕ
acpi_find_table m r sig =
    if r.g_root_table == 0 then none else table_from m r sig r.g_root_entry_count 0

-- `if (count < limit) array[count++] = x`
abbrev pub add_to {ℓ} : {A : Type ℓ} → ℕ → List A → A → List A
add_to limit l x = if ltb (length l) limit then l ++ (x ∷ []) else l

-- The body of the loop of `parse_madt`: the entry at `p`.
unfoldable pub madt_entry : Bytes → ℕ → AcpiInfo → AcpiInfo
madt_entry m p info =
    if m p == 0
    then (if bit_and (little 4 m (p + 4)) 1 != 0
        then record info { cpu_lapic_ids = add_to 64 info.cpu_lapic_ids (m (p + 3)) }
        else info)
    else if m p == 1
    then record info {
      ioapics =
          add_to 16 info.ioapics
            (record { id = m (p + 2); phys = little 4 m (p + 4); gsi_base = little 4 m (p + 8) });
    }
    else if m p == 2
    then record info {
      isos = add_to 32 info.isos (record {
        bus = m (p + 2);
        irq = m (p + 3);
        gsi = little 4 m (p + 4);
        iso_flags = little 2 m (p + 8);
      });
    }
    else info

-- The loop of `parse_madt` from `p` to `end_at`, with fuel.
unfoldable pub madt_entries : ℕ → Bytes → ℕ → ℕ → AcpiInfo → AcpiInfo
madt_entries zero m p end_at info = info
madt_entries (suc fuel) m p end_at info =
    let rest = madt_entries fuel m (p + m (p + 1)) end_at (madt_entry m p info) in
    if leb end_at p then info else if m (p + 1) == 0 then info else rest

-- Every entry that is passed has a byte of the table at least.
unfoldable pub parse_madt : Bytes → ℕ → AcpiInfo → AcpiInfo
parse_madt m madt info =
    let len = length_at m madt in
    madt_entries len m (madt + 44) (madt + len) (record info {
      lapic_phys = little 4 m (madt + 36);
      has_8259 = bit_and (little 4 m (madt + 40)) 1 != 0;
    })

abbrev pub no_info : AcpiInfo
no_info = record { lapic_phys = 0; has_8259 = false; ioapics = []; isos = []; cpu_lapic_ids = [] }

-- The root table at `p`, if its checksum is right; the entries have `size` bytes.
abbrev pub root_at : Bytes → ℕ → ℕ → Option Root
root_at m p size =
    if checksum_valid m p (length_at m p)
    then some (record {
      g_root_table = p;
      g_root_entry_size = size;
      g_root_entry_count = sub64 (length_at m p) header_size / size % 2 ^ 32;
    })
    else none

-- "APIC"
abbrev pub madt_signature : List ℕ
madt_signature = 65 ∷ 80 ∷ 73 ∷ 67 ∷ []

-- The root that `acpi_init` chooses for the RSDP at `p`: the XSDT, or else the RSDT.
unfoldable pub choose_root : Bytes → ℕ → Option Root
choose_root m p =
    let xsdt =
      if leb 2 (m (p + 15)) && little 8 m (p + 24) != 0
      then root_at m (little 8 m (p + 24)) 8
      else none in
    elim xsdt [ some r ↦ some r | none ↦ root_at m (little 4 m (p + 16)) 4 ]

-- `acpi_init` when the static root table is NULL still: whether it succeeds, and what it finds.
unfoldable pub acpi_init : Bytes → Bool × AcpiInfo
acpi_init m = elim (find_rsdp m) [
  | none ↦ (false, no_info)
  | some p ↦ elim (choose_root m p) [
    | none ↦ (false, no_info)
    | some r ↦ elim (acpi_find_table m r madt_signature) [
      | some madt ↦ (true, parse_madt m madt no_info)
      | none ↦ (true, record no_info { lapic_phys = 0xFEE00000; has_8259 = true })
    ]
  ]
]
