-- ===== src/Ioapic.antt =====
-- kernel/arch/x86_64/ioapic.c: the entries of the I/O APICs. The registers behind the two windows of
-- unit `i` are a function from `i` and the register's number; a unit is known by its index.
pub mod Entries
mod Tests
use dev_os.Prelude.{
  ℕ, zero, suc, ◌+◌, ◌-◌, ◌*◌, ◌/◌, ◌%◌, ◌^◌, ◌==◌, leb, ltb, ◌&&◌, ◌||◌, if◌then◌else◌, Bool, true,
  false, Option, none, some, List, [], ◌∷◌, update, bit_and, bit_or,
}
use dev_os.Word.{u8, u32}
use dev_os.Bits.{not64}
use dev_os.Acpi.{Iso}

pub record IoapicUnit : Type 0 where
  pub gsi_base : ℕ
  pub max_rte : ℕ
  pub valid : Bool

pub record Ioapics : Type 0 where
  pub ioapics : List IoapicUnit
  pub regs : ℕ → ℕ → ℕ

abbrev pub ioapic_read : ℕ → ℕ → Ioapics → ℕ
ioapic_read i reg s = s.regs i reg

abbrev pub ioapic_write : ℕ → ℕ → ℕ → Ioapics → Ioapics
ioapic_write i reg val s = record s { regs = update s.regs i (update (s.regs i) reg val) }

unfoldable pub ioapic_write_rte : ℕ → ℕ → ℕ → Ioapics → Ioapics
ioapic_write_rte i irq rte s =
    let reg = u8 (0x10 + 2 * irq) in
    ioapic_write i (u8 (reg + 1)) (u32 (rte / 2 ^ 32))
      (ioapic_write i reg (u32 (bit_and rte 0xFFFF_FFFF)) s)

unfoldable pub ioapic_read_rte : ℕ → ℕ → Ioapics → ℕ
ioapic_read_rte i irq s =
    let reg = u8 (0x10 + 2 * irq) in
    bit_or (ioapic_read i reg s) (ioapic_read i (u8 (reg + 1)) s * 2 ^ 32)

-- The loop of `ioapic_for_gsi` from unit `i` on: the unit and its line.
unfoldable pub unit_from : ℕ → List IoapicUnit → ℕ → Option (ℕ × ℕ)
unit_from i [] gsi = none
unit_from i (u ∷ us) gsi =
    let rest = unit_from (i + 1) us gsi in
    if u.valid && (leb u.gsi_base gsi && ltb gsi (u32 (u.gsi_base + u.max_rte)))
    then some (i, u8 (gsi - u.gsi_base))
    else rest

abbrev pub ioapic_for_gsi : ℕ → Ioapics → Option (ℕ × ℕ)
ioapic_for_gsi gsi s = unit_from 0 s.ioapics gsi

-- Where a line goes, after the overrides of the firmware.
pub record Route : Type 0 where
  pub gsi : ℕ
  pub level : Bool
  pub active_low : Bool

unfoldable pub overridden : List Iso → ℕ → Bool → Bool → Route
overridden [] irq level low = record { gsi = irq; level = level; active_low = low }
overridden (o ∷ os) irq level low =
    let rest = overridden os irq level low in
    if o.irq == irq
    then record {
      gsi = o.gsi;
      level = level || bit_and o.iso_flags 0xC / 4 == 3;
      active_low = low || bit_and o.iso_flags 0x3 == 3;
    }
    else rest

unfoldable pub route_entry : Route → ℕ → ℕ → ℕ
route_entry r vector dest =
    let e1 = if r.active_low then bit_or vector (2 ^ 13) else vector in
    let e2 = if r.level then bit_or e1 (2 ^ 15) else e1 in
    bit_and (bit_or e2 (dest * 2 ^ 56)) (not64 (2 ^ 16))

unfoldable pub ioapic_set_irq : List Iso → ℕ → ℕ → ℕ → Bool → Bool → Ioapics → Ioapics
ioapic_set_irq iso irq vector dest level low s =
    let r = overridden iso irq level low in
    elim (ioapic_for_gsi r.gsi s) [
      | none ↦ s
      | some p ↦ ioapic_write_rte p.0 p.1 (route_entry r vector dest) s
    ]

unfoldable pub ioapic_mask_irq : ℕ → Ioapics → Ioapics
ioapic_mask_irq irq s = elim (ioapic_for_gsi irq s) [
  | none ↦ s
  | some p ↦ ioapic_write_rte p.0 p.1 (bit_or (ioapic_read_rte p.0 p.1 s) (2 ^ 16)) s
]

unfoldable pub ioapic_unmask_irq : ℕ → Ioapics → Ioapics
ioapic_unmask_irq irq s = elim (ioapic_for_gsi irq s) [
  | none ↦ s
  | some p ↦ ioapic_write_rte p.0 p.1 (bit_and (ioapic_read_rte p.0 p.1 s) (not64 (2 ^ 16))) s
]
