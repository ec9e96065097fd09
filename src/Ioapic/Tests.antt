-- ===== src/Ioapic/Tests.antt =====
-- kernel/arch/x86_64/ioapic.c: the timer, which the firmware sends to line 2.
use dev_os.Prelude.{◌≡◌, refl, arith, true, false, List, [], ◌∷◌, bit_or, ◌^◌}
use dev_os.Acpi.{Iso}
use dev_os.Ioapic.{
  Ioapics, ioapic_read_rte, ioapic_mask_irq, ioapic_set_irq, overridden, route_entry, unit_from,
}
use dev_os.Ioapic.Entries.{ioapic_mask_irq-override}

abbrev one_unit : Ioapics
one_unit = record {
  ioapics = record { gsi_base = 0; max_rte = 24; valid = true } ∷ [];
  regs = λ i reg. 0;
}

abbrev timer : List Iso
timer = record { bus = 0; irq = 0; gsi = 2; iso_flags = 0 } ∷ []

ioapic_mask_irq-override_example :
    (ioapic_read_rte 0 2 (ioapic_mask_irq 0 (ioapic_set_irq timer 0 32 1 false false one_unit))
      ≡ route_entry (overridden timer 0 false false) 32 1)
    × (ioapic_read_rte 0 0 (ioapic_mask_irq 0 (ioapic_set_irq timer 0 32 1 false false one_unit))
        ≡ bit_or (ioapic_read_rte 0 0 one_unit) (2 ^ 16))
unfolding ioapic_read_rte overridden unit_from
ioapic_mask_irq-override_example =
    ioapic_mask_irq-override timer 0 32 1 false false one_unit 0 2 0 (omega arith) (omega arith)
      (omega arith) (omega arith) (omega arith) (omega arith) refl refl
