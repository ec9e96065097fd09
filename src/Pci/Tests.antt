-- ===== src/Pci/Tests.antt =====
-- The scan of kernel/drivers/pci/pci.c on a machine with one device, an Ethernet controller.
use dev_os.Pci.Sound.{pci_scan-IsTable, IsTable}
use dev_os.Pci.Scan.{IsPresent}
use dev_os.Pci.Find.{pci_find_class-pci_scan, subclass_of, class_of, FoundClass}
use dev_os.Prelude.{inl, arith, ℕ, ◌≡◌, refl, ◌==◌, if◌then◌else◌}
use dev_os.Pci.{
  pci_find_class, Pci, pci_address, pci_scan, scan_function, scan_device, scan_bus, scan_other,
  each,
}

abbrev machine : ℕ → ℕ
machine a =
    if a == 0x80000000
    then 0x100E8086
    else if a == 0x80000008
    then 0x02000003
    else if a == 0x8000000C
    then 0
    else 0xFFFFFFFF

abbrev none_yet : Pci
none_yet = record {
  pci_devices = λ i. record {
    bus = 0;
    device = 0;
    function = 0;
    vendor_id = 0;
    device_id = 0;
    class_code = 0;
    subclass = 0;
    prog_if = 0;
    header_type = 0;
    revision = 0;
    irq_line = 0;
    irq_pin = 0;
    bar = λ j. 0;
  };
  pci_device_count = 0;
}

one_found : (pci_scan machine none_yet).pci_device_count ≡ 1
unfolding pci_scan scan_bus scan_device scan_function scan_other each pci_address
one_found = refl

ethernet-IsPresent : IsPresent machine 0 0 0
unfolding pci_address
ethernet-IsPresent = record {
  bus_in = omega arith;
  device_in = omega arith;
  function_in = omega arith;
  first = refl;
  itself = refl;
  multi = inl refl;
}

pci_find_class-pci_scan_example :
    FoundClass (class_of machine 0 0 0) (subclass_of machine 0 0 0) (pci_scan machine none_yet) (
      pci_find_class
        (class_of machine 0 0 0)
        (subclass_of machine 0 0 0)
        (pci_scan machine none_yet))
pci_find_class-pci_scan_example =
    pci_find_class-pci_scan machine 0 0 0 none_yet ethernet-IsPresent (omega (arith, one_found))

pci_scan-IsTable_example : IsTable machine (pci_scan machine none_yet)
pci_scan-IsTable_example = pci_scan-IsTable machine none_yet
