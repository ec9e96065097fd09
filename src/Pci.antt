-- ===== src/Pci.antt =====
-- kernel/drivers/pci/pci.c: reading the configuration space, the scan of all buses, lookups in
-- the table of devices, and base addresses. `in32` is the hardware: the word at port 0xCFC once the
-- address is at port 0xCF8.
pub mod Scan
pub mod Find
pub mod Sound
pub mod Address
mod Tests
use dev_os.Prelude.{
  ◌^◌, ℕ, zero, suc, ◌+◌, ◌*◌, ◌/◌, ◌==◌, ◌!=◌, ltb, leb, ◌&&◌, if◌then◌else◌, bit_and, bit_or,
  Option, none, some, update, Bool, not,
}
use dev_os.Word.{u8, u16, u32, u64, page_size}
use dev_os.Mm.Machine.{Machine}
use dev_os.Mm.Vmm.{vmm_present, vmm_writable}
use dev_os.Mm.Vmm.Ext.{vmm_map_range}

-- `pci_device_t`
pub record PciDevice : Type 0 where
  pub bus : ℕ
  pub device : ℕ
  pub function : ℕ
  pub vendor_id : ℕ
  pub device_id : ℕ
  pub class_code : ℕ
  pub subclass : ℕ
  pub prog_if : ℕ
  pub header_type : ℕ
  pub revision : ℕ
  pub irq_line : ℕ
  pub irq_pin : ℕ
  pub bar : ℕ → ℕ

-- `pci_devices` and `pci_device_count`
pub record Pci : Type 0 where
  pub pci_devices : ℕ → PciDevice
  pub pci_device_count : ℕ

abbrev pub pci_max_devices : ℕ
pci_max_devices = 256

unfoldable pub pci_address : ℕ → ℕ → ℕ → ℕ → ℕ
pci_address bus dev func reg = u32 (
    bit_or
      (bit_or (bit_or (bit_or 0x80000000 (u32 (bus * 2 ^ 16))) (u32 (dev * 2 ^ 11)))
        (u32 (func * 2 ^ 8)))
      (bit_and reg 0xFC))

abbrev pub pci_read32 : (ℕ → ℕ) → ℕ → ℕ → ℕ → ℕ → ℕ
pci_read32 in32 bus dev func reg = in32 (pci_address bus dev func reg)

-- `(id & 0xFFFF) != 0xFFFF`
abbrev pub answers : ℕ → Bool
answers id = bit_and id 0xFFFF != 0xFFFF

-- What `scan_function` writes over the table's entry `old`. The base addresses are read for type 0
-- headers only.
unfoldable pub described : (ℕ → ℕ) → ℕ → ℕ → ℕ → PciDevice → PciDevice
described in32 b d f old =
    let id = pci_read32 in32 b d f 0 in
    let class_rev = pci_read32 in32 b d f 8 in
    let hdr = pci_read32 in32 b d f 0x0C in
    let irq = pci_read32 in32 b d f 0x3C in
    record {
      bus = b;
      device = d;
      function = f;
      vendor_id = u16 (bit_and id 0xFFFF);
      device_id = u16 (id / 2 ^ 16);
      class_code = u8 (bit_and (class_rev / 2 ^ 24) 0xFF);
      subclass = u8 (bit_and (class_rev / 2 ^ 16) 0xFF);
      prog_if = u8 (bit_and (class_rev / 2 ^ 8) 0xFF);
      header_type = u8 (bit_and (hdr / 2 ^ 16) 0xFF);
      revision = u8 (bit_and class_rev 0xFF);
      irq_line = u8 (bit_and irq 0xFF);
      irq_pin = u8 (bit_and (irq / 2 ^ 8) 0xFF);
      bar = λ i.
          if bit_and (u8 (bit_and (hdr / 2 ^ 16) 0xFF)) 0x7F == 0 && ltb i 6
          then pci_read32 in32 b d f (u8 (0x10 + i * 4))
          else old.bar i;
    }

unfoldable pub scan_function : (ℕ → ℕ) → ℕ → ℕ → ℕ → Pci → Pci
scan_function in32 b d f s =
    let n = s.pci_device_count in
    if not (answers (pci_read32 in32 b d f 0))
    then s
    else if leb pci_max_devices n
    then s
    else record {
      pci_devices = update s.pci_devices n (described in32 b d f (s.pci_devices n));
      pci_device_count = n + 1;
    }

-- A loop that runs `body` for `i`, `i + 1` and so on, `rounds` times.
unfoldable pub each : (ℕ → Pci → Pci) → ℕ → ℕ → Pci → Pci
each body zero i s = s
each body (suc rounds) i s = each body rounds (i + 1) (body i s)

-- The body of the loop over the other functions of a device.
unfoldable pub scan_other : (ℕ → ℕ) → ℕ → ℕ → ℕ → Pci → Pci
scan_other in32 b d f s =
    if answers (pci_read32 in32 b d f 0) then scan_function in32 b d f s else s

-- `(hdr >> 16) & 0x80`
abbrev pub is_multi : (ℕ → ℕ) → ℕ → ℕ → Bool
is_multi in32 b d = bit_and (pci_read32 in32 b d 0 0x0C / 2 ^ 16) 0x80 != 0

unfoldable pub scan_device : (ℕ → ℕ) → ℕ → ℕ → Pci → Pci
scan_device in32 b d s =
    let s1 = scan_function in32 b d 0 s in
    if not (answers (pci_read32 in32 b d 0 0))
    then s
    else if is_multi in32 b d
    then each (scan_other in32 b d) 7 1 s1
    else s1

unfoldable pub scan_bus : (ℕ → ℕ) → ℕ → Pci → Pci
scan_bus in32 b s = each (scan_device in32 b) 32 0 s

unfoldable pub pci_scan : (ℕ → ℕ) → Pci → Pci
pci_scan in32 s = each (scan_bus in32) 256 0 (record s { pci_device_count = 0 })

-- The first device from number `i` on that passes the test, by its number.
unfoldable pub find_from : (PciDevice → Bool) → (ℕ → PciDevice) → ℕ → ℕ → Option ℕ
find_from test devices zero i = none
find_from test devices (suc rounds) i =
    let rest = find_from test devices rounds (i + 1) in if test (devices i) then some i else rest

-- `none` is NULL.
unfoldable pub pci_find_device : ℕ → ℕ → Pci → Option ℕ
pci_find_device vendor id s =
    find_from (λ d. d.vendor_id == vendor && d.device_id == id) s.pci_devices s.pci_device_count 0

unfoldable pub pci_find_class : ℕ → ℕ → Pci → Option ℕ
pci_find_class class sub s =
    find_from (λ d. d.class_code == class && d.subclass == sub) s.pci_devices s.pci_device_count 0

unfoldable pub pci_find_class_progif : ℕ → ℕ → ℕ → Pci → Option ℕ
pci_find_class_progif class sub prog s =
    find_from (λ d. d.class_code == class && (d.subclass == sub && d.prog_if == prog)) s.pci_devices
      s.pci_device_count 0

abbrev pub pci_bar_is_mmio : PciDevice → ℕ → Bool
pci_bar_is_mmio d i = bit_and (d.bar i) 1 == 0

abbrev pub pci_bar_is_64bit : PciDevice → ℕ → Bool
pci_bar_is_64bit d i = pci_bar_is_mmio d i && bit_and (d.bar i / 2) 3 == 2

unfoldable pub pci_bar_address : PciDevice → ℕ → ℕ
pci_bar_address d i =
    let low = bit_and (d.bar i) 0xFFFF_FFF0 in
    if not (pci_bar_is_mmio d i)
    then bit_and (d.bar i) 0xFFFF_FFFC
    else if pci_bar_is_64bit d i && ltb i 5
    then bit_or low (u64 (d.bar (i + 1) * 2 ^ 32))
    else low

abbrev pub kernel_virt_base : ℕ
kernel_virt_base = 0xFFFF_FFFF_8000_0000

-- `VMM_PRESENT | VMM_WRITABLE | VMM_PCD | VMM_PWT | VMM_GLOBAL`
abbrev pub vmm_mmio : ℕ
vmm_mmio = bit_or (bit_or (bit_or (bit_or vmm_present vmm_writable) 16) 8) 256

unfoldable pub pci_map_bar : ℕ → PciDevice → ℕ → Machine → Option ℕ × Machine
pci_map_bar kernel_pml4 d i m =
    let phys = pci_bar_address d i in
    let virt = u64 (kernel_virt_base + phys) in
    if not (pci_bar_is_mmio d i)
    then (none, m)
    else (some virt, vmm_map_range kernel_pml4 virt phys (4 * page_size) vmm_mmio m)
