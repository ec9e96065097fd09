-- ===== src/Pci/Address.antt =====
-- The configuration addresses of kernel/drivers/pci/pci.c.
use dev_os.Prelude.{ℕ, ◌+◌, ◌*◌, ◌^◌, ◌<◌, ◌≡◌, sym, ◌∙◌, arith, bit_and, bit_or}
use dev_os.Word.{u32}
use dev_os.Bits.{bit_or_apart, bit_and-le_right}
use dev_os.Pci.{pci_address}

register_bound : (reg : ℕ) → bit_and reg 0xFC < 256
register_bound reg = omega (arith, bit_and-le_right 8 reg 0xFC (omega arith))

-- The fields stand next to each other, above the register.
pci_address_lem :
    (bus dev func reg : ℕ)
    → bus < 256
    → dev < 32
    → func < 8
    → pci_address bus dev func reg
      ≡ 0x80000000 + bus * 65536 + dev * 2048 + func * 256 + bit_and reg 0xFC
unfolding pci_address
pci_address_lem bus dev func reg hb hd hf =
    let r = register_bound reg in
    let b : u32 (bus * 2 ^ 16) ≡ bus * 2 ^ 16 = omega arith in
    let d : u32 (dev * 2 ^ 11) ≡ dev * 2 ^ 11 = omega arith in
    let f : u32 (func * 2 ^ 8) ≡ func * 2 ^ 8 = omega arith in
    let one : bit_or 0x80000000 (bus * 2 ^ 16) ≡ (32768 + bus) * 2 ^ 16 =
      omega (arith, bit_or_apart 31 (bus * 2 ^ 16) 1 (omega arith)) in
    let two : bit_or ((32768 + bus) * 2 ^ 16) (dev * 2 ^ 11) ≡ ((32768 + bus) * 32 + dev) * 2 ^ 11 =
      omega (arith, bit_or_apart 16 (dev * 2 ^ 11) (32768 + bus) (omega arith)) in
    let three : bit_or (((32768 + bus) * 32 + dev) * 2 ^ 11) (func * 2 ^ 8)
        ≡ (((32768 + bus) * 32 + dev) * 8 + func) * 2 ^ 8 =
      omega (arith, bit_or_apart 11 (func * 2 ^ 8) ((32768 + bus) * 32 + dev) (omega arith)) in
    let four = bit_or_apart 8 (bit_and reg 0xFC) (((32768 + bus) * 32 + dev) * 8 + func) r in
    simp (b, d, f, one, two, three) (omega (arith, four, r))

-- Different functions and registers have different addresses: the address determines the bus, the
-- device, the function, and the register up to its two low bits.
pub pci_address_inj :
    (b d f r b' d' f' r' : ℕ)
    → (b < 256) × (d < 32) × (f < 8)
    → (b' < 256) × (d' < 32) × (f' < 8)
    → pci_address b d f r ≡ pci_address b' d' f' r'
    → (b ≡ b') × (d ≡ d') × (f ≡ f') × (bit_and r 0xFC ≡ bit_and r' 0xFC)
pci_address_inj b d f r b' d' f' r' v w e =
    let one = pci_address_lem b d f r v.0 v.1 v.2 in
    let two = pci_address_lem b' d' f' r' w.0 w.1 w.2 in
    let lo = register_bound r in
    let lo' = register_bound r' in
    let same = sym one ∙ e ∙ two in
    (
      omega (arith, same, lo, lo', v.1, v.2, w.1, w.2),
      omega (arith, same, lo, lo', v.1, v.2, w.1, w.2),
      omega (arith, same, lo, lo', v.1, v.2, w.1, w.2),
      omega (arith, same, lo, lo', v.1, v.2, w.1, w.2),
    )
