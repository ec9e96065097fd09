-- ===== src/Ioapic/Entries.antt =====
-- What the functions of kernel/arch/x86_64/ioapic.c leave in the entries.
use dev_os.Prelude.{
  if◌then◌else◌, true, false, ℕ, ◌+◌, ◌*◌, ◌/◌, ◌%◌, ◌^◌, ◌≡◌, ◌≢◌, ◌<◌, refl, ap, ap₂, sym, ◌∙◌,
  arith, Bool, some, List, update, update_self, update_ne, bit_and, bit_or,
}
use dev_os.Word.{u8, u32}
use dev_os.Bits.{not64, bit_and_low, bit_or_apart, bit_or_comm, bit_or_bound, bit_and-le}
use dev_os.Acpi.{Iso}
use dev_os.Ioapic.{
  Route, Ioapics, ioapic_write_rte, ioapic_read_rte, ioapic_for_gsi, overridden, route_entry,
  ioapic_set_irq, ioapic_mask_irq,
}

-- An entry is what was written there last.
read_rte-write_rte :
    (i irq rte : ℕ) (s : Ioapics)
    → irq < 120
    → rte < 2 ^ 64
    → ioapic_read_rte i irq (ioapic_write_rte i irq rte s) ≡ rte
unfolding ioapic_read_rte ioapic_write_rte
read_rte-write_rte i irq rte s line small =
    let reg = u8 (0x10 + 2 * irq) in
    let lo = u32 (bit_and rte 0xFFFF_FFFF) in
    let hi = u32 (rte / 2 ^ 32) in
    let r1 = update (s.regs i) reg lo in
    let w = ioapic_write_rte i irq rte s in
    let whole : w.regs i ≡ update (update s.regs i r1 i) (u8 (reg + 1)) hi =
      update_self (update s.regs i r1) i (update (update s.regs i r1 i) (u8 (reg + 1)) hi) in
    let first : update s.regs i r1 i ≡ r1 = update_self s.regs i r1 in
    let both : w.regs i ≡ update r1 (u8 (reg + 1)) hi =
      whole ∙ ap (λ (f : ℕ → ℕ). update f (u8 (reg + 1)) hi) first in
    let low : w.regs i reg ≡ lo =
      ap (λ (f : ℕ → ℕ). f reg) both
      ∙ update_ne r1 (u8 (reg + 1)) reg hi (λ e. omega (arith, e, line))
      ∙ update_self (s.regs i) reg lo in
    let high : w.regs i (u8 (reg + 1)) ≡ hi =
      ap (λ (f : ℕ → ℕ). f (u8 (reg + 1))) both ∙ update_self r1 (u8 (reg + 1)) hi in
    let low_half : lo ≡ rte % 2 ^ 32 = omega (arith, bit_and_low 32 rte) in
    ap₂ (λ (a b : ℕ). bit_or a (b * 2 ^ 32)) low high
    ∙ bit_or_comm lo (hi * 2 ^ 32)
    ∙ bit_or_apart 32 lo hi (omega arith)
    ∙ omega (arith, low_half)

-- Another line of the same unit keeps its entry.
read_rte-write_rte_ne :
    (i irq other rte : ℕ) (s : Ioapics)
    → irq < 120
    → other < 120
    → irq ≢ other
    → ioapic_read_rte i other (ioapic_write_rte i irq rte s) ≡ ioapic_read_rte i other s
unfolding ioapic_read_rte ioapic_write_rte
read_rte-write_rte_ne i irq other rte s line line' ne =
    let reg = u8 (0x10 + 2 * irq) in
    let lo = u32 (bit_and rte 0xFFFF_FFFF) in
    let hi = u32 (rte / 2 ^ 32) in
    let r1 = update (s.regs i) reg lo in
    let w = ioapic_write_rte i irq rte s in
    let whole : w.regs i ≡ update (update s.regs i r1 i) (u8 (reg + 1)) hi =
      update_self (update s.regs i r1) i (update (update s.regs i r1 i) (u8 (reg + 1)) hi) in
    let both : w.regs i ≡ update r1 (u8 (reg + 1)) hi =
      whole ∙ ap (λ (f : ℕ → ℕ). update f (u8 (reg + 1)) hi) (update_self s.regs i r1) in
    let kept : (k : ℕ) → k ≢ reg → k ≢ u8 (reg + 1) → w.regs i k ≡ s.regs i k = λ k a b.
      ap (λ (f : ℕ → ℕ). f k) both
      ∙ update_ne r1 (u8 (reg + 1)) k hi (λ e. b (sym e))
      ∙ update_ne (s.regs i) reg k lo (λ e. a (sym e)) in
    let at = u8 (0x10 + 2 * other) in
    ap₂ (λ (a b : ℕ). bit_or a (b * 2 ^ 32))
      (kept at (λ e. ne (omega (arith, e, line, line'))) (λ e. omega (arith, e, line, line')))
      (kept (u8 (at + 1)) (λ e. omega (arith, e, line, line'))
        (λ e. ne (omega (arith, e, line, line'))))

or_if_bound :
    (b : Bool) (a c : ℕ) → a < 2 ^ 64 → c < 2 ^ 64 → (if b then bit_or a c else a) < 2 ^ 64
or_if_bound true a c ha hc = bit_or_bound 64 a c ha hc
or_if_bound false a c ha hc = ha

-- The entry of a route has 64 bits.
route_entry_bound :
    (r : Route) (vector dest : ℕ)
    → vector < 2 ^ 8
    → dest < 2 ^ 8
    → route_entry r vector dest < 2 ^ 64
unfolding route_entry
route_entry_bound r vector dest hv hd =
    let e1 = if r.active_low then bit_or vector (2 ^ 13) else vector in
    let e2 = if r.level then bit_or e1 (2 ^ 15) else e1 in
    let h1 : e1 < 2 ^ 64 = or_if_bound r.active_low vector (2 ^ 13) (omega arith) (omega arith) in
    let h2 : e2 < 2 ^ 64 = or_if_bound r.level e1 (2 ^ 15) h1 (omega arith) in
    let h3 = bit_or_bound 64 e2 (dest * 2 ^ 56) h2 (omega arith) in
    omega (arith, h3, bit_and-le 64 (bit_or e2 (dest * 2 ^ 56)) (not64 (2 ^ 16)) h3)

set_found :
    (iso : List Iso) (irq vector dest : ℕ) (level low : Bool) (s : Ioapics) (i l : ℕ)
    → ioapic_for_gsi (overridden iso irq level low).gsi s ≡ some (i, l)
    → ioapic_set_irq iso irq vector dest level low s
      ≡ ioapic_write_rte i l (route_entry (overridden iso irq level low) vector dest) s
unfolding ioapic_set_irq
set_found iso irq vector dest level low s i l found = rw (found, ioapic_set_irq) refl

mask_found :
    (irq : ℕ) (s : Ioapics) (i l : ℕ)
    → ioapic_for_gsi irq s ≡ some (i, l)
    → ioapic_mask_irq irq s ≡ ioapic_write_rte i l (bit_or (ioapic_read_rte i l s) (2 ^ 16)) s
unfolding ioapic_mask_irq
mask_found irq s i l found = rw (found, ioapic_mask_irq) refl

find-write_rte :
    (i l rte gsi : ℕ) (s : Ioapics)
    → ioapic_for_gsi gsi (ioapic_write_rte i l rte s) ≡ ioapic_for_gsi gsi s
unfolding ioapic_write_rte
find-write_rte i l rte gsi s = refl

-- When an override sends an interrupt to line `l` of a unit, but its own number is that of another
-- line of the unit, `ioapic_mask_irq` after `ioapic_set_irq` leaves the entry of `l` as it was set,
-- and masks that of the other line.
pub ioapic_mask_irq-override :
    (iso : List Iso) (irq vector dest : ℕ) (level low : Bool) (s : Ioapics) (i l other : ℕ)
    → vector < 2 ^ 8
    → dest < 2 ^ 8
    → l < 120
    → other < 120
    → other ≢ l
    → ioapic_read_rte i other s < 2 ^ 64
    → ioapic_for_gsi (overridden iso irq level low).gsi s ≡ some (i, l)
    → ioapic_for_gsi irq s ≡ some (i, other)
    → (ioapic_read_rte i l (ioapic_mask_irq irq (ioapic_set_irq iso irq vector dest level low s))
        ≡ route_entry (overridden iso irq level low) vector dest)
      × (ioapic_read_rte i other
            (ioapic_mask_irq irq (ioapic_set_irq iso irq vector dest level low s))
          ≡ bit_or (ioapic_read_rte i other s) (2 ^ 16))
ioapic_mask_irq-override iso irq vector dest level low s i l other hv hd hl ho ne old found own =
    let e = route_entry (overridden iso irq level low) vector dest in
    let s1 = ioapic_write_rte i l e s in
    let set = set_found iso irq vector dest level low s i l found in
    let masked = mask_found irq s1 i other (find-write_rte i l e irq s ∙ own) in
    let same : ioapic_read_rte i other s1 ≡ ioapic_read_rte i other s =
      read_rte-write_rte_ne i l other e s hl ho (λ q. ne (sym q)) in
    let m = bit_or (ioapic_read_rte i other s1) (2 ^ 16) in
    let fits : m < 2 ^ 64 =
      bit_or_bound 64 (ioapic_read_rte i other s1) (2 ^ 16) (omega (arith, same, old))
        (omega arith) in
    rw (set, masked)
      (
        read_rte-write_rte_ne i other l m s1 ho hl ne
            ∙ read_rte-write_rte i l e s hl
                (route_entry_bound (overridden iso irq level low) vector dest hv hd),
        read_rte-write_rte i other m s1 ho fits ∙ ap (λ (x : ℕ). bit_or x (2 ^ 16)) same,
      )
