-- ===== src/Ata/Wrap.antt =====
-- The transfers of kernel/drivers/storage/ata.c at sectors from 2 ^ 28 on.
use dev_os.Prelude.{
  ℕ, zero, suc, ◌+◌, ◌-◌, ◌*◌, ◌/◌, ◌%◌, ◌^◌, ◌==◌, ◌≡◌, refl, arith, ap, sym, ◌∙◌, Bool, false,
  Bool-cases, inl, inr, bit_and,
}
use dev_os.Bits.{bit_and_low}
use dev_os.Word.{u32, u64}
use dev_os.Ata.{
  read_sectors, ata_wait_not_busy, ata_base, Ports, Transfer, start_transfer, ata_do_read, chunk,
  blk_read_from, ata_blk_read,
}

-- What the registers of the drive take from a sector's number.
low_field : (lba : ℕ) → bit_and lba 0xFF ≡ lba % 256
low_field lba = bit_and_low 8 lba

high_field : (lba : ℕ) → bit_and lba 0x0F ≡ lba % 16
high_field lba = bit_and_low 4 lba

module _ {D : Type 0} (ports : Ports D) where
  start_transfer-same :
      (chan sel lba lba' count cmd : ℕ) (d : D)
      → lba % 2 ^ 28 ≡ lba' % 2 ^ 28
      → start_transfer ports chan sel lba count cmd d
        ≡ start_transfer ports chan sel lba' count cmd d
  unfolding start_transfer
  start_transfer-same chan sel lba lba' count cmd d same =
      let e0 : bit_and lba 0xFF ≡ bit_and lba' 0xFF =
        omega (arith, low_field lba, low_field lba') in
      let e1 : bit_and (lba / 2 ^ 8) 0xFF ≡ bit_and (lba' / 2 ^ 8) 0xFF =
        omega (arith, low_field (lba / 2 ^ 8), low_field (lba' / 2 ^ 8)) in
      let e2 : bit_and (lba / 2 ^ 16) 0xFF ≡ bit_and (lba' / 2 ^ 16) 0xFF =
        omega (arith, low_field (lba / 2 ^ 16), low_field (lba' / 2 ^ 16)) in
      let e3 : bit_and (lba / 2 ^ 24) 0x0F ≡ bit_and (lba' / 2 ^ 24) 0x0F =
        omega (arith, high_field (lba / 2 ^ 24), high_field (lba' / 2 ^ 24)) in
      rw (e0, e1, e2, e3) refl

  ata_do_read-same :
      (chan sel lba lba' count buf : ℕ) (t : Transfer D)
      → lba % 2 ^ 28 ≡ lba' % 2 ^ 28
      → ata_do_read ports chan sel lba count buf t ≡ ata_do_read ports chan sel lba' count buf t
  unfolding ata_do_read
  ata_do_read-same chan sel lba lba' count buf t same =
      let base = ata_base chan in
      let a = ata_wait_not_busy ports base 5000 t.device in
      elim (Bool-cases a.0) [
        | inl idle ↦
            rw (idle, ata_do_read)
              (ap (λ (d : D). read_sectors ports base count buf (record t { device = d }))
                (start_transfer-same chan sel lba lba' count 0x20 a.1 same))
        | inr busy ↦ rw (busy, ata_do_read) refl
      ]

  blk_read_from-same :
      (fuel drive lba lba' count buf : ℕ) (t : Transfer D)
      → lba % 2 ^ 28 ≡ lba' % 2 ^ 28
      → blk_read_from ports fuel drive lba count buf t
        ≡ blk_read_from ports fuel drive lba' count buf t
  unfolding blk_read_from
  blk_read_from-same zero drive lba lba' count buf t same = refl
  blk_read_from-same (suc fuel) drive lba lba' count buf t same =
      let n = chunk count in
      let r = ata_do_read ports (drive / 2) (drive % 2) (u32 lba) n buf t in
      let one : ata_do_read ports (drive / 2) (drive % 2) (u32 lba') n buf t ≡ r =
        ata_do_read-same (drive / 2) (drive % 2) (u32 lba') (u32 lba) n buf t
          (omega (arith, same)) in
      elim (Bool-cases (count == 0)) [
        | inl finished ↦ rw (finished, blk_read_from) refl
        | inr more ↦ elim (Bool-cases r.0) [
          | inl good ↦
              let rest : Bool × Transfer D → Bool × Transfer D = λ x.
                blk_read_from ports fuel drive (u64 (lba' + n)) (count - n) (buf + n * 256) x.1 in
              rw (more, one, good, blk_read_from)
                (blk_read_from-same fuel drive (u64 (lba + n)) (u64 (lba' + n)) (count - n)
                    (buf + n * 256) r.1 (omega (arith, same))
                  ∙ ap rest (sym one))
          | inr bad ↦
              let stopped : Bool × Transfer D → Bool × Transfer D = λ x. (false, x.1) in
              rw (more, one, bad, blk_read_from) (ap stopped (sym one))
        ]
      ]

-- Whatever the device does, a transfer by `ata_blk_read` that starts at a sector `lba` is the same
-- as the transfer that starts at the sector `lba % 2 ^ 28`: a drive of more sectors, which the
-- driver registers with all of them, answers with others from 2 ^ 28 on.
pub ata_blk_read-wraps :
    {D : Type 0} (ports : Ports D) (drive lba count buf : ℕ) (t : Transfer D)
    → ata_blk_read ports drive lba count buf t ≡ ata_blk_read ports drive (lba % 2 ^ 28) count buf t
unfolding ata_blk_read
ata_blk_read-wraps ports drive lba count buf t =
    blk_read_from-same ports count drive lba (lba % 2 ^ 28) count buf t (omega arith)
