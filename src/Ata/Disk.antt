-- ===== src/Ata/Disk.antt =====
-- What kernel/drivers/storage/ata.c reads from a drive that behaves as the ATA standard says.
use dev_os.Prelude.{
  ◌⊎◌, ℕ, zero, suc, ◌+◌, ◌-◌, ◌*◌, ◌/◌, ◌%◌, ◌^◌, ◌==◌, ◌≡◌, ◌≤◌, ◌<◌, refl, arith, ap, ◌∙◌, true,
  Bool-cases, inl, inr, bit_and, bit_or, update,
}
use dev_os.Bits.{bit_or_apart}
use dev_os.Word.{u8, u16, u32}
use dev_os.Ata.{
  ltb, Ports, Drq, ata_base, ata_delay, poll_not_busy, ata_wait_not_busy, poll_drq, ata_wait_drq,
}

-- What the standard says of a channel: the registers as they were written last, the drive of the
-- command, and the place on it of the next word and of the end of the transfer, in words.
pub record View : Type 0 where
  pub regs : ℕ → ℕ
  pub unit : ℕ
  pub cursor : ℕ
  pub stop : ℕ

-- The sector and the drive in the registers: 28 bits, the highest four in register 6.
abbrev pub lba_of : (ℕ → ℕ) → ℕ
lba_of regs = regs 3 + 256 * regs 4 + 65536 * regs 5 + 16777216 * (regs 6 % 16)

abbrev pub unit_of : (ℕ → ℕ) → ℕ
unit_of regs = regs 6 / 16 % 2

-- The channel `chan` is one of drives with the words `disk`: a read of a status register changes
-- nothing, registers keep what is written, the command 0x20 starts a transfer, of which the data
-- port gives the words in order, and the drive is ready in time.
pub record IsDisk {D : Type 0} (ports : Ports D) (chan : ℕ) (view : D → View) (disk : ℕ → ℕ → ℕ)
    : Type 0 where
  pub poll : (p : ℕ) (d : D) → view (ports.inb p d).1 ≡ view d
  pub write_reg :
      (r v : ℕ) (d : D)
      → r < 7
      → (view (ports.outb (u16 (ata_base chan + r)) v d)).regs ≡ update (view d).regs r v
  pub read_command :
      (d : D)
      → 0 < (view d).regs 2
      → ((view (ports.outb (u16 (ata_base chan + 7)) 0x20 d)).unit ≡ unit_of (view d).regs)
        × ((view (ports.outb (u16 (ata_base chan + 7)) 0x20 d)).cursor ≡ lba_of (view d).regs * 256)
        × ((view (ports.outb (u16 (ata_base chan + 7)) 0x20 d)).stop
            ≡ (lba_of (view d).regs + (view d).regs 2) * 256)
  pub word :
      (d : D)
      → (view d).cursor < (view d).stop
      → (ports.inw (ata_base chan) d).0 ≡ disk (view d).unit (view d).cursor
  pub advance :
      (d : D)
      → (view d).cursor < (view d).stop
      → view (ports.inw (ata_base chan) d).1 ≡ record (view d) { cursor = (view d).cursor + 1 }
  pub idle_soon : (d : D) → (ata_wait_not_busy ports (ata_base chan) 5000 d).0 ≡ true
  pub drq_soon :
      (d : D)
      → (view d).cursor < (view d).stop
      → (ata_wait_drq ports (ata_base chan) 5000 d).0 ≡ Drq.drq_ready

-- `n` words of the drive `unit` from its word `start` on have come to index `i` on, and nothing else
-- has changed.
pub record Copied (disk : ℕ → ℕ → ℕ) (i n unit start : ℕ) (w w' : ℕ → ℕ) : Type 0 where
  pub filled : (j : ℕ) → j < n → w' (i + j) ≡ disk unit (start + j)
  pub outside : (k : ℕ) → k < i ⊎ i + n ≤ k → w' k ≡ w k

-- Two transfers one after the other.
pub Copied-join :
    {disk : ℕ → ℕ → ℕ} {w w' w'' : ℕ → ℕ} (i n m total unit start : ℕ)
    → n + m ≡ total
    → Copied disk i n unit start w w'
    → Copied disk (i + n) m unit (start + n) w' w''
    → Copied disk i total unit start w w''
Copied-join {disk = disk} {w'' = w''} i n m total unit start whole one two = record {
  filled = λ j lt. elim (Bool-cases (ltb j n)) [
    | inl low ↦ two.outside (i + j) (inl (ground arith)) ∙ one.filled j (ground arith)
    | inr high ↦
        let index : i + j ≡ i + n + (j - n) = ground arith in
        let place : start + n + (j - n) ≡ start + j = ground arith in
        ap w'' index ∙ two.filled (j - n) (ground arith) ∙ ap (disk unit) place
  ];
  outside = λ k away.
      two.outside k (elim away [ inl below ↦ inl (omega arith) | inr above ↦ inr (omega arith) ])
      ∙ one.outside k (elim away [ inl below ↦ inl (omega arith) | inr above ↦ inr (omega arith) ]);
}

-- Where the drive stands.
pub record Stands (v : View) (unit cursor stop : ℕ) : Type 0 where
  pub on : v.unit ≡ unit
  pub at : v.cursor ≡ cursor
  pub ends : v.stop ≡ stop

-- The register of the drive and of the sector's highest bits.
pub drive_select :
    (sel w : ℕ) → sel < 2 → w < 16 → u8 (bit_or (bit_or 0xE0 (sel * 2 ^ 4)) w) ≡ 0xE0 + sel * 16 + w
drive_select sel w hs hw = elim (Bool-cases (sel == 0)) [
  | inl first ↦ let e : sel ≡ 0 = ground arith in rw e (omega (arith, bit_or_apart 4 w 14 hw))
  | inr second ↦ let e : sel ≡ 1 = ground arith in rw e (omega (arith, bit_or_apart 4 w 15 hw))
]

module _ {D : Type 0} (ports : Ports D) (chan : ℕ) (view : D → View) (disk : ℕ → ℕ → ℕ)
    (drive : IsDisk ports chan view disk) where
  view-poll_not_busy : (base n : ℕ) (d : D) → view (poll_not_busy ports base n d).1 ≡ view d
  unfolding poll_not_busy
  view-poll_not_busy base zero d = refl
  view-poll_not_busy base (suc n) d =
      let r = ports.inb (u16 (base + 7)) d in
      elim (Bool-cases (bit_and r.0 0x80 == 0)) [
        | inl idle ↦ rw (idle, poll_not_busy) (drive.poll (u16 (base + 7)) d)
        | inr busy ↦
            rw (busy, poll_not_busy) (view-poll_not_busy base n r.1 ∙ drive.poll (u16 (base + 7)) d)
      ]

  view-poll_drq : (base n : ℕ) (d : D) → view (poll_drq ports base n d).1 ≡ view d
  unfolding poll_drq
  view-poll_drq base zero d = refl
  view-poll_drq base (suc n) d =
      let r = ports.inb (u16 (base + 7)) d in
      elim (Bool-cases (bit_and r.0 0x01 == 0)) [
        | inr failed ↦ rw (failed, poll_drq) (drive.poll (u16 (base + 7)) d)
        | inl fine ↦ elim (Bool-cases (bit_and r.0 0x08 == 0)) [
          | inr ready ↦ rw (fine, ready, poll_drq) (drive.poll (u16 (base + 7)) d)
          | inl later ↦
              rw (fine, later, poll_drq) (view-poll_drq base n r.1 ∙ drive.poll (u16 (base + 7)) d)
        ]
      ]

  pub view-ata_wait_not_busy :
      (base : ℕ) (d : D) → view (ata_wait_not_busy ports base 5000 d).1 ≡ view d
  unfolding ata_wait_not_busy
  view-ata_wait_not_busy base d = view-poll_not_busy base (u32 (5000 * 10000)) d

  pub view-ata_wait_drq : (base : ℕ) (d : D) → view (ata_wait_drq ports base 5000 d).1 ≡ view d
  unfolding ata_wait_drq
  view-ata_wait_drq base d = view-poll_drq base (u32 (5000 * 10000)) d

  pub view-ata_delay : (ctrl : ℕ) (d : D) → view (ata_delay ports ctrl d) ≡ view d
  unfolding ata_delay
  view-ata_delay ctrl d =
      let d1 = (ports.inb ctrl d).1 in
      let d2 = (ports.inb ctrl d1).1 in
      drive.poll ctrl (ports.inb ctrl d2).1
      ∙ drive.poll ctrl d2
      ∙ drive.poll ctrl d1
      ∙ drive.poll ctrl d
