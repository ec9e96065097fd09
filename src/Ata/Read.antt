-- ===== src/Ata/Read.antt =====
-- The transfer of sectors by kernel/drivers/storage/ata.c from a drive of Ata/Disk.
use dev_os.Prelude.{
  subst, update_ne, update_self, ℕ, zero, suc, ◌+◌, ◌-◌, ◌*◌, ◌/◌, ◌%◌, ◌^◌, ◌==◌, ◌≡◌, ◌≤◌, ◌<◌,
  refl, arith, ap, ap₂, sym, ◌∙◌, true, Bool-cases, inl, inr, bit_and, bit_or, update,
}
use dev_os.Bits.{bit_and_low}
use dev_os.Word.{u8, u16, u32, u64}
use dev_os.Ata.{
  Ports, Transfer, ata_base, ata_ctrl, ata_wait_not_busy, start_transfer, read_words, await_sector,
  read_sectors, ata_do_read, chunk, blk_read_from, ata_blk_read,
}
use dev_os.Ata.Disk.{
  View, lba_of, unit_of, IsDisk, view-ata_wait_not_busy, view-ata_wait_drq, view-ata_delay, Copied,
  Copied-join, Stands, drive_select,
}

module _ {D : Type 0} (ports : Ports D) (chan : ℕ) (view : D → View) (disk : ℕ → ℕ → ℕ)
    (drive : IsDisk ports chan view disk) where
  -- A sector that is left to transfer comes.
  await_sector-comes :
      (d : D)
      → (view d).cursor < (view d).stop
      → ((await_sector ports (ata_base chan) d).0 ≡ true)
        × (view (await_sector ports (ata_base chan) d).1 ≡ view d)
  unfolding await_sector
  await_sector-comes d left =
      let base = ata_base chan in
      let a = ata_wait_not_busy ports base 5000 d in
      let same : view a.1 ≡ view d = view-ata_wait_not_busy ports chan view disk drive base d in
      let still : (view a.1).cursor < (view a.1).stop =
        omega (arith, ap (λ (v : View). v.cursor) same, ap (λ (v : View). v.stop) same, left) in
      rw (drive.idle_soon d, drive.drq_soon a.1 still, await_sector)
        (refl, view-ata_wait_drq ports chan view disk drive base a.1 ∙ same)

  read_words-Copied :
      (n i unit start stop : ℕ) (t : Transfer D)
      → Stands (view t.device) unit start stop
      → start + n ≤ stop
      → Copied disk i n unit start t.words (read_words ports (ata_base chan) n i t).words
        × Stands (view (read_words ports (ata_base chan) n i t).device) unit (start + n) stop
  unfolding read_words
  read_words-Copied zero i unit start stop t h room = (
    record { filled = λ j lt. absurd (omega arith); outside = λ k away. refl },
    record { on = h.on; at = omega (arith, h.at); ends = h.ends },
  )
  read_words-Copied (suc n) i unit start stop t h room =
      let left : (view t.device).cursor < (view t.device).stop = omega (arith, h.at, h.ends) in
      let r = ports.inw (ata_base chan) t.device in
      let next = drive.advance t.device left in
      let t1 : Transfer D = record { device = r.1; words = update t.words i r.0 } in
      let now : Stands (view r.1) unit (start + 1) stop = record {
        on = ap (λ (v : View). v.unit) next ∙ h.on;
        at = omega (arith, ap (λ (v : View). v.cursor) next, h.at);
        ends = ap (λ (v : View). v.stop) next ∙ h.ends;
      } in
      let first : Copied disk i 1 unit start t.words t1.words = record {
        filled = λ j lt.
            let here : i + j ≡ i = omega arith in
            ap t1.words here
            ∙ update_self t.words i r.0
            ∙ drive.word t.device left
            ∙ ap₂ disk h.on (omega (arith, h.at));
        outside = λ k away. update_ne t.words i k r.0 (λ e. omega (arith, e, away));
      } in
      let (rest, after) = read_words-Copied n (i + 1) unit (start + 1) stop t1 now (omega arith) in
      (
        Copied-join i 1 n (suc n) unit start (omega arith) first rest,
        record { on = after.on; at = omega (arith, after.at); ends = after.ends },
      )

  read_sectors-Copied :
      (n i unit start stop : ℕ) (t : Transfer D)
      → Stands (view t.device) unit start stop
      → start + n * 256 ≤ stop
      → ((read_sectors ports (ata_base chan) n i t).0 ≡ true)
        × Copied disk i
            (n * 256)
            unit
            start
            t.words
            (read_sectors ports (ata_base chan) n i t).1.words
  unfolding read_sectors
  read_sectors-Copied zero i unit start stop t h room =
      (refl, record { filled = λ j lt. absurd (omega arith); outside = λ k away. refl })
  read_sectors-Copied (suc n) i unit start stop t h room =
      let base = ata_base chan in
      let a = await_sector ports base t.device in
      let (comes, same) = await_sector-comes t.device (omega (arith, h.at, h.ends)) in
      let t1 : Transfer D = record t { device = a.1 } in
      let still : Stands (view a.1) unit start stop =
        subst (λ (v : View). Stands v unit start stop) (sym same) h in
      let (one, after) = read_words-Copied 256 i unit start stop t1 still (omega arith) in
      let t2 = read_words ports base 256 i t1 in
      let (good, rest) =
        read_sectors-Copied n (i + 256) unit (start + 256) stop t2 after (omega arith) in
      rw (comes, read_sectors)
        (good, Copied-join i 256 (n * 256) (suc n * 256) unit start (omega arith) one rest)

  -- The registers hold the sector's number.
  view-start_transfer :
      (sel lba count : ℕ) (d : D)
      → sel < 2
      → lba < 2 ^ 28
      → 0 < count
      → Stands
          (view (start_transfer ports chan sel lba count 0x20 d))
          sel
          (lba * 256)
          ((lba + count) * 256)
  unfolding start_transfer
  view-start_transfer sel lba count d hs hl hc =
      let base = ata_base chan in
      let top = u8 (bit_or (bit_or 0xE0 (sel * 2 ^ 4)) (bit_and (lba / 2 ^ 24) 0x0F)) in
      let b0 = u8 (bit_and lba 0xFF) in
      let b1 = u8 (bit_and (lba / 2 ^ 8) 0xFF) in
      let b2 = u8 (bit_and (lba / 2 ^ 16) 0xFF) in
      let d1 = ports.outb (u16 (base + 6)) top d in
      let d2 = ports.outb (u16 (base + 2)) count d1 in
      let d3 = ports.outb (u16 (base + 3)) b0 d2 in
      let d4 = ports.outb (u16 (base + 4)) b1 d3 in
      let d5 = ports.outb (u16 (base + 5)) b2 d4 in
      let e4 = drive.write_reg 4 b1 d3 (omega arith) in
      let e3 = drive.write_reg 3 b0 d2 (omega arith) in
      let e2 = drive.write_reg 2 count d1 (omega arith) in
      let e1 = drive.write_reg 6 top d (omega arith) in
      let regs = (view d5).regs in
      let written : regs
          ≡ update (update (update (update (update (view d).regs 6 top) 2 count) 3 b0) 4 b1) 5 b2 =
        drive.write_reg 5 b2 d4 (omega arith)
        ∙ ap (λ (f : ℕ → ℕ). update f 5 b2) e4
        ∙ ap (λ (f : ℕ → ℕ). update (update f 4 b1) 5 b2) e3
        ∙ ap (λ (f : ℕ → ℕ). update (update (update f 3 b0) 4 b1) 5 b2) e2
        ∙ ap (λ (f : ℕ → ℕ). update (update (update (update f 2 count) 3 b0) 4 b1) 5 b2) e1 in
      let r2 : regs 2 ≡ count = ap (λ (f : ℕ → ℕ). f 2) written in
      let r3 : regs 3 ≡ b0 = ap (λ (f : ℕ → ℕ). f 3) written in
      let r4 : regs 4 ≡ b1 = ap (λ (f : ℕ → ℕ). f 4) written in
      let r5 : regs 5 ≡ b2 = ap (λ (f : ℕ → ℕ). f 5) written in
      let r6 : regs 6 ≡ top = ap (λ (f : ℕ → ℕ). f 6) written in
      let nibble : bit_and (lba / 2 ^ 24) 0x0F ≡ lba / 2 ^ 24 =
        omega (arith, bit_and_low 4 (lba / 2 ^ 24)) in
      let select = drive_select sel (bit_and (lba / 2 ^ 24) 0x0F) hs (omega (arith, nibble)) in
      let low0 : b0 ≡ lba % 256 = omega (arith, bit_and_low 8 lba) in
      let low1 : b1 ≡ lba / 2 ^ 8 % 256 = omega (arith, bit_and_low 8 (lba / 2 ^ 8)) in
      let low2 : b2 ≡ lba / 2 ^ 16 % 256 = omega (arith, bit_and_low 8 (lba / 2 ^ 16)) in
      let whole : lba_of regs ≡ lba =
        omega (arith, r3, r4, r5, r6, low0, low1, low2, select, nibble) in
      let unit : unit_of regs ≡ sel = omega (arith, r6, select, nibble) in
      let (on, at, ends) = drive.read_command d5 (omega (arith, r2)) in
      subst (λ (v : View). Stands v sel (lba * 256) ((lba + count) * 256))
        (sym (
          view-ata_delay ports chan view disk drive (ata_ctrl chan)
            (ports.outb (u16 (base + 7)) 0x20 d5)))
        (record {
          on = on ∙ unit;
          at = omega (arith, at, whole);
          ends = omega (arith, ends, whole, r2);
        })

  ata_do_read-Copied :
      (sel lba count buf : ℕ) (t : Transfer D)
      → sel < 2
      → lba + count ≤ 2 ^ 28
      → 0 < count
      → ((ata_do_read ports chan sel lba count buf t).0 ≡ true)
        × Copied disk buf
            (count * 256)
            sel
            (lba * 256)
            t.words
            (ata_do_read ports chan sel lba count buf t).1.words
  unfolding ata_do_read
  ata_do_read-Copied sel lba count buf t hs hl hc =
      let a = ata_wait_not_busy ports (ata_base chan) 5000 t.device in
      let d = start_transfer ports chan sel lba count 0x20 a.1 in
      rw (drive.idle_soon t.device, ata_do_read)
        (read_sectors-Copied count buf sel (lba * 256) ((lba + count) * 256)
          (record t { device = d }) (view-start_transfer sel lba count a.1 hs (omega arith) hc)
          (omega arith))

blk_read_from-Copied :
    {D : Type 0} (ports : Ports D) (number : ℕ) (view : D → View) (disk : ℕ → ℕ → ℕ)
    → IsDisk ports (number / 2) view disk
    → (fuel lba count buf : ℕ) (t : Transfer D) → count ≤ fuel
    → lba + count ≤ 2 ^ 28
    → ((blk_read_from ports fuel number lba count buf t).0 ≡ true)
      × Copied disk buf
          (count * 256)
          (number % 2)
          (lba * 256)
          t.words
          (blk_read_from ports fuel number lba count buf t).1.words
unfolding blk_read_from
blk_read_from-Copied ports number view disk drive zero lba count buf t enough hl =
    (refl, record { filled = λ j lt. absurd (omega arith); outside = λ k away. refl })
blk_read_from-Copied ports number view disk drive (suc fuel) lba count buf t enough hl =
    elim (Bool-cases (count == 0)) [
      | inl finished ↦
          rw (finished, blk_read_from)
            (refl, record { filled = λ j lt. absurd (ground arith); outside = λ k away. refl })
      | inr more ↦
          let n = chunk count in
          let small : n ≤ count = ground arith in
          let some_left : 0 < n = ground arith in
          let narrow : u32 lba ≡ lba = omega arith in
          let (good, one) =
            ata_do_read-Copied ports (number / 2) view disk drive (number % 2) (u32 lba) n buf t
              (omega arith) (omega (arith, narrow, small)) some_left in
          let r = ata_do_read ports (number / 2) (number % 2) (u32 lba) n buf t in
          let (all, rest) =
            blk_read_from-Copied ports number view disk drive fuel (u64 (lba + n)) (count - n)
              (buf + n * 256) r.1 (omega (arith, some_left)) (omega (arith, small)) in
          rw (more, good, blk_read_from)
            (
              all,
              Copied-join buf (n * 256) ((count - n) * 256) (count * 256) (number % 2) (lba * 256)
                  (omega (arith, small))
                  (subst
                    (λ (k : ℕ). Copied disk buf (n * 256) (number % 2) (k * 256) t.words r.1.words)
                    narrow one)
                  (subst
                    (λ (k : ℕ).
                      Copied disk (buf + n * 256) ((count - n) * 256) (number % 2) k r.1.words
                        (blk_read_from ports fuel number (u64 (lba + n)) (count - n) (buf + n * 256)
                          r.1).1.words)
                    (omega arith) rest),
            )
    ]

-- On a channel whose drives behave as the standard says, `ata_blk_read` succeeds for any number of
-- sectors that end below 2 ^ 28: the buffer holds the words of these sectors of the drive, in their
-- order across the commands of 255 sectors, and is the same everywhere else.
pub ata_blk_read-Copied :
    {D : Type 0} (ports : Ports D) (number : ℕ) (view : D → View) (disk : ℕ → ℕ → ℕ)
    → IsDisk ports (number / 2) view disk
    → (lba count buf : ℕ) (t : Transfer D) → lba + count ≤ 2 ^ 28
    → ((ata_blk_read ports number lba count buf t).0 ≡ true)
      × Copied disk buf
          (count * 256)
          (number % 2)
          (lba * 256)
          t.words
          (ata_blk_read ports number lba count buf t).1.words
unfolding ata_blk_read
ata_blk_read-Copied ports number view disk drive lba count buf t =
    blk_read_from-Copied ports number view disk drive count lba count buf t (omega arith)
