-- ===== src/Ata/Tests.antt =====
-- kernel/drivers/storage/ata.c: a drive that is ready at once.
use dev_os.Prelude.{
  ℕ, ◌+◌, ◌-◌, ◌*◌, ◌==◌, ◌≡◌, refl, arith, false, if◌then◌else◌, true, update, ◌%◌,
}
use dev_os.Word.{u16}
use dev_os.Ata.{
  poll_not_busy, poll_drq, ata_wait_not_busy, ata_wait_drq, ata_wait_drq, ata_wait_not_busy, Ports,
  Transfer, ata_blk_read,
}
use dev_os.Ata.Disk.{View, IsDisk, Copied, lba_of, unit_of}
use dev_os.Ata.Read.{ata_blk_read-Copied}
use dev_os.Ata.Wrap.{ata_blk_read-wraps}

abbrev contents : ℕ → ℕ → ℕ
contents unit k = (unit + 3 * k) % 65536

abbrev start_read : View → View
start_read v = record v {
  unit = unit_of v.regs;
  cursor = lba_of v.regs * 256;
  stop = (lba_of v.regs + v.regs 2) * 256;
}

abbrev ready_drive : Ports View
ready_drive = record {
  inb = λ p v. (0x48, v);
  inw = λ p v. (contents v.unit v.cursor, record v { cursor = v.cursor + 1 });
  outb =
      λ p b v. if p == 0x1F7 then start_read v else record v { regs = update v.regs (p - 0x1F0) b };
  outw = λ p w v. v;
}

ready_drive-IsDisk : IsDisk ready_drive 0 (λ v. v) contents
unfolding ata_wait_not_busy poll_not_busy ata_wait_drq poll_drq
ready_drive-IsDisk = record {
  poll = λ p v. refl;
  write_reg = λ r b v small.
      let port : u16 (0x1F0 + r) ≡ 0x1F0 + r = omega arith in
      let other : (0x1F0 + r == 0x1F7) ≡ false = ground arith in
      let index : 0x1F0 + r - 0x1F0 ≡ r = omega arith in rw (port, other, index) refl;
  read_command = λ v some_sectors. (refl, refl, refl);
  word = λ v left. refl;
  advance = λ v left. refl;
  idle_soon = λ v. refl;
  drq_soon = λ v left. refl;
}

abbrev idle : Transfer View
idle = record { device = record { regs = λ r. 0; unit = 0; cursor = 0; stop = 0 }; words = λ i. 0 }

ata_blk_read-Copied_example :
    ((ata_blk_read ready_drive 1 300 2 10 idle).0 ≡ true)
    × Copied contents 10 512 1 76800 (λ i. 0) (ata_blk_read ready_drive 1 300 2 10 idle).1.words
ata_blk_read-Copied_example =
    ata_blk_read-Copied ready_drive 1 (λ v. v) contents ready_drive-IsDisk 300 2 10 idle
      (omega arith)

ata_blk_read-wraps_example :
    ata_blk_read ready_drive 0 268435463 2 10 idle
    ≡ ata_blk_read ready_drive 0 (268435463 % 268435456) 2 10 idle
ata_blk_read-wraps_example = ata_blk_read-wraps ready_drive 0 268435463 2 10 idle
