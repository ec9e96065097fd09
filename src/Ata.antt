-- ===== src/Ata.antt =====
-- kernel/drivers/storage/ata.c: transfers by programmed input and output. The machine's ports are
-- an argument, operations on the state of the device behind them; a buffer is a function from the
-- index of its 16-bit word.
pub mod Wrap
pub mod Disk
pub mod Read
pub mod Identify
mod Tests
use dev_os.Prelude.{
  ℕ, zero, suc, ◌+◌, ◌-◌, ◌*◌, ◌/◌, ◌%◌, ◌^◌, ◌==◌, ◌!=◌, ltb, leb, ◌||◌, if◌then◌else◌, Bool, true,
  false, update, bit_and, bit_or,
}
use dev_os.Word.{u8, u16, u32, u64}

-- `inb`, `inw`, `outb` and `outw`, by the port.
pub record Ports (D : Type 0) : Type 0 where
  pub inb : ℕ → D → ℕ × D
  pub inw : ℕ → D → ℕ × D
  pub outb : ℕ → ℕ → D → D
  pub outw : ℕ → ℕ → D → D

abbrev pub ata_base : ℕ → ℕ
ata_base chan = if chan == 0 then 0x1F0 else 0x170

abbrev pub ata_ctrl : ℕ → ℕ
ata_ctrl chan = if chan == 0 then 0x3F6 else 0x376

pub data Drq : Type 0 where
  drq_error drq_timeout drq_ready : Drq

-- The device, and the words of the caller's buffer.
pub record Transfer (D : Type 0) : Type 0 where
  pub device : D
  pub words : ℕ → ℕ

-- The sectors of one command.
abbrev pub chunk : ℕ → ℕ
chunk count = if ltb 255 count then 255 else u8 count

module _ {D : Type 0} (ports : Ports D) where
  unfoldable pub ata_delay : ℕ → D → D
  ata_delay ctrl d =
      let d1 = (ports.inb ctrl d).1 in
      let d2 = (ports.inb ctrl d1).1 in let d3 = (ports.inb ctrl d2).1 in (ports.inb ctrl d3).1

  -- The loop of `ata_wait_not_busy` with `n` polls left.
  unfoldable pub poll_not_busy : ℕ → ℕ → D → Bool × D
  poll_not_busy base zero d = (false, d)
  poll_not_busy base (suc n) d =
      let r = ports.inb (u16 (base + 7)) d in
      elim (bit_and r.0 0x80 == 0) [ true ↦ (true, r.1) | false ↦ poll_not_busy base n r.1 ]

  unfoldable pub ata_wait_not_busy : ℕ → ℕ → D → Bool × D
  ata_wait_not_busy base timeout_ms d = poll_not_busy base (u32 (timeout_ms * 10000)) d

  -- The loop of `ata_wait_drq`.
  unfoldable pub poll_drq : ℕ → ℕ → D → Drq × D
  poll_drq base zero d = (Drq.drq_timeout, d)
  poll_drq base (suc n) d =
      let r = ports.inb (u16 (base + 7)) d in
      elim (bit_and r.0 0x01 == 0) [
        | false ↦ (Drq.drq_error, r.1)
        | true ↦ elim (bit_and r.0 0x08 == 0) [
          | false ↦ (Drq.drq_ready, r.1)
          | true ↦ poll_drq base n r.1
        ]
      ]

  unfoldable pub ata_wait_drq : ℕ → ℕ → D → Drq × D
  ata_wait_drq base timeout_ms d = poll_drq base (u32 (timeout_ms * 10000)) d

  -- The six writes that start a transfer, and the delay.
  unfoldable pub start_transfer : ℕ → ℕ → ℕ → ℕ → ℕ → D → D
  start_transfer chan sel lba count cmd d =
      let base = ata_base chan in
      let d1 =
        ports.outb (u16 (base + 6))
          (u8 (bit_or (bit_or 0xE0 (sel * 2 ^ 4)) (bit_and (lba / 2 ^ 24) 0x0F))) d in
      let d2 = ports.outb (u16 (base + 2)) count d1 in
      let d3 = ports.outb (u16 (base + 3)) (u8 (bit_and lba 0xFF)) d2 in
      let d4 = ports.outb (u16 (base + 4)) (u8 (bit_and (lba / 2 ^ 8) 0xFF)) d3 in
      let d5 = ports.outb (u16 (base + 5)) (u8 (bit_and (lba / 2 ^ 16) 0xFF)) d4 in
      ata_delay (ata_ctrl chan) (ports.outb (u16 (base + 7)) cmd d5)

  -- The words from index `i` on, `n` of them.
  unfoldable pub read_words : ℕ → ℕ → ℕ → Transfer D → Transfer D
  read_words base zero i t = t
  read_words base (suc n) i t =
      let r = ports.inw base t.device in
      read_words base n (i + 1) (record { device = r.1; words = update t.words i r.0 })

  unfoldable pub write_words : ℕ → ℕ → ℕ → Transfer D → Transfer D
  write_words base zero i t = t
  write_words base (suc n) i t =
      write_words base n (i + 1) (record t { device = ports.outw base (t.words i) t.device })

  -- What both loops over the sectors do before the words of a sector: whether it has come.
  unfoldable pub await_sector : ℕ → D → Bool × D
  await_sector base d =
      let a = ata_wait_not_busy base 5000 d in
      elim a.0 [
        | false ↦ (false, a.1)
        | true ↦
            let b = ata_wait_drq base 5000 a.1 in
            elim b.0 [
              | drq_ready ↦ (true, b.1)
              | drq_error ↦ (false, b.1)
              | drq_timeout ↦ (false, b.1)
            ]
      ]

  -- The loop of `ata_do_read` with `n` sectors left, the next one for the words from `i` on.
  unfoldable pub read_sectors : ℕ → ℕ → ℕ → Transfer D → Bool × Transfer D
  read_sectors base zero i t = (true, t)
  read_sectors base (suc n) i t =
      let a = await_sector base t.device in
      elim a.0 [
        | false ↦ (false, record t { device = a.1 })
        | true ↦ read_sectors base n (i + 256) (read_words base 256 i (record t { device = a.1 }))
      ]

  unfoldable pub write_sectors : ℕ → ℕ → ℕ → Transfer D → Bool × Transfer D
  write_sectors base zero i t = (true, t)
  write_sectors base (suc n) i t =
      let a = await_sector base t.device in
      elim a.0 [
        | false ↦ (false, record t { device = a.1 })
        | true ↦ write_sectors base n (i + 256) (write_words base 256 i (record t { device = a.1 }))
      ]

  -- The result is whether the C function returns 0.
  unfoldable pub ata_do_read : ℕ → ℕ → ℕ → ℕ → ℕ → Transfer D → Bool × Transfer D
  ata_do_read chan sel lba count buf t =
      let base = ata_base chan in
      let a = ata_wait_not_busy base 5000 t.device in
      elim a.0 [
        | false ↦ (false, record t { device = a.1 })
        | true ↦
            read_sectors base count buf
              (record t { device = start_transfer chan sel lba count 0x20 a.1 })
      ]

  -- The flush of the drive's cache, whose outcome is not looked at.
  abbrev pub flush : ℕ → Transfer D → Transfer D
  flush base t = record t {
    device = (ata_wait_not_busy base 5000 (ports.outb (u16 (base + 7)) 0xE7 t.device)).1;
  }

  unfoldable pub ata_do_write : ℕ → ℕ → ℕ → ℕ → ℕ → Transfer D → Bool × Transfer D
  ata_do_write chan sel lba count buf t =
      let base = ata_base chan in
      let a = ata_wait_not_busy base 5000 t.device in
      elim a.0 [
        | false ↦ (false, record t { device = a.1 })
        | true ↦
            let r =
              write_sectors base count buf
                (record t { device = start_transfer chan sel lba count 0x30 a.1 }) in
            elim r.0 [ false ↦ (false, r.1) | true ↦ (true, flush base r.1) ]
      ]

  -- The loops of `ata_blk_read` and `ata_blk_write`. A round transfers a sector at least.
  unfoldable pub blk_read_from : ℕ → ℕ → ℕ → ℕ → ℕ → Transfer D → Bool × Transfer D
  blk_read_from zero drive lba count buf t = (true, t)
  blk_read_from (suc fuel) drive lba count buf t = elim (count == 0) [
    | true ↦ (true, t)
    | false ↦
        let n = chunk count in
        let r = ata_do_read (drive / 2) (drive % 2) (u32 lba) n buf t in
        elim r.0 [
          | false ↦ (false, r.1)
          | true ↦ blk_read_from fuel drive (u64 (lba + n)) (count - n) (buf + n * 256) r.1
        ]
  ]

  unfoldable pub blk_write_from : ℕ → ℕ → ℕ → ℕ → ℕ → Transfer D → Bool × Transfer D
  blk_write_from zero drive lba count buf t = (true, t)
  blk_write_from (suc fuel) drive lba count buf t = elim (count == 0) [
    | true ↦ (true, t)
    | false ↦
        let n = chunk count in
        let r = ata_do_write (drive / 2) (drive % 2) (u32 lba) n buf t in
        elim r.0 [
          | false ↦ (false, r.1)
          | true ↦ blk_write_from fuel drive (u64 (lba + n)) (count - n) (buf + n * 256) r.1
        ]
  ]

  unfoldable pub ata_blk_read : ℕ → ℕ → ℕ → ℕ → Transfer D → Bool × Transfer D
  ata_blk_read drive lba count buf t = blk_read_from count drive lba count buf t

  unfoldable pub ata_blk_write : ℕ → ℕ → ℕ → ℕ → Transfer D → Bool × Transfer D
  ata_blk_write drive lba count buf t = blk_write_from count drive lba count buf t
