-- ===== src/Ata/Identify.antt =====
-- kernel/drivers/storage/ata.c: finding the drives and registering them as block devices.
use dev_os.Prelude.{
  ◌||◌, leb, ltb, get_or, get_or, ℕ, zero, suc, ◌+◌, ◌*◌, ◌/◌, ◌%◌, ◌^◌, ◌==◌, ◌&&◌, not,
  if◌then◌else◌, Bool, true, false, List, [], ◌∷◌, bit_and, update,
}
use dev_os.Word.{u16}
use dev_os.Ata.{
  drq_error, drq_timeout, drq_ready, ata_do_read, ata_do_write, ltb, leb, Ports, Transfer, ata_base,
  ata_ctrl, ata_delay, ata_wait_not_busy, ata_wait_drq, read_words,
}
use dev_os.Registry.{blkdev_register}

-- `model` has the 40 characters, as a function from the index.
pub record AtaDrive : Type 0 where
  pub present : Bool
  pub is_atapi : Bool
  pub lba48 : Bool
  pub model : ℕ → ℕ
  pub lba28_sectors : ℕ
  pub lba48_sectors : ℕ

-- "ATAPI device"
abbrev pub atapi_model : ℕ → ℕ
atapi_model i = get_or (65 ∷ 84 ∷ 65 ∷ 80 ∷ 73 ∷ 32 ∷ 100 ∷ 101 ∷ 118 ∷ 105 ∷ 99 ∷ 101 ∷ []) i 0

-- The high byte of a word comes first.
abbrev pub model_chars : (ℕ → ℕ) → ℕ → ℕ
model_chars ident i =
    if ltb i 40
    then if i % 2 == 0 then ident (27 + i / 2) / 2 ^ 8 else ident (27 + i / 2) % 2 ^ 8
    else 0

-- The loop that trims the trailing spaces, with the characters below `n` left to look at.
unfoldable pub trim_model : ℕ → (ℕ → ℕ) → ℕ → ℕ
trim_model zero model = model
trim_model (suc n) model =
    let rest = trim_model n (update model n 0) in if model n == 32 then rest else model

-- What the 256 words of IDENTIFY DEVICE say.
unfoldable pub identified : (ℕ → ℕ) → AtaDrive → AtaDrive
identified ident d =
    let wide = ident 83 / 2 ^ 10 % 2 == 1 in
    record d {
      present = true;
      model = trim_model 40 (model_chars ident);
      lba28_sectors = ident 61 * 2 ^ 16 + ident 60;
      lba48 = wide;
      lba48_sectors =
          if wide
          then ident 103 * 2 ^ 48 + ident 102 * 2 ^ 32 + ident 101 * 2 ^ 16 + ident 100
          else d.lba48_sectors;
    }

module _ {D : Type 0} (ports : Ports D) where
  -- After an error in the status: whether the signature is that of an ATAPI device.
  abbrev pub atapi_check : ℕ → AtaDrive → D → AtaDrive × D
  atapi_check base drive d =
      let mid = ports.inb (u16 (base + 4)) d in
      let hi = ports.inb (u16 (base + 5)) mid.1 in
      (
        if mid.0 == 0x14 && hi.0 == 0xEB
            then record drive { present = true; is_atapi = true; model = atapi_model }
            else drive,
        hi.1,
      )

  -- The data after a successful command; `drive` is absent still.
  abbrev pub read_identity : ℕ → AtaDrive → D → AtaDrive × D
  read_identity base drive d =
      let w = ata_wait_drq ports base 5000 d in
      elim w.0 [
        | drq_timeout ↦ (drive, w.1)
        | drq_error ↦
            let t = read_words ports base 256 0 (record { device = w.1; words = λ i. 0 }) in
            (identified t.words drive, t.device)
        | drq_ready ↦
            let t = read_words ports base 256 0 (record { device = w.1; words = λ i. 0 }) in
            (identified t.words drive, t.device)
      ]

  unfoldable pub ata_identify : ℕ → ℕ → AtaDrive → D → AtaDrive × D
  ata_identify chan sel drive d =
      let base = ata_base chan in
      let ctrl = ata_ctrl chan in
      let absent = record drive { present = false } in
      let d1 =
        ata_delay ports ctrl (ports.outb (u16 (base + 6)) (if sel == 0 then 0xA0 else 0xB0) d) in
      let d2 = ata_delay ports ctrl (ports.outb (u16 (base + 7)) 0xEC d1) in
      let st = ports.inb (u16 (base + 7)) d2 in
      elim (st.0 == 0) [
        | true ↦ (absent, st.1)
        | false ↦
            let w = ata_wait_not_busy ports base 5000 st.1 in
            elim w.0 [
              | false ↦ (absent, w.1)
              | true ↦
                  let st2 = ports.inb (u16 (base + 7)) w.1 in
                  elim (bit_and st2.0 0x01 == 0) [
                    | false ↦ atapi_check base absent st2.1
                    | true ↦ read_identity base absent st2.1
                  ]
            ]
      ]

-- A block device of a drive. `private` is the drive's number, from which the callbacks take the
-- channel and the drive on it.
pub record BlockDevice : Type 0 where
  pub sector_count : ℕ
  pub sector_size : ℕ
  pub read_only : Bool
  pub private : ℕ

abbrev pub block_device : ℕ → AtaDrive → BlockDevice
block_device idx drive = record {
  sector_count = if drive.lba48 then drive.lba48_sectors else drive.lba28_sectors;
  sector_size = 512;
  read_only = false;
  private = idx;
}

pub record Ata (D : Type 0) : Type 0 where
  pub device : D
  pub ata_drives : ℕ → AtaDrive
  pub ata_blkdevs : ℕ → BlockDevice
  pub blkdevs : List ℕ

abbrev pub no_drive : AtaDrive
no_drive = record {
  present = false;
  is_atapi = false;
  lba48 = false;
  model = λ i. 0;
  lba28_sectors = 0;
  lba48_sectors = 0;
}

module _ {D : Type 0} (ports : Ports D) where
  -- One round of `ata_init`: the drive `idx`; `address` says where the static array is.
  unfoldable pub init_drive : (ℕ → ℕ) → ℕ → Ata D → Ata D
  init_drive address idx s =
      let r = ata_identify ports (idx / 2) (idx % 2) (s.ata_drives idx) s.device in
      let s1 = record s { device = r.1; ata_drives = update s.ata_drives idx r.0 } in
      if r.0.present && not r.0.is_atapi
      then record s1 {
        ata_blkdevs = update s1.ata_blkdevs idx (block_device idx r.0);
        blkdevs = (blkdev_register (address idx) s1.blkdevs).1;
      }
      else s1

  unfoldable pub ata_init : (ℕ → ℕ) → Ata D → Ata D
  ata_init address s =
      let s0 = record s { ata_drives = λ i. no_drive } in
      let s1 = init_drive address 0 s0 in
      let s2 = init_drive address 1 s1 in
      let s3 = init_drive address 2 s2 in init_drive address 3 s3

  -- The calls for a drive by its number; false also when there is no such drive.
  unfoldable pub ata_read_sectors : ℕ → ℕ → ℕ → ℕ → (ℕ → AtaDrive) → Transfer D → Bool × Transfer D
  ata_read_sectors drive lba count buf drives t =
      if leb 4 drive || not (drives drive).present
      then (false, t)
      else ata_do_read ports (drive / 2) (drive % 2) lba count buf t

  unfoldable pub ata_write_sectors : ℕ → ℕ → ℕ → ℕ → (ℕ → AtaDrive) → Transfer D → Bool × Transfer D
  ata_write_sectors drive lba count buf drives t =
      if leb 4 drive || not (drives drive).present
      then (false, t)
      else ata_do_write ports (drive / 2) (drive % 2) lba count buf t
