-- ===== src/Clock.antt =====
-- kernel/drivers/rtc.c. `cmos` is the hardware: what the register answers at the first or the
-- second reading. The wait for the end of an update is port input.
pub mod Decode
mod Tests
use dev_os.Prelude.{
  ℕ, ◌+◌, ◌*◌, ◌/◌, ◌%◌, ◌^◌, ◌==◌, ◌!=◌, ltb, leb, ◌&&◌, if◌then◌else◌, Bool, true, false, not,
  bit_and,
}
use dev_os.Word.{u8, u16}

-- `rtc_time_t`
pub record RtcTime : Type 0 where
  pub second : ℕ
  pub minute : ℕ
  pub hour : ℕ
  pub weekday : ℕ
  pub day : ℕ
  pub month : ℕ
  pub year : ℕ

unfoldable pub bcd2bin : ℕ → ℕ
bcd2bin bcd = u8 (bit_and (bcd / 2 ^ 4) 0x0F * 10 + bit_and bcd 0x0F)

-- The registers of the time, as they are.
abbrev pub raw_time : (ℕ → ℕ) → RtcTime
raw_time cmos = record {
  second = cmos 0x00;
  minute = cmos 0x02;
  hour = cmos 0x04;
  weekday = cmos 0x06;
  day = cmos 0x07;
  month = cmos 0x08;
  year = cmos 0x09;
}

unfoldable pub from_bcd : RtcTime → RtcTime
from_bcd t = record {
  second = bcd2bin t.second;
  minute = bcd2bin t.minute;
  hour = bcd2bin (bit_and t.hour 0x7F);
  weekday = bcd2bin t.weekday;
  day = bcd2bin t.day;
  month = bcd2bin t.month;
  year = bcd2bin (u8 t.year);
}

-- From 12 hours to 24, by the hour register's top bit.
unfoldable pub hour_24 : ℕ → ℕ → ℕ
hour_24 raw_hour hour =
    let pm = bit_and raw_hour 0x80 != 0 in
    let shifted = if pm && ltb hour 12 then u8 (hour + 12) else hour in
    if not pm && shifted == 12 then 0 else shifted

unfoldable pub full_year : Bool → ℕ → ℕ → ℕ
full_year bcd century year =
    let c = if bcd then bcd2bin century else century in
    if leb 19 century && leb century 21 then u16 (c * 100 + year) else u16 (2000 + year)

-- Of the two readings the second is taken; the first one only gives the mode.
unfoldable pub rtc_get_time : (ℕ → ℕ) → (ℕ → ℕ) → RtcTime
rtc_get_time first second_read =
    let status_b = first 0x0B in
    let bcd = bit_and status_b 0x04 == 0 in
    let t = if bcd then from_bcd (raw_time second_read) else raw_time second_read in
    let hours = if bit_and status_b 0x02 == 0 then hour_24 (second_read 0x04) t.hour else t.hour in
    record t { hour = hours; year = full_year bcd (second_read 0x32) t.year }
