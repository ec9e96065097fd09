-- ===== src/Clock/Decode.antt =====
-- What `rtc_get_time` makes of a clock that holds a date.
use dev_os.Prelude.{
  refl, ap, ◌||◌, if◌then◌else◌, ◌!=◌, ◌==◌, ltb, leb, true, false, Bool, ◌∙◌, ◌≤◌, ℕ, ◌+◌, ◌*◌,
  ◌/◌, ◌%◌, ◌^◌, ◌<◌, ◌≡◌, arith, bit_and,
}
use dev_os.Bits.{bit_and_pow, bit, bit_and_low}
use dev_os.Clock.{
  u8, u16, full_year, from_bcd, rtc_get_time, false, true, hour_24, RtcTime, Bool, bcd2bin,
}

-- A number below 100 in two decimal digits of four bits.
abbrev pub bcd : ℕ → ℕ
bcd n = n / 10 * 16 + n % 10

pub bcd2bin-bcd : (n : ℕ) → n < 100 → bcd2bin (bcd n) ≡ n
unfolding bcd2bin
bcd2bin-bcd n lt =
    let high : bit_and (bcd n / 2 ^ 4) 0x0F ≡ n / 10 =
      omega (arith, bit_and_low 4 (bcd n / 2 ^ 4)) in
    let low : bit_and (bcd n) 0x0F ≡ n % 10 = omega (arith, bit_and_low 4 (bcd n)) in
    simp (high, low) (omega arith)

-- A date that the clock can hold, in this century.
pub record IsDate (t : RtcTime) : Type 0 where
  pub second_in : t.second < 60
  pub minute_in : t.minute < 60
  pub hour_in : t.hour < 24
  pub weekday_in : t.weekday < 8
  pub day_in : t.day < 32
  pub month_in : t.month < 13
  pub year_in : (2000 ≤ t.year) × (t.year < 2100)

-- How a register holds a number: in digits or in binary.
abbrev pub held : Bool → ℕ → ℕ
held true n = bcd n
held false n = n

-- The hour register: 24 hours, or 12 with the top bit for the afternoon.
abbrev pub held_hour : Bool → Bool → ℕ → ℕ
held_hour digits true hour = held digits hour
held_hour digits false hour = held digits ((hour + 11) % 12 + 1) + (if ltb hour 12 then 0 else 128)

-- The registers of a clock that shows the time `t`, in digits or binary, of 24 hours or 12.
abbrev pub registers : Bool → Bool → RtcTime → ℕ → ℕ
registers digits full t r =
    if r == 0x00
    then held digits t.second
    else if r == 0x02
    then held digits t.minute
    else if r == 0x04
    then held_hour digits full t.hour
    else if r == 0x06
    then held digits t.weekday
    else if r == 0x07
    then held digits t.day
    else if r == 0x08
    then held digits t.month
    else if r == 0x09
    then held digits (t.year % 100)
    else if r == 0x0B
    then (if digits then 0 else 4) + (if full then 2 else 0)
    else if r == 0x32
    then held digits 20
    else 0

afternoon : (raw : ℕ) → raw < 256 → (bit_and raw 0x80 != 0) ≡ leb 128 raw
unfolding bit
afternoon raw lt =
    let top : bit_and raw 0x80 ≡ bit 7 raw * 2 ^ 7 = bit_and_pow 7 raw in ground (arith, top)

-- The hour of a 12-hour clock in digits.
twelve :
    (hour : ℕ)
    → hour < 24
    → hour_24 (held_hour true false hour) (bcd2bin (bit_and (held_hour true false hour) 0x7F))
      ≡ hour
unfolding hour_24
twelve hour lt =
    let raw = held_hour true false hour in
    let twelfth : ℕ = (hour + 11) % 12 + 1 in
    let digits : bit_and raw 0x7F ≡ bcd ((hour + 11) % 12 + 1) =
      ground (arith, bit_and_low 7 raw) in
    let small = bcd2bin-bcd ((hour + 11) % 12 + 1) (omega arith) in
    let pm = afternoon raw (ground arith) in simp (digits, small, pm) (ground arith)

-- The hour of a 12-hour clock in binary, in the afternoon: the top bit stays.
binary_afternoon :
    (hour : ℕ)
    → 12 ≤ hour
    → hour < 24
    → hour_24 (held_hour false false hour) (held_hour false false hour) ≡ held_hour false false hour
unfolding hour_24
binary_afternoon hour lo lt =
    let pm = afternoon (held_hour false false hour) (ground arith) in simp pm (ground arith)

same_time :
    (t : RtcTime) (second minute hour weekday day month year : ℕ)
    → second ≡ t.second
    → minute ≡ t.minute
    → hour ≡ t.hour
    → weekday ≡ t.weekday
    → day ≡ t.day
    → month ≡ t.month
    → year ≡ t.year
    → record {
      second = second;
      minute = minute;
      hour = hour;
      weekday = weekday;
      day = day;
      month = month;
      year = year;
    }
      ≡ t
same_time t s m h w d n y a b c e f g k = λ i. record {
  second = a i;
  minute = b i;
  hour = c i;
  weekday = e i;
  day = f i;
  month = g i;
  year = k i;
}

-- A clock in digits, whatever its hours are.
in_digits :
    (t : RtcTime) (hour : ℕ)
    → IsDate t
    → hour ≡ t.hour
    → record {
      second = bcd2bin (bcd t.second);
      minute = bcd2bin (bcd t.minute);
      hour = hour;
      weekday = bcd2bin (bcd t.weekday);
      day = bcd2bin (bcd t.day);
      month = bcd2bin (bcd t.month);
      year = u16 (2000 + bcd2bin (u8 (bcd (t.year % 100))));
    }
      ≡ t
in_digits t hour v e =
    let fits : u8 (bcd (t.year % 100)) ≡ bcd (t.year % 100) = omega arith in
    let year = ap bcd2bin fits ∙ bcd2bin-bcd (t.year % 100) (omega arith) in
    same_time t _ _ hour _ _ _ _ (bcd2bin-bcd t.second (omega (arith, v.second_in)))
      (bcd2bin-bcd t.minute (omega (arith, v.minute_in))) e
      (bcd2bin-bcd t.weekday (omega (arith, v.weekday_in)))
      (bcd2bin-bcd t.day (omega (arith, v.day_in)))
      (bcd2bin-bcd t.month (omega (arith, v.month_in))) (omega (arith, year, v.year_in))

-- A clock that shows a date of this century, with 24 hours or in decimal digits, is read as that
-- date: the modes cancel out.
pub rtc_get_time-registers :
    (digits full : Bool) (t : RtcTime)
    → IsDate t
    → (digits || full) ≡ true
    → rtc_get_time (registers digits full t) (registers digits full t) ≡ t
unfolding rtc_get_time from_bcd full_year
rtc_get_time-registers true true t v ok =
    let low : bit_and (bcd t.hour) 0x7F ≡ bcd t.hour =
      omega (arith, bit_and_low 7 (bcd t.hour), v.hour_in) in
    in_digits t (bcd2bin (bit_and (bcd t.hour) 0x7F)) v
      (ap bcd2bin low ∙ bcd2bin-bcd t.hour (omega (arith, v.hour_in)))
rtc_get_time-registers true false t v ok =
    in_digits t
      (hour_24 (held_hour true false t.hour) (bcd2bin (bit_and (held_hour true false t.hour) 0x7F)))
      v (twelve t.hour v.hour_in)
rtc_get_time-registers false true t v ok =
    same_time t t.second t.minute t.hour t.weekday t.day t.month (u16 (2000 + t.year % 100)) refl
      refl refl refl refl refl (omega (arith, v.year_in))
rtc_get_time-registers false false t v ok = absurd (ground arith)

-- A binary clock of 12 hours is misread in the afternoon: the hour keeps its top bit, and is 128
-- more than the hour of twelve.
pub rtc_get_time-afternoon :
    (t : RtcTime)
    → 12 ≤ t.hour
    → t.hour < 24
    → (rtc_get_time (registers false false t) (registers false false t)).hour
      ≡ (t.hour + 11) % 12 + 1 + 128
unfolding rtc_get_time
rtc_get_time-afternoon t lo lt = binary_afternoon t.hour lo lt ∙ ground arith
