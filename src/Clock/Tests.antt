-- ===== src/Clock/Tests.antt =====
-- kernel/drivers/rtc.c on the last second of a year.
use dev_os.Prelude.{◌+◌, ◌%◌, ◌≡◌, refl, arith, true, false}
use dev_os.Clock.{RtcTime, rtc_get_time}
use dev_os.Clock.Decode.{IsDate, registers, rtc_get_time-registers, rtc_get_time-afternoon}

abbrev new_year : RtcTime
new_year = record {
  second = 59;
  minute = 59;
  hour = 23;
  weekday = 4;
  day = 31;
  month = 12;
  year = 2026;
}

new_year-IsDate : IsDate new_year
new_year-IsDate = record {
  second_in = omega arith;
  minute_in = omega arith;
  hour_in = omega arith;
  weekday_in = omega arith;
  day_in = omega arith;
  month_in = omega arith;
  year_in = (omega arith, omega arith);
}

rtc_get_time-registers_example :
    rtc_get_time (registers true false new_year) (registers true false new_year) ≡ new_year
rtc_get_time-registers_example = rtc_get_time-registers true false new_year new_year-IsDate refl

rtc_get_time-afternoon_example :
    (rtc_get_time (registers false false new_year) (registers false false new_year)).hour
    ≡ (new_year.hour + 11) % 12 + 1 + 128
rtc_get_time-afternoon_example = rtc_get_time-afternoon new_year (omega arith) (omega arith)
