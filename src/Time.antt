-- ===== src/Time.antt =====
-- Dates and times of directory entries: embedded-fatfs/src/time.rs. Fields are u16. An expression
-- that would overflow is given its wrapped value.
pub mod RoundTrip
pub mod Times
use embedded_fatfs.Base.{ℕ, ◌+◌, ◌-◌, ◌*◌, ◌/◌, ◌%◌, ◌^◌, bit_and, bit_or, leb, ◌&&◌, Option}
use embedded_fatfs.Base.{none, some, if◌then◌else◌}
use embedded_fatfs.Base.Bits.{◌>>>◌, ◌<<<◌}

abbrev pub min_year : ℕ
min_year = 1980

abbrev pub max_year : ℕ
max_year = 2107

pub record Date : Type 0 where
  pub year : ℕ
  pub month : ℕ
  pub day : ℕ

pub record Time : Type 0 where
  pub hour : ℕ
  pub min : ℕ
  pub sec : ℕ
  pub millis : ℕ

pub record DateTime : Type 0 where
  pub date : Date
  pub time : Time

abbrev pub date : ℕ → ℕ → ℕ → Date
date year month day = record { year = year; month = month; day = day }

abbrev pub time : ℕ → ℕ → ℕ → ℕ → Time
time hour min sec millis = record { hour = hour; min = min; sec = sec; millis = millis }

-- `Date::new` and `Time::new`; `none` is the panic of a failed assertion.
unfoldable pub new_date : ℕ → ℕ → ℕ → Option Date
new_date year month day =
    if (leb min_year year && leb year max_year)
      && (leb 1 month && leb month 12)
      && (leb 1 day && leb day 31)
    then some (date year month day)
    else none

unfoldable pub new_time : ℕ → ℕ → ℕ → ℕ → Option Time
new_time hour min sec millis =
    if leb hour 23 && leb min 59 && leb sec 59 && leb millis 999
    then some (time hour min sec millis)
    else none

unfoldable pub decode_date : ℕ → Date
decode_date dos_date =
    date ((dos_date >>> 9) + min_year) (bit_and (dos_date >>> 5) 0xF) (bit_and dos_date 0x1F)

unfoldable pub encode_date : Date → ℕ
encode_date d =
    bit_or
      (bit_or (((d.year + 2 ^ 16 - min_year) % 2 ^ 16 <<< 9) % 2 ^ 16) ((d.month <<< 5) % 2 ^ 16))
      d.day

unfoldable pub decode_time : ℕ → ℕ → Time
decode_time dos_time dos_time_hi_res =
    time (dos_time >>> 11) (bit_and (dos_time >>> 5) 0x3F)
      (bit_and dos_time 0x1F * 2 + dos_time_hi_res / 100) (dos_time_hi_res % 100 * 10)

unfoldable pub encode_time : Time → ℕ × ℕ
encode_time t = (
  bit_or (bit_or ((t.hour <<< 11) % 2 ^ 16) ((t.min <<< 5) % 2 ^ 16)) (t.sec / 2),
  (t.millis / 10 + t.sec % 2 * 100) % 2 ^ 16 % 2 ^ 8,
)

unfoldable pub decode_date_time : ℕ → ℕ → ℕ → DateTime
decode_date_time dos_date dos_time dos_time_hi_res = record {
  date = decode_date dos_date;
  time = decode_time dos_time dos_time_hi_res;
}
