-- ===== src/Time/RoundTrip.antt =====
-- The packed words of dates and times carry what they are made of.
use embedded_fatfs.Base.{ℕ, ◌+◌, ◌-◌, ◌*◌, ◌/◌, ◌%◌, ◌^◌, ◌≤◌, ◌<◌, ◌≡◌, arith}
use embedded_fatfs.Base.{bit_or, some}
use embedded_fatfs.Base.Bits.{bit_and_mask, bit_or_high}
use embedded_fatfs.Base.Bytes.{IsU16}
use embedded_fatfs.Time.{Date, Time, date, time, min_year, max_year, new_date, new_time}
use embedded_fatfs.Time.{decode_date, encode_date, decode_time, encode_time}

-- A date of the calendar of DOS, by the bits that it has.
pub record FitsDate (d : Date) : Type 0 where
  pub first : min_year ≤ d.year
  pub last : d.year ≤ max_year
  pub month : d.month < 16
  pub day : d.day < 32

pub record FitsTime (t : Time) : Type 0 where
  pub hour : t.hour < 32
  pub min : t.min < 64
  pub sec : t.sec < 64
  pub millis : t.millis < 1000

date_word :
    (y m d : ℕ) → m < 16 → d < 32 → bit_or (bit_or (y * 2 ^ 9) (m * 2 ^ 5)) d ≡ y * 512 + m * 32 + d
date_word y m d hm hd =
    ground (arith, bit_or_high 9 y (m * 2 ^ 5), bit_or_high 5 (y * 16 + m) d, regroup)
  where
    regroup : y * 2 ^ 9 + m * 2 ^ 5 ≡ (y * 16 + m) * 2 ^ 5
    regroup = omega arith

pub time_word :
    (h m s : ℕ)
    → m < 64
    → s < 32
    → bit_or (bit_or (h * 2 ^ 11) (m * 2 ^ 5)) s ≡ h * 2048 + m * 32 + s
time_word h m s hm hs =
    ground (arith, bit_or_high 11 h (m * 2 ^ 5), bit_or_high 5 (h * 64 + m) s, regroup)
  where
    regroup : h * 2 ^ 11 + m * 2 ^ 5 ≡ (h * 64 + m) * 2 ^ 5
    regroup = omega arith

encode_date-word :
    (d : Date) → FitsDate d → encode_date d ≡ (d.year - min_year) * 512 + d.month * 32 + d.day
unfolding encode_date
encode_date-word d h =
    ground (arith, date_word (d.year - min_year) d.month d.day, year, year_shift, month_shift)
  where
    year : (d.year + 2 ^ 16 - min_year) % 2 ^ 16 ≡ d.year - min_year
    year = omega (arith, h.first, h.last)

    year_shift : (d.year - min_year) * 2 ^ 9 % 2 ^ 16 ≡ (d.year - min_year) * 2 ^ 9
    year_shift = omega (arith, h.first, h.last)

    month_shift : d.month * 2 ^ 5 % 2 ^ 16 ≡ d.month * 2 ^ 5
    month_shift = omega (arith, h.month)

-- A date with a year from 1980 to 2107, a month below 16 and a day below 32 is the decoding of
-- its encoding.
pub decode_date-encode_date : (d : Date) → FitsDate d → decode_date (encode_date d) ≡ d
unfolding decode_date
decode_date-encode_date d h = rw (encode_date-word d h) (
    let w = (d.year - min_year) * 512 + d.month * 32 + d.day in
    ground (arith, bit_and_mask 4 (w / 2 ^ 5), bit_and_mask 5 w))

-- Every 16-bit word is the encoding of its decoding as a date.
pub encode_date-decode_date : (w : ℕ) → IsU16 w → encode_date (decode_date w) ≡ w
unfolding decode_date
encode_date-decode_date w h = ground (
  arith,
  bit_and_mask 4 (w / 2 ^ 5),
  bit_and_mask 5 w,
  encode_date-word (date (w / 2 ^ 9 + min_year) (w / 2 ^ 5 % 2 ^ 4) (w % 2 ^ 5)),
)

-- A date that Date::new accepts has a year from 1980 to 2107, a month below 16 and a day below
-- 32.
pub new_date-FitsDate : (y m d : ℕ) {x : Date} → new_date y m d ≡ some x → FitsDate x
unfolding new_date
new_date-FitsDate y m d h = ground arith

-- A time that Time::new accepts has an hour below 32, minutes and seconds below 64 and
-- milliseconds below 1000.
pub new_time-FitsTime : (h m s u : ℕ) {x : Time} → new_time h m s u ≡ some x → FitsTime x
unfolding new_time
new_time-FitsTime h m s u e = ground arith

-- A time with its milliseconds cut to hundredths of a second.
abbrev pub to_hundredths : Time → Time
to_hundredths t = record t { millis = t.millis / 10 * 10 }

encode_time-words :
    (t : Time)
    → FitsTime t
    → encode_time t ≡ (t.hour * 2048 + t.min * 32 + t.sec / 2, t.millis / 10 + t.sec % 2 * 100)
unfolding encode_time
encode_time-words t h =
    ground (arith, time_word t.hour t.min (t.sec / 2), hour_shift, min_shift, low, h.min, h.sec)
  where
    hour_shift : t.hour * 2 ^ 11 % 2 ^ 16 ≡ t.hour * 2 ^ 11
    hour_shift = omega (arith, h.hour)

    min_shift : t.min * 2 ^ 5 % 2 ^ 16 ≡ t.min * 2 ^ 5
    min_shift = omega (arith, h.min)

    low : (t.millis / 10 + t.sec % 2 * 100) % 2 ^ 16 % 2 ^ 8 ≡ t.millis / 10 + t.sec % 2 * 100
    low = omega (arith, h.millis)

-- Decoding an encoded time gives it back to a hundredth of a second, for a time with an hour
-- below 32, minutes and seconds below 64 and milliseconds below 1000.
pub decode_time-encode_time :
    (t : Time) → FitsTime t → decode_time (encode_time t).0 (encode_time t).1 ≡ to_hundredths t
unfolding decode_time
decode_time-encode_time t h = rw (encode_time-words t h) (
    let w = t.hour * 2048 + t.min * 32 + t.sec / 2 in
    ground (arith, bit_and_mask 6 (w / 2 ^ 5), bit_and_mask 5 w, h.min, h.sec, h.millis))

-- Encoding a decoded time gives back the 16-bit word and the hundredths, if the hundredths are
-- below 200.
pub encode_time-decode_time :
    (w hi : ℕ) → IsU16 w → hi < 200 → encode_time (decode_time w hi) ≡ (w, hi)
unfolding decode_time
encode_time-decode_time w hi h hh = ground (
  arith,
  bit_and_mask 6 (w / 2 ^ 5),
  bit_and_mask 5 w,
  encode_time-words
      (time (w / 2 ^ 11) (w / 2 ^ 5 % 2 ^ 6) (w % 2 ^ 5 * 2 + hi / 100) (hi % 100 * 10)),
)
