-- ===== src/Examples/Calendar.antt =====
-- Dates and times of a directory entry.
use embedded_fatfs.Base.{◌≡◌, refl, some}
use embedded_fatfs.Time.{Date, Time, date, time, new_date, new_time}

abbrev some_date : Date
some_date = date 2024 2 29

abbrev some_time : Time
some_time = time 23 59 57 990

some_date-made : new_date 2024 2 29 ≡ some some_date
unfolding new_date
some_date-made = refl

some_time-made : new_time 23 59 57 990 ≡ some some_time
unfolding new_time
some_time-made = refl
