-- ===== src/Cstd/Time/Examples.antt =====
-- `mktime` at the first of March 2012, a leap year.
use frosk.Prelude.{◌≡◌, refl}
use frosk.Cstd.Time.{Tm, isleapyear, add_years, mktime}

abbrev march : Tm
march = record { tm_sec = 5; tm_min = 4; tm_hour = 3; tm_year = 2012; tm_yday = 60 }

march_seconds : mktime march ≡ 1330571045
unfolding mktime add_years isleapyear
march_seconds = refl
