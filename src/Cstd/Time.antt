-- ===== src/Cstd/Time.antt =====
-- lib/cstd/src/time.c: `mktime`, which reads the year and the day of the year. A `time_t` is a
-- 64-bit number; years and days are not negative, and no `int` product below overflows for a day
-- of the year.
pub mod Days
mod Examples
use frosk.Prelude.{
  ℕ, zero, suc, ◌+◌, ◌-◌, ◌*◌, ◌%◌, ◌^◌, Bool, true, false, not, ◌==◌, if◌then◌else◌,
}

pub record Tm : Type 0 where
  pub tm_sec : ℕ
  pub tm_min : ℕ
  pub tm_hour : ℕ
  pub tm_year : ℕ
  pub tm_yday : ℕ

unfoldable pub isleapyear : ℕ → Bool
isleapyear i =
    if not (i % 4 == 0)
    then false
    else if not (i % 100 == 0)
    then true
    else if not (i % 400 == 0)
    then false
    else true

-- the loop of `mktime` from year i on, with the years that are left
unfoldable pub add_years : ℕ → ℕ → ℕ → ℕ
add_years zero i t = t
add_years (suc left) i t =
    let t' = (t + 365 * 24 * 60 * 60) % 2 ^ 64 in
    add_years left (i + 1) (if isleapyear i then (t' + 24 * 60 * 60) % 2 ^ 64 else t')

unfoldable pub mktime : Tm → ℕ
mktime tm =
    let t = add_years (tm.tm_year - 1970) 1970 0 in
    (t + tm.tm_yday * 24 * 60 * 60 + tm.tm_hour * 60 * 60 + tm.tm_min * 60 + tm.tm_sec) % 2 ^ 64
