-- ===== src/Cstd/Time/Days.antt =====
-- `mktime` counts the seconds of the Gregorian calendar.
use frosk.Prelude.{
  ℕ, zero, suc, ◌+◌, ◌-◌, ◌*◌, ◌/◌, ◌%◌, ◌^◌, ◌≤◌, ◌<◌, ◌≡◌, refl, ap, if◌then◌else◌, arith,
  Bool-cases, inl, inr,
}
use frosk.Cstd.Time.{Tm, isleapyear, add_years, mktime}

-- leap years before year y
abbrev pub leaps : ℕ → ℕ
leaps y = (y + 3) / 4 - (y + 99) / 100 + (y + 399) / 400

-- days from the first of January 1970 to that of year y
unfoldable pub days_to : ℕ → ℕ
days_to y = 365 * (y - 1970) + (leaps y - leaps 1970)

leaps_suc : (y : ℕ) → leaps (y + 1) ≡ leaps y + (if isleapyear y then 1 else 0)
unfolding isleapyear
leaps_suc y = ground arith

days_to_suc :
    (y : ℕ) → 1970 ≤ y → days_to (y + 1) ≡ days_to y + 365 + (if isleapyear y then 1 else 0)
unfolding isleapyear days_to
days_to_suc y h = ground (arith, leaps_suc y)

days_to-lt : (y : ℕ) → y < 2 ^ 31 → days_to y < 2 ^ 41
unfolding days_to
days_to-lt y h = omega arith

wrap_year :
    (d d' l : ℕ)
    → d < 2 ^ 41
    → l ≤ 1
    → d' ≡ d + 365 + l
    → ((86400 * d + 365 * 24 * 60 * 60) % 2 ^ 64 + l * (24 * 60 * 60)) % 2 ^ 64 ≡ 86400 * d'
wrap_year d d' l small le e = omega arith

add_years_step :
    (i : ℕ)
    → 1970 ≤ i
    → i < 2 ^ 31
    → (let t' = (86400 * days_to i + 365 * 24 * 60 * 60) % 2 ^ 64 in
        if isleapyear i then (t' + 24 * 60 * 60) % 2 ^ 64 else t')
      ≡ 86400 * days_to (i + 1)
add_years_step i h small = elim (Bool-cases (isleapyear i)) [
  | inl l ↦
      let s = rw l at (days_to_suc i h) in
      rw l (wrap_year (days_to i) (days_to (i + 1)) 1 (days_to-lt i small) (omega arith) s)
  | inr l ↦
      let s = rw l at (days_to_suc i h) in
      let w = wrap_year (days_to i) (days_to (i + 1)) 0 (days_to-lt i small) (omega arith) s in
      rw l (omega (arith, w))
]

add_years_lem :
    (left i : ℕ)
    → 1970 ≤ i
    → i + left < 2 ^ 31
    → add_years left i (86400 * days_to i) ≡ 86400 * days_to (i + left)
unfolding add_years
add_years_lem zero i h small = ap (λ y. 86400 * days_to y) (omega arith)
add_years_lem (suc left) i h small =
    let e : i + suc left ≡ i + 1 + left = omega arith in
    rw (add_years_step i h (omega arith), e)
      (add_years_lem left (i + 1) (omega arith) (omega arith))

-- For a year from 1970 on, and a day of the year, an hour, a minute and a second whose `int`
-- products do not overflow, `mktime` gives the seconds from the start of 1970: those of the whole days, counted
-- by the Gregorian rule for leap years, and those of the day.
pub mktime_lem :
    (tm : Tm)
    → 1970 ≤ tm.tm_year
    → tm.tm_year < 2 ^ 31
    → tm.tm_yday * 24 * 60 * 60 < 2 ^ 31
    → tm.tm_hour * 60 * 60 < 2 ^ 31
    → tm.tm_min * 60 < 2 ^ 31
    → tm.tm_sec < 2 ^ 31
    → mktime tm
      ≡ 86400 * (days_to tm.tm_year + tm.tm_yday) + 3600 * tm.tm_hour + 60 * tm.tm_min + tm.tm_sec
unfolding mktime
mktime_lem tm h y d hh mm ss =
    let e : 1970 + (tm.tm_year - 1970) ≡ tm.tm_year = omega arith in
    let start : 86400 * days_to 1970 ≡ 0 = unfold days_to in refl in
    let run : add_years (tm.tm_year - 1970) 1970 0 ≡ 86400 * days_to tm.tm_year =
      rw (start, e) at (add_years_lem (tm.tm_year - 1970) 1970 (omega arith) (omega arith)) in
    omega (arith, run, days_to-lt tm.tm_year y)
