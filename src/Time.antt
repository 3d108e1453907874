-- ===== src/Time.antt =====
-- `gmt_mktime` and `isLeapYear` of ftp/ftp.c (under src/): the seconds since 1970 of a UTC time.
-- `time_t` is wide enough; the products in `int` stay below 2^31 for the years that are let through.
pub mod Civil
pub mod Calendar
use yafc.Base.{
  ℤ, pos, negsuc, ℕ, zero, suc, ◌+◌, ◌-◌, ◌*◌, ◌%◌, Bool, not, ◌&&◌, ◌||◌, Option, none, some, List,
  [], ◌∷◌, ltb, ◌==◌, if◌then◌else◌, get_or,
}

-- The fields of a `struct tm` are signed.
pub record Tm : Type 0 where
  pub tm_year : ℤ
  pub tm_mon : ℤ
  pub tm_mday : ℤ
  pub tm_hour : ℤ
  pub tm_min : ℤ
  pub tm_sec : ℤ

infixl 5 ◌>>=◌
abbrev pub ◌>>=◌ : Option ℕ → (ℕ → Option ℕ) → Option ℕ
none >>= f = none
some a >>= f = f a

-- The guards `x < lo || x > hi`: the field as a number, if it passes.
unfoldable pub range : ℕ → ℕ → ℤ → Option ℕ
range lo hi (pos n) = if ltb n lo || ltb hi n then none else some n
range lo hi (negsuc n) = none

unfoldable pub is_leap_year : ℕ → Bool
is_leap_year y = (y % 4 == 0 && not (y % 100 == 0)) || y % 400 == 0

abbrev pub secs_min : ℕ
secs_min = 60

abbrev pub secs_hour : ℕ
secs_hour = 3600

abbrev pub secs_day : ℕ
secs_day = 86400

abbrev pub secs_year : ℕ
secs_year = 31536000

abbrev pub days_per_month : List ℕ
days_per_month = 31 ∷ 28 ∷ 31 ∷ 30 ∷ 31 ∷ 30 ∷ 31 ∷ 31 ∷ 30 ∷ 31 ∷ 30 ∷ 31 ∷ []

abbrev pub leap_days_per_month : List ℕ
leap_days_per_month = 31 ∷ 29 ∷ 31 ∷ 30 ∷ 31 ∷ 30 ∷ 31 ∷ 31 ∷ 30 ∷ 31 ∷ 30 ∷ 31 ∷ []

unfoldable pub max_days_in_month : ℕ → List ℕ
max_days_in_month y = if is_leap_year y then leap_days_per_month else days_per_month

-- for (y = 1970; y < tm_year + 1900; ++y), by the rounds that are left
unfoldable pub leap_seconds : ℕ → ℕ → ℕ
leap_seconds zero y = 0
leap_seconds (suc rounds) y = (if is_leap_year y then secs_day else 0) + leap_seconds rounds (y + 1)

-- for (m = 0; m < tm_mon; ++m)
unfoldable pub month_seconds : ℕ → List ℕ → ℕ
month_seconds zero days = 0
month_seconds (suc m) [] = 0
month_seconds (suc m) (d ∷ days) = d * secs_day + month_seconds m days

-- The sums behind the guards; `y` is `tm_year`.
unfoldable pub gmt_sum : ℕ → ℕ → ℕ → ℕ → ℕ → ℕ → ℕ
gmt_sum y mon mday hour min sec =
    (y - 70) * secs_year
    + leap_seconds (y + 1900 - 1970) 1970
    + month_seconds mon (max_days_in_month (y + 1900))
    + (mday - 1) * secs_day
    + hour * secs_hour
    + min * secs_min
    + sec

-- `none` is the -1 of a date that is refused.
unfoldable pub gmt_mktime : Tm → Option ℕ
unfolding range
gmt_mktime ts = do
  y ← range 70 138 ts.tm_year
  mon ← range 0 11 ts.tm_mon
  mday ← range 1 (get_or (max_days_in_month (y + 1900)) mon 0) ts.tm_mday
  hour ← range 0 23 ts.tm_hour
  min ← range 0 59 ts.tm_min
  sec ← range 0 59 ts.tm_sec
  some (gmt_sum y mon mday hour min sec)
