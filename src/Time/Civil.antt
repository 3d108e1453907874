-- ===== src/Time/Civil.antt =====
-- The Gregorian calendar by steps of a second, and the tables of months of `gmt_mktime` of ftp/ftp.c
-- (under src/).
use yafc.Base.{
  ◌%◌, Bool, true, false, ◌==◌, ◌||◌, pos, ℕ, zero, suc, ◌+◌, ◌≤◌, ◌<◌, ◌≡◌, refl, ap, ◌∙◌, inl,
  inr, List, [], ◌∷◌, arith, ltb, if◌then◌else◌, ltb→lt, Bool-cases, length, get_or, All,
}
use yafc.Time.{days_per_month, leap_days_per_month, Tm, is_leap_year, max_days_in_month}

-- A date and time of the calendar, with the year counted from 1900.
pub record Civil : Type 0 where
  pub year : ℕ
  pub mon : ℕ
  pub mday : ℕ
  pub hour : ℕ
  pub min : ℕ
  pub sec : ℕ

abbrev pub to_tm : Civil → Tm
to_tm c = record {
  tm_year = pos c.year;
  tm_mon = pos c.mon;
  tm_mday = pos c.mday;
  tm_hour = pos c.hour;
  tm_min = pos c.min;
  tm_sec = pos c.sec;
}

-- The Gregorian rule, and the lengths of the months counted from 0.
abbrev pub is_gregorian_leap : ℕ → Bool
is_gregorian_leap y = if y % 400 == 0 then true else if y % 100 == 0 then false else y % 4 == 0

abbrev pub month_days_of : Bool → ℕ → ℕ
month_days_of leap mon =
    if mon == 1
    then (if leap then 29 else 28)
    else if mon == 3 || mon == 5 || mon == 8 || mon == 10
    then 30
    else 31

abbrev pub month_days : ℕ → ℕ → ℕ
month_days year mon = month_days_of (is_gregorian_leap (year + 1900)) mon

pub record IsDate (c : Civil) : Type 0 where
  pub years : (70 ≤ c.year) × (c.year ≤ 138)
  pub months : c.mon ≤ 11
  pub days : (1 ≤ c.mday) × (c.mday ≤ month_days c.year c.mon)
  pub hours : c.hour ≤ 23
  pub mins : c.min ≤ 59
  pub secs : c.sec ≤ 59

abbrev pub epoch : Civil
epoch = record { year = 70; mon = 0; mday = 1; hour = 0; min = 0; sec = 0 }

-- The next second: each field that is full starts again and carries.
abbrev pub next_year : Civil → Civil
next_year c = record { year = c.year + 1; mon = 0; mday = 1; hour = 0; min = 0; sec = 0 }

abbrev pub next_month : Civil → Civil
next_month c =
    if ltb c.mon 11
    then record c { mon = c.mon + 1; mday = 1; hour = 0; min = 0; sec = 0 }
    else next_year c

abbrev pub next_day : Civil → Civil
next_day c =
    if ltb c.mday (month_days c.year c.mon)
    then record c { mday = c.mday + 1; hour = 0; min = 0; sec = 0 }
    else next_month c

abbrev pub next_second : Civil → Civil
next_second c =
    if ltb c.sec 59
    then record c { sec = c.sec + 1 }
    else if ltb c.min 59
    then record c { min = c.min + 1; sec = 0 }
    else if ltb c.hour 23
    then record c { hour = c.hour + 1; min = 0; sec = 0 }
    else next_day c

abbrev pub month_length : ℕ → ℕ → ℕ
month_length year mon = get_or (max_days_in_month (year + 1900)) mon 0

get_or-pos : (m : ℕ) (days : List ℕ) → m < length days → All (λ d. 1 ≤ d) days → 1 ≤ get_or days m 0
get_or-pos m [] h k = absurd (omega arith)
get_or-pos zero (d ∷ days) h k = k.0
get_or-pos (suc m) (d ∷ days) h k = get_or-pos m days (omega arith) k.1

-- Twelve months, none of them empty.
pub max_days-months :
    (y : ℕ) → (length (max_days_in_month y) ≡ 12) × All (λ d. 1 ≤ d) (max_days_in_month y)
unfolding max_days_in_month
max_days-months y = elim (Bool-cases (is_leap_year y)) [
  | inl e ↦ rw e (refl, omega arith)
  | inr e ↦ rw e (refl, omega arith)
]

pub month_length-pos : (year mon : ℕ) → mon ≤ 11 → 1 ≤ month_length year mon
month_length-pos year mon h =
    let months = max_days-months (year + 1900) in
    get_or-pos mon _ (omega (arith, months.0)) months.1

pub leap-gregorian : (y : ℕ) → is_leap_year y ≡ is_gregorian_leap y
unfolding is_leap_year
leap-gregorian y = ground arith

-- A predicate at each number below a bound, and then at any of them.
abbrev Each : (ℕ → Type 0) → ℕ → Type 0
Each P zero = Unit
Each P (suc n) = P n × Each P n

each-lt : (P : ℕ → Type 0) (n m : ℕ) → Each P n → m < n → P m
each-lt P zero m h k = absurd (omega arith)
each-lt P (suc n) m h k = elim (Bool-cases (ltb m n)) [
  | inl e ↦ each-lt P n m h.1 (ltb→lt m n e)
  | inr e ↦ let same : m ≡ n = ground arith in rw same h.0
]

abbrev InTable : Bool → ℕ → Type 0
InTable leap mon =
    get_or (if leap then leap_days_per_month else days_per_month) mon 0 ≡ month_days_of leap mon

in_table : (leap : Bool) → Each (InTable leap) 12
in_table true = (
  refl,
  (refl, (refl, (refl, (refl, (refl, (refl, (refl, (refl, (refl, (refl, (refl, tt))))))))))),
)
in_table false = (
  refl,
  (refl, (refl, (refl, (refl, (refl, (refl, (refl, (refl, (refl, (refl, (refl, tt))))))))))),
)

-- The tables hold the lengths of the months.
pub month_length-days : (year mon : ℕ) → mon ≤ 11 → month_length year mon ≡ month_days year mon
unfolding max_days_in_month
month_length-days year mon h =
    let leap = is_leap_year (year + 1900) in
    each-lt (InTable leap) 12 mon (in_table leap) (omega arith)
    ∙ ap (λ b. month_days_of b mon) (leap-gregorian (year + 1900))

pub month_days-pos : (year mon : ℕ) → mon ≤ 11 → 1 ≤ month_days year mon
month_days-pos year mon h = rw (← month_length-days year mon h) (month_length-pos year mon h)
