-- ===== src/Rfile/Dates.antt =====
-- The dates of listings, of ftp/rfile.c (under src/): `month_number` and `rfile_parse_time`. The time,
-- the local calendar and `mktime` are parameters.
use yafc.Base.{
  ℕ, zero, suc, ◌+◌, ◌-◌, ◌*◌, ◌%◌, ◌^◌, Bool, true, false, Option, none, some, List, [], ◌∷◌, ltb,
  leb, ◌==◌, if◌then◌else◌, drop, Bytes, codes, is_space, is_digit, has, strcase_eq, ℤ, pos, negsuc,
  negate, digits_value, atoi,
}
use yafc.Url.Parse.{to_int}

abbrev pub month_name : List Bytes
month_name =
    codes "Jan"
    ∷ codes "Feb"
    ∷ codes "Mar"
    ∷ codes "Apr"
    ∷ codes "May"
    ∷ codes "Jun"
    ∷ codes "Jul"
    ∷ codes "Aug"
    ∷ codes "Sep"
    ∷ codes "Oct"
    ∷ codes "Nov"
    ∷ codes "Dec"
    ∷ []

unfoldable pub month_at : ℕ → Bytes → List Bytes → Option ℕ
month_at i str [] = none
month_at i str (m ∷ ms) = if strcase_eq str m then some i else month_at (i + 1) str ms

-- `none` stands for -1.
unfoldable pub month_number : Bytes → Option ℕ
month_number str = month_at 0 str month_name

-- struct tm
pub record Moment : Type 0 where
  pub tm_sec : ℤ
  pub tm_min : ℤ
  pub tm_hour : ℤ
  pub tm_mday : ℤ
  pub tm_mon : ℤ
  pub tm_year : ℤ
  pub tm_isdst : ℤ

-- time(), what `localtime` makes of it, and `mktime` with the fields that it leaves
pub record Clock : Type 0 where
  pub now : ℕ
  pub local_year : ℤ
  pub local_isdst : ℤ
  pub mktime : Moment → ℤ
  pub normal : Moment → Moment

-- A time_t of 64 bits.
unfoldable pub to_time : ℤ → ℕ
to_time (pos n) = n % 2 ^ 64
to_time (negsuc n) = 2 ^ 64 - (n + 1)

-- (time_t)-1
abbrev pub no_time : ℕ
no_time = 2 ^ 64 - 1

abbrev pub is_after : ℤ → ℕ → Bool
is_after (pos t) n = ltb n t
is_after (negsuc t) n = false

-- t < n - d
abbrev pub is_before : ℤ → ℕ → ℕ → Bool
is_before (pos t) n d = ltb (t + d) n
is_before (negsuc t) n d = ltb d (n + t + 1)

abbrev pub successor : ℤ → ℤ
successor (pos n) = pos (n + 1)
successor (negsuc zero) = pos 0
successor (negsuc (suc n)) = negsuc n

abbrev pub predecessor : ℤ → ℤ
predecessor (pos zero) = negsuc 0
predecessor (pos (suc n)) = pos n
predecessor (negsuc n) = negsuc (n + 1)

abbrev pub half_year : ℕ
half_year = 6 * 30 * 24 * 60 * 60

unfoldable pub skip_digits : Bytes → Bytes
skip_digits [] = []
skip_digits (c ∷ s) = if is_digit c then skip_digits s else c ∷ s

unfoldable pub starts_digit : Bytes → Bool
starts_digit [] = false
starts_digit (c ∷ s) = is_digit c

-- An unsigned long, which a minus sign negates; too much gives the greatest.
abbrev pub unsigned_value : Bool → ℕ → ℕ
unsigned_value minus n =
    if ltb n (2 ^ 64) then (if minus then (2 ^ 64 - n) % 2 ^ 64 else n) else 2 ^ 64 - 1

abbrev pub unsigned_from : Bool → Bytes → Option (ℤ × Bytes)
unsigned_from minus s =
    if starts_digit s
    then some (to_int (unsigned_value minus (digits_value 0 s)), skip_digits s)
    else none

-- strtoul in base 10, cut to an int, with what stands behind the number; `none` where there is none.
unfoldable pub strtoul : Bytes → Option (ℤ × Bytes)
strtoul [] = none
strtoul (c ∷ s) =
    if is_space c
    then strtoul s
    else if c == b'-'
    then unsigned_from true s
    else if c == b'+'
    then unsigned_from false s
    else unsigned_from false (c ∷ s)

-- u - 1900
unfoldable pub since_1900 : ℤ → ℤ
since_1900 (pos u) = if leb 1900 u then pos (u - 1900) else negate (1900 - u)
since_1900 (negsuc u) = negsuc (u + 1900)

module _ (k : Clock) where
  abbrev pub moment : ℤ → ℤ → ℤ → ℤ → ℤ → Moment
  moment min hour day mon year = record {
    tm_sec = pos 0;
    tm_min = min;
    tm_hour = hour;
    tm_mday = day;
    tm_mon = mon;
    tm_year = year;
    tm_isdst = k.local_isdst;
  }

  -- A date without a year is not newer than an hour and not older than half a year.
  unfoldable pub guessed_year : ℤ → ℤ → ℤ
  guessed_year tmp year =
      let before = if is_after tmp (k.now + 60 * 60) then predecessor year else year in
      if is_before tmp (k.now) half_year then successor before else before

  -- The first call of `mktime` sets the fields anew.
  abbrev pub guessed_time : Moment → ℕ
  guessed_time mt =
      let left = k.normal mt in
      to_time (k.mktime (record left { tm_year = guessed_year (k.mktime mt) (left.tm_year) }))

  -- HH:MM, of which the byte behind the hour is stepped over.
  unfoldable pub clock_time : ℤ → ℤ → Bytes → ℕ
  clock_time mon day y = elim (strtoul y) [
    | none ↦ no_time
    | some (hour, eh) ↦ elim (strtoul (drop 1 eh)) [
      | none ↦ no_time
      | some (min, em) ↦ guessed_time (moment min hour day mon (k.local_year))
    ]
  ]

  unfoldable pub year_time : ℤ → ℤ → Bytes → ℕ
  year_time mon day y = elim (strtoul y) [
    | none ↦ no_time
    | some (u, ey) ↦ to_time (k.mktime (moment (pos 0) (pos 0) day mon (since_1900 u)))
  ]

  -- The `mtime` that `rfile_parse_time` sets.
  unfoldable pub rfile_parse_time : Bytes → Bytes → Bytes → ℕ
  rfile_parse_time m d y = elim (month_number m) [
    | none ↦ no_time
    | some mon ↦
        if has y b':' then clock_time (pos mon) (atoi d) y else year_time (pos mon) (atoi d) y
  ]
