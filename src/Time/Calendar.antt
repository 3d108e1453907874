-- ===== src/Time/Calendar.antt =====
-- `gmt_mktime` of ftp/ftp.c (under src/) on the dates of the calendar.
use yafc.Base.{
  sym, ℕ, zero, suc, ◌+◌, ◌-◌, ◌*◌, ◌≤◌, ◌<◌, ◌≡◌, refl, ap, ◌∙◌, inl, inr, some, List, [], ◌∷◌,
  arith, ltb, if◌then◌else◌, ltb→lt, Bool-cases, length, get_or,
}
use yafc.Time.{
  is_leap_year, secs_day, secs_year, max_days_in_month, leap_seconds, month_seconds, gmt_sum,
  gmt_mktime,
}
use yafc.Time.Civil.{
  Civil, to_tm, month_days, IsDate, epoch, next_month, next_day, next_second, month_length,
  max_days-months, month_length-pos, month_length-days, month_days-pos,
}

abbrev sum_of : Civil → ℕ
sum_of c = gmt_sum c.year c.mon c.mday c.hour c.min c.sec

leap_seconds-suc :
    (n y : ℕ)
    → leap_seconds (n + 1) y ≡ leap_seconds n y + (if is_leap_year (y + n) then secs_day else 0)
unfolding leap_seconds
leap_seconds-suc zero y = let e : y + 0 ≡ y = omega arith in rw e (omega arith)
leap_seconds-suc (suc n) y =
    let e : suc n + 1 ≡ suc (n + 1) = omega arith in
    let e' : y + suc n ≡ y + 1 + n = omega arith in
    rw (e, e') (omega (arith, leap_seconds-suc n (y + 1)))

month_seconds-zero : (days : List ℕ) → month_seconds 0 days ≡ 0
month_seconds-zero days = unfold month_seconds in refl

month_seconds-suc :
    (m : ℕ) (days : List ℕ)
    → m < length days
    → month_seconds (m + 1) days ≡ month_seconds m days + get_or days m 0 * secs_day
unfolding month_seconds
month_seconds-suc m [] h = absurd (omega arith)
month_seconds-suc zero (d ∷ days) h = omega arith
month_seconds-suc (suc m) (d ∷ days) h =
    let e : suc m + 1 ≡ suc (m + 1) = omega arith in
    rw e (omega (arith, month_seconds-suc m days (omega arith)))

-- Every date of the calendar is let through.
gmt_mktime-IsDate : (c : Civil) → IsDate c → gmt_mktime (to_tm c) ≡ some (sum_of c)
unfolding gmt_mktime
gmt_mktime-IsDate c d = ground (arith, month_length-days c.year c.mon d.months)

year-seconds :
    (y : ℕ)
    → month_seconds 11 (max_days_in_month y) + get_or (max_days_in_month y) 11 0 * secs_day
      ≡ secs_year + (if is_leap_year y then secs_day else 0)
unfolding max_days_in_month month_seconds
year-seconds y = ground arith

-- The last second of a day, of a month and of a year, and the second behind it.
sum-next_year :
    (y : ℕ) → 70 ≤ y → gmt_sum (y + 1) 0 1 0 0 0 ≡ gmt_sum y 11 (month_length y 11) 23 59 59 + 1
unfolding gmt_sum
sum-next_year y h =
    let e : y + 1 + 1900 - 1970 ≡ y + 1900 - 1970 + 1 = omega arith in
    let e' : 1970 + (y + 1900 - 1970) ≡ y + 1900 = omega arith in
    let leap = rw e' at (leap_seconds-suc (y + 1900 - 1970) 1970) in
    rw e (
      omega (
        arith,
        leap,
        year-seconds (y + 1900),
        month_length-pos y 11 (omega arith),
        month_seconds-zero (max_days_in_month (y + 1 + 1900)),
      ))

sum-next_month :
    (y mon : ℕ)
    → mon < 11
    → gmt_sum y (mon + 1) 1 0 0 0 ≡ gmt_sum y mon (month_length y mon) 23 59 59 + 1
unfolding gmt_sum
sum-next_month y mon h = omega (
  arith,
  month_seconds-suc mon (max_days_in_month (y + 1900))
      (omega (arith, (max_days-months (y + 1900)).0)),
  month_length-pos y mon (omega arith),
)

-- One second on, the sum is one more.
Counts : Civil → Civil → Type 0
Counts c n = (sum_of n ≡ sum_of c + 1) × (n.year ≤ 138 → IsDate n)

next_month-Counts :
    (c : Civil)
    → IsDate c
    → c.mday ≡ month_days c.year c.mon
    → c.hour ≡ 23
    → c.min ≡ 59
    → c.sec ≡ 59
    → Counts c (next_month c)
unfolding Counts
next_month-Counts c d full eh em es =
    let ed = full ∙ sym (month_length-days c.year c.mon d.months) in
    elim (Bool-cases (ltb c.mon 11)) [
      | inl e ↦
          let lt = ltb→lt c.mon 11 e in
          rw e (
            rw (ed, eh, em, es) (sum-next_month c.year c.mon lt),
            λ h. record {
              years = d.years;
              months = omega arith;
              days = (omega arith, month_days-pos c.year (c.mon + 1) (omega arith));
              hours = omega arith;
              mins = omega arith;
              secs = omega arith;
            },
          )
      | inr e ↦
          let last : c.mon ≡ 11 = ground arith in
          rw e (
            rw (ed, eh, em, es, last) (sum-next_year c.year d.years.0),
            λ h. record {
              years = (omega arith, h);
              months = omega arith;
              days = (omega arith, month_days-pos (c.year + 1) 0 (omega arith));
              hours = omega arith;
              mins = omega arith;
              secs = omega arith;
            },
          )
    ]

next_day-Counts :
    (c : Civil) → IsDate c → c.hour ≡ 23 → c.min ≡ 59 → c.sec ≡ 59 → Counts c (next_day c)
unfolding Counts
next_day-Counts c d eh em es = elim (Bool-cases (ltb c.mday (month_days c.year c.mon))) [
  | inl e ↦
      let lt = ltb→lt c.mday (month_days c.year c.mon) e in
      rw e (unfold gmt_sum in omega arith, λ h. omega arith)
  | inr e ↦ rw e (next_month-Counts c d (ground arith) eh em es)
]

next_second-Counts : (c : Civil) → IsDate c → Counts c (next_second c)
unfolding Counts
next_second-Counts c d = elim (Bool-cases (ltb c.sec 59)) [
  | inl e ↦ let lt = ltb→lt _ _ e in rw e (unfold gmt_sum in omega arith, λ h. omega arith)
  | inr e ↦ rw e (carry (ground arith))
]
  where
    carry_hour :
        c.sec ≡ 59
        → c.min ≡ 59
        → Counts c
            (if ltb c.hour 23 then record c { hour = c.hour + 1; min = 0; sec = 0 } else next_day c)
    carry_hour es em = elim (Bool-cases (ltb c.hour 23)) [
      | inl e ↦ let lt = ltb→lt _ _ e in rw e (unfold gmt_sum in omega arith, λ h. omega arith)
      | inr e ↦ rw e (next_day-Counts c d (ground arith) em es)
    ]

    carry :
        c.sec ≡ 59
        → Counts c (
            if ltb c.min 59
            then record c { min = c.min + 1; sec = 0 }
            else if ltb c.hour 23
            then record c { hour = c.hour + 1; min = 0; sec = 0 }
            else next_day c)
    carry es = elim (Bool-cases (ltb c.min 59)) [
      | inl e ↦ let lt = ltb→lt _ _ e in rw e (unfold gmt_sum in omega arith, λ h. omega arith)
      | inr e ↦ rw e (carry_hour es (ground arith))
    ]

-- The epoch counts as 0.
pub gmt_mktime-epoch : gmt_mktime (to_tm epoch) ≡ some 0
unfolding gmt_mktime gmt_sum leap_seconds month_seconds max_days_in_month is_leap_year
gmt_mktime-epoch = refl

-- From each second of the Gregorian calendar to the next the count goes up by one, from 1970 to
-- the end of 2038.
pub gmt_mktime-next_second :
    (c : Civil)
    → IsDate c
    → (next_second c).year ≤ 138
    → (t : ℕ) × (gmt_mktime (to_tm c) ≡ some t)
      × (gmt_mktime (to_tm (next_second c)) ≡ some (t + 1))
unfolding Counts
gmt_mktime-next_second c d h =
    let step = next_second-Counts c d in
    (sum_of c, gmt_mktime-IsDate c d, gmt_mktime-IsDate (next_second c) (step.1 h) ∙ ap some step.0)
