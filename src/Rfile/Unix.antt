-- ===== src/Rfile/Unix.antt =====
-- `rfile_parse_unix` of ftp/rfile.c (under src/): a line of `ls -l`. What a failed parse leaves in the
-- file is cleared by its caller, and left out.
pub mod Long
use yafc.Base.{decimal}
use yafc.Base.{
  ℕ, zero, suc, ◌+◌, ◌-◌, ◌*◌, ◌/◌, ◌%◌, ◌^◌, ◌≤◌, ◌<◌, ◌≡◌, refl, sym, ap, ◌∙◌, ◌≢◌, ◌↔◌, ◌⊎◌, inl,
  inr, Bool, true, false, not, ◌&&◌, ◌||◌, Option, none, some, List, [], ◌∷◌, ◌++◌, map, append-nil,
  append_assoc, arith, ltb, leb, ◌==◌, if◌then◌else◌, ltb→lt, lt→ltb, leb→le, le→leb, ==_iff,
  Bool-cases, Option-cases, some-eq, &&-true, ||-false, length, get_elem?, get_or, take, drop,
  is_nil, length-append, take-append-drop, length-take, length-drop, length-map, take-all, All,
  All-append, All-append_left, All-append_right, All-mono, Bytes, codes, IsChar, IsText, within,
  is_space, is_cntrl, is_digit, is_xdigit, to_lower, has, str_eq, starts_with, strcase_eq, split_at,
  split_last, c_string, xstrdup, xstrndup, str_eq_iff, c_string-IsText, has-ne, ℤ, pos, negsuc,
  negate, digits_value, atoi, strip_trailing_chars, take-append, drop-append, drop-drop, take-take,
  drop-all, drop-take, get_or-append,
}
use yafc.Strq.Scan.{strqsep}
use yafc.Url.Parse.{split_str, to_int}
use yafc.Rfile.File.{File, rfile_parse_colors}
use yafc.Rfile.Eplf.{strtoull, in_directory}
use yafc.Rfile.Dates.{
  Moment, Clock, month_name, month_number, to_time, no_time, is_after, is_before, half_year,
  predecessor, skip_digits, starts_digit, rfile_parse_time,
}

-- The results 0, 1 and -1, and a read outside of a string or an array.
pub data Parsed : Type 0 where
  parsed : File → Parsed
  skipped failed overrun : Parsed

-- NEXT_FIELD: the next word and what stands behind it go to `k`.
abbrev pub next_field : Bytes → (Bytes → Bytes → Parsed) → Parsed
next_field cf k = elim (strqsep b' ' cf) [
  | none ↦ failed
  | some (e, rest) ↦ if is_nil e then failed else k e rest
]

abbrev pub ends_in_comma : Bytes → Bool
ends_in_comma [] = false
ends_in_comma (c ∷ []) = c == b','
ends_in_comma (c ∷ d ∷ s) = ends_in_comma (d ∷ s)

-- A special device has another number before its date.
abbrev pub size_field : Bytes → (Bytes → Bytes → Parsed) → Parsed
size_field cf k = next_field cf (λ e rest. if ends_in_comma e then next_field rest k else k e rest)

-- saved_field
pub record Fields : Type 0 where
  pub field0 : Bytes
  pub field1 : Bytes
  pub field2 : Bytes
  pub field3 : Bytes
  pub field4 : Bytes

abbrev pub read_fields : Bytes → (Fields → Bytes → Parsed) → Parsed
read_fields cf k = next_field cf (λ a c1. next_field c1 (λ b c2. next_field c2 (λ c c3.
    size_field c3 (λ d c4.
      next_field c4
        (λ e c5. k (record { field0 = a; field1 = b; field2 = c; field3 = d; field4 = e }) c5)))))

-- A number of links, which is an unsigned int.
unfoldable pub links_of : Bytes → ℕ
links_of s = elim (atoi s) [ pos n ↦ n % 2 ^ 32 | negsuc n ↦ (2 ^ 32 - (n + 1) % 2 ^ 32) % 2 ^ 32 ]

-- "%2s", "%5s" and the like
abbrev pub spaces : ℕ → Bytes
spaces zero = []
spaces (suc n) = b' ' ∷ spaces n

unfoldable pub padded : ℕ → Bytes → Bytes
padded width s = spaces (width - length s) ++ s

abbrev pub linked : Option (Bytes × Bytes) → Bytes → File → File × Bytes
linked none cf f = (f, cf)
linked (some (name, target)) cf f = (record f { link = xstrdup target }, name)

abbrev pub is_month : Bytes → Bool
is_month s = elim (month_number s) [ none ↦ false | some i ↦ true ]

-- "%d", behind white space and with a sign; `none` where no number stands
unfoldable pub scan_int : Bytes → Option (ℤ × Bytes)
scan_int [] = none
scan_int (c ∷ s) =
    if is_space c
    then scan_int s
    else if starts_digit (c ∷ s)
    then some (pos (digits_value 0 (c ∷ s)), skip_digits (c ∷ s))
    else if (c == b'-' || c == b'+') && starts_digit s
    then some
        (if c == b'-' then negate (digits_value 0 s) else pos (digits_value 0 s), skip_digits s)
    else none

-- A byte of the format.
unfoldable pub scan_byte : ℕ → Bytes → Option Bytes
scan_byte c [] = none
scan_byte c (x ∷ s) = if x == c then some s else none

abbrev pub scan_next : ℕ → Option (ℤ × Bytes) → Option (ℤ × ℤ × Bytes)
scan_next c none = none
scan_next c (some (a, s)) = elim (scan_byte c s) [
  | none ↦ none
  | some t ↦ elim (scan_int t) [ none ↦ none | some (b, u) ↦ some (a, b, u) ]
]

-- "%d-%d-%d", where all three numbers are found
unfoldable pub scan_date : Bytes → Option (ℤ × ℤ × ℤ)
scan_date s = elim (scan_next b'-' (scan_int s)) [
  | none ↦ none
  | some (a, b, t) ↦ elim (scan_next b'-' (some (b, t))) [
    | none ↦ none
    | some (_, c, u) ↦ some (a, b, c)
  ]
]

abbrev pub behind_plus : Bytes → Bytes
behind_plus [] = []
behind_plus (c ∷ s) = if c == b'+' then s else c ∷ s

abbrev pub month_text : ℤ → Option Bytes
month_text (pos i) = get_elem? month_name i
month_text (negsuc i) = none

-- "%02d"
abbrev pub two_digits : ℤ → Bytes
two_digits n = let s = decimal n in if ltb (length s) 2 then b'0' ∷ s else s

-- "%d:%d" into `ih` and `imin`, which are 0 at first
unfoldable pub scan_clock : Bytes → ℤ × ℤ
scan_clock e = elim (scan_int e) [
  | none ↦ (pos 0, pos 0)
  | some (h, s) ↦ elim (scan_next b':' (some (h, s))) [
    | none ↦ (h, pos 0)
    | some (_, m, t) ↦ (h, m)
  ]
]

module _ (k : Clock) (color_of : File → Option Bytes) (dirpath : Bytes) where
  -- The link, the path and the colour.
  unfoldable pub name_file : Bytes → File → Parsed
  name_file cf f =
      let (g, name) = linked (split_str (codes " -> ") cf) cf f in
      parsed (rfile_parse_colors color_of (record g { path = some (in_directory dirpath name) }))

  -- The date by its words.
  abbrev pub dated : File → Bytes → Bytes → Bytes → File
  dated f m d y = record f {
    date = some (m ++ b' ' ∷ (padded 2 d ++ b' ' ∷ padded 5 y));
    mtime = rfile_parse_time k m d y;
  }

  -- ls -l
  abbrev pub long_line : File → Fields → Bytes → Parsed
  long_line f v cf =
      let g = record f {
        nhl = links_of (v.field0);
        owner = some (v.field1);
        group = some (v.field2);
        size = strtoull (v.field3);
      } in
      next_field cf (λ d c1. next_field c1 (λ y c2. name_file c2 (dated g (v.field4) d y)))

  -- ls -lG
  abbrev pub no_group_line : File → Fields → Bytes → Parsed
  no_group_line f v cf =
      let g = record f {
        nhl = links_of (v.field0);
        owner = some (v.field1);
        group = some (codes "group");
        size = strtoull (v.field2);
      } in
      next_field cf (λ y c1. name_file c1 (dated g (v.field3) (v.field4) y))

  -- A server that gives neither owner nor group.
  abbrev pub bare_line : File → Fields → Bytes → Parsed
  bare_line f v cf =
      let g = record f {
        nhl = 0;
        owner = some (codes "owner");
        group = some (codes "group");
        size = strtoull (v.field1);
      } in
      name_file cf (dated g (v.field2) (v.field3) (v.field4))

  -- The date as the listing shows it: with the year if it is older than half a year or in the future.
  abbrev pub iso_text : ℤ → Bytes → ℤ → ℤ → ℤ × ℤ → Bytes
  iso_text t name day year (h, m) =
      let start = name ++ b' ' ∷ (padded 2 (decimal day) ++ b' ' ∷ []) in
      let is_time = elim t as (λ x. Bool) [ pos n ↦ true | negsuc n ↦ not (n == 0) ] in
      if is_time && (is_before t (k.now) half_year || is_after t (k.now + 60 * 60))
      then start ++ padded 5 (decimal year)
      else start ++ two_digits h ++ b':' ∷ two_digits m

  abbrev pub iso_moment : ℤ → ℤ → ℤ → ℤ × ℤ → Moment
  iso_moment year mon day (h, m) = record {
    tm_sec = pos 0;
    tm_min = m;
    tm_hour = h;
    tm_mday = day;
    tm_mon = mon;
    tm_year = year;
    tm_isdst = negsuc 0;
  }

  -- Behind the name of the month: `clock` is what stands for the hour and the minute.
  abbrev pub iso_file : File → ℤ → ℤ → ℤ → ℤ × ℤ → Bytes → Option Bytes → Parsed
  iso_file f year mon day clock cf none = overrun
  iso_file f year mon day clock cf (some name) =
      let t = k.mktime (iso_moment year mon day clock) in
      name_file cf (record f { mtime = to_time t; date = some (iso_text t name day year clock) })

  -- YYYY-MM-DD and a time; where no time stands, the null pointer is read.
  unfoldable pub iso_line : File → Fields → Bytes → ℤ × ℤ × ℤ → Parsed
  iso_line f v cf (year, month, day) =
      let g = record f {
        nhl = links_of (v.field0);
        owner = some (v.field1);
        group = some (v.field2);
        size = strtoull (v.field3);
      } in
      let mon = predecessor month in
      elim (strqsep b' ' cf) [
        | none ↦ overrun
        | some (e, rest) ↦ iso_file g year mon day (scan_clock e) rest (month_text mon)
      ]

  unfoldable pub rfile_parse_unix_fields : File → Fields → Bytes → Parsed
  rfile_parse_unix_fields f v cf =
      if is_month (v.field4)
      then long_line f v cf
      else if is_month (v.field3)
      then no_group_line f v cf
      else if is_month (v.field2)
      then bare_line f v cf
      else elim (scan_date (v.field4)) [ none ↦ failed | some date ↦ iso_line f v cf date ]

  -- The permissions are ten bytes.
  unfoldable pub rfile_parse_unix : File → Bytes → Parsed
  rfile_parse_unix f str =
      let g = record f { perm = xstrndup str 10 } in
      let fields = read_fields (behind_plus (drop 10 str)) (rfile_parse_unix_fields g) in
      if starts_with (codes "total ") str || starts_with (codes "insgesamt ") str
      then skipped
      else if ltb (length str) 10
      then overrun
      else fields
