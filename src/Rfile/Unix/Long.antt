-- ===== src/Rfile/Unix/Long.antt =====
-- Lines of `ls -l` for `rfile_parse_unix` of ftp/rfile.c (under src/), field by field.
use yafc.Base.{
  ℕ, suc, ◌≡◌, refl, sym, ap, ◌∙◌, true, false, ◌||◌, Option, none, some, [], ◌∷◌, ◌++◌, arith, ltb,
  if◌then◌else◌, length, take, drop, is_nil, length-append, Bytes, codes, starts_with, xstrndup,
  take-append, drop-append,
}
use yafc.Strq.Scan.Words.{IsClear, strqsep-clear, strqsep-skip}
use yafc.Args.Split.{scanned, scanned-Quotes}
use yafc.Url.Parse.{split_str}
use yafc.Rfile.File.{File, rfile_parse_colors}
use yafc.Rfile.Eplf.{strtoull, in_directory}
use yafc.Rfile.Dates.{Clock, rfile_parse_time}
use yafc.Rfile.Unix.{
  Parsed, parsed, skipped, failed, overrun, next_field, ends_in_comma, Fields, read_fields,
  links_of, padded, linked, is_month, name_file, dated, long_line, no_group_line, bare_line,
  scan_date, iso_line, rfile_parse_unix_fields, behind_plus, rfile_parse_unix,
}

-- The fields of a line; the permissions are `kind` and nine bytes.
pub record Listing : Type 0 where
  pub kind : ℕ
  pub rights : Bytes
  pub nhl : Bytes
  pub owner : Bytes
  pub group : Bytes
  pub size : Bytes
  pub month : Bytes
  pub day : Bytes
  pub year : Bytes
  pub name : Bytes

pub record IsListing (l : Listing) : Type 0 where
  pub nine : length l.rights ≡ 9
  pub nhl_clear : IsClear scanned l.nhl
  pub owner_clear : IsClear scanned l.owner
  pub group_clear : IsClear scanned l.group
  pub size_clear : IsClear scanned l.size
  pub month_clear : IsClear scanned l.month
  pub day_clear : IsClear scanned l.day
  pub year_clear : IsClear scanned l.year
  pub no_device : ends_in_comma l.size ≡ false
  pub a_month : is_month l.month ≡ true
  pub no_link : split_str (codes " -> ") l.name ≡ none

abbrev pub date_text : Listing → Bytes
date_text l = l.day ++ b' ' ∷ (l.year ++ b' ' ∷ l.name)

abbrev pub fields_text : Listing → Bytes
fields_text l =
    l.nhl
    ++ b' '
      ∷ (l.owner ++ b' ' ∷ (l.group ++ b' ' ∷ (l.size ++ b' ' ∷ (l.month ++ b' ' ∷ date_text l))))

abbrev pub line_text : Listing → Bytes
line_text l = (l.kind ∷ l.rights) ++ b' ' ∷ fields_text l

pub next_field-clear :
    (w rest : Bytes) (k : Bytes → Bytes → Parsed)
    → IsClear scanned w
    → next_field (w ++ b' ' ∷ rest) k ≡ k w rest
next_field-clear [] rest k h = absurd (h.0 refl)
next_field-clear (c ∷ w) rest k h =
    ap
      (λ o. elim o as (λ x. Parsed) [
        | none ↦ failed
        | some (e, r) ↦ if is_nil e then failed else k e r
      ])
      (strqsep-clear b' ' scanned (c ∷ w) rest scanned-Quotes h)

next_field-skip :
    (s : Bytes) (k : Bytes → Bytes → Parsed) → next_field (b' ' ∷ s) k ≡ next_field s k
next_field-skip s k =
    ap
      (λ o. elim o as (λ x. Parsed) [
        | none ↦ failed
        | some (e, r) ↦ if is_nil e then failed else k e r
      ])
      (strqsep-skip b' ' s)

-- The first five fields.
read_fields-line :
    (l : Listing) (k : Fields → Bytes → Parsed)
    → IsListing l
    → read_fields (b' ' ∷ fields_text l) k
      ≡ k
          (record {
            field0 = l.nhl;
            field1 = l.owner;
            field2 = l.group;
            field3 = l.size;
            field4 = l.month;
          })
          (date_text l)
read_fields-line l k h =
    let month = l.month ++ b' ' ∷ date_text l in
    let after = λ (d c4 : Bytes). next_field c4 (λ e c5.
      k (record { field0 = l.nhl; field1 = l.owner; field2 = l.group; field3 = d; field4 = e })
        c5) in
    next_field-skip (fields_text l) _
    ∙ next_field-clear (l.nhl) _ _ h.nhl_clear
    ∙ next_field-clear (l.owner) _ _ h.owner_clear
    ∙ next_field-clear (l.group) _ _ h.group_clear
    ∙ next_field-clear (l.size) month
        (λ e rest. if ends_in_comma e then next_field rest after else after e rest) h.size_clear
    ∙ ap (λ b. if b then next_field month after else after (l.size) month) h.no_device
    ∙ next_field-clear (l.month) (date_text l) _ h.month_clear

-- The file that a line describes.
abbrev pub described : Clock → (File → Option Bytes) → Bytes → Listing → File → File
described k color_of dirpath l f = rfile_parse_colors color_of (record f {
  perm = some (l.kind ∷ l.rights);
  nhl = links_of (l.nhl);
  owner = some (l.owner);
  group = some (l.group);
  size = strtoull (l.size);
  date = some (l.month ++ b' ' ∷ (padded 2 l.day ++ b' ' ∷ padded 5 l.year));
  mtime = rfile_parse_time k l.month l.day l.year;
  path = some (in_directory dirpath l.name);
})

-- Behind the fields: the date and the name.
long_line-listing :
    (k : Clock) (color_of : File → Option Bytes) (dirpath : Bytes) (l : Listing) (f : File)
    → IsListing l
    → let v : Fields = record {
      field0 = l.nhl;
      field1 = l.owner;
      field2 = l.group;
      field3 = l.size;
      field4 = l.month;
    } in
      rfile_parse_unix_fields k color_of dirpath
        (record f { perm = some (l.kind ∷ l.rights) })
        v
        (date_text l)
      ≡ parsed (described k color_of dirpath l f)
unfolding rfile_parse_unix_fields name_file
long_line-listing k color_of dirpath l f h =
    let v : Fields = record {
      field0 = l.nhl;
      field1 = l.owner;
      field2 = l.group;
      field3 = l.size;
      field4 = l.month;
    } in
    let g : File = record f { perm = some (l.kind ∷ l.rights) } in
    let cf = date_text l in
    let other =
      (if is_month (v.field3)
        then no_group_line k color_of dirpath g v cf
        else if is_month (v.field2)
        then bare_line k color_of dirpath g v cf
        else elim (scan_date (v.field4)) as (λ x. Parsed) [
          | none ↦ failed
          | some date ↦ iso_line k color_of dirpath g v cf date
        ]) in
    let owned : File = record g {
      nhl = links_of (l.nhl);
      owner = some (l.owner);
      group = some (l.group);
      size = strtoull (l.size);
    } in
    let t = dated k color_of dirpath owned (l.month) (l.day) (l.year) in
    let finish = λ (o : Option (Bytes × Bytes)).
      let x = linked o (l.name) t in
      parsed
        (rfile_parse_colors color_of (record (x.0) { path = some (in_directory dirpath (x.1)) })) in
    ap (λ b. if b then long_line k color_of dirpath g v cf else other) h.a_month
    ∙ next_field-clear (l.day) _ _ h.day_clear
    ∙ next_field-clear (l.year) (l.name) _ h.year_clear
    ∙ ap finish h.no_link

-- A line `rights nhl owner group size month day year name` whose words are not empty and hold no blank,
-- quote or backslash, whose size does not end in a comma, whose month is one, whose name holds no ` -> `,
-- and which is no line of a total, is parsed to the file that it describes: the ten bytes of the
-- permissions, the numbers, the owner and the group as they stand, the date padded, the time that
-- `rfile_parse_time` makes of it, and the path, a name with blanks included, in the directory.
pub rfile_parse_unix-listing :
    (k : Clock) (color_of : File → Option Bytes) (dirpath : Bytes) (l : Listing) (f : File)
    → IsListing l
    → (starts_with (codes "total ") (line_text l) || starts_with (codes "insgesamt ") (line_text l))
      ≡ false
    → rfile_parse_unix k color_of dirpath f (line_text l)
      ≡ parsed (described k color_of dirpath l f)
unfolding rfile_parse_unix
rfile_parse_unix-listing k color_of dirpath l f h t =
    let perm = l.kind ∷ l.rights in
    let rest = b' ' ∷ fields_text l in
    let ten : length perm ≡ 10 = ap suc h.nine in
    let room : ltb (length (line_text l)) 10 ≡ false =
      ground (arith, ten, length-append perm rest) in
    let body = λ (p : Option Bytes) (cf : Bytes).
      read_fields (behind_plus cf)
        (rfile_parse_unix_fields k color_of dirpath (record f { perm = p })) in
    let rights : xstrndup (line_text l) 10 ≡ some perm =
      ap (λ n. some (take n (perm ++ rest))) (sym ten) ∙ ap some (take-append perm rest) in
    let tail : drop 10 (line_text l) ≡ rest =
      ap (λ n. drop n (perm ++ rest)) (sym ten) ∙ drop-append perm rest in
    let whole = body (xstrndup (line_text l) 10) (drop 10 (line_text l)) in
    ap (λ b. if b then skipped else if ltb (length (line_text l)) 10 then overrun else whole) t
    ∙ ap (λ b. if b then overrun else whole) room
    ∙ ap (λ p. body p (drop 10 (line_text l))) rights
    ∙ ap (body (some perm)) tail
    ∙ read_fields-line l
        (rfile_parse_unix_fields k color_of dirpath (record f { perm = some perm })) h
    ∙ long_line-listing k color_of dirpath l f h
