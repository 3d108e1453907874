-- ===== src/Rfile/Mlsd.antt =====
-- `rfile_parse_mlsd` of ftp/rfile.c (under src/): a line of an MLSD listing.
use yafc.Base.{
  ℕ, ◌%◌, ◌^◌, Bool, true, false, ◌||◌, Option, none, some, List, [], ◌∷◌, ◌==◌, if◌then◌else◌,
  get_or, Bytes, codes, is_space, strcase_eq, split_at, xstrdup, ℤ, pos,
}
use yafc.Strq.Scan.{strqsep, split_all}
use yafc.Strq.Path.{base_name_ptr}
use yafc.Time.{Tm, gmt_mktime}
use yafc.Url.Parse.{digits_in}
use yafc.Rfile.Perm.{perm2string}
use yafc.Rfile.File.{File, rfile_parse_colors}
use yafc.Rfile.Eplf.{strtoull, in_directory, mark_directory}
use yafc.Rfile.Dates.{unsigned_value, no_time, since_1900, predecessor}
use yafc.Rfile.Unix.{Parsed, parsed, failed, overrun}
use yafc.Rfile.Dos.{scan_width}

-- strtoul in base 8, of which an int is kept
unfoldable pub octal : Bytes → ℕ
octal [] = 0
octal (c ∷ s) =
    if is_space c
    then octal s
    else if c == b'-'
    then unsigned_value true (digits_in 8 0 s) % 2 ^ 32
    else if c == b'+'
    then unsigned_value false (digits_in 8 0 s) % 2 ^ 32
    else unsigned_value false (digits_in 8 0 (c ∷ s)) % 2 ^ 32

-- The six numbers of a time; `none` where one of them is not found, and would be read unset.
unfoldable pub scan_widths : List ℕ → Bytes → Option (List ℤ)
scan_widths [] s = some []
scan_widths (w ∷ ws) s = elim (scan_width w s) [
  | none ↦ none
  | some (n, t) ↦ elim (scan_widths ws t) [ none ↦ none | some ns ↦ some (n ∷ ns) ]
]

abbrev pub number_at : ℕ → List ℤ → ℤ
number_at i ns = get_or ns i (pos 0)

-- "%04d%02d%02d%02d%02d%02d"
unfoldable pub scan_modify : Bytes → Option Tm
scan_modify value = elim (scan_widths (4 ∷ 2 ∷ 2 ∷ 2 ∷ 2 ∷ 2 ∷ []) value) [
  | none ↦ none
  | some ns ↦ some (record {
    tm_year = since_1900 (number_at 0 ns);
    tm_mon = predecessor (number_at 1 ns);
    tm_mday = number_at 2 ns;
    tm_hour = number_at 3 ns;
    tm_min = number_at 4 ns;
    tm_sec = number_at 5 ns;
  })
]

unfoldable pub utc_time : Tm → ℕ
utc_time ts = elim (gmt_mktime ts) [ none ↦ no_time | some t ↦ t % 2 ^ 64 ]

-- Whether a value of the fact `type` names a directory; another value changes nothing.
unfoldable pub kind_fact : Bytes → Bool → Bool
kind_fact value isdir =
    if strcase_eq value (codes "file")
    then false
    else if strcase_eq value (codes "dir")
        || strcase_eq value (codes "cdir")
        || strcase_eq value (codes "pdir")
    then true
    else isdir

module _ (color_of : File → Option Bytes) (time_to_string : ℕ → Bytes) where
  -- What is set before the facts are read.
  abbrev pub unset : File → File
  unset f = record f {
    perm = none;
    size = 0;
    mtime = 0;
    link = none;
    nhl = 0;
    owner = some (codes "owner");
    group = some (codes "group");
    date = some (codes "Jan  0  1900");
  }

  abbrev pub modified : File → Bool → Option Tm → Option (File × Bool)
  modified f isdir none = none
  modified f isdir (some ts) =
      some (record f { mtime = utc_time ts; date = some (time_to_string (utc_time ts)) }, isdir)

  -- One fact; `none` is a read of unset fields.
  unfoldable pub mlsd_fact : Bytes → Bytes → File × Bool → Option (File × Bool)
  mlsd_fact name value (f, isdir) =
      let time = modified f isdir (scan_modify value) in
      if strcase_eq name (codes "size") || strcase_eq name (codes "sizd")
      then some (record f { size = strtoull value }, isdir)
      else if strcase_eq name (codes "type")
      then some (f, kind_fact value isdir)
      else if strcase_eq name (codes "modify")
      then time
      else if strcase_eq name (codes "UNIX.mode")
      then some (record f { perm = some (perm2string (octal value)) }, isdir)
      else if strcase_eq name (codes "UNIX.gid")
      then some (record f { group = xstrdup value }, isdir)
      else if strcase_eq name (codes "UNIX.uid")
      then some (record f { owner = xstrdup value }, isdir)
      else some (f, isdir)

  -- Behind the facts.
  abbrev pub finish_mlsd : File × Bool → Parsed
  finish_mlsd (f, isdir) =
      let perm = elim f.perm as (λ x. Bytes) [ none ↦ codes "-rw-r--r--" | some p ↦ p ] in
      parsed (
        rfile_parse_colors color_of
          (record f { perm = if isdir then mark_directory (some perm) else some perm }))

  -- A fact without a name is refused.
  unfoldable pub mlsd_facts : List Bytes → File × Bool → Parsed
  mlsd_facts [] x = finish_mlsd x
  mlsd_facts (e ∷ es) x = elim (strqsep b'=' e) [
    | none ↦ failed
    | some (name, value) ↦ elim (mlsd_fact name value x) [
      | none ↦ overrun
      | some y ↦ mlsd_facts es y
    ]
  ]

  -- The facts stand before the first blank, and the name behind it.
  unfoldable pub rfile_parse_mlsd : Bytes → File → Bytes → Parsed
  rfile_parse_mlsd dirpath f str = elim (split_at b' ' str) [
    | none ↦ failed
    | some (facts, name) ↦
        mlsd_facts (split_all b';' facts)
          (record (unset f) { path = some (in_directory dirpath (base_name_ptr name)) }, false)
  ]
