-- ===== src/Rfile/Eplf.antt =====
-- `rfile_parse_eplf` of ftp/rfile.c (under src/): a line of an EPLF listing.
pub mod Listing
use yafc.Base.{
  ℕ, zero, suc, ◌+◌, ◌-◌, ◌*◌, ◌/◌, ◌%◌, ◌^◌, ◌≤◌, ◌<◌, ◌≡◌, refl, sym, ap, ◌∙◌, ◌≢◌, ◌↔◌, ◌⊎◌, inl,
  inr, Bool, true, false, not, ◌&&◌, ◌||◌, Option, none, some, List, [], ◌∷◌, ◌++◌, map, append-nil,
  append_assoc, arith, ltb, leb, ◌==◌, if◌then◌else◌, ltb→lt, lt→ltb, leb→le, le→leb, ==_iff,
  Bool-cases, Option-cases, some-eq, &&-true, ||-false, length, get_elem?, get_or, take, drop,
  is_nil, length-append, take-append-drop, length-take, length-drop, length-map, take-all, All,
  All-append, All-append_left, All-append_right, All-mono, Bytes, codes, IsChar, IsText, within,
  is_space, is_cntrl, is_digit, is_xdigit, to_lower, has, str_eq, starts_with, strcase_eq, split_at,
  split_last, c_string, xstrdup, xstrndup, str_eq_iff, c_string-IsText, has-ne, ℤ, pos, negsuc,
  negate, digits_value, atoi, strip_trailing_chars, take-append, drop-append, drop-drop, take-take,
  drop-all, drop-take, get_or-append,
}
use yafc.Strq.Scan.{split_all}
use yafc.Rfile.File.{File, rfile_parse_colors}

-- strtoul and strtoull in base 10, for 64 bits: too much gives the greatest value, and a minus sign
-- negates modulo 2^64.
abbrev pub unsigned : ℤ → ℕ
unsigned (pos n) = if ltb n (2 ^ 64) then n else 2 ^ 64 - 1
unsigned (negsuc n) = if ltb (n + 1) (2 ^ 64) then 2 ^ 64 - (n + 1) else 2 ^ 64 - 1

unfoldable pub strtoull : Bytes → ℕ
strtoull s = unsigned (atoi s)

-- "%s/%s" with the directory, where the root gives nothing.
unfoldable pub in_directory : Bytes → Bytes → Bytes
in_directory dirpath name = (if str_eq dirpath (codes "/") then [] else dirpath) ++ b'/' ∷ name

-- f->perm[0] = 'd'
abbrev pub mark_directory : Option Bytes → Option Bytes
mark_directory (some (c ∷ p)) = some (b'd' ∷ p)
mark_directory p = p

module _ (color_of : File → Option Bytes) (time_to_string : ℕ → Bytes) where
  -- What is set before the facts are read.
  abbrev pub blank : File → File
  blank f = record f {
    perm = some (codes "-rw-r--r--");
    size = 0;
    mtime = 0;
    link = none;
    nhl = 0;
    owner = some (codes "owner");
    group = some (codes "group");
    date = some (codes "Jan  0  1900");
    path = none;
  }

  unfoldable pub eplf_fact : Bytes → File → Bytes → File
  eplf_fact dirpath f [] = f
  eplf_fact dirpath f (c ∷ e) =
      if c == b'/'
      then record f { perm = mark_directory f.perm }
      else if c == b'm'
      then record f { mtime = strtoull e; date = some (time_to_string (strtoull e)) }
      else if c == b's'
      then record f { size = strtoull e }
      else if c == 0x09
      then record f { path = some (in_directory dirpath e) }
      else f

  unfoldable pub eplf_facts : Bytes → File → List Bytes → File
  eplf_facts dirpath f [] = f
  eplf_facts dirpath f (e ∷ es) = eplf_facts dirpath (eplf_fact dirpath f e) es

  abbrev pub with_path : File → File × Bool
  with_path f = elim f.path [ none ↦ (f, false) | some p ↦ (rfile_parse_colors color_of f, true) ]

  -- The file, and whether 0 is returned, and not -1.
  unfoldable pub rfile_parse_eplf : File → Bytes → Bytes → File × Bool
  rfile_parse_eplf f [] dirpath = (f, false)
  rfile_parse_eplf f (c ∷ str) dirpath =
      let parsed = with_path (eplf_facts dirpath (blank f) (split_all b',' str)) in
      if c == b'+' then parsed else (f, false)
