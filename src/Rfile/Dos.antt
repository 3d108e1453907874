-- ===== src/Rfile/Dos.antt =====
-- `rfile_parse_dos` of ftp/rfile.c (under src/): a line of a DOS listing.
use yafc.Base.{
  ℕ, zero, suc, ◌+◌, ◌-◌, Option, none, some, [], ◌∷◌, ◌++◌, ltb, ◌==◌, if◌then◌else◌, take, drop,
  is_nil, Bytes, codes, is_space, strcase_eq, ℤ, pos, negsuc,
}
use yafc.Rfile.File.{File, rfile_parse_colors}
use yafc.Rfile.Eplf.{strtoull, in_directory, mark_directory}
use yafc.Rfile.Dates.{Clock, to_time, predecessor}
use yafc.Rfile.Unix.{
  Parsed, parsed, failed, overrun, next_field, scan_int, scan_byte, scan_date, month_text, iso_text,
  iso_moment,
}

abbrev pub plus : ℕ → ℤ → ℤ
plus n (pos m) = pos (m + n)
plus n (negsuc m) = if ltb m n then pos (n - (m + 1)) else negsuc (m - n)

-- y < 70
unfoldable pub full_year : ℤ → ℤ
full_year (pos y) = if ltb y 70 then pos (y + 100) else pos y
full_year (negsuc y) = plus 100 (negsuc y)

unfoldable pub behind_space : Bytes → Bytes
behind_space [] = []
behind_space (c ∷ s) = if is_space c then behind_space s else c ∷ s

-- "%d" of at most `width` bytes behind white space
unfoldable pub scan_width : ℕ → Bytes → Option (ℤ × Bytes)
scan_width width s =
    let t = behind_space s in
    elim (scan_int (take width t)) [ none ↦ none | some (n, u) ↦ some (n, u ++ drop width t) ]

abbrev pub word_of : ℕ → Bytes → Bytes
word_of zero s = []
word_of (suc n) [] = []
word_of (suc n) (c ∷ s) = if is_space c then [] else c ∷ word_of n s

-- "%2s"
unfoldable pub scan_half : Bytes → Option Bytes
scan_half s = let w = word_of 2 (behind_space s) in if is_nil w then none else some w

abbrev pub after_colon : ℤ → Option Bytes → Option (ℤ × ℤ × Bytes)
after_colon h none = none
after_colon h (some s) = elim (scan_width 2 s) [
  | none ↦ none
  | some (m, t) ↦ elim (scan_half t) [ none ↦ none | some half ↦ some (h, m, half) ]
]

-- "%d:%2d%2s", where all three are found
unfoldable pub scan_noon : Bytes → Option (ℤ × ℤ × Bytes)
scan_noon e = elim (scan_int e) [ none ↦ none | some (h, s) ↦ after_colon h (scan_byte b':' s) ]

unfoldable pub hour_of : ℤ → Bytes → ℤ
hour_of h half = if strcase_eq half (codes "PM") then plus 12 h else h

unfoldable pub drop_blanks : Bytes → Bytes
drop_blanks [] = []
drop_blanks (c ∷ s) = if c == b' ' then drop_blanks s else c ∷ s

module _ (k : Clock) (color_of : File → Option Bytes) (dirpath : Bytes) where
  -- <DIR>, or the size.
  abbrev pub kind_of : Bytes → File → File
  kind_of e f =
      if strcase_eq e (codes "<DIR>")
      then record f { perm = mark_directory (some (codes "-rw-r--r--")); size = 0 }
      else record f { perm = some (codes "-rw-r--r--"); size = strtoull e }

  abbrev pub dos_file : File → Bytes → Bytes → Parsed
  dos_file f e cf = parsed (
      rfile_parse_colors color_of (record (kind_of e f) {
        nhl = 1;
        owner = some (codes "owner");
        group = some (codes "group");
        link = none;
        path = some (in_directory dirpath (drop_blanks cf));
      }))

  abbrev pub dos_named : File → ℤ → ℤ → ℤ → ℤ × ℤ → Bytes → Option Bytes → Parsed
  dos_named f year mon day clock cf none = overrun
  dos_named f year mon day clock cf (some name) =
      let t = k.mktime (iso_moment k color_of dirpath year mon day clock) in
      let text = iso_text k color_of dirpath t name day (plus 1900 year) clock in
      next_field cf (dos_file (record f { mtime = to_time t; date = some text }))

  abbrev pub dos_clock : File → ℤ × ℤ × ℤ → Bytes → Option (ℤ × ℤ × Bytes) → Parsed
  dos_clock f date cf none = failed
  dos_clock f (m, d, y) cf (some (h, mm, half)) =
      let mon = predecessor m in
      dos_named f (full_year y) mon d (hour_of h half, mm) cf (month_text mon)

  abbrev pub dos_date : File → Bytes → Option (ℤ × ℤ × ℤ) → Parsed
  dos_date f cf none = failed
  dos_date f cf (some date) = next_field cf (λ e rest. dos_clock f date rest (scan_noon e))

  unfoldable pub rfile_parse_dos : File → Bytes → Parsed
  rfile_parse_dos f str = next_field str (λ e rest. dos_date f rest (scan_date e))
