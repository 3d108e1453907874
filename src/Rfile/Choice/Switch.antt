-- ===== src/Rfile/Choice/Switch.antt =====
-- Lines of `ls -l` for `rfile_parse` of ftp/rfile.c (under src/), whatever format came before.
use yafc.Base.{
  ℕ, suc, ◌≡◌, refl, ap, ◌∙◌, Bool, false, ◌||◌, none, ◌∷◌, ◌==◌, get_or, Bytes, codes, starts_with,
}
use yafc.Strq.Scan.Words.{IsClear}
use yafc.Args.Split.{scanned}
use yafc.Rfile.File.{File, rfile_create, rfile_clear}
use yafc.Rfile.Eplf.{rfile_parse_eplf}
use yafc.Rfile.Unix.{parsed, failed, scan_int, scan_date}
use yafc.Rfile.Unix.Long.{
  Listing, IsListing, line_text, fields_text, described, next_field-clear, rfile_parse_unix-listing,
}
use yafc.Rfile.Dos.{dos_date, rfile_parse_dos}
use yafc.Rfile.Choice.{
  ListType, lt_unknown, lt_unix, lt_dos, lt_eplf, lt_mlsd, Setting, attempt, next_type, or_next,
  attempts, rfile_parse,
}

-- A format that a LIST command may have, or none yet.
pub data IsFormat : ListType → Type 0 where
  unknown : IsFormat lt_unknown
  unix : IsFormat lt_unix
  dos : IsFormat lt_dos
  eplf : IsFormat lt_eplf

-- The permissions, as the other formats see them.
pub record IsRights (perm : Bytes) : Type 0 where
  pub clear : IsClear scanned perm
  pub no_number : scan_int perm ≡ none
  pub no_plus : (get_or perm 0 0 == b'+') ≡ false

-- A failed attempt at another format clears the file.
abbrev pub file_at : ListType → File → File
file_at lt_unknown f = f
file_at lt_unix f = f
file_at lt_dos f = rfile_create
file_at lt_eplf f = rfile_create
file_at lt_mlsd f = f

dos-failed :
    (v : Setting) (f : File) (l : Listing)
    → IsRights (l.kind ∷ l.rights)
    → attempt v lt_dos (line_text l) f ≡ failed
unfolding attempt rfile_parse_dos scan_date
dos-failed v f l h =
    let perm = l.kind ∷ l.rights in
    let no_date : scan_date perm ≡ none = rw (scan_date, h.no_number) refl in
    next_field-clear perm (fields_text l)
      (λ e rest. dos_date v.clock v.color_of v.dirpath f rest (scan_date e)) h.clear
    ∙ ap (dos_date v.clock v.color_of v.dirpath f (fields_text l)) no_date

eplf-failed :
    (v : Setting) (f : File) (l : Listing)
    → IsRights (l.kind ∷ l.rights)
    → attempt v lt_eplf (line_text l) f ≡ failed
unfolding attempt rfile_parse_eplf
eplf-failed v f l h = rw h.no_plus refl

attempts-parsed :
    (v : Setting) (i : ℕ) (t : ListType) (str : Bytes) (f g : File)
    → attempt v t str f ≡ parsed g
    → attempts v (suc i) t str f ≡ (t, parsed g)
unfolding attempts rfile_clear
attempts-parsed v i t str f g e = ap (or_next t (attempts v i (next_type t) str rfile_create)) e

attempts-failed :
    (v : Setting) (i : ℕ) (t : ListType) (str : Bytes) (f : File)
    → attempt v t str f ≡ failed
    → attempts v (suc i) t str f ≡ attempts v i (next_type t) str rfile_create
unfolding attempts rfile_clear
attempts-failed v i t str f e = ap (or_next t (attempts v i (next_type t) str rfile_create)) e

abbrev pub is_total : Listing → Bool
is_total l =
    starts_with (codes "total ") (line_text l) || starts_with (codes "insgesamt ") (line_text l)

unix-parsed :
    (v : Setting) (i : ℕ) (f : File) (l : Listing)
    → IsListing l
    → is_total l ≡ false
    → attempts v (suc i) lt_unix (line_text l) f
      ≡ (lt_unix, parsed (described v.clock v.color_of v.dirpath l f))
unfolding attempt
unix-parsed v i f l h n =
    attempts-parsed v i lt_unix (line_text l) f (described v.clock v.color_of v.dirpath l f)
      (rfile_parse_unix-listing v.clock v.color_of v.dirpath l f h n)

eplf-switched :
    (v : Setting) (i : ℕ) (f : File) (l : Listing)
    → IsListing l
    → IsRights (l.kind ∷ l.rights)
    → is_total l ≡ false
    → attempts v (suc (suc i)) lt_eplf (line_text l) f
      ≡ (lt_unix, parsed (described v.clock v.color_of v.dirpath l rfile_create))
unfolding next_type
eplf-switched v i f l h r n =
    attempts-failed v (suc i) lt_eplf (line_text l) f (eplf-failed v f l r)
    ∙ unix-parsed v i rfile_create l h n

-- From any format of LIST, a line of `ls -l` (IsListing: its words are not empty and hold no blank, quote
-- or backslash, its size does not end in a comma, its month is one, its name holds no ` -> `) which is no
-- line of a total, and whose permissions hold no blank, quote or backslash and begin neither with a number
-- nor with a plus, is parsed to the file that it describes, and the Unix format is kept for the next lines.
-- If another format was tried before, the file is a cleared one.
pub rfile_parse-listing :
    (v : Setting) (t : ListType) (f : File) (l : Listing)
    → IsFormat t
    → IsListing l
    → IsRights (l.kind ∷ l.rights)
    → is_total l ≡ false
    → rfile_parse v t f (line_text l) false
      ≡ (lt_unix, parsed (described v.clock v.color_of v.dirpath l (file_at t f)))
unfolding rfile_parse next_type
rfile_parse-listing v lt_unix f l unix h r n = unix-parsed v 2 f l h n
rfile_parse-listing v lt_unknown f l unknown h r n = unix-parsed v 2 f l h n
rfile_parse-listing v lt_eplf f l eplf h r n = eplf-switched v 1 f l h r n
rfile_parse-listing v lt_dos f l dos h r n =
    attempts-failed v 2 lt_dos (line_text l) f (dos-failed v f l r)
    ∙ eplf-switched v 0 rfile_create l h r n
rfile_parse-listing v lt_mlsd f l format h r n = elim format [ ]
