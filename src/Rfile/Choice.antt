-- ===== src/Rfile/Choice.antt =====
-- `rfile_parse` of ftp/rfile.c (under src/), which finds out the format of a server's listings.
pub mod Switch
use yafc.Base.{ℕ, zero, suc, Bool, true, false, Option, if◌then◌else◌, Bytes}
use yafc.Rfile.File.{File, rfile_clear}
use yafc.Rfile.Eplf.{rfile_parse_eplf}
use yafc.Rfile.Dates.{Clock}
use yafc.Rfile.Unix.{Parsed, parsed, skipped, failed, overrun, rfile_parse_unix}
use yafc.Rfile.Dos.{rfile_parse_dos}
use yafc.Rfile.Mlsd.{rfile_parse_mlsd}

-- LIST_t
pub data ListType : Type 0 where
  lt_unknown lt_unix lt_dos lt_eplf lt_mlsd : ListType

-- What the parsers need.
pub record Setting : Type 0 where
  pub clock : Clock
  pub color_of : File → Option Bytes
  pub time_to_string : ℕ → Bytes
  pub dirpath : Bytes

abbrev pub eplf_result : File × Bool → Parsed
eplf_result (f, true) = parsed f
eplf_result (f, false) = failed

-- The parser of a type; the others leave -1.
unfoldable pub attempt : Setting → ListType → Bytes → File → Parsed
attempt v lt_unix str f = rfile_parse_unix v.clock v.color_of v.dirpath f str
attempt v lt_dos str f = rfile_parse_dos v.clock v.color_of v.dirpath f str
attempt v lt_eplf str f = eplf_result (rfile_parse_eplf v.color_of v.time_to_string f str v.dirpath)
attempt v lt_unknown str f = failed
attempt v lt_mlsd str f = failed

unfoldable pub next_type : ListType → ListType
next_type lt_unix = lt_dos
next_type lt_dos = lt_eplf
next_type lt_eplf = lt_unix
next_type lt_unknown = lt_unknown
next_type lt_mlsd = lt_mlsd

abbrev pub or_next : ListType → ListType × Parsed → Parsed → ListType × Parsed
or_next type next failed = next
or_next type next (parsed f) = (type, parsed f)
or_next type next skipped = (type, skipped)
or_next type next overrun = (type, overrun)

-- The loop: the type that is left, and the result.
unfoldable pub attempts : Setting → ℕ → ListType → Bytes → File → ListType × Parsed
attempts v zero type str f = (type, failed)
attempts v (suc i) type str f =
    or_next type (attempts v i (next_type type) str (rfile_clear f)) (attempt v type str f)

abbrev pub known : ListType → ListType
known lt_unknown = lt_unix
known lt_unix = lt_unix
known lt_dos = lt_dos
known lt_eplf = lt_eplf
known lt_mlsd = lt_mlsd

unfoldable pub rfile_parse : Setting → ListType → File → Bytes → Bool → ListType × Parsed
rfile_parse v type f str is_mlsd =
    let found = attempts v 3 (known type) str f in
    if is_mlsd then (type, rfile_parse_mlsd v.color_of v.time_to_string v.dirpath f str) else found
