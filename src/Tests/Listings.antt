-- ===== src/Tests/Listings.antt =====
-- A line of a listing for `rfile_parse_unix` of ftp/rfile.c (under src/).
use yafc.Base.{
  [], ◌∷◌, ◌≡◌, refl, true, false, ◌||◌, Option, none, arith, Bytes, codes, starts_with, strcase_eq,
  pos,
}
use yafc.Strq.Scan.Words.{IsClear}
use yafc.Args.Split.{scanned}
use yafc.Url.Parse.{split_str}
use yafc.Rfile.File.{File, rfile_create}
use yafc.Rfile.Dates.{Clock, month_number, month_at, starts_digit}
use yafc.Rfile.Unix.{parsed, is_month, scan_int, rfile_parse_unix}
use yafc.Rfile.Unix.Long.{Listing, IsListing, line_text, described, rfile_parse_unix-listing}
use yafc.Rfile.Choice.{Setting, lt_unix, lt_dos, rfile_parse}
use yafc.Rfile.Choice.Switch.{IsRights, dos, rfile_parse-listing}

abbrev local_clock : Clock
local_clock = record {
  now = 1100000000;
  local_year = pos 104;
  local_isdst = pos 0;
  mktime = λ m. pos 1018310400;
  normal = λ m. m;
}

abbrev no_color : File → Option Bytes
no_color f = none

abbrev notes : Listing
notes = record {
  kind = b'-';
  rights = codes "rw-r--r--";
  nhl = codes "1";
  owner = codes "ann";
  group = codes "users";
  size = codes "1422";
  month = codes "Apr";
  day = codes "9";
  year = codes "2002";
  name = codes "my notes.txt";
}

april : is_month (notes.month) ≡ true
unfolding month_number month_at strcase_eq
april = refl

no_link_here : split_str (codes " -> ") (notes.name) ≡ none
unfolding split_str starts_with
no_link_here = refl

notes-IsListing : IsListing notes
notes-IsListing =
    let nhl : IsClear scanned (notes.nhl) = ((λ e. absurd (ground arith)), (refl, tt)) in
    let owner : IsClear scanned (notes.owner) =
      ((λ e. absurd (ground arith)), (refl, (refl, (refl, tt)))) in
    let group : IsClear scanned (notes.group) =
      ((λ e. absurd (ground arith)), (refl, (refl, (refl, (refl, (refl, tt)))))) in
    let size : IsClear scanned (notes.size) =
      ((λ e. absurd (ground arith)), (refl, (refl, (refl, (refl, tt))))) in
    let month : IsClear scanned (notes.month) =
      ((λ e. absurd (ground arith)), (refl, (refl, (refl, tt)))) in
    let day : IsClear scanned (notes.day) = ((λ e. absurd (ground arith)), (refl, tt)) in
    let year : IsClear scanned (notes.year) =
      ((λ e. absurd (ground arith)), (refl, (refl, (refl, (refl, tt))))) in
    record {
      nine = refl;
      nhl_clear = nhl;
      owner_clear = owner;
      group_clear = group;
      size_clear = size;
      month_clear = month;
      day_clear = day;
      year_clear = year;
      no_device = refl;
      a_month = april;
      no_link = no_link_here;
    }

no_total :
    (starts_with (codes "total ") (line_text notes)
      || starts_with (codes "insgesamt ") (line_text notes))
    ≡ false
unfolding starts_with
no_total = refl

rfile_parse_unix-listing_example :
    rfile_parse_unix local_clock no_color (codes "/home") rfile_create (line_text notes)
    ≡ parsed (described local_clock no_color (codes "/home") notes rfile_create)
rfile_parse_unix-listing_example =
    rfile_parse_unix-listing local_clock no_color (codes "/home") notes rfile_create notes-IsListing
      no_total

abbrev unix_server : Setting
unix_server = record {
  clock = local_clock;
  color_of = no_color;
  time_to_string = λ t. [];
  dirpath = codes "/home";
}

no_number_here : scan_int (notes.kind ∷ notes.rights) ≡ none
unfolding scan_int starts_digit
no_number_here = refl

notes-IsRights : IsRights (notes.kind ∷ notes.rights)
notes-IsRights = record {
  clear = (
    (λ e. absurd (ground arith)),
    (refl, (refl, (refl, (refl, (refl, (refl, (refl, (refl, (refl, (refl, tt)))))))))),
  );
  no_number = no_number_here;
  no_plus = refl;
}

rfile_parse-listing_example :
    rfile_parse unix_server lt_dos rfile_create (line_text notes) false
    ≡ (lt_unix, parsed (described local_clock no_color (codes "/home") notes rfile_create))
rfile_parse-listing_example =
    rfile_parse-listing unix_server lt_dos rfile_create notes dos notes-IsListing notes-IsRights
      no_total
