-- ===== src/Session/Directories.antt =====
-- The current directory: `ftp_getcurdir`, `ftp_chdir` and `ftp_cdup` of ftp/ftp.c (under src/).
pub mod Change
use mathlib.Core.Option
use yafc.Base.{
  ℕ, zero, suc, ◌+◌, ◌-◌, ◌*◌, ◌/◌, ◌%◌, ◌^◌, ◌≤◌, ◌<◌, ◌≡◌, refl, sym, ap, ◌∙◌, ◌≢◌, ◌↔◌, ◌⊎◌, inl,
  inr, Bool, true, false, not, ◌&&◌, ◌||◌, Option, none, some, List, [], ◌∷◌, ◌++◌, map, append-nil,
  append_assoc, arith, ltb, leb, ◌==◌, if◌then◌else◌, ltb→lt, lt→ltb, leb→le, le→leb, ==_iff,
  Bool-cases, Option-cases, some-eq, &&-true, ||-false, length, get_elem?, get_or, take, drop,
  is_nil, length-append, take-append-drop, length-take, length-drop, length-map, take-all, All,
  All-append, All-append_left, All-append_right, All-mono, Bytes, codes, IsChar, IsText, within,
  is_space, is_cntrl, is_digit, is_xdigit, to_lower, has, str_eq, starts_with, strcase_eq, split_at,
  split_last, c_string, xstrdup, xstrndup, str_eq_iff, c_string-IsText, has-ne, ℤ, pos, negsuc,
  negate, digits_value, atoi, strip_trailing_chars, take-append, drop-append, drop-drop, take-take,
  drop-all, drop-take, get_or-append,
}
use yafc.Strq.Path.{stripslash, path_dos2unix}
use yafc.Reply.{Conn}
use yafc.Session.{Session, Client, vb_none, vb_command, ftp_set_tmp_verbosity, ftp_cmd}

-- ftp->code == n
abbrev pub is_number : ℕ → ℤ → Bool
is_number n (pos m) = m == n
is_number n (negsuc m) = false

-- ctComplete
abbrev pub completed : Session → Bool
completed s = is_number 2 (s.conn.code)

-- The string in the array `reply`.
abbrev pub reply_text : Session → Bytes
reply_text s = c_string (s.conn.reply)

abbrev pub behind_quote : Option (Bytes × Bytes) → Option Bytes
behind_quote none = none
behind_quote (some (a, b)) = some b

abbrev pub before_quote : Option (Bytes × Bytes) → Option Bytes
before_quote none = none
before_quote (some (a, b)) = some a

-- What stands between the first two double quotes.
unfoldable pub quoted_part : Bytes → Option Bytes
quoted_part r = elim (behind_quote (split_at b'"' r)) [
  | none ↦ none
  | some beg ↦ before_quote (split_at b'"' beg)
]

unfoldable pub pwd_directory : Bytes → Bytes
pwd_directory r = elim (quoted_part r) [
  | none ↦ codes "CWD?"
  | some dir ↦ path_dos2unix (stripslash dir)
]

unfoldable pub ftp_getcurdir : Client → Session → Session × Bytes
ftp_getcurdir o s =
    let (after, r) = ftp_cmd o (codes "PWD") (ftp_set_tmp_verbosity vb_none s) in
    (after, if completed after then pwd_directory (reply_text after) else codes "CWD?")

-- `none` stands for a crash: `xstrdup` of an empty string is a null pointer, which `path_dos2unix`
-- reads.
unfoldable pub ftp_update_curdir_x : Bytes → Session → Option Session
ftp_update_curdir_x [] s = none
ftp_update_curdir_x (c ∷ p) s =
    some (record s { prevdir = some (s.curdir); curdir = path_dos2unix (c ∷ p) })

unfoldable pub ftp_update_curdir : Client → Session → Session
ftp_update_curdir o s =
    let (after, dir) = ftp_getcurdir o (record s { prevdir = some (s.curdir) }) in
    record after { curdir = dir }

-- strncasecmp with the length of `p`
unfoldable pub starts_with_case : Bytes → Bytes → Bool
starts_with_case p s = strcase_eq p (take (length p) s)

-- strstr
unfoldable pub contains : Bytes → Bytes → Bool
contains p [] = is_nil p
contains p (c ∷ s) = starts_with p (c ∷ s) || contains p s

abbrev pub troll : Bytes
troll = codes "250 Changed to "

abbrev pub pure : Bytes
pure = codes "250 OK. Current directory is "

abbrev pub war : Bytes
war = codes " is current directory"

abbrev pub serv_u : Bytes
serv_u = codes "250 Directory changed to "

-- How the directory is found behind a CWD command that the server carried out: the directory that the
-- reply names, nothing, as the reply is malformed, or by a PWD command.
pub data Source : Type 0 where
  named : Bytes → Source
  unnamed : Source
  asked : Source

abbrev pub war_source : Bytes → Source
war_source r = elim (quoted_part r) [ none ↦ unnamed | some dir ↦ named (stripslash dir) ]

unfoldable pub cwd_source : Bytes → Source
cwd_source r =
    if starts_with_case troll r
    then named (drop 15 r)
    else if starts_with_case pure r
    then named (drop 29 r)
    else if contains war r
    then war_source r
    else if starts_with_case serv_u r
    then named (drop 25 r)
    else asked

unfoldable pub enter : Client → Source → Session → Option Session
enter o (named dir) s = ftp_update_curdir_x dir s
enter o unnamed s = some s
enter o asked s = some (ftp_update_curdir o s)

-- The end of an operation that goes by whether the command was carried out.
abbrev pub with_result : ℤ → Session → Session × ℤ
with_result r s = (s, r)

-- The state behind `ftp_chdir`.
abbrev pub state_of : Option (Session × ℤ) → Option Session
state_of none = none
state_of (some (s, r)) = some s

-- Behind the reply to CWD.
unfoldable pub chdir_reply : Client → Session → Option (Session × ℤ)
chdir_reply o after =
    if completed after
    then Option.map (with_result (pos 0)) (enter o (cwd_source (reply_text after)) after)
    else some (after, negsuc 0)

unfoldable pub ftp_chdir : Client → Bytes → Session → Option (Session × ℤ)
ftp_chdir o path s =
    let (after, r) = ftp_cmd o (codes "CWD " ++ path) (ftp_set_tmp_verbosity vb_command s) in
    chdir_reply o after

unfoldable pub ftp_cdup : Client → Session → Session × ℤ
ftp_cdup o s =
    let (after, r) = ftp_cmd o (codes "CDUP") (ftp_set_tmp_verbosity vb_command s) in
    if completed after then (ftp_update_curdir o after, pos 0) else (after, negsuc 0)
