-- ===== src/Session/Commands.antt =====
-- The commands on files of ftp/ftp.c (under src/), and `ftp_type` of ftp/ftpsend.c. The path of a command
-- is not empty.
pub mod Rename
pub mod Holders
use yafc.Base.{
  ℕ, zero, suc, ◌+◌, ◌-◌, ◌*◌, ◌/◌, ◌%◌, ◌^◌, ◌≤◌, ◌<◌, ◌≡◌, refl, sym, ap, ◌∙◌, ◌≢◌, ◌↔◌, ◌⊎◌, inl,
  inr, Bool, true, false, not, ◌&&◌, ◌||◌, Option, none, some, List, [], ◌∷◌, ◌++◌, map, append-nil,
  append_assoc, arith, ltb, leb, ◌==◌, if◌then◌else◌, ltb→lt, lt→ltb, leb→le, le→leb, ==_iff,
  Bool-cases, Option-cases, some-eq, &&-true, ||-false, length, get_elem?, get_or, take, drop,
  is_nil, length-append, take-append-drop, length-take, length-drop, length-map, take-all, All,
  All-append, All-append_left, All-append_right, All-mono, Bytes, codes, IsChar, IsText, within,
  is_space, is_cntrl, is_digit, is_xdigit, to_lower, has, str_eq, starts_with, strcase_eq, split_at,
  split_last, c_string, xstrdup, xstrndup, str_eq_iff, c_string-IsText, has-ne, ℤ, pos, negsuc,
  negate, digits_value, atoi, strip_trailing_chars, take-append, drop-append, drop-drop, take-take,
  drop-all, drop-take, get_or-append,
}
use yafc.Strq.Path.{stripslash}
use yafc.Reply.{Conn}
use yafc.Session.{
  Session, Features, Client, Verbosity, vb_none, vb_error, vb_command, ftp_set_tmp_verbosity,
  ftp_cmd, ftp_reset_vars, ftp_connected, exchange,
}
use yafc.Session.Marks.{ftp_cache_flush_mark, ftp_cache_flush_mark_for}
use yafc.Session.Directories.{is_number, completed, reply_text, with_result}

-- ftp->code == ctComplete ? 0 : -1
unfoldable pub status : Session → Session × ℤ
status s = if completed s then (s, pos 0) else (s, negsuc 0)

-- The marks of a command that was carried out.
abbrev pub marking : (Session → Session) → Session → Session
marking f s = if completed s then f s else s

unfoldable pub ftp_mkdir_verb : Client → Bytes → Verbosity → Session → Session × ℤ
ftp_mkdir_verb o path verb s =
    let p = stripslash path in
    let (after, r) = ftp_cmd o (codes "MKD " ++ p) (ftp_set_tmp_verbosity verb s) in
    status (marking (ftp_cache_flush_mark_for o p) after)

abbrev pub ftp_mkdir : Client → Bytes → Session → Session × ℤ
ftp_mkdir o path s = ftp_mkdir_verb o path vb_error s

unfoldable pub ftp_rmdir : Client → Bytes → Session → Session × ℤ
ftp_rmdir o path s =
    let p = stripslash path in
    let (after, r) = ftp_cmd o (codes "RMD " ++ p) (ftp_set_tmp_verbosity vb_error s) in
    status (marking (λ t. ftp_cache_flush_mark_for o p (ftp_cache_flush_mark o (some p) t)) after)

unfoldable pub ftp_unlink : Client → Bytes → Session → Session × ℤ
ftp_unlink o path s =
    let (after, r) = ftp_cmd o (codes "DELE " ++ path) s in
    status (marking (ftp_cache_flush_mark_for o path) after)

-- ftp->fullcode == 502
abbrev pub is_unknown : Session → Bool
is_unknown s = is_number 502 (s.conn.fullcode)

abbrev pub without_chmod : Session → Session
without_chmod s =
    if is_unknown s
    then record s { features = record (s.features) { has_site_chmod_command = false } }
    else s

unfoldable pub ftp_chmod : Client → Bytes → Bytes → Session → Session × ℤ
ftp_chmod o path mode s =
    let cmd = codes "SITE CHMOD " ++ mode ++ b' ' ∷ path in
    let (after, r) = ftp_cmd o cmd (ftp_set_tmp_verbosity vb_none s) in
    let known = without_chmod after in
    if s.features.has_site_chmod_command
    then status (marking (ftp_cache_flush_mark_for o path) known)
    else (s, negsuc 0)

abbrev pub without_idle : Session → Session
without_idle s =
    if is_unknown s
    then record s { features = record (s.features) { has_site_idle_command = false } }
    else s

-- A command with or without an argument.
abbrev pub with_argument : Bytes → Option Bytes → Bytes
with_argument cmd none = cmd
with_argument cmd (some arg) = cmd ++ b' ' ∷ arg

unfoldable pub ftp_idle : Client → Option Bytes → Session → Session × ℤ
ftp_idle o idletime s =
    let cmd = with_argument (codes "SITE IDLE") idletime in
    let (after, r) = ftp_cmd o cmd (ftp_set_tmp_verbosity vb_command s) in
    if s.features.has_site_idle_command then status (without_idle after) else (s, negsuc 0)

unfoldable pub ftp_noop : Client → Session → Session × ℤ
ftp_noop o s =
    let (after, r) = ftp_cmd o (codes "NOOP") (ftp_set_tmp_verbosity vb_command s) in status after

unfoldable pub ftp_help : Client → Option Bytes → Session → Session × ℤ
ftp_help o arg s =
    let cmd = with_argument (codes "HELP") arg in
    let (after, r) = ftp_cmd o cmd (ftp_set_tmp_verbosity vb_command s) in status after

unfoldable pub ftp_pwd : Client → Session → Session
ftp_pwd o s = (ftp_cmd o (codes "PWD") (ftp_set_tmp_verbosity vb_command s)).0

unfoldable pub ftp_reply_timeout : ℕ → Session → Session
ftp_reply_timeout secs s = record s { reply_timeout = secs }

-- `ftp_close` is `ftp_reset_vars`; bookmarks and tags are not saved here.
unfoldable pub ftp_quit : Client → Session → Session
ftp_quit o s =
    let ready = ftp_set_tmp_verbosity vb_command (ftp_reply_timeout 10 s) in
    let said = (ftp_cmd o (codes "QUIT") ready).0 in
    ftp_reset_vars o (if ftp_connected s then said else s)

-- Behind the TYPE command; `none` stands for -1.
unfoldable pub typed : ℕ → Session → Session × Bool
typed type s = if completed s then (record s { prev_type = type }, true) else (s, false)

-- `ftp_type` for `type` the byte of the command, with whether it returns 0: the server is told only of
-- another type than the last.
unfoldable pub ftp_type : Client → ℕ → Session → Session × Bool
ftp_type o type s =
    let (after, r) = ftp_cmd o (codes "TYPE " ++ type ∷ []) s in
    let told = typed type after in if s.prev_type == type then (s, true) else told

-- "%*s %llu": the number behind the first word.
unfoldable pub skip_word : Bytes → Bytes
skip_word [] = []
skip_word (c ∷ s) = if is_space c then c ∷ s else skip_word s

unfoldable pub skip_spaces : Bytes → Bytes
skip_spaces [] = []
skip_spaces (c ∷ s) = if is_space c then skip_spaces s else c ∷ s

-- For a reply in which a number stands behind the first word; else `ret` is not initialised.
unfoldable pub scan_size : Bytes → ℕ
scan_size r = digits_value 0 (skip_spaces (skip_word (skip_spaces r))) % 2 ^ 64

-- -1 as an unsigned long long
abbrev pub no_size : ℕ
no_size = 2 ^ 64 - 1

abbrev pub without_size : Session → Session
without_size s = record s { features = record (s.features) { has_size_command = false } }

unfoldable pub size_reply : Session → Session × ℕ
size_reply s =
    if is_unknown s
    then (without_size s, no_size)
    else if completed s
    then (s, scan_size (reply_text s))
    else (s, no_size)

unfoldable pub ftp_filesize : Client → Bytes → Session → Session × ℕ
ftp_filesize o path s =
    let (binary, is_binary) = ftp_type o b'I' s in
    let (after, r) = ftp_cmd o (codes "SIZE " ++ path) (ftp_set_tmp_verbosity vb_error binary) in
    let replied = size_reply after in
    if not s.features.has_size_command
    then (s, no_size)
    else if not is_binary
    then (binary, no_size)
    else replied

-- Behind the RNTO command; both names lose their directories from the cache.
unfoldable pub renamed : Client → Bytes → Bytes → Session → Session × ℤ
renamed o on nn s =
    if completed s
    then (ftp_cache_flush_mark_for o nn (ftp_cache_flush_mark_for o on s), pos 0)
    else (s, negsuc 0)

unfoldable pub ftp_rename : Client → Bytes → Bytes → Session → Session × ℤ
ftp_rename o oldname newname s =
    let on = stripslash oldname in
    let nn = stripslash newname in
    let (from, r) = ftp_cmd o (codes "RNFR " ++ on) s in
    let (to, r') = ftp_cmd o (codes "RNTO " ++ nn) from in
    let done = renamed o on nn to in if is_number 3 (from.conn.code) then done else (from, negsuc 0)
