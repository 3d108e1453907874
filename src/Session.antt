-- ===== src/Session.antt =====
-- The state `Ftp` of ftp/ftp.h and `ftp_cmd` of ftp/ftp.c (under src/), for a session that is not over
-- SSH: the connection is that of `Reply`, and the rest is what the commands read and write. Signals,
-- traces, and what is printed, asked or saved on the way are left out.
pub mod Exchange
pub mod Scripts
pub mod Marks
pub mod Directories
pub mod Commands
pub mod Paths
pub mod Credentials
pub mod Login
pub mod Valid
pub mod Passive
pub mod Operations
use yafc.Base.{
  ℕ, zero, suc, ◌+◌, ◌-◌, ◌*◌, ◌/◌, ◌%◌, ◌^◌, ◌≤◌, ◌<◌, ◌≡◌, refl, sym, ap, ◌∙◌, ◌≢◌, ◌↔◌, ◌⊎◌, inl,
  inr, Bool, true, false, not, ◌&&◌, ◌||◌, Option, none, some, List, [], ◌∷◌, ◌++◌, map, append-nil,
  append_assoc, arith, ltb, leb, ◌==◌, if◌then◌else◌, ltb→lt, lt→ltb, leb→le, le→leb, ==_iff,
  Bool-cases, Option-cases, some-eq, &&-true, ||-false, length, get_elem?, get_or, take, drop,
  is_nil, length-append, take-append-drop, length-take, length-drop, length-map, take-all, All,
  All-append, All-append_left, All-append_right, All-mono, Bytes, codes, IsChar, IsText, within,
  is_space, is_cntrl, is_digit, is_xdigit, to_lower, has, str_eq, starts_with, strcase_eq, split_at,
  split_last, c_string, xstrdup, xstrndup, str_eq_iff, c_string-IsText, has-ne, ℤ, pos, negsuc,
  negate, digits_value, atoi, strip_trailing_chars, take-append, drop-append, drop-drop, take-take,
  drop-all, drop-take, get_or-append,
}
use yafc.Reply.{Conn, close, is_minus_one, ftp_read_reply}
use yafc.Rfile.File.{File}

pub data Verbosity : Type 0 where
  vb_unset : Verbosity
  vb_none : Verbosity
  vb_error : Verbosity
  vb_command : Verbosity
  vb_debug : Verbosity

abbrev pub level : Verbosity → ℕ
level vb_unset = 0
level vb_none = 1
level vb_error = 2
level vb_command = 3
level vb_debug = 4

-- Whether a command was not refused by the server so far.
pub record Features : Type 0 where
  pub has_mdtm_command : Bool
  pub has_size_command : Bool
  pub has_pasv_command : Bool
  pub has_stou_command : Bool
  pub has_site_chmod_command : Bool
  pub has_site_idle_command : Bool
  pub has_mlsd_command : Bool

abbrev pub all_features : Features
all_features = record {
  has_mdtm_command = true;
  has_size_command = true;
  has_pasv_command = true;
  has_stou_command = true;
  has_site_chmod_command = true;
  has_site_idle_command = true;
  has_mlsd_command = true;
}

pub record Directory : Type 0 where
  pub path : Bytes
  pub timestamp : ℕ
  pub files : List File

-- `none` stands for the null pointer, but the null pointer that `curdir` is before the first login is
-- the empty string here. `prev_type` is the byte of the last TYPE command, or `?`.
pub record Session : Type 0 where
  pub conn : Conn
  pub connected : Bool
  pub loggedin : Bool
  pub features : Features
  pub verbosity : Verbosity
  pub tmp_verbosity : Verbosity
  pub reply_timeout : ℕ
  pub prev_type : ℕ
  pub homedir : Option Bytes
  pub curdir : Bytes
  pub prevdir : Option Bytes
  pub last_mkpath : Option Bytes
  pub dirs_to_flush : List Bytes
  pub cache : List Directory

-- What is around a session: the options gvAutoReconnect, gvCommandTimeout and gvCacheTimeout, the
-- function `ftp_reopen`, the error flag of the socket's stream after the bytes written so far, and the
-- user database.
pub record Client : Type 0 where
  pub auto_reconnect : Bool
  pub command_timeout : ℕ
  pub cache_timeout : ℕ
  pub reopen : Session → Session
  pub stream_error : Bytes → Bool
  pub getpwnam : Bytes → Option Bytes
  pub own_dir : Option Bytes

unfoldable pub ftp_get_verbosity : Session → Verbosity
ftp_get_verbosity s =
    if level s.tmp_verbosity == level vb_unset then s.verbosity else s.tmp_verbosity

unfoldable pub ftp_set_verbosity : Verbosity → Session → Session
ftp_set_verbosity v s = record s { verbosity = v; tmp_verbosity = vb_unset }

unfoldable pub ftp_set_tmp_verbosity : Verbosity → Session → Session
ftp_set_tmp_verbosity v s = record s {
  tmp_verbosity = if leb (level s.verbosity) (level vb_error) then v else s.tmp_verbosity;
}

-- More than ctContinue. The type of codes has no sign, so a negative one is great.
abbrev pub is_failure : ℤ → Bool
is_failure (pos n) = leb 4 n
is_failure (negsuc n) = true

-- The test of `ftp_print_reply`.
unfoldable pub is_shown : Session → Bool
is_shown s =
    let v = level (ftp_get_verbosity s) in
    leb (level vb_command) v || (is_failure (s.conn.code) && v == level vb_error)

-- The connection itself is closed by `close` of `Reply`.
unfoldable pub ftp_reset_vars : Client → Session → Session
ftp_reset_vars o s = record s {
  conn = close s.conn;
  connected = false;
  loggedin = false;
  features = all_features;
  dirs_to_flush = [];
  cache = [];
  prev_type = b'?';
  reply_timeout = o.command_timeout;
  last_mkpath = none;
}

abbrev pub ftp_connected : Session → Bool
ftp_connected s = s.connected && s.conn.is_open

abbrev pub ftp_loggedin : Session → Bool
ftp_loggedin s = ftp_connected s && s.loggedin

-- The session with the connection that reading left, which has lost its variables when reading
-- closed the connection.
abbrev pub with_conn : Client → Session → Conn → Session
with_conn o s c =
    if c.is_open then record s { conn = c } else ftp_reset_vars o (record s { conn = c })

-- `ftp_read_reply` with its effect on the rest of the state.
unfoldable pub read_reply : Client → Session → Session × ℤ
read_reply o s =
    let (c, r) = ftp_read_reply s.conn in
    let after = with_conn o s c in
    (if is_minus_one r then after else record after { tmp_verbosity = vb_unset }, r)

-- The codes of a command that got no reply: ctNone and -1.
abbrev pub no_reply : Session → Session
no_reply s = record s { conn = record (s.conn) { code = pos 0; fullcode = negsuc 0 } }

abbrev pub write : Bytes → Session → Session
write cmd s = record s {
  conn = record (s.conn) {
    sent = if s.conn.is_open then s.conn.sent ++ cmd ++ codes "\r\n" else s.conn.sent;
  };
}

-- From the label `ugly` to the reply. The functions of a socket do nothing on a null pointer, and report
-- an error for it.
unfoldable pub exchange : Client → Bytes → Session → Session × ℤ × Bool
exchange o cmd s =
    let written = write cmd s in
    let (after, r) = read_reply o written in
    if not s.conn.is_open || o.stream_error (written.conn.sent)
    then (no_reply written, negsuc 0, false)
    else (after, r, true)

-- The server closed the connection.
abbrev pub is_closing : ℤ → Bool
is_closing (pos n) = n == 421
is_closing (negsuc n) = false

abbrev pub reconnects : Client → Bytes → Session → Bool
reconnects o cmd s = o.auto_reconnect && ftp_loggedin s && not (strcase_eq cmd (codes "QUIT"))

abbrev pub closing : Session → Session
closing s = record s { conn = record (s.conn) { code = pos 4; fullcode = pos 421 } }

-- Behind the reply of the second attempt.
unfoldable pub second_reply : Client → Bytes → Session × ℤ × Bool → Session × ℤ
second_reply o cmd (s, r, replied) =
    if replied && is_closing r && not (reconnects o cmd s) then (closing s, negsuc 0) else (s, r)

unfoldable pub first_reply : Client → Bytes → Session × ℤ × Bool → Session × ℤ
first_reply o cmd (s, r, replied) =
    let again = second_reply o cmd (exchange o cmd (o.reopen s)) in
    if replied && is_closing r
    then (if reconnects o cmd s then again else (closing s, negsuc 0))
    else (s, r)

-- `cmd` is the text that the format and its arguments give. The test for QUIT is on the format, which
-- for QUIT is the text itself wherever the format is not "%s" alone.
unfoldable pub ftp_cmd : Client → Bytes → Session → Session × ℤ
ftp_cmd o cmd s =
    let replied = first_reply o cmd (exchange o cmd s) in
    if s.conn.is_open then replied else (no_reply s, negsuc 0)
