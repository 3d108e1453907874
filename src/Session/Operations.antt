-- ===== src/Session/Operations.antt =====
-- The operations of a session, of ftp/ftp.c, ftp/ftpsend.c and ftp/cache.c (under src/), in any order. A login
-- is none of them.
pub mod Runs
use yafc.Base.{
  ℕ, zero, suc, ◌+◌, ◌-◌, ◌*◌, ◌/◌, ◌%◌, ◌^◌, ◌≤◌, ◌<◌, ◌≡◌, refl, sym, ap, ◌∙◌, ◌≢◌, ◌↔◌, ◌⊎◌, inl,
  inr, Bool, true, false, not, ◌&&◌, ◌||◌, Option, none, some, List, [], ◌∷◌, ◌++◌, map, append-nil,
  append_assoc, arith, ltb, leb, ◌==◌, if◌then◌else◌, ltb→lt, lt→ltb, leb→le, le→leb, ==_iff,
  Bool-cases, Option-cases, some-eq, &&-true, ||-false, length, get_elem?, get_or, take, drop,
  is_nil, length-append, take-append-drop, length-take, length-drop, length-map, take-all, All,
  All-append, All-append_left, All-append_right, All-mono, Bytes, codes, IsChar, IsText, within,
  is_space, is_cntrl, is_digit, is_xdigit, to_lower, has, str_eq, starts_with, strcase_eq, split_at,
  split_last, c_string, xstrdup, xstrndup, str_eq_iff, c_string-IsText, has-ne, ℤ, pos, negsuc,
  negate, digits_value, atoi, strip_trailing_chars, take-append, drop-append, drop-drop, take-take,
  drop-all, drop-take, get_or-append,
}
use yafc.Session.{Session, Client, Verbosity, ftp_set_verbosity}
use yafc.Session.Marks.{ftp_cache_flush_mark_for, ftp_cache_flush, ftp_cache_clear}
use yafc.Session.Directories.{state_of, ftp_chdir, ftp_cdup}
use yafc.Session.Commands.{
  ftp_mkdir, ftp_rmdir, ftp_unlink, ftp_chmod, ftp_idle, ftp_noop, ftp_pwd, ftp_help,
  ftp_reply_timeout, ftp_quit, ftp_filesize, ftp_rename, ftp_type,
}
use yafc.Session.Paths.{made_state, ftp_mkpath}
use yafc.Session.Passive.{ftp_pasv}

pub data Operation : Type 0 where
  chdir mkdir rmdir unlink size : Bytes → Operation
  chmod rename : Bytes → Bytes → Operation
  idle help mkpath : Option Bytes → Operation
  cdup noop pwd flush clear quit : Operation
  verbosity : Verbosity → Operation
  timeout type : ℕ → Operation
  pasv : Bool → Operation

-- `none` stands for a crash.
unfoldable pub perform : Client → Operation → Session → Option Session
perform o (chdir path) s = state_of (ftp_chdir o path s)
perform o (mkdir path) s = some (ftp_mkdir o path s).0
perform o (rmdir path) s = some (ftp_rmdir o path s).0
perform o (unlink path) s = some (ftp_unlink o path s).0
perform o (size path) s = some (ftp_filesize o path s).0
perform o (chmod path mode) s = some (ftp_chmod o path mode s).0
perform o (rename oldname newname) s = some (ftp_rename o oldname newname s).0
perform o (idle time) s = some (ftp_idle o time s).0
perform o (help arg) s = some (ftp_help o arg s).0
perform o (mkpath path) s = made_state (ftp_mkpath o path s)
perform o (type byte) s = some (ftp_type o byte s).0
perform o (pasv ipv6) s = some (ftp_pasv o ipv6 s).0
perform o cdup s = some (ftp_cdup o s).0
perform o noop s = some (ftp_noop o s).0
perform o pwd s = some (ftp_pwd o s)
perform o flush s = some (ftp_cache_flush s)
perform o clear s = some (ftp_cache_clear s)
perform o quit s = some (ftp_quit o s)
perform o (verbosity v) s = some (ftp_set_verbosity v s)
perform o (timeout secs) s = some (ftp_reply_timeout secs s)

-- The states that a sequence of operations leads to.
pub data Reaches (o : Client) : Session → Session → Type 0 where
  here : (s : Session) → Reaches o s s
  step :
      (op : Operation) (s t u : Session) → perform o op s ≡ some t → Reaches o t u → Reaches o s u
