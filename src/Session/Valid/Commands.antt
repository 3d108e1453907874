-- ===== src/Session/Valid/Commands.antt =====
-- The commands on files of ftp/ftp.c (under src/), and the connection of a session that is logged in.
use yafc.Base.{
  ℕ, Bool, true, false, not, Option, some, [], ◌∷◌, ◌++◌, ◌==◌, if◌then◌else◌, if-both, Bytes,
  codes, ℤ, pos, negsuc,
}
use yafc.Strq.Path.{stripslash}
use yafc.Session.{
  Session, Client, Verbosity, vb_none, vb_error, vb_command, ftp_set_tmp_verbosity, ftp_cmd,
}
use yafc.Session.Valid.{IsValid, StaysClosed, ftp_cmd-IsValid}
use yafc.Session.Marks.{ftp_cache_flush_mark, ftp_cache_flush_mark_for}
use yafc.Session.Directories.{is_number, completed, reply_text}
use yafc.Session.Commands.{
  status, marking, is_unknown, without_chmod, without_idle, without_size, with_argument, size_reply,
  typed, no_size, renamed, scan_size, ftp_mkdir_verb, ftp_rmdir, ftp_unlink, ftp_chmod, ftp_idle,
  ftp_noop, ftp_help, ftp_type, ftp_filesize, ftp_rename,
}

module _ (o : Client) (stays : StaysClosed o) where
  -- The state behind a command, after the verbosity was set.
  abbrev pub quietly_run : Bytes → Verbosity → Session → Session
  quietly_run cmd v s = (ftp_cmd o cmd (ftp_set_tmp_verbosity v s)).0

  pub quiet-IsValid :
      (cmd : Bytes) (v : Verbosity) (s : Session) → IsValid s → IsValid (quietly_run cmd v s)
  unfolding ftp_set_tmp_verbosity
  quiet-IsValid cmd v s h = ftp_cmd-IsValid o cmd (ftp_set_tmp_verbosity v s) stays h

  mark_for-IsValid :
      (p : Bytes) (s : Session) → IsValid s → IsValid (ftp_cache_flush_mark_for o p s)
  unfolding ftp_cache_flush_mark_for ftp_cache_flush_mark
  mark_for-IsValid p s h = h

  status-IsValid : (s : Session) → IsValid s → IsValid ((status s).0)
  unfolding status
  status-IsValid s h =
      if-both (λ (x : Session × ℤ). IsValid (x.0)) (completed s) (s, pos 0) (s, negsuc 0) h h

  marked-IsValid :
      (p : Bytes) (s : Session)
      → IsValid s
      → IsValid ((status (marking (ftp_cache_flush_mark_for o p) s)).0)
  marked-IsValid p s h =
      let mark = ftp_cache_flush_mark_for o p in
      status-IsValid (marking mark s)
        (if-both IsValid (completed s) (mark s) s (mark_for-IsValid p s h) h)

  pub mkdir_verb-IsValid :
      (p : Bytes) (v : Verbosity) (s : Session) → IsValid s → IsValid ((ftp_mkdir_verb o p v s).0)
  unfolding ftp_mkdir_verb
  mkdir_verb-IsValid p v s h =
      let cmd = codes "MKD " ++ stripslash p in
      marked-IsValid (stripslash p) (quietly_run cmd v s) (quiet-IsValid cmd v s h)

  pub rmdir-IsValid : (p : Bytes) (s : Session) → IsValid s → IsValid ((ftp_rmdir o p s).0)
  unfolding ftp_rmdir ftp_cache_flush_mark
  rmdir-IsValid p s h =
      let cmd = codes "RMD " ++ stripslash p in
      let t = quietly_run cmd vb_error s in
      let k = quiet-IsValid cmd vb_error s h in
      let marks = λ (t : Session).
        ftp_cache_flush_mark_for o (stripslash p)
          (ftp_cache_flush_mark o (some (stripslash p)) t) in
      let both =
        mark_for-IsValid (stripslash p) (ftp_cache_flush_mark o (some (stripslash p)) t) k in
      status-IsValid (marking marks t) (if-both IsValid (completed t) (marks t) t both k)

  pub unlink-IsValid : (p : Bytes) (s : Session) → IsValid s → IsValid ((ftp_unlink o p s).0)
  unfolding ftp_unlink
  unlink-IsValid p s h =
      let cmd = codes "DELE " ++ p in
      marked-IsValid p (ftp_cmd o cmd s).0 (ftp_cmd-IsValid o cmd s stays h)

  pub chmod-IsValid :
      (p mode : Bytes) (s : Session) → IsValid s → IsValid ((ftp_chmod o p mode s).0)
  unfolding ftp_chmod
  chmod-IsValid p mode s h =
      let cmd = codes "SITE CHMOD " ++ mode ++ b' ' ∷ p in
      let t = quietly_run cmd vb_none s in
      let k = quiet-IsValid cmd vb_none s h in
      let off : Session = record t {
        features = record (t.features) { has_site_chmod_command = false };
      } in
      let known = if-both IsValid (is_unknown t) off t k k in
      if-both (λ (x : Session × ℤ). IsValid (x.0)) (s.features.has_site_chmod_command)
        (status (marking (ftp_cache_flush_mark_for o p) (without_chmod t))) (s, negsuc 0)
        (marked-IsValid p (without_chmod t) known) h

  pub idle-IsValid :
      (time : Option Bytes) (s : Session) → IsValid s → IsValid ((ftp_idle o time s).0)
  unfolding ftp_idle
  idle-IsValid time s h =
      let cmd = with_argument (codes "SITE IDLE") time in
      let t = quietly_run cmd vb_command s in
      let k = quiet-IsValid cmd vb_command s h in
      let off : Session = record t {
        features = record (t.features) { has_site_idle_command = false };
      } in
      let known = if-both IsValid (is_unknown t) off t k k in
      if-both (λ (x : Session × ℤ). IsValid (x.0)) (s.features.has_site_idle_command)
        (status (without_idle t)) (s, negsuc 0) (status-IsValid (without_idle t) known) h

  pub noop-IsValid : (s : Session) → IsValid s → IsValid ((ftp_noop o s).0)
  unfolding ftp_noop
  noop-IsValid s h =
      status-IsValid (quietly_run (codes "NOOP") vb_command s)
        (quiet-IsValid (codes "NOOP") vb_command s h)

  pub help-IsValid : (arg : Option Bytes) (s : Session) → IsValid s → IsValid ((ftp_help o arg s).0)
  unfolding ftp_help
  help-IsValid arg s h =
      let cmd = with_argument (codes "HELP") arg in
      status-IsValid (quietly_run cmd vb_command s) (quiet-IsValid cmd vb_command s h)

  type-IsValid : (type : ℕ) (s : Session) → IsValid s → IsValid ((ftp_type o type s).0)
  unfolding ftp_type typed
  type-IsValid type s h =
      let cmd = codes "TYPE " ++ type ∷ [] in
      let t = (ftp_cmd o cmd s).0 in
      let k = ftp_cmd-IsValid o cmd s stays h in
      let P = λ (x : Session × Bool). IsValid (x.0) in
      if-both P (s.prev_type == type) (s, true) (typed type t) h
        (if-both P (completed t) (record t { prev_type = type }, true) (t, false) k k)

  pub size-IsValid : (p : Bytes) (s : Session) → IsValid s → IsValid ((ftp_filesize o p s).0)
  unfolding ftp_filesize size_reply
  size-IsValid p s h =
      let P = λ (x : Session × ℕ). IsValid (x.0) in
      let binary = (ftp_type o b'I' s).0 in
      let cmd = codes "SIZE " ++ p in
      let b = type-IsValid b'I' s h in
      let t = quietly_run cmd vb_error binary in
      let k = quiet-IsValid cmd vb_error binary b in
      let replied : IsValid ((size_reply t).0) =
        if-both P (is_unknown t) (without_size t, no_size)
          (if completed t then (t, scan_size (reply_text t)) else (t, no_size)) k
          (if-both P (completed t) (t, scan_size (reply_text t)) (t, no_size) k k) in
      let is_binary = (ftp_type o b'I' s).1 in
      if-both P (not s.features.has_size_command) (s, no_size)
        (if not is_binary then (binary, no_size) else size_reply t) h
        (if-both P (not is_binary) (binary, no_size) (size_reply t) b replied)

  pub rename-IsValid : (a b : Bytes) (s : Session) → IsValid s → IsValid ((ftp_rename o a b s).0)
  unfolding ftp_rename renamed
  rename-IsValid a b s h =
      let P = λ (x : Session × ℤ). IsValid (x.0) in
      let on = stripslash a in
      let nn = stripslash b in
      let from = (ftp_cmd o (codes "RNFR " ++ on) s).0 in
      let k = ftp_cmd-IsValid o (codes "RNFR " ++ on) s stays h in
      let to = (ftp_cmd o (codes "RNTO " ++ nn) from).0 in
      let l = ftp_cmd-IsValid o (codes "RNTO " ++ nn) from stays k in
      let half = ftp_cache_flush_mark_for o on to in
      let done = mark_for-IsValid nn half (mark_for-IsValid on to l) in
      let last =
        if-both P (completed to) (ftp_cache_flush_mark_for o nn half, pos 0) (to, negsuc 0) done
          l in
      if-both P (is_number 3 (from.conn.code)) (renamed o on nn to) (from, negsuc 0) last k
