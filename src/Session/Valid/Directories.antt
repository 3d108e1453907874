-- ===== src/Session/Valid/Directories.antt =====
-- The current directory, `ftp_mkpath` and `ftp_quit` of ftp/ftp.c and `ftp_type` and `ftp_pasv` of
-- ftp/ftpsend.c (under src/), and the connection of a session that is logged in.
use yafc.Base.{
  ℕ, refl, Bool, true, false, not, ◌||◌, Option, none, some, List, [], ◌∷◌, ◌++◌, arith, ◌==◌,
  if◌then◌else◌, if-both, Bytes, codes, str_eq, ℤ, pos, negsuc,
}
use mathlib.Core.Option
use yafc.Strq.Scan.{split_all}
use yafc.Strq.Quote.{unquote}
use yafc.Strq.Path.{path_collapse}
use yafc.Session.{Session, Client, vb_none, vb_command, ftp_reset_vars, ftp_connected, ftp_cmd}
use yafc.Session.Valid.Commands.{quietly_run, quiet-IsValid, mkdir_verb-IsValid}
use yafc.Session.Valid.{IsValid, StaysClosed, ftp_cmd-IsValid}
use yafc.Session.Marks.{ftp_path_absolute}
use yafc.Session.Directories.{
  is_number, completed, reply_text, Source, named, unnamed, asked, cwd_source, with_result,
  ftp_getcurdir, ftp_update_curdir_x, ftp_update_curdir, enter, state_of, chdir_reply, ftp_chdir,
  ftp_cdup,
}
use yafc.Session.Commands.{ftp_mkdir_verb, ftp_quit, typed, ftp_type}
use yafc.Session.Passive.{Passive, refused, parse_pasv, ftp_getreply, without_pasv, ftp_pasv}
use yafc.Session.Paths.{
  is_created, longer, mkpath_step, mkpath_loop, root_of, mkpath_copied, made_state, ftp_mkpath,
}

-- What holds of a state that there is.
abbrev pub Maybe : Option Session → Type 0
Maybe none = Unit
Maybe (some s) = IsValid s

module _ (o : Client) (stays : StaysClosed o) where
  getcurdir-IsValid : (s : Session) → IsValid s → IsValid ((ftp_getcurdir o s).0)
  unfolding ftp_getcurdir
  getcurdir-IsValid s h = quiet-IsValid o stays (codes "PWD") vb_none s h

  update_curdir-IsValid : (s : Session) → IsValid s → IsValid (ftp_update_curdir o s)
  unfolding ftp_update_curdir
  update_curdir-IsValid s h = getcurdir-IsValid (record s { prevdir = some (s.curdir) }) h

  pub cdup-IsValid : (s : Session) → IsValid s → IsValid ((ftp_cdup o s).0)
  unfolding ftp_cdup
  cdup-IsValid s h =
      let t = quietly_run o stays (codes "CDUP") vb_command s in
      let k = quiet-IsValid o stays (codes "CDUP") vb_command s h in
      if-both (λ (x : Session × ℤ). IsValid (x.0)) (completed t) (ftp_update_curdir o t, pos 0)
        (t, negsuc 0) (update_curdir-IsValid t k) k

  enter-Maybe : (x : Source) (s : Session) → IsValid s → Maybe (enter o x s)
  unfolding enter ftp_update_curdir_x
  enter-Maybe (named []) s h = tt
  enter-Maybe (named (c ∷ dir)) s h = h
  enter-Maybe unnamed s h = h
  enter-Maybe asked s h = update_curdir-IsValid s h

  state_of-Maybe :
      (r : ℤ) (x : Option Session) → Maybe x → Maybe (state_of (Option.map (with_result r) x))
  state_of-Maybe r none h = h
  state_of-Maybe r (some s) h = h

  pub chdir-Maybe : (path : Bytes) (s : Session) → IsValid s → Maybe (state_of (ftp_chdir o path s))
  unfolding ftp_chdir chdir_reply
  chdir-Maybe path s h =
      let cmd = codes "CWD " ++ path in
      let t = quietly_run o stays cmd vb_command s in
      let k = quiet-IsValid o stays cmd vb_command s h in
      let x = enter o (cwd_source (reply_text t)) t in
      if-both (λ (y : Option (Session × ℤ)). Maybe (state_of y)) (completed t)
        (Option.map (with_result (pos 0)) x) (some (t, negsuc 0))
        (state_of-Maybe (pos 0) x (enter-Maybe (cwd_source (reply_text t)) t k)) k

  step-IsValid :
      (e : Bytes) (s : Session) (made : Bool) → IsValid s → IsValid ((mkpath_step o e (s, made)).0)
  unfolding mkpath_step
  step-IsValid e s made h =
      let t = (ftp_mkdir_verb o e vb_none s).0 in
      let skipped = is_created e (s.last_mkpath) (s.curdir) || str_eq e (codes ".") in
      if-both (λ (x : Session × Bool). IsValid (x.0)) skipped (s, made) (t, completed t) h
        (mkdir_verb-IsValid o stays e vb_none s h)

  loop-IsValid :
      (e : Option Bytes) (names : List Bytes) (s : Session) (made : Bool)
      → IsValid s
      → IsValid ((mkpath_loop o e names (s, made)).0)
  unfolding mkpath_loop
  loop-IsValid e [] s made h = h
  loop-IsValid e (name ∷ names) s made h =
      let x = mkpath_step o (longer e name) (s, made) in
      loop-IsValid (some (longer e name)) names (x.0) (x.1) (step-IsValid (longer e name) s made h)

  copied-IsValid : (path : Bytes) (s : Session) → IsValid s → IsValid ((mkpath_copied o path s).0)
  unfolding ftp_path_absolute
  copied-IsValid path s h =
      let p = unquote (path_collapse path) in loop-IsValid (root_of p) (split_all b'/' p) s false h

  pub mkpath-Maybe :
      (path : Option Bytes) (s : Session) → IsValid s → Maybe (made_state (ftp_mkpath o path s))
  unfolding ftp_mkpath
  mkpath-Maybe none s h = h
  mkpath-Maybe (some []) s h =
      if-both (λ (x : Option (Session × Bool)). Maybe (made_state x))
        (is_created [] (s.last_mkpath) (s.curdir)) (some (s, false)) none h tt
  mkpath-Maybe (some (c ∷ q)) s h =
      if-both (λ (x : Option (Session × Bool)). Maybe (made_state x))
        (is_created (c ∷ q) (s.last_mkpath) (s.curdir)) (some (s, false))
        (some (mkpath_copied o (c ∷ q) s)) h (copied-IsValid (c ∷ q) s h)

  pub type-IsValid : (byte : ℕ) (s : Session) → IsValid s → IsValid ((ftp_type o byte s).0)
  unfolding ftp_type typed
  type-IsValid byte s h =
      let t = (ftp_cmd o (codes "TYPE " ++ byte ∷ []) s).0 in
      let k = ftp_cmd-IsValid o (codes "TYPE " ++ byte ∷ []) s stays h in
      let valid = λ (x : Session × Bool). IsValid (x.0) in
      if-both valid (s.prev_type == byte) (s, true) (typed byte t) h
        (if-both valid (completed t) (record t { prev_type = byte }, true) (t, false) k k)

  pub pasv-IsValid : (ipv6 : Bool) (s : Session) → IsValid s → IsValid ((ftp_pasv o ipv6 s).0)
  unfolding ftp_pasv
  pasv-IsValid ipv6 s h =
      let cmd = if ipv6 then codes "EPSV" else codes "PASV" in
      let t = quietly_run o stays cmd vb_none s in
      let k = quiet-IsValid o stays cmd vb_none s h in
      let valid = λ (x : Session × Passive). IsValid (x.0) in
      let read : Session × Passive = (t, parse_pasv ipv6 (ftp_getreply (t.conn.reply))) in
      let failed : Session × Passive = (without_pasv t, refused) in
      let got = if completed t then read else failed in
      let none_left : valid failed =
        if-both IsValid (is_number 5 (t.conn.code))
          (record t { features = record (t.features) { has_pasv_command = false } }) t k k in
      let asked = if not (ftp_connected t) then (t, refused) else got in
      if-both valid (not (s.features.has_pasv_command)) (s, refused) asked h
        (if-both valid (not (ftp_connected t)) (t, refused) got k
          (if-both valid (completed t) read failed k none_left))

  pub quit-IsValid : (s : Session) → IsValid (ftp_quit o s)
  unfolding ftp_quit ftp_reset_vars
  quit-IsValid s = record {
    loggedin_open = λ e. absurd (ground (arith, e));
    open_connected = λ e. absurd (ground (arith, e));
    closed_code = λ e. refl;
  }
