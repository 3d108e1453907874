-- ===== src/Session/Login/Plain.antt =====
-- Logging in without a proxy, with a name and a password, by `ftp_login` of ftp/ftp.c (under src/).
use mathlib.Core.Option
use mathlib.Core.Path.{ap₂}
use yafc.Base.{
  ◌/◌, ◌≤◌, ◌≡◌, refl, ap, ◌∙◌, Bool, true, false, ◌&&◌, Option, none, some, [], ◌∷◌, ◌++◌, arith,
  if◌then◌else◌, le→leb, &&-true, Bytes, codes, ℤ, pos, negsuc,
}
use yafc.Reply.{Conn}
use yafc.Reply.Code.{Code, value, reply_line}
use yafc.Strq.Path.{stripslash, path_dos2unix}
use yafc.Session.{Session, Client, vb_none, ftp_set_tmp_verbosity, ftp_loggedin, is_failure}
use yafc.Session.Exchange.{crlf, answered_with}
use yafc.Session.Scripts.{Script, next}
use yafc.Session.Directories.{
  is_number, completed, reply_text, quoted_part, pwd_directory, ftp_getcurdir, ftp_chdir,
}
use yafc.Session.Credentials.{Hooks}
use yafc.Session.Login.{user_cmd, Outcome, with_url, at_home, enter_home, end_login, ftp_login}
use yafc.Session.Login.Start.{IsPlainLogin, login-Asked, logging_in}
use yafc.Url.{Url, Proxy}

and_false : (a b : Bool) → (a && (b && false)) ≡ false
and_false a b = ground arith

-- Without a proxy, with a name and a password: when the server answers USER with 3xx and refuses PASS
-- with 4xx or 5xx, but not with 421, `ftp_login` returns 1, has sent these two commands only, and leaves
-- a session that is not logged in, though it may have been before.
pub ftp_login-refused :
    (h : Hooks) (o : Client) (proxy : Proxy) (proxy_url : Url) (guessed anonpass : Option Bytes)
    (url : Url) (user word : Bytes) (x y : Code × Bytes) (rest : Bytes) (s : Session)
    → IsPlainLogin proxy url user word s
    → Script o (x ∷ y ∷ []) rest (s.conn)
    → value (x.0) / 100 ≡ 3
    → 4 ≤ value (y.0) / 100
    → (t : Session) × (ftp_login h o proxy proxy_url guessed anonpass url s ≡ some (t, url, pos 1))
      × (t.loggedin ≡ false)
      × (t.conn.sent ≡ (s.conn.sent ++ user_cmd user ++ crlf) ++ (codes "PASS " ++ word) ++ crlf)
unfolding end_login
ftp_login-refused h o proxy proxy_url guessed anonpass url user word x y rest s p script k l =
    let (c, a) =
      login-Asked h o proxy proxy_url guessed anonpass url user word x y [] rest s p script k in
    let t = logging_in c s in
    let fails = ap is_failure a.coded ∙ le→leb 4 (value (y.0) / 100) l in
    let logged_out = and_false (is_number 530 (c.fullcode)) (s.connected && c.is_open) in
    let refused : Bool → Option Outcome =
      λ b. some (if b then (t, url, pos 2) else (t, url, pos 1)) in
    let other : Option Outcome =
      if completed t then enter_home o url t else some (t, url, negsuc 0) in
    let end : end_login o url t ≡ some (t, url, pos 1) =
      ap (λ b. if b then refused (is_number 530 (c.fullcode) && ftp_loggedin t) else other) fails
      ∙ ap refused logged_out in
    (t, a.same ∙ end, refl, a.wrote)

-- The PWD command of a session that has just logged in.
home_of :
    (o : Client) (z : Code × Bytes) (rest dir : Bytes) (s : Session)
    → Script o (z ∷ []) rest (s.conn)
    → value (z.0) / 100 ≡ 2
    → quoted_part (reply_line (z.0) b' ' (z.1)) ≡ some dir
    → (c : Conn) × (ftp_getcurdir o s ≡ (answered_with c s, path_dos2unix (stripslash dir)))
      × (c.sent ≡ s.conn.sent ++ codes "PWD" ++ crlf)
      × (c.input ≡ rest)
      × (c.is_open ≡ true)
unfolding ftp_getcurdir ftp_set_tmp_verbosity pwd_directory
home_of o z rest dir s script k q =
    let quiet = ftp_set_tmp_verbosity vb_none s in
    let a = next o (codes "PWD") z [] rest quiet script in
    let t = answered_with a.after s in
    let d = path_dos2unix (stripslash dir) in
    let part = λ (x : Option Bytes). elim x as (λ y. Bytes) [
      | none ↦ codes "CWD?"
      | some w ↦ path_dos2unix (stripslash w)
    ] in
    let found : pwd_directory (reply_text t) ≡ d =
      ap (λ r. part (quoted_part r)) a.text ∙ ap part q in
    let same : ftp_getcurdir o s ≡ (t, d) =
      ap {B = Session × Bytes}
        (λ x. (x, if completed x then pwd_directory (reply_text x) else codes "CWD?")) a.state
      ∙ ap {B = Session × Bytes}
          (λ n. (t, if is_number 2 n then pwd_directory (reply_text t) else codes "CWD?"))
          (a.coded ∙ ap pos k)
      ∙ ap {B = Session × Bytes} (λ w. (t, w)) found in
    (a.after, same, a.wrote, a.script.incoming, a.script.open_conn)

pub record LoggedIn (user word dir rest : Bytes) (s t : Session) : Type 0 where
  pub loggedin : ftp_loggedin t ≡ true
  pub homedir : t.homedir ≡ some dir
  pub curdir : t.curdir ≡ dir
  pub unread : t.conn.input ≡ rest
  pub wrote :
      t.conn.sent
      ≡ ((s.conn.sent ++ user_cmd user ++ crlf) ++ (codes "PASS " ++ word) ++ crlf)
        ++ codes "PWD"
        ++ crlf

-- Without a proxy, with a name and a password and without a directory in the URL: when the server
-- answers USER with 3xx, PASS with 2xx and PWD with 2xx and a quoted directory, `ftp_login` returns 0 and
-- has sent these three commands only; the session is logged in, and the directory, without a trailing
-- slash and with slashes for backslashes, is its home and its current one.
pub ftp_login-LoggedIn :
    (h : Hooks) (o : Client) (proxy : Proxy) (proxy_url : Url) (guessed anonpass : Option Bytes)
    (url : Url) (user word : Bytes) (x y z : Code × Bytes) (rest dir : Bytes) (s : Session)
    → IsPlainLogin proxy url user word s
    → url.directory ≡ none
    → Script o (x ∷ y ∷ z ∷ []) rest (s.conn)
    → value (x.0) / 100 ≡ 3
    → value (y.0) / 100 ≡ 2
    → value (z.0) / 100 ≡ 2
    → quoted_part (reply_line (z.0) b' ' (z.1)) ≡ some dir
    → (t : Session) × (ftp_login h o proxy proxy_url guessed anonpass url s ≡ some (t, url, pos 0))
      × LoggedIn user word (path_dos2unix (stripslash dir)) rest s t
unfolding end_login enter_home
ftp_login-LoggedIn h o proxy proxy_url guessed anonpass url user word x y z rest dir s p none_dir
      script k l m q =
    let (c, a) =
      login-Asked h o proxy proxy_url guessed anonpass url user word x y (z ∷ []) rest s p script
        k in
    let t = logging_in c s in
    let u : Session = record t { loggedin = true } in
    let (e, home, w, r, open_conn) = home_of o z rest dir u a.script m q in
    let d = path_dos2unix (stripslash dir) in
    let v = at_home d (answered_with e u) in
    let two = a.coded ∙ ap pos l in
    let refused : Option Outcome =
      some (
        if is_number 530 (c.fullcode) && ftp_loggedin t
        then (t, url, pos 2)
        else (t, url, pos 1)) in
    let entered = λ (x : Session × Bytes). elim (url.directory) as (λ y. Option Outcome) [
      | none ↦ some (with_url url (at_home x.1 x.0))
      | some f ↦
          Option.map (λ (y : Session × ℤ). with_url url y.0) (ftp_chdir o f (at_home x.1 x.0))
    ] in
    let direct = λ (x : Option Bytes). elim x as (λ y. Option Outcome) [
      | none ↦ some (with_url url v)
      | some f ↦ Option.map (λ (y : Session × ℤ). with_url url y.0) (ftp_chdir o f v)
    ] in
    let end : end_login o url t ≡ some (v, url, pos 0) =
      ap
        (λ n.
          if is_failure n
          then refused
          else if is_number 2 n
          then enter_home o url t
          else some (t, url, negsuc 0))
        two
      ∙ ap entered home
      ∙ ap direct none_dir in
    (
      v,
      a.same ∙ end,
      record {
        loggedin =
            ap₂ (λ a b. (a && b) && true) (&&-true (s.connected) (s.conn.is_open) p.connected).0
              open_conn;
        homedir = refl;
        curdir = refl;
        unread = r;
        wrote = w ∙ ap (λ b. b ++ codes "PWD" ++ crlf) a.wrote;
      },
    )
