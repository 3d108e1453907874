-- ===== src/Session/Login/Start.antt =====
-- The first two commands of a login without a proxy, by `ftp_login` of ftp/ftp.c (under src/).

use yafc.Base.{
  ◌/◌, ◌≡◌, ap, ◌∙◌, Bool, true, false, Option, none, some, List, ◌∷◌, ◌++◌, if◌then◌else◌, Bytes,
  codes, pos, negsuc,
}
use yafc.Reply.{Conn}
use yafc.Reply.Code.{Code, value}
use yafc.Session.{Session, Client, vb_unset, vb_command, ftp_set_tmp_verbosity, ftp_connected}
use yafc.Session.Exchange.{crlf, answered_with}
use yafc.Session.Scripts.{Script, next}
use yafc.Session.Directories.{is_number}
use yafc.Session.Credentials.{
  Hooks, ask_user, with_password, asked_password, get_username, get_password,
}
use yafc.Session.Login.{
  going, shown, user_cmd, run, send_user, pass_text, Outcome, end_login, ask_second, password_phase,
  continue_login, name_proxy, first_verbosity, ftp_login,
}
use yafc.Url.{Url, Proxy, proxy_type, url_clone}

-- A URL with a name and a password, on a connection without a proxy.
pub record IsPlainLogin (proxy : Proxy) (url : Url) (user word : Bytes) (s : Session) : Type 0 where
  pub connected : ftp_connected s ≡ true
  pub username : url.username ≡ some user
  pub password : url.password ≡ some word
  pub no_proxy : proxy_type proxy url ≡ 0

get_username-some :
    (h : Hooks) (guessed : Option Bytes) (url : Url) (user : Bytes)
    → url.username ≡ some user
    → get_username h guessed url ≡ some url
unfolding get_username
get_username-some h guessed url user e =
    ap
      (λ x. elim x as (λ y. Option Url) [
        | some name ↦ some url
        | none ↦ ask_user (h.getuser_hook) guessed url
      ])
      e

get_password-some :
    (h : Hooks) (anonpass : Option Bytes) (isproxy : Bool) (url : Url) (word : Bytes)
    → url.password ≡ some word
    → get_password h anonpass isproxy url ≡ some url
unfolding get_password
get_password-some h anonpass isproxy url word e =
    let asked = with_password h url (asked_password h anonpass isproxy url) in
    ap (λ x. elim x as (λ y. Option Url) [ some given ↦ some url | none ↦ asked ]) e

abbrev pub pass_cmd : Bytes → Bytes
pass_cmd word = codes "PASS " ++ word

-- The login of such a URL by its first two steps.
login-start :
    (h : Hooks) (o : Client) (proxy : Proxy) (proxy_url : Url) (guessed anonpass : Option Bytes)
    (url : Url) (user word : Bytes) (s : Session)
    → IsPlainLogin proxy url user word s
    → let start = ftp_set_tmp_verbosity (first_verbosity url) s in
      ftp_login h o proxy proxy_url guessed anonpass url s
      ≡ continue_login h o anonpass 0 url
          (going (run o (user_cmd user) start) (url_clone proxy_url))
unfolding ftp_login send_user
login-start h o proxy proxy_url guessed anonpass url user word s p =
    let purl = url_clone proxy_url in
    let failed : Option Outcome = some (record s { loggedin = false }, url, negsuc 0) in
    let begin = λ (x : Option Url). elim x as (λ y. Option Outcome) [
      | none ↦ failed
      | some u ↦ name_proxy h o anonpass (proxy_type proxy url) u purl s
    ] in
    let start = ftp_set_tmp_verbosity (first_verbosity url) s in
    ap (λ b. if b then begin (get_username h guessed url) else some (s, url, pos 1)) p.connected
    ∙ ap begin (get_username-some h guessed url user p.username)
    ∙ ap (λ n. name_proxy h o anonpass n url purl s) p.no_proxy
    ∙ ap (λ n. continue_login h o anonpass 0 url (going (run o (user_cmd (shown n)) start) purl))
        p.username

-- The password, behind a reply 3xx to the name.
login-password :
    (h : Hooks) (o : Client) (anonpass : Option Bytes) (url purl : Url) (word : Bytes) (s : Session)
    → url.password ≡ some word
    → s.conn.code ≡ pos 3
    → continue_login h o anonpass 0 url (going s purl)
      ≡ end_login o url
          (run o (pass_cmd word) (ftp_set_tmp_verbosity vb_command (record s { loggedin = false })))
unfolding continue_login password_phase pass_text
login-password h o anonpass url purl word s p c =
    let t : Session = record s { loggedin = false } in
    let quiet = ftp_set_tmp_verbosity vb_command t in
    let asked = λ (x : Option Url). elim x as (λ y. Option Outcome) [
      | none ↦ some (t, url, negsuc 0)
      | some u ↦ ask_second h o 0 u purl t
    ] in
    ap (λ n. if is_number 3 n then asked (get_password h anonpass false url) else end_login o url s)
      c
    ∙ ap asked (get_password-some h anonpass false url word p)
    ∙ ap (λ w. end_login o url (run o (codes "PASS " ++ shown w) quiet)) p

-- Both commands were sent, and the second was answered by `y`.
pub record Asked (o : Client) (user word : Bytes) (y : Code × Bytes) (zs : List (Code × Bytes))
    (rest : Bytes) (s : Session) (run_login end : Option Outcome) (c : Conn) : Type 0 where
  pub same : run_login ≡ end
  pub script : Script o zs rest c
  pub wrote : c.sent ≡ (s.conn.sent ++ user_cmd user ++ crlf) ++ pass_cmd word ++ crlf
  pub number : c.fullcode ≡ pos (value (y.0))
  pub coded : c.code ≡ pos (value (y.0) / 100)

-- The session behind both.
abbrev pub logging_in : Conn → Session → Session
logging_in c s = record s { conn = c; tmp_verbosity = vb_unset; loggedin = false }

pub login-Asked :
    (h : Hooks) (o : Client) (proxy : Proxy) (proxy_url : Url) (guessed anonpass : Option Bytes)
    (url : Url) (user word : Bytes) (x y : Code × Bytes) (zs : List (Code × Bytes)) (rest : Bytes)
    (s : Session)
    → IsPlainLogin proxy url user word s
    → Script o (x ∷ y ∷ zs) rest (s.conn)
    → value (x.0) / 100 ≡ 3
    → (c : Conn) × Asked o user word y zs rest s
        (ftp_login h o proxy proxy_url guessed anonpass url s)
        (end_login o url (logging_in c s))
        c
unfolding ftp_set_tmp_verbosity
login-Asked h o proxy proxy_url guessed anonpass url user word x y zs rest s p script k =
    let start = ftp_set_tmp_verbosity (first_verbosity url) s in
    let a = next o (user_cmd user) x (y ∷ zs) rest start script in
    let t = answered_with a.after start in
    let quiet = ftp_set_tmp_verbosity vb_command (record t { loggedin = false }) in
    let b = next o (pass_cmd word) y zs rest quiet a.script in
    let begin = login-start h o proxy proxy_url guessed anonpass url user word s p in
    let purl = url_clone proxy_url in
    (
      b.after,
      record {
        same =
            begin
            ∙ ap (λ z. continue_login h o anonpass 0 url (going z purl)) a.state
            ∙ login-password h o anonpass url purl word t p.password (a.coded ∙ ap pos k)
            ∙ ap (end_login o url) b.state;
        script = b.script;
        wrote = b.wrote ∙ ap (λ z. z ++ pass_cmd word ++ crlf) a.wrote;
        number = b.number;
        coded = b.coded;
      },
    )
