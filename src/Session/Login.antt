-- ===== src/Session/Login.antt =====
-- `ftp_login` of ftp/ftp.c (under src/), as it is compiled without SECFTP.
pub mod Start
pub mod Plain
use mathlib.Core.Option
use yafc.Base.{decimal}
use yafc.Base.{
  ℕ, zero, suc, ◌+◌, ◌-◌, ◌*◌, ◌/◌, ◌%◌, ◌^◌, ◌≤◌, ◌<◌, ◌≡◌, refl, sym, ap, ◌∙◌, ◌≢◌, ◌↔◌, ◌⊎◌, inl,
  inr, Bool, true, false, not, ◌&&◌, ◌||◌, Option, none, some, List, [], ◌∷◌, ◌++◌, map, append-nil,
  append_assoc, arith, ltb, leb, ◌==◌, if◌then◌else◌, ltb→lt, lt→ltb, leb→le, le→leb, ==_iff,
  Bool-cases, Option-cases, some-eq, &&-true, ||-false, length, get_elem?, get_or, take, drop,
  is_nil, length-append, take-append-drop, length-take, length-drop, length-map, take-all, All,
  All-append, All-append_left, All-append_right, All-mono, Bytes, codes, IsChar, IsText, within,
  is_space, is_cntrl, is_digit, is_xdigit, to_lower, has, str_eq, starts_with, strcase_eq, split_at,
  split_last, c_string, xstrdup, xstrndup, str_eq_iff, c_string-IsText, has-ne, ℤ, pos, negsuc,
  negate, digits_value, atoi, strip_trailing_chars, take-append, drop-append, drop-drop, take-take,
  drop-all, drop-take, get_or-append,
}
use yafc.Session.{
  Session, Client, Verbosity, vb_error, vb_command, ftp_set_tmp_verbosity, ftp_cmd, ftp_connected,
  ftp_loggedin, is_failure,
}
use yafc.Session.Directories.{is_number, completed, ftp_getcurdir, ftp_chdir}
use yafc.Session.Credentials.{Hooks, get_username, get_password}
use yafc.Url.{Url, Proxy, proxy_type, url_clone, url_setusername, url_setpassword, url_isanon}

-- "%s"
abbrev pub shown : Option Bytes → Bytes
shown none = codes "(null)"
shown (some s) = s

abbrev pub user_cmd : Bytes → Bytes
user_cmd name = codes "USER " ++ name

abbrev pub at : Bytes → Bytes → Bytes
at name host = name ++ b'@' ∷ host

abbrev pub run : Client → Bytes → Session → Session
run o cmd s = (ftp_cmd o cmd s).0

-- ftp->code == ctContinue
abbrev pub continues : Session → Bool
continues s = is_number 3 (s.conn.code)

-- A step of the login: the state and the proxy's URL, or the result with which the login ends.
pub data Step : Type 0 where
  going : Session → Url → Step
  ended : Session → ℤ → Step

-- Behind the proxy's password, for the types 2 to 4.
unfoldable pub through_proxy : Client → ℕ → Url → Url → Session → Session
through_proxy o ptype url purl s =
    let user = shown url.username in
    let host = shown url.hostname in
    let direct = run o (user_cmd (at user host)) s in
    let word = if ptype == 3 then codes "SITE " else codes "OPEN " in
    let opened = run o (word ++ shown purl.hostname) s in
    let then_user = run o (user_cmd user) opened in
    if ptype == 2 then direct else if is_failure (opened.conn.code) then opened else then_user

-- PASS for the proxy, and what follows if it is not refused.
abbrev pub proxy_password : Hooks → Client → (Url → Session → Session) → Url → Session → Step
proxy_password h o next purl s = elim (get_password h none true purl) [
  | none ↦ ended s (pos 0)
  | some p ↦
      let replied = run o (codes "PASS " ++ shown p.password) s in
      let followed = next p replied in
      going (if is_failure (replied.conn.code) then replied else followed) p
]

abbrev pub proxy_user : Hooks → Client → Bytes → (Url → Session → Session) → Url → Session → Step
proxy_user h o name next purl s =
    let asked = run o (user_cmd name) s in
    let answered = proxy_password h o next purl asked in
    if continues asked then answered else going asked purl

-- The first `switch`.
unfoldable pub send_user : Hooks → Client → ℕ → Url → Url → Session → Step
send_user h o ptype url purl s =
    let user = shown url.username in
    let host = shown url.hostname in
    let puser = shown purl.username in
    let far = proxy_user h o puser (λ p t. through_proxy o ptype url p t) purl s in
    let near = proxy_user h o (at puser host) (λ p t. run o (user_cmd user) t) purl s in
    let plain = going (run o (user_cmd user) s) purl in
    let with_host = going (run o (user_cmd (at user host)) s) purl in
    let with_both = going (run o (user_cmd (at (at user puser) host)) s) purl in
    let with_port = going (run o (user_cmd (at user host ++ b':' ∷ decimal url.port)) s) purl in
    if ptype == 1
    then with_host
    else if leb 2 ptype && leb ptype 4
    then far
    else if ptype == 5
    then with_both
    else if ptype == 6
    then near
    else if ptype == 7
    then with_port
    else plain

-- The second `switch`.
unfoldable pub pass_text : ℕ → Url → Url → Bytes
pass_text ptype url purl =
    let word = shown url.password in
    codes "PASS " ++ (if ptype == 5 then at word (shown purl.password) else word)

-- The proxy's part of the passwords: only type 5 asks for it here.
abbrev pub second_password : Hooks → ℕ → Url → Option Url
second_password h ptype purl = if ptype == 5 then get_password h none true purl else some purl

-- The state, the URL and the result.
abbrev pub Outcome : Type 0
Outcome = Session × Url × ℤ

abbrev pub with_url : Url → Session → Outcome
with_url url s = (s, url, pos 0)

-- The directories of a session that has just logged in. An empty one stands for the null pointer that its
-- copy is.
abbrev pub at_home : Bytes → Session → Session
at_home dir s = record s { homedir = some dir; curdir = dir; prevdir = xstrdup dir }

-- `none` stands for a crash of `ftp_chdir`.
unfoldable pub enter_home : Client → Url → Session → Option Outcome
enter_home o url s =
    let (t, dir) = ftp_getcurdir o (record s { loggedin = true }) in
    elim (url.directory) [
      | none ↦ some (with_url url (at_home dir t))
      | some d ↦ Option.map (λ (x : Session × ℤ). with_url url x.0) (ftp_chdir o d (at_home dir t))
    ]

-- Behind the reply to the last command: 530 from one who was logged in says that one is already.
unfoldable pub end_login : Client → Url → Session → Option Outcome
end_login o url s =
    let home = enter_home o url s in
    if is_failure (s.conn.code)
    then some (
        if is_number 530 (s.conn.fullcode) && ftp_loggedin s
        then (s, url, pos 2)
        else (record s { loggedin = false }, url, pos 1))
    else if completed s
    then home
    else some (s, url, negsuc 0)

-- Behind the passwords.
abbrev pub send_password : Client → ℕ → Url → Url → Session → Option Outcome
send_password o ptype url purl s =
    end_login o url (run o (pass_text ptype url purl) (ftp_set_tmp_verbosity vb_command s))

abbrev pub ask_second : Hooks → Client → ℕ → Url → Url → Session → Option Outcome
ask_second h o ptype url purl s = elim (second_password h ptype purl) [
  | none ↦ some (s, url, pos 0)
  | some p ↦ send_password o ptype url p s
]

unfoldable pub password_phase :
    Hooks → Client → Option Bytes → ℕ → Url → Url → Session → Option Outcome
password_phase h o anonpass ptype url purl s = elim (get_password h anonpass false url) [
  | none ↦ some (s, url, negsuc 0)
  | some u ↦ ask_second h o ptype u purl s
]

-- Behind the user's name.
unfoldable pub continue_login : Hooks → Client → Option Bytes → ℕ → Url → Step → Option Outcome
continue_login h o anonpass ptype url (ended s r) = some (s, url, r)
continue_login h o anonpass ptype url (going s purl) =
    let asked = password_phase h o anonpass ptype url purl (record s { loggedin = false }) in
    let done = end_login o url s in if continues s then asked else done

-- The name for the proxy, which the types 2 to 6 send.
abbrev pub proxy_name : Hooks → ℕ → Url → Option Url
proxy_name h ptype purl = if leb 2 ptype && leb ptype 6 then get_username h none purl else some purl

abbrev pub first_verbosity : Url → Verbosity
first_verbosity url = elim (url.password) [ some word ↦ vb_error | none ↦ vb_command ]

abbrev pub start_login : Hooks → Client → Option Bytes → ℕ → Url → Url → Session → Option Outcome
start_login h o anonpass ptype url purl s =
    continue_login h o anonpass ptype url
      (send_user h o ptype url purl (ftp_set_tmp_verbosity (first_verbosity url) s))

abbrev pub name_proxy : Hooks → Client → Option Bytes → ℕ → Url → Url → Session → Option Outcome
name_proxy h o anonpass ptype url purl s = elim (proxy_name h ptype purl) [
  | none ↦ some (record s { loggedin = false }, url, negsuc 0)
  | some p ↦ start_login h o anonpass ptype url p s
]

-- `proxy_url` is gvProxyUrl; the session has a URL.
unfoldable pub ftp_login :
    Hooks → Client → Proxy → Url → Option Bytes → Option Bytes → Url → Session → Option Outcome
ftp_login h o proxy proxy_url guessed anonpass url s =
    let named = elim (get_username h guessed url) as (λ x. Option Outcome) [
      | none ↦ some (record s { loggedin = false }, url, negsuc 0)
      | some u ↦ name_proxy h o anonpass (proxy_type proxy url) u (url_clone proxy_url) s
    ] in
    if ftp_connected s then named else some (s, url, pos 1)
