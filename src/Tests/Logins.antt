-- ===== src/Tests/Logins.antt =====
-- Logins at a sample server, and sequences of operations.
use yafc.Base.{
  ◌≡◌, refl, true, false, none, some, List, [], ◌∷◌, ◌++◌, arith, Bytes, codes, split_at, pos,
}
use yafc.Strq.Path.{stripslash, path_dos2unix}
use yafc.Reply.Code.{Code}
use yafc.Session.{Session, ftp_connected}
use yafc.Session.Scripts.{answers_wire, Script}
use yafc.Session.Directories.{quoted_part}
use yafc.Session.Credentials.{Hooks}
use yafc.Session.Login.{user_cmd, ftp_login}
use yafc.Session.Login.Start.{IsPlainLogin}
use yafc.Session.Login.Plain.{LoggedIn, ftp_login-LoggedIn, ftp_login-refused}
use yafc.Session.Exchange.{crlf}
use yafc.Session.Valid.{IsValid}
use yafc.Session.Operations.{Operation, perform, Reaches, here, step, noop, quit}
use yafc.Session.Operations.Runs.{Reaches-IsValid}
use yafc.Url.{Url, Proxy, url_create, proxy_type}
use yafc.Tests.Sessions.{sample_client, session_with, fits, number, code_257}

abbrev hooks : Hooks
hooks = record { getuser_hook = none; getpass_hook = none; b64_decode = λ s. none }

abbrev no_proxy : Proxy
no_proxy = record { kind = 0; is_set = false; excluded = [] }

abbrev site : Url
site = record url_create {
  hostname = some (codes "host");
  username = some (codes "me");
  password = some (codes "pw");
}

abbrev code_331 : Code
code_331 = number 3 3 1 (omega arith) (omega arith) (omega arith)

abbrev code_230 : Code
code_230 = number 2 3 0 (omega arith) (omega arith) (omega arith)

abbrev code_530 : Code
code_530 = number 5 3 0 (omega arith) (omega arith) (omega arith)

abbrev welcome : List (Code × Bytes)
welcome = (code_331, codes "go on") ∷ (code_230, codes "ok") ∷ (code_257, codes "\"/home/\"") ∷ []

abbrev refusal : List (Code × Bytes)
refusal = (code_331, codes "go on") ∷ (code_530, codes "no") ∷ []

abbrev new_session : List (Code × Bytes) → Session
new_session xs = record (session_with (answers_wire xs [])) { loggedin = false }

plain :
    (s : Session) → ftp_connected s ≡ true → IsPlainLogin no_proxy site (codes "me") (codes "pw") s
unfolding proxy_type
plain s h = record { connected = h; username = refl; password = refl; no_proxy = refl }

welcome-Script : Script sample_client welcome [] ((new_session welcome).conn)
welcome-Script = record {
  open_conn = refl;
  incoming = refl;
  answers = (
    (fits (codes "331 go on") refl (omega arith), refl),
    (
      (fits (codes "230 ok") refl (omega arith), refl),
      ((fits (codes "257 \"/home/\"") refl (omega arith), refl), tt),
    ),
  );
  no_error = λ sent. refl;
}

refusal-Script : Script sample_client refusal [] ((new_session refusal).conn)
refusal-Script = record {
  open_conn = refl;
  incoming = refl;
  answers = (
    (fits (codes "331 go on") refl (omega arith), refl),
    ((fits (codes "530 no") refl (omega arith), refl), tt),
  );
  no_error = λ sent. refl;
}

ftp_login-LoggedIn_example :
    (t : Session) × (ftp_login hooks sample_client no_proxy url_create none none site
        (new_session welcome)
      ≡ some (t, site, pos 0))
    × LoggedIn
        (codes "me")
        (codes "pw")
        (path_dos2unix (stripslash (codes "/home/")))
        []
        (new_session welcome)
        t
unfolding quoted_part split_at
ftp_login-LoggedIn_example =
    ftp_login-LoggedIn hooks sample_client no_proxy url_create none none site (codes "me")
      (codes "pw") (code_331, codes "go on") (code_230, codes "ok") (code_257, codes "\"/home/\"")
      [] (codes "/home/") (new_session welcome) (plain (new_session welcome) refl) refl
      welcome-Script refl refl refl refl

ftp_login-refused_example :
    (t : Session) × (ftp_login hooks sample_client no_proxy url_create none none site
        (new_session refusal)
      ≡ some (t, site, pos 1))
    × (t.loggedin ≡ false)
    × (t.conn.sent ≡ ([] ++ user_cmd (codes "me") ++ crlf) ++ (codes "PASS " ++ codes "pw") ++ crlf)
ftp_login-refused_example =
    ftp_login-refused hooks sample_client no_proxy url_create none none site (codes "me")
      (codes "pw") (code_331, codes "go on") (code_530, codes "no") [] (new_session refusal)
      (plain (new_session refusal) refl) refusal-Script refl (omega arith)

abbrev busy : Session
busy = session_with (answers_wire welcome [])

busy-IsValid : IsValid busy
busy-IsValid = record {
  loggedin_open = λ e. refl;
  open_connected = λ e. refl;
  closed_code = λ e. refl;
}

abbrev after : Operation → Session → Session
after op s = elim (perform sample_client op s) [ none ↦ s | some t ↦ t ]

two_operations : Reaches sample_client busy (after quit (after noop busy))
unfolding perform
two_operations = step noop busy (after noop busy) (after quit (after noop busy)) refl (
    step quit (after noop busy) (after quit (after noop busy)) (after quit (after noop busy)) refl
      (here (after quit (after noop busy))))

Reaches-IsValid_example : IsValid (after quit (after noop busy))
Reaches-IsValid_example =
    Reaches-IsValid sample_client busy (after quit (after noop busy)) refl busy-IsValid
      two_operations
