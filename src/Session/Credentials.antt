-- ===== src/Session/Credentials.antt =====
-- `get_username` and `get_password` of ftp/ftp.c (under src/). The functions that ask the user are
-- parameters; their prompts are left out.
use yafc.Base.{Bool, not, ◌&&◌, Option, none, some, if◌then◌else◌, Bytes, xstrdup}
use yafc.Url.{Url, url_setusername, url_setpassword, url_isanon}

-- The hooks, or null pointers, each with what the user answers; `none` is that nothing was read.
pub record Hooks : Type 0 where
  pub getuser_hook : Option (Option Bytes)
  pub getpass_hook : Option (Option Bytes)
  pub b64_decode : Bytes → Option Bytes

-- The answer of a hook, where an empty string counts as none.
abbrev pub nonempty : Option Bytes → Option Bytes
nonempty none = none
nonempty (some e) = xstrdup e

abbrev pub named_user : Option Bytes → Option Bytes → Url → Option Url
named_user (some e) guessed url = some (url_setusername (some e) url)
named_user none none url = none
named_user none (some guessed) url = some (url_setusername (some guessed) url)

abbrev pub ask_user : Option (Option Bytes) → Option Bytes → Url → Option Url
ask_user none guessed url = none
ask_user (some answer) guessed url = named_user (nonempty answer) guessed url

-- The URL with a user name; `none` stands for the result -1, with which `loggedin` is reset.
unfoldable pub get_username : Hooks → Option Bytes → Url → Option Url
get_username h guessed url = elim (url.username) [
  | some name ↦ some url
  | none ↦ ask_user h.getuser_hook guessed url
]

-- For an anonymous user: the answer to the hook, or else a copy of `anonpass`.
abbrev pub anonymous_password : Option (Option Bytes) → Option Bytes → Option Bytes
anonymous_password hook anonpass =
    let given = elim hook as (λ x. Option Bytes) [ none ↦ none | some answer ↦ nonempty answer ] in
    elim given [ some e ↦ some e | none ↦ elim anonpass [ none ↦ none | some a ↦ xstrdup a ] ]

abbrev pub hook_password : Option (Option Bytes) → Option Bytes
hook_password none = none
hook_password (some answer) = answer

-- The password that is asked for.
abbrev pub asked_password : Hooks → Option Bytes → Bool → Url → Option Bytes
asked_password h anonpass isproxy url =
    if url_isanon url && not isproxy
    then anonymous_password h.getuser_hook anonpass
    else hook_password h.getpass_hook

abbrev pub with_password : Hooks → Url → Option Bytes → Option Url
with_password h url none = none
with_password h url (some e) = some (url_setpassword h.b64_decode (some e) url)

-- The URL with a password; `none` stands for the result -1.
unfoldable pub get_password : Hooks → Option Bytes → Bool → Url → Option Url
get_password h anonpass isproxy url = elim (url.password) [
  | some word ↦ some url
  | none ↦ with_password h url (asked_password h anonpass isproxy url)
]
