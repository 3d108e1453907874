-- ===== src/Url/Parse.antt =====
-- `url_parse` and `url_init` of ftp/url.c (under src/). `none` stands for a crash: reading behind the end
-- of the string, or from the null pointer.
pub mod Parts
pub mod RoundTrip
use yafc.Base.{
  ℕ, zero, suc, ◌+◌, ◌-◌, ◌*◌, ◌/◌, ◌%◌, ◌^◌, ◌≤◌, ◌<◌, ◌≡◌, refl, sym, ap, ◌∙◌, ◌≢◌, ◌↔◌, ◌⊎◌, inl,
  inr, Bool, true, false, not, ◌&&◌, ◌||◌, Option, none, some, List, [], ◌∷◌, ◌++◌, map, append-nil,
  append_assoc, arith, ltb, leb, ◌==◌, if◌then◌else◌, ltb→lt, lt→ltb, leb→le, le→leb, ==_iff,
  Bool-cases, Option-cases, some-eq, &&-true, ||-false, length, get_elem?, get_or, take, drop,
  is_nil, length-append, take-append-drop, length-take, length-drop, length-map, take-all, All,
  All-append, All-append_left, All-append_right, All-mono, Bytes, codes, IsChar, IsText, within,
  is_space, is_cntrl, is_digit, is_xdigit, to_lower, has, str_eq, starts_with, strcase_eq, split_at,
  split_last, c_string, xstrdup, xstrndup, str_eq_iff, c_string-IsText, has-ne, ℤ, pos, negsuc,
  negate, digits_value, atoi, strip_trailing_chars, take-append, drop-append, drop-drop, take-take,
  drop-all, drop-take, get_or-append,
}
use yafc.Strq.Quote.{unquote}
use yafc.Strq.Scan.{Search, found, absent, overrun, strqchr, strqnchr}
use yafc.Url.{
  Url, url_create, url_setprotocol, url_sethostname, url_setusername, url_setpassword,
  url_setdirectory, url_setport,
}

-- strstr, as the parts before and behind the first match
unfoldable pub split_str : Bytes → Bytes → Option (Bytes × Bytes)
split_str p [] = if is_nil p then some ([], []) else none
split_str p (c ∷ s) =
    let rest = split_str p s in
    if starts_with p (c ∷ s)
    then some ([], drop (length p) (c ∷ s))
    else elim rest [ none ↦ none | some (a, b) ↦ some (c ∷ a, b) ]

-- The value of a digit, or 36 for another byte.
unfoldable pub digit_of : ℕ → ℕ
digit_of c =
    if is_digit c
    then c - b'0'
    else if within b'a' b'z' (to_lower c)
    then to_lower c - b'a' + 10
    else 36

unfoldable pub digits_in : ℕ → ℕ → Bytes → ℕ
digits_in base n [] = n
digits_in base n (c ∷ s) =
    if ltb (digit_of c) base then digits_in base (base * n + digit_of c) s else n

-- Base 0: the prefix 0x, behind which a digit stands, is base 16, and another 0 is base 8.
unfoldable pub magnitude : Bytes → ℕ
magnitude s =
    if get_or s 0 0 == b'0' && to_lower (get_or s 1 0) == b'x' && is_xdigit (get_or s 2 0)
    then digits_in 16 0 (drop 2 s)
    else if get_or s 0 0 == b'0'
    then digits_in 8 0 s
    else digits_in 10 0 s

-- A long of 64 bits, which stops at its bounds, cut to an int of 32 bits.
unfoldable pub to_int : ℕ → ℤ
to_int n = let m = n % 2 ^ 32 in if ltb m (2 ^ 31) then pos m else negate (2 ^ 32 - m)

unfoldable pub clamped : ℕ → ℕ → ℕ
clamped bound n = if leb n bound then n else bound

unfoldable pub strtol_int : Bytes → ℤ
strtol_int [] = pos 0
strtol_int (c ∷ s) =
    if is_space c
    then strtol_int s
    else if c == b'-'
    then to_int (2 ^ 64 - clamped (2 ^ 63) (magnitude s))
    else if c == b'+'
    then to_int (clamped (2 ^ 63 - 1) (magnitude s))
    else to_int (clamped (2 ^ 63 - 1) (magnitude (c ∷ s)))

abbrev pub protocol_at : Bytes → Url → Option (Bytes × Bytes) → Url × Bytes
protocol_at str u (some (protocol, adr)) = (url_setprotocol (unquote protocol) u, adr)
protocol_at str u none = (u, if starts_with (codes "//") str then drop 2 str else str)

-- The protocol, and what is left to read.
unfoldable pub parse_protocol : Bytes → Url → Url × Bytes
parse_protocol str u = protocol_at str u (split_str (codes "://") str)

-- if(p[1])
abbrev pub set_password : (Bytes → Option Bytes) → Bytes → Url → Url
set_password b64_decode word u = if is_nil word then u else url_setpassword b64_decode (some word) u

abbrev pub user_at : (Bytes → Option Bytes) → Bytes → Url → Search → Option Url
user_at b64_decode user u overrun = none
user_at b64_decode user u absent = some (url_setusername (some (unquote user)) u)
user_at b64_decode user u (found name word) =
    some (url_setusername (some (unquote name)) (set_password b64_decode (unquote word) u))

-- What stands before the `@`.
unfoldable pub parse_user : (Bytes → Option Bytes) → Bytes → Url → Option Url
parse_user b64_decode user u = user_at b64_decode user u (strqchr user b':')

abbrev pub with_rest : Bytes → Option Url → Option (Url × Bytes)
with_rest adr none = none
with_rest adr (some u) = some (u, adr)

abbrev pub login_at : (Bytes → Option Bytes) → Bytes → Url → Search → Option (Url × Bytes)
login_at b64_decode adr u overrun = none
login_at b64_decode adr u absent = some (u, adr)
login_at b64_decode adr u (found user host) = with_rest host (parse_user b64_decode user u)

unfoldable pub parse_login : (Bytes → Option Bytes) → Bytes → Url → Option (Url × Bytes)
parse_login b64_decode adr u = login_at b64_decode adr u (strqchr adr b'@')

-- The directory is dequoted with its slash, which is left off then.
abbrev pub directory_at : Bytes → Url → Search → Option (Url × Bytes)
directory_at adr u overrun = none
directory_at adr u absent = some (u, adr)
directory_at adr u (found host dir) =
    some (url_setdirectory (some (drop 1 (unquote (b'/' ∷ dir)))) u, host)

unfoldable pub parse_directory : Bytes → Url → Option (Url × Bytes)
parse_directory adr u = directory_at adr u (strqchr adr b'/')

abbrev pub set_host : Bytes → Url → Url
set_host adr u = url_sethostname (some (unquote adr)) u

abbrev pub port_at : Url → Search → Option Url
port_at u overrun = none
port_at u absent = none
port_at u (found host port) = some (set_host host (url_setport (strtol_int port) u))

-- host:port
unfoldable pub parse_port : Bytes → Url → Option Url
parse_port adr u = port_at u (strqchr adr b':')

-- Behind the closing bracket.
abbrev pub bracket_port : Bytes → Url → Url
bracket_port [] u = u
bracket_port (c ∷ port) u = if c == b':' then url_setport (strtol_int port) u else u

unfoldable pub parse_bracket : Bytes → Url → Option Url
parse_bracket inside u = elim (strqchr inside b']') [
  | overrun ↦ none
  | absent ↦ none
  | found host rest ↦ some (set_host host (bracket_port rest u))
]

-- [host] or [host]:port
unfoldable pub parse_brackets : Bytes → Url → Option Url
parse_brackets adr u = elim (strqchr adr b'[') [
  | overrun ↦ none
  | absent ↦ none
  | found before inside ↦ parse_bracket inside u
]

-- The count is not one for a read behind the end.
abbrev pub is_one : Option ℕ → Bool
is_one none = false
is_one (some n) = n == 1

-- By the number of colons.
abbrev pub host_with : Bytes → Url → Option ℕ → Option Url
host_with adr u none = none
host_with adr u (some cnt) =
    if cnt == 1
    then parse_port adr u
    else if ltb 1 cnt && (is_one (strqnchr adr b'[') || is_one (strqnchr adr b']'))
    then parse_brackets adr u
    else some (set_host adr u)

unfoldable pub parse_host : Bytes → Url → Option Url
parse_host adr u = host_with adr u (strqnchr adr b':')

abbrev pub then_host : Option (Url × Bytes) → Option Url
then_host none = none
then_host (some (u, adr)) = parse_host adr u

abbrev pub then_directory : Option (Url × Bytes) → Option (Url × Bytes)
then_directory none = none
then_directory (some (u, adr)) = parse_directory adr u

-- The string is not empty, of which the copy would be the null pointer.
unfoldable pub url_parse : (Bytes → Option Bytes) → Bytes → Url → Option Url
url_parse b64_decode str u =
    let (v, adr) = parse_protocol str (record u { port = negsuc 0; mech = none }) in
    then_host (then_directory (parse_login b64_decode adr v))

abbrev pub url_init : (Bytes → Option Bytes) → Bytes → Option Url
url_init b64_decode str = url_parse b64_decode str url_create
