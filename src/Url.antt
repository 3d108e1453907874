-- ===== src/Url.antt =====
-- ftp/url.c, the record of ftp/url.h, and `listify_string` of utils.c (under src/). The base 64 decoder
-- of lib/ and `fnmatch` are parameters.
pub mod Parse
use yafc.Base.{
  ℕ, zero, suc, ◌+◌, ◌-◌, ◌*◌, ◌/◌, ◌%◌, ◌^◌, ◌≤◌, ◌<◌, ◌≡◌, refl, sym, ap, ◌∙◌, ◌≢◌, ◌↔◌, ◌⊎◌, inl,
  inr, Bool, true, false, not, ◌&&◌, ◌||◌, Option, none, some, List, [], ◌∷◌, ◌++◌, map, append-nil,
  append_assoc, arith, ltb, leb, ◌==◌, if◌then◌else◌, ltb→lt, lt→ltb, leb→le, le→leb, ==_iff,
  Bool-cases, Option-cases, some-eq, &&-true, ||-false, length, get_elem?, get_or, take, drop,
  is_nil, length-append, take-append-drop, length-take, length-drop, length-map, take-all, All,
  All-append, All-append_left, All-append_right, All-mono, Bytes, codes, IsChar, IsText, within,
  is_space, is_cntrl, is_digit, is_xdigit, to_lower, has, str_eq, starts_with, strcase_eq, split_at,
  split_last, c_string, xstrdup, xstrndup, str_eq_iff, c_string-IsText, has-ne, ℤ, pos, negsuc,
  negate, digits_value, atoi, strip_trailing_chars, take-append, drop-append, drop-drop, take-take,
  drop-all, drop-take, get_or-append,
}
use yafc.Strq.Rfc1738.{decode_rfc1738}
use yafc.Strq.Scan.{split_all}

-- A string is a null pointer or its bytes. A port that is not set is -1.
pub record Url : Type 0 where
  pub protocol : Option Bytes
  pub hostname : Option Bytes
  pub alias : Option Bytes
  pub username : Option Bytes
  pub password : Option Bytes
  pub directory : Option Bytes
  pub protlevel : Option Bytes
  pub port : ℤ
  pub mech : Option (List Bytes)
  pub noproxy : Bool
  pub pasvmode : ℤ
  pub sftp_server : Option Bytes
  pub noupdate : Bool

abbrev pub url_create : Url
url_create = record {
  protocol = none;
  hostname = none;
  alias = none;
  username = none;
  password = none;
  directory = none;
  protlevel = none;
  port = negsuc 0;
  mech = some [];
  noproxy = false;
  pasvmode = negsuc 0;
  sftp_server = none;
  noupdate = false;
}

-- `xstrdup` of a string that may be a null pointer: an empty string becomes one.
unfoldable pub copy : Option Bytes → Option Bytes
copy none = none
copy (some s) = xstrdup s

-- The items of `mech` are not empty, as `strqsep` gives no empty word.
unfoldable pub url_clone : Url → Url
url_clone u = record {
  protocol = copy u.protocol;
  hostname = copy u.hostname;
  alias = copy u.alias;
  username = copy u.username;
  password = copy u.password;
  directory = copy u.directory;
  protlevel = copy u.protlevel;
  port = u.port;
  mech = u.mech;
  noproxy = u.noproxy;
  pasvmode = u.pasvmode;
  sftp_server = copy u.sftp_server;
  noupdate = u.noupdate;
}

abbrev pub lowered : Option Bytes → Option Bytes
lowered none = none
lowered (some s) = some (map to_lower s)

unfoldable pub url_setprotocol : Bytes → Url → Url
url_setprotocol protocol u = record u { protocol = lowered (xstrdup protocol) }

abbrev pub decoded : Option Bytes → Option Bytes
decoded none = none
decoded (some s) = some (decode_rfc1738 s)

unfoldable pub url_sethostname : Option Bytes → Url → Url
url_sethostname hostname u = record u { hostname = decoded hostname }

unfoldable pub url_setalias : Option Bytes → Url → Url
url_setalias alias u = record u { alias = decoded alias }

unfoldable pub url_setusername : Option Bytes → Url → Url
url_setusername username u = record u { username = decoded username }

unfoldable pub url_setdirectory : Option Bytes → Url → Url
url_setdirectory directory u = record u { directory = decoded directory }

unfoldable pub url_setprotlevel : Option Bytes → Url → Url
url_setprotlevel protlevel u = record u { protlevel = decoded protlevel }

unfoldable pub url_setsftp : Option Bytes → Url → Url
url_setsftp sftp_server u = record u { sftp_server = decoded sftp_server }

unfoldable pub url_setpassive : ℤ → Url → Url
url_setpassive passive u = record u { pasvmode = passive }

abbrev pub valid_port : ℤ → ℤ
valid_port (pos zero) = negsuc 0
valid_port (pos (suc n)) = pos (suc n)
valid_port (negsuc n) = negsuc 0

unfoldable pub url_setport : ℤ → Url → Url
url_setport port u = record u { port = valid_port port }

abbrev pub base64_mark : Bytes
base64_mark = codes "[base64]"

-- `b64_decode` gives the decoded string, or none where it fails.
unfoldable pub password_of : (Bytes → Option Bytes) → Option Bytes → Option Bytes
password_of b64_decode none = none
password_of b64_decode (some s) =
    if starts_with base64_mark s then b64_decode (drop 8 s) else some (decode_rfc1738 s)

unfoldable pub url_setpassword : (Bytes → Option Bytes) → Option Bytes → Url → Url
url_setpassword b64_decode password u = record u { password = password_of b64_decode password }

unfoldable pub is_listed : Bytes → List Bytes → Bool
is_listed w [] = false
is_listed w (v ∷ vs) = str_eq w v || is_listed w vs

unfoldable pub add_words : List Bytes → List Bytes → List Bytes
add_words [] lp = lp
add_words (w ∷ ws) lp = add_words ws (if is_listed w lp then lp else lp ++ w ∷ [])

-- `listify_string`
unfoldable pub listify_string : Bytes → List Bytes → List Bytes
listify_string str lp = add_words (split_all b':' str) lp

unfoldable pub url_setmech : Bytes → Url → Url
url_setmech mech_string u = record u { mech = some (listify_string mech_string []) }

abbrev pub anonymous_name : Option Bytes → Bool
anonymous_name none = false
anonymous_name (some name) = str_eq name (codes "ftp") || str_eq name (codes "anonymous")

unfoldable pub url_isanon : Url → Bool
url_isanon u = anonymous_name u.username

-- The name that `urlcmp` compares and `urlcmp_name` matches.
abbrev pub shown_name : Url → Option Bytes
shown_name u = elim (u.alias) [ some a ↦ some a | none ↦ u.hostname ]

abbrev pub name_eq : Option Bytes → Option Bytes → Bool
name_eq (some a) (some b) = str_eq a b
name_eq a b = false

-- Whether `urlcmp` returns 0; a host has a name.
unfoldable pub urlcmp : Url → Url → Bool
urlcmp a b = name_eq (shown_name a) (shown_name b)

-- Whether `urlcmp_name` returns 0: `fnmatch` finds no mismatch.
unfoldable pub urlcmp_name : (Bytes → Bytes → Bool) → Url → Bytes → Bool
urlcmp_name fnmatch a name = elim (shown_name a) [ none ↦ false | some s ↦ fnmatch name s ]

-- The proxy's part of the options: gvProxyType, whether gvProxyUrl is set, and gvProxyExclude.
pub record Proxy : Type 0 where
  pub kind : ℕ
  pub is_set : Bool
  pub excluded : List Bytes

-- strrchr(hostname, '.'), with the dot
unfoldable pub domain_of : Bytes → Option Bytes
domain_of host = elim (split_last b'.' host) [ none ↦ none | some (a, b) ↦ some (b'.' ∷ b) ]

abbrev pub is_set_to : Bytes → Option Bytes → Bool
is_set_to xhost none = false
is_set_to xhost (some domain) = strcase_eq domain xhost

abbrev pub has_no : Option Bytes → Bool
has_no none = true
has_no (some domain) = false

-- Whether an item of the list takes the host out.
unfoldable pub is_excluded : Bytes → Bytes → Bool
is_excluded host xhost =
    (get_or xhost 0 0 == b'.' && is_set_to xhost (domain_of host))
    || (strcase_eq xhost (codes "localnet") && has_no (domain_of host))
    || strcase_eq xhost host

unfoldable pub any_excludes : Bytes → List Bytes → Bool
any_excludes host [] = false
any_excludes host (x ∷ xs) = is_excluded host x || any_excludes host xs

abbrev pub host_of : Url → Bytes
host_of u = elim u.hostname [ none ↦ [] | some h ↦ h ]

-- `proxy_type` of ftp/ftp.c; the URL has a host.
unfoldable pub proxy_type : Proxy → Url → ℕ
proxy_type p u =
    if p.kind == 0 || u.noproxy || not p.is_set
    then 0
    else if any_excludes (host_of u) p.excluded
    then 0
    else p.kind
