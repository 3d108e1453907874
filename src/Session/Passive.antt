-- ===== src/Session/Passive.antt =====
-- Passive mode of ftp/ftpsend.c (under src/): `ftp_pasv`, and what is asked of an address of IPv4.
pub mod Numbers
use yafc.Base.{
  ℕ, zero, suc, ◌+◌, ◌-◌, ◌*◌, ◌/◌, ◌%◌, ◌^◌, ◌≤◌, ◌<◌, ◌≡◌, refl, sym, ap, ◌∙◌, ◌≢◌, ◌↔◌, ◌⊎◌, inl,
  inr, Bool, true, false, not, ◌&&◌, ◌||◌, Option, none, some, List, [], ◌∷◌, ◌++◌, map, append-nil,
  append_assoc, arith, ltb, leb, ◌==◌, if◌then◌else◌, ltb→lt, lt→ltb, leb→le, le→leb, ==_iff,
  Bool-cases, Option-cases, some-eq, &&-true, ||-false, length, get_elem?, get_or, take, drop,
  is_nil, length-append, take-append-drop, length-take, length-drop, length-map, take-all, All,
  All-append, All-append_left, All-append_right, All-mono, Bytes, codes, IsChar, IsText, within,
  is_space, is_cntrl, is_digit, is_xdigit, to_lower, has, str_eq, starts_with, strcase_eq, split_at,
  split_last, c_string, xstrdup, xstrndup, str_eq_iff, c_string-IsText, has-ne, ℤ, pos, negsuc,
  negate, digits_value, atoi, strip_trailing_chars, take-append, drop-append, drop-drop, take-take,
  drop-all, drop-take, get_or-append,
}
use yafc.Rfile.Dates.{unsigned_value, starts_digit, skip_digits}
use yafc.Rfile.Unix.{scan_byte}
use yafc.Session.{Session, Features, Client, vb_none, ftp_set_tmp_verbosity, ftp_cmd, ftp_connected}
use yafc.Session.Directories.{is_number, completed}

-- sin_addr
pub record Address : Type 0 where
  pub byte0 : ℕ
  pub byte1 : ℕ
  pub byte2 : ℕ
  pub byte3 : ℕ

unfoldable pub is_private : Address → Bool
is_private a =
    a.byte0 == 10
    || (a.byte0 == 172 && leb 16 a.byte1 && ltb a.byte1 32)
    || (a.byte0 == 192 && a.byte1 == 168)

unfoldable pub is_multicast : Address → Bool
is_multicast a = leb 224 a.byte0 && ltb a.byte0 240

unfoldable pub is_loopback : Address → Bool
is_loopback a = leb 127 a.byte0 && a.byte1 == 0 && a.byte2 == 0 && a.byte3 == 1

unfoldable pub is_reserved : Address → Bool
is_reserved a = a.byte0 == 0 || (a.byte0 == 127 && not (is_loopback a)) || leb 240 a.byte0

-- ftp_getreply(false): the code and the byte behind it are stepped over.
unfoldable pub behind_code : Bytes → Bytes
behind_code [] = []
behind_code (c ∷ r) = if c == b'-' || c == b' ' then r else c ∷ r

unfoldable pub ftp_getreply : Bytes → Bytes
ftp_getreply r = c_string (behind_code (if starts_digit r then drop 3 r else r))

abbrev pub digits_from : Bool → Bytes → Option (ℕ × Bytes)
digits_from minus s =
    if starts_digit s then some (unsigned_value minus (digits_value 0 s), skip_digits s) else none

-- "%hhu" and "%hu", before the number is cut
unfoldable pub scan_unsigned : Bytes → Option (ℕ × Bytes)
scan_unsigned [] = none
scan_unsigned (c ∷ s) =
    if is_space c
    then scan_unsigned s
    else if c == b'-'
    then digits_from true s
    else if c == b'+'
    then digits_from false s
    else digits_from false (c ∷ s)

abbrev pub put_number : ℕ → Option (List ℕ) → Option (List ℕ)
put_number x none = none
put_number x (some xs) = some (x % 256 ∷ xs)

-- `n` more numbers, a comma before each
unfoldable pub scan_rest : ℕ → Bytes → Option (List ℕ)
scan_rest zero s = some []
scan_rest (suc n) s = elim (scan_byte b',' s) [
  | none ↦ none
  | some t ↦ elim (scan_unsigned t) [ none ↦ none | some (x, u) ↦ put_number x (scan_rest n u) ]
]

-- "%hhu,%hhu,%hhu,%hhu,%hhu,%hhu"
unfoldable pub scan_six : Bytes → Option (List ℕ)
scan_six s = elim (scan_unsigned s) [ none ↦ none | some (x, u) ↦ put_number x (scan_rest 5 u) ]

-- What is found in a reply; `overrun` is the search for a digit that leaves the text.
pub data Passive : Type 0 where
  pasv : List ℕ → Passive
  epsv : ℕ → Passive
  refused overrun : Passive

-- The loop, which does not test for the end of the text.
unfoldable pub find_digit : Bytes → Option Bytes
find_digit [] = none
find_digit (c ∷ s) = if is_digit c then some (c ∷ s) else find_digit s

abbrev pub six : Option (List ℕ) → Passive
six none = refused
six (some xs) = pasv xs

abbrev pub port : Option (ℕ × Bytes) → Passive
port none = refused
port (some (x, s)) = epsv (x % 2 ^ 16)

unfoldable pub parse_pasv : Bool → Bytes → Passive
parse_pasv ipv6 reply = elim (find_digit reply) [
  | none ↦ overrun
  | some e ↦ if ipv6 then port (scan_unsigned e) else six (scan_six e)
]

-- After ctError passive mode is not asked for again.
abbrev pub without_pasv : Session → Session
without_pasv s =
    if is_number 5 (s.conn.code)
    then record s { features = record (s.features) { has_pasv_command = false } }
    else s

unfoldable pub ftp_pasv : Client → Bool → Session → Session × Passive
ftp_pasv o ipv6 s =
    let command = if ipv6 then codes "EPSV" else codes "PASV" in
    let after = (ftp_cmd o command (ftp_set_tmp_verbosity vb_none s)).0 in
    if not (s.features.has_pasv_command)
    then (s, refused)
    else if not (ftp_connected after)
    then (after, refused)
    else if completed after
    then (after, parse_pasv ipv6 (ftp_getreply (after.conn.reply)))
    else (without_pasv after, refused)
