-- ===== src/Strq/Rfc1738.antt =====
-- URL encoding, of libmhe/strq.c (under src/): `encode_rfc1738`, `decode_rfc1738` and
-- `encode_url_directory`. Bytes are unsigned, as the encoder's `unsigned char c` makes them.
pub mod RoundTrip
use yafc.Base.{
  ℕ, ◌+◌, ◌-◌, ◌*◌, ◌/◌, ◌%◌, ◌^◌, ◌<◌, Bool, ◌&&◌, ◌||◌, [], ◌∷◌, ◌++◌, ltb, leb, ◌==◌,
  if◌then◌else◌, Bytes, codes, within, is_digit, is_xdigit, has, c_string,
}

abbrev pub special : Bytes
special = codes " <>\"#%{}|\\^~[]`"

-- The encoder's condition; `xtra` is empty where the source's argument is null.
unfoldable pub needs_encoding : Bytes → ℕ → Bool
needs_encoding xtra c = leb 0x80 c || leb c 0x1f || c == 0x7f || has special c || has xtra c

-- hex[n], for n < 16
unfoldable pub hex_digit : ℕ → ℕ
hex_digit n = if ltb n 10 then b'0' + n else b'A' + (n - 10)

unfoldable pub encode_rfc1738 : Bytes → Bytes → Bytes
unfolding needs_encoding hex_digit
encode_rfc1738 xtra [] = []
encode_rfc1738 xtra (c ∷ s) =
    let rest = encode_rfc1738 xtra s in
    if needs_encoding xtra c
    then b'%' ∷ hex_digit (c / 16) ∷ hex_digit (c % 16) ∷ rest
    else c ∷ rest

-- What `strtoul` in base 16 makes of one digit.
unfoldable pub hex_value : ℕ → ℕ
hex_value c =
    if is_digit c then c - b'0' else if within b'a' b'f' c then c - b'a' + 10 else c - b'A' + 10

-- The loop of `decode_rfc1738`, on the bytes that it writes.
unfoldable pub decode_bytes : Bytes → Bytes
unfolding hex_value
decode_bytes [] = []
decode_bytes (c ∷ []) = c ∷ []
decode_bytes (c ∷ a ∷ []) = c ∷ decode_bytes (a ∷ [])
decode_bytes (c ∷ a ∷ b ∷ s) =
    let triple = decode_bytes s in
    let plain = decode_bytes (a ∷ b ∷ s) in
    if c == b'%' && is_xdigit a && is_xdigit b
    then (16 * hex_value a + hex_value b) ∷ triple
    else c ∷ plain

-- The result as its readers see it: `%00` decodes to a terminator.
unfoldable pub decode_rfc1738 : Bytes → Bytes
unfolding decode_bytes c_string
decode_rfc1738 s = c_string (decode_bytes s)

-- The test on `e[0]` at the end of `encode_url_directory`.
unfoldable pub keep_slash : Bytes → Bytes
keep_slash [] = []
keep_slash (c ∷ e) = if c == b'/' then codes "%2F" ++ e else c ∷ e

-- A leading slash is kept as `%2F`.
unfoldable pub encode_url_directory : Bytes → Bytes
unfolding encode_rfc1738 keep_slash
encode_url_directory s = keep_slash (encode_rfc1738 (codes ";") s)
