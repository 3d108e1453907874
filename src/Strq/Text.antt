-- ===== src/Strq/Text.antt =====
-- The helpers of libmhe/strq.c (under src/) that change or test one string: blanks, control
-- characters, escapes, Booleans, and whether a byte is quoted.
pub mod Blanks
use mathlib.Core.Option
use yafc.Base.{
  ℕ, zero, suc, ◌+◌, ◌*◌, Bool, true, false, not, ◌&&◌, ◌||◌, Option, none, some, List, [], ◌∷◌,
  map, ◌==◌, if◌then◌else◌, is_nil, Bytes, codes, is_space, is_cntrl, is_xdigit, strcase_eq,
  c_string,
}
use yafc.Strq.Rfc1738.{hex_value}

unfoldable pub skip_blanks : Bytes → Bytes
skip_blanks [] = []
skip_blanks (c ∷ s) = if is_space c then skip_blanks s else c ∷ s

-- The blanks at the end go, unless a backslash stands before them; `previous` is the byte before.
unfoldable pub trim_end : ℕ → Bytes → Bytes
trim_end previous [] = []
trim_end previous (c ∷ s) =
    let rest = trim_end c s in
    if is_nil rest && is_space c && not (previous == b'\\') then [] else c ∷ rest

-- The first byte that is no blank is never stripped.
abbrev pub trim : Bytes → Bytes
trim [] = []
trim (c ∷ s) = c ∷ trim_end c s

unfoldable pub strip_blanks : Bytes → Bytes
strip_blanks s = trim (skip_blanks s)

unfoldable pub fix_unprintable : Bytes → Bytes
fix_unprintable s = map (λ c. if is_cntrl c then b'?' else c) s

abbrev pub escape : ℕ → ℕ
escape c =
    if c == b't'
    then 0x09
    else if c == b'n'
    then 0x0a
    else if c == b'r'
    then 0x0d
    else if c == b'b'
    then 0x08
    else if c == b'e'
    then 0x1b
    else c

-- `\xH` or `\xHH` as the byte it stands for.
abbrev pub hex_byte : ℕ → ℕ → ℕ
hex_byte h k = if is_xdigit k then 16 * hex_value h + hex_value k else hex_value h

abbrev pub is_hex_escape : ℕ → ℕ → Bool
is_hex_escape c h = (c == b'x' || c == b'X') && is_xdigit h

-- The bytes that are written, or `none` where the source runs past the terminator. A byte that
-- follows `\xH` and is no hexadecimal digit is skipped.
unfoldable pub unescape : Bytes → Option Bytes
unescape [] = some []
unescape (c ∷ []) = if c == b'\\' then some [] else some (c ∷ [])
unescape (c ∷ d ∷ []) =
    let next = unescape (d ∷ []) in
    if c == b'\\' then some (escape d ∷ []) else Option.map (◌∷◌ c) next
unescape (c ∷ d ∷ h ∷ []) =
    let next = unescape (d ∷ h ∷ []) in
    let behind = unescape (h ∷ []) in
    if not (c == b'\\')
    then Option.map (◌∷◌ c) next
    else if is_hex_escape d h
    then none
    else Option.map (◌∷◌ (escape d)) behind
unescape (c ∷ d ∷ h ∷ k ∷ s) =
    let next = unescape (d ∷ h ∷ k ∷ s) in
    let behind = unescape (h ∷ k ∷ s) in
    let rest = unescape s in
    if not (c == b'\\')
    then Option.map (◌∷◌ c) next
    else if is_hex_escape d h
    then Option.map (◌∷◌ (hex_byte h k)) rest
    else Option.map (◌∷◌ (escape d)) behind

unfoldable pub unquote_escapes : Bytes → Option Bytes
unquote_escapes s = Option.map c_string (unescape s)

-- What `str2bool` looks a word up in.
abbrev pub bool_words : List (Bytes × Bool)
bool_words =
    (codes "on", true)
    ∷ (codes "true", true)
    ∷ (codes "yes", true)
    ∷ (codes "1", true)
    ∷ (codes "off", false)
    ∷ (codes "false", false)
    ∷ (codes "no", false)
    ∷ (codes "0", false)
    ∷ []

unfoldable pub find_word : Bytes → List (Bytes × Bool) → Option Bool
find_word e [] = none
find_word e ((w, b) ∷ ws) = let rest = find_word e ws in if strcase_eq e w then some b else rest

-- `none` is the -1 of the source.
unfoldable pub str2bool : Bytes → Option Bool
str2bool e = find_word e bool_words

-- Where the loop of `char_is_quoted` is: outside, behind a backslash, or, as `skip_until` is, behind
-- an opening quote.
pub data At : Type 0 where
  outside : At
  passing : At
  skipping : ℕ → At

abbrev pub quote_step : At → ℕ → At
quote_step outside c =
    if c == b'\'' || c == b'"' then skipping c else if c == b'\\' then passing else outside
quote_step passing c = outside
quote_step (skipping q) c = if c == q then outside else skipping q

abbrev pub is_inside : At → Bool
is_inside outside = false
is_inside passing = true
is_inside (skipping q) = true

-- Whether the byte `eindex` places on is quoted, where it stands in the string. An opening quote is:
-- the index behind its closing quote is past it.
unfoldable pub quoted_from : At → Bytes → ℕ → Bool
quoted_from at [] eindex = false
quoted_from at (c ∷ s) zero = is_inside at || c == b'\'' || c == b'"'
quoted_from at (c ∷ s) (suc eindex) = quoted_from (quote_step at c) s eindex

unfoldable pub char_is_quoted : Bytes → ℕ → Bool
char_is_quoted s eindex = quoted_from outside s eindex
