-- ===== src/Strq/Quote.antt =====
-- Quoting of file names, of libmhe/strq.c (under src/): `dequote_filename`, `unquote`,
-- `backslash_quote`, `double_quote`, `single_quote` and `quote_filename`.
pub mod RoundTrip
use yafc.Base.{
  ℕ, ◌+◌, ◌*◌, ◌^◌, ◌<◌, Bool, not, ◌&&◌, ◌||◌, [], ◌∷◌, ◌++◌, ◌==◌, if◌then◌else◌, Bytes, codes,
  has,
}

abbrev pub backslash : ℕ
backslash = 0x5c

abbrev pub double : ℕ
double = 0x22

abbrev pub single : ℕ
single = 0x27

abbrev pub is_quote : ℕ → Bool
is_quote c = c == single || c == double

-- The loop of `dequote_filename`; `next` is the open quote, and 0 outside of quotes. A backslash
-- takes the byte behind it as it is, and at the end of the text it writes only the terminator.
unfoldable pub dequote_from : ℕ → Bytes → Bytes
dequote_from next [] = []
dequote_from next (c ∷ []) =
    if c == backslash
    then []
    else if not (next == 0) && c == next
    then []
    else if next == 0 && is_quote c
    then []
    else c ∷ []
dequote_from next (c ∷ d ∷ s) =
    let escaped = dequote_from next s in
    let closed = dequote_from 0 (d ∷ s) in
    let opened = dequote_from c (d ∷ s) in
    let kept = dequote_from next (d ∷ s) in
    if c == backslash
    then d ∷ escaped
    else if not (next == 0) && c == next
    then closed
    else if next == 0 && is_quote c
    then opened
    else c ∷ kept

-- `quote_char` is not read.
unfoldable pub dequote_filename : Bytes → Bytes
unfolding dequote_from
dequote_filename = dequote_from 0

-- The string in place becomes its dequoted copy.
unfoldable pub unquote : Bytes → Bytes
unfolding dequote_filename
unquote s = dequote_filename s

unfoldable pub backslash_quote_impl : Bytes → Bytes → Bytes
backslash_quote_impl set [] = []
backslash_quote_impl set (c ∷ s) =
    let rest = backslash_quote_impl set s in if has set c then backslash ∷ c ∷ rest else c ∷ rest

abbrev pub shell_special : Bytes
shell_special = codes " \t\n'\"\\|&;()<>!{}*[]?^$`#"

unfoldable pub backslash_quote : Bytes → Bytes
unfolding backslash_quote_impl
backslash_quote = backslash_quote_impl shell_special

abbrev pub double_special : Bytes
double_special = codes "\"$`\\"

-- The `switch` of `double_quote` escapes the bytes that `strpbrk` counted.
unfoldable pub double_quote : Bytes → Bytes
unfolding backslash_quote_impl
double_quote s = double ∷ (backslash_quote_impl double_special s ++ double ∷ [])

unfoldable pub single_body : Bytes → Bytes
single_body [] = []
single_body (c ∷ s) =
    let rest = single_body s in
    if c == single then single ∷ backslash ∷ single ∷ single ∷ rest else c ∷ rest

unfoldable pub single_quote : Bytes → Bytes
unfolding single_body
single_quote s = single ∷ (single_body s ++ single ∷ [])

-- readline's `rl_completer_word_break_characters` is a parameter.
unfoldable pub quote_word_break_chars : Bytes → Bytes → Bytes
unfolding backslash_quote_impl
quote_word_break_chars breaks s = backslash_quote_impl (backslash ∷ breaks) s

pub data MatchType : Type 0 where
  single_match mult_match : MatchType

-- result[strlen(result) - 1] = '\0'
unfoldable pub drop_last : Bytes → Bytes
drop_last [] = []
drop_last (c ∷ []) = []
drop_last (c ∷ d ∷ s) = c ∷ drop_last (d ∷ s)

unfoldable pub cut_closing : MatchType → Bytes → Bytes
unfolding drop_last
cut_closing single_match s = s
cut_closing mult_match s = drop_last s

-- `quote_filename`, on the text that tilde expansion left; `qcp` is the quote that the user typed,
-- or 0. In the backslash style both passes of quoting are applied.
unfoldable pub quote_expanded : Bytes → MatchType → ℕ → Bytes → Bytes
unfolding cut_closing double_quote single_quote quote_word_break_chars backslash_quote
quote_expanded breaks kind qcp s =
    if qcp == double
    then cut_closing kind (double_quote s)
    else if qcp == single
    then cut_closing kind (single_quote s)
    else quote_word_break_chars breaks (backslash_quote s)
