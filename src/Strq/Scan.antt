-- ===== src/Strq/Scan.antt =====
-- Scanning of quoted text, of libmhe/strq.c (under src/): `strqnchr`, `strqchr` and `strqsep`.
-- Positions in the string are the parts that they split it into. A read behind the terminator is
-- a result of its own.
pub mod Tokens
pub mod Words
pub mod Count
use yafc.Base.{
  ℕ, zero, suc, ◌+◌, Bool, true, false, not, ◌&&◌, Option, none, some, List, [], ◌∷◌, ◌==◌,
  if◌then◌else◌, length, Bytes,
}
use yafc.Strq.Quote.{backslash, double, single, is_quote}

-- Where `strqnchr` stands: at the head of its outer loop, in a quote (behind a backslash or not),
-- behind the quote, behind a backslash, or before the byte that it counts without a further test.
pub data Place : Type 0 where
  head : Place
  quoted quoted_escape : ℕ → Place
  tail escape last : Place

unfoldable pub advance : Place → ℕ → Place
advance head x = if is_quote x then quoted x else if x == backslash then escape else head
advance (quoted q) x = if x == backslash then quoted_escape q else if x == q then tail else quoted q
advance (quoted_escape q) x = quoted q
advance tail x = if x == backslash then escape else head
advance escape x = last
advance last x = head

-- Whether `n += (*str++ == c)` is reached with this byte.
unfoldable pub counts : Place → ℕ → Bool
counts head x = not (is_quote x) && not (x == backslash)
counts tail x = not (x == backslash)
counts last x = true
counts _ x = false

-- `none`: the last statement steps over the terminator, and the loop reads on behind it.
unfoldable pub count_from : Place → ℕ → ℕ → Bytes → Option ℕ
unfolding advance counts
count_from last c n [] = none
count_from place c n [] = some n
count_from place c n (x ∷ s) =
    count_from (advance place x) c (if counts place x && x == c then n + 1 else n) s

unfoldable pub strqnchr : Bytes → ℕ → Option ℕ
unfolding count_from
strqnchr s c = count_from head c 0 s

pub data Search : Type 0 where
  found : Bytes → Bytes → Search
  absent overrun : Search

abbrev pub behind : ℕ → Search → Search
behind x (found a b) = found (x ∷ a) b
behind x absent = absent
behind x overrun = overrun

-- `found a b`: the byte stands between `a` and `b`. The test behind a backslash is `!s`, and not
-- `!*s`, so a backslash at the end leads behind the terminator.
unfoldable pub strqchr : Bytes → ℕ → Search
strqchr [] ch = absent
strqchr (x ∷ []) ch = if x == backslash then overrun else if x == ch then found [] [] else absent
strqchr (x ∷ y ∷ s) ch =
    let skip = strqchr s ch in
    let next = strqchr (y ∷ s) ch in
    if x == backslash
    then behind x (behind y skip)
    else if x == ch
    then found [] (y ∷ s)
    else behind x next

-- `inquote` and `quote_char` of `strqsep` as one number: the open quote, or 0.
unfoldable pub toggle : ℕ → ℕ → ℕ
toggle q x = if is_quote x then (if q == 0 then x else if q == x then 0 else q) else q

unfoldable pub stops : ℕ → ℕ → ℕ → Bool
unfolding toggle
stops delim q x = not (x == single) && x == delim && toggle q x == 0

abbrev pub grow : ℕ → Bytes × Bytes → Bytes × Bytes
grow x (t, r) = (x ∷ t, r)

-- The second loop of `strqsep`: the token, and what the caller's pointer is set to.
unfoldable pub token_from : ℕ → ℕ → Bytes → Bytes × Bytes
unfolding stops
token_from delim q [] = ([], [])
token_from delim q (x ∷ []) =
    if x == backslash then (x ∷ [], []) else if stops delim q x then ([], []) else (x ∷ [], [])
token_from delim q (x ∷ y ∷ s) =
    let skip = token_from delim q s in
    let next = token_from delim (toggle q x) (y ∷ s) in
    if x == backslash
    then grow x (grow y skip)
    else if stops delim q x
    then ([], y ∷ s)
    else grow x next

unfoldable pub skip_delims : ℕ → Bytes → Bytes
skip_delims delim [] = []
skip_delims delim (x ∷ s) = if x == delim then skip_delims delim s else x ∷ s

abbrev pub token_of : ℕ → Bytes → Option (Bytes × Bytes)
token_of delim [] = none
token_of delim (x ∷ s) = some (token_from delim 0 (x ∷ s))

-- `none` is the null pointer; the caller's pointer is then left as it was.
unfoldable pub strqsep : ℕ → Bytes → Option (Bytes × Bytes)
unfolding token_from skip_delims
strqsep delim s = token_of delim (skip_delims delim s)

-- The callers' loop `while((e = strqsep(&c, delim)) != 0)`: each round takes a byte at least.
unfoldable pub tokens : ℕ → ℕ → Bytes → List Bytes
unfolding strqsep
tokens zero delim s = []
tokens (suc fuel) delim s = elim (strqsep delim s) [
  | none ↦ []
  | some (t, r) ↦ t ∷ tokens fuel delim r
]

unfoldable pub split_all : ℕ → Bytes → List Bytes
unfolding tokens
split_all delim s = tokens (length s + 1) delim s
