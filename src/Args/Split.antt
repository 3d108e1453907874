-- ===== src/Args/Split.antt =====
-- `split_args` of libmhe/args.c (under src/) beside the array that it allocates.
use yafc.Base.{
  ℕ, ◌+◌, ◌≤◌, ◌≡◌, refl, sym, ap, ◌∙◌, true, false, none, some, List, [], ◌∷◌, ◌++◌, map, arith,
  ◌==◌, leb, le→leb, if◌then◌else◌, if-both, Option, length, length-map, take, take-all,
  take-append, drop, All, Bytes, codes, has, xstrdup, has-ne,
}
use yafc.Strq.Quote.{
  backslash, double, shell_special, backslash_quote_impl, backslash_quote, unquote,
}
use yafc.Strq.Quote.RoundTrip.{dequote-backslash_quote}
use yafc.Strq.Scan.Tokens.{split_all-step}
use yafc.Strq.Scan.{strqsep, strqnchr, split_all}
use yafc.Strq.Scan.Words.{IsClear, split_all-clear, Quotes, join, NonEmpty, split_all-join}
use yafc.Strq.Scan.Count.{
  count, IsBare, strqnchr-bare, strqnchr-overrun, count_from-in_quote, split_all-count,
}
use yafc.Args.{Cell, Args, items, fill, unquote_cells, split_args, args_unquote}

shell-Quotes : Quotes b' ' shell_special
shell-Quotes = record {
  backslashes = refl;
  singles = refl;
  doubles = refl;
  delims = refl;
  not_backslash = refl;
  not_quote = refl;
}

unquoted : (vs : List Bytes) → map unquote (map backslash_quote vs) ≡ vs
unfolding backslash_quote unquote
unquoted [] = refl
unquoted (v ∷ vs) = cc (dequote-backslash_quote v, unquoted vs)

abbrev pub quoted_line : List Bytes → Bytes
quoted_line ws = join b' ' (map backslash_quote ws)

split_all-quoted :
    (ws : List Bytes) → All NonEmpty ws → split_all b' ' (quoted_line ws) ≡ map backslash_quote ws
unfolding backslash_quote
split_all-quoted ws h = split_all-join b' ' shell_special ws shell-Quotes h

quoted-given : (w : Bytes) → NonEmpty w → xstrdup (backslash_quote w) ≡ some (backslash_quote w)
unfolding backslash_quote backslash_quote_impl
quoted-given [] h = absurd (h refl)
quoted-given (c ∷ s) h =
    let rest = backslash_quote_impl shell_special s in
    if-both (λ (x : Bytes). xstrdup x ≡ some x) (has shell_special c) (backslash ∷ c ∷ rest)
      (c ∷ rest) refl refl

-- Each quoted word is copied, since it is not empty.
copied_words :
    (ws : List Bytes)
    → All NonEmpty ws
    → map xstrdup (map backslash_quote ws) ≡ map (λ w. some (backslash_quote w)) ws
copied_words [] h = refl
copied_words (w ∷ ws) h = cc (quoted-given w h.0, copied_words ws h.1)

unquote_cells-words :
    (ws : List Bytes)
    → unquote_cells (map (λ w. some (backslash_quote w)) ws) ≡ some (map (λ w. some w) ws)
unfolding unquote_cells unquote backslash_quote
unquote_cells-words [] = refl
unquote_cells-words (w ∷ ws) =
    let words = λ (o : Option (List Cell)) (x : Bytes). elim o as (λ z. Option (List Cell)) [
      | none ↦ none
      | some ds ↦ some (some x ∷ ds)
    ] in
    ap (λ o. words o (unquote (backslash_quote w))) (unquote_cells-words ws)
    ∙ ap (words (some (map (λ v. some v) ws))) (dequote-backslash_quote w)

-- A command line of words, none of them empty, that `backslash_quote` quoted: if the array, which has one
-- cell more than `strqnchr` counts blanks in the line, has a cell for each word, then `split_args` returns
-- a vector, and its items, unquoted by `args_unquote`, are the words again.
pub args_unquote-split_args :
    (ws : List Bytes) (n : ℕ)
    → All NonEmpty ws
    → strqnchr (quoted_line ws) b' ' ≡ some n
    → length ws ≤ n + 1
    → (a : Args) × (b : Args) × (split_args (quoted_line ws) ≡ some a)
      × (args_unquote a ≡ some b)
      × (items b ≡ map (λ w. some w) ws)
unfolding split_args args_unquote
args_unquote-split_args ws n h e room =
    let vs = map backslash_quote ws in
    let words : List Cell = map (λ w. some w) ws in
    let same = split_all-quoted ws h in
    let a : Args = record { argc = length vs; argv = map xstrdup vs } in
    let b : Args = record a { argv = words ++ drop (length vs) (map xstrdup vs) } in
    let long : length vs ≡ length ws = length-map backslash_quote ws in
    let roomy : leb (length vs) (n + 1) ≡ true =
      le→leb (length vs) (n + 1) (omega (arith, long, room)) in
    let cells = λ (o : Option ℕ). elim o as (λ x. Option Args) [
      | none ↦ none
      | some k ↦ fill (k + 1) (split_all b' ' (quoted_line ws))
    ] in
    let split : split_args (quoted_line ws) ≡ some a =
      ap cells e ∙ ap (fill (n + 1)) same ∙ ap (λ x. if x then some a else none) roomy in
    let held : items a ≡ map (λ w. some (backslash_quote w)) ws =
      take-all (length vs) (map xstrdup vs) (omega (arith, length-map xstrdup vs))
      ∙ copied_words ws h in
    let back = λ (o : Option (List Cell)). elim o as (λ x. Option Args) [
      | none ↦ none
      | some cs ↦ some (record a { argv = cs ++ drop (length vs) (map xstrdup vs) })
    ] in
    let plain : args_unquote a ≡ some b =
      ap (λ cs. back (unquote_cells cs)) held ∙ ap back (unquote_cells-words ws) in
    let count : length words ≡ length vs = length-map (λ w. some w) ws ∙ sym long in
    (
      a,
      b,
      split,
      plain,
      ap (λ k. take k (words ++ drop (length vs) (map xstrdup vs))) (sym count)
          ∙ take-append words (drop (length vs) (map xstrdup vs)),
    )

-- On a string with no quote and no backslash `split_args` returns its tokens, within its array.
pub split_args-bare :
    (str : Bytes)
    → All IsBare str
    → split_args str
      ≡ some
          (record { argc = length (split_all b' ' str); argv = map xstrdup (split_all b' ' str) })
unfolding split_args
split_args-bare str h =
    let room = split_all-count b' ' str in
    rw (
      split_args,
      strqnchr-bare str b' ' h,
      le→leb (length (split_all b' ' str)) (count b' ' str + 1) room,
    )

-- A string that ends in an escaped byte, with no quote or backslash before it, makes
-- `split_args` read behind it.
pub split_args-overrun :
    (s : Bytes) (x : ℕ) → All IsBare s → split_args (s ++ backslash ∷ x ∷ []) ≡ none
unfolding split_args
split_args-overrun s x h = rw (split_args, strqnchr-overrun s x b' ' h)

abbrev pub scanned : Bytes
scanned = codes "\\'\" "

pub scanned-Quotes : Quotes b' ' scanned
scanned-Quotes = record {
  backslashes = refl;
  singles = refl;
  doubles = refl;
  delims = refl;
  not_backslash = refl;
  not_quote = refl;
}

-- A word with no byte that `strqsep` looks at.
abbrev IsWord : Bytes → Type 0
IsWord = IsClear scanned

split_all-words : (ws : List Bytes) → All IsWord ws → split_all b' ' (join b' ' ws) ≡ ws
split_all-words ws h = split_all-clear b' ' scanned ws scanned-Quotes h

has-append : (c : ℕ) (a b : Bytes) → has a c ≡ false → has b c ≡ false → has (a ++ b) c ≡ false
has-append c [] b h k = k
has-append c (x ∷ a) b h k = ground (arith, has-append c a b)

word-clear :
    (q : ℕ) (w : Bytes)
    → has scanned q ≡ true
    → All (λ c. has scanned c ≡ false) w
    → has w q ≡ false
word-clear q [] p h = refl
word-clear q (c ∷ w) p h = ground (arith, has-ne scanned q c p h.0, word-clear q w p h.1)

join-clear :
    (q : ℕ) (ws : List Bytes)
    → has scanned q ≡ true
    → (b' ' == q) ≡ false
    → All IsWord ws
    → has (join b' ' ws) q ≡ false
join-clear q [] p s h = refl
join-clear q (w ∷ []) p s h = word-clear q w p h.0.1
join-clear q (w ∷ v ∷ ws) p s h =
    has-append q w _ (word-clear q w p h.0.1) (rw s (join-clear q (v ∷ ws) p s h.1))

abbrev escaped_quotes : ℕ → Bytes → Bytes
escaped_quotes x rest = backslash ∷ x ∷ double ∷ double ∷ b' ' ∷ rest

strqsep-escaped_quotes :
    (x : ℕ) (rest : Bytes)
    → strqsep b' ' (escaped_quotes x rest) ≡ some (backslash ∷ x ∷ double ∷ double ∷ [], rest)
unfolding strqsep
strqsep-escaped_quotes x [] = refl
strqsep-escaped_quotes x (y ∷ rest) = refl

strqnchr-escaped_quotes :
    (x : ℕ) (rest : Bytes)
    → has rest double ≡ false
    → has rest backslash ≡ false
    → strqnchr (escaped_quotes x rest) b' ' ≡ some 0
unfolding strqnchr
strqnchr-escaped_quotes x rest h k = count_from-in_quote double b' ' 0 (b' ' ∷ rest) h k

-- After an escaped byte `strqnchr` misses an opening quote and takes the closing one for it. The
-- spaces between the words that follow, which have no byte that `strqsep` looks at, are not
-- counted, and `split_args` writes every word but the first behind its array.
pub split_args-overflow :
    (x : ℕ) (w : Bytes) (ws : List Bytes)
    → All IsWord (w ∷ ws)
    → (strqnchr (escaped_quotes x (join b' ' (w ∷ ws))) b' ' ≡ some 0)
      × (split_all b' ' (escaped_quotes x (join b' ' (w ∷ ws)))
          ≡ (backslash ∷ x ∷ double ∷ double ∷ []) ∷ w ∷ ws)
      × (split_args (escaped_quotes x (join b' ' (w ∷ ws))) ≡ none)
split_args-overflow x w ws h = (
  none_counted,
  all_split,
  unfold split_args in rw (split_args, none_counted, all_split) (ground arith),
)
  where
    none_counted : strqnchr (escaped_quotes x (join b' ' (w ∷ ws))) b' ' ≡ some 0
    none_counted =
        strqnchr-escaped_quotes x (join b' ' (w ∷ ws)) (join-clear double (w ∷ ws) refl refl h)
          (join-clear backslash (w ∷ ws) refl refl h)

    all_split :
        split_all b' ' (escaped_quotes x (join b' ' (w ∷ ws)))
        ≡ (backslash ∷ x ∷ double ∷ double ∷ []) ∷ w ∷ ws
    all_split =
        (split_all-step b' ' _).1 _ _ (strqsep-escaped_quotes x (join b' ' (w ∷ ws)))
        ∙ ap (◌∷◌ (backslash ∷ x ∷ double ∷ double ∷ [])) (split_all-words (w ∷ ws) h)
