-- ===== src/Strq/Scan/Words.antt =====
-- Words that `backslash_quote_impl` quoted, as `strqsep` takes them apart (libmhe/strq.c, under
-- src/).
use yafc.Base.{
  All-mono, sym, ℕ, ◌≡◌, refl, ap, ◌∙◌, ◌≢◌, inl, inr, true, false, some, List, [], ◌∷◌, ◌++◌, map,
  append-nil, arith, ◌==◌, Bool-cases, All, Bytes, has, has-ne,
}
use yafc.Strq.Quote.{backslash, double, single, is_quote, backslash_quote_impl}
use yafc.Strq.Scan.{grow, token_from, skip_delims, strqsep, split_all}
use yafc.Strq.Scan.Tokens.{split_all-step}

-- The set of quoted bytes holds all that `strqsep` looks at, and the delimiter is no quote.
pub record Quotes (delim : ℕ) (set : Bytes) : Type 0 where
  pub backslashes : has set backslash ≡ true
  pub singles : has set single ≡ true
  pub doubles : has set double ≡ true
  pub delims : has set delim ≡ true
  pub not_backslash : (delim == backslash) ≡ false
  pub not_quote : is_quote delim ≡ false

token_from-escape :
    (delim c : ℕ) (s : Bytes)
    → token_from delim 0 (backslash ∷ c ∷ s) ≡ grow backslash (grow c (token_from delim 0 s))
unfolding token_from
token_from-escape delim c s = refl

token_from-plain :
    (delim c : ℕ) (s : Bytes)
    → c ≢ backslash
    → c ≢ single
    → c ≢ double
    → c ≢ delim
    → token_from delim 0 (c ∷ s) ≡ grow c (token_from delim 0 s)
unfolding token_from
token_from-plain delim c [] hb hs hd hc = ground arith
token_from-plain delim c (x ∷ s) hb hs hd hc = ground arith

-- A quoted word is taken whole, and the token goes on behind it.
token_from-quoted :
    (delim : ℕ) (set w rest : Bytes)
    → Quotes delim set
    → token_from delim 0 (backslash_quote_impl set w ++ rest)
      ≡ (backslash_quote_impl set w ++ (token_from delim 0 rest).0, (token_from delim 0 rest).1)
unfolding backslash_quote_impl
token_from-quoted delim set [] rest q = refl
token_from-quoted delim set (c ∷ w) rest q =
    let ih = token_from-quoted delim set w rest q in
    elim (Bool-cases (has set c)) [
      | inl e ↦ rw e (token_from-escape delim c _ ∙ ap (λ p. grow backslash (grow c p)) ih)
      | inr e ↦ rw e (
          token_from-plain delim c _ (has-ne set backslash c q.backslashes e)
            (has-ne set single c q.singles e) (has-ne set double c q.doubles e)
            (has-ne set delim c q.delims e)
          ∙ ap (grow c) ih)
    ]

strqsep-first :
    (delim x : ℕ) (s : Bytes)
    → (x == delim) ≡ false
    → strqsep delim (x ∷ s) ≡ some (token_from delim 0 (x ∷ s))
unfolding strqsep
strqsep-first delim x s h = rw h

strqsep-quoted_head :
    (delim : ℕ) (set : Bytes) (c : ℕ) (w rest : Bytes)
    → Quotes delim set
    → strqsep delim (backslash_quote_impl set (c ∷ w) ++ rest)
      ≡ some (token_from delim 0 (backslash_quote_impl set (c ∷ w) ++ rest))
unfolding backslash_quote_impl
strqsep-quoted_head delim set c w rest q = elim (Bool-cases (has set c)) [
  | inl e ↦ rw e (strqsep-first delim backslash _ (ground arith))
  | inr e ↦ rw e (strqsep-first delim c _ (ground (arith, has-ne set delim c q.delims e)))
]

abbrev pub join : ℕ → List Bytes → Bytes
join delim [] = []
join delim (w ∷ []) = w
join delim (w ∷ v ∷ ws) = w ++ delim ∷ join delim (v ∷ ws)

abbrev pub NonEmpty : Bytes → Type 0
NonEmpty w = w ≢ []

-- The word is taken whole where the scan stops at once behind it.
strqsep-word :
    (delim : ℕ) (set w rest r : Bytes)
    → Quotes delim set
    → w ≢ []
    → token_from delim 0 rest ≡ ([], r)
    → strqsep delim (backslash_quote_impl set w ++ rest) ≡ some (backslash_quote_impl set w, r)
strqsep-word delim set [] rest r q ne e = absurd (ne refl)
strqsep-word delim set (c ∷ w) rest r q ne e =
    strqsep-quoted_head delim set c w rest q
    ∙ ap some (token_from-quoted delim set (c ∷ w) rest q ∙ rw (e, append-nil))

token_from-delim :
    (delim : ℕ) (set rest : Bytes)
    → Quotes delim set
    → token_from delim 0 (delim ∷ rest) ≡ ([], rest)
unfolding token_from
token_from-delim delim set [] q = ground (arith, q.not_backslash, q.not_quote)
token_from-delim delim set (x ∷ rest) q = ground (arith, q.not_backslash, q.not_quote)

-- Words, none of them empty, that were quoted and joined come apart as the quoted words, if the
-- quoted bytes hold all that `strqsep` looks at.
pub split_all-join :
    (delim : ℕ) (set : Bytes) (ws : List Bytes)
    → Quotes delim set
    → All NonEmpty ws
    → split_all delim (join delim (map (backslash_quote_impl set) ws))
      ≡ map (backslash_quote_impl set) ws
split_all-join delim set [] q h = (split_all-step delim []).0 (unfold strqsep in refl)
split_all-join delim set (w ∷ []) q h =
    let word = strqsep-word delim set w [] [] q h.0 (unfold token_from in refl) in
    (split_all-step delim _).1 _ [] (rw append-nil at word)
    ∙ ap (◌∷◌ (backslash_quote_impl set w)) (split_all-join delim set [] q tt)
split_all-join delim set (w ∷ v ∷ ws) q h =
    (split_all-step delim _).1 _ _
      (strqsep-word delim set w _ _ q h.0 (token_from-delim delim set _ q))
    ∙ ap (◌∷◌ (backslash_quote_impl set w)) (split_all-join delim set (v ∷ ws) q h.1)

-- A word with no byte of the set.
abbrev pub IsClear : Bytes → Bytes → Type 0
IsClear set w = (w ≢ []) × All (λ c. has set c ≡ false) w

clear-kept : (set w : Bytes) → All (λ c. has set c ≡ false) w → backslash_quote_impl set w ≡ w
unfolding backslash_quote_impl
clear-kept set [] h = refl
clear-kept set (c ∷ w) h = rw h.0 (ap (◌∷◌ c) (clear-kept set w h.1))

words_kept :
    (set : Bytes) (ws : List Bytes) → All (IsClear set) ws → map (backslash_quote_impl set) ws ≡ ws
words_kept set [] h = refl
words_kept set (w ∷ ws) h = cc (clear-kept set w h.0.1, words_kept set ws h.1)

-- Words without a byte to quote come apart as they were joined.
pub split_all-clear :
    (delim : ℕ) (set : Bytes) (ws : List Bytes)
    → Quotes delim set
    → All (IsClear set) ws
    → split_all delim (join delim ws) ≡ ws
split_all-clear delim set ws q h =
    rw (words_kept set ws h) at
      (split_all-join delim set ws q (All-mono (λ (w : Bytes) (k : IsClear set w). k.0) ws h))

-- A clear word before a delimiter.
pub strqsep-clear :
    (delim : ℕ) (set w rest : Bytes)
    → Quotes delim set
    → IsClear set w
    → strqsep delim (w ++ delim ∷ rest) ≡ some (w, rest)
strqsep-clear delim set w rest q h =
    let kept = clear-kept set w h.1 in
    ap (λ v. strqsep delim (v ++ delim ∷ rest)) (sym kept)
    ∙ strqsep-word delim set w (delim ∷ rest) rest q h.0 (token_from-delim delim set rest q)
    ∙ ap (λ v. some (v, rest)) kept

-- A delimiter before a word.
pub strqsep-skip : (delim : ℕ) (s : Bytes) → strqsep delim (delim ∷ s) ≡ strqsep delim s
unfolding strqsep skip_delims
strqsep-skip delim s = let e : (delim == delim) ≡ true = ground arith in rw e refl
