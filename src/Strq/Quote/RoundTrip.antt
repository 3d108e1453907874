-- ===== src/Strq/Quote/RoundTrip.antt =====
-- `dequote_filename` behind the quoting functions of libmhe/strq.c (under src/).
use yafc.Base.{
  ||-false, has-ne, ℕ, ◌+◌, ◌≤◌, ◌<◌, ◌≡◌, refl, sym, ap, ◌∙◌, ◌≢◌, inl, inr, Bool, true, false,
  ◌||◌, [], ◌∷◌, ◌++◌, append-nil, arith, ◌==◌, if◌then◌else◌, ==_iff, Bool-cases, length, Bytes,
  has,
}
use yafc.Strq.Quote.{
  backslash, double, single, is_quote, dequote_from, dequote_filename, backslash_quote_impl,
  shell_special, backslash_quote, double_special, double_quote, single_body, single_quote,
  MatchType, quote_expanded,
}

-- Steps of the loop, with any rest behind.
dequote-escape :
    (next c : ℕ) (s : Bytes) → dequote_from next (backslash ∷ c ∷ s) ≡ c ∷ dequote_from next s
unfolding dequote_from
dequote-escape next c s = refl

-- Outside of quotes a byte that is no quote and no backslash is kept.
dequote-plain :
    (c : ℕ) (s : Bytes)
    → c ≢ backslash
    → is_quote c ≡ false
    → dequote_from 0 (c ∷ s) ≡ c ∷ dequote_from 0 s
unfolding dequote_from
dequote-plain c [] h k = ground arith
dequote-plain c (d ∷ s) h k = ground arith

-- Inside of quotes the other quote is kept too.
dequote-quoted :
    (next c : ℕ) (s : Bytes)
    → 0 < next
    → c ≢ backslash
    → c ≢ next
    → dequote_from next (c ∷ s) ≡ c ∷ dequote_from next s
unfolding dequote_from
dequote-quoted next c [] p h k = ground arith
dequote-quoted next c (d ∷ s) p h k = ground arith

neither-is_quote : (c : ℕ) → c ≢ single → c ≢ double → is_quote c ≡ false
neither-is_quote c h k = ground arith

-- Outside of quotes: the set holds the backslash and both quotes.
dequote-backslash_quote_impl :
    (set s rest : Bytes)
    → has set backslash ≡ true
    → has set single ≡ true
    → has set double ≡ true
    → dequote_from 0 (backslash_quote_impl set s ++ rest) ≡ s ++ dequote_from 0 rest
unfolding backslash_quote_impl
dequote-backslash_quote_impl set [] rest hb hs hd = refl
dequote-backslash_quote_impl set (c ∷ s) rest hb hs hd =
    let ih = dequote-backslash_quote_impl set s rest hb hs hd in
    elim (Bool-cases (has set c)) [
      | inl e ↦ rw e (dequote-escape 0 c _ ∙ ap (◌∷◌ c) ih)
      | inr e ↦ rw e (
          dequote-plain c _ (has-ne set backslash c hb e)
            (neither-is_quote c (has-ne set single c hs e) (has-ne set double c hd e))
          ∙ ap (◌∷◌ c) ih)
    ]

-- Inside of quotes: the set holds the backslash and the quote.
dequote-quoted_body :
    (set : Bytes) (next : ℕ) (s rest : Bytes)
    → 0 < next
    → has set backslash ≡ true
    → has set next ≡ true
    → dequote_from next (backslash_quote_impl set s ++ rest) ≡ s ++ dequote_from next rest
unfolding backslash_quote_impl
dequote-quoted_body set next [] rest p hb hn = refl
dequote-quoted_body set next (c ∷ s) rest p hb hn =
    let ih = dequote-quoted_body set next s rest p hb hn in
    elim (Bool-cases (has set c)) [
      | inl e ↦ rw e (dequote-escape next c _ ∙ ap (◌∷◌ c) ih)
      | inr e ↦ rw e (
          dequote-quoted next c _ p (has-ne set backslash c hb e) (has-ne set next c hn e)
          ∙ ap (◌∷◌ c) ih)
    ]

dequote-whole :
    (set s : Bytes)
    → has set backslash ≡ true
    → has set single ≡ true
    → has set double ≡ true
    → dequote_from 0 (backslash_quote_impl set s) ≡ s
dequote-whole set s hb hs hd =
    ap (dequote_from 0) (sym (append-nil _))
    ∙ dequote-backslash_quote_impl set s [] hb hs hd
    ∙ unfold dequote_from in append-nil s

dequote-open :
    (q : ℕ) (s : Bytes)
    → is_quote q ≡ true
    → (q == backslash) ≡ false
    → dequote_from 0 (q ∷ (s ++ q ∷ [])) ≡ dequote_from q (s ++ q ∷ [])
unfolding dequote_from
dequote-open q [] h k = rw (k, h)
dequote-open q (c ∷ s) h k = rw (k, h)

-- A single quote in the name closes the quotes, is escaped, and opens them again.
dequote-reopen :
    (s : Bytes)
    → dequote_from single (single ∷ backslash ∷ single ∷ single ∷ (s ++ single ∷ []))
      ≡ single ∷ dequote_from single (s ++ single ∷ [])
unfolding dequote_from
dequote-reopen [] = refl
dequote-reopen (c ∷ s) = refl

dequote-single_body :
    (s : Bytes) → has s backslash ≡ false → dequote_from single (single_body s ++ single ∷ []) ≡ s
unfolding single_body
dequote-single_body [] h = unfold dequote_from in refl
dequote-single_body (c ∷ s) h =
    let ih = dequote-single_body s (||-false (c == backslash) _ h).1 in
    elim (Bool-cases (c == single)) [
      | inl e ↦ rw e (dequote-reopen (single_body s) ∙ cc (ih, (==_iff c single).0 e))
      | inr e ↦
          rw e
            (dequote-quoted single c _ (omega arith) (ground arith) (ground arith) ∙ ap (◌∷◌ c) ih)
    ]

-- A file name that was quoted with backslashes is read back by `dequote_filename`.
pub dequote-backslash_quote : (s : Bytes) → dequote_filename (backslash_quote s) ≡ s
unfolding dequote_filename backslash_quote
dequote-backslash_quote s = dequote-whole shell_special s refl refl refl

-- A file name that was quoted with double quotes is read back by `dequote_filename`.
pub dequote-double_quote : (s : Bytes) → dequote_filename (double_quote s) ≡ s
unfolding dequote_filename double_quote
dequote-double_quote s =
    dequote-open double (backslash_quote_impl double_special s) refl refl
    ∙ dequote-quoted_body double_special double s (double ∷ []) (omega arith) refl refl
    ∙ unfold dequote_from in append-nil s

-- A file name without a backslash that was quoted with single quotes is read back by `dequote_filename`.
pub dequote-single_quote :
    (s : Bytes) → has s backslash ≡ false → dequote_filename (single_quote s) ≡ s
unfolding dequote_filename single_quote
dequote-single_quote s h = dequote-open single (single_body s) refl refl ∙ dequote-single_body s h

abbrev needs_quotes : Bytes → Bytes → Bool
needs_quotes set [] = false
needs_quotes set (c ∷ s) = has set c || needs_quotes set s

length-backslash_quote :
    (set s : Bytes)
    → length s + (if needs_quotes set s then 1 else 0) ≤ length (backslash_quote_impl set s)
unfolding backslash_quote_impl
length-backslash_quote set [] = omega arith
length-backslash_quote set (c ∷ s) = elim (Bool-cases (has set c)) [
  | inl e ↦ rw e (ground (arith, length-backslash_quote set s))
  | inr e ↦ rw e (ground (arith, length-backslash_quote set s))
]

quoted-ne : (s : Bytes) → needs_quotes shell_special s ≡ true → backslash_quote s ≢ s
unfolding backslash_quote
quoted-ne s h e =
    let le = rw h at (length-backslash_quote shell_special s) in omega (arith, le, ap length e)

-- In the backslash style `quote_filename` quotes twice. Where the word break characters hold both
-- quotes, as those of `input_init` do, `dequote_filename` gives back the backslash-quoted name, and so not the
-- name itself as soon as it has a byte to quote.
pub dequote-quote_expanded :
    (breaks s : Bytes) (kind : MatchType)
    → has breaks single ≡ true
    → has breaks double ≡ true
    → (dequote_filename (quote_expanded breaks kind 0 s) ≡ backslash_quote s)
      × (needs_quotes shell_special s ≡ true
          → dequote_filename (quote_expanded breaks kind 0 s) ≢ s)
unfolding dequote_filename quote_expanded
dequote-quote_expanded breaks s kind hs hd = (twice, λ h e. quoted-ne s h (sym twice ∙ e))
  where
    twice : dequote_filename (quote_expanded breaks kind 0 s) ≡ backslash_quote s
    twice = dequote-whole (backslash ∷ breaks) (backslash_quote s) refl hs hd
