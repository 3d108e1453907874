-- ===== src/Strq/Scan/Count.antt =====
-- `strqnchr` of libmhe/strq.c (under src/) beside the number of tokens that `strqsep` finds.
use yafc.Base.{
  ℕ, zero, suc, ◌+◌, ◌≤◌, ◌<◌, ◌≡◌, refl, sym, ap, ◌∙◌, ◌⊎◌, inl, inr, false, none, some, [], ◌∷◌,
  ◌++◌, append-nil, arith, ◌==◌, if◌then◌else◌, Option-cases, length, All, Bytes, has,
}
use native.Mathlib.Nat.{add-zero, zero-add}
use yafc.Strq.Quote.{backslash, is_quote}
use yafc.Strq.Scan.{
  head, quoted, count_from, strqnchr, toggle, token_from, skip_delims, strqsep, split_all, tokens,
}
use yafc.Strq.Scan.Tokens.{skip_delims-cases, tokens-none, tokens-some}

-- All occurrences, quoted or not.
abbrev pub count : ℕ → Bytes → ℕ
count c [] = 0
count c (x ∷ s) = (if x == c then 1 else 0) + count c s

-- No quote and no backslash.
pub record IsBare (c : ℕ) : Type 0 where
  pub unquoted : is_quote c ≡ false
  pub unescaped : (c == backslash) ≡ false

count_from-byte :
    (c n x : ℕ) (s : Bytes)
    → IsBare x
    → count_from head c n (x ∷ s) ≡ count_from head c (if x == c then n + 1 else n) s
unfolding count_from
count_from-byte c n x s h = rw (count_from, h.unquoted, h.unescaped)

count_from-bare :
    (c n : ℕ) (s t : Bytes)
    → All IsBare s
    → count_from head c n (s ++ t) ≡ count_from head c (n + count c s) t
unfolding count_from
count_from-bare c n [] t h = rw add-zero
count_from-bare c n (x ∷ s) t h =
    count_from-byte c n x (s ++ t) h.0
    ∙ count_from-bare c (if x == c then n + 1 else n) s t h.1
    ∙ ap (λ m. count_from head c m t) (ground arith)

-- Without quotes and backslashes `strqnchr` counts every occurrence.
pub strqnchr-bare : (s : Bytes) (c : ℕ) → All IsBare s → strqnchr s c ≡ some (count c s)
unfolding strqnchr
strqnchr-bare s c h =
    ap (count_from head c 0) (sym (append-nil s))
    ∙ count_from-bare c 0 s [] h
    ∙ unfold count_from in ap some (zero-add (count c s))

-- `strqnchr` reads behind the terminator of every string that ends in an escaped byte, if
-- neither quotes nor backslashes stand before it.
pub strqnchr-overrun :
    (s : Bytes) (x c : ℕ) → All IsBare s → strqnchr (s ++ backslash ∷ x ∷ []) c ≡ none
unfolding strqnchr
strqnchr-overrun s x c h = count_from-bare c 0 s _ h ∙ unfold count_from in refl

-- Behind an escaped byte a quote is taken for an ordinary byte, and the closing quote then opens
-- one: what follows is not counted.
pub count_from-in_quote :
    (q c n : ℕ) (s : Bytes)
    → has s q ≡ false
    → has s backslash ≡ false
    → count_from (quoted q) c n s ≡ some n
unfolding count_from
count_from-in_quote q c n [] h k = refl
count_from-in_quote q c n (x ∷ s) h k = ground (arith, count_from-in_quote q c n s)

token_from-count :
    (delim q : ℕ) (s : Bytes)
    → ((token_from delim q s).1 ≡ []) ⊎ (count delim (token_from delim q s).1 < count delim s)
unfolding token_from
token_from-count delim q [] = inl refl
token_from-count delim q (x ∷ []) = ground arith
token_from-count delim q (x ∷ y ∷ s) =
    ground (arith, token_from-count delim q s, token_from-count delim (toggle q x) (y ∷ s))

skip_delims-count : (delim : ℕ) (s : Bytes) → count delim (skip_delims delim s) ≤ count delim s
unfolding skip_delims
skip_delims-count delim [] = omega arith
skip_delims-count delim (x ∷ s) = ground (arith, skip_delims-count delim s)

strqsep-count :
    (delim : ℕ) (s t r : Bytes)
    → strqsep delim s ≡ some (t, r)
    → (r ≡ []) ⊎ (count delim r < count delim s)
unfolding strqsep
strqsep-count delim s t r h = elim (skip_delims-cases delim s) [
  | inl e ↦ cc (rw e at h)
  | inr (x, xs, e, ne, le) ↦
      let same : some (token_from delim 0 (x ∷ xs)) ≡ some (t, r) = rw e at h in
      ground (
        arith,
        token_from-count delim 0 (x ∷ xs),
        skip_delims-count delim s,
        ap (count delim) e,
        same,
      )
]

tokens-nil : (f delim : ℕ) → tokens f delim [] ≡ []
tokens-nil zero delim = unfold tokens in refl
tokens-nil (suc f) delim = tokens-none f delim [] (unfold strqsep in refl)

tokens-count : (f delim : ℕ) (s : Bytes) → length (tokens f delim s) ≤ count delim s + 1
tokens-count zero delim s = unfold tokens in omega arith
tokens-count (suc f) delim s = elim (Option-cases (strqsep delim s)) [
  | inl e ↦ rw (tokens-none f delim s e) (omega arith)
  | inr ((t, r), e) ↦ rw (tokens-some f delim s e) (elim (strqsep-count delim s t r e) [
    | inl nil ↦ rw (nil, tokens-nil f delim) (omega arith)
    | inr less ↦ omega (arith, tokens-count f delim r, less)
  ])
]

-- A string holds at most one token more than delimiters.
pub split_all-count : (delim : ℕ) (s : Bytes) → length (split_all delim s) ≤ count delim s + 1
unfolding split_all
split_all-count delim s = tokens-count (length s + 1) delim s
