-- ===== src/Strq/Scan/Tokens.antt =====
-- `strqsep` of libmhe/strq.c (under src/), and the loop over it.
use yafc.Base.{
  ℕ, zero, suc, ◌+◌, ◌≤◌, ◌<◌, ◌≡◌, refl, sym, ap, ◌∙◌, ◌≢◌, ◌⊎◌, inl, inr, none, some, [], ◌∷◌,
  arith, ◌==◌, Bool-cases, Option-cases, length, Bytes,
}
use native.Mathlib.Numerals.{add-one}
use yafc.Strq.Scan.{toggle, token_from, skip_delims, strqsep, tokens, split_all}

-- The rest never grows.
token_from-rest : (delim q : ℕ) (s : Bytes) → length (token_from delim q s).1 ≤ length s
unfolding token_from
token_from-rest delim q [] = omega arith
token_from-rest delim q (x ∷ []) = ground arith
token_from-rest delim q (x ∷ y ∷ s) =
    ground (arith, token_from-rest delim q s, token_from-rest delim (toggle q x) (y ∷ s))

token_from-progress :
    (delim x : ℕ) (s : Bytes)
    → x ≢ delim
    → (length (token_from delim 0 (x ∷ s)).1 < length (x ∷ s))
      × ((token_from delim 0 (x ∷ s)).0 ≢ [])
unfolding token_from
token_from-progress delim x [] h = ground arith
token_from-progress delim x (y ∷ s) h =
    ground (arith, token_from-rest delim 0 s, token_from-rest delim (toggle 0 x) (y ∷ s))

pub skip_delims-cases :
    (delim : ℕ) (s : Bytes)
    → (skip_delims delim s ≡ [])
      ⊎ ((x : ℕ) × (r : Bytes) × (skip_delims delim s ≡ x ∷ r)
          × (x ≢ delim)
          × (length (x ∷ r) ≤ length s))
unfolding skip_delims
skip_delims-cases delim [] = inl refl
skip_delims-cases delim (x ∷ s) = elim (Bool-cases (x == delim)) [
  | inl e ↦ rw e (elim (skip_delims-cases delim s) [
    | inl h ↦ inl h
    | inr (y, r, h, ne, le) ↦ inr (y, r, h, ne, omega arith)
  ])
  | inr e ↦ rw e (inr (x, s, refl, ground arith, omega arith))
]

-- A token is not empty, and less than the string is left behind it.
pub strqsep-progress :
    (delim : ℕ) (s t r : Bytes) → strqsep delim s ≡ some (t, r) → (t ≢ []) × (length r < length s)
unfolding strqsep
strqsep-progress delim s t r h = elim (skip_delims-cases delim s) [
  | inl e ↦ cc (rw e at h)
  | inr (x, xs, e, ne, le) ↦
      let same : some (token_from delim 0 (x ∷ xs)) ≡ some (t, r) = rw e at h in
      ground (arith, token_from-progress delim x xs ne, same)
]

pub tokens-none : (f delim : ℕ) (s : Bytes) → strqsep delim s ≡ none → tokens (suc f) delim s ≡ []
unfolding tokens
tokens-none f delim s e = rw (e, tokens) refl

pub tokens-some :
    (f delim : ℕ) (s : Bytes) {t r : Bytes}
    → strqsep delim s ≡ some (t, r)
    → tokens (suc f) delim s ≡ t ∷ tokens f delim r
unfolding tokens
tokens-some f delim s e = rw (e, tokens) refl

-- More rounds than bytes give the same tokens, however many more.
tokens-fuel :
    (delim f g : ℕ) (s : Bytes) → length s < f → length s < g → tokens f delim s ≡ tokens g delim s
tokens-fuel delim zero g s p q = absurd (omega arith)
tokens-fuel delim (suc f) zero s p q = absurd (omega arith)
tokens-fuel delim (suc f) (suc g) s p q = elim (Option-cases (strqsep delim s)) [
  | inl e ↦ tokens-none f delim s e ∙ sym (tokens-none g delim s e)
  | inr ((t, r), e) ↦
      let less = (strqsep-progress delim s t r e).1 in
      tokens-some f delim s e
      ∙ ap (◌∷◌ t) (tokens-fuel delim f g r (omega arith) (omega arith))
      ∙ sym (tokens-some g delim s e)
]

-- The loop over `strqsep` ends for every string, and gives the tokens one after another.
pub split_all-step :
    (delim : ℕ) (s : Bytes)
    → (strqsep delim s ≡ none → split_all delim s ≡ [])
      × ((t r : Bytes) → strqsep delim s ≡ some (t, r) → split_all delim s ≡ t ∷ split_all delim r)
unfolding split_all
split_all-step delim s = (
  λ e. rw add-one (tokens-none (length s) delim s e),
  λ t r e.
      let less = (strqsep-progress delim s t r e).1 in
      rw add-one (
        tokens-some (length s) delim s e
        ∙ ap (◌∷◌ t) (tokens-fuel delim (length s) (length r + 1) r less (omega arith))),
)
