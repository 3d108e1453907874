-- ===== src/Url/Parse/Parts.antt =====
-- Texts that the scans of libmhe/strq.c and ftp/url.c (under src/) step over.
use yafc.Base.{
  ℕ, ◌≡◌, refl, sym, ap, ◌∙◌, inl, inr, Bool, true, false, not, some, [], ◌∷◌, ◌++◌, append-nil,
  arith, ◌==◌, ==_iff, Bool-cases, All, All-mono, Bytes, codes, IsText, has, starts_with,
}
use yafc.Strq.Rfc1738.{needs_encoding, encode_rfc1738}
use yafc.Strq.Rfc1738.RoundTrip.{IsPlain, encode_rfc1738-IsPlain}
use yafc.Strq.Quote.{backslash, is_quote, dequote_from, dequote_filename, unquote}
use yafc.Strq.Scan.{found, absent, behind, strqchr, head, advance, counts, count_from, strqnchr}
use yafc.Url.Parse.{split_str}

-- A byte that no part of a URL holds once it is encoded.
abbrev pub plain : ℕ → Bool
plain c = not (has (codes "\\\"':@/[]") c)

abbrev pub IsPart : Bytes → Type 0
IsPart s = All (λ c. plain c ≡ true) s

not_backslash : (c : ℕ) → plain c ≡ true → (c == backslash) ≡ false
not_backslash c h = ground (arith, h)

not_quoted : (c : ℕ) → plain c ≡ true → is_quote c ≡ false
not_quoted c h = ground (arith, h)

-- A byte that the scan looks for.
abbrev IsSought : ℕ → Type 0
IsSought ch = (plain ch ≡ false) × ((ch == backslash) ≡ false)

not_sought : (ch c : ℕ) → plain ch ≡ false → plain c ≡ true → (c == ch) ≡ false
not_sought ch c h k = elim (Bool-cases (c == ch)) [
  | inr e ↦ e
  | inl e ↦ let q = (==_iff c ch).0 e in ground (arith, h, k, q)
]

strqchr-here :
    (rest : Bytes) (ch : ℕ) → (ch == backslash) ≡ false → strqchr (ch ∷ rest) ch ≡ found [] rest
unfolding strqchr
strqchr-here [] ch h = let e : (ch == ch) ≡ true = ground arith in rw (h, e) refl
strqchr-here (x ∷ rest) ch h = let e : (ch == ch) ≡ true = ground arith in rw (h, e) refl

strqchr-next :
    (c : ℕ) (s : Bytes) (ch : ℕ)
    → (c == backslash) ≡ false
    → (c == ch) ≡ false
    → strqchr (c ∷ s) ch ≡ behind c (strqchr s ch)
unfolding strqchr
strqchr-next c [] ch h k = rw (h, k) refl
strqchr-next c (x ∷ s) ch h k = rw (h, k) refl

-- Bytes among which the scan for `ch` does not end.
abbrev pub IsFree : ℕ → Bytes → Type 0
IsFree ch s = All (λ c. ((c == backslash) ≡ false) × ((c == ch) ≡ false)) s

pub part-IsFree : (s : Bytes) (ch : ℕ) → IsPart s → IsSought ch → IsFree ch s
part-IsFree s ch h k =
    All-mono (λ (c : ℕ) (p : plain c ≡ true). (not_backslash c p, not_sought ch c k.0 p)) s h

pub strqchr-found :
    (s rest : Bytes) (ch : ℕ)
    → IsFree ch s
    → (ch == backslash) ≡ false
    → strqchr (s ++ ch ∷ rest) ch ≡ found s rest
strqchr-found [] rest ch h k = strqchr-here rest ch k
strqchr-found (c ∷ s) rest ch h k =
    strqchr-next c (s ++ ch ∷ rest) ch (h.0.0) (h.0.1)
    ∙ ap (behind c) (strqchr-found s rest ch h.1 k)

pub strqchr-absent : (s : Bytes) (ch : ℕ) → IsFree ch s → strqchr s ch ≡ absent
strqchr-absent [] ch h = unfold strqchr in refl
strqchr-absent (c ∷ s) ch h =
    strqchr-next c s ch (h.0.0) (h.0.1) ∙ ap (behind c) (strqchr-absent s ch h.1)

dequote-next :
    (c : ℕ) (s : Bytes)
    → (c == backslash) ≡ false
    → is_quote c ≡ false
    → dequote_from 0 (c ∷ s) ≡ c ∷ dequote_from 0 s
unfolding dequote_from
dequote-next c [] h k = rw (h, k) refl
dequote-next c (d ∷ s) h k = rw (h, k) refl

dequote-part : (s : Bytes) → IsPart s → dequote_from 0 s ≡ s
dequote-part [] h = unfold dequote_from in refl
dequote-part (c ∷ s) h =
    dequote-next c s (not_backslash c h.0) (not_quoted c h.0) ∙ ap (◌∷◌ c) (dequote-part s h.1)

pub unquote-part : (s : Bytes) → IsPart s → unquote s ≡ s
unfolding unquote dequote_filename
unquote-part s h = dequote-part s h

pub unquote-slash : (s : Bytes) → IsPart s → unquote (b'/' ∷ s) ≡ b'/' ∷ s
unfolding unquote dequote_filename
unquote-slash s h = dequote-next b'/' s refl refl ∙ ap (◌∷◌ b'/') (dequote-part s h)

count-next :
    (ch n c : ℕ) (s : Bytes)
    → (c == backslash) ≡ false
    → is_quote c ≡ false
    → (c == ch) ≡ false
    → count_from head ch n (c ∷ s) ≡ count_from head ch n s
unfolding count_from advance counts
count-next ch n c s h k l = rw (h, k, l) refl

-- Bytes that the count steps over.
count-part :
    (ch n : ℕ) (s rest : Bytes)
    → IsPart s
    → IsSought ch
    → count_from head ch n (s ++ rest) ≡ count_from head ch n rest
count-part ch n [] rest h k = refl
count-part ch n (c ∷ s) rest h k =
    count-next ch n c (s ++ rest) (not_backslash c h.0) (not_quoted c h.0) (not_sought ch c k.0 h.0)
    ∙ count-part ch n s rest h.1 k

pub strqnchr-part : (s : Bytes) (ch : ℕ) → IsPart s → IsSought ch → strqnchr s ch ≡ some 0
unfolding strqnchr count_from
strqnchr-part s ch h k = ap (count_from head ch 0) (sym (append-nil s)) ∙ count-part ch 0 s [] h k

-- The host, one colon, and the port.
pub strqnchr-port : (s t : Bytes) → IsPart s → IsPart t → strqnchr (s ++ b':' ∷ t) b':' ≡ some 1
unfolding strqnchr count_from advance counts
strqnchr-port s t h k =
    let c = count-part b':' 0 s (b':' ∷ t) h (refl, refl) in
    let d = count-part b':' 1 t [] k (refl, refl) in
    c ∙ ap (count_from head b':' 1) (sym (append-nil t)) ∙ d

-- A text without a colon, and what stands behind it.
pub split_str-protocol :
    (s rest : Bytes)
    → IsPart s
    → split_str (codes "://") (s ++ codes "://" ++ rest) ≡ some (s, rest)
unfolding split_str starts_with
split_str-protocol [] rest h = refl
split_str-protocol (c ∷ s) rest h =
    let e : (b':' == c) ≡ false = let q = h.0 in ground (arith, q) in
    rw (e, split_str-protocol s rest h.1) refl

plain-IsPlain : (c : ℕ) → IsPlain (codes "':@/") c → plain c ≡ true
unfolding needs_encoding
plain-IsPlain c h = elim (h.kept) [
  | inl e ↦ ground (arith, e)
  | inr (inl e) ↦ rw e refl
  | inr (inr e) ↦ ground (arith, e)
]

-- What the encoder writes.
pub encode-IsPart : (s : Bytes) → IsText s → IsPart (encode_rfc1738 (codes "':@/") s)
encode-IsPart s h = All-mono plain-IsPlain _ (encode_rfc1738-IsPlain (codes "':@/") s h)
