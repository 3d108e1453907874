-- ===== src/Strq/Rfc1738/RoundTrip.antt =====
-- `encode_rfc1738` and `decode_rfc1738` of libmhe/strq.c (under src/), one behind the other.
use yafc.Base.{
  ℕ, ◌/◌, ◌%◌, ◌<◌, ◌≡◌, refl, ap, ◌∙◌, ◌≢◌, ◌⊎◌, inl, inr, true, false, [], ◌∷◌, arith, ◌==◌,
  ==_iff, Bool-cases, All, Bytes, codes, IsText, is_xdigit, c_string-IsText,
}
use yafc.Strq.Rfc1738.{
  needs_encoding, hex_digit, encode_rfc1738, hex_value, decode_bytes, decode_rfc1738,
  encode_url_directory,
}

hex_digit-is_xdigit : (n : ℕ) → n < 16 → is_xdigit (hex_digit n) ≡ true
unfolding hex_digit
hex_digit-is_xdigit n h = ground arith

hex_value-hex_digit : (n : ℕ) → n < 16 → hex_value (hex_digit n) ≡ n
unfolding hex_digit hex_value
hex_value-hex_digit n h = ground arith

-- A byte of an encoding: printable ASCII, and not to be encoded, unless it belongs to a `%XX`.
pub record IsPlain (xtra : Bytes) (c : ℕ) : Type 0 where
  pub printable : (0x20 < c) × (c < 0x7f)
  pub kept : (needs_encoding xtra c ≡ false) ⊎ (c ≡ b'%') ⊎ (is_xdigit c ≡ true)

percent-IsPlain : (xtra : Bytes) → IsPlain xtra b'%'
percent-IsPlain xtra = record { printable = omega arith; kept = inr (inl refl) }

hex_digit-IsPlain : (xtra : Bytes) (n : ℕ) → n < 16 → IsPlain xtra (hex_digit n)
unfolding hex_digit
hex_digit-IsPlain xtra n h = record {
  printable = ground arith;
  kept = inr (inr (hex_digit-is_xdigit n h));
}

kept-IsPlain : (xtra : Bytes) (c : ℕ) → needs_encoding xtra c ≡ false → IsPlain xtra c
unfolding needs_encoding
kept-IsPlain xtra c h = record { printable = ground arith; kept = inl h }

-- Every byte that `encode_rfc1738` writes for a C string is printable ASCII, and needs no
-- encoding unless it belongs to a `%XX`.
pub encode_rfc1738-IsPlain :
    (xtra s : Bytes) → IsText s → All (IsPlain xtra) (encode_rfc1738 xtra s)
unfolding encode_rfc1738
encode_rfc1738-IsPlain xtra [] h = tt
encode_rfc1738-IsPlain xtra (c ∷ s) h = elim (Bool-cases (needs_encoding xtra c)) [
  | inl e ↦ rw e (
    percent-IsPlain xtra,
    (
      hex_digit-IsPlain xtra (c / 16) (omega (arith, h.0.narrow)),
      (hex_digit-IsPlain xtra (c % 16) (omega arith), encode_rfc1738-IsPlain xtra s h.1),
    ),
  )
  | inr e ↦ rw e (kept-IsPlain xtra c e, encode_rfc1738-IsPlain xtra s h.1)
]

percent-decode :
    (n : ℕ) (s : Bytes)
    → n < 256
    → decode_bytes (b'%' ∷ hex_digit (n / 16) ∷ hex_digit (n % 16) ∷ s) ≡ n ∷ decode_bytes s
unfolding decode_bytes
percent-decode n s h = ground (
  arith,
  hex_digit-is_xdigit (n / 16),
  hex_digit-is_xdigit (n % 16),
  hex_value-hex_digit (n / 16),
  hex_value-hex_digit (n % 16),
)

decode-plain : (c : ℕ) (s : Bytes) → c ≢ b'%' → decode_bytes (c ∷ s) ≡ c ∷ decode_bytes s
unfolding decode_bytes
decode-plain c [] h = refl
decode-plain c (a ∷ []) h = refl
decode-plain c (a ∷ b ∷ s) h = ground arith

kept-ne-percent : (xtra : Bytes) (c : ℕ) → needs_encoding xtra c ≡ false → c ≢ b'%'
unfolding needs_encoding
kept-ne-percent xtra c h e = ground arith

decode-encode_bytes : (xtra s : Bytes) → IsText s → decode_bytes (encode_rfc1738 xtra s) ≡ s
unfolding encode_rfc1738
decode-encode_bytes xtra [] h = unfold decode_bytes in refl
decode-encode_bytes xtra (c ∷ s) h = elim (Bool-cases (needs_encoding xtra c)) [
  | inl e ↦ rw e (percent-decode c _ h.0.narrow ∙ ap (◌∷◌ c) (decode-encode_bytes xtra s h.1))
  | inr e ↦
      rw e
        (decode-plain c _ (kept-ne-percent xtra c e) ∙ ap (◌∷◌ c) (decode-encode_bytes xtra s h.1))
]

directory-bytes : (s : Bytes) → IsText s → decode_bytes (encode_url_directory s) ≡ s
unfolding encode_url_directory encode_rfc1738
directory-bytes [] h = unfold decode_bytes in refl
directory-bytes (c ∷ s) h = elim (Bool-cases (needs_encoding (codes ";") c)) [
  | inl e ↦
      rw e (percent-decode c _ h.0.narrow ∙ ap (◌∷◌ c) (decode-encode_bytes (codes ";") s h.1))
  | inr e ↦ elim (Bool-cases (c == b'/')) [
    | inl slash ↦
        rw (e, slash)
          (unfold decode_bytes in cc ((==_iff c 47).0 slash, decode-encode_bytes (codes ";") s h.1))
    | inr other ↦
        rw (e, other)
          (decode-plain c _ (kept-ne-percent (codes ";") c e)
            ∙ ap (◌∷◌ c) (decode-encode_bytes (codes ";") s h.1))
  ]
]

-- Decoding an encoded C string gives the string back, whatever extra bytes were encoded.
pub decode-encode_rfc1738 : (xtra s : Bytes) → IsText s → decode_rfc1738 (encode_rfc1738 xtra s) ≡ s
unfolding decode_rfc1738
decode-encode_rfc1738 xtra s h = rw (decode-encode_bytes xtra s h) (c_string-IsText s h)

-- The directory of a URL, a C string, keeps its leading slash through encoding and decoding.
pub decode-encode_url_directory :
    (s : Bytes) → IsText s → decode_rfc1738 (encode_url_directory s) ≡ s
unfolding decode_rfc1738
decode-encode_url_directory s h = rw (directory-bytes s h) (c_string-IsText s h)
