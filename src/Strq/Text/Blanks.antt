-- ===== src/Strq/Text/Blanks.antt =====
-- `strip_blanks` and `unquote_escapes` of libmhe/strq.c (under src/).
use mathlib.Core.Option
use yafc.Base.{
  ||-false, ℕ, ◌≡◌, refl, ap, ◌∙◌, Bool, true, false, none, [], ◌∷◌, ◌++◌, arith, ◌==◌, All, Bytes,
  is_space, is_xdigit, has, c_string,
}
use yafc.Strq.Text.{skip_blanks, trim_end, strip_blanks, unescape, unquote_escapes}

abbrev pub IsBlank : ℕ → Type 0
IsBlank c = is_space c ≡ true

-- The last byte of a word to keep.
pub record IsLast (e : ℕ) : Type 0 where
  pub not_blank : is_space e ≡ false
  pub not_backslash : (e == b'\\') ≡ false

skip_blanks-blank : (l s : Bytes) → All IsBlank l → skip_blanks (l ++ s) ≡ skip_blanks s
unfolding skip_blanks
skip_blanks-blank [] s h = refl
skip_blanks-blank (c ∷ l) s h = rw h.0 (skip_blanks-blank l s h.1)

skip_blanks-text : (c : ℕ) (s : Bytes) → is_space c ≡ false → skip_blanks (c ∷ s) ≡ c ∷ s
unfolding skip_blanks
skip_blanks-text c s h = rw h

trim_end-blank : (p : ℕ) (r : Bytes) → (p == b'\\') ≡ false → All IsBlank r → trim_end p r ≡ []
unfolding trim_end
trim_end-blank p [] n h = refl
trim_end-blank p (c ∷ r) n h =
    let k : (c == b'\\') ≡ false = ground (arith, h.0) in rw (trim_end-blank c r k h.1, h.0, n)

trim_end-word :
    (p e : ℕ) (u r : Bytes) → IsLast e → All IsBlank r → trim_end p (u ++ e ∷ r) ≡ u ++ e ∷ []
unfolding trim_end
trim_end-word p e [] r l h = rw (trim_end-blank e r l.not_backslash h, l.not_blank)
trim_end-word p e (c ∷ []) r l h = rw (trim_end-word c e [] r l h)
trim_end-word p e (c ∷ d ∷ u) r l h = rw (trim_end-word c e (d ∷ u) r l h)

abbrev pub starts_blank : Bytes → Bool
starts_blank [] = false
starts_blank (c ∷ s) = is_space c

-- Blanks around a text that starts and ends with other bytes are stripped, and nothing of the text
-- is. The last byte of the text is no backslash.
pub strip_blanks-padded :
    (l u r : Bytes) (e : ℕ)
    → All IsBlank l
    → All IsBlank r
    → IsLast e
    → starts_blank u ≡ false
    → strip_blanks (l ++ (u ++ e ∷ r)) ≡ u ++ e ∷ []
unfolding strip_blanks
strip_blanks-padded l [] r e hl hr last first =
    rw (skip_blanks-blank l (e ∷ r) hl, skip_blanks-text e r last.not_blank)
      (ap (◌∷◌ e) (trim_end-blank e r last.not_backslash hr))
strip_blanks-padded l (c ∷ u) r e hl hr last first =
    rw (skip_blanks-blank l (c ∷ (u ++ e ∷ r)) hl, skip_blanks-text c (u ++ e ∷ r) first)
      (ap (◌∷◌ c) (trim_end-word c e u r last hr))

unescape-plain :
    (c : ℕ) (s : Bytes) → (c == b'\\') ≡ false → unescape (c ∷ s) ≡ Option.map (◌∷◌ c) (unescape s)
unfolding unescape
unescape-plain c [] h = rw h
unescape-plain c (d ∷ []) h = rw h
unescape-plain c (d ∷ e ∷ []) h = rw h
unescape-plain c (d ∷ e ∷ f ∷ s) h = rw h

unescape-overrun :
    (s : Bytes) (h : ℕ)
    → has s b'\\' ≡ false
    → is_xdigit h ≡ true
    → unescape (s ++ b'\\' ∷ b'x' ∷ h ∷ []) ≡ none
unescape-overrun [] h n x = unfold unescape in rw x
unescape-overrun (c ∷ s) h n x =
    let (k, l) = ||-false (c == b'\\') (has s b'\\') n in
    unescape-plain c (s ++ b'\\' ∷ b'x' ∷ h ∷ []) k
    ∙ ap (Option.map (◌∷◌ c)) (unescape-overrun s h l x)

-- A text without backslashes behind which `\xH` stands, with one hexadecimal digit, is read past
-- its terminator.
pub unquote_escapes-overrun :
    (s : Bytes) (h : ℕ)
    → has s b'\\' ≡ false
    → is_xdigit h ≡ true
    → unquote_escapes (s ++ b'\\' ∷ b'x' ∷ h ∷ []) ≡ none
unfolding unquote_escapes
unquote_escapes-overrun s h n x = ap (Option.map c_string) (unescape-overrun s h n x)
