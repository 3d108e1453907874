-- ===== src/Session/Paths/Parts.antt =====
-- Paths that lie in another, for `ftp_path_part_of` of ftp/ftp.c (under src/).
use yafc.Base.{
  ◌≡◌, refl, ap, ◌∙◌, ◌↔◌, true, ◌&&◌, some, [], ◌∷◌, ◌++◌, arith, ◌==◌, ==_iff, &&-true, length,
  drop, Bytes, starts_with, drop-append,
}
use yafc.Strq.Path.{is_end}
use yafc.Session.Paths.{ftp_path_part_of}

-- `b` is `a` itself, or goes on behind it with a slash.
abbrev pub IsWithin : Bytes → Bytes → Type 0
IsWithin a b = (rest : Bytes) × (b ≡ a ++ rest) × (is_end rest ≡ true)

starts_with-split : (a b : Bytes) → starts_with a b ≡ true → b ≡ a ++ drop (length a) b
unfolding starts_with
starts_with-split [] b h = refl
starts_with-split (x ∷ a) [] h = absurd (ground (arith, h))
starts_with-split (x ∷ a) (y ∷ b) h =
    let (e, k) = &&-true (x == y) (starts_with a b) h in
    cc ((==_iff x y).0 e, starts_with-split a b k)

starts_with-prefix : (a rest : Bytes) → starts_with a (a ++ rest) ≡ true
unfolding starts_with
starts_with-prefix [] rest = refl
starts_with-prefix (x ∷ a) rest =
    let e : (x == x) ≡ true = ground arith in rw (e, starts_with-prefix a rest) refl

-- A path is part of another one if and only if the other is the same path, or the same path with a
-- slash and more behind it: `/a` is part of `/a/b`, and not of `/ab`.
pub ftp_path_part_of-IsWithin : (a b : Bytes) → (ftp_path_part_of a (some b) ≡ true) ↔ IsWithin a b
unfolding ftp_path_part_of
ftp_path_part_of-IsWithin a b = (
  λ h.
      let (p, e) = &&-true (starts_with a b) (is_end (drop (length a) b)) h in
      (drop (length a) b, starts_with-split a b p, e),
  λ (rest, p, e).
      ap (λ x. starts_with a x && is_end (drop (length a) x)) p
      ∙ ap (λ x. x && is_end (drop (length a) (a ++ rest))) (starts_with-prefix a rest)
      ∙ ap is_end (drop-append a rest)
      ∙ e,
)
