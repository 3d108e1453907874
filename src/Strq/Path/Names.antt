-- ===== src/Strq/Path/Names.antt =====
-- The parts of a path: `base_name_ptr` and `base_dir_xptr` of libmhe/strq.c (under src/).
use yafc.Base.{
  ℕ, suc, ◌≡◌, refl, ap, ◌∙◌, inl, inr, false, none, some, [], ◌∷◌, ◌++◌, arith, ◌==◌,
  if◌then◌else◌, ==_iff, Bool-cases, Option-cases, some-eq, length, is_nil, Bytes, codes, has,
  split_last, xstrndup, take-append,
}
use yafc.Strq.Path.{base_dir_xptr}

split_last-none : (c : ℕ) (s : Bytes) → split_last c s ≡ none → has s c ≡ false
unfolding split_last
split_last-none c [] h = refl
split_last-none c (x ∷ s) h = elim (Option-cases (split_last c s)) [
  | inl n ↦ ground (arith, n, split_last-none c s n)
  | inr ((a, b), e) ↦ ground (arith, e)
]

pub split_last-some :
    (c : ℕ) (s a b : Bytes) → split_last c s ≡ some (a, b) → (s ≡ a ++ c ∷ b) × (has b c ≡ false)
unfolding split_last
split_last-some c [] a b h = ground arith
split_last-some c (x ∷ s) a b h = elim (Option-cases (split_last c s)) [
  | inl n ↦ elim (Bool-cases (x == c)) [
    | inl i ↦
        let e = some-eq (rw (n, i) at h) in
        let k = (==_iff x c).0 i in
        (cc (ap (λ q. q.0) e, ap (λ q. q.1) e, k), cc (ap (λ q. q.1) e, split_last-none c s n))
    | inr i ↦ absurd (ground (arith, n, i))
  ]
  | inr ((d, t), e) ↦
      let k = some-eq (rw e at h) in
      let (r, z) = split_last-some c s d t e in
      (cc (ap (λ q. q.0) k, ap (λ q. q.1) k, r), cc (ap (λ q. q.1) k, z))
]

pub base_dir-none : (path : Bytes) → split_last b'/' path ≡ none → base_dir_xptr path ≡ none
unfolding base_dir_xptr
base_dir-none path e = rw (base_dir_xptr, e)

pub base_dir-some :
    (path a b : Bytes)
    → split_last b'/' path ≡ some (a, b)
    → base_dir_xptr path ≡ some (if is_nil a then codes "/" else a)
unfolding base_dir_xptr
base_dir-some path [] b e = rw (base_dir_xptr, e)
base_dir-some path (x ∷ a) b e =
    let (s, n) = split_last-some b'/' path (x ∷ a) b e in
    rw (base_dir_xptr, e)
      (ap (λ p. xstrndup p (suc (length a))) s ∙ ap (λ t. some (x ∷ t)) (take-append a (b'/' ∷ b)))
