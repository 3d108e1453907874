-- ===== src/ShortPath/Slashes.antt =====
-- The slashes of a path, for `shortpath` of libmhe/shortpath.c (under src/).
use yafc.Base.{
  ℕ, ◌+◌, ◌≡◌, refl, sym, ap, ◌∙◌, inl, inr, Bool, true, false, ◌||◌, Option, none, some, [], ◌∷◌,
  ◌++◌, arith, ◌==◌, if◌then◌else◌, Bool-cases, Option-cases, some-eq, length, Bytes, has, split_at,
}
use mathlib.Core.Path.{subst}
use yafc.ShortPath.{from_slash, start_len}

-- How many bytes stand up to the first slash, which counts; 0 without one.
pub data IsStart (path : Bytes) : ℕ → Type 0 where
  no_slash : has path b'/' ≡ false → IsStart path 0
  slash :
      (first rest : Bytes)
      → has first b'/' ≡ false
      → path ≡ first ++ b'/' ∷ rest
      → IsStart path (length first + 1)

-- The parts of a text around its first `c`.
pub record IsParted (c : ℕ) (s : Bytes) (parts : Bytes × Bytes) : Type 0 where
  pub joined : parts.0 ++ c ∷ parts.1 ≡ s
  pub clear : has (parts.0) c ≡ false

first-IsParted : (c x : ℕ) (s : Bytes) → (x == c) ≡ true → IsParted c (x ∷ s) ([], s)
first-IsParted c x s e = record {
  joined = let same : c ≡ x = ground arith in ap (λ y. y ∷ s) same;
  clear = refl;
}

later-IsParted :
    (c x : ℕ) (s : Bytes) (y : Bytes × Bytes)
    → (x == c) ≡ false
    → IsParted c s y
    → IsParted c (x ∷ s) (x ∷ y.0, y.1)
later-IsParted c x s y e h = record {
  joined = ap (◌∷◌ x) h.joined;
  clear = ap (λ b. b || has (y.0) c) e ∙ h.clear;
}

abbrev prepend : ℕ → Option (Bytes × Bytes) → Option (Bytes × Bytes)
prepend x o = elim o as (λ z. Option (Bytes × Bytes)) [
  | none ↦ none
  | some (a, b) ↦ some (x ∷ a, b)
]

split_at-IsParted : (c : ℕ) (s : Bytes) (y : Bytes × Bytes) → split_at c s ≡ some y → IsParted c s y
unfolding split_at
split_at-IsParted c [] y e = absurd (ground arith)
split_at-IsParted c (x ∷ s) y e =
    let rest = prepend x (split_at c s) in
    let step = λ (b : Bool). if b then some ([], s) else rest in
    elim (Bool-cases (x == c)) [
      | inl k ↦ subst (IsParted c (x ∷ s)) (some-eq (sym (ap step k) ∙ e)) (first-IsParted c x s k)
      | inr k ↦ elim (Option-cases (split_at c s)) [
        | inl n ↦ absurd (let q = sym (ap step k ∙ ap (prepend x) n) ∙ e in ground (arith, q))
        | inr (z, n) ↦
            subst (IsParted c (x ∷ s)) (some-eq (sym (ap step k ∙ ap (prepend x) n) ∙ e))
              (later-IsParted c x s z k (split_at-IsParted c s z n))
      ]
    ]

split_at-none : (c : ℕ) (s : Bytes) → split_at c s ≡ none → has s c ≡ false
unfolding split_at
split_at-none c [] e = refl
split_at-none c (x ∷ s) e =
    let rest = prepend x (split_at c s) in
    let step = λ (b : Bool). if b then some ([], s) else rest in
    elim (Bool-cases (x == c)) [
      | inl k ↦ absurd (let q = sym (ap step k) ∙ e in ground (arith, q))
      | inr k ↦ elim (Option-cases (split_at c s)) [
        | inl n ↦ ap (λ b. b || has s c) k ∙ split_at-none c s n
        | inr (z, n) ↦ absurd (let q = sym (ap step k ∙ ap (prepend x) n) ∙ e in ground (arith, q))
      ]
    ]

pub start_len-IsStart : (path : Bytes) → IsStart path (start_len path)
start_len-IsStart path =
    let len = λ (o : Option (Bytes × Bytes)). elim o as (λ x. ℕ) [
      | none ↦ 0
      | some (a, b) ↦ length a + 1
    ] in
    elim (Option-cases (split_at b'/' path)) [
      | inl n ↦ subst (IsStart path) (sym (ap len n)) (no_slash (split_at-none b'/' path n))
      | inr ((a, b), n) ↦
          let h = split_at-IsParted b'/' path (a, b) n in
          subst (IsStart path) (sym (ap len n)) (slash a b h.clear (sym h.joined))
    ]

-- The tail from the first slash on.
pub record IsTail (s tail : Bytes) : Type 0 where
  pub skipped : Bytes
  pub behind : Bytes
  pub tail_is : b'/' ∷ behind ≡ tail
  pub parted : IsParted b'/' s (skipped, behind)

pub from_slash-IsTail : (s tail : Bytes) → from_slash s ≡ some tail → IsTail s tail
unfolding from_slash
from_slash-IsTail [] tail e = absurd (ground arith)
from_slash-IsTail (c ∷ s) tail e =
    let step = λ (b : Bool). if b then some (c ∷ s) else from_slash s in
    elim (Bool-cases (c == b'/')) [
      | inl k ↦
          let p = first-IsParted b'/' c s k in
          record {
            skipped = [];
            behind = s;
            tail_is = p.joined ∙ some-eq (sym (ap step k) ∙ e);
            parted = p;
          }
      | inr k ↦
          let x = from_slash-IsTail s tail (sym (ap step k) ∙ e) in
          record {
            skipped = c ∷ x.skipped;
            behind = x.behind;
            tail_is = x.tail_is;
            parted = later-IsParted b'/' c s (x.skipped, x.behind) k x.parted;
          }
    ]

pub from_slash-none : (s : Bytes) → from_slash s ≡ none → has s b'/' ≡ false
unfolding from_slash
from_slash-none [] e = refl
from_slash-none (c ∷ s) e =
    let step = λ (b : Bool). if b then some (c ∷ s) else from_slash s in
    elim (Bool-cases (c == b'/')) [
      | inl k ↦ absurd (let q = sym (ap step k) ∙ e in ground (arith, q))
      | inr k ↦ ap (λ b. b || has s b'/') k ∙ from_slash-none s (sym (ap step k) ∙ e)
    ]
