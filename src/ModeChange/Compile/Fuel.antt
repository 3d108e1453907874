-- ===== src/ModeChange/Compile/Fuel.antt =====
-- The loop of `mode_compile` (utils/modechange.c, under src/) and the bytes that its rounds take.
use yafc.Base.{
  ℕ, zero, suc, ◌+◌, ◌≤◌, ◌<◌, ◌≡◌, refl, ap, inl, inr, Option, none, some, List, [], ◌∷◌, arith,
  ◌==◌, if◌then◌else◌, Bool-cases, Option-cases, some-eq, length, Bytes, codes, has,
}
use yafc.ModeChange.Mode.{Mode, Change, Flags}
use yafc.ModeChange.Parse.{span, with_rest, take_values, mode_parse}
use yafc.ModeChange.Compile.{link, behind_clause, compile_from}

span-length : (set s : Bytes) → length (span set s).0 + length (span set s).1 ≡ length s
unfolding span
span-length set [] = refl
span-length set (c ∷ s) = elim (Bool-cases (has set c)) [
  | inl e ↦ rw e (omega (arith, span-length set s))
  | inr e ↦ rw e (omega arith)
]

with_rest-some :
    (o : Option Change) (rest r : Bytes) (c : Change) → with_rest o rest ≡ some (c, r) → rest ≡ r
with_rest-some none rest r c h = absurd (ground arith)
with_rest-some (some d) rest r c h = ap (λ q. q.1) (some-eq h)

take_values-shorter :
    (flags : Flags) (umask : Mode) (classes ops vs rest r : Bytes) (c : Change)
    → take_values flags umask classes ops (vs, rest) ≡ some (c, r)
    → length r < length ops + (length vs + length rest)
take_values-shorter flags umask classes [] vs rest r c h = absurd (ground arith)
take_values-shorter flags umask classes (x ∷ []) [] rest r c h = absurd (ground arith)
take_values-shorter flags umask classes (x ∷ []) (v ∷ vs) rest r c h =
    let same = ap length (with_rest-some _ rest r c h) in omega (arith, same)
take_values-shorter flags umask classes (x ∷ y ∷ ops) vs rest r c h = absurd (ground arith)

mode_parse-shorter :
    (flags : Flags) (umask : Mode) (m r : Bytes) (c : Change)
    → mode_parse flags umask m ≡ some (c, r)
    → length r < length m
unfolding mode_parse
mode_parse-shorter flags umask m r c h =
    let (classes, behind) = span (codes "ugoa") m in
    let (ops, values) = span (codes "+-=") behind in
    let (vs, rest) = span (codes "rwxXstugo") values in
    omega (
      arith,
      take_values-shorter flags umask classes ops vs rest r c h,
      span-length (codes "ugoa") m,
      span-length (codes "+-=") behind,
      span-length (codes "rwxXstugo") values,
    )

behind_clause-same :
    (r : Bytes) (list : List Change) (more more' : Bytes → Option (List Change))
    → ((n : Bytes) → length n < length r → 0 < length n → more n ≡ more' n)
    → behind_clause r list more ≡ behind_clause r list more'
behind_clause-same [] list more more' h = refl
behind_clause-same (c ∷ []) list more more' h = refl
behind_clause-same (c ∷ d ∷ r) list more more' h =
    ap (λ o. if c == b',' then o else none) (h (d ∷ r) (omega arith) (omega arith))

-- As many rounds as the mode has bytes are enough for the loop of `mode_compile`: with more of them
-- the result is the same, for a mode that is not empty.
pub compile_from-fuel :
    (f g : ℕ) (flags : Flags) (umask : Mode) (m : Bytes) (list : List Change)
    → length m ≤ f
    → length m ≤ g
    → 0 < length m
    → compile_from f flags umask m list ≡ compile_from g flags umask m list
unfolding compile_from
compile_from-fuel zero g flags umask m list h k l = absurd (omega arith)
compile_from-fuel (suc f) zero flags umask m list h k l = absurd (omega arith)
compile_from-fuel (suc f) (suc g) flags umask m list h k l =
    elim (Option-cases (mode_parse flags umask m)) [
      | inl e ↦ rw (compile_from, e)
      | inr ((c, r), e) ↦
          rw (compile_from, e)
            (let less = mode_parse-shorter flags umask m r c e in
              behind_clause-same r (link list c) _ _ (λ n p q.
                compile_from-fuel f g flags umask n (link list c) (omega (arith, less))
                  (omega (arith, less)) q))
    ]
