-- ===== src/ModeChange/Adjust/Unaffected.antt =====
-- `mode_adjust` (utils/modechange.c, under src/) on the bits that no clause names.
use yafc.Base.{
  some-eq, ℕ, zero, suc, ◌<◌, ◌≡◌, refl, ◌∙◌, inl, inr, Bool, true, false, not, ◌||◌, Option, none,
  some, List, [], ◌∷◌, arith, ◌==◌, Bool-cases, Option-cases, length, All, Bytes,
}
use yafc.ModeChange.Mode.{Mode, bits_of, ◌∩◌, no_bits, max_mode, nonzero, Operation, Change, Flags}
use mathlib.Core.Path.{subst}
use yafc.ModeChange.Parse.{
  start, parse_start, affected_by, parse_value, parse_values, build_change, take_values, mode_parse,
}
use yafc.ModeChange.Compile.{
  behind_clause, Octal, not_octal, out_of_range, octal, parse_octal, link, compile_from,
  octal_change, compile_octal, mode_compile,
}
use yafc.ModeChange.Adjust.{change_value, apply, adjust, mode_adjust}

-- At the bit `i` the permissions of a change stay within what it affects.
abbrev Within : ℕ → Change → Type 0
Within i r = (r.copy_existing || not (r.value i) || r.affected i) ≡ true

parse_value-Within :
    (i c : ℕ) (r : Change) {r' : Change} → Within i r → parse_value c r ≡ some r' → Within i r'
unfolding parse_value
parse_value-Within i c r w e = ground arith

parse_values-Within :
    (i : ℕ) (s : Bytes) (r : Change) {r' : Change}
    → Within i r
    → parse_values s r ≡ some r'
    → Within i r'
unfolding parse_values
parse_values-Within i [] r w e = ground arith
parse_values-Within i (c ∷ s) r w e = elim (Option-cases (parse_value c r)) [
  | inl e' ↦ cc (rw (e', parse_values) at e)
  | inr (r₁, e') ↦
      parse_values-Within i s r₁ (parse_value-Within i c r w e') (rw (e', parse_values) at e)
]

parse_start-Within :
    (i : ℕ) (affected umask : Mode) (values : Bytes) (found : Option (Operation × Bool))
    {r : Change}
    → parse_start affected umask values found ≡ some r
    → Within i r
parse_start-Within i affected umask values none e = cc
parse_start-Within i affected umask values (some found) e =
    parse_values-Within i values (start affected umask found) refl e

build_change-Within :
    (i : ℕ) (flags : Flags) (umask : Mode) (classes : Bytes) (c : ℕ) (values : Bytes) {r : Change}
    → build_change flags umask classes c values ≡ some r
    → Within i r
unfolding build_change
build_change-Within i flags umask classes c values e =
    elim (Bool-cases (nonzero (affected_by classes no_bits))) [
      | inl h ↦ parse_start-Within i _ umask values _ (rw (h, build_change) at e)
      | inr h ↦ parse_start-Within i _ umask values _ (rw (h, build_change) at e)
    ]

take_values-Within :
    (i : ℕ) (flags : Flags) (umask : Mode) (classes ops vs behind : Bytes) {r : Change}
    {rest : Bytes}
    → take_values flags umask classes ops (vs, behind) ≡ some (r, rest)
    → Within i r
take_values-Within i flags umask classes [] vs behind e = cc
take_values-Within i flags umask classes (c ∷ []) [] behind e = cc
take_values-Within i flags umask classes (c ∷ []) (v ∷ vs) behind {r} {rest} e =
    elim (Option-cases (build_change flags umask classes c (v ∷ vs))) [
      | inl e' ↦ cc (rw e' at e)
      | inr (r₁, e') ↦
          let same : some (r₁, behind) ≡ some (r, rest) = rw e' at e in
          build_change-Within i flags umask classes c (v ∷ vs) {r = r} (ground arith)
    ]
take_values-Within i flags umask classes (c ∷ d ∷ ops) vs behind e = cc

mode_parse-Within :
    (i : ℕ) (flags : Flags) (umask : Mode) (mode : Bytes) {r : Change} {rest : Bytes}
    → mode_parse flags umask mode ≡ some (r, rest)
    → Within i r
unfolding mode_parse
mode_parse-Within i flags umask mode e = take_values-Within i flags umask _ _ _ _ e

-- One change leaves a bit alone that it does not affect.
change-unaffected :
    (i : ℕ) (is_dir : Bool) (new : Mode) (mc : Change)
    → Within i mc
    → mc.affected i ≡ false
    → apply mc.op new mc.affected (change_value is_dir new mc) i ≡ new i
unfolding change_value
change-unaffected i is_dir new mc w h = ground arith

adjust-unaffected :
    (i : ℕ) (is_dir : Bool) (new : Mode) (cs : List Change)
    → All (Within i) cs
    → All (λ c. c.affected i ≡ false) cs
    → adjust is_dir new cs i ≡ new i
unfolding adjust
adjust-unaffected i is_dir new [] w h = refl
adjust-unaffected i is_dir new (c ∷ cs) w h =
    adjust-unaffected i is_dir (apply c.op new c.affected (change_value is_dir new c)) cs w.1 h.1
    ∙ change-unaffected i is_dir new c w.0 h.0

link-Within :
    (i : ℕ) (cs : List Change) (c : Change)
    → All (Within i) cs
    → Within i c
    → All (Within i) (link cs c)
link-Within i [] c w h = (h, tt)
link-Within i (x ∷ cs) c w h = (w.0, (h, tt))

behind_clause-Within :
    (i : ℕ) (rest : Bytes) (list : List Change) (more : Bytes → Option (List Change))
    {cs : List Change}
    → All (Within i) list
    → ((m : Bytes) → more m ≡ some cs → All (Within i) cs)
    → behind_clause rest list more ≡ some cs
    → All (Within i) cs
behind_clause-Within i [] list more w k e = subst (All (Within i)) (some-eq e) w
behind_clause-Within i (c ∷ []) list more w k e = elim (Bool-cases (c == b',')) [
  | inl h ↦ subst (All (Within i)) (some-eq (rw h at e)) w
  | inr h ↦ cc (rw h at e)
]
behind_clause-Within i (c ∷ d ∷ rest) list more w k e = elim (Bool-cases (c == b',')) [
  | inl h ↦ k (d ∷ rest) (rw h at e)
  | inr h ↦ cc (rw h at e)
]

compile_from-Within :
    (i f : ℕ) (flags : Flags) (umask : Mode) (mode : Bytes) (list : List Change) {cs : List Change}
    → All (Within i) list
    → compile_from f flags umask mode list ≡ some cs
    → All (Within i) cs
unfolding compile_from
compile_from-Within i zero flags umask mode list w e = cc
compile_from-Within i (suc f) flags umask mode list {cs} w e =
    elim (Option-cases (mode_parse flags umask mode)) [
      | inl h ↦ cc (rw (h, compile_from) at e)
      | inr ((c, rest), h) ↦
          let linked = link-Within i list c w (mode_parse-Within i flags umask mode h) in
          behind_clause-Within i rest (link list c) _ linked
            (λ m. compile_from-Within i f flags umask m (link list c) linked)
            (rw (h, compile_from) at e)
    ]

octal-Within : (i n : ℕ) → i < 12 → Within i (octal_change n)
octal-Within i n h = ground arith

compile_octal-Within :
    (i : ℕ) (o : Octal) (symbolic : Option (List Change)) {cs : List Change}
    → i < 12
    → (symbolic ≡ some cs → All (Within i) cs)
    → compile_octal o symbolic ≡ some cs
    → All (Within i) cs
compile_octal-Within i not_octal symbolic h k e = k e
compile_octal-Within i out_of_range symbolic h k e = cc
compile_octal-Within i (octal n) symbolic h k e =
    subst (All (Within i)) (some-eq e) (octal-Within i n h, tt)

mode_compile-Within :
    (i : ℕ) (flags : Flags) (umask : Mode) (mode : Bytes) {cs : List Change}
    → i < 12
    → mode_compile flags umask mode ≡ some cs
    → All (Within i) cs
unfolding mode_compile
mode_compile-Within i flags umask [] h e = cc
mode_compile-Within i flags umask (c ∷ s) h e =
    compile_octal-Within i (parse_octal (c ∷ s))
      (compile_from (length (c ∷ s)) flags umask (c ∷ s) []) h
      (λ e'. compile_from-Within i (length (c ∷ s)) flags umask (c ∷ s) [] tt e') e

-- For a mode that compiles, each of the twelve permission bits that none of the clauses affects
-- `mode_adjust` leaves as it was.
pub mode_adjust-unaffected :
    (flags : Flags) (umask : Mode) (mode : Bytes) (cs : List Change) (old i : ℕ)
    → mode_compile flags umask mode ≡ some cs
    → i < 12
    → All (λ c. c.affected i ≡ false) cs
    → mode_adjust old cs i ≡ bits_of old i
unfolding mode_adjust
mode_adjust-unaffected flags umask mode cs old i e h u =
    adjust-unaffected i _ (bits_of old ∩ max_mode) cs (mode_compile-Within i flags umask mode h e) u
    ∙ ground arith
