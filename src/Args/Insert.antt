-- ===== src/Args/Insert.antt =====
-- Copying and insertion in libmhe/args.c (under src/), on the vectors as lists.
use yafc.Base.{
  ℕ, zero, suc, ◌+◌, ◌-◌, ◌^◌, ◌≤◌, ◌<◌, ◌≡◌, refl, sym, ap, ◌∙◌, inl, inr, false, none, some, List,
  [], ◌∷◌, ◌++◌, map, append-nil, append_assoc, arith, ltb, leb, ltb→lt, Bool-cases, length, take,
  drop, length-append, length-take, length-drop, length-map, take-all, All, drop-all, drop-take,
}
use Prim.Native.Nat.{min}
use mathlib.Core.Path.{subst}
use yafc.Args.{
  Cell, Args, empty, items, dup, args_del, clamp_last, copies, args_init3, args_init2,
  args_add_args3, args_add_args, args_insert_args,
}
use yafc.Args.Delete.{args_del-items, args_del-zero, take-min}
use yafc.Args.Edit.{IsValid, length-items, args_del-fits}

length-copies :
    (argv : List Cell) (first last : ℕ)
    → last ≤ length argv
    → length (copies argv first last) ≡ last - first
length-copies argv first last h = omega (
  arith,
  length-map dup (take (last - first) (drop first argv)),
  length-take (last - first) (drop first argv),
  length-drop first argv,
)

-- For vectors within their arrays, `args_add_args3` appends copies of the items from `first` to
-- `last`, of those that there are.
pub args_add_args3-items :
    (a b : Args) (first last : ℕ)
    → a.argc ≤ length a.argv
    → b.argc ≤ length b.argv
    → items (args_add_args3 a b first last)
      ≡ items a ++ copies b.argv first (clamp_last last b.argc)
unfolding args_add_args3
args_add_args3-items a b first last ha hb = elim (Bool-cases (leb (clamp_last last b.argc) first)) [
  | inl e ↦
      let nothing : clamp_last last b.argc - first ≡ 0 = ground arith in rw (e, nothing, append-nil)
  | inr e ↦ rw e (
      take-all (a.argc + (clamp_last last b.argc - first))
        (items a ++ copies b.argv first (clamp_last last b.argc))
        (omega (
          arith,
          length-append (items a) (copies b.argv first (clamp_last last b.argc)),
          length-items a ha,
          length-copies b.argv first (clamp_last last b.argc) (omega arith),
        )))
]

clamp_last_self : (n : ℕ) → n < 2 ^ 31 → clamp_last n n ≡ n
clamp_last_self n h = omega arith

copies-all : (a : Args) (first : ℕ) → copies a.argv first a.argc ≡ map dup (drop first (items a))
copies-all a first = rw (drop-take first a.argc a.argv)

-- For vectors within their arrays, `args_add_args` appends copies of all the items of the other
-- one, whose count fits an `int`.
pub args_add_args-items :
    (a b : Args)
    → a.argc ≤ length a.argv
    → b.argc ≤ length b.argv
    → b.argc < 2 ^ 31
    → items (args_add_args a b) ≡ items a ++ map dup (items b)
unfolding args_add_args
args_add_args-items a b ha hb small =
    args_add_args3-items a b 0 b.argc ha hb
    ∙ rw (clamp_last_self b.argc small) (ap (◌++◌ (items a)) (copies-all b 0))

args_add_args3-fits :
    (a b : Args) (first last : ℕ)
    → a.argc ≤ length a.argv
    → b.argc ≤ length b.argv
    → (args_add_args3 a b first last).argc ≤ length (args_add_args3 a b first last).argv
unfolding args_add_args3
args_add_args3-fits a b first last ha hb = elim (Bool-cases (leb (clamp_last last b.argc) first)) [
  | inl e ↦ rw e ha
  | inr e ↦ rw e (
      omega (
        arith,
        length-append (items a) (copies b.argv first (clamp_last last b.argc)),
        length-items a ha,
        length-copies b.argv first (clamp_last last b.argc) (omega arith),
      ))
]

-- What `args_init3` makes of an empty vector.
record Copied (a : Args) (cs : List Cell) (argc : ℕ) : Type 0 where
  holds : items a ≡ cs
  fits : a.argc ≤ length a.argv
  small : a.argc ≤ argc

args_init3-Copied :
    (argc : ℕ) (argv : List Cell) (first last : ℕ)
    → argc ≤ length argv
    → Copied (args_init3 empty argc argv first last) (copies argv first (clamp_last last argc)) argc
unfolding args_init3
args_init3-Copied argc argv first last h = elim (Bool-cases (leb (clamp_last last argc) first)) [
  | inl e ↦
      let nothing : clamp_last last argc - first ≡ 0 = ground arith in
      rw (e, nothing) (record { holds = refl; fits = omega arith; small = omega arith })
  | inr e ↦
      let len = length-copies argv first (clamp_last last argc) (omega arith) in
      rw e (record {
        holds = take-all (clamp_last last argc - first) _ (omega (arith, len));
        fits = omega (arith, len);
        small = omega arith;
      })
]

-- The copy of the tail that the insertions make.
args_init2-Copied :
    (a : Args) (first : ℕ)
    → a.argc ≤ length a.argv
    → a.argc < 2 ^ 31
    → Copied (args_init2 empty a.argc a.argv first) (map dup (drop first (items a))) a.argc
unfolding args_init2
args_init2-Copied a first h small =
    let e : copies a.argv first (clamp_last a.argc a.argc) ≡ map dup (drop first (items a)) =
      rw (clamp_last_self a.argc small) (copies-all a first) in
    subst (λ cs. Copied (args_init2 empty a.argc a.argv first) cs a.argc) e
      (args_init3-Copied a.argc a.argv first a.argc h)

map-dup : (cs : List Cell) → All (λ c. dup c ≡ c) cs → map dup cs ≡ cs
map-dup [] h = refl
map-dup (c ∷ cs) h = cc (h.0, map-dup cs h.1)

dup-dup : (c : Cell) → dup (dup c) ≡ dup c
dup-dup none = refl
dup-dup (some []) = refl
dup-dup (some (x ∷ s)) = refl

map-dup-dup : (cs : List Cell) → map dup (map dup cs) ≡ map dup cs
map-dup-dup [] = refl
map-dup-dup (c ∷ cs) = cc (dup-dup c, map-dup-dup cs)

All-drop {ℓ} : (P : Cell → Type ℓ) (n : ℕ) (cs : List Cell) → All P cs → All P (drop n cs)
All-drop P zero cs h = h
All-drop P (suc n) [] h = tt
All-drop P (suc n) (c ∷ cs) h = All-drop P n cs h.1

-- The cut before an insertion leaves the items before the index.
args_del-tail :
    (a : Args) (index : ℕ)
    → a.argc ≤ length a.argv
    → a.argc < 2 ^ 31
    → index ≤ a.argc
    → items (args_del a index (a.argc - index)) ≡ take index (items a)
args_del-tail a index h small le = elim (Bool-cases (ltb 0 (a.argc - index))) [
  | inl e ↦
      args_del-items a index (a.argc - index) h (ltb→lt _ _ e) (omega arith)
      ∙ rw (
        drop-all (index + (a.argc - index)) (items a) (omega (arith, length-items a h)),
        append-nil,
      )
  | inr e ↦
      let none_left : a.argc - index ≡ 0 = ground arith in
      rw none_left (
        args_del-zero a index h le
        ∙ rw (drop-all index (items a) (omega (arith, length-items a h, none_left)), append-nil))
]

insert_args-copies :
    (a ins : Args) (index first last : ℕ)
    → IsValid a
    → ins.argc ≤ length ins.argv
    → index ≤ a.argc
    → items (args_insert_args a index ins first last)
      ≡ take index (items a)
        ++ (copies ins.argv first (clamp_last last ins.argc) ++ drop index (items a))
unfolding args_insert_args
insert_args-copies a ins index first last v h le = rw inside (
    args_add_args-items (args_add_args3 cut ins first last) end
      (args_add_args3-fits cut ins first last cut_fits h) copied.fits
      (omega (arith, copied.small, v.small))
    ∙ rw
        (
          args_add_args3-items cut ins first last cut_fits h,
          args_del-tail a index v.fits v.small le,
          copied.holds,
          map-dup-dup,
          map-dup (drop index (items a)) (All-drop _ index (items a) v.made),
        )
        (append_assoc (take index (items a)) _ _))
  where
    inside : ltb a.argc index ≡ false
    inside = ground arith

    cut : Args
    cut = args_del a index (a.argc - index)

    cut_fits : cut.argc ≤ length cut.argv
    cut_fits = args_del-fits a index (a.argc - index) v.fits

    end : Args
    end = args_init2 empty a.argc a.argv index

    copied : Copied end (map dup (drop index (items a))) a.argc
    copied = args_init2-Copied a index v.fits v.small

-- The items from `first` to `last`, that one too.
abbrev pub chosen : Args → ℕ → ℕ → List Cell
chosen a first last = take (last + 1 - first) (drop first (items a))

copies-chosen :
    (a : Args) (first last : ℕ)
    → last + 1 < 2 ^ 32
    → copies a.argv first (clamp_last last a.argc) ≡ map dup (chosen a first last)
copies-chosen a first last small =
    let end : clamp_last last a.argc - first ≡ min (last + 1 - first) (a.argc - first) =
      omega arith in
    ap (map dup) (
      ap (λ k. take k (drop first a.argv)) end
      ∙ take-min (last + 1 - first) (a.argc - first) (drop first a.argv)
      ∙ ap (take (last + 1 - first)) (sym (drop-take first a.argc a.argv)))

-- Inserting arguments into a valid vector at an index up to its count puts copies of the other vector's
-- items from index `first` to index `last`, that one too and as far as there are such, between the items
-- before the index and those from there on. The other vector lies in its array, and `last` + 1 is below
-- 2^32.
pub args_insert_args-items :
    (a ins : Args) (index first last : ℕ)
    → IsValid a
    → ins.argc ≤ length ins.argv
    → index ≤ a.argc
    → last + 1 < 2 ^ 32
    → items (args_insert_args a index ins first last)
      ≡ take index (items a) ++ (map dup (chosen ins first last) ++ drop index (items a))
args_insert_args-items a ins index first last v h le small =
    insert_args-copies a ins index first last v h le
    ∙ ap (λ cs. take index (items a) ++ (cs ++ drop index (items a)))
        (copies-chosen ins first last small)
