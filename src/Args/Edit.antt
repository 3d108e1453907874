-- ===== src/Args/Edit.antt =====
-- The vector as a list under the operations of libmhe/args.c (under src/).
use yafc.Base.{
  ℕ, zero, suc, ◌+◌, ◌-◌, ◌^◌, ◌≤◌, ◌<◌, ◌≡◌, refl, ap, ◌∙◌, inl, inr, true, false, none, List, [],
  ◌∷◌, ◌++◌, append-nil, append_assoc, arith, leb, if◌then◌else◌, leb→le, Bool-cases, length,
  get_or, take, drop, length-take, take-all, All, take-append, drop-append, drop-all,
}
use yafc.Args.{
  Cell, Args, items, set_cell, dup, shift_cells, args_del, is_empty, remove_empty_from,
  args_remove_empty,
}
use yafc.Args.Delete.{args_del-items}

length-set_cell : (i : ℕ) (v : Cell) (xs : List Cell) → length (set_cell i v xs) ≡ length xs
length-set_cell i v [] = refl
length-set_cell zero v (x ∷ xs) = refl
length-set_cell (suc i) v (x ∷ xs) = ap suc (length-set_cell i v xs)

length-shift_cells : (k i n : ℕ) (xs : List Cell) → length (shift_cells k i n xs) ≡ length xs
unfolding shift_cells
length-shift_cells zero i n xs = refl
length-shift_cells (suc k) i n xs =
    length-shift_cells k (i + 1) n _
    ∙ length-set_cell i none _
    ∙ length-set_cell (i - n) (get_or xs i none) xs

-- A vector within its array, whose count fits an `int`, and with no empty string: the null pointer
-- stands for that, since every item was made by `xstrdup`.
pub record IsValid (a : Args) : Type 0 where
  pub fits : a.argc ≤ length a.argv
  pub small : a.argc < 2 ^ 31
  pub made : All (λ c. dup c ≡ c) (items a)

pub args_del-fits :
    (a : Args) (first n : ℕ)
    → a.argc ≤ length a.argv
    → (args_del a first n).argc ≤ length (args_del a first n).argv
unfolding args_del
args_del-fits a first n h =
    omega (arith, length-shift_cells (a.argc - (first + n)) (first + n) n a.argv)

abbrev pub filled : List Cell → List Cell
filled [] = []
filled (c ∷ cs) = if is_empty c then filled cs else c ∷ filled cs

drop-get_or :
    (i : ℕ) (xs : List Cell) → i < length xs → drop i xs ≡ get_or xs i none ∷ drop (i + 1) xs
drop-get_or i [] h = absurd (omega arith)
drop-get_or zero (x ∷ xs) h = refl
drop-get_or (suc i) (x ∷ xs) h =
    let e : suc i + 1 ≡ suc (i + 1) = omega arith in rw e (drop-get_or i xs (omega arith))

get_or-take : (i n : ℕ) (xs : List Cell) → i < n → get_or (take n xs) i none ≡ get_or xs i none
get_or-take i zero xs h = absurd (omega arith)
get_or-take i (suc n) [] h = refl
get_or-take zero (suc n) (x ∷ xs) h = refl
get_or-take (suc i) (suc n) (x ∷ xs) h = get_or-take i n xs (omega arith)

pub length-items : (a : Args) → a.argc ≤ length a.argv → length (items a) ≡ a.argc
length-items a h = omega (arith, length-take a.argc a.argv)

take-get_or :
    (i : ℕ) (xs : List Cell) → i < length xs → take (i + 1) xs ≡ take i xs ++ get_or xs i none ∷ []
take-get_or i [] h = absurd (omega arith)
take-get_or zero (x ∷ xs) h = refl
take-get_or (suc i) (x ∷ xs) h =
    let e : suc i + 1 ≡ suc (i + 1) = omega arith in
    rw e (ap (◌∷◌ x) (take-get_or i xs (omega arith)))

-- What the loop leaves of `cs` from the index `i` on.
abbrev after : ℕ → List Cell → List Cell
after i cs = take i cs ++ filled (drop i cs)

after-all : (i : ℕ) (cs : List Cell) → length cs ≤ i → cs ≡ after i cs
after-all i cs h = rw (take-all i cs h, drop-all i cs h, append-nil)

after-drop :
    (i : ℕ) (cs : List Cell)
    → i < length cs
    → is_empty (get_or cs i none) ≡ true
    → after i (take i cs ++ drop (i + 1) cs) ≡ after i cs
after-drop i cs h e = rw (heads, tails, drop-get_or i cs h, e)
  where
    len : length (take i cs) ≡ i
    len = omega (arith, length-take i cs)

    heads : take i (take i cs ++ drop (i + 1) cs) ≡ take i cs
    heads = rw len at (take-append (take i cs) (drop (i + 1) cs))

    tails : drop i (take i cs ++ drop (i + 1) cs) ≡ drop (i + 1) cs
    tails = rw len at (drop-append (take i cs) (drop (i + 1) cs))

after-keep :
    (i : ℕ) (cs : List Cell)
    → i < length cs
    → is_empty (get_or cs i none) ≡ false
    → after (i + 1) cs ≡ after i cs
after-keep i cs h e =
    rw (take-get_or i cs h, drop-get_or i cs h, e)
      (append_assoc (take i cs) (get_or cs i none ∷ []) _)

-- The loop at `i`: the items before `i` stay, and those from there on are filtered.
remove_empty_from-items :
    (rounds i : ℕ) (a : Args)
    → a.argc ≤ length a.argv
    → a.argc ≤ i + rounds
    → a.argc < 2 ^ 31
    → items (remove_empty_from rounds i a) ≡ after i (items a)
unfolding remove_empty_from
remove_empty_from-items zero i a h le small =
    after-all i (items a) (omega (arith, length-items a h))
remove_empty_from-items (suc rounds) i a h le small = elim (Bool-cases (leb a.argc i)) [
  | inl end ↦ rw end (after-all i (items a) (omega (arith, length-items a h, leb→le a.argc i end)))
  | inr more ↦
      let lt : i < a.argc = ground arith in
      let in_items : i < length (items a) = omega (arith, length-items a h) in
      let same : get_or (items a) i none ≡ get_or a.argv i none = get_or-take i a.argc a.argv lt in
      elim (Bool-cases (is_empty (get_or a.argv i none))) [
        | inl e ↦
            rw (more, e)
              (remove_empty_from-items rounds i (args_del a i 1) (args_del-fits a i 1 h)
                  (unfold args_del in omega arith) (unfold args_del in omega arith)
                ∙ ap (after i) (args_del-items a i 1 h (omega arith) (omega arith))
                ∙ after-drop i (items a) in_items (rw same e))
        | inr e ↦
            rw (more, e)
              (remove_empty_from-items rounds (i + 1) a h (omega arith) small
                ∙ after-keep i (items a) in_items (rw same e))
      ]
]

-- For a valid vector, `args_remove_empty` keeps the non-empty items in their order, and its loop
-- over the shrinking vector ends.
pub args_remove_empty-items :
    (a : Args) → IsValid a → items (args_remove_empty a) ≡ filled (items a)
unfolding args_remove_empty
args_remove_empty-items a v = remove_empty_from-items a.argc 0 a v.fits (omega arith) v.small
