-- ===== src/Args/Delete.antt =====
-- `args_del` of libmhe/args.c (under src/): its loop over the array beside the vector with a part cut out.
use yafc.Base.{
  ℕ, zero, suc, ◌+◌, ◌-◌, ◌^◌, ◌≤◌, ◌<◌, ◌≡◌, refl, sym, ap, ◌∙◌, inl, inr, none, List, [], ◌∷◌,
  ◌++◌, map, append-nil, append_assoc, arith, leb, leb→le, Bool-cases, length, take, drop,
  length-append, take-append-drop, length-take, length-drop, take-all, drop-drop, take-take,
  drop-all, drop-take, get_or-append,
}
use Prim.Native.Nat.{min}
use yafc.Args.{Cell, Args, items, set_cell, shift_cells, args_del}

set_cell-append :
    (xs ys : List Cell) (y v : Cell) → set_cell (length xs) v (xs ++ y ∷ ys) ≡ xs ++ v ∷ ys
set_cell-append [] ys y v = refl
set_cell-append (x ∷ xs) ys y v = ap (◌∷◌ x) (set_cell-append xs ys y v)

-- Cells before both indices stay.
shift-cons :
    (k i n : ℕ) (x : Cell) (xs : List Cell)
    → n ≤ i
    → shift_cells k (suc i) n (x ∷ xs) ≡ x ∷ shift_cells k i n xs
unfolding shift_cells
shift-cons zero i n x xs h = refl
shift-cons (suc k) i n x xs h =
    let e : suc i - n ≡ suc (i - n) = omega arith in
    let e' : suc i + 1 ≡ suc (i + 1) = omega arith in
    rw (e, e') (shift-cons k (i + 1) n x _ (omega arith))

shift-prefix :
    (k i n : ℕ) (pre xs : List Cell)
    → n ≤ i
    → shift_cells k (length pre + i) n (pre ++ xs) ≡ pre ++ shift_cells k i n xs
shift-prefix k i n [] xs h = let e : 0 + i ≡ i = omega arith in rw e
shift-prefix k i n (x ∷ pre) xs h =
    let e : suc (length pre) + i ≡ suc (length pre + i) = omega arith in
    rw e
      (shift-cons k (length pre + i) n x _ (omega arith) ∙ ap (◌∷◌ x) (shift-prefix k i n pre xs h))

-- One round, where `r` is the cell behind a hole of `suc (length hole)` cells.
shift-round :
    (k : ℕ) (hole xs : List Cell) (h r : Cell)
    → shift_cells (suc k) (suc (length hole)) (suc (length hole)) (h ∷ (hole ++ r ∷ xs))
      ≡ r ∷ shift_cells k (suc (length hole)) (suc (length hole)) (hole ++ none ∷ xs)
unfolding shift_cells
shift-round k hole xs h r =
    let same : suc (length hole) - suc (length hole) ≡ 0 = omega arith in
    let next : suc (length hole) + 1 ≡ suc (suc (length hole)) = omega arith in
    rw (same, get_or-append hole xs r none, set_cell-append hole xs r none, next)
      (shift-cons k _ _ r _ (omega arith))

-- The loop moves what stands behind the hole over it.
shift_cells-hole :
    (rest hole tl : List Cell) (n : ℕ)
    → n ≡ length hole
    → 0 < n
    → take (length rest) (shift_cells (length rest) n n (hole ++ (rest ++ tl))) ≡ rest
shift_cells-hole [] hole tl n e p = refl
shift_cells-hole (r ∷ rest) [] tl n e p = absurd (omega arith)
shift_cells-hole (r ∷ rest) (h ∷ hole) tl n e p =
    rw (e, shift-round (length rest) hole (rest ++ tl) h r, ← e)
      (ap (◌∷◌ r) (
        rw (sym (append_assoc hole (none ∷ []) (rest ++ tl))) (
          shift_cells-hole rest (hole ++ none ∷ []) tl n
            (omega (arith, length-append hole (none ∷ []))) p)))

take-prefix : (k : ℕ) (xs ys : List Cell) → take (length xs + k) (xs ++ ys) ≡ xs ++ take k ys
take-prefix k [] ys = let e : 0 + k ≡ k = omega arith in rw e
take-prefix k (x ∷ xs) ys =
    let e : suc (length xs) + k ≡ suc (length xs + k) = omega arith in
    rw e (ap (◌∷◌ x) (take-prefix k xs ys))

cut_lists :
    (pre hole rest tl : List Cell)
    → 0 < length hole
    → take (length pre + length rest) (
        shift_cells
          (length rest)
          (length pre + length hole)
          (length hole)
          (pre ++ (hole ++ (rest ++ tl))))
      ≡ pre ++ rest
cut_lists pre hole rest tl p =
    rw
      (
        shift-prefix (length rest) (length hole) (length hole) pre (hole ++ (rest ++ tl))
            (omega arith),
        take-prefix,
      )
      (ap (◌++◌ pre) (shift_cells-hole rest hole tl (length hole) refl p))

split3 : (a b : ℕ) (xs : List Cell) → take a xs ++ (take b (drop a xs) ++ drop (a + b) xs) ≡ xs
split3 a b xs = rw (← drop-drop b a xs, take-append-drop b (drop a xs)) (take-append-drop a xs)

-- The same on one array.
cut :
    (first n k : ℕ) (xs : List Cell)
    → 0 < n
    → first + n + k ≤ length xs
    → take (first + k) (shift_cells k (first + n) n xs)
      ≡ take first xs ++ take k (drop (first + n) xs)
cut first n k xs p h =
    rw (pres, holes, rests, whole) at
      (cut_lists (take first xs) (take n (drop first xs)) (take k (drop (first + n) xs))
        (drop k (drop (first + n) xs)) (omega (arith, holes)))
  where
    pres : length (take first xs) ≡ first
    pres = omega (arith, length-take first xs)

    holes : length (take n (drop first xs)) ≡ n
    holes = omega (arith, length-take n (drop first xs), length-drop first xs)

    rests : length (take k (drop (first + n) xs)) ≡ k
    rests = omega (arith, length-take k (drop (first + n) xs), length-drop (first + n) xs)

    whole :
        take first xs
          ++ (take n (drop first xs)
              ++ (take k (drop (first + n) xs) ++ drop k (drop (first + n) xs)))
        ≡ xs
    whole = rw (take-append-drop k (drop (first + n) xs)) (split3 first n xs)

pub take-min : (m n : ℕ) (xs : List Cell) → take (min m n) xs ≡ take m (take n xs)
take-min m n xs = elim (Bool-cases (leb m n)) [
  | inl e ↦
      let le = leb→le m n e in
      let least : min m n ≡ m = omega arith in rw (least, take-take m n xs le)
  | inr e ↦
      let least : min m n ≡ n = ground arith in
      rw (least, take-all m (take n xs) (ground (arith, length-take n xs)))
]

-- For a vector within its array, `n` above 0, and a sum of `first` and `n` below 2^32, `args_del` cuts `n`
-- items out from `first` on, or what there is of them.
pub args_del-items :
    (a : Args) (first n : ℕ)
    → a.argc ≤ length a.argv
    → 0 < n
    → first + n < 2 ^ 32
    → items (args_del a first n) ≡ take first (items a) ++ drop (first + n) (items a)
unfolding args_del
args_del-items a first n h p small = elim (Bool-cases (leb (first + n) a.argc)) [
  | inl e ↦
      let le = leb→le (first + n) a.argc e in
      let count : a.argc - min n (a.argc - first) ≡ first + (a.argc - (first + n)) = omega arith in
      rw (count, take-take first a.argc a.argv (omega arith), drop-take (first + n) a.argc a.argv)
        (cut first n (a.argc - (first + n)) a.argv p (omega arith))
  | inr e ↦
      let none_left : a.argc - (first + n) ≡ 0 = ground arith in
      let count : a.argc - min n (a.argc - first) ≡ min first a.argc = ground arith in
      rw
        (
          none_left,
          count,
          shift_cells,
          drop-all (first + n) (take a.argc a.argv) (ground (arith, length-take a.argc a.argv)),
          append-nil,
        )
        (take-min first a.argc a.argv)
]

abbrev clear_cells : List Cell → List Cell
clear_cells = map (λ _. none)

shift-clear :
    (k : ℕ) (xs : List Cell)
    → k ≤ length xs
    → take k (shift_cells k 0 0 xs) ≡ clear_cells (take k xs)
shift-clear zero xs h = refl
shift-clear (suc k) [] h = absurd (omega arith)
shift-clear (suc k) (x ∷ xs) h =
    rw (clear-round k x xs) (ap (◌∷◌ none) (shift-clear k xs (omega arith)))
  where
    clear-round :
        (k : ℕ) (x : Cell) (xs : List Cell)
        → shift_cells (suc k) 0 0 (x ∷ xs) ≡ none ∷ shift_cells k 0 0 xs
    clear-round k x xs = unfold shift_cells in shift-cons k 0 0 none xs (omega arith)

clear_lists :
    (k : ℕ) (pre ys : List Cell)
    → k ≤ length ys
    → take (length pre + k) (shift_cells k (length pre + 0) 0 (pre ++ ys))
      ≡ pre ++ clear_cells (take k ys)
clear_lists k pre ys h =
    rw (shift-prefix k 0 0 pre ys (omega arith), take-prefix) (ap (◌++◌ pre) (shift-clear k ys h))

-- For a vector within its array, `first` up to its count and `n` = 0, the count stays, but every
-- item from `first` on is cleared.
pub args_del-zero :
    (a : Args) (first : ℕ)
    → a.argc ≤ length a.argv
    → first ≤ a.argc
    → items (args_del a first 0) ≡ take first (items a) ++ clear_cells (drop first (items a))
unfolding args_del
args_del-zero a first h le =
    let all : a.argc - min 0 (a.argc - first) ≡ first + (a.argc - first) = omega arith in
    let rounds : a.argc - (first + 0) ≡ a.argc - first = omega arith in
    let pres : length (take first a.argv) ≡ first = omega (arith, length-take first a.argv) in
    rw (all, rounds, take-take first a.argc a.argv le, drop-take first a.argc a.argv)
      (rw (pres, take-append-drop first a.argv) at
        (clear_lists (a.argc - first) (take first a.argv) (drop first a.argv)
          (omega (arith, length-drop first a.argv))))
