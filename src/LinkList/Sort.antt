-- ===== src/LinkList/Sort.antt =====
-- The passes of `list_sort` of libmhe/linklist.c (under src/).
use mathlib.Core.List.{Perm}
use mathlib.Core.List.Perm
use yafc.Base.{
  ℕ, zero, suc, ◌+◌, ◌*◌, ◌≤◌, ◌<◌, ◌≡◌, refl, sym, ap, ◌∙◌, inl, inr, Bool, true, false, List, [],
  ◌∷◌, arith, if◌then◌else◌, if-both, Bool-cases, ||-false, length, ℤ, pos, negsuc,
}
use yafc.LinkList.{
  is_positive, is_negative, out_of_order, bubble, bubble_pass, sort_rounds, list_sort,
}

module _ {ℓ} {A : Type ℓ} (gt : A → A → Bool) where
  -- No item is out of order with the next one.
  abbrev pub IsSorted : List A → Type 0
  IsSorted [] = Unit
  IsSorted (x ∷ []) = Unit
  IsSorted (x ∷ y ∷ ys) = (gt x y ≡ false) × IsSorted (y ∷ ys)

  abbrev one : Bool → ℕ
  one b = if b then 1 else 0

  -- The items that `x` is out of order with, and the pairs of a list that are.
  abbrev above : A → List A → ℕ
  above x [] = 0
  above x (y ∷ ys) = one (gt x y) + above x ys

  abbrev inversions : List A → ℕ
  inversions [] = 0
  inversions (x ∷ xs) = above x xs + inversions xs

  bubble-above : (z x : A) (ys : List A) → above z (bubble gt x ys).0 ≡ one (gt z x) + above z ys
  unfolding bubble
  bubble-above z x [] = refl
  bubble-above z x (y ∷ ys) = elim (Bool-cases (gt x y)) [
    | inl e ↦ rw e (omega (arith, bubble-above z x ys))
    | inr e ↦ rw e (omega (arith, bubble-above z y ys))
  ]

  bubble-unswapped :
      (x : A) (ys : List A)
      → (bubble gt x ys).1 ≡ false
      → ((bubble gt x ys).0 ≡ x ∷ ys) × IsSorted (x ∷ ys)
  unfolding bubble
  bubble-unswapped x [] h = (refl, tt)
  bubble-unswapped x (y ∷ ys) h =
      let (e, k) = ||-false (gt x y) _ h in
      let (same, sorted) = bubble-unswapped y ys (rw e at k) in
      rw e (ap (◌∷◌ x) same, (refl, sorted))

  bubble-Perm : (x : A) (ys : List A) → Perm (x ∷ ys) (bubble gt x ys).0
  unfolding bubble
  bubble-Perm x [] = Perm.refl (x ∷ [])
  bubble-Perm x (y ∷ ys) = elim (Bool-cases (gt x y)) [
    | inl e ↦ rw e (Perm.trans (Perm.swap y x ys) (Perm.cons y (bubble-Perm x ys)))
    | inr e ↦ rw e (Perm.cons x (bubble-Perm y ys))
  ]

  pass-unswapped :
      (xs : List A) → (bubble_pass gt xs).1 ≡ false → ((bubble_pass gt xs).0 ≡ xs) × IsSorted xs
  unfolding bubble_pass
  pass-unswapped [] h = (refl, tt)
  pass-unswapped (x ∷ xs) h = bubble-unswapped x xs h

  pass-Perm : (xs : List A) → Perm xs (bubble_pass gt xs).0
  unfolding bubble_pass
  pass-Perm [] = Perm.refl []
  pass-Perm (x ∷ xs) = bubble-Perm x xs

  sort_rounds-Perm : (f : ℕ) (xs : List A) → Perm xs (sort_rounds gt f xs)
  unfolding sort_rounds
  sort_rounds-Perm zero xs = Perm.refl xs
  sort_rounds-Perm (suc f) xs =
      let ys = (bubble_pass gt xs).0 in
      let p = pass-Perm xs in
      if-both (Perm xs) (bubble_pass gt xs).1 (sort_rounds gt f ys) ys
        (Perm.trans p (sort_rounds-Perm f ys)) p

  length-above : (x : A) (ys : List A) → above x ys ≤ length ys
  length-above x [] = omega arith
  length-above x (y ∷ ys) = ground (arith, length-above x ys)

  length-inversions : (xs : List A) → inversions xs ≤ length xs * length xs
  length-inversions [] = omega arith
  length-inversions (x ∷ xs) = grind (arith, length-above x xs, length-inversions xs)

  module _ (asym : (a b : A) → gt a b ≡ true → gt b a ≡ false) where
    -- A pass leaves one inversion less, at least, for a swap.
    bubble-inversions :
        (x : A) (ys : List A)
        → inversions (bubble gt x ys).0 + one (bubble gt x ys).1 ≤ above x ys + inversions ys
    unfolding bubble
    bubble-inversions x [] = omega arith
    bubble-inversions x (y ∷ ys) = elim (Bool-cases (gt x y)) [
      | inl e ↦ rw (e, bubble-above y x ys, asym x y e) (omega (arith, bubble-inversions x ys))
      | inr e ↦ rw (e, bubble-above x y ys) (omega (arith, ap one e, bubble-inversions y ys))
    ]

    pass-inversions :
        (xs : List A) → inversions (bubble_pass gt xs).0 + one (bubble_pass gt xs).1 ≤ inversions xs
    unfolding bubble_pass
    pass-inversions [] = omega arith
    pass-inversions (x ∷ xs) = bubble-inversions x xs

    sort_rounds-IsSorted :
        (f : ℕ) (xs : List A) → inversions xs < f → IsSorted (sort_rounds gt f xs)
    unfolding sort_rounds
    sort_rounds-IsSorted zero xs h = absurd (omega arith)
    sort_rounds-IsSorted (suc f) xs h = elim (Bool-cases (bubble_pass gt xs).1) [
      | inl e ↦
          let less : inversions (bubble_pass gt xs).0 < f =
            omega (arith, pass-inversions xs, ap one e) in
          rw e (sort_rounds-IsSorted f (bubble_pass gt xs).0 less)
      | inr e ↦ let (same, sorted) = pass-unswapped xs e in rw (e, same) sorted
    ]

positive-negative : (z : ℤ) → is_positive z ≡ true → is_negative z ≡ false
positive-negative (pos n) h = refl
positive-negative (negsuc n) h = ground arith

negative-positive : (z : ℤ) → is_negative z ≡ true → is_positive z ≡ false
negative-positive (pos n) h = ground arith
negative-positive (negsuc n) h = refl

asymmetric {ℓ} :
    {A : Type ℓ} (cmp : A → A → ℤ) (reverse : Bool)
    → ((a b : A) → is_positive (cmp a b) ≡ is_negative (cmp b a))
    → (a b : A) → out_of_order cmp reverse a b ≡ true
    → out_of_order cmp reverse b a ≡ false
asymmetric cmp true h a b e = positive-negative (cmp b a) (h b a ∙ e)
asymmetric cmp false h a b e = negative-positive (cmp b a) (sym (h a b) ∙ e)

-- `list_sort` by a comparison that turns its sign around when its arguments are swapped ends, with
-- the items of the list in an order where no two neighbours are out of order.
pub list_sort-IsSorted {ℓ} :
    {A : Type ℓ} (cmp : A → A → ℤ) (reverse : Bool) (xs : List A)
    → ((a b : A) → is_positive (cmp a b) ≡ is_negative (cmp b a))
    → IsSorted (out_of_order cmp reverse) (list_sort cmp reverse xs)
      × Perm xs (list_sort cmp reverse xs)
unfolding list_sort
list_sort-IsSorted cmp reverse xs h =
    let gt = out_of_order cmp reverse in
    let f = length xs * length xs + 1 in
    let enough : inversions gt xs < f = omega (arith, length-inversions gt xs) in
    (sort_rounds-IsSorted gt (asymmetric cmp reverse h) f xs enough, sort_rounds-Perm gt f xs)
