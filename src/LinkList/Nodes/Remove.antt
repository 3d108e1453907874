-- ===== src/LinkList/Nodes/Remove.antt =====
-- `list_removeitem` of libmhe/linklist.c (under src/) on the sequence of the items.
use mathlib.Core.Path.{subst}
use yafc.Base.{
  ℕ, ◌≡◌, refl, sym, ap, ◌∙◌, Option, none, some, List, [], ◌∷◌, ◌++◌, append-nil, arith,
  length-append, All-append, All-append_left, All-append_right,
}
use yafc.LinkList.Nodes.{Heap, Head, set_next, set_prev, or_end, unlink, list_removeitem}
use yafc.LinkList.Nodes.Chain.{
  differ, head_or, last_or, node, Chain, IsFree, IsDistinct, Holds, Chain-update, Chain-append,
  Chain-split, set_next-Chain, set_prev-Chain,
}

module _ {ℓ} {A : Type ℓ} where
  -- No node lies at the address, if there is one.
  abbrev IsFreeOf : Option ℕ → List (ℕ × A) → Type 0
  IsFreeOf none xs = Unit
  IsFreeOf (some a) xs = IsFree a xs

  next-Chain :
      (h : Heap A) (xs : List (ℕ × A)) (m n : Option ℕ)
      → IsDistinct xs
      → Chain h none xs m
      → Chain (set_next h (last_or xs none) n) none xs n
  next-Chain h [] m n d c = tt
  next-Chain h (x ∷ xs) m n d c = set_next-Chain h none x xs m n d c

  next_free :
      (h : Heap A) (q n p m : Option ℕ) (ys : List (ℕ × A))
      → IsFreeOf q ys
      → Chain h p ys m
      → Chain (set_next h q n) p ys m
  next_free h none n p m ys f c = c
  next_free h (some a) n p m ys f c = Chain-update h a _ p ys m f c

  prev_free :
      (h : Heap A) (q n p m : Option ℕ) (ys : List (ℕ × A))
      → IsFreeOf q ys
      → Chain h p ys m
      → Chain (set_prev h q n) p ys m
  prev_free h none n p m ys f c = c
  prev_free h (some a) n p m ys f c = Chain-update h a _ p ys m f c

  IsDistinct-left : (xs ys : List (ℕ × A)) → IsDistinct (xs ++ ys) → IsDistinct xs
  IsDistinct-left [] ys d = tt
  IsDistinct-left (x ∷ xs) ys d = (All-append_left _ xs ys d.0, IsDistinct-left xs ys d.1)

  IsDistinct-right : (xs ys : List (ℕ × A)) → IsDistinct (xs ++ ys) → IsDistinct ys
  IsDistinct-right [] ys d = d
  IsDistinct-right (x ∷ xs) ys d = IsDistinct-right xs ys d.1

  last_free : (xs ys : List (ℕ × A)) → IsDistinct (xs ++ ys) → IsFreeOf (last_or xs none) ys
  last_free [] ys d = tt
  last_free (x ∷ []) ys d = d.0
  last_free (x ∷ y ∷ xs) ys d = last_free (y ∷ xs) ys d.1

  head_free : (xs ys : List (ℕ × A)) → IsDistinct (xs ++ ys) → IsFreeOf (head_or ys none) xs
  head_free xs [] d = tt
  head_free [] (y ∷ ys) d = tt
  head_free (x ∷ xs) (y ∷ ys) d =
      let f = All-append_right _ xs (y ∷ ys) d.0 in
      (differ (y.0) (x.0) f.0, head_free xs (y ∷ ys) d.1)

  without-IsDistinct :
      (x : ℕ × A) (xs ys : List (ℕ × A)) → IsDistinct (xs ++ x ∷ ys) → IsDistinct (xs ++ ys)
  without-IsDistinct x [] ys d = d.1
  without-IsDistinct x (y ∷ xs) ys d =
      let l = All-append_left _ xs (x ∷ ys) d.0 in
      let r = All-append_right _ xs (x ∷ ys) d.0 in
      (All-append _ xs ys l r.1, without-IsDistinct x xs ys d.1)

  pub last_or-append :
      (xs ys : List (ℕ × A)) (p : Option ℕ) → last_or (xs ++ ys) p ≡ last_or ys (last_or xs p)
  last_or-append [] ys p = refl
  last_or-append (x ∷ xs) ys p = last_or-append xs ys (some (x.0))

  or_end-last :
      (x : ℕ × A) (xs : List (ℕ × A)) (p old new : Option ℕ)
      → or_end (last_or (x ∷ xs) p) old new ≡ old
  or_end-last x [] p old new = refl
  or_end-last x (y ∷ xs) p old new = or_end-last y xs (some (x.0)) old new

  first_of :
      (x : ℕ × A) (xs ys : List (ℕ × A))
      → or_end (last_or xs none) (head_or (xs ++ x ∷ ys) none) (head_or ys none)
        ≡ head_or (xs ++ ys) none
  first_of x [] ys = refl
  first_of x (y ∷ xs) ys = or_end-last y xs none _ _

  last_of :
      (x : ℕ × A) (xs ys : List (ℕ × A))
      → or_end (head_or ys none) (last_or (xs ++ x ∷ ys) none) (last_or xs none)
        ≡ last_or (xs ++ ys) none
  last_of x xs [] = ap (λ zs. last_or zs none) (sym (append-nil xs))
  last_of x xs (y ∷ ys) =
      last_or-append xs (x ∷ y ∷ ys) none ∙ sym (last_or-append xs (y ∷ ys) none)

  -- The neighbours are linked to each other.
  unlinked :
      (h : Heap A) (x : ℕ × A) (xs ys : List (ℕ × A))
      → Chain h none (xs ++ x ∷ ys) none
      → IsDistinct (xs ++ x ∷ ys)
      → Chain
          (set_prev
            (set_next h (last_or xs none) (head_or ys none))
            (head_or ys none)
            (last_or xs none))
          none
          (xs ++ ys)
          none
  unlinked h x xs ys c d =
      let p = last_or xs none in
      let n = head_or ys none in
      let (left, right) = Chain-split h none xs (x ∷ ys) none c in
      let e = without-IsDistinct x xs ys d in
      let g = set_next h p n in
      let l = next-Chain h xs (some (x.0)) n (IsDistinct-left xs (x ∷ ys) d) left in
      let r = next_free h p n (some (x.0)) none ys (last_free xs ys e) right.1 in
      Chain-append (set_prev g n p) none xs ys none
        (prev_free g n p none n xs (head_free xs ys e) l)
        (set_prev-Chain g (some (x.0)) p ys none (IsDistinct-right xs ys e) r)

  pub some_head :
      (x : ℕ × A) (xs ys : List (ℕ × A)) → (b : ℕ) × (head_or (xs ++ x ∷ ys) none ≡ some b)
  some_head x [] ys = (x.0, refl)
  some_head x (y ∷ xs) ys = (y.0, refl)

  taken :
      (h : Heap A) (lp : Head) (x : ℕ × A) (xs ys : List (ℕ × A))
      → Holds h lp (xs ++ x ∷ ys)
      → list_removeitem h lp (x.0) ≡ unlink h lp (node (x.1) (last_or xs none) (head_or ys none))
  unfolding list_removeitem
  taken h lp x xs ys l =
      let (b, e) = some_head x xs ys in
      let found = (Chain-split h none xs (x ∷ ys) none l.chain).1 in
      ap (λ f. elim f as (λ y. Heap A × Head) [ none ↦ (h, lp) | some g ↦ unlink h lp (h (x.0)) ])
        (l.first ∙ e)
      ∙ ap (unlink h lp) (found.0)

  -- On a list that holds items at distinct addresses, taking out any one of them leaves a list that holds
  -- the others in their order: the neighbours are linked to each other in both directions, the ends are
  -- right, and so is the number of items.
  pub list_removeitem-Holds :
      (h : Heap A) (lp : Head) (x : ℕ × A) (xs ys : List (ℕ × A))
      → Holds h lp (xs ++ x ∷ ys)
      → let (g, l) = list_removeitem h lp (x.0) in Holds g l (xs ++ ys)
  list_removeitem-Holds h lp x xs ys l =
      let p = last_or xs none in
      let n = head_or ys none in
      let end = unlink h lp (node (x.1) p n) in
      let whole : Holds (end.0) (end.1) (xs ++ ys) = record {
        chain = unlinked h x xs ys l.chain l.distinct;
        distinct = without-IsDistinct x xs ys l.distinct;
        first = ap (λ f. or_end (last_or xs none) f (head_or ys none)) l.first ∙ first_of x xs ys;
        last = ap (λ e. or_end (head_or ys none) e (last_or xs none)) l.last ∙ last_of x xs ys;
        numitem = omega (arith, l.numitem, length-append xs (x ∷ ys), length-append xs ys);
      } in
      subst (λ (y : Heap A × Head). Holds (y.0) (y.1) (xs ++ ys)) (sym (taken h lp x xs ys l)) whole
