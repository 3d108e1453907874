-- ===== src/LinkList/Nodes/Add.antt =====
-- `list_additem` of libmhe/linklist.c (under src/) on the sequence of the items.
use yafc.Base.{
  ℕ, ◌+◌, ◌≡◌, refl, sym, ap, ◌∙◌, Option, none, some, List, [], ◌∷◌, ◌++◌, arith, length-append,
  All-append,
}
use mathlib.Core.Path.{subst}
use yafc.LinkList.Nodes.{Heap, Head, update, with_prev, set_next, list_additem}
use yafc.LinkList.Nodes.Chain.{
  differ, last_or, node, IsFree, IsDistinct, Holds, update_same, Chain-update, Chain-append,
  set_next-Chain, set_next-other,
}
use yafc.LinkList.Nodes.Remove.{last_or-append}

module _ {ℓ} {A : Type ℓ} where
  IsDistinct-last :
      (a : ℕ) (x : A) (xs : List (ℕ × A))
      → IsFree a xs
      → IsDistinct xs
      → IsDistinct (xs ++ (a, x) ∷ [])
  IsDistinct-last a x [] f d = (tt, tt)
  IsDistinct-last a x (y ∷ ys) f d =
      (All-append _ ys ((a, x) ∷ []) d.0 (differ (y.0) a f.0, tt), IsDistinct-last a x ys f.1 d.1)

  -- Behind the last item of a list that is not empty.
  added :
      (h : Heap A) (lp : Head) (a : ℕ) (x : A) (y : ℕ × A) (ys : List (ℕ × A))
      → Holds h lp (y ∷ ys)
      → IsFree a (y ∷ ys)
      → let (g, l) = list_additem h lp a x in Holds g l (y ∷ ys ++ (a, x) ∷ [])
  unfolding list_additem
  added h lp a x y ys l f =
      let e = last_or (y ∷ ys) none in
      let alone = update h a (node x none none) in
      let back = update alone a (with_prev e (alone a)) in
      let full = set_next back e (some a) in
      let behind = λ (e : Option ℕ). set_next (update alone a (with_prev e (alone a))) e (some a) in
      let head : ℕ → Head =
        λ f. record { first = some f; last = some a; numitem = lp.numitem + 1 } in
      let same : list_additem h lp a x ≡ (full, head (y.0)) =
        ap {B = Heap A × Head}
          (λ f. elim f as (λ z. Heap A × Head) [
            | none ↦ (alone, record { first = some a; last = some a; numitem = lp.numitem + 1 })
            | some g ↦ (behind lp.last, head g)
          ])
          l.first
        ∙ ap {B = Heap A × Head} (λ z. (behind z, head (y.0))) l.last in
      let kept =
        Chain-update alone a _ none (y ∷ ys) none f
          (Chain-update h a _ none (y ∷ ys) none f l.chain) in
      let new : full a ≡ node x e none =
        set_next-other back a y ys none (some a) f
        ∙ update_same alone a _
        ∙ ap (with_prev e) (update_same h a (node x none none)) in
      let whole : Holds full (head (y.0)) (y ∷ ys ++ (a, x) ∷ []) = record {
        chain =
            Chain-append full none (y ∷ ys) ((a, x) ∷ []) none
              (set_next-Chain back none y ys none (some a) l.distinct kept) (new, tt);
        distinct = IsDistinct-last a x (y ∷ ys) f l.distinct;
        first = refl;
        last = sym (last_or-append (y ∷ ys) ((a, x) ∷ []) none);
        numitem = omega (arith, l.numitem, length-append (y ∷ ys) ((a, x) ∷ []));
      } in
      subst (λ (z : Heap A × Head). Holds (z.0) (z.1) (y ∷ ys ++ (a, x) ∷ [])) (sym same) whole

  -- An item at an address where no item of the list lies is put behind the others, and the list holds
  -- them and the new one, linked in both directions.
  pub list_additem-Holds :
      (h : Heap A) (lp : Head) (a : ℕ) (x : A) (xs : List (ℕ × A))
      → Holds h lp xs
      → IsFree a xs
      → let (g, l) = list_additem h lp a x in Holds g l (xs ++ (a, x) ∷ [])
  unfolding list_additem
  list_additem-Holds h lp a x [] l f =
      let alone = update h a (node x none none) in
      let head : Head = record { first = some a; last = some a; numitem = lp.numitem + 1 } in
      let other : ℕ → Heap A × Head = λ f. (
        set_next (update alone a (with_prev (lp.last) (alone a))) (lp.last) (some a),
        record { first = some f; last = some a; numitem = lp.numitem + 1 },
      ) in
      let same : list_additem h lp a x ≡ (alone, head) =
        ap {B = Heap A × Head}
          (λ f. elim f as (λ z. Heap A × Head) [ none ↦ (alone, head) | some g ↦ other g ])
          l.first in
      let whole : Holds alone head ((a, x) ∷ []) = record {
        chain = (update_same h a (node x none none), tt);
        distinct = (tt, tt);
        first = refl;
        last = refl;
        numitem = omega (arith, l.numitem);
      } in
      subst (λ (z : Heap A × Head). Holds (z.0) (z.1) ((a, x) ∷ [])) (sym same) whole
  list_additem-Holds h lp a x (y ∷ ys) l f = added h lp a x y ys l f
