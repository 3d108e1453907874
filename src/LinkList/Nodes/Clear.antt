-- ===== src/LinkList/Nodes/Clear.antt =====
-- `list_delitem` and `list_clear` of libmhe/linklist.c (under src/) on the sequence of the items.
use yafc.Base.{
  ℕ, ◌≡◌, sym, ap, ◌∙◌, Option, none, some, List, [], ◌∷◌, ◌++◌, length, All-append_right,
}
use mathlib.Core.Path.{subst}
use yafc.LinkList.Nodes.{
  Heap, Head, update, list_removeitem, list_delitem, delete_first, clear_rounds, list_clear,
}
use yafc.LinkList.Nodes.Chain.{differ, IsFree, IsDistinct, Holds, Chain-update}
use yafc.LinkList.Nodes.Remove.{some_head, list_removeitem-Holds}

module _ {ℓ} {A : Type ℓ} where
  IsFree-of :
      (x : ℕ × A) (xs ys : List (ℕ × A)) → IsDistinct (xs ++ x ∷ ys) → IsFree (x.0) (xs ++ ys)
  IsFree-of x [] ys d = d.0
  IsFree-of x (y ∷ xs) ys d =
      let f = All-append_right _ xs (x ∷ ys) d.0 in (differ (x.0) (y.0) f.0, IsFree-of x xs ys d.1)

  freed :
      (g : Heap A) (lp : Head) (a : ℕ) (xs : List (ℕ × A))
      → Holds g lp xs
      → IsFree a xs
      → Holds (update g a none) lp xs
  freed g lp a xs l f = record {
    chain = Chain-update g a none none xs none f l.chain;
    distinct = l.distinct;
    first = l.first;
    last = l.last;
    numitem = l.numitem;
  }

  pub list_delitem-Holds :
      (h : Heap A) (lp : Head) (x : ℕ × A) (xs ys : List (ℕ × A))
      → Holds h lp (xs ++ x ∷ ys)
      → let (g, l) = list_delitem h lp (x.0) in Holds g l (xs ++ ys)
  unfolding list_delitem
  list_delitem-Holds h lp x xs ys l =
      let (b, e) = some_head x xs ys in
      let out = list_removeitem h lp (x.0) in
      let end : Heap A × Head = (update (out.0) (x.0) none, out.1) in
      let same : list_delitem h lp (x.0) ≡ end =
        ap {B = Heap A × Head}
          (λ f. elim f as (λ z. Heap A × Head) [ none ↦ (h, lp) | some g ↦ end ]) (l.first ∙ e) in
      let whole =
        freed (out.0) (out.1) (x.0) (xs ++ ys) (list_removeitem-Holds h lp x xs ys l)
          (IsFree-of x xs ys l.distinct) in
      subst (λ (z : Heap A × Head). Holds (z.0) (z.1) (xs ++ ys)) (sym same) whole

  clear_rounds-Holds :
      (xs : List (ℕ × A)) (h : Heap A) (lp : Head)
      → Holds h lp xs
      → let (g, l) = clear_rounds (length xs) h lp in Holds g l []
  unfolding clear_rounds
  clear_rounds-Holds [] h lp l = l
  clear_rounds-Holds (x ∷ xs) h lp l =
      let out = list_delitem h lp (x.0) in
      let rest = clear_rounds-Holds xs (out.0) (out.1) (list_delitem-Holds h lp x [] xs l) in
      let round =
        λ (f : Option ℕ). let y = delete_first f h lp in clear_rounds (length xs) (y.0) (y.1) in
      subst (λ (z : Heap A × Head). Holds (z.0) (z.1) []) (ap round (sym l.first)) rest

  -- Clearing a list that holds items at distinct addresses ends, and leaves the empty list: the first and
  -- the last item are null pointers and the number of items is 0.
  pub list_clear-Holds :
      (h : Heap A) (lp : Head) (xs : List (ℕ × A))
      → Holds h lp xs
      → let l = (list_clear h lp).1 in (l.first ≡ none) × (l.last ≡ none) × (l.numitem ≡ 0)
  unfolding list_clear
  list_clear-Holds h lp xs l =
      let end = clear_rounds-Holds xs h lp l in
      let whole =
        subst (λ n. Holds ((clear_rounds n h lp).0) ((clear_rounds n h lp).1) []) (sym l.numitem)
          end in
      (whole.first, whole.last, whole.numitem)
