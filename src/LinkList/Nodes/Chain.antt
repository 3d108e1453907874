-- ===== src/LinkList/Nodes/Chain.antt =====
-- Chains of nodes, as libmhe/linklist.c (under src/) links them: what writing to one node leaves.
use yafc.Base.{
  ℕ, ◌≡◌, refl, ap, ◌∙◌, true, false, Option, none, some, List, [], ◌∷◌, ◌++◌, arith, ◌==◌, length,
  All,
}
use yafc.LinkList.Nodes.{Node, Heap, Head, update, with_next, with_prev, set_next, set_prev}

pub differ : (a b : ℕ) → (a == b) ≡ false → (b == a) ≡ false
differ a b e = ground (arith, e)

module _ {ℓ} {A : Type ℓ} where
  abbrev pub head_or : List (ℕ × A) → Option ℕ → Option ℕ
  head_or [] n = n
  head_or (x ∷ xs) n = some (x.0)

  abbrev pub last_or : List (ℕ × A) → Option ℕ → Option ℕ
  last_or [] p = p
  last_or (x ∷ xs) p = last_or xs (some (x.0))

  abbrev pub node : A → Option ℕ → Option ℕ → Option (Node A)
  node x p n = some (record { data_of = x; prev = p; next = n })

  -- The nodes between `p` and `n`.
  abbrev pub Chain : Heap A → Option ℕ → List (ℕ × A) → Option ℕ → Type ℓ
  Chain h p [] n = Unit
  Chain h p (x ∷ xs) n = (h (x.0) ≡ node (x.1) p (head_or xs n)) × Chain h (some (x.0)) xs n

  -- No node lies at `a`.
  abbrev pub IsFree : ℕ → List (ℕ × A) → Type 0
  IsFree a xs = All (λ x. (x.0 == a) ≡ false) xs

  abbrev pub IsDistinct : List (ℕ × A) → Type 0
  IsDistinct [] = Unit
  IsDistinct (x ∷ xs) = IsFree (x.0) xs × IsDistinct xs

  -- The list that stands for the items.
  pub record Holds (h : Heap A) (lp : Head) (xs : List (ℕ × A)) : Type ℓ where
    pub chain : Chain h none xs none
    pub distinct : IsDistinct xs
    pub first : lp.first ≡ head_or xs none
    pub last : lp.last ≡ last_or xs none
    pub numitem : lp.numitem ≡ length xs

  pub update_other :
      (h : Heap A) (a b : ℕ) (v : Option (Node A)) → (b == a) ≡ false → update h a v b ≡ h b
  update_other h a b v e = rw e refl

  pub update_same : (h : Heap A) (a : ℕ) (v : Option (Node A)) → update h a v a ≡ v
  update_same h a v = let e : (a == a) ≡ true = ground arith in rw e refl

  pub Chain-update :
      (h : Heap A) (a : ℕ) (v : Option (Node A)) (p : Option ℕ) (xs : List (ℕ × A)) (n : Option ℕ)
      → IsFree a xs
      → Chain h p xs n
      → Chain (update h a v) p xs n
  Chain-update h a v p [] n f c = tt
  Chain-update h a v p (x ∷ xs) n f c =
      (update_other h a (x.0) v f.0 ∙ c.0, Chain-update h a v (some (x.0)) xs n f.1 c.1)

  pub Chain-append :
      (h : Heap A) (p : Option ℕ) (xs ys : List (ℕ × A)) (n : Option ℕ)
      → Chain h p xs (head_or ys n)
      → Chain h (last_or xs p) ys n
      → Chain h p (xs ++ ys) n
  Chain-append h p [] ys n c d = d
  Chain-append h p (x ∷ []) ys n c d = (c.0, d)
  Chain-append h p (x ∷ y ∷ xs) ys n c d = (c.0, Chain-append h (some (x.0)) (y ∷ xs) ys n c.1 d)

  pub Chain-split :
      (h : Heap A) (p : Option ℕ) (xs ys : List (ℕ × A)) (n : Option ℕ)
      → Chain h p (xs ++ ys) n
      → Chain h p xs (head_or ys n) × Chain h (last_or xs p) ys n
  Chain-split h p [] ys n c = (tt, c)
  Chain-split h p (x ∷ []) ys n c = ((c.0, tt), c.1)
  Chain-split h p (x ∷ y ∷ xs) ys n c =
      let (d, e) = Chain-split h (some (x.0)) (y ∷ xs) ys n c.1 in ((c.0, d), e)

  pub set_next-other :
      (h : Heap A) (a : ℕ) (y : ℕ × A) (xs : List (ℕ × A)) (p n : Option ℕ)
      → IsFree a (y ∷ xs)
      → set_next h (last_or (y ∷ xs) p) n a ≡ h a
  set_next-other h a y [] p n f = update_other h (y.0) a _ (differ (y.0) a f.0)
  set_next-other h a y (x ∷ xs) p n f = set_next-other h a x xs (some (y.0)) n f.1

  -- The last node of a chain is led on to `n`.
  pub set_next-Chain :
      (h : Heap A) (p : Option ℕ) (x : ℕ × A) (xs : List (ℕ × A)) (m n : Option ℕ)
      → IsDistinct (x ∷ xs)
      → Chain h p (x ∷ xs) m
      → Chain (set_next h (last_or (x ∷ xs) p) n) p (x ∷ xs) n
  set_next-Chain h p x [] m n d c = (update_same h (x.0) _ ∙ ap (with_next n) c.0, tt)
  set_next-Chain h p x (y ∷ xs) m n d c = (
    set_next-other h (x.0) y xs (some (x.0)) n d.0 ∙ c.0,
    set_next-Chain h (some (x.0)) y xs m n d.1 c.1,
  )

  -- The first node of a chain is led back to `q`.
  pub set_prev-Chain :
      (h : Heap A) (p q : Option ℕ) (xs : List (ℕ × A)) (n : Option ℕ)
      → IsDistinct xs
      → Chain h p xs n
      → Chain (set_prev h (head_or xs none) q) q xs n
  set_prev-Chain h p q [] n d c = tt
  set_prev-Chain h p q (x ∷ xs) n d c = (
    update_same h (x.0) _ ∙ ap (with_prev q) c.0,
    Chain-update h (x.0) _ (some (x.0)) xs n d.0 c.1,
  )
