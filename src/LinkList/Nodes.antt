-- ===== src/LinkList/Nodes.antt =====
-- The items of libmhe/linklist.c (under src/) as nodes of a heap: an address is a number, and the heap
-- gives the node that lies at it. `list_free` and the freeing of nodes and data leave no trace.
pub mod Chain
pub mod Remove
pub mod Add
pub mod Clear
use yafc.Base.{
  ℕ, zero, suc, ◌+◌, ◌-◌, ◌*◌, ◌/◌, ◌%◌, ◌^◌, ◌≤◌, ◌<◌, ◌≡◌, refl, sym, ap, ◌∙◌, ◌≢◌, ◌↔◌, ◌⊎◌, inl,
  inr, Bool, true, false, not, ◌&&◌, ◌||◌, Option, none, some, List, [], ◌∷◌, ◌++◌, map, append-nil,
  append_assoc, arith, ltb, leb, ◌==◌, if◌then◌else◌, ltb→lt, lt→ltb, leb→le, le→leb, ==_iff,
  Bool-cases, Option-cases, some-eq, &&-true, ||-false, length, get_elem?, get_or, take, drop,
  is_nil, length-append, take-append-drop, length-take, length-drop, length-map, take-all, All,
  All-append, All-append_left, All-append_right, All-mono, Bytes, codes, IsChar, IsText, within,
  is_space, is_cntrl, is_digit, is_xdigit, to_lower, has, str_eq, starts_with, strcase_eq, split_at,
  split_last, c_string, xstrdup, xstrndup, str_eq_iff, c_string-IsText, has-ne, ℤ, pos, negsuc,
  negate, digits_value, atoi, strip_trailing_chars, take-append, drop-append, drop-drop, take-take,
  drop-all, drop-take, get_or-append,
}

-- listitem
pub record Node {ℓ} (A : Type ℓ) : Type ℓ where
  pub data_of : A
  pub prev : Option ℕ
  pub next : Option ℕ

abbrev pub Heap {ℓ} : Type ℓ → Type ℓ
Heap A = ℕ → Option (Node A)

-- list
pub record Head : Type 0 where
  pub first : Option ℕ
  pub last : Option ℕ
  pub numitem : ℕ

abbrev pub list_new : Head
list_new = record { first = none; last = none; numitem = 0 }

-- The old end of the list, or the new one where the item had no neighbour.
abbrev pub or_end : Option ℕ → Option ℕ → Option ℕ → Option ℕ
or_end none old new = new
or_end (some a) old new = old

module _ {ℓ} {A : Type ℓ} where
  abbrev pub update : Heap A → ℕ → Option (Node A) → Heap A
  update h a v = λ b. if b == a then v else h b

  -- A write to a field; no node is no write.
  abbrev pub with_next : Option ℕ → Option (Node A) → Option (Node A)
  with_next n none = none
  with_next n (some node) = some (record { data_of = node.data_of; prev = node.prev; next = n })

  abbrev pub with_prev : Option ℕ → Option (Node A) → Option (Node A)
  with_prev p none = none
  with_prev p (some node) = some (record { data_of = node.data_of; prev = p; next = node.next })

  -- p->next = n and n->prev = p, which the source does behind a test for the null pointer
  abbrev pub set_next : Heap A → Option ℕ → Option ℕ → Heap A
  set_next h none n = h
  set_next h (some p) n = update h p (with_next n (h p))

  abbrev pub set_prev : Heap A → Option ℕ → Option ℕ → Heap A
  set_prev h none p = h
  set_prev h (some n) p = update h n (with_prev p (h n))

  -- `lip` is the address of the new item.
  unfoldable pub list_additem : Heap A → Head → ℕ → A → Heap A × Head
  list_additem h lp lip x =
      let alone = update h lip (some (record { data_of = x; prev = none; next = none })) in
      let linked = set_next (set_prev alone (some lip) (lp.last)) (lp.last) (some lip) in
      elim (lp.first) [
        | none ↦ (alone, record { first = some lip; last = some lip; numitem = lp.numitem + 1 })
        | some f ↦ (linked, record { first = some f; last = some lip; numitem = lp.numitem + 1 })
      ]

  abbrev pub unlink : Heap A → Head → Option (Node A) → Heap A × Head
  unlink h lp none = (h, lp)
  unlink h lp (some node) = (
    set_prev (set_next h (node.prev) (node.next)) (node.next) (node.prev),
    record {
      first = or_end (node.prev) (lp.first) (node.next);
      last = or_end (node.next) (lp.last) (node.prev);
      numitem = lp.numitem - 1;
    },
  )

  -- The item lies in the heap; nothing is done on an empty list.
  unfoldable pub list_removeitem : Heap A → Head → ℕ → Heap A × Head
  list_removeitem h lp lip = elim (lp.first) [ none ↦ (h, lp) | some f ↦ unlink h lp (h lip) ]

  -- Taken out and freed.
  unfoldable pub list_delitem : Heap A → Head → ℕ → Heap A × Head
  list_delitem h lp lip = elim (lp.first) [
    | none ↦ (h, lp)
    | some f ↦ let (g, l) = list_removeitem h lp lip in (update g lip none, l)
  ]

  abbrev pub delete_first : Option ℕ → Heap A → Head → Heap A × Head
  delete_first none h lp = (h, lp)
  delete_first (some f) h lp = list_delitem h lp f

  -- The loop of `list_clear`; each round takes the first item out.
  unfoldable pub clear_rounds : ℕ → Heap A → Head → Heap A × Head
  clear_rounds zero h lp = (h, lp)
  clear_rounds (suc fuel) h lp = let (g, l) = delete_first (lp.first) h lp in clear_rounds fuel g l

  unfoldable pub list_clear : Heap A → Head → Heap A × Head
  list_clear h lp = clear_rounds (lp.numitem) h lp
