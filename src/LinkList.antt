-- ===== src/LinkList.antt =====
-- libmhe/linklist.c (under src/), the functions that only follow `next`: a list is the sequence of
-- the `data` of its items. `list_sort` moves the data and leaves the links alone.
pub mod Sort
pub mod Nodes
use yafc.Base.{
  ℕ, zero, suc, ◌+◌, ◌-◌, ◌*◌, ◌/◌, ◌%◌, ◌^◌, ◌≤◌, ◌<◌, ◌≡◌, refl, sym, ap, ◌∙◌, ◌≢◌, ◌↔◌, ◌⊎◌, inl,
  inr, Bool, true, false, not, ◌&&◌, ◌||◌, Option, none, some, List, [], ◌∷◌, ◌++◌, map, append-nil,
  append_assoc, arith, ltb, leb, ◌==◌, if◌then◌else◌, ltb→lt, lt→ltb, leb→le, le→leb, ==_iff,
  Bool-cases, Option-cases, some-eq, &&-true, ||-false, length, get_elem?, get_or, take, drop,
  is_nil, length-append, take-append-drop, length-take, length-drop, length-map, take-all, All,
  All-append, All-append_left, All-append_right, All-mono, Bytes, codes, IsChar, IsText, within,
  is_space, is_cntrl, is_digit, is_xdigit, to_lower, has, str_eq, starts_with, strcase_eq, split_at,
  split_last, c_string, xstrdup, xstrndup, str_eq_iff, c_string-IsText, has-ne, ℤ, pos, negsuc,
  negate, digits_value, atoi, strip_trailing_chars, take-append, drop-append, drop-drop, take-take,
  drop-all, drop-take, get_or-append,
}

-- What a comparison returns, by its sign.
abbrev pub is_positive : ℤ → Bool
is_positive (pos zero) = false
is_positive (pos (suc n)) = true
is_positive (negsuc n) = false

abbrev pub is_negative : ℤ → Bool
is_negative (pos n) = false
is_negative (negsuc n) = true

abbrev pub is_zero : ℤ → Bool
is_zero (pos zero) = true
is_zero (pos (suc n)) = false
is_zero (negsuc n) = false

module _ {ℓ} {A : Type ℓ} where
  -- The place of the first item that the search function finds equal.
  unfoldable pub list_search : (A → ℤ) → List A → Option ℕ
  list_search cmpfunc [] = none
  list_search cmpfunc (x ∷ xs) =
      let rest = list_search cmpfunc xs in
      if is_zero (cmpfunc x) then some 0 else elim rest [ none ↦ none | some i ↦ some (i + 1) ]

  -- The items of two lists side by side, to the end of the shorter one.
  unfoldable pub all_equal : (A → A → ℤ) → List A → List A → Bool
  all_equal cmpfunc [] ys = true
  all_equal cmpfunc (x ∷ xs) [] = true
  all_equal cmpfunc (x ∷ xs) (y ∷ ys) = is_zero (cmpfunc x y) && all_equal cmpfunc xs ys

  -- For two lists that are not the same object.
  unfoldable pub list_equal : (A → A → ℤ) → List A → List A → Bool
  list_equal cmpfunc a b = length a == length b && all_equal cmpfunc a b

  -- reverse ? c < 0 : c > 0
  abbrev pub out_of_order : (A → A → ℤ) → Bool → A → A → Bool
  out_of_order cmp reverse a b = let c = cmp a b in if reverse then is_negative c else is_positive c

  -- The `for` loop, at an item that holds `x`: the data of the list, and whether any were swapped.
  -- `last` is the null pointer throughout, since `next` never equals it.
  unfoldable pub bubble : (A → A → Bool) → A → List A → List A × Bool
  bubble gt x [] = (x ∷ [], false)
  bubble gt x (y ∷ ys) =
      let (rest, swapped) = bubble gt (if gt x y then x else y) ys in
      ((if gt x y then y else x) ∷ rest, gt x y || swapped)

  unfoldable pub bubble_pass : (A → A → Bool) → List A → List A × Bool
  bubble_pass gt [] = ([], false)
  bubble_pass gt (x ∷ xs) = bubble gt x xs

  -- while (swapped)
  unfoldable pub sort_rounds : (A → A → Bool) → ℕ → List A → List A
  sort_rounds gt zero xs = xs
  sort_rounds gt (suc fuel) xs =
      let (ys, swapped) = bubble_pass gt xs in
      let more = sort_rounds gt fuel ys in if swapped then more else ys

  -- Each round but the last puts a pair in order for good.
  unfoldable pub list_sort : (A → A → ℤ) → Bool → List A → List A
  list_sort cmp reverse xs = sort_rounds (out_of_order cmp reverse) (length xs * length xs + 1) xs
