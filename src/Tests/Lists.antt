-- ===== src/Tests/Lists.antt =====
-- Sorting a sample list.
use mathlib.Core.List.{Perm}
use yafc.Base.{ℕ, ◌≡◌, false, List, [], ◌∷◌, arith, ltb, ◌==◌, if◌then◌else◌, ℤ, pos, negsuc}
use yafc.LinkList.{is_positive, is_negative, out_of_order, list_sort}
use yafc.LinkList.Sort.{IsSorted, list_sort-IsSorted}

abbrev by_size : ℕ → ℕ → ℤ
by_size a b = if ltb a b then negsuc 0 else if a == b then pos 0 else pos 1

by_size-turns : (a b : ℕ) → is_positive (by_size a b) ≡ is_negative (by_size b a)
by_size-turns a b = ground arith

abbrev sizes : List ℕ
sizes = 3 ∷ 1 ∷ 2 ∷ []

list_sort-IsSorted_example :
    IsSorted (out_of_order by_size false) (list_sort by_size false sizes)
    × Perm sizes (list_sort by_size false sizes)
list_sort-IsSorted_example = list_sort-IsSorted by_size false sizes by_size-turns
