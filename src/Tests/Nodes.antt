-- ===== src/Tests/Nodes.antt =====
-- Sample lists of nodes.
use yafc.Base.{ℕ, ◌≡◌, refl, none, [], ◌∷◌}
use yafc.LinkList.Nodes.{Heap, Head, list_new, list_additem, list_removeitem, list_clear}
use yafc.LinkList.Nodes.Chain.{Holds}
use yafc.LinkList.Nodes.Add.{list_additem-Holds}
use yafc.LinkList.Nodes.Remove.{list_removeitem-Holds}
use yafc.LinkList.Nodes.Clear.{list_clear-Holds}

abbrev empty : Heap ℕ
empty = λ a. none

abbrev one : Heap ℕ × Head
one = list_additem empty list_new 10 1

abbrev two : Heap ℕ × Head
two = list_additem (one.0) (one.1) 20 2

empty-Holds : Holds empty list_new []
empty-Holds = record { chain = tt; distinct = tt; first = refl; last = refl; numitem = refl }

one-Holds : Holds (one.0) (one.1) ((10, 1) ∷ [])
one-Holds = list_additem-Holds empty list_new 10 1 [] empty-Holds tt

list_additem-Holds_example : Holds (two.0) (two.1) ((10, 1) ∷ (20, 2) ∷ [])
list_additem-Holds_example =
    list_additem-Holds (one.0) (one.1) 20 2 ((10, 1) ∷ []) one-Holds (refl, tt)

two-Holds : Holds (two.0) (two.1) ((10, 1) ∷ (20, 2) ∷ [])
two-Holds = list_additem-Holds (one.0) (one.1) 20 2 ((10, 1) ∷ []) one-Holds (refl, tt)

list_removeitem-Holds_example :
    let (g, l) = list_removeitem (two.0) (two.1) 10 in Holds g l ((20, 2) ∷ [])
list_removeitem-Holds_example =
    list_removeitem-Holds (two.0) (two.1) (10, 1) [] ((20, 2) ∷ []) two-Holds

list_clear-Holds_example :
    let l = (list_clear (two.0) (two.1)).1 in (l.first ≡ none) × (l.last ≡ none) × (l.numitem ≡ 0)
list_clear-Holds_example = list_clear-Holds (two.0) (two.1) ((10, 1) ∷ (20, 2) ∷ []) two-Holds
