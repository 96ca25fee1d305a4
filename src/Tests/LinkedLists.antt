-- ===== src/Tests/LinkedLists.antt =====
-- Lists in memory at concrete inputs.
use mqttbroker.Base.{
  not, ℕ, ◌≡◌, refl, Bool, Option, none, some, List, [], ◌∷◌, ◌++◌, arith, Returns, ltb, ◌==◌,
}
use mqttbroker.LinkedList.{
  data_of, node_at, the_list, Cell, Heap, LinkedList, put, load, set_next, malloc, list_create,
  list_size, list_push, list_push_back, list_clear, list_release, list_remove_node, sort_position,
  list_sort_insert,
}
use mqttbroker.LinkedList.Shape.{IsList, Leads}
use mqttbroker.LinkedList.Sequence.{Freed, operations_keep_lists}
use mqttbroker.LinkedList.Removal.{list_remove_node-found}

-- The values 7 and 9, at the addresses 0 and 1.
abbrev cells : ℕ → Option (Cell ℕ)
cells =
    put 1 (some (record { value = 9; next = none }))
      (put 0 (some (record { value = 7; next = some 1 })) (λ a. none))

abbrev memory : Heap ℕ
memory = record { cells = cells; fresh = 2 }

abbrev two : LinkedList
two = record { head = some 0; tail = some 1; len = 2 }

abbrev nodes : List (ℕ × ℕ)
nodes = (0, 7) ∷ (1, 9) ∷ []

two-IsList : IsList two memory nodes
two-IsList = record {
  leads = (refl, refl);
  distinct = ((λ e. absurd (omega (arith, e)), tt), (tt, tt));
  below = (omega arith, (omega arith, tt));
  head = refl;
  tail = refl;
  len = refl;
}

abbrev positive : ℕ → Bool
positive v = not (v == 0)

operations_keep_lists_example :
    IsList (list_push two 5 memory).0 (list_push two 5 memory).1 ((2, 5) ∷ nodes)
    × (Returns (list_push_back two 5 memory) λ (l, h). IsList l h (nodes ++ ((2, 5) ∷ [])))
    × (Returns (list_clear positive 1 two memory) λ (l, freed, h).
        IsList l h []
        × (freed ≡ data_of 7 ∷ node_at 0 ∷ data_of 9 ∷ node_at 1 ∷ [])
        × Freed nodes memory h)
    × (Returns (list_release positive 1 two memory) λ (freed, h).
        (freed ≡ data_of 7 ∷ node_at 0 ∷ data_of 9 ∷ node_at 1 ∷ the_list ∷ [])
        × Freed nodes memory h)
    × (list_size two ≡ 2)
operations_keep_lists_example =
    operations_keep_lists positive 1 two memory nodes 5 two-IsList (omega arith)

abbrev is_seven : ℕ → Bool
is_seven v = v == 7

-- The head stays at the node that is cut off.
list_remove_node-found_example : Returns (list_remove_node is_seven two memory) λ (node, l, h).
    (node ≡ some 0)
    × Leads h.cells none ((1, 9) ∷ [])
    × (h.cells 0 ≡ some (record { value = 7; next = none }))
    × (l.len ≡ 1)
    × (l.head ≡ some 0)
    × (l.tail ≡ some 1)
list_remove_node-found_example =
    list_remove_node-found is_seven 0 7 ((1, 9) ∷ []) refl [] two memory tt two-IsList

abbrev empty : Heap ℕ
empty = record { cells = λ a. none; fresh = 0 }

-- The list, made by two pushes.
push_run :
    Returns
      (list_push_back (list_push list_create 7 empty).0 9 (list_push list_create 7 empty).1)
      λ (l, h). (l ≡ two) × Leads h.cells none nodes
unfolding list_push list_push_back list_create malloc set_next load
push_run = (_, refl, (refl, (refl, refl)))

-- A node with the value 8, at the address 2, goes between the others.
abbrev with_new : Heap ℕ
with_new = malloc memory (record { value = 8; next = none })

sort_insert_run :
    Returns
      (list_sort_insert ltb 3 (some 0) 2 with_new)
      λ (head, h). (head ≡ some 0) × Leads h.cells none ((0, 7) ∷ (2, 8) ∷ (1, 9) ∷ [])
unfolding list_sort_insert sort_position malloc set_next load
sort_insert_run = (_, refl, (refl, (refl, (refl, refl))))
