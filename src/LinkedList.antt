-- ===== src/LinkedList.antt =====
-- sol/src/list.c: singly linked lists in memory. The two functions that the trie calls on its chains
-- are with the trie.
pub mod Shape
pub mod Sequence
pub mod Removal
use mqttbroker.Base.{
  List, [], ◌∷◌, ◌++◌, ℕ, zero, suc, ◌+◌, ◌-◌, ◌%◌, ◌^◌, Bool, true, false, ◌&&◌, Option, none,
  some, null_deref, dangling, out_of_fuel, Run, ok, fault, ◌>>=◌, ◌==◌, if◌then◌else◌,
}

-- struct list_node; the addresses are numbers.
pub record Cell (V : Type 0) : Type 0 where
  pub value : V
  pub next : Option ℕ

-- The nodes that are allocated, and the address that `malloc` gives next.
pub record Heap (V : Type 0) : Type 0 where
  pub cells : ℕ → Option (Cell V)
  pub fresh : ℕ

-- struct list
pub record LinkedList : Type 0 where
  pub head : Option ℕ
  pub tail : Option ℕ
  pub len : ℕ

-- What is given to `free`: the data of a node, the node at an address, or the list.
pub data Memory (V : Type 0) : Type 0 where
  data_of : V → Memory V
  node_at : ℕ → Memory V
  the_list : Memory V

unfoldable pub list_create : LinkedList
list_create = record { head = none; tail = none; len = 0 }

unfoldable pub list_size : LinkedList → ℕ
list_size l = l.len

abbrev pub is_null : Option ℕ → Bool
is_null none = true
is_null (some a) = false

module _ {V : Type 0} where
  abbrev pub put : ℕ → Option (Cell V) → (ℕ → Option (Cell V)) → ℕ → Option (Cell V)
  put a cell cells b = if a == b then cell else cells b

  abbrev pub cell_of : Option (Cell V) → Run (Cell V)
  cell_of none = fault dangling
  cell_of (some c) = ok c

  unfoldable pub load : Heap V → Option ℕ → Run (Cell V)
  load h none = fault null_deref
  load h (some a) = cell_of (h.cells a)

  -- `node->next = next`
  unfoldable pub set_next : Heap V → Option ℕ → Option ℕ → Run (Heap V)
  unfolding load
  set_next h none next = fault null_deref
  set_next h (some a) next = do
    c ← load h (some a)
    ok (record {
      cells = put a (some (record { value = c.value; next = next })) h.cells;
      fresh = h.fresh;
    })

  unfoldable pub malloc : Heap V → Cell V → Heap V
  malloc h c = record { cells = put h.fresh (some c) h.cells; fresh = h.fresh + 1 }

  unfoldable pub free : Heap V → Option ℕ → Heap V
  free h none = h
  free h (some a) = record { cells = put a none h.cells; fresh = h.fresh }

  -- `malloc` gives the memory asked for.
  unfoldable pub list_push : LinkedList → V → Heap V → LinkedList × Heap V
  unfolding malloc
  list_push l val h =
      let new = some h.fresh in
      (
        record {
          head = new;
          tail = if l.len == 0 then new else l.tail;
          len = (l.len + 1) % 2 ^ 64;
        },
        malloc h (record { value = val; next = if l.len == 0 then none else l.head }),
      )

  unfoldable pub list_push_back : LinkedList → V → Heap V → Run (LinkedList × Heap V)
  unfolding malloc
  list_push_back l val h =
      let new = some h.fresh in
      let h' = malloc h (record { value = val; next = none }) in
      let len = (l.len + 1) % 2 ^ 64 in
      let behind : Run (LinkedList × Heap V) =
        (set_next h' l.tail new >>= λ h''.
        ok (record { head = l.head; tail = new; len = len }, h'')) in
      if l.len == 0 then ok (record { head = new; tail = new; len = len }, h') else behind

  -- `has_data` says which data are not NULL.
  module _ (has_data : V → Bool) where
    abbrev pub free_data : ℕ → V → List (Memory V)
    free_data deep val = if has_data val && (deep == 1) then data_of val ∷ [] else []

    -- The loop of `list_clear` and `list_release`, with as many rounds as the list has nodes: what is
    -- freed, in order, and the nodes that are left.
    unfoldable pub free_nodes : ℕ → ℕ → Option ℕ → Heap V → Run (List (Memory V) × Heap V)
    free_nodes deep zero p h = ok ([], h)
    free_nodes deep (suc left) none h = fault null_deref
    free_nodes deep (suc left) (some a) h = do
      c ← load h (some a)
      (later, h') ← free_nodes deep left c.next (free h (some a))
      ok (free_data deep c.value ++ (node_at a ∷ later), h')

    unfoldable pub list_clear :
        ℕ → LinkedList → Heap V → Run (LinkedList × List (Memory V) × Heap V)
    unfolding free_nodes list_create
    list_clear deep l h = elim l.head [
      | none ↦ ok (l, [], h)
      | some a ↦ (free_nodes deep l.len (some a) h >>= λ (freed, h'). ok (list_create, freed, h'))
    ]

    -- The list has no destructor: the program gives none to `list_create`. The list itself is freed
    -- last.
    unfoldable pub list_release : ℕ → LinkedList → Heap V → Run (List (Memory V) × Heap V)
    unfolding free_nodes
    list_release deep l h =
        free_nodes deep l.len l.head h >>= λ (freed, h'). ok (freed ++ (the_list ∷ []), h')

  -- `matches` is `cmp(node, data) == 0`. The node that is to follow, `*ret`, and the heap.
  unfoldable pub list_remove_single_node :
      (V → Bool) → ℕ → Option ℕ → Option ℕ → Heap V → Run (Option ℕ × Option ℕ × Heap V)
  list_remove_single_node matches fuel none ret h = ok (none, ret, h)
  list_remove_single_node matches zero (some a) ret h = fault out_of_fuel
  list_remove_single_node matches (suc fuel) (some a) ret h = do
    c ← load h (some a)
    let deeper : Run (Option ℕ × Option ℕ × Heap V) = (do
      (next, ret', h') ← list_remove_single_node matches fuel c.next ret h
      h'' ← set_next h' (some a) next
      ok (some a, ret', h''))
    if matches c.value && is_null ret then ok (c.next, some a, h) else deeper

  -- What the function does with the node that was found.
  unfoldable pub unlink : LinkedList → Option ℕ → Heap V → Run (Option ℕ × LinkedList × Heap V)
  unlink l none h = ok (none, l, h)
  unlink l (some found) h = do
    h' ← set_next h (some found) none
    ok (some found, record { head = l.head; tail = l.tail; len = l.len - 1 }, h')

  -- The result of the recursion is dropped. There are as many rounds as the list has nodes, and one.
  unfoldable pub list_remove_node :
      (V → Bool) → LinkedList → Heap V → Run (Option ℕ × LinkedList × Heap V)
  unfolding list_remove_single_node unlink
  list_remove_node matches l h =
      let search : Run (Option ℕ × LinkedList × Heap V) = (do
        (_, found, h') ← list_remove_single_node matches (l.len + 1) l.head none h
        unlink l found h') in
      if l.len == 0 then ok (none, l, h) else search

  -- `less a b` is `cmp_func(a, b) < 0`. The loop of `list_sort_insert`: the node to insert behind.
  unfoldable pub sort_position : (V → V → Bool) → V → ℕ → ℕ → Heap V → Run ℕ
  sort_position less val zero cur h = fault out_of_fuel
  sort_position less val (suc fuel) cur h = do
    c ← load h (some cur)
    elim c.next [
      | none ↦ ok cur
      | some b ↦ do
        d ← load h (some b)
        (let later = sort_position less val fuel b h in if less d.value val then later else ok cur)
    ]

  -- The new node in front, or behind the node that the loop stops at; `*head`, and the heap.
  unfoldable pub list_sort_insert :
      (V → V → Bool) → ℕ → Option ℕ → ℕ → Heap V → Run (Option ℕ × Heap V)
  unfolding sort_position
  list_sort_insert less fuel head new h = do
    n ← load h (some new)
    let front : Run (Option ℕ × Heap V) = (set_next h (some new) head >>= λ h'. ok (some new, h'))
    elim head [
      | none ↦ front
      | some a ↦ do
        c ← load h (some a)
        let behind : Run (Option ℕ × Heap V) = (do
          cur ← sort_position less n.value fuel a h
          d ← load h (some cur)
          h' ← set_next h (some new) d.next
          h'' ← set_next h' (some cur) (some new)
          ok (some a, h''))
        if less c.value n.value then behind else front
    ]
