-- ===== src/LinkedList/Sequence.antt =====
-- The lists of sol/src/list.c as sequences of values.
use mqttbroker.Base.{
  Bool, ◌&&◌, ap, inl, inr, Bool-cases, ℕ, ◌+◌, ◌%◌, ◌^◌, ◌<◌, ◌≡◌, refl, sym, ◌∙◌, true, false,
  Option, none, some, List, [], ◌∷◌, ◌++◌, arith, ok, Returns, length, length-append, All, ◌==◌,
  if◌then◌else◌,
}
use mqttbroker.LinkedList.{
  Memory, data_of, node_at, the_list, free_data, Cell, Heap, LinkedList, put, load, malloc, free,
  list_create, list_size, list_push, list_push_back, free_nodes, list_clear, list_release,
}
use mqttbroker.LinkedList.Shape.{
  first_of, Leads, Avoids, IsDistinct, IsList, set_next_there, Leads-put, Below-Avoids, Below-suc,
  Below-concat, last_of-concat, Leads-concat, Leads-Last, Below-distinct,
}

module _ {V : Type 0} where
  list_push-IsList :
      (l : LinkedList) (h : Heap V) (ns : List (ℕ × V)) (v : V)
      → IsList l h ns
      → length ns + 1 < 2 ^ 64
      → IsList (list_push l v h).0 (list_push l v h).1 ((h.fresh, v) ∷ ns)
  unfolding list_push malloc
  list_push-IsList l h [] v w lt =
      let e : l.len ≡ 0 = w.len in
      record {
        leads = ground (arith, e);
        distinct = (tt, tt);
        below = (omega arith, tt);
        head = refl;
        tail = ground (arith, e);
        len = omega (arith, e);
      }
  list_push-IsList l h ((a, u) ∷ ns) v w lt =
      let e : (l.len == 0) ≡ false = ground (arith, w.len) in
      let kept =
        Leads-put h.cells none h.fresh
          (some (record { value = v; next = if l.len == 0 then none else l.head })) ((a, u) ∷ ns)
          (Below-Avoids h.fresh ((a, u) ∷ ns) w.below) w.leads in
      let same : (h.fresh == h.fresh) ≡ true = ground arith in
      record {
        leads = (rw (same, e, w.head) refl, kept);
        distinct = (Below-Avoids h.fresh ((a, u) ∷ ns) w.below, w.distinct);
        below = (omega arith, Below-suc h.fresh ((a, u) ∷ ns) w.below);
        head = refl;
        tail = rw e w.tail;
        len = omega (arith, w.len);
      }

  list_push_back-IsList :
      (l : LinkedList) (h : Heap V) (ns : List (ℕ × V)) (v : V)
      → IsList l h ns
      → length ns + 1 < 2 ^ 64
      → Returns (list_push_back l v h) λ (l', h'). IsList l' h' (ns ++ ((h.fresh, v) ∷ []))
  unfolding list_push_back malloc
  list_push_back-IsList l h [] v w lt =
      let e : l.len ≡ 0 = w.len in
      let none_there : (l.len == 0) ≡ true = ground (arith, e) in
      let same : (h.fresh == h.fresh) ≡ true = ground arith in
      (
        (
          record { head = some h.fresh; tail = some h.fresh; len = (l.len + 1) % 2 ^ 64 },
          malloc h (record { value = v; next = none }),
        ),
        rw none_there refl,
        record {
          leads = rw same refl;
          distinct = (tt, tt);
          below = (omega arith, tt);
          head = refl;
          tail = refl;
          len = omega (arith, e);
        },
      )
  list_push_back-IsList l h (n ∷ ns) v w lt =
      let some_there : (l.len == 0) ≡ false = ground (arith, w.len) in
      let f = h.fresh in
      let all = n ∷ ns in
      let avoids = Below-Avoids f all w.below in
      let new : Cell V = record { value = v; next = none } in
      let last =
        Leads-Last (put f (some new) h.cells) n ns
          (Leads-put h.cells none f (some new) all avoids w.leads) w.distinct in
      let apart : (last.address == f) ≡ false = ground (arith, last.among f avoids) in
      let same : (f == f) ≡ true = ground arith in
      let h' : Heap V = malloc h new in
      let linked =
        set_next_there h' last.address (record { value = last.value; next = none }) (some f)
          last.cell in
      let cells : ℕ → Option (Cell V) =
        put last.address (some (record { value = last.value; next = some f }))
          (put f (some new) h.cells) in
      let there : cells f ≡ some new = rw (apart, same) refl in
      (
        (
          record { head = l.head; tail = some f; len = (l.len + 1) % 2 ^ 64 },
          record { cells = cells; fresh = h.fresh + 1 },
        ),
        rw (some_there, w.tail, last.is_last, linked) refl,
        record {
          leads = Leads-concat cells all f v (last.relinked (some f)) there;
          distinct = Below-distinct f all v w.below w.distinct;
          below = Below-concat f all v w.below;
          head = w.head;
          tail = sym (last_of-concat all f v);
          len = omega (arith, w.len, length-append {0} all ((f, v) ∷ []));
        },
      )

  pub load_first :
      (h : Heap V) (a : ℕ) (v : V) (ns : List (ℕ × V))
      → Leads h.cells none ((a, v) ∷ ns)
      → (load h (some a) ≡ ok (record { value = v; next = first_of ns })) × Leads h.cells none ns
  unfolding load
  load_first h a v [] l = (rw l refl, tt)
  load_first h a v (n ∷ ns) (here, later) = (rw here refl, later)

  -- The nodes are gone, and all other nodes are as before.
  abbrev pub Freed : List (ℕ × V) → Heap V → Heap V → Type 0
  Freed ns h h' =
      All (λ n. h'.cells n.0 ≡ none) ns × ((b : ℕ) → Avoids b ns → h'.cells b ≡ h.cells b)

  module _ (has_data : V → Bool) where
    -- What is to be freed for the nodes: each once, with its data in front where these are asked for
    -- and not NULL.
    abbrev pub memory_of : ℕ → List (ℕ × V) → List (Memory V)
    memory_of deep [] = []
    memory_of deep ((a, v) ∷ ns) =
        if has_data v && (deep == 1)
        then data_of v ∷ (node_at a ∷ memory_of deep ns)
        else node_at a ∷ memory_of deep ns

    free_data-memory_of :
        (deep a : ℕ) (v : V) (ns : List (ℕ × V))
        → free_data has_data deep v ++ (node_at a ∷ memory_of deep ns)
          ≡ memory_of deep ((a, v) ∷ ns)
    free_data-memory_of deep a v ns = elim (Bool-cases (has_data v && (deep == 1))) [
      | inl e ↦ rw e refl
      | inr e ↦ rw e refl
    ]

    free_nodes-Freed :
        (deep : ℕ) (ns : List (ℕ × V)) (h : Heap V)
        → Leads h.cells none ns
        → IsDistinct ns
        → Returns
            (free_nodes has_data deep (length ns) (first_of ns) h)
            λ (freed, h'). (freed ≡ memory_of deep ns) × Freed ns h h'
    unfolding free_nodes free
    free_nodes-Freed deep [] h l d = (([], h), refl, (refl, (tt, λ b avoids. refl)))
    free_nodes-Freed deep ((a, v) ∷ ns) h l (av, d) =
        let (loaded, later) = load_first h a v ns l in
        let h₁ : Heap V = record { cells = put a none h.cells; fresh = h.fresh } in
        let ((freed, h'), e, (all, (gone, kept))) =
          free_nodes-Freed deep ns h₁ (Leads-put h.cells none a none ns av later) d in
        let same : (a == a) ≡ true = ground arith in
        let first_gone : h'.cells a ≡ none = kept a av ∙ rw same refl in
        (
          (free_data has_data deep v ++ (node_at a ∷ freed), h'),
          rw (loaded, e) refl,
          (
            ap (λ (m : List (Memory V)). free_data has_data deep v ++ (node_at a ∷ m)) all
                ∙ free_data-memory_of deep a v ns,
            (
              (first_gone, gone),
              λ b (ne, avoids).
                  let apart : (a == b) ≡ false = ground (arith, ne) in
                  kept b avoids ∙ rw apart refl,
            ),
          ),
        )

    list_clear-Freed :
        (deep : ℕ) (l : LinkedList) (h : Heap V) (ns : List (ℕ × V))
        → IsList l h ns
        → Returns
            (list_clear has_data deep l h)
            λ (l', freed, h'). IsList l' h' [] × (freed ≡ memory_of deep ns) × Freed ns h h'
    unfolding list_clear list_create
    list_clear-Freed deep l h [] w =
        let empty : IsList l h [] = w in
        ((l, [], h), rw w.head refl, (empty, refl, (tt, λ b avoids. refl)))
    list_clear-Freed deep l h ((a, v) ∷ ns) w =
        let ((freed, h'), e, (all, gone)) =
          free_nodes-Freed deep ((a, v) ∷ ns) h w.leads w.distinct in
        let none_left : LinkedList = record { head = none; tail = none; len = 0 } in
        let clean : IsList none_left h' [] = record {
          leads = tt;
          distinct = tt;
          below = tt;
          head = refl;
          tail = refl;
          len = refl;
        } in
        ((none_left, freed, h'), rw (w.head, w.len, e) refl, (clean, all, gone))

    list_release-Freed :
        (deep : ℕ) (l : LinkedList) (h : Heap V) (ns : List (ℕ × V))
        → IsList l h ns
        → Returns
            (list_release has_data deep l h)
            λ (freed, h'). (freed ≡ memory_of deep ns ++ (the_list ∷ [])) × Freed ns h h'
    unfolding list_release
    list_release-Freed deep l h ns w =
        let ((freed, h'), e, (all, gone)) = free_nodes-Freed deep ns h w.leads w.distinct in
        (
          (freed ++ (the_list ∷ []), h'),
          rw (w.head, w.len, e) refl,
          (ap (λ (m : List (Memory V)). m ++ (the_list ∷ [])) all, gone),
        )

    -- On a well-formed list, whose length fits, `list_push` and `list_push_back` give the well-formed
    -- list with the new value in front and behind; `list_clear` gives the empty one. It and
    -- `list_release` free every node once, in order, behind its data where `deep` is 1 and these are
    -- not NULL, and no other node; `list_release` frees the list last. `list_size` is the number of
    -- nodes.
    pub operations_keep_lists :
        (deep : ℕ) (l : LinkedList) (h : Heap V) (ns : List (ℕ × V)) (v : V)
        → IsList l h ns
        → length ns + 1 < 2 ^ 64
        → IsList (list_push l v h).0 (list_push l v h).1 ((h.fresh, v) ∷ ns)
          × (Returns (list_push_back l v h) λ (l', h'). IsList l' h' (ns ++ ((h.fresh, v) ∷ [])))
          × (Returns
              (list_clear has_data deep l h)
              λ (l', freed, h'). IsList l' h' [] × (freed ≡ memory_of deep ns) × Freed ns h h')
          × (Returns
              (list_release has_data deep l h)
              λ (freed, h'). (freed ≡ memory_of deep ns ++ (the_list ∷ [])) × Freed ns h h')
          × (list_size l ≡ length ns)
    unfolding list_size
    operations_keep_lists deep l h ns v w lt = (
      list_push-IsList l h ns v w lt,
      list_push_back-IsList l h ns v w lt,
      list_clear-Freed deep l h ns w,
      list_release-Freed deep l h ns w,
      w.len,
    )
