-- ===== src/LinkedList/Removal.antt =====
-- `list_remove_node` of sol/src/list.c.
use mqttbroker.Base.{
  ℕ, zero, suc, ◌+◌, ◌-◌, ◌<◌, ◌≡◌, refl, sym, ap, ◌∙◌, ◌≢◌, Bool, true, false, Option, none, some,
  List, [], ◌∷◌, ◌++◌, arith, ok, Returns, length, length-append, All, ◌==◌,
}
use mqttbroker.LinkedList.{
  Cell, Heap, LinkedList, put, list_remove_single_node, unlink, list_remove_node,
}
use mqttbroker.LinkedList.Shape.{
  first_of, Leads, Avoids, IsDistinct, IsList, set_next_there, Leads-put,
}
use mqttbroker.LinkedList.Sequence.{load_first}

module _ {V : Type 0} where
  Leads-cons :
      (cells : ℕ → Option (Cell V)) (a : ℕ) (v : V) (ns : List (ℕ × V))
      → cells a ≡ some (record { value = v; next = first_of ns })
      → Leads cells none ns
      → Leads cells none ((a, v) ∷ ns)
  Leads-cons cells a v [] e l = e
  Leads-cons cells a v (n ∷ ns) e l = (e, l)

  first_cell :
      (cells : ℕ → Option (Cell V)) (a : ℕ) (v : V) (ns : List (ℕ × V))
      → Leads cells none ((a, v) ∷ ns)
      → cells a ≡ some (record { value = v; next = first_of ns })
  first_cell cells a v [] l = l
  first_cell cells a v (n ∷ ns) l = l.0

  Avoids-without :
      (b a : ℕ) (v : V) (pre post : List (ℕ × V))
      → Avoids b (pre ++ ((a, v) ∷ post))
      → Avoids b pre × (a ≢ b) × Avoids b (pre ++ post)
  Avoids-without b a v [] post (ne, h) = (tt, ne, h)
  Avoids-without b a v (n ∷ pre) post (here, h) =
      let (p, ne, q) = Avoids-without b a v pre post h in ((here, p), ne, (here, q))

  -- The node's address is none of the others'.
  IsDistinct-without :
      (a : ℕ) (v : V) (pre post : List (ℕ × V))
      → IsDistinct (pre ++ ((a, v) ∷ post))
      → Avoids a (pre ++ post)
  IsDistinct-without a v [] post (h, d) = h
  IsDistinct-without a v ((b, u) ∷ pre) post (h, d) =
      let (_, ne, _) = Avoids-without b a v pre post h in
      (λ e. ne (sym e), IsDistinct-without a v pre post d)

  Avoids-left : (a : ℕ) (pre post : List (ℕ × V)) → Avoids a (pre ++ post) → Avoids a pre
  Avoids-left a [] post h = tt
  Avoids-left a (n ∷ pre) post (here, h) = (here, Avoids-left a pre post h)

  Leads-behind :
      (cells : ℕ → Option (Cell V)) (pre post : List (ℕ × V))
      → Leads cells none (pre ++ post)
      → Leads cells none post
  Leads-behind cells [] post l = l
  Leads-behind cells (n ∷ []) [] l = tt
  Leads-behind cells (n ∷ []) (m ∷ post) l = l.1
  Leads-behind cells (n ∷ (m ∷ pre)) post l = Leads-behind cells (m ∷ pre) post l.1

  module _ (matches : V → Bool) (a : ℕ) (v : V) (post : List (ℕ × V))
      (found : matches v ≡ true) where
    -- Values before the first that matches.
    abbrev pub NoMatch : List (ℕ × V) → Type 0
    NoMatch = All (λ n. matches n.1 ≡ false)

    -- What the recursion leaves behind: the other nodes are linked, and memory is as before but for
    -- the nodes in front.
    record Unlinked (pre : List (ℕ × V)) (h h' : Heap V) (p ret : Option ℕ) : Type 0 where
      next : p ≡ first_of (pre ++ post)
      removed : ret ≡ some a
      leads : Leads h'.cells none (pre ++ post)
      kept : (b : ℕ) → Avoids b pre → h'.cells b ≡ h.cells b

    list_remove_single_node-Unlinked :
        (pre : List (ℕ × V)) (h : Heap V) (fuel : ℕ)
        → NoMatch pre
        → Leads h.cells none (pre ++ ((a, v) ∷ post))
        → IsDistinct (pre ++ ((a, v) ∷ post))
        → length pre < fuel
        → Returns
            (list_remove_single_node matches fuel (first_of (pre ++ ((a, v) ∷ post))) none h)
            λ (p, ret, h'). Unlinked pre h h' p ret
    unfolding list_remove_single_node
    list_remove_single_node-Unlinked pre h zero m l d lt = absurd (omega arith)
    list_remove_single_node-Unlinked [] h (suc fuel) m l d lt =
        let (loaded, later) = load_first h a v post l in
        (
          (first_of post, some a, h),
          rw (loaded, found) refl,
          record { next = refl; removed = refl; leads = later; kept = λ b avoids. refl },
        )
    list_remove_single_node-Unlinked ((b, u) ∷ pre) h (suc fuel) (no_match, m) l (av, d) lt =
        let ns = pre ++ ((a, v) ∷ post) in
        let (loaded, later) = load_first h b u ns l in
        let ((p, ret, h₁), e, w) =
          list_remove_single_node-Unlinked pre h fuel m later d (omega arith) in
        let (before, ne, rest) = Avoids-without b a v pre post av in
        let cell = w.kept b before ∙ first_cell h.cells b u ns l in
        let linked = set_next_there h₁ b (record { value = u; next = first_of ns }) p cell in
        let new : Cell V = record { value = u; next = p } in
        let same : (b == b) ≡ true = ground arith in
        (
          (some b, ret, record { cells = put b (some new) h₁.cells; fresh = h₁.fresh }),
          rw (loaded, no_match, e, linked) refl,
          record {
            next = refl;
            removed = w.removed;
            leads =
                Leads-cons (put b (some new) h₁.cells) b u (pre ++ post) (rw (same, w.next) refl)
                  (Leads-put h₁.cells none b (some new) (pre ++ post) rest w.leads);
            kept = λ c (here, avoids).
                let apart : (b == c) ≡ false = ground (arith, here) in rw apart (w.kept c avoids);
          },
        )

    -- Where a node matches, `list_remove_node` returns the first that does, cut off from the others,
    -- which are linked in their order, and takes one off the length; but the head and the tail of
    -- the list stay as they were, also where one of them was the node that is removed.
    pub list_remove_node-found :
        (pre : List (ℕ × V)) (l : LinkedList) (h : Heap V)
        → NoMatch pre
        → IsList l h (pre ++ ((a, v) ∷ post))
        → Returns (list_remove_node matches l h) λ (node, l', h').
          (node ≡ some a)
          × Leads h'.cells none (pre ++ post)
          × (h'.cells a ≡ some (record { value = v; next = none }))
          × (l'.len ≡ length (pre ++ post))
          × (l'.head ≡ l.head)
          × (l'.tail ≡ l.tail)
    unfolding list_remove_node
    list_remove_node-found pre l h m w =
        let ns = pre ++ ((a, v) ∷ post) in
        let many : l.len ≡ length pre + suc (length post) =
          w.len ∙ length-append pre ((a, v) ∷ post) in
        let some_there : (l.len == 0) ≡ false = ground (arith, many) in
        let ((p, ret, h₁), e, u) =
          list_remove_single_node-Unlinked pre h (l.len + 1) m w.leads w.distinct (omega arith) in
        let apart = IsDistinct-without a v pre post w.distinct in
        let cell : h₁.cells a ≡ some (record { value = v; next = first_of post }) =
          u.kept a (Avoids-left a pre post apart)
          ∙ first_cell h.cells a v post (Leads-behind h.cells pre ((a, v) ∷ post) w.leads) in
        let cut = set_next_there h₁ a (record { value = v; next = first_of post }) none cell in
        let alone : Cell V = record { value = v; next = none } in
        let same : (a == a) ≡ true = ground arith in
        let search = λ (q : Option ℕ). list_remove_single_node matches (l.len + 1) q none h in
        let run : search l.head ≡ ok (p, ret, h₁) = ap search w.head ∙ e in
        (
          (
            some a,
            record { head = l.head; tail = l.tail; len = l.len - 1 },
            record { cells = put a (some alone) h₁.cells; fresh = h₁.fresh },
          ),
          rw (some_there, run, u.removed, unlink, cut) refl,
          (
            refl,
            Leads-put h₁.cells none a (some alone) (pre ++ post) apart u.leads,
            rw same refl,
            omega (arith, many, length-append pre post),
            refl,
            refl,
          ),
        )
