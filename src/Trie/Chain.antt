-- ===== src/Trie/Chain.antt =====
-- Predicates on a chain of nodes, and the search in a chain that is in order.
use mqttbroker.Base.{
  ℕ, ◌≤◌, ◌<◌, ◌≡◌, refl, ◌≢◌, inl, inr, Option, none, some, arith, ◌==◌, if◌then◌else◌, Bool-cases,
}
use mqttbroker.Trie.{Node, Nodes, nil, cons, chr, char_rank, linear_search, put_child, remove_child}

module _ {V : Type 0} where
  abbrev pub AllNodes : (Node V → Type 0) → Nodes V → Type 0
  AllNodes P nil = Unit
  AllNodes P (cons n ns) = P n × AllNodes P ns

  pub AllNodes-map :
      {P Q : Node V → Type 0}
      → ((n : Node V) → P n → Q n)
      → (ns : Nodes V) → AllNodes P ns
      → AllNodes Q ns
  AllNodes-map f nil h = tt
  AllNodes-map f (cons n ns) (p, h) = (f n p, AllNodes-map f ns h)

  -- All characters come after one of rank `r`.
  abbrev pub Above : ℕ → Nodes V → Type 0
  Above r = AllNodes (λ n. r < char_rank (chr n))

  abbrev pub Lacks : ℕ → Nodes V → Type 0
  Lacks c = AllNodes (λ n. chr n ≢ c)

  abbrev pub IsSorted : Nodes V → Type 0
  IsSorted nil = Unit
  IsSorted (cons n ns) = Above (char_rank (chr n)) ns × IsSorted ns

  abbrev pub IsDistinct : Nodes V → Type 0
  IsDistinct nil = Unit
  IsDistinct (cons n ns) = Lacks (chr n) ns × IsDistinct ns

  abbrev pub AllBytes : Nodes V → Type 0
  AllBytes = AllNodes (λ n. chr n < 256)

  -- The first node with a character.
  unfoldable pub first : Nodes V → ℕ → Option (Node V)
  first nil c = none
  first (cons n ns) c = let later = first ns c in if chr n == c then some n else later

  pub first-Lacks : (ns : Nodes V) (c : ℕ) → Lacks c ns → first ns c ≡ none
  unfolding first
  first-Lacks nil c h = refl
  first-Lacks (cons n ns) c (h, hs) = ground (arith, first-Lacks ns c hs)

  pub Lacks-first : (ns : Nodes V) (c : ℕ) → first ns c ≡ none → Lacks c ns
  unfolding first
  Lacks-first nil c h = tt
  Lacks-first (cons n ns) c h = (ground arith, Lacks-first ns c (ground arith))

  pub first-chr : (ns : Nodes V) (c : ℕ) (n : Node V) → first ns c ≡ some n → chr n ≡ c
  unfolding first
  first-chr nil c n h = cc
  first-chr (cons m ns) c n h = ground (arith, first-chr ns c n)

  pub Above-Lacks : (ns : Nodes V) (c r : ℕ) → Above r ns → char_rank c ≤ r → Lacks c ns
  Above-Lacks nil c r h le = tt
  Above-Lacks (cons n ns) c r (h, hs) le = (λ e. absurd (omega arith), Above-Lacks ns c r hs le)

  -- In a chain that is in order nothing is missed where the search stops early.
  pub linear_search-first : (ns : Nodes V) (c : ℕ) → IsSorted ns → linear_search ns c ≡ first ns c
  unfolding linear_search first
  linear_search-first nil c h = refl
  linear_search-first (cons n ns) c (above, h) = ground (
    arith,
    linear_search-first ns c h,
    first-Lacks ns c,
    Above-Lacks ns c (char_rank (chr n)) above,
  )

  module _ (c : ℕ) (child : Node V) (same : chr child ≡ c) where
    pub first-put_child_self :
        (ns : Nodes V) (n : Node V)
        → first ns c ≡ some n
        → first (put_child c child ns) c ≡ some child
    unfolding first put_child
    first-put_child_self nil n h = cc
    first-put_child_self (cons m ns) n h = ground (arith, first-put_child_self ns n)

    pub first-put_child_ne :
        (ns : Nodes V) (d : ℕ) → c ≢ d → first (put_child c child ns) d ≡ first ns d
    unfolding first put_child
    first-put_child_ne nil d h = refl
    first-put_child_ne (cons m ns) d h = ground (arith, first-put_child_ne ns d h)

    pub AllNodes-put_child :
        (P : Node V → Type 0) (ns : Nodes V)
        → P child
        → AllNodes P ns
        → AllNodes P (put_child c child ns)
    unfolding put_child
    AllNodes-put_child P nil p h = tt
    AllNodes-put_child P (cons m ns) p (q, h) = elim (Bool-cases (chr m == c)) [
      | inl here ↦ rw here (p, h)
      | inr later ↦ rw later (q, AllNodes-put_child P ns p h)
    ]

    -- The order is one of the characters, and those stay.
    Above-put_child : (ns : Nodes V) (r : ℕ) → Above r ns → Above r (put_child c child ns)
    unfolding put_child
    Above-put_child nil r h = tt
    Above-put_child (cons m ns) r (q, h) = elim (Bool-cases (chr m == c)) [
      | inl here ↦ let e : chr m ≡ c = ground (arith, here) in rw here (rw (same, ← e) q, h)
      | inr later ↦ rw later (q, Above-put_child ns r h)
    ]

    pub IsSorted-put_child : (ns : Nodes V) → IsSorted ns → IsSorted (put_child c child ns)
    unfolding put_child
    IsSorted-put_child nil h = tt
    IsSorted-put_child (cons m ns) (q, h) = elim (Bool-cases (chr m == c)) [
      | inl here ↦ let e : chr m ≡ c = ground (arith, here) in rw here (rw (same, ← e) q, h)
      | inr later ↦ rw later (Above-put_child ns (char_rank (chr m)) q, IsSorted-put_child ns h)
    ]

  pub AllNodes-remove_child :
      (P : Node V → Type 0) (c : ℕ) (ns : Nodes V) → AllNodes P ns → AllNodes P (remove_child c ns)
  unfolding remove_child
  AllNodes-remove_child P c nil h = tt
  AllNodes-remove_child P c (cons m ns) (q, h) = elim (Bool-cases (chr m == c)) [
    | inl here ↦ rw here h
    | inr later ↦ rw later (q, AllNodes-remove_child P c ns h)
  ]

  pub IsSorted-remove_child : (c : ℕ) (ns : Nodes V) → IsSorted ns → IsSorted (remove_child c ns)
  unfolding remove_child
  IsSorted-remove_child c nil h = tt
  IsSorted-remove_child c (cons m ns) (q, h) = elim (Bool-cases (chr m == c)) [
    | inl here ↦ rw here h
    | inr later ↦ rw later (AllNodes-remove_child _ c ns q, IsSorted-remove_child c ns h)
  ]

  -- In a chain that is in order a character stands once.
  pub first-remove_child_self :
      (c : ℕ) (ns : Nodes V) → IsSorted ns → first (remove_child c ns) c ≡ none
  unfolding first remove_child
  first-remove_child_self c nil h = refl
  first-remove_child_self c (cons m ns) (q, h) = elim (Bool-cases (chr m == c)) [
    | inl here ↦
        let e : chr m ≡ c = ground (arith, here) in
        rw here (first-Lacks ns c (Above-Lacks ns c (char_rank (chr m)) q (omega arith)))
    | inr later ↦ rw (later, first, later) (first-remove_child_self c ns h)
  ]

  pub first-remove_child_ne :
      (c d : ℕ) (ns : Nodes V) → c ≢ d → first (remove_child c ns) d ≡ first ns d
  unfolding first remove_child
  first-remove_child_ne c d nil h = refl
  first-remove_child_ne c d (cons m ns) h = ground (arith, first-remove_child_ne c d ns h)
