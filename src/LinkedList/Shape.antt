-- ===== src/LinkedList/Shape.antt =====
-- What memory holds where a list of sol/src/list.c is well formed.
use mqttbroker.Base.{
  ℕ, ◌+◌, ◌<◌, ◌≡◌, refl, sym, ◌≢◌, true, false, Option, none, some, List, [], ◌∷◌, ◌++◌, arith, ok,
  length, All, ◌==◌,
}
use mqttbroker.LinkedList.{Cell, Heap, LinkedList, put, load, set_next}

module _ {V : Type 0} where
  -- The nodes of a list, in order, are their addresses with their values.
  abbrev pub first_of : List (ℕ × V) → Option ℕ
  first_of [] = none
  first_of ((a, v) ∷ ns) = some a

  abbrev pub last_of : List (ℕ × V) → Option ℕ
  last_of [] = none
  last_of ((a, v) ∷ []) = some a
  last_of ((a, v) ∷ (n ∷ ns)) = last_of (n ∷ ns)

  -- From the first node on the pointers lead through the nodes, to `end`.
  abbrev pub Leads : (ℕ → Option (Cell V)) → Option ℕ → List (ℕ × V) → Type 0
  Leads cells end [] = Unit
  Leads cells end ((a, v) ∷ []) = cells a ≡ some (record { value = v; next = end })
  Leads cells end ((a, v) ∷ (n ∷ ns)) =
      (cells a ≡ some (record { value = v; next = some n.0 })) × Leads cells end (n ∷ ns)

  -- The address is none of the nodes'.
  abbrev pub Avoids : ℕ → List (ℕ × V) → Type 0
  Avoids a = All (λ n. n.0 ≢ a)

  abbrev pub Below : ℕ → List (ℕ × V) → Type 0
  Below bound = All (λ n. n.0 < bound)

  abbrev pub IsDistinct : List (ℕ × V) → Type 0
  IsDistinct [] = Unit
  IsDistinct ((a, v) ∷ ns) = Avoids a ns × IsDistinct ns

  pub record IsList (l : LinkedList) (h : Heap V) (ns : List (ℕ × V)) : Type 0 where
    pub leads : Leads h.cells none ns
    pub distinct : IsDistinct ns
    pub below : Below h.fresh ns
    pub head : l.head ≡ first_of ns
    pub tail : l.tail ≡ last_of ns
    pub len : l.len ≡ length ns

  pub set_next_there :
      (h : Heap V) (a : ℕ) (c : Cell V) (next : Option ℕ)
      → h.cells a ≡ some c
      → set_next h (some a) next
        ≡ ok (record {
          cells = put a (some (record { value = c.value; next = next })) h.cells;
          fresh = h.fresh;
        })
  unfolding set_next load
  set_next_there h a c next e = rw e refl

  -- A write elsewhere changes no pointer of the list.
  pub Leads-put :
      (cells : ℕ → Option (Cell V)) (end : Option ℕ) (a : ℕ) (c : Option (Cell V))
      (ns : List (ℕ × V))
      → Avoids a ns
      → Leads cells end ns
      → Leads (put a c cells) end ns
  Leads-put cells end a c [] h l = tt
  Leads-put cells end a c ((b, v) ∷ []) (ne, h) l =
      let other : (a == b) ≡ false = ground (arith, ne) in rw other l
  Leads-put cells end a c ((b, v) ∷ (n ∷ ns)) (ne, h) (here, later) =
      let other : (a == b) ≡ false = ground (arith, ne) in
      (rw other here, Leads-put cells end a c (n ∷ ns) h later)

  pub Below-Avoids : (bound : ℕ) (ns : List (ℕ × V)) → Below bound ns → Avoids bound ns
  Below-Avoids bound [] h = tt
  Below-Avoids bound (n ∷ ns) (lt, h) = (λ e. absurd (omega arith), Below-Avoids bound ns h)

  pub Below-suc : (bound : ℕ) (ns : List (ℕ × V)) → Below bound ns → Below (bound + 1) ns
  Below-suc bound [] h = tt
  Below-suc bound (n ∷ ns) (lt, h) = (omega arith, Below-suc bound ns h)

  Avoids-concat :
      (a : ℕ) (ns : List (ℕ × V)) (b : ℕ) (v : V)
      → Avoids a ns
      → b ≢ a
      → Avoids a (ns ++ ((b, v) ∷ []))
  Avoids-concat a [] b v h ne = (ne, tt)
  Avoids-concat a (n ∷ ns) b v (here, h) ne = (here, Avoids-concat a ns b v h ne)

  -- A new node behind the others.
  pub Below-concat :
      (bound : ℕ) (ns : List (ℕ × V)) (v : V)
      → Below bound ns
      → Below (bound + 1) (ns ++ ((bound, v) ∷ []))
  Below-concat bound [] v h = (omega arith, tt)
  Below-concat bound (n ∷ ns) v (lt, h) = (omega arith, Below-concat bound ns v h)

  pub last_of-concat : (ns : List (ℕ × V)) (a : ℕ) (v : V) → last_of (ns ++ ((a, v) ∷ [])) ≡ some a
  last_of-concat [] a v = refl
  last_of-concat (n ∷ []) a v = refl
  last_of-concat (n ∷ (m ∷ ns)) a v = last_of-concat (m ∷ ns) a v

  pub first_of-concat :
      (n : ℕ × V) (ns tail : List (ℕ × V)) → first_of ((n ∷ ns) ++ tail) ≡ some n.0
  first_of-concat n ns tail = refl

  pub Leads-concat :
      (cells : ℕ → Option (Cell V)) (ns : List (ℕ × V)) (a : ℕ) (v : V)
      → Leads cells (some a) ns
      → cells a ≡ some (record { value = v; next = none })
      → Leads cells none (ns ++ ((a, v) ∷ []))
  Leads-concat cells [] a v l e = e
  Leads-concat cells (n ∷ []) a v l e = (l, e)
  Leads-concat cells (n ∷ (m ∷ ns)) a v (here, later) e =
      (here, Leads-concat cells (m ∷ ns) a v later e)

  -- The last node of a list that is not empty, and a write of its pointer.
  pub record Last (cells : ℕ → Option (Cell V)) (ns : List (ℕ × V)) : Type 0 where
    pub address : ℕ
    pub value : V
    pub is_last : last_of ns ≡ some address
    pub cell : cells address ≡ some (record { value = value; next = none })
    pub among : (b : ℕ) → Avoids b ns → b ≢ address
    pub relinked :
        (end : Option ℕ)
        → Leads (put address (some (record { value = value; next = end })) cells) end ns

  pub Leads-Last :
      (cells : ℕ → Option (Cell V)) (n : ℕ × V) (ns : List (ℕ × V))
      → Leads cells none (n ∷ ns)
      → IsDistinct (n ∷ ns)
      → Last cells (n ∷ ns)
  Leads-Last cells (a, v) [] l d = record {
    address = a;
    value = v;
    is_last = refl;
    cell = l;
    among = λ b h e. h.0 (sym e);
    relinked = λ end. let same : (a == a) ≡ true = ground arith in rw same refl;
  }
  Leads-Last cells (a, v) (m ∷ ns) (here, later) (av, d) =
      let r = Leads-Last cells m ns later d in
      let apart : (r.address == a) ≡ false = ground (arith, r.among a av) in
      record {
        address = r.address;
        value = r.value;
        is_last = r.is_last;
        cell = r.cell;
        among = λ b h. r.among b h.1;
        relinked = λ end. (rw apart here, r.relinked end);
      }

  pub Below-distinct :
      (bound : ℕ) (ns : List (ℕ × V)) (v : V)
      → Below bound ns
      → IsDistinct ns
      → IsDistinct (ns ++ ((bound, v) ∷ []))
  Below-distinct bound [] v b d = (tt, tt)
  Below-distinct bound ((a, u) ∷ ns) v (lt, b) (av, d) =
      (Avoids-concat a ns bound v av (λ e. absurd (omega arith)), Below-distinct bound ns v b d)
