-- ===== src/Hashtable/Invariant.antt =====
-- The invariant of the table: `size` is the number of entries taken, and every index that a probe
-- ends at lies in the table.
use mqttbroker.Base.{
  ℕ, zero, suc, ◌+◌, ◌*◌, ◌/◌, ◌≤◌, ◌<◌, ◌≡◌, refl, sym, ◌∙◌, ◌≢◌, inl, inr, true, false, none,
  some, List, arith, Run, ok, ◌>>=◌, >>=-eq-ok, leb, ◌==◌, Bool-cases, Option-cases,
}
use native.Mathlib.Nat.{mod-lt}
use mathlib.Core.Path.{subst}
use mqttbroker.Hashtable.{
  Entry, vacant, taken, HashTable, hashtable_create, hashtable_hash_int, next_index, stops_at,
  probe, hashtable_hash, write_entry, count_entry, set_entry, put_entry, rehash_loop,
  hashtable_rehash, hashtable_put, max_chain_length,
}

module _ {V : Type 0} where
  abbrev pub weight : Entry V → ℕ
  weight vacant = 0
  weight (taken k val) = 1

  -- The entries taken among the first `n`.
  abbrev pub count : (ℕ → Entry V) → ℕ → ℕ
  count entries zero = 0
  count entries (suc n) = weight (entries n) + count entries n

  pub record IsTable (table : HashTable V) : Type 0 where
    pub nonempty : 0 < table.table_size
    pub counted : table.size ≡ count table.entries table.table_size

  count_vacant :
      (entries : ℕ → Entry V) (n : ℕ) → ((i : ℕ) → entries i ≡ vacant) → count entries n ≡ 0
  count_vacant entries zero h = refl
  count_vacant entries (suc n) h =
      let free : weight (entries n) ≡ 0 = rw (h n) in omega (arith, count_vacant entries n h)

  -- A write behind the entries counted does not change the count.
  count-write_beyond :
      (entries : ℕ → Entry V) (index n : ℕ) (entry : Entry V)
      → n ≤ index
      → count (write_entry entries index entry) n ≡ count entries n
  count-write_beyond entries index zero entry h = refl
  count-write_beyond entries index (suc n) entry h =
      let other : (index == n) ≡ false = ground arith in
      rw (other, count-write_beyond entries index n entry (omega arith))

  pub count-write_entry :
      (entries : ℕ → Entry V) (index n : ℕ) (entry : Entry V)
      → index < n
      → count (write_entry entries index entry) n + weight (entries index)
        ≡ count entries n + weight entry
  count-write_entry entries index zero entry h = absurd (omega arith)
  count-write_entry entries index (suc n) entry h = elim (Bool-cases (index == n)) [
    | inl here ↦
        let e : index ≡ n = ground (arith, here) in
        let beyond = count-write_beyond entries index n entry (omega arith) in
        rw (here, beyond, e) (omega arith)
    | inr other ↦
        let ne : index ≢ n = ground (arith, other) in
        rw other (omega (arith, ne, count-write_entry entries index n entry))
  ]

  pub hashtable_create-IsTable : IsTable hashtable_create
  unfolding hashtable_create
  hashtable_create-IsTable = record { nonempty = omega arith; counted = refl }

  pub hash_int-InRange :
      (table : HashTable V) (key : List ℕ)
      → 0 < table.table_size
      → hashtable_hash_int table key < table.table_size
  unfolding hashtable_hash_int
  hash_int-InRange table key h = mod-lt _ h

  pub probe-InRange :
      (n : ℕ) (table : HashTable V) (key : List ℕ) (curr index : ℕ)
      → 0 < table.table_size
      → curr < table.table_size
      → probe n table key curr ≡ some index
      → (index < table.table_size) × (stops_at key (table.entries index) ≡ true)
  unfolding probe
  probe-InRange zero table key curr index h lt e = absurd (cc)
  probe-InRange (suc n) table key curr index h lt e =
      elim (Bool-cases (stops_at key (table.entries curr))) [
        | inl stop ↦
            let got : some curr ≡ some index = rw stop at e in
            let same : curr ≡ index = cc in rw (← same) (lt, stop)
        | inr go ↦
            probe-InRange n table key (next_index table curr) index h (mod-lt _ h) (rw go at e)
      ]

  pub hashtable_hash-InRange :
      (table : HashTable V) (key : List ℕ) (index : ℕ)
      → 0 < table.table_size
      → hashtable_hash table key ≡ some index
      → (index < table.table_size)
        × (table.size < table.table_size / 2)
        × (probe max_chain_length table key (hashtable_hash_int table key) ≡ some index)
  unfolding hashtable_hash
  hashtable_hash-InRange table key index h e =
      elim (Bool-cases (leb (table.table_size / 2) table.size)) [
        | inl full ↦ let bad : none ≡ some index = rw full at e in absurd (cc)
        | inr room ↦
            let found = rw room at e in
            (
              (probe-InRange 8 table key _ index h (hash_int-InRange table key h) found).0,
              ground (arith, room),
              found,
            )
      ]

  set_entry-IsTable :
      (table : HashTable V) (index : ℕ) (key : List ℕ) (val : V)
      → IsTable table
      → index < table.table_size
      → IsTable (set_entry table index key val)
  unfolding set_entry
  set_entry-IsTable table index key val t h = record {
    nonempty = t.nonempty;
    counted = counted (table.entries index) refl;
  }
    where
      counted :
          (e : Entry V)
          → table.entries index ≡ e
          → count_entry e table.size
            ≡ count (write_entry table.entries index (taken key val)) table.table_size
      counted vacant e =
          let old : weight (table.entries index) ≡ 0 = rw e in
          omega (
            arith,
            t.counted,
            count-write_entry table.entries index table.table_size (taken key val) h,
          )
      counted (taken k v) e =
          let old : weight (table.entries index) ≡ 1 = rw e in
          omega (
            arith,
            t.counted,
            count-write_entry table.entries index table.table_size (taken key val) h,
          )

  -- A function that puts keeps the invariant where it returns.
  abbrev Keeps : (HashTable V → List ℕ → V → Run (HashTable V)) → Type 0
  Keeps put =
      (table table' : HashTable V) (key : List ℕ) (val : V)
      → IsTable table
      → put table key val ≡ ok table'
      → IsTable table'

  put_entry-IsTable :
      (put : HashTable V → List ℕ → V → Run (HashTable V)) (e : Entry V)
      (table table' : HashTable V)
      → Keeps put
      → IsTable table
      → put_entry put e table ≡ ok table'
      → IsTable table'
  put_entry-IsTable put vacant table table' keeps t h =
      let same : table ≡ table' = cc in subst IsTable same t
  put_entry-IsTable put (taken key val) table table' keeps t h = keeps table table' key val t h

  rehash_loop-IsTable :
      (put : HashTable V → List ℕ → V → Run (HashTable V)) (curr : ℕ → Entry V) (n i : ℕ)
      (table table' : HashTable V)
      → Keeps put
      → IsTable table
      → rehash_loop put curr n i table ≡ ok table'
      → IsTable table'
  unfolding rehash_loop
  rehash_loop-IsTable put curr zero i table table' keeps t h =
      let same : table ≡ table' = cc in subst IsTable same t
  rehash_loop-IsTable put curr (suc n) i table table' keeps t h =
      let (mid, e, rest) = >>=-eq-ok (put_entry put (curr i) table) _ h in
      rehash_loop-IsTable put curr n (suc i) mid table' keeps
        (put_entry-IsTable put (curr i) table mid keeps t e) rest

  rehash-IsTable :
      (put : HashTable V → List ℕ → V → Run (HashTable V)) (table table' : HashTable V)
      → Keeps put
      → IsTable table
      → hashtable_rehash put table ≡ ok table'
      → IsTable table'
  unfolding hashtable_rehash
  rehash-IsTable put table table' keeps t h =
      let empty : IsTable
          (record { table_size = 2 * table.table_size; size = 0; entries = λ i. vacant }) =
        record {
          nonempty = omega (arith, t.nonempty);
          counted = sym (count_vacant _ (2 * table.table_size) (λ i. refl));
        } in
      rehash_loop-IsTable put table.entries table.table_size 0 _ table' keeps empty h

  -- One round of the loop of `hashtable_put`.
  pub put_found :
      (fuel : ℕ) (table : HashTable V) (key : List ℕ) (val : V) (index : ℕ)
      → hashtable_hash table key ≡ some index
      → hashtable_put (suc fuel) table key val ≡ ok (set_entry table index key val)
  unfolding hashtable_put
  put_found fuel table key val index e = rw (e, hashtable_put)

  put_full :
      (fuel : ℕ) (table : HashTable V) (key : List ℕ) (val : V)
      → hashtable_hash table key ≡ none
      → hashtable_put (suc fuel) table key val
        ≡ (hashtable_rehash (hashtable_put fuel) table >>= λ mid. hashtable_put fuel mid key val)
  unfolding hashtable_put
  put_full fuel table key val e = rw (e, hashtable_put)

  -- `hashtable_put` keeps `size` the number of the entries taken, and the table not empty, through any
  -- number of rehashings: whenever it returns from a table for which this holds, it holds again.
  pub hashtable_put-IsTable :
      (fuel : ℕ) (table table' : HashTable V) (key : List ℕ) (val : V)
      → IsTable table
      → hashtable_put fuel table key val ≡ ok table'
      → IsTable table'
  hashtable_put-IsTable zero table table' key val t h = unfold hashtable_put in absurd (cc)
  hashtable_put-IsTable (suc fuel) table table' key val t h =
      elim (Option-cases (hashtable_hash table key)) [
        | inr (index, e) ↦
            let same : set_entry table index key val ≡ table' =
              cc (sym (put_found fuel table key val index e) ∙ h) in
            subst IsTable same (
              set_entry-IsTable table index key val t
                (hashtable_hash-InRange table key index t.nonempty e).0)
        | inl e ↦
            let again = sym (put_full fuel table key val e) ∙ h in
            let (mid, r, rest) = >>=-eq-ok (hashtable_rehash (hashtable_put fuel) table) _ again in
            hashtable_put-IsTable fuel mid table' key val
              (rehash-IsTable (hashtable_put fuel) table mid (hashtable_put-IsTable fuel) t r) rest
      ]
