-- ===== src/Hashtable/Lookup.antt =====
-- What `hashtable_get` and `hashtable_del` find after `hashtable_put`.
use mqttbroker.Base.{
  ℕ, zero, suc, ◌-◌, ◌<◌, ◌≡◌, refl, ap, ◌∙◌, ◌≢◌, inl, inr, true, false, some, List, arith,
  Returns, ok, length, ◌==◌, Bool-cases, Option-cases,
}
use native.Mathlib.Nat.{mod-lt}
use mqttbroker.Hashtable.Hash.{streq, streq_self}
use mqttbroker.Hashtable.{
  Entry, vacant, taken, HashTable, hashtable_hash_int, next_index, stops_at, probe, hashtable_hash,
  write_entry, set_entry, hashtable_put, matches, find_index, value_of, hashtable_get,
  hashtable_del, max_chain_length, hashtable_create,
}
use mqttbroker.Hashtable.Invariant.{
  IsTable, weight, count-write_entry, probe-InRange, hashtable_hash-InRange, hash_int-InRange,
  put_found, hashtable_put-IsTable, hashtable_create-IsTable,
}

module _ {V : Type 0} where
  -- A key of the table that starts with `key` is no longer than `key`.
  abbrev pub NoLonger : HashTable V → List ℕ → Type 0
  NoLonger table key =
      (i : ℕ) (k : List ℕ) (val : V)
      → table.entries i ≡ taken k val
      → streq k key (length key) ≡ true
      → streq k key (length k) ≡ true

  -- An entry that the put probes past is no match for the get.
  passed :
      (e : Entry V) (key : List ℕ)
      → ((k : List ℕ) (val : V)
          → e ≡ taken k val
          → streq k key (length key) ≡ true
          → streq k key (length k) ≡ true)
      → stops_at key e ≡ false
      → matches key e ≡ false
  passed vacant key h s = refl
  passed (taken k val) key h s = ground (arith, h k val refl)

  pub written :
      (entries : ℕ → Entry V) (index : ℕ) (e : Entry V) → write_entry entries index e index ≡ e
  written entries index e = let same : (index == index) ≡ true = ground arith in rw same

  pub find-set_entry :
      (n : ℕ) (table : HashTable V) (key : List ℕ) (val : V) (curr index : ℕ)
      → 0 < table.table_size
      → curr < table.table_size
      → NoLonger table key
      → probe n table key curr ≡ some index
      → find_index n (set_entry table index key val) key curr ≡ some index
  unfolding probe find_index set_entry
  find-set_entry zero table key val curr index pos lt code e = absurd (cc)
  find-set_entry (suc n) table key val curr index pos lt code e =
      elim (Bool-cases (stops_at key (table.entries curr))) [
        | inl stop ↦
            let got : some curr ≡ some index = rw stop at e in
            let same : curr ≡ index = cc in
            rw (same, written table.entries index (taken key val), streq_self key (length key))
        | inr go ↦
            let later : probe n table key (next_index table curr) ≡ some index = rw go at e in
            let (_, stop) =
              probe-InRange n table key (next_index table curr) index pos (mod-lt _ pos) later in
            let ne : index ≢ curr = λ q. absurd (cc (go, stop, ap table.entries q)) in
            let other : (index == curr) ≡ false = ground (arith, ne) in
            let no : matches key (table.entries curr) ≡ false =
              passed (table.entries curr) key (code curr) go in
            rw (other, no)
              (find-set_entry n table key val (next_index table curr) index pos (mod-lt _ pos) code
                later)
      ]

  pub same_start :
      (table : HashTable V) (index : ℕ) (key key' : List ℕ) (val : V)
      → hashtable_hash_int (set_entry table index key val) key' ≡ hashtable_hash_int table key'
  unfolding hashtable_hash_int set_entry
  same_start table index key key' val = refl

  module _ (table : HashTable V) (key : List ℕ) (index : ℕ) where
    pub get_found :
        find_index max_chain_length table key (hashtable_hash_int table key) ≡ some index
        → hashtable_get table key ≡ value_of (table.entries index)
    unfolding hashtable_get
    get_found e = rw (e, hashtable_get)

    pub del_found :
        find_index max_chain_length table key (hashtable_hash_int table key) ≡ some index
        → hashtable_del table key ≡ (
          record {
            table_size = table.table_size;
            size = table.size - 1;
            entries = write_entry table.entries index vacant;
          },
          true,
        )
    unfolding hashtable_del
    del_found e = rw (e, hashtable_del)

  -- Where the table has a place for `key`, and no key in it is longer and starts with `key`:
  -- `hashtable_put` returns, in its first round, and `hashtable_get` then gives the value.
  pub hashtable_get-put :
      (fuel : ℕ) (table : HashTable V) (key : List ℕ) (val : V) (index : ℕ)
      → IsTable table
      → NoLonger table key
      → hashtable_hash table key ≡ some index
      → Returns
          (hashtable_put (suc fuel) table key val)
          λ table'. hashtable_get table' key ≡ some val
  hashtable_get-put fuel table key val index t code e =
      let (_, _, p) = hashtable_hash-InRange table key index t.nonempty e in
      let start = hashtable_hash_int table key in
      let found =
        find-set_entry 8 table key val start index t.nonempty
          (hash_int-InRange table key t.nonempty) code p in
      (
        set_entry table index key val,
        put_found fuel table key val index e,
        get_found (set_entry table index key val) key index
              (rw (same_start table index key key val) found)
            ∙ at_index,
      )
    where
      at_index : value_of ((set_entry table index key val).entries index) ≡ some val
      at_index = unfold set_entry in rw (written table.entries index (taken key val))

  find-matches :
      (n : ℕ) (table : HashTable V) (key : List ℕ) (curr index : ℕ)
      → 0 < table.table_size
      → curr < table.table_size
      → find_index n table key curr ≡ some index
      → (index < table.table_size) × (matches key (table.entries index) ≡ true)
  unfolding find_index
  find-matches zero table key curr index h lt e = absurd (cc)
  find-matches (suc n) table key curr index h lt e =
      elim (Bool-cases (matches key (table.entries curr))) [
        | inl stop ↦
            let got : some curr ≡ some index = rw stop at e in
            let same : curr ≡ index = cc in rw (← same) (lt, stop)
        | inr go ↦
            find-matches n table key (next_index table curr) index h (mod-lt _ h) (rw go at e)
      ]

  matched_weight : (key : List ℕ) (e : Entry V) → matches key e ≡ true → weight e ≡ 1
  matched_weight key vacant h = absurd (cc)
  matched_weight key (taken k val) h = refl

  -- `hashtable_del` keeps `size` the number of the entries taken, whether it finds the key or not.
  pub hashtable_del-IsTable :
      (table : HashTable V) (key : List ℕ) → IsTable table → IsTable (hashtable_del table key).0
  hashtable_del-IsTable table key t =
      elim (Option-cases (find_index max_chain_length table key (hashtable_hash_int table key))) [
        | inl e ↦ unfold hashtable_del in rw (e, hashtable_del) t
        | inr (index, e) ↦
            let (lt, m) =
              find-matches 8 table key _ index t.nonempty (hash_int-InRange table key t.nonempty)
                e in
            rw (del_found table key index e) (record {
              nonempty = t.nonempty;
              counted = omega (
                arith,
                t.counted,
                matched_weight key (table.entries index) m,
                count-write_entry table.entries index table.table_size vacant lt,
              );
            })
      ]

  -- `size` is the number of the entries taken in a new table; when `hashtable_put` returns from such
  -- a table, after any number of rehashings, it is so again; and so it is after `hashtable_del`,
  -- whether it finds the key or not.
  pub operations_keep_tables :
      (fuel : ℕ) (table table' : HashTable V) (key other_key : List ℕ) (val : V)
      → IsTable table
      → hashtable_put fuel table key val ≡ ok table'
      → IsTable (hashtable_create {V = V})
        × IsTable table'
        × IsTable (hashtable_del table other_key).0
  operations_keep_tables fuel table table' key other_key val t e = (
    hashtable_create-IsTable,
    hashtable_put-IsTable fuel table table' key val t e,
    hashtable_del-IsTable table other_key t,
  )
