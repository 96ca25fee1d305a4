-- ===== src/Hashtable/Removal.antt =====
-- A key that is put and then deleted.
use mqttbroker.Base.{
  ℕ, zero, suc, ◌-◌, ◌≡◌, refl, inl, inr, true, false, none, some, List, Returns, ◌==◌, Bool-cases,
}
use mqttbroker.Hashtable.{
  Entry, vacant, taken, HashTable, hashtable_hash_int, next_index, hashtable_hash, write_entry,
  set_entry, hashtable_put, matches, find_index, hashtable_get, hashtable_del,
}
use mqttbroker.Hashtable.Invariant.{IsTable, hashtable_hash-InRange, hash_int-InRange, put_found}
use mqttbroker.Hashtable.Lookup.{NoLonger, find-set_entry, same_start, del_found}

module _ {V : Type 0} where
  -- No key of the table starts with `key`.
  abbrev pub IsAbsent : HashTable V → List ℕ → Type 0
  IsAbsent table key = (i : ℕ) → matches key (table.entries i) ≡ false

  pub IsAbsent-NoLonger :
      (table : HashTable V) (key : List ℕ) → IsAbsent table key → NoLonger table key
  IsAbsent-NoLonger table key absent i k val e s =
      let no : matches key (table.entries i) ≡ false = absent i in
      let yes : matches key (table.entries i) ≡ true = rw e s in absurd (cc (no, yes))

  find-IsAbsent :
      (n : ℕ) (table : HashTable V) (key : List ℕ) (curr : ℕ)
      → IsAbsent table key
      → find_index n table key curr ≡ none
  unfolding find_index
  find-IsAbsent zero table key curr absent = refl
  find-IsAbsent (suc n) table key curr absent =
      rw (absent curr) (find-IsAbsent n table key (next_index table curr) absent)

  pub get-IsAbsent :
      (table : HashTable V) (key : List ℕ) → IsAbsent table key → hashtable_get table key ≡ none
  unfolding hashtable_get
  get-IsAbsent table key absent =
      rw (find-IsAbsent 8 table key (hashtable_hash_int table key) absent, hashtable_get)

  taken_back :
      (entries : ℕ → Entry V) (index : ℕ) (key : List ℕ) (val : V)
      → ((i : ℕ) → matches key (entries i) ≡ false)
      → (i : ℕ)
      → matches key (write_entry (write_entry entries index (taken key val)) index vacant i) ≡ false
  taken_back entries index key val absent i = elim (Bool-cases (index == i)) [
    | inl here ↦ rw here
    | inr other ↦ rw (other) (absent i)
  ]

  -- Where no key of the table starts with `key`, and the table has a place for it, `hashtable_put`
  -- returns; `hashtable_del` then finds the key, and after it no key of the table starts with `key`,
  -- so that `hashtable_get` gives nothing.
  pub hashtable_del-put :
      (fuel : ℕ) (table : HashTable V) (key : List ℕ) (val : V) (index : ℕ)
      → IsTable table
      → IsAbsent table key
      → hashtable_hash table key ≡ some index
      → Returns (hashtable_put (suc fuel) table key val) λ table'.
        ((hashtable_del table' key).1 ≡ true)
        × IsAbsent (hashtable_del table' key).0 key
        × (hashtable_get (hashtable_del table' key).0 key ≡ none)
  hashtable_del-put fuel table key val index t absent e =
      let (_, _, p) = hashtable_hash-InRange table key index t.nonempty e in
      let start = hashtable_hash_int table key in
      let found =
        find-set_entry 8 table key val start index t.nonempty
          (hash_int-InRange table key t.nonempty) (IsAbsent-NoLonger table key absent) p in
      let put = set_entry table index key val in
      let gone : HashTable V = record {
        table_size = put.table_size;
        size = put.size - 1;
        entries = write_entry put.entries index vacant;
      } in
      let deleted : hashtable_del put key ≡ (gone, true) =
        del_found put key index (rw (same_start table index key key val) found) in
      let none_left : IsAbsent gone key =
        unfold set_entry in taken_back table.entries index key val absent in
      (
        put,
        put_found fuel table key val index e,
        (rw deleted, rw deleted none_left, rw deleted (get-IsAbsent gone key none_left)),
      )
