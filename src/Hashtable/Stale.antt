-- ===== src/Hashtable/Stale.antt =====
-- A chain with a free entry in it: what a put and a deletion of a key behind it leave.
use mqttbroker.Base.{
  ℕ, suc, ◌+◌, ◌-◌, ◌/◌, ◌%◌, ◌≤◌, ◌<◌, ◌≡◌, refl, ◌∙◌, ◌≢◌, true, false, some, List, arith,
  Returns, length, leb, ◌==◌,
}
use native.Mathlib.Nat.{mod-eq_of_lt, mod_self}
use native.Mathlib.Decide.{dec_lt}
use mqttbroker.Hashtable.Hash.{streq_self}
use mqttbroker.Hashtable.{
  vacant, taken, HashTable, hashtable_hash_int, next_index, probe, hashtable_hash, write_entry,
  set_entry, hashtable_put, matches, find_index, value_of, hashtable_get, hashtable_del,
}
use mqttbroker.Hashtable.Invariant.{hash_int-InRange, put_found}
use mqttbroker.Hashtable.Lookup.{same_start, get_found, del_found}

next_other : (curr n : ℕ) → 2 ≤ n → curr < n → curr ≢ (curr + 1) % n
next_other curr n two lt e = elim (dec_lt (curr + 1) n) [
  | yes p ↦ let q : (curr + 1) % n ≡ curr + 1 = mod-eq_of_lt p in absurd (omega (arith, q, e))
  | no p ↦
      let top : n ≡ curr + 1 = omega arith in
      let q : (curr + 1) % n ≡ 0 = rw (top) (mod_self (curr + 1)) in absurd (omega (arith, q, e))
]

module _ {V : Type 0} where
  hash_free :
      (table : HashTable V) (key : List ℕ)
      → table.size < table.table_size / 2
      → table.entries (hashtable_hash_int table key) ≡ vacant
      → hashtable_hash table key ≡ some (hashtable_hash_int table key)
  unfolding hashtable_hash probe
  hash_free table key room free =
      let has_room : leb (table.table_size / 2) table.size ≡ false = ground arith in
      rw (has_room, free)

  find_first :
      (n : ℕ) (table : HashTable V) (key : List ℕ) (curr : ℕ)
      → matches key (table.entries curr) ≡ true
      → find_index (suc n) table key curr ≡ some curr
  unfolding find_index
  find_first n table key curr h = rw h

  find_second :
      (n : ℕ) (table : HashTable V) (key : List ℕ) (curr : ℕ)
      → matches key (table.entries curr) ≡ false
      → matches key (table.entries (next_index table curr)) ≡ true
      → find_index (suc (suc n)) table key curr ≡ some (next_index table curr)
  unfolding find_index
  find_second n table key curr h k = rw (h, k)

  -- A key that stands behind a free entry of its chain: `hashtable_put` stores it a second time, in
  -- the free entry, and `hashtable_del` then takes away this copy only, so that `hashtable_get`
  -- still gives the older value.
  pub hashtable_del-put_stale :
      (fuel : ℕ) (table : HashTable V) (key : List ℕ) (old val : V)
      → 2 ≤ table.table_size
      → table.size < table.table_size / 2
      → table.entries (hashtable_hash_int table key) ≡ vacant
      → table.entries (next_index table (hashtable_hash_int table key)) ≡ taken key old
      → Returns (hashtable_put (suc fuel) table key val) λ table'.
        ((hashtable_del table' key).1 ≡ true)
        × (hashtable_get (hashtable_del table' key).0 key ≡ some old)
  hashtable_del-put_stale fuel table key old val two room free behind =
      let h = hashtable_hash_int table key in
      let h' = next_index table h in
      let put = set_entry table h key val in
      let ne = next_other h table.table_size two (hash_int-InRange table key (omega arith)) in
      let other : (h == h') ≡ false = ground (arith, ne) in
      let same : (h == h) ≡ true = ground arith in
      let self = streq_self key (length key) in
      let at_put : find_index 8 put key (hashtable_hash_int put key) ≡ some h =
        rw (same_start table h key key val)
          (find_first 7 put key h (unfold set_entry in rw (same, self))) in
      let gone : HashTable V = record {
        table_size = put.table_size;
        size = put.size - 1;
        entries = write_entry put.entries h vacant;
      } in
      let deleted : hashtable_del put key ≡ (gone, true) = del_found put key h at_put in
      let start : hashtable_hash_int gone key ≡ h = unfold set_entry hashtable_hash_int in refl in
      let second : find_index 8 gone key (hashtable_hash_int gone key) ≡ some h' =
        rw start
          (unfold set_entry in find_second 6 gone key h (rw same) (rw (other, behind, self))) in
      let value : value_of (gone.entries h') ≡ some old = unfold set_entry in rw (other, behind) in
      (
        put,
        put_found fuel table key val h (hash_free table key room free),
        (rw deleted, rw deleted (get_found gone key h' second ∙ value)),
      )
