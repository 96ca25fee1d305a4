-- ===== src/Hashtable.antt =====
-- sol/src/hashtable.c: a map from C strings to pointers, with open addressing and at most
-- `MAX_CHAIN_LENGTH` probes. The memory of the entries is a function of the index; that no index
-- leaves the table is a theorem. `calloc` gives the memory asked for: at 24 bytes for an entry a
-- doubled `table_size` does not wrap around.
pub mod Hash
pub mod Invariant
pub mod Lookup
pub mod Stale
pub mod Removal
use mqttbroker.Base.{
  ℕ, zero, suc, ◌+◌, ◌-◌, ◌*◌, ◌/◌, ◌%◌, Bool, true, false, Option, none, some, List, out_of_fuel,
  Run, ok, fault, ◌>>=◌, length, leb, ◌==◌, if◌then◌else◌,
}
use mqttbroker.Hashtable.Hash.{crc32, mix, streq}

-- struct hashtable_entry: `key` and `val` are read where `taken` is true only.
pub data Entry (V : Type 0) : Type 0 where
  vacant : Entry V
  taken : List ℕ → V → Entry V

-- struct hashtable; `destructor` frees, and is no part of the state.
pub record HashTable (V : Type 0) : Type 0 where
  pub table_size : ℕ
  pub size : ℕ
  pub entries : ℕ → Entry V

abbrev pub initial_size : ℕ
initial_size = 4

abbrev pub max_chain_length : ℕ
max_chain_length = 8

module _ {V : Type 0} where
  unfoldable pub hashtable_create : HashTable V
  hashtable_create = record { table_size = initial_size; size = 0; entries = λ i. vacant }

  unfoldable pub hashtable_size : HashTable V → ℕ
  hashtable_size table = table.size

  unfoldable pub hashtable_hash_int : HashTable V → List ℕ → ℕ
  hashtable_hash_int table key = mix (crc32 key) % table.table_size

  -- `curr = (curr + 1) % table->table_size`
  abbrev pub next_index : HashTable V → ℕ → ℕ
  next_index table curr = (curr + 1) % table.table_size

  -- Whether `hashtable_hash` stops at an entry: it is free, or its key is `key` as far as it goes.
  abbrev pub stops_at : List ℕ → Entry V → Bool
  stops_at key vacant = true
  stops_at key (taken k val) = streq k key (length k)

  -- The probes of `hashtable_hash` that are left; `none` is `-HASHTABLE_FULL`.
  unfoldable pub probe : ℕ → HashTable V → List ℕ → ℕ → Option ℕ
  probe zero table key curr = none
  probe (suc n) table key curr =
      let later = probe n table key (next_index table curr) in
      if stops_at key (table.entries curr) then some curr else later

  unfoldable pub hashtable_hash : HashTable V → List ℕ → Option ℕ
  unfolding probe hashtable_hash_int
  hashtable_hash table key =
      if leb (table.table_size / 2) table.size
      then none
      else probe max_chain_length table key (hashtable_hash_int table key)

  -- A write to one entry.
  abbrev pub write_entry : (ℕ → Entry V) → ℕ → Entry V → ℕ → Entry V
  write_entry entries index entry i = if index == i then entry else entries i

  -- `taken` is set, and `size` counted up, if it was false.
  abbrev pub count_entry : Entry V → ℕ → ℕ
  count_entry vacant size = size + 1
  count_entry (taken k val) size = size

  -- The end of `hashtable_put`, with the index found.
  unfoldable pub set_entry : HashTable V → ℕ → List ℕ → V → HashTable V
  set_entry table index key val = record {
    table_size = table.table_size;
    size = count_entry (table.entries index) table.size;
    entries = write_entry table.entries index (taken key val);
  }

  -- One round of the loop of `hashtable_rehash`.
  abbrev pub put_entry :
      (HashTable V → List ℕ → V → Run (HashTable V)) → Entry V → HashTable V → Run (HashTable V)
  put_entry put vacant table = ok table
  put_entry put (taken key val) table = put table key val

  -- The entries `i …` of the old array, of which `n` are left, go into the new table.
  unfoldable pub rehash_loop :
      (HashTable V → List ℕ → V → Run (HashTable V))
      → (ℕ → Entry V)
      → ℕ
      → ℕ
      → HashTable V
      → Run (HashTable V)
  rehash_loop put curr zero i table = ok table
  rehash_loop put curr (suc n) i table = do
    table' ← put_entry put (curr i) table
    rehash_loop put curr n (suc i) table'

  -- `hashtable_rehash` and `hashtable_put` call each other; `put` is the latter.
  unfoldable pub hashtable_rehash :
      (HashTable V → List ℕ → V → Run (HashTable V)) → HashTable V → Run (HashTable V)
  unfolding rehash_loop
  hashtable_rehash put table =
      rehash_loop put table.entries table.table_size 0
        (record { table_size = 2 * table.table_size; size = 0; entries = λ i. vacant })

  -- The `while` loop around `hashtable_hash` and the rehashing, on fuel.
  unfoldable pub hashtable_put : ℕ → HashTable V → List ℕ → V → Run (HashTable V)
  unfolding hashtable_hash hashtable_rehash set_entry
  hashtable_put zero table key val = fault out_of_fuel
  hashtable_put (suc fuel) table key val = elim (hashtable_hash table key) [
    | some index ↦ ok (set_entry table index key val)
    | none ↦
        hashtable_rehash (hashtable_put fuel) table >>= λ table'. hashtable_put fuel table' key val
  ]

  -- Whether `hashtable_get` and `hashtable_del` take an entry for `key`: its key starts with it.
  abbrev pub matches : List ℕ → Entry V → Bool
  matches key vacant = false
  matches key (taken k val) = streq k key (length key)

  -- The index of the first match in the probes left.
  unfoldable pub find_index : ℕ → HashTable V → List ℕ → ℕ → Option ℕ
  find_index zero table key curr = none
  find_index (suc n) table key curr =
      let later = find_index n table key (next_index table curr) in
      if matches key (table.entries curr) then some curr else later

  abbrev pub value_of : Entry V → Option V
  value_of vacant = none
  value_of (taken k val) = some val

  unfoldable pub hashtable_get : HashTable V → List ℕ → Option V
  unfolding find_index hashtable_hash_int
  hashtable_get table key =
      elim (find_index max_chain_length table key (hashtable_hash_int table key)) [
        | none ↦ none
        | some index ↦ value_of (table.entries index)
      ]

  unfoldable pub hashtable_exists : HashTable V → List ℕ → Bool
  unfolding hashtable_get
  hashtable_exists table key = elim (hashtable_get table key) [ none ↦ false | some val ↦ true ]

  -- The table, and whether the result is `HASHTABLE_OK`.
  unfoldable pub hashtable_del : HashTable V → List ℕ → HashTable V × Bool
  unfolding find_index hashtable_hash_int
  hashtable_del table key =
      elim (find_index max_chain_length table key (hashtable_hash_int table key)) [
        | none ↦ (table, false)
        | some index ↦ (
          record {
            table_size = table.table_size;
            size = table.size - 1;
            entries = write_entry table.entries index vacant;
          },
          true,
        )
      ]
