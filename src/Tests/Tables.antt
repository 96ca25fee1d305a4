-- ===== src/Tests/Tables.antt =====
-- Tables of hashtable.c.
use mqttbroker.Base.{
  ℕ, ◌≡◌, refl, true, some, List, [], ◌∷◌, arith, ok, Returns, ◌==◌, if◌then◌else◌,
}
use mqttbroker.Hashtable.Hash.{crc32, mix}
use mqttbroker.Hashtable.{
  hashtable_create, vacant, taken, HashTable, hashtable_hash_int, hashtable_hash, hashtable_put,
  hashtable_get, hashtable_del, next_index, probe, set_entry,
}
use mqttbroker.Hashtable.Invariant.{IsTable}
use mqttbroker.Hashtable.Lookup.{hashtable_get-put, operations_keep_tables}
use mqttbroker.Hashtable.Stale.{hashtable_del-put_stale}

abbrev empty : HashTable ℕ
empty = record { table_size = 4; size = 0; entries = λ i. vacant }

empty-IsTable : IsTable empty
empty-IsTable = record { nonempty = omega arith; counted = refl }

abbrev client : List ℕ
client = b'c' ∷ b'1' ∷ []

client_index : hashtable_hash_int empty client ≡ 3
unfolding hashtable_hash_int crc32 mix
client_index = refl

client_place : hashtable_hash empty client ≡ some 3
unfolding hashtable_hash hashtable_hash_int crc32 mix probe
client_place = refl

hashtable_get-put_example :
    Returns (hashtable_put 1 empty client 8) λ table'. hashtable_get table' client ≡ some 8
hashtable_get-put_example =
    hashtable_get-put 0 empty client 8 3 empty-IsTable (λ i k val e s. absurd (cc)) client_place

-- The table after that.
abbrev one_client : HashTable ℕ
one_client = record {
  table_size = 4;
  size = 1;
  entries = λ i. if 3 == i then taken client 8 else vacant;
}

client_stored : hashtable_put 1 empty client 8 ≡ ok one_client
unfolding hashtable_put hashtable_hash hashtable_hash_int crc32 mix probe set_entry
client_stored = refl

operations_keep_tables_example :
    IsTable (hashtable_create {V = ℕ}) × IsTable one_client × IsTable (hashtable_del empty client).0
operations_keep_tables_example =
    operations_keep_tables 1 empty one_client client client 8 empty-IsTable client_stored

-- The client stands behind its place, which another key has left.
abbrev displaced : HashTable ℕ
displaced = record {
  table_size = 4;
  size = 1;
  entries = λ i. if 0 == i then taken client 5 else vacant;
}

displaced_place :
    (displaced.entries (hashtable_hash_int displaced client) ≡ vacant)
    × (displaced.entries (next_index displaced (hashtable_hash_int displaced client))
        ≡ taken client 5)
unfolding hashtable_hash_int crc32 mix
displaced_place = (refl, refl)

hashtable_del-put_stale_example : Returns (hashtable_put 1 displaced client 8) λ table'.
    ((hashtable_del table' client).1 ≡ true)
    × (hashtable_get (hashtable_del table' client).0 client ≡ some 5)
hashtable_del-put_stale_example =
    hashtable_del-put_stale 0 displaced client 5 8 (omega arith) (omega arith) displaced_place.0
      displaced_place.1
