-- ===== src/Core.antt =====
-- sol/src/core.c: topics and their subscribers, in the trie of topics. A topic is reached through
-- the trie only, so the trie holds it by value.
use mqttbroker.Base.{ℕ, Bool, Option, List, [], ◌∷◌, if◌then◌else◌}
use mqttbroker.Trie.{Trie, trie_insert, trie_find, trie_delete}

-- struct sol_client; the topics of a session by name.
pub record SolClient : Type 0 where
  pub client_id : List ℕ
  pub fd : ℕ
  pub subscriptions : List (List ℕ)

-- struct subscriber
pub record Subscriber : Type 0 where
  pub qos : ℕ
  pub client : SolClient

-- struct topic
pub record Topic : Type 0 where
  pub name : List ℕ
  pub subscribers : List Subscriber

-- `topic_init` on new memory.
unfoldable pub topic_create : List ℕ → Topic
topic_create name = record { name = name; subscribers = [] }

-- The topic and the client; the subscriber comes first in the list.
unfoldable pub topic_add_subscriber : Topic → SolClient → ℕ → Bool → Topic × SolClient
topic_add_subscriber t client qos cleansession =
    let session : SolClient = record {
      client_id = client.client_id;
      fd = client.fd;
      subscriptions = t.name ∷ client.subscriptions;
    } in
    let client' = if cleansession then client else session in
    (
      record {
        name = t.name;
        subscribers = record { qos = qos; client = client' } ∷ t.subscribers;
      },
      client',
    )

unfoldable pub sol_topic_put : Trie Topic → Topic → Trie Topic
sol_topic_put topics t = trie_insert topics t.name t

unfoldable pub sol_topic_del : Trie Topic → List ℕ → Trie Topic
sol_topic_del topics name = (trie_delete topics name).0

unfoldable pub sol_topic_get : Trie Topic → List ℕ → Option Topic
sol_topic_get topics name = trie_find topics name
