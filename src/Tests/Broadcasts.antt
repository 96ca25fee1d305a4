-- ===== src/Tests/Broadcasts.antt =====
-- The broker's own messages at a concrete state.
use mqttbroker.Base.{ℕ, ◌≡◌, refl, none, some, List, [], ◌∷◌, arith, ok, length, text}
use mqttbroker.Trie.{Trie, Node, node, nil, cons, trie_find}
use mqttbroker.Core.{SolClient, Topic, sol_topic_get}
use mqttbroker.Server.{SolInfo}
use mqttbroker.Server.Publish.{Message}
use mqttbroker.Server.Stats.{publish_stats}
use mqttbroker.Server.Stats.Texts.{all_nonzero, topic-Fits}
use mqttbroker.Mqtt.Length.{mqtt_encode_length}
use mqttbroker.Util.Print.{show_int}
use mqttbroker.Server.Stats.Topics.{
  IsCounting, stats_of, all_messages, count_all, publish_stats-sent,
}

abbrev listener : SolClient
listener = record { client_id = text "c"; fd = 9; subscriptions = [] }

-- The nodes of a topic whose name is the character with the others behind it.
abbrev chain : ℕ → List ℕ → Topic → Node Topic
chain c [] t = node c (some t) nil
chain c (d ∷ s) t = node c none (cons (chain d s t) nil)

abbrev uptime_topic : Topic
uptime_topic = record {
  name = text "$SOL/broker/uptime/";
  subscribers = record { qos = 0; client = listener } ∷ [];
}

abbrev topics : Trie Topic
topics = record {
  root = node 32 none (cons (chain b'$' (text "SOL/broker/uptime/") uptime_topic) nil);
  size = 1;
}

abbrev counters : SolInfo
counters = record {
  nclients = 1;
  nconnections = 1;
  start_time = 1000;
  bytes_recv = 30;
  bytes_sent = 20;
  messages_sent = 2;
  messages_recv = 3;
}

abbrev counters-IsCounting : IsCounting counters
counters-IsCounting = record {
  nclients = omega arith;
  bytes_sent = omega arith;
  messages_sent = omega arith;
  messages_recv = omega arith;
}

abbrev sent_whole : Message → ℕ
sent_whole m = length m.1

abbrev show_sol : ℕ → List ℕ
show_sol n = text "0.0005"

-- What the listener is sent after 42 seconds.
abbrev uptime_message : Message
uptime_message = (9, (0x30 ∷ 23 ∷ 0 ∷ 19 ∷ text "$SOL/broker/uptime/42"))

publish_stats-sent_example :
    publish_stats sent_whole topics 1042 show_sol counters
    ≡ ok (
      all_messages topics (stats_of 42 (text "0.0005") counters),
      count_all sent_whole topics (stats_of 42 (text "0.0005") counters) counters,
    )
publish_stats-sent_example =
    publish_stats-sent sent_whole topics 1042 show_sol counters counters-IsCounting (omega arith)
      (omega arith) (topic-Fits (text "0.0005") (unfold all_nonzero in refl) (omega arith)).nul
      (omega arith)

uptime_run : all_messages topics (stats_of 42 (text "0.0005") counters) ≡ uptime_message ∷ []
unfolding sol_topic_get trie_find mqtt_encode_length show_int
uptime_run = refl
