-- ===== src/Server/Stats.antt =====
-- `publish_message` and `publish_stats` of sol/src/server.c: the broker's own messages.
pub mod Texts
pub mod Topics
use mqttbroker.Base.{
  ℕ, zero, suc, ◌+◌, ◌-◌, ◌%◌, ◌^◌, Option, none, some, List, [], ◌∷◌, ◌++◌, out_of_bounds,
  bad_index, Run, ok, fault, ◌>>=◌, length, get_elem?, ltb, if◌then◌else◌, text,
}
use mqttbroker.Pack.{c_str}
use mqttbroker.Mqtt.Packet.{MqttPublish}
use mqttbroker.Mqtt.Build.{mqtt_packet_publish}
use mqttbroker.Util.{number_len}
use mqttbroker.Util.Print.{ℤ, to_int, to_long, to_size, show_int}
use mqttbroker.Trie.{Trie}
use mqttbroker.Core.{Topic, sol_topic_get}
use mqttbroker.Server.{SolInfo}
use mqttbroker.Server.Publish.{Message, forward_all}

abbrev pub publish_byte : ℕ
publish_byte = 0x30

-- `sys_topics`
abbrev pub sys_topics : List (List ℕ)
sys_topics =
    text "$SOL/"
    ∷ text "$SOL/broker/"
    ∷ text "$SOL/broker/clients/"
    ∷ text "$SOL/broker/bytes/"
    ∷ text "$SOL/broker/messages/"
    ∷ text "$SOL/broker/uptime/"
    ∷ text "$SOL/broker/uptime/sol"
    ∷ text "$SOL/broker/clients/connected/"
    ∷ text "$SOL/broker/clients/disconnected/"
    ∷ text "$SOL/broker/bytes/sent/"
    ∷ text "$SOL/broker/bytes/received/"
    ∷ text "$SOL/broker/messages/sent/"
    ∷ text "$SOL/broker/messages/received/"
    ∷ text "$SOL/broker/memory/used"
    ∷ []

-- `sprintf` into an array of `size` bytes: the text and its NUL.
unfoldable pub sprintf : ℕ → List ℕ → Run (List ℕ)
sprintf size s = if ltb (length s) size then ok (s ++ (0 ∷ [])) else fault out_of_bounds

-- `sent` is the result of `send_bytes`.
module _ (sent : Message → ℕ) (topics : Trie Topic) where
  -- The loop over the subscribers; a topic that is not there ends the function.
  abbrev pub send_to : MqttPublish → Option Topic → SolInfo → Run (List Message × SolInfo)
  send_to p none info = ok ([], info)
  send_to p (some t) info = forward_all sent p t.subscribers info

  -- The messages sent, and the counters.
  unfoldable pub publish_message :
      ℕ → ℕ → List ℕ → ℕ → List ℕ → SolInfo → Run (List Message × SolInfo)
  publish_message pkt_id topiclen topic payloadlen payload info = do
    name ← c_str topic
    let p = mqtt_packet_publish publish_byte pkt_id topiclen topic payloadlen payload
    send_to p (sol_topic_get topics name) info

  -- `publish_message(0, strlen(sys_topics[i]), sys_topics[i], strlen(text), text)`
  unfoldable pub publish_stat : ℕ → List ℕ → SolInfo → Run (List Message × SolInfo)
  publish_stat i payload info = elim (get_elem? sys_topics i) [
    | none ↦ fault bad_index
    | some topic ↦ do
      str ← c_str payload
      publish_message 0 (length topic) (topic ++ (0 ∷ [])) (length str) payload info
  ]

  -- One call after the other.
  unfoldable pub publish_each : List (ℕ × List ℕ) → SolInfo → Run (List Message × SolInfo)
  publish_each [] info = ok ([], info)
  publish_each ((i, payload) ∷ stats) info = do
    (ms, info') ← publish_stat i payload info
    (later, info'') ← publish_each stats info'
    ok (ms ++ later, info'')

  -- `now` is what both calls of `time(NULL)` give, and `show_sol` what `%.4f` prints of a number of seconds divided by
  -- `SOL_SECONDS`.
  unfoldable pub publish_stats : ℕ → (ℕ → List ℕ) → SolInfo → Run (List Message × SolInfo)
  publish_stats now show_sol info = do
    let uptime = (now + 2 ^ 64 - info.start_time) % 2 ^ 64
    cclients ←
        sprintf (number_len (to_size (to_int info.nclients)) + 1) (show_int (to_int info.nclients))
    bsent ← sprintf (number_len info.bytes_sent + 1) (show_int (to_long info.bytes_sent))
    msent ← sprintf (number_len info.messages_sent + 1) (show_int (to_long info.messages_sent))
    mrecv ← sprintf (number_len info.messages_recv + 1) (show_int (to_long info.messages_recv))
    utime ← sprintf (number_len uptime + 1) (show_int (to_long uptime))
    sutime ← sprintf 16 (show_sol uptime)
    publish_each
        ((5, utime) ∷ (6, sutime) ∷ (7, cclients) ∷ (9, bsent) ∷ (11, msent) ∷ (12, mrecv) ∷ [])
        info
