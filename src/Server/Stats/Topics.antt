-- ===== src/Server/Stats/Topics.antt =====
-- Who is sent which of the broker's own messages.
use mqttbroker.Base.{
  ℕ, ◌+◌, ◌-◌, ◌%◌, ◌^◌, ◌≤◌, ◌<◌, ◌≡◌, refl, ◌∙◌, Option, none, some, List, [], ◌∷◌, ◌++◌, map,
  arith, ok, length, get_elem?, All, text,
}
use mqttbroker.Mqtt.Packet.{MqttPublish}
use mqttbroker.Mqtt.Build.{mqtt_packet_publish}
use mqttbroker.Mqtt.Pack.Publish.{Carries}
use mqttbroker.Util.Print.{pos, to_int_small, show_int}
use native.Mathlib.Nat.{mod-eq_of_lt}
use mqttbroker.Trie.{Trie}
use mqttbroker.Core.{Topic, sol_topic_get}
use mqttbroker.Server.{SolInfo}
use mqttbroker.Server.Publish.{Message}
use mqttbroker.Server.Publish.Message.{message_for}
use mqttbroker.Server.Publish.Delivery.{topic_or, count_messages, forward_all-messages}
use mqttbroker.Server.Subscribe.Delivery.{subscribers_of}
use mqttbroker.Server.Stats.Texts.{
  NoNul, Fits, c_str-NoNul, sprintf_fits, sprintf-show, to_long_small, show_int-Fits, topic-Fits,
  all_nonzero,
}
use mqttbroker.Server.Stats.{
  publish_byte, sys_topics, send_to, publish_message, publish_stat, publish_each, publish_stats,
}

-- The packet of a message, and the messages for the subscribers of its topic.
abbrev pub stat_packet : List ℕ → List ℕ → MqttPublish
stat_packet topic str = record {
  header = publish_byte;
  pkt_id = 0;
  topiclen = length topic;
  topic = topic ++ (0 ∷ []);
  payloadlen = length str;
  payload = str ++ (0 ∷ []);
}

abbrev pub stat_messages : Trie Topic → List ℕ → List ℕ → List Message
stat_messages topics topic str =
    map (message_for (stat_packet topic str) topic str)
      (subscribers_of (sol_topic_get topics) topic)

stat_packet-Carries :
    (topic str : List ℕ) → Fits topic → Fits str → Carries (stat_packet topic str) topic str
stat_packet-Carries topic str t s = record {
  topic_text = c_str-NoNul topic t.nul;
  topic_fits = t.short;
  topiclen = refl;
  payload_text = c_str-NoNul str s.nul;
  payload_fits = s.short;
  payloadlen = refl;
}

packet_built :
    (topic str : List ℕ)
    → Fits topic
    → Fits str
    → mqtt_packet_publish publish_byte 0
        (length topic)
        (topic ++ (0 ∷ []))
        (length str)
        (str ++ (0 ∷ []))
      ≡ stat_packet topic str
unfolding mqtt_packet_publish
packet_built topic str t s = rw (mod-eq_of_lt t.short, mod-eq_of_lt s.short) refl

-- A statistic: the index of its topic, the topic and the text.
pub record Stat : Type 0 where
  pub index : ℕ
  pub topic : List ℕ
  pub str : List ℕ

abbrev pub IsStat : Stat → Type 0
IsStat s = (get_elem? sys_topics s.index ≡ some s.topic) × Fits s.topic × Fits s.str

-- The text as `publish_each` is given it, with its topic's index.
abbrev pub argument : Stat → ℕ × List ℕ
argument s = (s.index, s.str ++ (0 ∷ []))

-- The messages of all, in order.
abbrev pub all_messages : Trie Topic → List Stat → List Message
all_messages topics [] = []
all_messages topics (s ∷ stats) = stat_messages topics s.topic s.str ++ all_messages topics stats

module _ (sent : Message → ℕ) (topics : Trie Topic) where
  publish_message_named :
      (topic str : List ℕ) (info : SolInfo)
      → Fits topic
      → Fits str
      → publish_message sent topics 0
          (length topic)
          (topic ++ (0 ∷ []))
          (length str)
          (str ++ (0 ∷ []))
          info
        ≡ send_to sent topics (stat_packet topic str) (sol_topic_get topics topic) info
  unfolding publish_message
  publish_message_named topic str info t s =
      rw (packet_built topic str t s, c_str-NoNul topic t.nul) refl

  send_to-sent :
      (topic str : List ℕ) (info : SolInfo) (found : Option Topic)
      → Fits topic
      → Fits str
      → let ms =
          map (message_for (stat_packet topic str) topic str) (topic_or topic found).subscribers in
        send_to sent topics (stat_packet topic str) found info
        ≡ ok (ms, count_messages sent topic str ms info)
  send_to-sent topic str info none t s = refl
  send_to-sent topic str info (some found) t s =
      forward_all-messages sent topic str found.subscribers (stat_packet topic str) info
        (stat_packet-Carries topic str t s)

  publish_message-sent :
      (topic str : List ℕ) (info : SolInfo)
      → Fits topic
      → Fits str
      → publish_message sent topics 0
          (length topic)
          (topic ++ (0 ∷ []))
          (length str)
          (str ++ (0 ∷ []))
          info
        ≡ ok (
          stat_messages topics topic str,
          count_messages sent topic str (stat_messages topics topic str) info,
        )
  publish_message-sent topic str info t s =
      publish_message_named topic str info t s
      ∙ send_to-sent topic str info (sol_topic_get topics topic) t s

  publish_stat-sent :
      (i : ℕ) (topic str : List ℕ) (info : SolInfo)
      → get_elem? sys_topics i ≡ some topic
      → Fits topic
      → Fits str
      → publish_stat sent topics i (str ++ (0 ∷ [])) info
        ≡ ok (
          stat_messages topics topic str,
          count_messages sent topic str (stat_messages topics topic str) info,
        )
  unfolding publish_stat
  publish_stat-sent i topic str info e t s =
      rw (e, c_str-NoNul str s.nul) (publish_message-sent topic str info t s)

  abbrev pub count_all : List Stat → SolInfo → SolInfo
  count_all [] info = info
  count_all (s ∷ stats) info =
      count_all stats (count_messages sent s.topic s.str (stat_messages topics s.topic s.str) info)

  publish_each-sent :
      (stats : List Stat) (info : SolInfo)
      → All IsStat stats
      → publish_each sent topics (map argument stats) info
        ≡ ok (all_messages topics stats, count_all stats info)
  unfolding publish_each
  publish_each-sent [] info h = refl
  publish_each-sent (s ∷ stats) info ((e, t, w), later) =
      let info' = count_messages sent s.topic s.str (stat_messages topics s.topic s.str) info in
      rw (publish_stat-sent s.index s.topic s.str info e t w, publish_each-sent stats info' later)
        refl

-- The six statistics.
abbrev pub stats_of : ℕ → List ℕ → SolInfo → List Stat
stats_of uptime sutime info =
    record { index = 5; topic = text "$SOL/broker/uptime/"; str = show_int (pos uptime) }
    ∷ record { index = 6; topic = text "$SOL/broker/uptime/sol"; str = sutime }
    ∷ record {
      index = 7;
      topic = text "$SOL/broker/clients/connected/";
      str = show_int (pos info.nclients);
    }
    ∷ record {
      index = 9;
      topic = text "$SOL/broker/bytes/sent/";
      str = show_int (pos info.bytes_sent);
    }
    ∷ record {
      index = 11;
      topic = text "$SOL/broker/messages/sent/";
      str = show_int (pos info.messages_sent);
    }
    ∷ record {
      index = 12;
      topic = text "$SOL/broker/messages/received/";
      str = show_int (pos info.messages_recv);
    }
    ∷ []

-- Counters that are not negative.
pub record IsCounting (info : SolInfo) : Type 0 where
  pub nclients : info.nclients < 2 ^ 31
  pub bytes_sent : info.bytes_sent < 2 ^ 63
  pub messages_sent : info.messages_sent < 2 ^ 63
  pub messages_recv : info.messages_recv < 2 ^ 63

stats_of-IsStat :
    (uptime : ℕ) (sutime : List ℕ) (info : SolInfo)
    → IsCounting info
    → uptime < 2 ^ 63
    → NoNul sutime
    → length sutime < 16
    → All IsStat (stats_of uptime sutime info)
unfolding all_nonzero
stats_of-IsStat uptime sutime info h lt nul short = (
  (refl, topic-Fits _ refl (omega arith), show_int-Fits uptime lt),
  (
    (refl, topic-Fits _ refl (omega arith), record { nul = nul; short = omega arith }),
    (
      (
        refl,
        topic-Fits _ refl (omega arith),
        show_int-Fits info.nclients (omega (arith, h.nclients)),
      ),
      (
        (refl, topic-Fits _ refl (omega arith), show_int-Fits info.bytes_sent h.bytes_sent),
        (
          (refl, topic-Fits _ refl (omega arith), show_int-Fits info.messages_sent h.messages_sent),
          (
            (
              refl,
              topic-Fits _ refl (omega arith),
              show_int-Fits info.messages_recv h.messages_recv,
            ),
            tt,
          ),
        ),
      ),
    ),
  ),
)

-- `publish_stats`, where no counter is negative, the clock is not behind the start of the broker,
-- and the uptime in days of Mars has fewer than 16 characters, returns: every text fits its array,
-- and the subscribers of six topics are sent, as the payload of a PUBLISH with their QoS, the
-- uptime, the uptime in such days, the number of clients, and the numbers of bytes sent and of
-- messages sent and received, in decimal; nobody else is sent anything.
pub publish_stats-sent :
    (sent : Message → ℕ) (topics : Trie Topic) (now : ℕ) (show_sol : ℕ → List ℕ) (info : SolInfo)
    → IsCounting info
    → info.start_time ≤ now
    → now < 2 ^ 63
    → NoNul (show_sol (now - info.start_time))
    → length (show_sol (now - info.start_time)) < 16
    → let stats = stats_of (now - info.start_time) (show_sol (now - info.start_time)) info in
      publish_stats sent topics now show_sol info
      ≡ ok (all_messages topics stats, count_all sent topics stats info)
unfolding publish_stats
publish_stats-sent sent topics now show_sol info h le lt nul short =
    let uptime = now - info.start_time in
    let up : (now + 2 ^ 64 - info.start_time) % 2 ^ 64 ≡ uptime = omega arith in
    rw
      (
        up,
        to_int_small info.nclients h.nclients,
        to_long_small info.bytes_sent h.bytes_sent,
        to_long_small info.messages_sent h.messages_sent,
        to_long_small info.messages_recv h.messages_recv,
        to_long_small uptime (omega arith),
        sprintf-show info.nclients,
        sprintf-show info.bytes_sent,
        sprintf-show info.messages_sent,
        sprintf-show info.messages_recv,
        sprintf-show uptime,
        sprintf_fits 16 (show_sol uptime) short,
      )
      (publish_each-sent sent topics (stats_of uptime (show_sol uptime) info) info
        (stats_of-IsStat uptime (show_sol uptime) info h (omega arith) nul short))
