-- ===== src/Server/Subscribe/Replies.antt =====
-- What `subscribe_handler` of sol/src/server.c does for topics that are named in full, as a whole.
use mqttbroker.Base.{
  ℕ, ◌+◌, ◌<◌, ◌≡◌, refl, ap, ◌∙◌, ◌⊎◌, inl, inr, true, false, some, List, [], ◌∷◌, ◌++◌, map,
  arith, double_free, ok, fault, Returns, length, take_all, length-map, leb, Bool-cases,
}
use mqttbroker.Pack.RoundTrip.{u16_bytes}
use mqttbroker.Mqtt.Packet.{SubscribeTuple, MqttSubscribe, MqttPacket, suback_type}
use mqttbroker.Mqtt.Build.{mqtt_packet_suback}
use mqttbroker.Mqtt.Pack.{pack_mqtt_packet}
use mqttbroker.Mqtt.Pack.Replies.{byte_of, pack_mqtt_suback-wire}
use mqttbroker.Trie.{Trie}
use mqttbroker.Trie.Lookup.{IsTrie}
use mqttbroker.Core.{SolClient, Topic, sol_topic_get}
use mqttbroker.Server.{Closure, rearm_w, client_of}
use mqttbroker.Server.Subscribe.{
  suback_byte, first_round, subscribe_tuples, qos_of, release_tuples, suback_reply,
  subscribe_handler,
}
use mqttbroker.Server.Subscribe.Plain.{
  TopicFilter, AllHold, all_granted, stale, subscribe_tuples-Granted,
}

abbrev pub filter_qos : TopicFilter → ℕ
filter_qos f = f.qos

AllHold-qos :
    (fs : List TopicFilter) (tuples : List SubscribeTuple)
    → AllHold fs tuples
    → map qos_of tuples ≡ map filter_qos fs
AllHold-qos [] [] h = refl
AllHold-qos [] (tuple ∷ tuples) h = absurd h
AllHold-qos (f ∷ fs) [] h = absurd h
AllHold-qos (f ∷ fs) (tuple ∷ tuples) (here, later) =
    rw (here.qos, AllHold-qos fs tuples later) refl

-- The SUBACK of the standard.
abbrev pub suback_for : ℕ → List ℕ → List ℕ
suback_for pkt_id rcs = suback_byte ∷ (2 + length rcs) ∷ (u16_bytes pkt_id ++ map byte_of rcs)

suback_packed :
    (pkt_id : ℕ) (rcs : List ℕ)
    → length rcs < 126
    → pack_mqtt_packet
        (MqttPacket.suback (mqtt_packet_suback suback_byte pkt_id rcs (length rcs)))
        suback_type
      ≡ ok (record { out = suback_for pkt_id rcs; room = 0 })
unfolding pack_mqtt_packet mqtt_packet_suback
suback_packed pkt_id rcs lt =
    let p = mqtt_packet_suback suback_byte pkt_id rcs (length rcs) in
    let all = take_all rcs (length rcs) (omega arith) in
    pack_mqtt_suback-wire p (rw all refl) lt ∙ rw all refl

pub suback_reply-suback_for :
    (rcs : List ℕ) (pkt : MqttSubscribe)
    → map qos_of pkt.tuples ≡ rcs
    → pkt.tuples_len ≡ length rcs
    → length rcs < 126
    → suback_reply pkt ≡ ok (suback_for pkt.pkt_id rcs)
unfolding suback_reply
suback_reply-suback_for rcs pkt q many few =
    let full : length (u16_bytes pkt.pkt_id ++ map byte_of rcs) ≡ 2 + length rcs =
      omega (arith, length-map byte_of rcs) in
    let enough : leb (2 + 2 + length rcs) (length (suback_for pkt.pkt_id rcs)) ≡ true =
      ground (arith, full) in
    let whole = take_all (suback_for pkt.pkt_id rcs) (2 + 2 + length rcs) (omega (arith, full)) in
    rw (q, many, suback_packed pkt.pkt_id rcs few, enough, whole) refl

-- `subscribe_handler` for a client that has connected, with up to 125 topic filters, none of them
-- empty and none a wildcard, and with the topics in a trie in order. If a filter that ends in a
-- slash comes behind one that does not, the handler frees memory of the packet twice. Otherwise it
-- returns, with the SUBACK of the standard, which grants the QoS asked for in the order of the
-- filters; the trie stays in order, and the client is put in front of the subscribers of each topic
-- named, a new one if need be, and of no other.
pub subscribe_handler-grants :
    (fs : List TopicFilter) (cb : Closure) (client : SolClient) (pkt : MqttSubscribe)
    (topics : Trie Topic)
    → cb.obj ≡ some client
    → AllHold fs pkt.tuples
    → pkt.tuples_len ≡ length fs
    → length fs < 126
    → IsTrie topics
    → ((stale false fs ≡ true) × (subscribe_handler cb pkt topics ≡ fault double_free))
      ⊎ ((stale false fs ≡ false)
          × Returns (subscribe_handler cb pkt topics) λ r.
            (r.payload ≡ suback_for pkt.pkt_id (map filter_qos fs))
            × (r.rc ≡ rearm_w)
            × IsTrie r.topics
            × ((name : List ℕ)
                → sol_topic_get r.topics name ≡ all_granted client fs (sol_topic_get topics) name))
unfolding subscribe_handler client_of release_tuples
subscribe_handler-grants fs cb client pkt topics c h e lt trie =
    let (st, run, g) =
      subscribe_tuples-Granted client fs pkt.tuples (first_round topics) h trie refl in
    let rounds : subscribe_tuples client pkt.tuples_len pkt.tuples (first_round topics) ≡ ok st =
      ap (λ (n : ℕ). subscribe_tuples client n pkt.tuples (first_round topics)) e ∙ run in
    let rcs = map filter_qos fs in
    let replied =
      suback_reply-suback_for rcs pkt (AllHold-qos fs pkt.tuples h)
        (omega (arith, e, length-map filter_qos fs)) (omega (arith, length-map filter_qos fs)) in
    elim (Bool-cases (stale false fs)) [
      | inl bad ↦
          let freed : st.freed ≡ true = g.freed ∙ ground (arith, bad) in
          inl (bad, rw (c, rounds, freed) refl)
      | inr good ↦
          let freed : st.freed ≡ false = g.freed ∙ ground (arith, good) in
          inr (
            good,
            (
              record {
                topics = st.topics;
                payload = suback_for pkt.pkt_id (map filter_qos fs);
                rc = rearm_w;
              },
              rw (c, rounds, freed, replied) refl,
              (refl, refl, g.trie, g.finds),
            ),
          )
    ]
