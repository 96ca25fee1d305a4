-- ===== src/Server/Subscribe/Delivery.antt =====
-- From a SUBSCRIBE to a PUBLISH: who is sent the messages of a topic once `subscribe_handler` of
-- sol/src/server.c has run.
use mqttbroker.Base.{
  ℕ, ◌<◌, ◌≡◌, refl, ap, ◌∙◌, inl, inr, false, Option, some, List, [], ◌∷◌, map, Returns, length,
  All, IsByte, if◌then◌else◌, Bool-cases,
}
use mqttbroker.Mqtt.Packet.{MqttSubscribe, MqttPublish}
use mqttbroker.Mqtt.Pack.Publish.{Carries}
use mqttbroker.Trie.{Trie}
use mqttbroker.Trie.Lookup.{same_key, same_key_iff, IsTrie}
use mqttbroker.Core.{SolClient, Topic, Subscriber, sol_topic_get}
use mqttbroker.Server.{Closure, SolInfo}
use mqttbroker.Server.Publish.{Message, publish_handler}
use mqttbroker.Server.Publish.Message.{message_for}
use mqttbroker.Server.Publish.Delivery.{slashed, topic_or, publish_handler-delivers}
use mqttbroker.Server.Subscribe.{push_subscriber, subscribe_handler}
use mqttbroker.Server.Subscribe.Plain.{
  TopicFilter, name_of, AllHold, Store, granted, all_granted, stale,
}
use mqttbroker.Server.Subscribe.Replies.{subscribe_handler-grants}

-- The subscribers of a topic after the filters: the client is put in front for each filter with the
-- topic's name.
abbrev pub subscribers_after :
    SolClient → List ℕ → List TopicFilter → List Subscriber → List Subscriber
subscribers_after client name [] subs = subs
subscribers_after client name (f ∷ fs) subs =
    subscribers_after client name fs
      (if same_key (name_of f) name then record { qos = f.qos; client = client } ∷ subs else subs)

-- Those of a topic that is not there are none.
abbrev pub subscribers_of : Store → List ℕ → List Subscriber
subscribers_of store name = (topic_or name (store name)).subscribers

granted-subscribers :
    (client : SolClient) (f : TopicFilter) (store : Store) (name : List ℕ)
    → subscribers_of (granted client f store) name ≡ (
        if same_key (name_of f) name
        then record { qos = f.qos; client = client } ∷ subscribers_of store name
        else subscribers_of store name)
granted-subscribers client f store name =
    let s : Subscriber = record { qos = f.qos; client = client } in
    let subs : Option Topic → List Subscriber = λ o. (topic_or name o).subscribers in
    elim (Bool-cases (same_key (name_of f) name)) [
      | inl e ↦
          let q : name_of f ≡ name = (same_key_iff (name_of f) name).0 e in
          let t = topic_or (name_of f) (store (name_of f)) in
          let got : granted client f store name ≡ some (push_subscriber s t) = rw e refl in
          ap subs got ∙ rw e (ap (λ (n : List ℕ). s ∷ (topic_or n (store n)).subscribers) q)
      | inr e ↦
          let got : granted client f store name ≡ store name = rw e refl in ap subs got ∙ rw e refl
    ]

all_granted-subscribers :
    (client : SolClient) (fs : List TopicFilter) (store : Store) (name : List ℕ)
    → subscribers_of (all_granted client fs store) name
      ≡ subscribers_after client name fs (subscribers_of store name)
all_granted-subscribers client [] store name = refl
all_granted-subscribers client (f ∷ fs) store name =
    all_granted-subscribers client fs (granted client f store) name
    ∙ ap (subscribers_after client name fs) (granted-subscribers client f store name)

-- `subscribe_handler` for a client that has connected, with up to 125 topic filters, none of them
-- empty, none a wildcard, and none that ends in a slash behind one that does not, and with the topics
-- in a trie in order, returns. `publish_handler` then, for any client that has connected, on a PUBLISH
-- whose topic is not empty and whose topic and payload are shorter than 2 ^ 16 bytes and have no NUL
-- in them, returns, and sends the message to the first client, once for each of these filters with
-- the topic's name, the last one first and with the QoS of the filter, then to the subscribers that
-- the topic had before, and to no one else.
pub publish_handler-subscribe_handler :
    (sent : Message → ℕ) (fs : List TopicFilter) (cb cb' : Closure) (client publisher : SolClient)
    (pkt : MqttSubscribe) (topics : Trie Topic) (p : MqttPublish) (c : ℕ) (cs payload : List ℕ)
    (info : SolInfo)
    → cb.obj ≡ some client
    → cb'.obj ≡ some publisher
    → AllHold fs pkt.tuples
    → pkt.tuples_len ≡ length fs
    → length fs < 126
    → stale false fs ≡ false
    → IsTrie topics
    → Carries p (c ∷ cs) payload
    → All IsByte (slashed c cs)
    → Returns (subscribe_handler cb pkt topics) λ r.
      Returns (publish_handler sent cb' p r.topics info) λ d.
        d.messages
        ≡ map (message_for p (c ∷ cs) payload) (
            subscribers_after client
              (slashed c cs)
              fs
              (subscribers_of (sol_topic_get topics) (slashed c cs)))
publish_handler-subscribe_handler sent fs cb cb' client publisher pkt topics p c cs payload info o
      o' h e lt good trie carried bytes =
    elim (subscribe_handler-grants fs cb client pkt topics o h e lt trie) [
      | inl (bad, _) ↦ absurd (cc)
      | inr (_, (r, returned, (_, _, trie', finds))) ↦
          let (d, published, (messages, _, _, _, _)) =
            publish_handler-delivers sent (c ∷ cs) payload cb' publisher p c cs r.topics info o'
              refl carried trie' bytes in
          let name = slashed c cs in
          let subs : subscribers_of (sol_topic_get r.topics) name
              ≡ subscribers_after client name fs (subscribers_of (sol_topic_get topics) name) =
            ap (λ (o : Option Topic). (topic_or name o).subscribers) (finds name)
            ∙ all_granted-subscribers client fs (sol_topic_get topics) name in
          (r, returned, (d, published, messages ∙ ap (map (message_for p (c ∷ cs) payload)) subs))
    ]
