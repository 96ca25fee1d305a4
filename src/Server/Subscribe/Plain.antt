-- ===== src/Server/Subscribe/Plain.antt =====
-- Subscriptions to topics that are named in full: `subscribe_handler` of sol/src/server.c without a
-- wildcard.
use mqttbroker.Base.{
  ℕ, suc, ◌-◌, ◌≡◌, refl, ap, ◌∙◌, ◌≢◌, inl, inr, Bool, false, ◌&&◌, ◌||◌, not, Option, none, some,
  List, [], ◌∷◌, arith, ok, Returns, length, get_elem?, All, IsByte, ltb, ◌==◌, if◌then◌else◌,
  Option-cases,
}
use mqttbroker.Pack.{c_str}
use mqttbroker.Mqtt.Packet.{SubscribeTuple}
use mqttbroker.Util.{append_string}
use mathlib.Core.Path.{fun_ext}
use mqttbroker.Trie.{Trie, trie_insert}
use mqttbroker.Trie.Lookup.{same_key, same_key_iff, IsTrie, trie_insert_lem}
use mqttbroker.Core.{
  SolClient, Topic, topic_create, topic_add_subscriber, sol_topic_put, sol_topic_get,
}
use mqttbroker.Server.Publish.Delivery.{last, slashed, c_str-last, topic_or}
use mqttbroker.Server.Subscribe.{
  push_subscriber, Subscribing, char_at, Ending, slash, other, ending, filter_name, is_slash_hash,
  is_other, find_or_create, add_to_topic, subscribe_round, subscribe_tuples,
}

-- A topic filter: its characters, of which there is one at least, and the QoS.
pub record TopicFilter : Type 0 where
  pub first : ℕ
  pub rest : List ℕ
  pub qos : ℕ

-- The name under which the topic is kept.
abbrev pub name_of : TopicFilter → List ℕ
name_of f = slashed f.first f.rest

abbrev pub ends_slash : TopicFilter → Bool
ends_slash f = last f.first f.rest == b'/'

-- The packet's tuple holds the filter, and it is no wildcard.
pub record Holds (f : TopicFilter) (tuple : SubscribeTuple) : Type 0 where
  pub characters : c_str tuple.topic ≡ ok (f.first ∷ f.rest)
  pub topic_len : tuple.topic_len ≡ suc (length f.rest)
  pub qos : tuple.qos ≡ f.qos
  pub no_hash : last f.first f.rest ≢ b'#'
  pub bytes : All IsByte (name_of f)

abbrev pub AllHold : List TopicFilter → List SubscribeTuple → Type 0
AllHold [] [] = Unit
AllHold [] (tuple ∷ tuples) = ⊥
AllHold (f ∷ fs) [] = ⊥
AllHold (f ∷ fs) (tuple ∷ tuples) = Holds f tuple × AllHold fs tuples

-- The topics by name.
abbrev pub Store : Type 0
Store = List ℕ → Option Topic

-- A client becomes the first subscriber of the topic, which is a new one if need be.
abbrev pub granted : SolClient → TopicFilter → Store → Store
granted client f store name =
    if same_key (name_of f) name
    then some (
        push_subscriber (record { qos = f.qos; client = client })
          (topic_or (name_of f) (store (name_of f))))
    else store name

-- One filter after the other.
abbrev pub all_granted : SolClient → List TopicFilter → Store → Store
all_granted client [] store = store
all_granted client (f ∷ fs) store = all_granted client fs (granted client f store)

-- A filter that ends in a slash comes behind one that does not.
abbrev pub stale : Bool → List TopicFilter → Bool
stale alloced [] = false
stale alloced (f ∷ fs) = (ends_slash f && alloced) || stale (not (ends_slash f) || alloced) fs

get_of : (mem : List ℕ) (i c : ℕ) → get_elem? mem i ≡ some c → get_elem? mem (suc i - 1) ≡ some c
get_of mem i c e = let k : suc i - 1 ≡ i = omega arith in rw k e

abbrev ending_of : TopicFilter → Ending
ending_of f = if ends_slash f then slash else other

ending-Holds :
    (f : TopicFilter) (tuple : SubscribeTuple) → Holds f tuple → ending tuple ≡ ok (ending_of f)
unfolding ending char_at
ending-Holds f tuple h =
    let at =
      get_of tuple.topic (length f.rest) _ (c_str-last tuple.topic f.first f.rest h.characters) in
    let enough : ltb (suc (length f.rest)) 1 ≡ false = ground arith in
    let plain : (last f.first f.rest == b'#') ≡ false = ground (arith, h.no_hash) in
    rw (h.topic_len, at, enough, plain) (ground arith)

filter_name-Holds : (f : TopicFilter) → filter_name (ending_of f) (f.first ∷ f.rest) ≡ name_of f
unfolding append_string
filter_name-Holds f = ground arith

module _ (client : SolClient) (name : List ℕ) (qos : ℕ) where
  find_none :
      (wildcard : Bool) (topics : Trie Topic)
      → sol_topic_get topics name ≡ none
      → find_or_create client topics name wildcard qos ≡ trie_insert topics name (topic_create name)
  unfolding find_or_create sol_topic_put topic_create
  find_none wildcard topics e = rw (e, find_or_create) refl

  find_some :
      (topics : Trie Topic) (t : Topic)
      → sol_topic_get topics name ≡ some t
      → find_or_create client topics name false qos ≡ topics
  unfolding find_or_create
  find_some topics t e = rw (e, find_or_create) refl

  add_some :
      (topics : Trie Topic) (t : Topic)
      → sol_topic_get topics name ≡ some t
      → add_to_topic client topics name qos
        ≡ trie_insert topics name (push_subscriber (record { qos = qos; client = client }) t)
  unfolding add_to_topic topic_add_subscriber
  add_some topics t e = rw (e, add_to_topic) refl

  abbrev pub subscribed : Bool → Trie Topic → Trie Topic
  subscribed wildcard topics =
      add_to_topic client (find_or_create client topics name wildcard qos) name qos

  abbrev pub Grants : Trie Topic → Trie Topic → Type 0
  Grants topics topics' =
      IsTrie topics'
      × ((name' : List ℕ)
          → sol_topic_get topics' name' ≡ (
              if same_key name name'
              then some (
                  push_subscriber (record { qos = qos; client = client })
                    (topic_or name (sol_topic_get topics name)))
              else sol_topic_get topics name'))

  module _ (bytes : All IsByte name) where
    pub add_to_topic-updates :
        (topics : Trie Topic) (t : Topic)
        → IsTrie topics
        → sol_topic_get topics name ≡ some t
        → let topics' = add_to_topic client topics name qos in
          IsTrie topics'
          × ((name' : List ℕ)
              → sol_topic_get topics' name' ≡ (
                  if same_key name name'
                  then some (push_subscriber (record { qos = qos; client = client }) t)
                  else sol_topic_get topics name'))
    add_to_topic-updates topics t trie e =
        let s = push_subscriber (record { qos = qos; client = client }) t in
        let (kept, finds, _) = trie_insert_lem topics name s bytes trie in
        rw (add_some topics t e) (unfold sol_topic_get in (kept, finds))

    subscribed_found :
        (topics : Trie Topic) (t : Topic)
        → IsTrie topics
        → sol_topic_get topics name ≡ some t
        → Grants topics (subscribed false topics)
    subscribed_found topics t trie e =
        rw (find_some topics t e, e) (add_to_topic-updates topics t trie e)

    pub subscribed_new :
        (wildcard : Bool) (topics : Trie Topic)
        → IsTrie topics
        → sol_topic_get topics name ≡ none
        → Grants topics (subscribed wildcard topics)
    unfolding topic_create
    subscribed_new wildcard topics trie e =
        let (kept, finds, _) = trie_insert_lem topics name (topic_create name) bytes trie in
        let new = trie_insert topics name (topic_create name) in
        let got : (name' : List ℕ)
            → sol_topic_get new name' ≡ (
                if same_key name name'
                then some (topic_create name)
                else sol_topic_get topics name') =
          unfold sol_topic_get in finds in
        let there : sol_topic_get new name ≡ some (topic_create name) =
          got name ∙ ground (arith, same_key_iff name name) in
        let (kept', finds') = add_to_topic-updates new (topic_create name) kept there in
        rw (find_none wildcard topics e, e)
          (kept', λ name'. finds' name' ∙ ground (arith, got name'))

    subscribed-Grants :
        (topics : Trie Topic) → IsTrie topics → Grants topics (subscribed false topics)
    subscribed-Grants topics trie = elim (Option-cases (sol_topic_get topics name)) [
      | inl e ↦ subscribed_new false topics trie e
      | inr (t, e) ↦ subscribed_found topics t trie e
    ]

-- One round of the loop.
abbrev after_round : SolClient → TopicFilter → Subscribing → Subscribing
after_round client f st = record {
  topics = subscribed client (name_of f) f.qos false st.topics;
  wildcard = false;
  alloced = not (ends_slash f) || st.alloced;
  freed = (ends_slash f && st.alloced) || st.freed;
}

flags_of :
    (f : TopicFilter) (alloced freed : Bool)
    → (is_slash_hash (ending_of f) ≡ false)
      × ((is_other (ending_of f) || alloced) ≡ (not (ends_slash f) || alloced))
      × ((((not (ends_slash f) || alloced) && not (is_other (ending_of f))) || freed)
          ≡ ((ends_slash f && alloced) || freed))
flags_of f alloced freed = (ground arith, ground arith, ground arith)

subscribe_round-Holds :
    (client : SolClient) (f : TopicFilter) (tuple : SubscribeTuple) (st : Subscribing)
    → Holds f tuple
    → st.wildcard ≡ false
    → subscribe_round client st tuple ≡ ok (after_round client f st)
unfolding subscribe_round
subscribe_round-Holds client f tuple st h w =
    let (no_wildcard, kept, given) = flags_of f st.alloced st.freed in
    rw
      (
        ending-Holds f tuple h,
        h.characters,
        filter_name-Holds f,
        h.qos,
        no_wildcard,
        kept,
        given,
        w,
      )
      refl

bool_or_assoc : (a b c : Bool) → ((a || b) || c) ≡ (b || (a || c))
bool_or_assoc a b c = ground arith

module _ (client : SolClient) where
  -- Where the loop ends: in order, with every filter granted, and `freed` if a filter is stale.
  pub record Granted (fs : List TopicFilter) (st st' : Subscribing) : Type 0 where
    pub trie : IsTrie st'.topics
    pub finds :
        (name : List ℕ)
        → sol_topic_get st'.topics name ≡ all_granted client fs (sol_topic_get st.topics) name
    pub freed : st'.freed ≡ (stale st.alloced fs || st.freed)

  pub subscribe_tuples-Granted :
      (fs : List TopicFilter) (tuples : List SubscribeTuple) (st : Subscribing)
      → AllHold fs tuples
      → IsTrie st.topics
      → st.wildcard ≡ false
      → Returns (subscribe_tuples client (length fs) tuples st) (Granted fs st)
  unfolding subscribe_tuples
  subscribe_tuples-Granted [] tuples st h trie w =
      (st, refl, record { trie = trie; finds = λ name. refl; freed = refl })
  subscribe_tuples-Granted (f ∷ fs) [] st h trie w = absurd h
  subscribe_tuples-Granted (f ∷ fs) (tuple ∷ tuples) st (here, later) trie w =
      let st₁ = after_round client f st in
      let (kept, finds) = subscribed-Grants client (name_of f) f.qos here.bytes st.topics trie in
      let (st', e, g) = subscribe_tuples-Granted fs tuples st₁ later kept refl in
      (
        st',
        rw (subscribe_round-Holds client f tuple st here w) e,
        record {
          trie = g.trie;
          finds = λ name.
              g.finds name ∙ ap (λ (s : Store). all_granted client fs s name) (fun_ext finds);
          freed = g.freed ∙ ground arith;
        },
      )
