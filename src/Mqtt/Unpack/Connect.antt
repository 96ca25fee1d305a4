-- ===== src/Mqtt/Unpack/Connect.antt =====
-- The parser on a CONNECT of the standard. It takes the connect flags from the eighth byte behind
-- the first one, wherever the remaining length ends.
use mqttbroker.Base.{
  ℕ, suc, ◌+◌, ◌*◌, ◌/◌, ◌%◌, ◌^◌, ◌≤◌, ◌<◌, ◌≡◌, refl, Bool, true, false, Option, none, some, List,
  [], ◌∷◌, ◌++◌, append_assoc, arith, Run, ok, ◌>>=◌, >>=-eq-ok, length, drop, ltb, ◌==◌,
  if◌then◌else◌,
}
use mqttbroker.Pack.{unpack_u8, unpack_u16}
use mqttbroker.Pack.RoundTrip.{
  u16_bytes, unpack_u16-u16_bytes, unpack_string16-append, unpack_bytes-append,
}
use mqttbroker.Mqtt.Length.{mqtt_encode_length, mqtt_decode_length}
use mqttbroker.Mqtt.Length.RoundTrip.{decode-encode, encode_short, encode_two}
use mqttbroker.Mqtt.Packet.{MqttConnect, MqttPacket, will_bit, username_bit, password_bit}
use mqttbroker.Mqtt.Unpack.{unpack_optional, unpack_client_id, unpack_mqtt_connect}

-- What a client puts into a CONNECT. The flags say which of the last four texts are there.
pub record ConnectFields : Type 0 where
  pub level : ℕ
  pub flags : ℕ
  pub keepalive : ℕ
  pub client_id : List ℕ
  pub will_topic : List ℕ
  pub will_message : List ℕ
  pub username : List ℕ
  pub password : List ℕ

abbrev pub string16 : List ℕ → List ℕ
string16 s = u16_bytes (length s) ++ s

abbrev pub optional16 : Bool → List ℕ → List ℕ
optional16 flag s = if flag then string16 s else []

-- The payload behind the client identifier (section 3.1.3).
abbrev pub optional_fields : ConnectFields → List ℕ
optional_fields f =
    optional16 (will_bit f.flags == 1) f.will_topic
    ++ (optional16 (will_bit f.flags == 1) f.will_message
        ++ (optional16 (username_bit f.flags == 1) f.username
            ++ optional16 (password_bit f.flags == 1) f.password))

-- The variable header behind the protocol level, and the payload.
abbrev pub connect_tail : ConnectFields → List ℕ
connect_tail f =
    u16_bytes f.keepalive ++ (u16_bytes (length f.client_id) ++ (f.client_id ++ optional_fields f))

-- The variable header and the payload (sections 3.1.2 and 3.1.3): the name MQTT, the level, the flags.
abbrev pub connect_body : ConnectFields → List ℕ
connect_body f = 0 ∷ 4 ∷ b'M' ∷ b'Q' ∷ b'T' ∷ b'T' ∷ f.level ∷ f.flags ∷ connect_tail f

-- The bytes of a CONNECT behind its first byte.
abbrev pub connect_wire : ConnectFields → List ℕ
connect_wire f = mqtt_encode_length (length (connect_body f)) ++ connect_body f

pub record IsConnect (f : ConnectFields) : Type 0 where
  pub keepalive : f.keepalive < 2 ^ 16
  pub client_id : length f.client_id < 2 ^ 16
  pub will_topic : length f.will_topic < 2 ^ 16
  pub will_message : length f.will_message < 2 ^ 16
  pub username : length f.username < 2 ^ 16
  pub password : length f.password < 2 ^ 16

abbrev pub c_string : Bool → List ℕ → Option (List ℕ)
c_string flag s = if flag then some (s ++ (0 ∷ [])) else none

abbrev pub received : ℕ → ConnectFields → MqttConnect
received hdr f = record {
  header = hdr;
  byte = f.flags;
  keepalive = f.keepalive;
  client_id = c_string (ltb 0 (length f.client_id)) f.client_id;
  username = c_string (username_bit f.flags == 1) f.username;
  password = c_string (password_bit f.flags == 1) f.password;
  will_topic = c_string (will_bit f.flags == 1) f.will_topic;
  will_message = c_string (will_bit f.flags == 1) f.will_message;
}

unpack_optional-optional16 :
    (flag : Bool) (s rest : List ℕ)
    → length s < 2 ^ 16
    → unpack_optional flag (optional16 flag s ++ rest) ≡ ok (c_string flag s, rest)
unfolding unpack_optional
unpack_optional-optional16 true s rest h = rw (unpack_string16-append s rest h)
unpack_optional-optional16 false s rest h = refl

unpack_client_id-append :
    (s rest : List ℕ)
    → unpack_client_id (length s) (s ++ rest) ≡ ok (c_string (ltb 0 (length s)) s, rest)
unfolding unpack_client_id
unpack_client_id-append [] rest = refl
unpack_client_id-append (c ∷ s) rest =
    let given : ltb 0 (suc (length s)) ≡ true = ground arith in
    rw (unpack_bytes-append (c ∷ s) rest, given)

-- The reads behind the flags.
abbrev read_tail : ℕ → ℕ → ℕ → List ℕ → Run (ℕ × MqttPacket)
read_tail hdr len byte buf = do
  (keepalive, buf₂) ← unpack_u16 buf
  (cid_len, buf₃) ← unpack_u16 buf₂
  (client_id, buf₄) ← unpack_client_id cid_len buf₃
  (will_topic, buf₅) ← unpack_optional (will_bit byte == 1) buf₄
  (will_message, buf₆) ← unpack_optional (will_bit byte == 1) buf₅
  (username, buf₇) ← unpack_optional (username_bit byte == 1) buf₆
  (password, _) ← unpack_optional (password_bit byte == 1) buf₇
  ok (
    len,
    MqttPacket.connect (record {
      header = hdr;
      byte = byte;
      keepalive = keepalive;
      client_id = client_id;
      username = username;
      password = password;
      will_topic = will_topic;
      will_message = will_message;
    }),
  )

connect_tail_read :
    (hdr len : ℕ) (f : ConnectFields) (rest : List ℕ)
    → IsConnect f
    → read_tail hdr len f.flags (connect_tail f ++ rest)
      ≡ ok (len, MqttPacket.connect (received hdr f))
connect_tail_read hdr len f rest c =
    let w = will_bit f.flags == 1 in
    let u = username_bit f.flags == 1 in
    let p = password_bit f.flags == 1 in
    let r₁ = optional16 p f.password in
    let r₂ = optional16 u f.username ++ r₁ in
    let r₃ = optional16 w f.will_message ++ r₂ in
    rw (
      append_assoc f.client_id (optional_fields f) rest,
      append_assoc (optional16 w f.will_topic) r₃ rest,
      append_assoc (optional16 w f.will_message) r₂ rest,
      append_assoc (optional16 u f.username) r₁ rest,
      unpack_u16-u16_bytes f.keepalive
          (u16_bytes (length f.client_id)
            ++ (f.client_id
                ++ (optional16 w f.will_topic
                    ++ (optional16 w f.will_message ++ (optional16 u f.username ++ (r₁ ++ rest))))))
          c.keepalive,
      unpack_u16-u16_bytes (length f.client_id)
          (f.client_id
            ++ (optional16 w f.will_topic
                ++ (optional16 w f.will_message ++ (optional16 u f.username ++ (r₁ ++ rest)))))
          c.client_id,
      unpack_client_id-append f.client_id (
          optional16 w f.will_topic
          ++ (optional16 w f.will_message ++ (optional16 u f.username ++ (r₁ ++ rest)))),
      unpack_optional-optional16 w f.will_topic
          (optional16 w f.will_message ++ (optional16 u f.username ++ (r₁ ++ rest))) c.will_topic,
      unpack_optional-optional16 w f.will_message (optional16 u f.username ++ (r₁ ++ rest))
          c.will_message,
      unpack_optional-optional16 u f.username (r₁ ++ rest) c.username,
      unpack_optional-optional16 p f.password rest c.password,
    )

-- A CONNECT of the standard whose remaining length takes one byte is parsed into its fields, each
-- optional text where its flag is set, whatever follows it in the buffer.
pub unpack_mqtt_connect-wire :
    (hdr : ℕ) (f : ConnectFields) (rest : List ℕ)
    → IsConnect f
    → length (connect_body f) < 128
    → unpack_mqtt_connect (connect_wire f ++ rest) hdr
      ≡ ok (length (connect_body f), MqttPacket.connect (received hdr f))
unfolding unpack_mqtt_connect unpack_u8
unpack_mqtt_connect-wire hdr f rest c small =
    let n = length (connect_body f) in
    let d : mqtt_decode_length (n ∷ (connect_body f ++ rest)) ≡ ok (n, connect_body f ++ rest) =
      rw (encode_short n small) at (decode-encode n (connect_body f ++ rest) (omega arith)) in
    rw (encode_short n small, d) (connect_tail_read hdr n f rest c)

read_tail_fields :
    (hdr len byte keepalive l : ℕ) (buf buf₂ : List ℕ) (p : MqttConnect)
    → unpack_u16 buf ≡ ok (keepalive, buf₂)
    → read_tail hdr len byte buf ≡ ok (l, MqttPacket.connect p)
    → (p.byte ≡ byte) × (p.keepalive ≡ keepalive)
read_tail_fields hdr len byte keepalive l buf buf₂ p e h =
    let (cid, e₁, h₁) = >>=-eq-ok (unpack_u16 buf₂) _ (rw e at h) in
    let (client, e₂, h₂) = >>=-eq-ok (unpack_client_id cid.0 cid.1) _ h₁ in
    let (topic, e₃, h₃) = >>=-eq-ok (unpack_optional (will_bit byte == 1) client.1) _ h₂ in
    let (message, e₄, h₄) = >>=-eq-ok (unpack_optional (will_bit byte == 1) topic.1) _ h₃ in
    let (user, e₅, h₅) = >>=-eq-ok (unpack_optional (username_bit byte == 1) message.1) _ h₄ in
    let (pass, e₆, h₆) = >>=-eq-ok (unpack_optional (password_bit byte == 1) user.1) _ h₅ in
    (ground (arith, h₆), ground (arith, h₆))

-- With a remaining length of two bytes the flags are taken from the protocol level, and the
-- keepalive time from the flags: whatever the parser returns has those in their place.
pub unpack_mqtt_connect_shifted :
    (hdr len : ℕ) (f : ConnectFields) (rest : List ℕ) (p : MqttConnect)
    → 128 ≤ length (connect_body f)
    → length (connect_body f) < 128 * 128
    → unpack_mqtt_connect (connect_wire f ++ rest) hdr ≡ ok (len, MqttPacket.connect p)
    → (p.byte ≡ f.level) × (p.keepalive ≡ f.flags * 256 + f.keepalive / 256 % 256)
unfolding unpack_mqtt_connect unpack_u8
unpack_mqtt_connect_shifted hdr len f rest p low high h =
    let n = length (connect_body f) in
    let d : mqtt_decode_length ((n % 128 + 128) ∷ (n / 128) ∷ (connect_body f ++ rest))
        ≡ ok (n, connect_body f ++ rest) =
      rw (encode_two n low high) at (decode-encode n (connect_body f ++ rest) (omega arith)) in
    read_tail_fields hdr n f.level (f.flags * 256 + f.keepalive / 256 % 256) len
      (f.flags ∷ (connect_tail f ++ rest)) (drop 1 (connect_tail f) ++ rest) p
      (unfold unpack_u16 in refl) (rw (encode_two n low high, d) at h)
