-- ===== src/Mqtt/Publish/RoundTrip.antt =====
-- A PUBLISH packet that is written is read back.
use esp_qcloud.Prelude.{
  ℕ, ◌+◌, ◌-◌, ◌*◌, ◌/◌, ◌%◌, ◌^◌, ◌≤◌, ◌<◌, ◌≡◌, ◌≢◌, refl, arith, none, some, List, ◌∷◌, ◌++◌,
  length, take, take-length-append, drop-length-append, ltb, if◌then◌else◌, ok,
}
use mathlib.Core.List.{append_assoc}
use esp_qcloud.Mqtt.Wire.{
  read_char, read_uint16, read_rem_len, get_mqtt_packet_len, write_packet_rem_len, write_uint_16,
  write_utf8_string,
}
use esp_qcloud.Mqtt.Wire.RemLen.{read-write_packet_rem_len}
use esp_qcloud.Mqtt.Header.{publish, type_code, header_type}
use esp_qcloud.Mqtt.Header.{header_dup, header_qos, header_retain}
use esp_qcloud.Mqtt.Header.RoundTrip.{init_packet_header_fields}
use esp_qcloud.Mqtt.Publish.{
  Publish, deserialize_publish_packet, read_string_with_len, read_packet_id,
  serialize_publish_packet, get_publish_packet_len, id_field,
}

-- The remaining length, read back together with the step past it.
pub read_rem_len-write :
    (n at : ℕ) (rest : List ℕ)
    → n < 2 ^ 28
    → read_rem_len (write_packet_rem_len n ++ rest, at)
      ≡ ok (n, (rest, at + length (write_packet_rem_len n)))
unfolding read_rem_len
read_rem_len-write n at rest h =
    rw (read-write_packet_rem_len n rest h, drop-length-append (write_packet_rem_len n) rest)

-- A topic that fits, read back: its place, its length and the place behind it.
read_topic :
    (topic rest : List ℕ) (at enddata : ℕ)
    → length topic ≤ 2048
    → at + 2 + length topic ≤ enddata
    → read_string_with_len (write_utf8_string topic ++ rest, at) enddata
      ≡ ok ((topic ++ rest, at + 2), length topic, (rest, at + 2 + length topic))
unfolding read_string_with_len write_utf8_string write_uint_16 read_uint16
read_topic topic rest at enddata h fits = ground (arith, drop-length-append topic rest, short)
  where
    short :
        (length topic % 2 ^ 16 % 256 + 256 * (length topic % 2 ^ 16 / 256 % 256)) % 2 ^ 16
        ≡ length topic
    short = omega arith

read_id :
    (qos id : ℕ) (rest : List ℕ) (at : ℕ)
    → id < 2 ^ 16
    → read_packet_id qos (id_field qos id ++ rest, at)
      ≡ ok (if ltb 0 qos then some id else none, (rest, at + length (id_field qos id)))
unfolding read_packet_id id_field write_uint_16 read_uint16
read_id qos id rest at h = ground (arith, same)
  where
    same : (id % 256 + 256 * (id / 256 % 256)) % 2 ^ 16 ≡ id
    same = omega arith

-- What the deserializer makes of a packet with header `h` and this QoS.
abbrev parsed : ℕ → ℕ → ℕ → List ℕ → List ℕ → List ℕ → Publish
parsed h qos id topic payload rest =
    let n = get_publish_packet_len qos topic (length payload) in
    let at = 1 + length (write_packet_rem_len n) in
    record {
      dup = header_dup h;
      qos = qos;
      retained = header_retain h;
      packet_id = if ltb 0 qos then some id else none;
      topic_name = (topic ++ (id_field qos id ++ (payload ++ rest)), at + 2);
      topic_len = length topic;
      payload = (payload ++ rest, at + 2 + length topic + length (id_field qos id));
      payload_len = length payload;
    }

rem_len-parts :
    (qos id : ℕ) (topic payload : List ℕ)
    → length topic + length payload + 4 < 2 ^ 28
    → get_publish_packet_len qos topic (length payload)
      ≡ 2 + length topic + length (id_field qos id) + length payload
unfolding get_publish_packet_len id_field write_uint_16
rem_len-parts qos id topic payload h = ground arith

id_field-le : (qos id : ℕ) → length (id_field qos id) ≤ 2
unfolding id_field write_uint_16
id_field-le qos id = ground arith

parse :
    (h qos id read_len : ℕ) (topic payload rest : List ℕ)
    → header_type h ≡ type_code publish
    → header_qos h ≡ qos
    → id < 2 ^ 16
    → length topic ≤ 2048
    → length topic + length payload + 4 < 2 ^ 28
    → 4 ≤ read_len
    → deserialize_publish_packet
        (h
          ∷ (write_packet_rem_len (get_publish_packet_len qos topic (length payload))
              ++ (write_utf8_string topic ++ (id_field qos id ++ (payload ++ rest)))))
        read_len
      ≡ ok (parsed h qos id topic payload rest)
unfolding deserialize_publish_packet read_char
parse h qos id read_len topic payload rest ht hq hi hl hs hr =
    let n = get_publish_packet_len qos topic (length payload) in
    let at = 1 + length (write_packet_rem_len n) in
    let tail = id_field qos id ++ (payload ++ rest) in
    ground (
      arith,
      read_rem_len-write n 1 (write_utf8_string topic ++ tail),
      read_topic topic tail at (at + n),
      read_id qos id (payload ++ rest) (at + 2 + length topic),
      rem_len-parts qos id topic payload,
      id_field-le qos id,
    )

-- A PUBLISH packet is made if its size as counted fits the buffer. For a topic of at most 2048
-- bytes, flags of one bit, a QoS up to 2 and a packet below 2 ^ 28 bytes, the deserializer then
-- reads from it, whatever follows it in the buffer, the same flags and QoS, the packet id if the
-- QoS is not 0, the topic and the payload.
pub deserialize-serialize_publish :
    (dup qos retained id buf_len read_len : ℕ) (topic payload rest : List ℕ)
    → dup < 2
    → qos < 3
    → retained < 2
    → id < 2 ^ 16
    → length topic ≤ 2048
    → length topic + length payload + 4 < 2 ^ 28
    → get_mqtt_packet_len (get_publish_packet_len qos topic (length payload)) ≤ buf_len
    → 4 ≤ read_len
    → (bytes : List ℕ) × (p : Publish) × (serialize_publish_packet buf_len dup qos retained id topic
          (some payload)
        ≡ ok bytes)
      × (deserialize_publish_packet (bytes ++ rest) read_len ≡ ok p)
      × (p.dup ≡ dup)
      × (p.qos ≡ qos)
      × (p.retained ≡ retained)
      × (p.packet_id ≡ (if ltb 0 qos then some id else none))
      × (take p.topic_len p.topic_name.0 ≡ topic)
      × (take p.payload_len p.payload.0 ≡ payload)
unfolding serialize_publish_packet
deserialize-serialize_publish dup qos retained id buf_len read_len topic payload rest hd hq hr hi hl
      hs hb hn =
    let (h, made, _, type_back, dup_back, qos_back, retain_back) =
      init_packet_header_fields publish qos dup retained (λ e. cc) hq hd hr in
    let n = get_publish_packet_len qos topic (length payload) in
    let w = write_utf8_string topic in
    let f = id_field qos id in
    (
      h ∷ (write_packet_rem_len n ++ (w ++ (f ++ payload))),
      parsed h qos id topic payload rest,
      ground (arith, made),
      rw (append_assoc, append_assoc, append_assoc)
          (parse h qos id read_len topic payload rest type_back qos_back hi hl hs hn),
      dup_back,
      refl,
      retain_back,
      refl,
      take-length-append topic _,
      take-length-append payload _,
    )

-- A PUBLISH packet of QoS 1, 2 or 3 that ends before its packet id is complete is accepted: the
-- id is read from behind the packet, and the payload length is 2 ^ 32 less the bytes that the
-- packet lacks.
pub deserialize_publish_no_id :
    (h a b lacks read_len : ℕ) (topic rest : List ℕ)
    → header_type h ≡ type_code publish
    → header_qos h ≢ 0
    → length topic ≤ 2048
    → 1 ≤ lacks
    → lacks ≤ 2
    → 4 ≤ read_len
    → (p : Publish) × (deserialize_publish_packet
          (h
            ∷ (write_packet_rem_len (4 + length topic - lacks)
                ++ (write_utf8_string topic ++ (a ∷ b ∷ rest))))
          read_len
        ≡ ok p)
      × (p.packet_id ≡ some ((b + 256 * a) % 2 ^ 16))
      × (p.payload_len ≡ 2 ^ 32 - lacks)
unfolding deserialize_publish_packet read_char read_packet_id read_uint16
deserialize_publish_no_id h a b lacks read_len topic rest ht hq hl lo hi hr =
    let n = 4 + length topic - lacks in
    let at = 1 + length (write_packet_rem_len n) in
    let tail : List ℕ = a ∷ b ∷ rest in
    (
      record {
        dup = header_dup h;
        qos = header_qos h;
        retained = header_retain h;
        packet_id = some ((b + 256 * a) % 2 ^ 16);
        topic_name = (topic ++ tail, at + 2);
        topic_len = length topic;
        payload = (rest, at + 2 + length topic + 2);
        payload_len = 2 ^ 32 - lacks;
      },
      ground (
        arith,
        read_rem_len-write n 1 (write_utf8_string topic ++ tail),
        read_topic topic tail at (at + n),
      ),
      refl,
      refl,
    )
