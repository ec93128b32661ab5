-- ===== src/Mqtt/Publish.antt =====
-- The PUBLISH packet: sdk_src/mqtt_client_publish.c. A pointer into the read buffer is a cursor.
pub mod RoundTrip
pub mod Bounds
use esp_qcloud.Prelude.{
  ℕ, ◌+◌, ◌-◌, ◌%◌, ◌^◌, Option, none, some, List, [], ◌∷◌, ◌++◌, length, ltb, leb, ◌==◌, not,
  if◌then◌else◌, Outcome, ok, err, ◌>>=◌,
}
use esp_qcloud.Prelude.Codes.{failure, buf_too_short, inval}
use esp_qcloud.Mqtt.Wire.{
  Cursor, advance, read_char, read_uint16, read_rem_len, get_mqtt_packet_len, write_packet_rem_len,
  write_uint_16, write_utf8_string,
}
use esp_qcloud.Mqtt.Header.{
  publish, type_code, qos0, init_packet_header, header_type, header_dup, header_qos, header_retain,
}

abbrev pub rx_buf_len : ℕ
rx_buf_len = 2048

-- `_read_string_with_len`: where the string begins, its length, and the cursor behind it.
unfoldable pub read_string_with_len : Cursor → ℕ → Outcome (Cursor × ℕ × Cursor)
read_string_with_len cur enddata =
    if ltb 1 (enddata - cur.1)
    then (do
      (string_len, cur) ← read_uint16 cur
      if ltb rx_buf_len string_len
          then err failure
          else if leb (cur.1 + string_len) enddata
          then ok (cur, string_len, advance string_len cur)
          else err failure)
    else err failure

pub record Publish : Type 0 where
  pub dup : ℕ
  pub qos : ℕ
  pub retained : ℕ
  pub packet_id : Option ℕ
  pub topic_name : Cursor
  pub topic_len : ℕ
  pub payload : Cursor
  pub payload_len : ℕ

-- The packet id is read for QoS 1, 2 and 3, with no test against `enddata`.
unfoldable pub read_packet_id : ℕ → Cursor → Outcome (Option ℕ × Cursor)
read_packet_id qos cur =
    if qos == qos0 then ok (none, cur) else do (id, cur) ← read_uint16 cur; ok (some id, cur)

-- `*payload_len` is the difference `enddata - curdata`, cast to a `size_t`.
unfoldable pub deserialize_publish_packet : List ℕ → ℕ → Outcome Publish
deserialize_publish_packet buf buf_len = if ltb buf_len 4 then err buf_too_short else do
  (header, cur) ← read_char (buf, 0)
  if not (header_type header == type_code publish) then err failure else do
    (decoded_len, cur) ← read_rem_len cur
    let enddata = cur.1 + decoded_len
    (topic, topic_len, cur) ← read_string_with_len cur enddata
    (id, cur) ← read_packet_id (header_qos header) cur
    ok (record {
      dup = header_dup header;
      qos = header_qos header;
      retained = header_retain header;
      packet_id = id;
      topic_name = topic;
      topic_len = topic_len;
      payload = cur;
      payload_len = (2 ^ 32 + enddata - cur.1) % 2 ^ 32;
    })

-- `_get_publish_packet_len`: the remaining length.
unfoldable pub get_publish_packet_len : ℕ → List ℕ → ℕ → ℕ
get_publish_packet_len qos topic_name payload_len =
    let len = (2 + length topic_name + payload_len) % 2 ^ 32 in
    if ltb 0 qos then (len + 2) % 2 ^ 32 else len

-- The variable header's packet id.
unfoldable pub id_field : ℕ → ℕ → List ℕ
id_field qos packet_id = if ltb 0 qos then write_uint_16 packet_id else []

-- `_serialize_publish_packet`; a payload of `none` is a null pointer.
unfoldable pub serialize_publish_packet :
    ℕ → ℕ → ℕ → ℕ → ℕ → List ℕ → Option (List ℕ) → Outcome (List ℕ)
serialize_publish_packet buf_len dup qos retained packet_id topic_name none = err inval
serialize_publish_packet buf_len dup qos retained packet_id topic_name (some payload) =
    let rem_len = get_publish_packet_len qos topic_name (length payload) in
    if ltb buf_len (get_mqtt_packet_len rem_len) then err buf_too_short else do
      header ← init_packet_header publish qos dup retained
      ok (
          header
          ∷ (write_packet_rem_len rem_len
              ++ (write_utf8_string topic_name ++ (id_field qos packet_id ++ payload))))
