-- ===== src/Mqtt/Ack.antt =====
-- The acknowledgements and the packets without payload: the deserializers and serializers of
-- sdk_src/mqtt_client_common.c, `serialize_pub_ack_packet` of sdk_src/mqtt_client_publish.c and
-- `_deserialize_connack_packet` of sdk_src/mqtt_client_connect.c.
-- A deserializer takes what the buffer holds and `buf_len`; a serializer returns the bytes that
-- it writes from the buffer's start, and their number is `*serialized_len`.
pub mod RoundTrip
pub mod Safety
use esp_qcloud.Prelude.{
  ℕ, zero, suc, ◌+◌, ◌-◌, bit_and, Bool, List, [], ◌∷◌, ◌++◌, ltb, leb, ◌==◌, not, if◌then◌else◌,
  Outcome, ok, err, ◌>>=◌,
}
use esp_qcloud.Prelude.Codes.{
  Code, failure, buf_too_short, mqtt_connack_unacceptable_protocol_version,
  mqtt_connack_identifier_rejected, mqtt_connack_server_unavailable, mqtt_connack_bad_userdata,
  mqtt_connack_not_authorized, mqtt_connack_unknown,
}
use esp_qcloud.Mqtt.Wire.{
  Cursor, read_char, read_uint16, read_rem_len, write_packet_rem_len, write_uint_16,
}
use esp_qcloud.Mqtt.Header.{
  MessageType, pubrel, suback, unsuback, connack, type_code, qos0, qos1, init_packet_header,
  header_type, header_dup,
}

pub record Ack : Type 0 where
  pub packet_type : ℕ
  pub dup : ℕ
  pub packet_id : ℕ

-- What follows the packet id, if the packet goes on: a code that must be 0.
ack_code : ℕ → Cursor → Outcome (Unit {0})
ack_code enddata cur =
    if leb 1 (enddata - cur.1)
    then (do (code, next) ← read_char cur; if code == 0 then ok tt else err failure)
    else ok tt

unfoldable pub deserialize_ack_packet : List ℕ → ℕ → Outcome Ack
unfolding ack_code
deserialize_ack_packet buf buf_len = if ltb buf_len 4 then err buf_too_short else do
  (header, cur) ← read_char (buf, 0)
  (decoded_len, cur) ← read_rem_len cur
  let enddata = cur.1 + decoded_len
  if ltb (enddata - cur.1) 2 then err failure else do
    (id, cur) ← read_uint16 cur
    _ ← ack_code enddata cur
    ok (record { packet_type = header_type header; dup = header_dup header; packet_id = id })

-- `while (curdata < enddata)`, by the bytes left; `count` is the index that is written next.
unfoldable pub read_granted : ℕ → Cursor → ℕ → ℕ → Outcome (List ℕ)
read_granted zero cur max_count count = ok []
read_granted (suc left) cur max_count count = if ltb max_count count then err failure else do
  (qos, cur) ← read_char cur
  granted ← read_granted left cur max_count (count + 1)
  ok (qos ∷ granted)

-- The packet id, and the granted QoSs whose number is `*count`.
unfoldable pub deserialize_suback_packet : ℕ → List ℕ → ℕ → Outcome (ℕ × List ℕ)
deserialize_suback_packet max_count buf buf_len = if ltb buf_len 5 then err buf_too_short else do
  (header, cur) ← read_char (buf, 0)
  if not (header_type header == type_code suback) then err failure else do
    (decoded_len, cur) ← read_rem_len cur
    let enddata = cur.1 + decoded_len
    if ltb (enddata - cur.1) 2 then err failure else do
      (id, cur) ← read_uint16 cur
      granted ← read_granted (enddata - cur.1) cur max_count 0
      ok (id, granted)

unfoldable pub deserialize_unsuback_packet : List ℕ → ℕ → Outcome ℕ
deserialize_unsuback_packet buf buf_len = do
  ack ← deserialize_ack_packet buf buf_len
  if ack.packet_type == type_code unsuback then ok ack.packet_id else err failure

-- Whether the server accepted the connection, by its return code.
unfoldable pub connack_result : ℕ → Outcome (Unit {0})
connack_result c =
    if c == 0
    then ok tt
    else if c == 1
    then err mqtt_connack_unacceptable_protocol_version
    else if c == 2
    then err mqtt_connack_identifier_rejected
    else if c == 3
    then err mqtt_connack_server_unavailable
    else if c == 4
    then err mqtt_connack_bad_userdata
    else if c == 5
    then err mqtt_connack_not_authorized
    else err mqtt_connack_unknown

-- `*sessionPresent` and `*connack_rc`, which is an outcome of its own.
unfoldable pub deserialize_connack_packet : List ℕ → ℕ → Outcome (ℕ × Outcome (Unit {0}))
unfolding connack_result
deserialize_connack_packet buf buf_len = if ltb buf_len 4 then err buf_too_short else do
  (header, cur) ← read_char (buf, 0)
  if not (header_type header == type_code connack) then err failure else do
    (decoded_len, cur) ← read_rem_len cur
    let enddata = cur.1 + decoded_len
    if not (enddata - cur.1 == 2) then err failure else do
      (flags, cur) ← read_char cur
      (connack_rc_char, cur) ← read_char cur
      ok (bit_and flags 0x01, connack_result connack_rc_char)

unfoldable pub serialize_packet_with_zero_payload : ℕ → MessageType → Outcome (List ℕ)
serialize_packet_with_zero_payload buf_len packet_type =
    if ltb buf_len 4
    then err buf_too_short
    else do header ← init_packet_header packet_type qos0 0 0; ok (header ∷ write_packet_rem_len 0)

-- The QoS bits of a PUBREL are those of QOS1.
unfoldable pub request_qos : MessageType → ℕ
request_qos pubrel = qos1
request_qos _ = qos0

-- The header is made before the buffer is tested, and its error is looked at after.
unfoldable pub serialize_pub_ack_packet : ℕ → MessageType → ℕ → ℕ → Outcome (List ℕ)
unfolding request_qos
serialize_pub_ack_packet buf_len packet_type dup packet_id =
    if ltb buf_len 4 then err buf_too_short else do
      header ← init_packet_header packet_type (request_qos packet_type) dup 0
      ok (header ∷ (write_packet_rem_len 2 ++ write_uint_16 packet_id))
