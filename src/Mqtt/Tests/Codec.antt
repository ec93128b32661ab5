-- ===== src/Mqtt/Tests/Codec.antt =====
-- Packets at concrete inputs.
use esp_qcloud.Prelude.{
  ℕ, ◌+◌, ◌≤◌, ◌≡◌, ◌≢◌, refl, arith, List, [], ◌∷◌, ◌++◌, length, take, none, some, ltb,
  if◌then◌else◌, ok, fault,
}
use esp_qcloud.Mqtt.Wire.{
  write_packet_rem_len, write_packet_rem_len_loop, read_packet_rem_len_form_buf,
  decode_packet_rem_len, get_mqtt_packet_len, write_uint_16, write_utf8_string, read_rem_len,
}
use esp_qcloud.Mqtt.Wire.RemLen.{read-write_packet_rem_len}
use esp_qcloud.Mqtt.Header.{MessageType, type_code, init_packet_header, header_type, header_qos}
use esp_qcloud.Mqtt.Publish.{
  Publish, id_field, serialize_publish_packet, deserialize_publish_packet, get_publish_packet_len,
}
use esp_qcloud.Mqtt.Publish.RoundTrip.{deserialize-serialize_publish}

rem_len_300 : write_packet_rem_len 300 ≡ 0xac ∷ 0x02 ∷ []
unfolding write_packet_rem_len write_packet_rem_len_loop
rem_len_300 = refl

rem_len_cut : read_packet_rem_len_form_buf (0x80 ∷ []) ≡ fault
unfolding read_packet_rem_len_form_buf decode_packet_rem_len
rem_len_cut = refl

read-write_packet_rem_len_example :
    read_packet_rem_len_form_buf (write_packet_rem_len 300 ++ (9 ∷ []))
    ≡ ok (300, length (write_packet_rem_len 300))
read-write_packet_rem_len_example = read-write_packet_rem_len 300 (9 ∷ []) (omega arith)

suback_header : header_type 0x90 ≡ type_code MessageType.suback
unfolding header_type type_code
suback_header = refl

two_left : read_rem_len (2 ∷ 0 ∷ 7 ∷ [], 1) ≡ ok (2, (0 ∷ 7 ∷ [], 2))
unfolding read_rem_len read_packet_rem_len_form_buf decode_packet_rem_len
two_left = refl

abbrev topic_ab : List ℕ
topic_ab = b'a' ∷ b'/' ∷ b'b' ∷ []

deserialize-serialize_publish_example :
    (bytes : List ℕ) × (p : Publish) × (serialize_publish_packet 2048 0 1 0 5 topic_ab
        (some (1 ∷ 2 ∷ []))
      ≡ ok bytes)
    × (deserialize_publish_packet (bytes ++ (9 ∷ [])) 2048 ≡ ok p)
    × (p.dup ≡ 0)
    × (p.qos ≡ 1)
    × (p.retained ≡ 0)
    × (p.packet_id ≡ (if ltb 0 1 then some 5 else none))
    × (take p.topic_len p.topic_name.0 ≡ topic_ab)
    × (take p.payload_len p.payload.0 ≡ 1 ∷ 2 ∷ [])
deserialize-serialize_publish_example =
    deserialize-serialize_publish 0 1 0 5 2048 2048 topic_ab (1 ∷ 2 ∷ []) (9 ∷ []) (omega arith)
      (omega arith) (omega arith) (omega arith) (omega arith) (omega arith) small (omega arith)
  where
    small : get_mqtt_packet_len (get_publish_packet_len 1 topic_ab 2) ≤ 2048
    small = unfold get_mqtt_packet_len get_publish_packet_len in omega arith

publish_bytes :
    serialize_publish_packet 20 0 0 0 0 topic_ab (some (7 ∷ []))
    ≡ ok (0x30 ∷ 6 ∷ 0 ∷ 3 ∷ b'a' ∷ b'/' ∷ b'b' ∷ 7 ∷ [])
unfolding serialize_publish_packet get_mqtt_packet_len get_publish_packet_len init_packet_header
    write_packet_rem_len write_packet_rem_len_loop write_utf8_string write_uint_16 type_code
    id_field
publish_bytes = refl

publish_header : header_type 0x32 ≡ type_code MessageType.publish
unfolding header_type type_code
publish_header = refl

publish_qos : header_qos 0x32 ≢ 0
unfolding header_qos
publish_qos = omega arith

small_subscribe : get_mqtt_packet_len (5 + 3) ≤ 64
unfolding get_mqtt_packet_len
small_subscribe = omega arith

small_unsubscribe : get_mqtt_packet_len (4 + 3) ≤ 64
unfolding get_mqtt_packet_len
small_unsubscribe = omega arith
