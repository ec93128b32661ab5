-- ===== src/Mqtt/Publish/Bounds.antt =====
-- The sizes of PUBLISH packets.
use esp_qcloud.Prelude.{
  ℕ, ◌+◌, ◌-◌, ◌/◌, ◌%◌, ◌^◌, ◌≤◌, ◌<◌, ◌≡◌, arith, some, List, [], ◌∷◌, ◌++◌, length,
  length-append, ok,
}
use esp_qcloud.Mqtt.Wire.{
  get_mqtt_packet_len, write_packet_rem_len, write_uint_16, write_utf8_string,
}
use esp_qcloud.Mqtt.Wire.RemLen.{get_mqtt_packet_len_bounds}
use esp_qcloud.Mqtt.Header.{init_packet_header}
use esp_qcloud.Mqtt.Publish.{get_publish_packet_len, id_field, serialize_publish_packet}

pub length-id_field : (qos id : ℕ) → length (id_field qos id) ≡ get_publish_packet_len qos [] 0 - 2
unfolding id_field get_publish_packet_len write_uint_16
length-id_field qos id = ground arith

-- The bytes behind the remaining length are as many as it says.
pub length-body :
    (qos id : ℕ) (topic payload : List ℕ)
    → length topic + length payload + 4 < 2 ^ 32
    → length (write_utf8_string topic ++ (id_field qos id ++ payload))
      ≡ get_publish_packet_len qos topic (length payload)
unfolding write_utf8_string id_field get_publish_packet_len write_uint_16
length-body qos id topic payload h =
    ground (
      arith,
      length-append topic payload,
      length-append topic (id / 256 % 256 ∷ id % 256 ∷ payload),
    )

-- Without the header a big remaining length counts as big: nothing wraps below 2 ^ 32 - 5.
get_mqtt_packet_len-le : (n : ℕ) → n + 5 < 2 ^ 32 → n ≤ get_mqtt_packet_len n
unfolding get_mqtt_packet_len
get_mqtt_packet_len-le n h = ground arith

-- A PUBLISH packet that is made fits the buffer. The topic and the payload may be of any length
-- as long as their sum is below 2 ^ 32 - 9, and the buffer is shorter than 2 ^ 28 bytes.
pub serialize_publish_packet_fits :
    (buf_len dup qos retained id : ℕ) (topic payload bytes : List ℕ)
    → length topic + length payload + 9 < 2 ^ 32
    → buf_len < 2 ^ 28
    → serialize_publish_packet buf_len dup qos retained id topic (some payload) ≡ ok bytes
    → length bytes ≤ buf_len
unfolding serialize_publish_packet init_packet_header
serialize_publish_packet_fits buf_len dup qos retained id topic payload bytes h hb e =
    let rem_len = get_publish_packet_len qos topic (length payload) in
    ground (
      arith,
      length-body qos id topic payload,
      length-append (write_packet_rem_len rem_len)
          (write_utf8_string topic ++ (id_field qos id ++ payload)),
      get_mqtt_packet_len-le rem_len,
      get_mqtt_packet_len_bounds rem_len,
      rem_len-lt,
    )
  where
    rem_len-lt : get_publish_packet_len qos topic (length payload) + 5 < 2 ^ 32
    rem_len-lt = unfold get_publish_packet_len in ground arith
