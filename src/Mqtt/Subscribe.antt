-- ===== src/Mqtt/Subscribe.antt =====
-- The SUBSCRIBE and UNSUBSCRIBE packets: sdk_src/mqtt_client_subscribe.c and
-- sdk_src/mqtt_client_unsubscribe.c. The topic filters reach the serializers as `*topicFilters`,
-- one string: the loops take `*topicFilters + i` for the string of round `i`.
pub mod Bounds
use esp_qcloud.Prelude.{
  ℕ, zero, suc, ◌+◌, ◌%◌, ◌^◌, List, [], ◌∷◌, ◌++◌, length, drop, ltb, leb, if◌then◌else◌, Outcome,
  ok, err, fault, ◌>>=◌,
}
use esp_qcloud.Prelude.Codes.{buf_too_short}
use esp_qcloud.Mqtt.Wire.{
  get_mqtt_packet_len, write_packet_rem_len, write_uint_16, write_utf8_string,
}
use esp_qcloud.Mqtt.Header.{subscribe, unsubscribe, qos1, init_packet_header}

-- `*topicFilters + i` as a string; past the terminator there is none.
unfoldable pub topic_filter_at : List ℕ → ℕ → Outcome (List ℕ)
topic_filter_at topic_filter i =
    if leb i (length topic_filter) then ok (drop i topic_filter) else fault

-- The loop of the remaining length, by the rounds left: `extra` is what each round adds to the
-- length of its string.
rem_len_loop : ℕ → ℕ → ℕ → List ℕ → ℕ → Outcome ℕ
rem_len_loop extra zero i topic_filter len = ok len
rem_len_loop extra (suc left) i topic_filter len = do
  topic ← topic_filter_at topic_filter i
  rem_len_loop extra left (i + 1) topic_filter ((len + (extra + length topic)) % 2 ^ 32)

unfoldable pub get_subscribe_packet_rem_len : ℕ → List ℕ → Outcome ℕ
unfolding rem_len_loop topic_filter_at
get_subscribe_packet_rem_len count topic_filter = rem_len_loop 3 count 0 topic_filter 2

unfoldable pub get_unsubscribe_packet_rem_len : ℕ → List ℕ → Outcome ℕ
unfolding rem_len_loop topic_filter_at
get_unsubscribe_packet_rem_len count topic_filter = rem_len_loop 2 count 0 topic_filter 2

-- The payload of a SUBSCRIBE: a string and its requested QoS for each of `requestedQoSs`.
subscribe_payload : ℕ → List ℕ → List ℕ → Outcome (List ℕ)
subscribe_payload i topic_filter [] = ok []
subscribe_payload i topic_filter (qos ∷ qoss) = do
  topic ← topic_filter_at topic_filter i
  later ← subscribe_payload (i + 1) topic_filter qoss
  ok (write_utf8_string topic ++ ((qos % 256) ∷ later))

-- `count` is the length of `requestedQoSs`.
unfoldable pub serialize_subscribe_packet : ℕ → ℕ → ℕ → List ℕ → List ℕ → Outcome (List ℕ)
unfolding subscribe_payload topic_filter_at
serialize_subscribe_packet buf_len dup packet_id topic_filter requested_qoss = do
  rem_len ← get_subscribe_packet_rem_len (length requested_qoss) topic_filter
  if ltb buf_len (get_mqtt_packet_len rem_len) then err buf_too_short else do
    header ← init_packet_header subscribe qos1 dup 0
    payload ← subscribe_payload 0 topic_filter requested_qoss
    ok (header ∷ (write_packet_rem_len rem_len ++ (write_uint_16 packet_id ++ payload)))

unsubscribe_payload : ℕ → ℕ → List ℕ → Outcome (List ℕ)
unsubscribe_payload zero i topic_filter = ok []
unsubscribe_payload (suc left) i topic_filter = do
  topic ← topic_filter_at topic_filter i
  later ← unsubscribe_payload left (i + 1) topic_filter
  ok (write_utf8_string topic ++ later)

unfoldable pub serialize_unsubscribe_packet : ℕ → ℕ → ℕ → ℕ → List ℕ → Outcome (List ℕ)
unfolding unsubscribe_payload topic_filter_at
serialize_unsubscribe_packet buf_len dup packet_id count topic_filter = do
  rem_len ← get_unsubscribe_packet_rem_len count topic_filter
  if ltb buf_len (get_mqtt_packet_len rem_len) then err buf_too_short else do
    header ← init_packet_header unsubscribe qos1 dup 0
    payload ← unsubscribe_payload count 0 topic_filter
    ok (header ∷ (write_packet_rem_len rem_len ++ (write_uint_16 packet_id ++ payload)))
