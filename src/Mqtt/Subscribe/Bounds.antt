-- ===== src/Mqtt/Subscribe/Bounds.antt =====
-- The sizes of SUBSCRIBE and UNSUBSCRIBE packets for one topic filter, which is all that the
-- client asks for.
use esp_qcloud.Prelude.{
  ℕ, ◌+◌, ◌^◌, ◌≤◌, ◌<◌, ◌≡◌, arith, List, [], ◌∷◌, ◌++◌, length, length-append, ok,
}
use esp_qcloud.Mqtt.Wire.{
  get_mqtt_packet_len, write_packet_rem_len, write_uint_16, write_utf8_string,
}
use esp_qcloud.Mqtt.Wire.RemLen.{get_mqtt_packet_len_bounds}
use esp_qcloud.Mqtt.Header.{subscribe, unsubscribe, type_code, qos1, header_type, header_qos}
use esp_qcloud.Mqtt.Header.RoundTrip.{init_packet_header_fields}
use esp_qcloud.Mqtt.Subscribe.{
  serialize_subscribe_packet, serialize_unsubscribe_packet, get_subscribe_packet_rem_len,
  get_unsubscribe_packet_rem_len,
}

-- For one topic filter of fewer than 2 ^ 16 bytes the SUBSCRIBE packet, if it fits the buffer as
-- counted, has the type SUBSCRIBE, QoS 1 in its header, a remaining length that is the number of
-- bytes behind it, the packet id, the length-delimited filter and the requested QoS, and it does
-- fit the buffer.
pub serialize_subscribe_one :
    (buf_len id qos : ℕ) (topic_filter : List ℕ)
    → length topic_filter < 2 ^ 16
    → qos < 256
    → get_mqtt_packet_len (5 + length topic_filter) ≤ buf_len
    → (h : ℕ) × (serialize_subscribe_packet buf_len 0 id topic_filter (qos ∷ [])
        ≡ ok (
            h
            ∷ (write_packet_rem_len (5 + length topic_filter)
                ++ (write_uint_16 id ++ (write_utf8_string topic_filter ++ (qos ∷ []))))))
      × (header_type h ≡ type_code subscribe)
      × (header_qos h ≡ qos1)
      × (length (write_uint_16 id ++ (write_utf8_string topic_filter ++ (qos ∷ [])))
          ≡ 5 + length topic_filter)
      × (1 + length (write_packet_rem_len (5 + length topic_filter)) + (5 + length topic_filter)
          ≤ buf_len)
unfolding serialize_subscribe_packet get_subscribe_packet_rem_len write_uint_16 write_utf8_string
serialize_subscribe_one buf_len id qos topic hl hq hb =
    let (h, made, _, type_back, _, qos_back, _) =
      init_packet_header_fields subscribe qos1 0 0 (λ e. cc) (omega arith) (omega arith)
        (omega arith) in
    (
      h,
      ground (arith, made),
      type_back,
      qos_back,
      omega (arith, length-append topic (qos ∷ [])),
      omega (arith, get_mqtt_packet_len_bounds (5 + length topic)),
    )

-- The same for UNSUBSCRIBE, whose payload is the filter alone.
pub serialize_unsubscribe_one :
    (buf_len id : ℕ) (topic_filter : List ℕ)
    → length topic_filter < 2 ^ 16
    → get_mqtt_packet_len (4 + length topic_filter) ≤ buf_len
    → (h : ℕ) × (serialize_unsubscribe_packet buf_len 0 id 1 topic_filter
        ≡ ok (
            h
            ∷ (write_packet_rem_len (4 + length topic_filter)
                ++ (write_uint_16 id ++ (write_utf8_string topic_filter ++ [])))))
      × (header_type h ≡ type_code unsubscribe)
      × (header_qos h ≡ qos1)
      × (length (write_uint_16 id ++ (write_utf8_string topic_filter ++ []))
          ≡ 4 + length topic_filter)
      × (1 + length (write_packet_rem_len (4 + length topic_filter)) + (4 + length topic_filter)
          ≤ buf_len)
unfolding serialize_unsubscribe_packet get_unsubscribe_packet_rem_len write_uint_16
    write_utf8_string
serialize_unsubscribe_one buf_len id topic hl hb =
    let (h, made, _, type_back, _, qos_back, _) =
      init_packet_header_fields unsubscribe qos1 0 0 (λ e. cc) (omega arith) (omega arith)
        (omega arith) in
    (
      h,
      ground (arith, made),
      type_back,
      qos_back,
      omega (arith, length-append topic []),
      omega (arith, get_mqtt_packet_len_bounds (4 + length topic)),
    )
