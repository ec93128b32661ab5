-- ===== src/Mqtt/Ack/RoundTrip.antt =====
-- Acknowledgements read back: those that the client writes, and a SUBACK of a server.
use esp_qcloud.Prelude.{
  ℕ, ◌+◌, ◌*◌, ◌/◌, ◌%◌, ◌^◌, ◌≤◌, ◌<◌, ◌≡◌, refl, ◌≢◌, arith, List, [], ◌∷◌, ◌++◌, length, leb,
  if◌then◌else◌, ok, err, ◌>>=◌,
}
use esp_qcloud.Prelude.Codes.{failure}
use esp_qcloud.Mqtt.Wire.{
  read_char, read_uint16, read_rem_len, write_packet_rem_len, write_packet_rem_len_loop,
  write_uint_16, read_packet_rem_len_form_buf, decode_packet_rem_len,
}
use esp_qcloud.Mqtt.Wire.RemLen.{read-write_packet_rem_len}
use esp_qcloud.Mqtt.Header.{MessageType, reserved, type_code, header_type, header_dup}
use esp_qcloud.Mqtt.Header.RoundTrip.{init_packet_header_fields}
use esp_qcloud.Mqtt.Ack.{
  deserialize_ack_packet, deserialize_suback_packet, read_granted, serialize_pub_ack_packet,
  request_qos,
}

request_qos-lt : (t : MessageType) → request_qos t < 3
unfolding request_qos
request_qos-lt MessageType.pubrel = omega arith
request_qos-lt _ = omega arith

uint16_read_back : (id : ℕ) → id < 2 ^ 16 → (id % 256 + 256 * (id / 256 % 256)) % 2 ^ 16 ≡ id
uint16_read_back id h = omega arith

four_bytes :
    (h id : ℕ) (rest : List ℕ) (buf_len : ℕ)
    → id < 2 ^ 16
    → 4 ≤ buf_len
    → deserialize_ack_packet (h ∷ 2 ∷ id / 256 % 256 ∷ id % 256 ∷ rest) buf_len
      ≡ ok (record { packet_type = header_type h; dup = header_dup h; packet_id = id })
unfolding deserialize_ack_packet read_char read_uint16 read_rem_len read_packet_rem_len_form_buf
    decode_packet_rem_len
four_bytes h id rest buf_len hi hb = ground (arith, uint16_read_back id hi)

-- An acknowledgement of any type but RESERVED takes four bytes of a buffer of four or more. From
-- these bytes, whatever follows them, its type, its dup flag and its packet id are read back.
pub deserialize-serialize_pub_ack :
    (t : MessageType) (dup id buf_len read_len : ℕ) (rest : List ℕ)
    → t ≢ reserved
    → dup < 2
    → id < 2 ^ 16
    → 4 ≤ buf_len
    → 4 ≤ read_len
    → (bytes : List ℕ) × (serialize_pub_ack_packet buf_len t dup id ≡ ok bytes)
      × (length bytes ≡ 4)
      × (deserialize_ack_packet (bytes ++ rest) read_len
          ≡ ok (record { packet_type = type_code t; dup = dup; packet_id = id }))
unfolding serialize_pub_ack_packet write_packet_rem_len write_packet_rem_len_loop write_uint_16
deserialize-serialize_pub_ack t dup id buf_len read_len rest ne hd hi hb hr =
    let (h, made, _, type_back, dup_back, _, _) =
      init_packet_header_fields t (request_qos t) dup 0 ne (request_qos-lt t) hd (omega arith) in
    (
      h ∷ 2 ∷ id / 256 % 256 ∷ id % 256 ∷ [],
      ground (arith, made),
      refl,
      ground (arith, four_bytes h id rest read_len hi hr, type_back, dup_back),
    )

-- The payload of a SUBACK is read whole if it has at most `max_count + 1` codes.
read_granted_all :
    (codes rest : List ℕ) (at max_count count : ℕ)
    → count + length codes ≤ max_count + 1
    → read_granted (length codes) (codes ++ rest, at) max_count count ≡ ok codes
unfolding read_granted read_char
read_granted_all [] rest at max_count count h = refl
read_granted_all (c ∷ cs) rest at max_count count h =
    ground (arith, read_granted_all cs rest (at + 1) max_count (count + 1))

read_granted_too_many :
    (codes rest : List ℕ) (at max_count count : ℕ)
    → 0 < length codes
    → max_count + 1 < count + length codes
    → read_granted (length codes) (codes ++ rest, at) max_count count ≡ err failure
unfolding read_granted read_char
read_granted_too_many [] rest at max_count count pos h = absurd (omega arith)
read_granted_too_many (c ∷ []) rest at max_count count pos h = ground arith
read_granted_too_many (c ∷ d ∷ cs) rest at max_count count pos h =
    ground (arith, read_granted_too_many (d ∷ cs) rest (at + 1) max_count (count + 1))

one_byte_len :
    (n : ℕ) (rest : List ℕ) → n < 128 → read_packet_rem_len_form_buf (n ∷ rest) ≡ ok (n, 1)
unfolding write_packet_rem_len write_packet_rem_len_loop
one_byte_len n rest h = ground (arith, read-write_packet_rem_len n rest)

suback_payload :
    (h id max_count read_len : ℕ) (codes rest : List ℕ)
    → header_type h ≡ type_code MessageType.suback
    → id < 2 ^ 16
    → length codes < 126
    → 5 ≤ read_len
    → deserialize_suback_packet max_count
        (h ∷ (2 + length codes) ∷ id / 256 % 256 ∷ id % 256 ∷ (codes ++ rest))
        read_len
      ≡ (do granted ← read_granted (length codes) (codes ++ rest, 4) max_count 0; ok (id, granted))
unfolding deserialize_suback_packet read_char read_uint16 read_rem_len
suback_payload h id max_count read_len codes rest ht hi hn hr = ground (
  arith,
  one_byte_len (2 + length codes) (id / 256 % 256 ∷ id % 256 ∷ (codes ++ rest)),
  uint16_read_back id hi,
)

-- A SUBACK with a packet id and fewer than 126 return codes is read as that id and those codes,
-- in order, if there are at most `max_count + 1` of them. With more it is refused.
pub deserialize_suback_codes :
    (h id max_count read_len : ℕ) (codes rest : List ℕ)
    → header_type h ≡ type_code MessageType.suback
    → id < 2 ^ 16
    → length codes < 126
    → 5 ≤ read_len
    → deserialize_suback_packet max_count
        (h ∷ (2 + length codes) ∷ id / 256 % 256 ∷ id % 256 ∷ (codes ++ rest))
        read_len
      ≡ (if leb (length codes) (max_count + 1) then ok (id, codes) else err failure)
deserialize_suback_codes h id max_count read_len codes rest ht hi hn hr = ground (
  arith,
  suback_payload h id max_count read_len codes rest ht hi hn hr,
  read_granted_all codes rest 4 max_count 0,
  read_granted_too_many codes rest 4 max_count 0,
)
