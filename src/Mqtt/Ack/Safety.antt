-- ===== src/Mqtt/Ack/Safety.antt =====
-- What the deserializers of acknowledgements may be relied on for with any bytes in the buffer.
use esp_qcloud.Prelude.{ℕ, zero, suc, ◌+◌, ◌≤◌, ◌≡◌, ◌≢◌, arith, List, [], ◌∷◌, length, ok, fault}
use esp_qcloud.Mqtt.Wire.{Cursor, read_char, read_uint16, read_rem_len}
use esp_qcloud.Mqtt.Ack.{deserialize_ack_packet, deserialize_suback_packet, read_granted, ack_code}

read_granted_bound :
    (left : ℕ) (cur : Cursor) (max_count count : ℕ) (granted : List ℕ)
    → count ≤ max_count + 1
    → read_granted left cur max_count count ≡ ok granted
    → count + length granted ≤ max_count + 1
unfolding read_granted read_char
read_granted_bound zero cur max_count count granted h e = ground arith
read_granted_bound (suc left) ([], at) max_count count granted h e = ground arith
read_granted_bound (suc left) (c ∷ cs, at) max_count count [] h e = ground arith
read_granted_bound (suc left) (c ∷ cs, at) max_count count (g ∷ gs) h e =
    ground (arith, read_granted_bound left (cs, at + 1) max_count (count + 1) gs)

-- Whatever the buffer holds, a SUBACK that is accepted stores at most `max_count + 1` granted
-- QoSs, so the three places of `_handle_suback_packet`, which passes 1, are enough.
pub deserialize_suback_bound :
    (max_count : ℕ) (buf : List ℕ) (buf_len id : ℕ) (granted : List ℕ)
    → deserialize_suback_packet max_count buf buf_len ≡ ok (id, granted)
    → length granted ≤ max_count + 1
unfolding deserialize_suback_packet
deserialize_suback_bound max_count buf buf_len id granted e = grind (arith, read_granted_bound)

-- A packet that lies in the buffer as far as its remaining length says is deserialized without a
-- read outside the buffer.
pub deserialize_ack-ne-fault :
    (header : ℕ) (rest : List ℕ) (buf_len decoded_len : ℕ) (body : List ℕ) (at : ℕ)
    → read_rem_len (rest, 1) ≡ ok (decoded_len, (body, at))
    → decoded_len ≤ length body
    → deserialize_ack_packet (header ∷ rest) buf_len ≢ fault
unfolding deserialize_ack_packet read_char read_uint16 ack_code
deserialize_ack-ne-fault header rest buf_len decoded_len [] at e h = ground arith
deserialize_ack-ne-fault header rest buf_len decoded_len (a ∷ []) at e h = ground arith
deserialize_ack-ne-fault header rest buf_len decoded_len (a ∷ b ∷ []) at e h = ground arith
deserialize_ack-ne-fault header rest buf_len decoded_len (a ∷ b ∷ c ∷ body) at e h = ground arith
