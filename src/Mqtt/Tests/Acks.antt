-- ===== src/Mqtt/Tests/Acks.antt =====
-- Acknowledgements of subscriptions that a client handles, at concrete states.
use esp_qcloud.Prelude.{ℕ, ◌≡◌, refl, none, some, true, [], ◌∷◌, length, replicate, ok}
use esp_qcloud.Mqtt.Wire.{
  decode_packet_rem_len, read_packet_rem_len_form_buf, read_rem_len, read_char, read_uint16,
}
use esp_qcloud.Mqtt.Header.{header_type, header_dup, type_code}
use esp_qcloud.Mqtt.Ack.{
  deserialize_suback_packet, deserialize_ack_packet, deserialize_unsuback_packet, read_granted,
}
use esp_qcloud.Mqtt.Topic.{is_topic_equals}
use esp_qcloud.Mqtt.Client.{Client, SubTopicHandle, received}
use esp_qcloud.Mqtt.WaitList.{masked_handler}
use esp_qcloud.Mqtt.SubTable.{
  put_handle, scan, placed, note_free, check_handle_is_identical, same_filter, same_pointer,
}
use esp_qcloud.Mqtt.SubTable.Alike.{NoTwins, holds}
use esp_qcloud.Mqtt.SubTable.Put.{put_handle-NoTwins}
use esp_qcloud.Mqtt.Handlers.{has_filter}
use esp_qcloud.Mqtt.Tests.Clients.{no_handle, a_handle, quiet, idle, waiting_sub}

abbrev b_handle : SubTopicHandle
b_handle = record a_handle { topic_filter = some (b'b' ∷ []) }

abbrev no_twins : NoTwins (no_handle ∷ a_handle ∷ no_handle ∷ [])
no_twins = ((refl, (refl, tt)), ((refl, tt), (tt, tt)))

put_b :
    put_handle (no_handle ∷ a_handle ∷ no_handle ∷ []) b_handle
    ≡ ok (b_handle ∷ a_handle ∷ no_handle ∷ [])
unfolding put_handle scan placed check_handle_is_identical same_filter same_pointer is_topic_equals
    note_free
put_b = refl

put_handle-NoTwins_example :
    NoTwins (b_handle ∷ a_handle ∷ no_handle ∷ [])
    × (length (b_handle ∷ a_handle ∷ no_handle ∷ [])
        ≡ length (no_handle ∷ a_handle ∷ no_handle ∷ []))
    × (holds b_handle (b_handle ∷ a_handle ∷ no_handle ∷ []) ≡ true)
put_handle-NoTwins_example =
    put_handle-NoTwins (no_handle ∷ a_handle ∷ no_handle ∷ []) b_handle
      (b_handle ∷ a_handle ∷ no_handle ∷ []) refl no_twins put_b

-- A SUBACK for the id 7.
abbrev acked : ℕ → Client
acked code = record idle {
  read_buf = 0x90 ∷ 3 ∷ 0 ∷ 7 ∷ code ∷ [];
  list_sub_wait_ack = record (waiting_sub 7) { handler = b_handle } ∷ [];
}

abbrev suback_arrives : Client
suback_arrives = record (acked 1) {
  read_buf = replicate 16 0;
  world = record quiet { reads = received (0x90 ∷ 3 ∷ 0 ∷ 7 ∷ 1 ∷ []) ∷ [] };
}

suback_read : deserialize_suback_packet 1 (0x90 ∷ 3 ∷ 0 ∷ 7 ∷ 1 ∷ []) 5 ≡ ok (7, 1 ∷ [])
unfolding deserialize_suback_packet read_granted read_char read_uint16 read_rem_len
    read_packet_rem_len_form_buf decode_packet_rem_len header_type type_code
suback_read = refl

nack_read : deserialize_suback_packet 1 (0x90 ∷ 3 ∷ 0 ∷ 7 ∷ 0x80 ∷ []) 5 ≡ ok (7, 0x80 ∷ [])
unfolding deserialize_suback_packet read_granted read_char read_uint16 read_rem_len
    read_packet_rem_len_form_buf decode_packet_rem_len header_type type_code
nack_read = refl

seven_waits : masked_handler 7 (record (waiting_sub 7) { handler = b_handle } ∷ []) ≡ some b_handle
unfolding masked_handler
seven_waits = refl

b_filter : has_filter (some (b'b' ∷ [])) ≡ true
unfolding has_filter
b_filter = refl

unsuback_read : deserialize_unsuback_packet (0xb0 ∷ 2 ∷ 0 ∷ 8 ∷ []) 4 ≡ ok 8
unfolding deserialize_unsuback_packet deserialize_ack_packet read_char read_uint16 read_rem_len
    read_packet_rem_len_form_buf decode_packet_rem_len header_type header_dup type_code
unsuback_read = refl

eight_waits_not : masked_handler 8 [] ≡ none
unfolding masked_handler
eight_waits_not = refl
