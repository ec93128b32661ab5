-- ===== src/Mqtt/Tests/Messages.antt =====
-- Packets that a client handles, at concrete states.
use esp_qcloud.Prelude.{
  ℕ, ◌-◌, ◌≡◌, refl, arith, none, some, false, List, [], ◌∷◌, ◌++◌, length, replicate, take, drop,
  All, ok, ◌==◌,
}
use esp_qcloud.Mqtt.Wire.{
  write_packet_rem_len, write_packet_rem_len_loop, decode_packet_rem_len,
  read_packet_rem_len_form_buf, read_rem_len, read_char, read_uint16,
}
use esp_qcloud.Mqtt.Header.{header_type, header_qos, header_dup, header_retain, type_code}
use esp_qcloud.Mqtt.Publish.{
  Publish, deserialize_publish_packet, read_string_with_len, read_packet_id,
}
use esp_qcloud.Mqtt.Topic.{is_topic_equals}
use esp_qcloud.Mqtt.Repeat.{RepeatBuf, initial, get_packet_id_in_repeat_buf, find_id}
use esp_qcloud.Mqtt.Repeat.Window.{IsValid, add_all}
use esp_qcloud.Mqtt.Routing.Choice.{Chosen}
use esp_qcloud.Mqtt.Routing.{copy_topic, cut_topic_len, choice, takes_topic, c_string}
use esp_qcloud.Mqtt.Client.{Client, to_network, received}
use esp_qcloud.Mqtt.Net.{read_mqtt_packet}
use esp_qcloud.Mqtt.Net.Receive.{with_reads, read_mqtt_packet_whole}
use esp_qcloud.Mqtt.Deliver.{handle_publish_packet}
use esp_qcloud.Mqtt.Deliver.Answer.{IsReady, ack_bytes, ack_header, answer_type}
use esp_qcloud.Mqtt.Deliver.Once.{
  Received, delivered, handle_publish_packet_new, handle_publish_packet_again,
}
use esp_qcloud.Mqtt.Tests.Clients.{no_handle, a_handle, quiet, idle}

read_mqtt_packet_whole_example :
    let c = record idle {
      world = record quiet {
        reads = received (0x40 ∷ (write_packet_rem_len 2 ++ ((0 ∷ 3 ∷ []) ++ (9 ∷ [])))) ∷ [];
      };
    } in
    read_mqtt_packet c ≡ (
      ok (header_type 0x40),
      with_reads (received (9 ∷ []) ∷ []) (record c {
        read_buf =
            0x40
            ∷ (write_packet_rem_len 2
                ++ ((0 ∷ 3 ∷ [])
                    ++ drop 2 (drop (length (write_packet_rem_len 2)) (drop 1 (replicate 16 0)))));
      }),
    )
unfolding write_packet_rem_len write_packet_rem_len_loop
read_mqtt_packet_whole_example =
    read_mqtt_packet_whole 0x40 (0 ∷ 3 ∷ []) (9 ∷ []) []
      (record idle {
        world = record quiet {
          reads = received (0x40 ∷ (write_packet_rem_len 2 ++ ((0 ∷ 3 ∷ []) ++ (9 ∷ [])))) ∷ [];
        };
      })
      (omega arith) (omega arith) refl

-- A PUBLISH of QoS 1 with the id 7 and the payload "!" for the topic "t/a".
abbrev message_buf : List ℕ
message_buf = 0x32 ∷ 8 ∷ 0 ∷ 3 ∷ b't' ∷ b'/' ∷ b'a' ∷ 0 ∷ 7 ∷ b'!' ∷ []

abbrev message : Publish
message = record {
  dup = 0;
  qos = 1;
  retained = 0;
  packet_id = some 7;
  topic_name = (drop 4 message_buf, 4);
  topic_len = 3;
  payload = (b'!' ∷ [], 9);
  payload_len = 1;
}

abbrev with_message : Client
with_message = record idle { read_buf = message_buf; world = record quiet { clock = 50 ∷ [] } }

abbrev topic_buf : List ℕ
topic_buf = b't' ∷ b'/' ∷ b'a' ∷ replicate 125 0

message-Received :
    (r : RepeatBuf) → Received (record with_message { repeat_buf = r }) message 7 topic_buf
unfolding deserialize_publish_packet read_string_with_len read_packet_id read_char read_uint16
    read_rem_len read_packet_rem_len_form_buf decode_packet_rem_len header_type header_qos
    header_dup header_retain type_code copy_topic cut_topic_len
message-Received r = record { read = refl; has_id = refl; above_qos0 = refl; copied = refl }

message-IsReady : (r : RepeatBuf) → IsReady 100 50 [] (record with_message { repeat_buf = r })
message-IsReady r = record { room = omega arith; clock = refl; early = omega arith; takes = refl }

topic_chosen :
    choice (some (b't' ∷ b'/' ∷ b'a' ∷ [])) (some 5) topic_buf (cut_topic_len 3) ≡ ok (some 5)
unfolding choice takes_topic c_string is_topic_equals cut_topic_len
topic_chosen = refl

first_passed :
    All
      (λ s. choice s.topic_filter s.message_handler topic_buf (cut_topic_len 3) ≡ ok none)
      (no_handle ∷ [])
unfolding choice
first_passed = (refl, tt)

handle_5-Chosen :
    Chosen (some (5, 9)) (no_handle ∷ a_handle ∷ no_handle ∷ []) topic_buf (cut_topic_len 3)
handle_5-Chosen =
    (no_handle ∷ [], (a_handle, (no_handle ∷ [], (refl, first_passed, topic_chosen, refl))))

initial-IsValid : IsValid initial
initial-IsValid = record { full = refl; in_range = omega arith }

fresh_id : get_packet_id_in_repeat_buf initial 7 ≡ none
unfolding get_packet_id_in_repeat_buf find_id
fresh_id = refl

handle_publish_packet_new_example :
    let r = handle_publish_packet 100 with_message in
    (r.0 ≡ ok tt)
    × (r.1.world.outputs
        ≡ []
          ++ (delivered (some (5, 9)) false (take (cut_topic_len 3) topic_buf) message
              ++ (to_network (ack_bytes (ack_header (answer_type 1)) 7) ∷ [])))
    × (get_packet_id_in_repeat_buf (add_all r.1.repeat_buf (8 ∷ 9 ∷ [])) 7 ≡ some 7)
handle_publish_packet_new_example =
    handle_publish_packet_new 100 50 7 [] topic_buf (8 ∷ 9 ∷ []) message (some (5, 9)) with_message
      (message-Received initial) (message-IsReady initial) initial-IsValid handle_5-Chosen fresh_id
      (omega arith)

abbrev seen : RepeatBuf
seen = record { ids = 7 ∷ replicate 49 0; current_packet_id_cnt = 1 }

known_id : get_packet_id_in_repeat_buf seen 7 ≡ some 7
unfolding get_packet_id_in_repeat_buf find_id
known_id = refl

handle_publish_packet_again_example :
    let r = handle_publish_packet 100 (record with_message { repeat_buf = seen }) in
    (r.0 ≡ ok tt)
    × (r.1.world.outputs ≡ [] ++ (to_network (ack_bytes (ack_header (answer_type 1)) 7) ∷ []))
handle_publish_packet_again_example =
    handle_publish_packet_again 100 50 7 [] topic_buf message
      (record with_message { repeat_buf = seen }) (message-Received seen) (message-IsReady seen)
      known_id

copied : copy_topic message_buf 4 3 ≡ ok ((b't' ∷ b'/' ∷ b'a' ∷ []) ++ replicate (128 - 3) 0)
unfolding copy_topic
copied = refl

topic_nonzero : All (λ b. (b == 0) ≡ false) (b't' ∷ b'/' ∷ b'a' ∷ [])
topic_nonzero = (refl, (refl, (refl, tt)))

a_chosen : choice (some (b't' ∷ b'/' ∷ b'a' ∷ [])) (some 5) topic_buf 3 ≡ ok (some 5)
unfolding choice takes_topic c_string is_topic_equals
a_chosen = refl

free_passed :
    All (λ s. choice s.topic_filter s.message_handler topic_buf 3 ≡ ok none) (no_handle ∷ [])
unfolding choice
free_passed = (refl, tt)
