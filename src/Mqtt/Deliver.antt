-- ===== src/Mqtt/Deliver.antt =====
-- A PUBLISH or a PUBREC that is received: `_deliver_message`, `_handle_publish_packet` and
-- `_handle_pubrec_packet` of sdk_src/mqtt_client_common.c, with MQTT_RMDUP_MSG_ENABLED. A handler
-- does not change the client.
pub mod Answer
pub mod Once
pub mod Table
use esp_qcloud.Prelude.{
  ℕ, zero, suc, ◌+◌, Option, none, some, Bool, true, false, List, [], ◌∷◌, length, take, ◌==◌,
  if◌then◌else◌, Outcome, ok, err, fault,
}
use esp_qcloud.Mqtt.Header.{MessageType, puback, pubrec, pubrel, qos0, qos1}
use esp_qcloud.Mqtt.Ack.{Ack, deserialize_ack_packet, serialize_pub_ack_packet}
use esp_qcloud.Mqtt.Publish.{Publish, deserialize_publish_packet}
use esp_qcloud.Mqtt.Routing.{copy_topic, cut_topic_len, find_handler}
use esp_qcloud.Mqtt.Repeat.{get_packet_id_in_repeat_buf, add_packet_id_to_repeat_buf}
use esp_qcloud.Mqtt.Client.{
  Client, Output, to_handler, to_default, Action, pure, lift, modify, continue, ◌>>=◌, ◌>>◌, output,
}
use esp_qcloud.Mqtt.Net.{send_mqtt_packet, put_bytes}

-- The message goes to the handler that was found, or else to the client's, if there is one.
unfoldable pub hand_over : Option (ℕ × ℕ) → List ℕ → Publish → Client → Client
hand_over (some (h, user_data)) topic msg c = output (to_handler h user_data topic msg) c
hand_over none topic msg c = if c.has_event_handler then output (to_default topic msg) c else c

unfoldable pub deliver_message : List ℕ → ℕ → Publish → Action (Unit {0})
deliver_message fix_topic topic_len msg c =
    (do
      h ← lift (find_handler c.sub_handles fix_topic topic_len)
      modify (hand_over h (take topic_len fix_topic) msg))
      c

-- A packet in the write buffer is sent.
write_and_send : List ℕ → ℕ → Action (Unit {0})
write_and_send packet timer c =
    (do
      buf ← lift (put_bytes 0 packet c.write_buf)
      modify (λ d. record d { write_buf = buf })
      send_mqtt_packet (length packet) timer)
      c

unfoldable pub send_ack : MessageType → ℕ → ℕ → Action (Unit {0})
unfolding write_and_send
send_ack packet_type packet_id timer c =
    (do
      packet ← lift (serialize_pub_ack_packet (length c.write_buf) packet_type 0 packet_id)
      write_and_send packet timer)
      c

-- A message whose id is remembered is not delivered again.
deliver_new : Option ℕ → List ℕ → ℕ → Publish → Action (Unit {0})
deliver_new (some repeat_id) fix_topic topic_len msg c = (ok tt, c)
deliver_new none fix_topic topic_len msg c = deliver_message fix_topic topic_len msg c

-- `msg.id` is set with every QoS but 0.
deliver_known : Option ℕ → List ℕ → ℕ → Publish → ℕ → Action (Unit {0})
unfolding deliver_new
deliver_known none fix_topic topic_len msg timer c = (fault, c)
deliver_known (some id) fix_topic topic_len msg timer c =
    (do
      deliver_new (get_packet_id_in_repeat_buf c.repeat_buf id) fix_topic topic_len msg
      modify (λ d. record d { repeat_buf = add_packet_id_to_repeat_buf d.repeat_buf id })
      send_ack (if msg.qos == qos1 then puback else pubrec) id timer)
      c

unfoldable pub handle_publish_packet : ℕ → Action (Unit {0})
unfolding deliver_known
handle_publish_packet timer c =
    (do
      msg ← lift (deserialize_publish_packet c.read_buf (length c.read_buf))
      let topic_len = cut_topic_len msg.topic_len
      fix_topic ← lift (copy_topic c.read_buf msg.topic_name.1 topic_len)
      if msg.qos == qos0
          then deliver_message fix_topic topic_len msg
          else deliver_known msg.packet_id fix_topic topic_len msg timer)
      c

unfoldable pub handle_pubrec_packet : ℕ → Action (Unit {0})
handle_pubrec_packet timer c =
    (do
      ack ← lift (deserialize_ack_packet c.read_buf (length c.read_buf))
      send_ack pubrel ack.packet_id timer)
      c
