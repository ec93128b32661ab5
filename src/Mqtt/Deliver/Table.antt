-- ===== src/Mqtt/Deliver/Table.antt =====
-- What a received PUBLISH or PUBREC leaves alone.
use esp_qcloud.Prelude.{
  ℕ, refl, arith, Option, none, some, List, length, take, ◌==◌, if◌then◌else◌, Bool-cases, inl, inr,
}
use esp_qcloud.Mqtt.Header.{MessageType, pubrel, puback, pubrec, qos0, qos1}
use esp_qcloud.Mqtt.Ack.{deserialize_ack_packet, serialize_pub_ack_packet}
use esp_qcloud.Mqtt.Publish.{Publish, deserialize_publish_packet}
use esp_qcloud.Mqtt.Routing.{copy_topic, cut_topic_len, find_handler}
use esp_qcloud.Mqtt.Repeat.{get_packet_id_in_repeat_buf, add_packet_id_to_repeat_buf}
use esp_qcloud.Mqtt.Client.{Client}
use esp_qcloud.Mqtt.Frame.{SameCore, Goes, stay-Goes, core-Goes, then-Goes, continue-Goes}
use esp_qcloud.Mqtt.Net.{send_mqtt_packet, put_bytes}
use esp_qcloud.Mqtt.Net.Frame.{send_mqtt_packet-Goes}
use esp_qcloud.Mqtt.Deliver.{
  hand_over, deliver_message, write_and_send, send_ack, deliver_new, deliver_known,
  handle_publish_packet, handle_pubrec_packet,
}

write_and_send-Goes :
    (packet : List ℕ) (timer : ℕ) (c : Client) → Goes c (write_and_send packet timer c).1
unfolding write_and_send
write_and_send-Goes packet timer c =
    continue-Goes c c (put_bytes 0 packet c.write_buf) _ (stay-Goes c) (λ buf.
      let d = record c { write_buf = buf } in
      then-Goes c d (send_mqtt_packet (length packet) timer d).1 (core-Goes c d refl)
        (send_mqtt_packet-Goes (length packet) timer d))

send_ack-Goes : (ty : MessageType) (id timer : ℕ) (c : Client) → Goes c (send_ack ty id timer c).1
unfolding send_ack
send_ack-Goes ty id timer c =
    continue-Goes c c (serialize_pub_ack_packet (length c.write_buf) ty 0 id) _ (stay-Goes c)
      (λ packet. write_and_send-Goes packet timer c)

hand_over-SameCore :
    (h : Option (ℕ × ℕ)) (topic : List ℕ) (msg : Publish) (c : Client)
    → SameCore c (hand_over h topic msg c)
unfolding hand_over
hand_over-SameCore (some h) topic msg c = refl
hand_over-SameCore none topic msg c = ground arith

deliver_message-Goes :
    (topic : List ℕ) (len : ℕ) (msg : Publish) (c : Client)
    → Goes c (deliver_message topic len msg c).1
unfolding deliver_message
deliver_message-Goes topic len msg c =
    continue-Goes c c (find_handler c.sub_handles topic len) _ (stay-Goes c) (λ h.
      core-Goes c (hand_over h (take len topic) msg c)
        (hand_over-SameCore h (take len topic) msg c))

deliver_new-Goes :
    (seen : Option ℕ) (topic : List ℕ) (len : ℕ) (msg : Publish) (c : Client)
    → Goes c (deliver_new seen topic len msg c).1
unfolding deliver_new
deliver_new-Goes (some id) topic len msg c = stay-Goes c
deliver_new-Goes none topic len msg c = deliver_message-Goes topic len msg c

deliver_known-Goes :
    (id : Option ℕ) (topic : List ℕ) (len : ℕ) (msg : Publish) (timer : ℕ) (c : Client)
    → Goes c (deliver_known id topic len msg timer c).1
unfolding deliver_known
deliver_known-Goes none topic len msg timer c = stay-Goes c
deliver_known-Goes (some id) topic len msg timer c =
    let seen = get_packet_id_in_repeat_buf c.repeat_buf id in
    let (r, d) = deliver_new seen topic len msg c in
    continue-Goes c d r _ (deliver_new-Goes seen topic len msg c) (λ u.
      let ty = if msg.qos == qos1 then puback else pubrec in
      let e = record d { repeat_buf = add_packet_id_to_repeat_buf d.repeat_buf id } in
      then-Goes d e (send_ack ty id timer e).1 (core-Goes d e refl) (send_ack-Goes ty id timer e))

pub handle_publish_packet-Goes : (timer : ℕ) (c : Client) → Goes c (handle_publish_packet timer c).1
unfolding handle_publish_packet
handle_publish_packet-Goes timer c =
    continue-Goes c c (deserialize_publish_packet c.read_buf (length c.read_buf)) _ (stay-Goes c)
      (λ msg.
        let len = cut_topic_len msg.topic_len in
        continue-Goes c c (copy_topic c.read_buf msg.topic_name.1 len) _ (stay-Goes c) (λ topic.
          elim (Bool-cases (msg.qos == qos0)) [
            | inl y ↦ rw y (deliver_message-Goes topic len msg c)
            | inr n ↦ rw n (deliver_known-Goes msg.packet_id topic len msg timer c)
          ]))

pub handle_pubrec_packet-Goes : (timer : ℕ) (c : Client) → Goes c (handle_pubrec_packet timer c).1
unfolding handle_pubrec_packet
handle_pubrec_packet-Goes timer c =
    continue-Goes c c (deserialize_ack_packet c.read_buf (length c.read_buf)) _ (stay-Goes c)
      (λ ack. send_ack-Goes pubrel ack.packet_id timer c)
