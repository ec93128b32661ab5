-- ===== src/Mqtt/Request.antt =====
-- The calls of the user: `qcloud_iot_mqtt_publish` (sdk_src/mqtt_client_publish.c), and
-- `qcloud_iot_mqtt_subscribe` and `qcloud_iot_mqtt_resubscribe`
-- (sdk_src/mqtt_client_subscribe.c). A string is the list of its bytes, `none` a null pointer.
-- The result of a call is the packet's id.
pub mod Track
pub mod Frame
use esp_qcloud.Prelude.{
  ℕ, zero, suc, ◌+◌, ◌%◌, Option, none, some, Bool, true, false, ◌&&◌, ◌||◌, not, List, [], ◌∷◌,
  length, ltb, ◌==◌, if◌then◌else◌, Outcome, ok, err, fault,
}
use esp_qcloud.Prelude.Codes.{
  Code, inval, failure, max_topic_length, mqtt_qos_not_support, mqtt_no_conn, mqtt_unsub_fail,
}
use esp_qcloud.Mqtt.Header.{MessageType, subscribe, unsubscribe, qos0, qos1, qos2}
use esp_qcloud.Mqtt.Publish.{serialize_publish_packet}
use esp_qcloud.Mqtt.Subscribe.{serialize_subscribe_packet, serialize_unsubscribe_packet}
use esp_qcloud.Mqtt.Topic.{is_topic_equals, slash, hash, plus}
use esp_qcloud.Mqtt.PacketId.{get_next_packet_id}
use esp_qcloud.Mqtt.Routing.{max_size_of_cloud_topic}
use esp_qcloud.Mqtt.Client.{
  Client, SubTopicHandle, EventType, Action, pure, fail, lift, run, modify, continue, ◌>>=◌, ◌>>◌,
  notify_subscriber,
}
use esp_qcloud.Mqtt.WaitList.{
  allocate, countdown_ms, mask_push_pub_info_to, push_sub_info_to, remove_at, is_empty,
}
use esp_qcloud.Mqtt.Net.{send_mqtt_packet, put_bytes}

pub record PublishParams : Type 0 where
  pub qos : ℕ
  pub retained : ℕ
  pub id : ℕ
  pub payload : Option (List ℕ)

pub record SubscribeParams : Type 0 where
  pub qos : ℕ
  pub on_message_handler : Option ℕ
  pub on_sub_event_handler : Option ℕ
  pub user_data : ℕ

-- The new id is the client's `next_packet_id`.
unfoldable pub next_id : Client → ℕ × Client
next_id c = let id = get_next_packet_id c.next_packet_id in (id, record c { next_packet_id = id })

-- The guards that a publish and a subscription share.
unfoldable pub refusal : Option (List ℕ) → ℕ → Client → Option Code
refusal none qos c = some inval
refusal (some topic) qos c =
    if is_empty topic
    then some inval
    else if ltb max_size_of_cloud_topic (length topic)
    then some max_topic_length
    else if qos == qos2
    then some mqtt_qos_not_support
    else if not c.is_connected
    then some mqtt_no_conn
    else none

-- A packet is put at the start of the write buffer.
unfoldable pub write_packet : List ℕ → Action (Unit {0})
write_packet packet c =
    (do buf ← lift (put_bytes 0 packet c.write_buf); modify (λ d. record d { write_buf = buf })) c

-- A node that was pushed is removed again if the packet is not sent.
unfoldable pub undo : (Client → Client) → Outcome (Unit {0}) × Client → Outcome (Unit {0}) × Client
undo remove (ok u, c) = (ok u, c)
undo remove (err e, c) = (err e, remove c)
undo remove (fault, c) = (fault, c)

unfoldable pub remove_pub : ℕ → Client → Client
remove_pub place c = record c { list_pub_wait_ack = remove_at c.list_pub_wait_ack place }

unfoldable pub remove_sub : ℕ → Client → Client
remove_sub place c = record c { list_sub_wait_ack = remove_at c.list_sub_wait_ack place }

unfoldable pub send_and_track : ℕ → ℕ → ℕ → ℕ → Action (Unit {0})
send_and_track qos len id timer c =
    if ltb qos0 qos
    then (do
      place ← mask_push_pub_info_to len id
      (λ d. undo (remove_pub place) (send_mqtt_packet len timer d)))
        c
    else send_mqtt_packet len timer c

-- `pParams->id`: a new one for QoS 1.
unfoldable pub choose_id : ℕ → ℕ → Client → ℕ × Client
choose_id qos id c = if qos == qos1 then next_id c else (id, c)

unfoldable pub publish_connected : List ℕ → PublishParams → Action ℕ
publish_connected topic p c =
    (do
      timer ← run (countdown_ms c.command_timeout_ms)
      id ← run (choose_id p.qos p.id)
      packet ←
          lift (serialize_publish_packet (length c.write_buf) 0 p.qos p.retained id topic p.payload)
      write_packet packet
      send_and_track p.qos (length packet) id timer
      pure id)
      c

-- The string of a topic that was not refused.
topic_of : Option (List ℕ) → List ℕ
topic_of none = []
topic_of (some topic) = topic

abbrev pub guarded : {A : Type 0} → Option Code → Action A → Action A
guarded none m = m
guarded (some e) m = fail e

unfoldable pub mqtt_publish : Option (List ℕ) → PublishParams → Action ℕ
unfolding topic_of
mqtt_publish topic_name p c =
    guarded (refusal topic_name p.qos c) (publish_connected (topic_of topic_name) p) c

-- The memory of the stored topic filter.
unfoldable pub require_filter : Bool → Action (Unit {0})
require_filter true = pure tt
require_filter false = fail failure

unfoldable pub send_request : MessageType → List ℕ → ℕ → SubTopicHandle → ℕ → Action ℕ
send_request type packet id handler timer c =
    (do
      write_packet packet
      place ← push_sub_info_to (length packet) id type handler
      (λ d. undo (remove_sub place) (send_mqtt_packet (length packet) timer d))
      pure id)
      c

unfoldable pub subscribe_connected : List ℕ → SubscribeParams → Action ℕ
unfolding require_filter
subscribe_connected topic p c =
    (do
      stored ← run allocate
      require_filter stored
      timer ← run (countdown_ms c.command_timeout_ms)
      id ← run next_id
      packet ← lift (serialize_subscribe_packet (length c.write_buf) 0 id topic (p.qos ∷ []))
      send_request subscribe packet id
          (record {
            topic_filter = some topic;
            message_handler = p.on_message_handler;
            sub_event_handler = p.on_sub_event_handler;
            handler_user_data = p.user_data;
            qos = p.qos;
          })
          timer)
      c

unfoldable pub mqtt_subscribe : Option (List ℕ) → SubscribeParams → Action ℕ
unfolding topic_of
mqtt_subscribe topic_filter p c =
    guarded (refusal topic_filter p.qos c) (subscribe_connected (topic_of topic_filter) p) c

resubscribe_one : Option (List ℕ) → SubTopicHandle → Action (Unit {0})
resubscribe_one none s = pure tt
resubscribe_one (some topic) s = do
  id ← mqtt_subscribe (some topic) (record {
    qos = s.qos;
    on_message_handler = s.message_handler;
    on_sub_event_handler = s.sub_event_handler;
    user_data = s.handler_user_data;
  })
  pure tt

resubscribe_all : List SubTopicHandle → Action (Unit {0})
unfolding resubscribe_one
resubscribe_all [] = pure tt
resubscribe_all (s ∷ ss) = do resubscribe_one s.topic_filter s; resubscribe_all ss

-- A subscription does not change the table, so the loop goes over the table of its start.
unfoldable pub mqtt_resubscribe : Action (Unit {0})
unfolding resubscribe_all
mqtt_resubscribe c =
    if not c.is_connected then (err mqtt_no_conn, c) else resubscribe_all c.sub_handles c
