-- ===== src/Mqtt/Handlers.antt =====
-- What arrives is handled by its type: the other handlers of sdk_src/mqtt_client_common.c and
-- `cycle_for_read`. The topic filters of handles that the handlers free are not reused.
pub mod Acks
pub mod Cycle
use esp_qcloud.Prelude.{
  ℕ, ◌*◌, ◌%◌, ◌^◌, Option, none, some, Bool, true, false, ◌||◌, not, List, [], ◌∷◌, length, get_or,
  ◌==◌, if◌then◌else◌, Outcome, ok, err, fault,
}
use esp_qcloud.Prelude.Codes.{Code, mqtt_sub, mqtt_nothing_to_read, rx_message_inval}
use esp_qcloud.Mqtt.Header.{
  MessageType, connack, publish, puback, pubrec, pubrel, pubcomp, suback, unsuback, pingresp,
  type_code,
}
use esp_qcloud.Mqtt.Ack.{
  Ack, deserialize_ack_packet, deserialize_suback_packet, deserialize_unsuback_packet,
}
use esp_qcloud.Mqtt.Client.{
  Client, SubTopicHandle, EventType, publish_success, subscribe_nack, subscribe_success,
  unsubscribe_success, Action, pure, fail, lift, run, modify, continue, ◌>>=◌, ◌>>◌, output,
  to_client, notify, notify_subscriber,
}
use esp_qcloud.Mqtt.WaitList.{mask_pub_info_from, mask_sub_info_from, countdown_ms}
use esp_qcloud.Mqtt.Net.{read_mqtt_packet}
use esp_qcloud.Mqtt.SubTable.{put_handle}
use esp_qcloud.Mqtt.Deliver.{handle_publish_packet, handle_pubrec_packet}

unfoldable pub handle_puback_packet : Action (Unit {0})
handle_puback_packet c =
    (do
      ack ← lift (deserialize_ack_packet c.read_buf (length c.read_buf))
      mask_pub_info_from ack.packet_id
      modify (notify publish_success ack.packet_id))
      c

-- The client's handler is called without a test, and a null pointer is not a function.
unfoldable pub report_nack : Bool → ℕ → Action (Unit {0})
report_nack nack id c =
    if nack
    then (if c.has_event_handler
        then (ok tt, output (to_client subscribe_nack id) c)
        else (fault, c))
    else (ok tt, c)

-- A subscription that was acknowledged, with the topic filter of its handle.
unfoldable pub subscribed : Bool → ℕ → SubTopicHandle → Action (Unit {0})
subscribed true id h c =
    (err mqtt_sub, notify_subscriber h.sub_event_handler subscribe_nack h.handler_user_data c)
subscribed false id h c =
    (do
      table ← lift (put_handle c.sub_handles h)
      modify (λ d. record d { sub_handles = table })
      modify (notify subscribe_success id)
      modify (notify_subscriber h.sub_event_handler subscribe_success h.handler_user_data))
      c

unfoldable pub has_filter : Option (List ℕ) → Bool
has_filter none = false
has_filter (some f) = true

unfoldable pub masked : Bool → ℕ → Option SubTopicHandle → Action (Unit {0})
unfolding has_filter
masked nack id none = fail mqtt_sub
masked nack id (some h) = if has_filter h.topic_filter then subscribed nack id h else fail mqtt_sub

-- 0x80 is the code of a refusal; without a code `grantedQoS[0]` is QOS0.
unfoldable pub handle_suback_packet : Action (Unit {0})
unfolding report_nack masked
handle_suback_packet c =
    (do
      (id, granted) ← lift (deserialize_suback_packet 1 c.read_buf (length c.read_buf))
      let nack = get_or granted 0 0 == 0x80
      report_nack nack id
      h ← mask_sub_info_from id
      masked nack id h)
      c

-- If no node waits for the id, `messageHandler` is read before it is set.
was_set : Option SubTopicHandle → Outcome (Unit {0})
was_set none = fault
was_set (some h) = ok tt

unfoldable pub handle_unsuback_packet : Action (Unit {0})
unfolding was_set
handle_unsuback_packet c =
    (do
      id ← lift (deserialize_unsuback_packet c.read_buf (length c.read_buf))
      h ← mask_sub_info_from id
      lift (was_set h)
      modify (notify unsubscribe_success id))
      c

-- `countdown` takes seconds.
unfoldable pub handle_pingresp_packet : Client → Client
handle_pingresp_packet c =
    let (end_time, d) =
      countdown_ms (c.options.keep_alive_interval * 1000 % 2 ^ 32)
        (record c { is_ping_outstanding = 0 }) in
    record d { ping_end_time = end_time }

-- The first `switch`.
unfoldable pub handle_packet : ℕ → ℕ → Action (Unit {0})
handle_packet ty timer =
    if ty == type_code connack
    then pure tt
    else if ty == type_code puback
    then handle_puback_packet
    else if ty == type_code suback
    then handle_suback_packet
    else if ty == type_code unsuback
    then handle_unsuback_packet
    else if ty == type_code publish
    then handle_publish_packet timer
    else if ty == type_code pubrec
    then handle_pubrec_packet timer
    else if ty == type_code pubrel
    then pure tt
    else if ty == type_code pubcomp
    then pure tt
    else if ty == type_code pingresp
    then pure tt
    else fail rx_message_inval

abbrev pub is_handled : ℕ → Bool
is_handled ty =
    (ty == type_code connack
      || ty == type_code puback
      || ty == type_code suback
      || ty == type_code unsuback)
    || (ty == type_code publish || ty == type_code pubrec || ty == type_code pubrel)
    || (ty == type_code pubcomp || ty == type_code pingresp)

-- The second `switch`.
unfoldable pub note_alive : ℕ → Client → Client
note_alive ty c =
    if ty == type_code puback
      || ty == type_code suback
      || ty == type_code unsuback
      || ty == type_code pingresp
    then handle_pingresp_packet c
    else if ty == type_code publish
    then record c { is_ping_outstanding = 0 }
    else c

no_packet : Code → Bool
no_packet mqtt_nothing_to_read = true
no_packet _ = false

cycle_after : ℕ → ℕ → Outcome ℕ → Action ℕ
unfolding no_packet
cycle_after previous timer (ok ty) c =
    let (rc, d) = handle_packet ty timer c in
    if is_handled ty
    then continue rc (λ u. pure ty) (note_alive ty d)
    else (err rx_message_inval, d)
cycle_after previous timer (err e) c = if no_packet e then (ok previous, c) else (err e, c)
cycle_after previous timer fault c = (fault, c)

-- The packet's type, which stays as it was when there is nothing to read.
unfoldable pub cycle_for_read : ℕ → ℕ → Action ℕ
unfolding cycle_after
cycle_for_read previous timer c =
    let (rc, d) = read_mqtt_packet c in cycle_after previous timer rc d
