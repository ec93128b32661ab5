-- ===== src/Mqtt/Unsubscribe.antt =====
-- `qcloud_iot_mqtt_unsubscribe` of sdk_src/mqtt_client_unsubscribe.c. Only the topic filter of a
-- handle that is dropped is reset.
pub mod Wildcard
use esp_qcloud.Prelude.{
  ℕ, Option, none, some, Bool, true, false, ◌&&◌, ◌||◌, not, List, [], ◌∷◌, length, ltb, ◌==◌,
  if◌then◌else◌, Outcome, ok, err, fault,
}
use esp_qcloud.Prelude.Codes.{Code, inval, max_topic_length, mqtt_no_conn, mqtt_unsub_fail}
use esp_qcloud.Mqtt.Header.{MessageType}
use esp_qcloud.Mqtt.Subscribe.{serialize_unsubscribe_packet}
use esp_qcloud.Mqtt.Topic.{is_topic_equals, slash, hash, plus}
use esp_qcloud.Mqtt.Routing.{max_size_of_cloud_topic}
use esp_qcloud.Mqtt.Client.{
  Client, SubTopicHandle, EventType, Action, pure, fail, lift, run, modify, continue, ◌>>=◌, ◌>>◌,
  notify_subscriber,
}
use esp_qcloud.Mqtt.WaitList.{allocate, countdown_ms, is_empty}
use esp_qcloud.Mqtt.Request.{next_id, guarded, require_filter, send_request}

abbrev pub begins_with : ℕ → List ℕ → Bool
begins_with x [] = false
begins_with x (y ∷ ys) = y == x

-- `strstr` of a separator and a wildcard in the topic filter.
unfoldable pub has_after_slash : ℕ → List ℕ → Bool
has_after_slash x [] = false
has_after_slash x (y ∷ ys) = (y == slash && begins_with x ys) || has_after_slash x ys

unfoldable pub names_filter : Option (List ℕ) → List ℕ → Bool
names_filter none topic = false
names_filter (some f) topic = is_topic_equals f topic

unfoldable pub is_dropped : List ℕ → SubTopicHandle → Bool
is_dropped topic s =
    names_filter s.topic_filter topic || (has_after_slash hash topic || has_after_slash plus topic)

-- Whether a handle was dropped, and the table.
unfoldable pub drop_handles :
    List ℕ → List SubTopicHandle → Client → (Bool × List SubTopicHandle) × Client
drop_handles topic [] c = ((false, []), c)
drop_handles topic (s ∷ ss) c =
    let drops = is_dropped topic s in
    let told = notify_subscriber s.sub_event_handler EventType.unsubscribe s.handler_user_data c in
    let ((exists, table), d) = drop_handles topic ss (if drops then told else c) in
    ((drops || exists, (if drops then record s { topic_filter = none } else s) ∷ table), d)

unfoldable pub unsubscribe_connected : List ℕ → Action ℕ
unsubscribe_connected topic c =
    (do
      stored ← run allocate
      require_filter stored
      timer ← run (countdown_ms c.command_timeout_ms)
      id ← run next_id
      packet ← lift (serialize_unsubscribe_packet (length c.write_buf) 0 id 1 topic)
      send_request MessageType.unsubscribe packet id
          (record {
            topic_filter = some topic;
            message_handler = none;
            sub_event_handler = none;
            handler_user_data = 0;
            qos = 0;
          })
          timer)
      c

after_drop : List ℕ → Bool → Action ℕ
after_drop topic false c = (err mqtt_unsub_fail, c)
after_drop topic true c =
    if not c.is_connected then (err mqtt_no_conn, c) else unsubscribe_connected topic c

drop_and_ask : List ℕ → Action ℕ
unfolding after_drop
drop_and_ask topic c =
    let ((exists, table), d) = drop_handles topic c.sub_handles c in
    after_drop topic exists (record d { sub_handles = table })

unfoldable pub mqtt_unsubscribe : Option (List ℕ) → Action ℕ
unfolding drop_and_ask
mqtt_unsubscribe none = fail inval
mqtt_unsubscribe (some topic) =
    if is_empty topic
    then fail inval
    else if ltb max_size_of_cloud_topic (length topic)
    then fail max_topic_length
    else drop_and_ask topic
