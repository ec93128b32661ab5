-- ===== src/Mqtt/Routing.antt =====
-- Which subscription takes a message: the loop of `_deliver_message` and the copy of the topic in
-- `_handle_publish_packet`, both of sdk_src/mqtt_client_common.c.
pub mod Choice
use esp_qcloud.Prelude.{
  ℕ, ◌+◌, ◌-◌, Option, none, some, Bool, true, false, List, [], ◌∷◌, ◌++◌, length, take, drop,
  replicate, ltb, leb, ◌==◌, if◌then◌else◌, Outcome, ok, err, fault, ◌>>=◌,
}
use esp_qcloud.Mqtt.Topic.{is_topic_equals, is_topic_matched}
use esp_qcloud.Mqtt.Client.{SubTopicHandle}

abbrev pub max_size_of_cloud_topic : ℕ
max_size_of_cloud_topic = 128

-- The string in an array, up to its terminator; without one it is read past the array's end.
unfoldable pub c_string : List ℕ → Outcome (List ℕ)
c_string [] = fault
c_string (b ∷ bs) = let rest = c_string bs in if b == 0 then ok [] else do s ← rest; ok (b ∷ s)

-- `topic_len` after its test.
unfoldable pub cut_topic_len : ℕ → ℕ
cut_topic_len topic_len =
    if ltb max_size_of_cloud_topic topic_len then max_size_of_cloud_topic - 1 else topic_len

-- `fix_topic` after the copy of `topic_len` bytes that stand at a place of the buffer.
unfoldable pub copy_topic : List ℕ → ℕ → ℕ → Outcome (List ℕ)
copy_topic buf at topic_len =
    if leb (at + topic_len) (length buf)
    then ok (take topic_len (drop at buf) ++ replicate (max_size_of_cloud_topic - topic_len) 0)
    else fault

-- `_is_topic_equals` needs the array's terminator, `_is_topic_matched` its length.
unfoldable pub takes_topic : List ℕ → ℕ → List ℕ → Outcome Bool
takes_topic fix_topic topic_len topic_filter = do
  name ← c_string fix_topic
  if is_topic_equals name topic_filter
      then ok true
      else is_topic_matched topic_filter (take topic_len fix_topic)

-- A free slot takes nothing, and a match with no message handler is passed over.
unfoldable pub choice : Option (List ℕ) → Option ℕ → List ℕ → ℕ → Outcome (Option ℕ)
choice none message_handler fix_topic topic_len = ok none
choice (some topic_filter) message_handler fix_topic topic_len = do
  matched ← takes_topic fix_topic topic_len topic_filter
  ok (if matched then message_handler else none)

abbrev pub found : ℕ → Outcome (Option (ℕ × ℕ)) → Option ℕ → Outcome (Option (ℕ × ℕ))
found user_data rest none = rest
found user_data rest (some h) = ok (some (h, user_data))

-- The handler that is called, with its user data.
unfoldable pub find_handler : List SubTopicHandle → List ℕ → ℕ → Outcome (Option (ℕ × ℕ))
find_handler [] fix_topic topic_len = ok none
find_handler (s ∷ ss) fix_topic topic_len = do
  h ← choice s.topic_filter s.message_handler fix_topic topic_len
  found s.handler_user_data (find_handler ss fix_topic topic_len) h
