-- ===== src/Mqtt/Unsubscribe/Wildcard.antt =====
-- Which handles an unsubscription drops.
use esp_qcloud.Prelude.{ℕ, ◌≡◌, refl, arith, none, false, List, [], ◌∷◌, if◌then◌else◌, map}
use esp_qcloud.Mqtt.Topic.{hash, plus}
use esp_qcloud.Mqtt.Client.{Client, SubTopicHandle, EventType, notify_subscriber}
use esp_qcloud.Mqtt.Unsubscribe.{has_after_slash, names_filter, is_dropped, drop_handles}

abbrev pub without_filter : SubTopicHandle → SubTopicHandle
without_filter s = record s { topic_filter = none }

-- The handles that a filter without a wildcard behind a separator names lose their topic filter,
-- and no other handle changes.
abbrev pub cleared : List ℕ → SubTopicHandle → SubTopicHandle
cleared topic s = if names_filter s.topic_filter topic then without_filter s else s

pub drop_handles_named :
    (topic : List ℕ) (table : List SubTopicHandle) (c : Client)
    → has_after_slash hash topic ≡ false
    → has_after_slash plus topic ≡ false
    → (drop_handles topic table c).0.1 ≡ map (cleared topic) table
unfolding drop_handles is_dropped
drop_handles_named topic [] c h p = refl
drop_handles_named topic (s ∷ ss) c h p =
    let told = notify_subscriber s.sub_event_handler EventType.unsubscribe s.handler_user_data c in
    let ih = drop_handles_named topic ss (if is_dropped topic s then told else c) h p in
    rw ih (ground (arith))
