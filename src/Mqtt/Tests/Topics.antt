-- ===== src/Mqtt/Tests/Topics.antt =====
-- Topics, packet ids and the repeat buffer at concrete inputs.
use esp_qcloud.Prelude.{◌≤◌, ◌≡◌, ◌≢◌, refl, arith, [], ◌∷◌, ◌++◌, none, some, ok}
use esp_qcloud.Mqtt.Topic.{slash, hash, is_topic_matched}
use esp_qcloud.Mqtt.Topic.Multi.{starts_with, is_topic_matched_multi}
use esp_qcloud.Mqtt.Topic.Levels.{
  text, single, level_string, filter_tail, name_tail, admits_all, is_topic_matched_levels,
}
use esp_qcloud.Mqtt.PacketId.{ids_on, max_packet_id, ids_on_distinct}
use esp_qcloud.Mqtt.Repeat.{
  initial, find_id, get_packet_id_in_repeat_buf, add_packet_id_to_repeat_buf,
}
use esp_qcloud.Mqtt.Repeat.Window.{add_all, get_packet_id-add_all}

-- "a/+" and "a/xy"
is_topic_matched_levels_example :
    is_topic_matched
      (level_string (text (b'a' ∷ [])) ++ filter_tail (single ∷ []))
      ((b'a' ∷ []) ++ name_tail ((b'x' ∷ b'y' ∷ []) ∷ []))
    ≡ ok (admits_all (text (b'a' ∷ []) ∷ single ∷ []) ((b'a' ∷ []) ∷ (b'x' ∷ b'y' ∷ []) ∷ []))
is_topic_matched_levels_example =
    is_topic_matched_levels (text (b'a' ∷ [])) (single ∷ []) (b'a' ∷ []) ((b'x' ∷ b'y' ∷ []) ∷ [])
      (omega arith) (omega arith) (λ e. cc)

-- "a/#" and "ab"
is_topic_matched_multi_example :
    is_topic_matched ((b'a' ∷ []) ++ (slash ∷ hash ∷ [])) (b'a' ∷ b'b' ∷ [])
    ≡ ok (starts_with (b'a' ∷ []) (b'a' ∷ b'b' ∷ []))
is_topic_matched_multi_example =
    is_topic_matched_multi (b'a' ∷ []) (b'a' ∷ b'b' ∷ []) ((λ e. cc, λ e. cc), tt)

ids_on_distinct_example :
    (1 ≤ ids_on 5 65533) × (ids_on 5 65533 ≤ max_packet_id) × (ids_on 2 65533 ≢ ids_on 5 65533)
ids_on_distinct_example =
    ids_on_distinct 65533 2 5 (omega arith) (omega arith) (omega arith) (omega arith)

not_seen : get_packet_id_in_repeat_buf initial 7 ≡ none
unfolding get_packet_id_in_repeat_buf find_id
not_seen = refl

get_packet_id-add_all_example :
    get_packet_id_in_repeat_buf (add_all (add_packet_id_to_repeat_buf initial 7) (8 ∷ 9 ∷ [])) 7
    ≡ some 7
get_packet_id-add_all_example =
    get_packet_id-add_all initial 7 (8 ∷ 9 ∷ []) (record { full = refl; in_range = omega arith })
      not_seen (omega arith)
