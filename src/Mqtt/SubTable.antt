-- ===== src/Mqtt/SubTable.antt =====
-- The table of subscriptions, `sub_handles`: `_check_handle_is_identical` and the loop of
-- `_handle_suback_packet` in sdk_src/mqtt_client_common.c.
pub mod Alike
pub mod Put
use esp_qcloud.Prelude.{
  ℕ, zero, suc, ◌+◌, Option, none, some, Bool, true, false, ◌&&◌, List, [], ◌∷◌, set, length, ◌==◌,
  if◌then◌else◌, Outcome, ok, err, fault, ◌>>=◌,
}
use esp_qcloud.Prelude.Codes.{failure}
use esp_qcloud.Mqtt.Topic.{is_topic_equals}
use esp_qcloud.Mqtt.Client.{SubTopicHandle}

unfoldable pub same_pointer : Option ℕ → Option ℕ → Bool
same_pointer none none = true
same_pointer (some x) (some y) = x == y
same_pointer _ _ = false

-- `strlen` of a null pointer is a fault.
unfoldable pub same_filter : Option (List ℕ) → Option (List ℕ) → Outcome Bool
same_filter (some f) (some g) = ok (is_topic_equals f g)
same_filter _ _ = fault

-- Whether the code's result is 0.
unfoldable pub check_handle_is_identical : SubTopicHandle → SubTopicHandle → Outcome Bool
check_handle_is_identical s t = do
  same ← same_filter s.topic_filter t.topic_filter
  ok (
      same
      && (same_pointer s.message_handler t.message_handler
          && same_pointer s.sub_event_handler t.sub_event_handler))

abbrev pub is_occupied : Option (List ℕ) → Bool
is_occupied none = false
is_occupied (some f) = true

-- `i_free` keeps the first free place.
unfoldable pub note_free : Bool → ℕ → Option ℕ → Option ℕ
note_free true i i_free = i_free
note_free false i none = some i
note_free false i (some j) = some j

abbrev pub keep : SubTopicHandle → Option (List SubTopicHandle) → Option (List SubTopicHandle)
keep s none = none
keep s (some ss) = some (s ∷ ss)

-- The table, if an identical handle was found, and `i_free`.
unfoldable pub scan :
    List SubTopicHandle
    → SubTopicHandle
    → ℕ
    → Option ℕ
    → Outcome (Option (List SubTopicHandle) × Option ℕ)
scan [] h i i_free = ok (none, i_free)
scan (s ∷ ss) h i i_free =
    let rest = scan ss h (i + 1) (note_free (is_occupied s.topic_filter) i i_free) in
    do
      identical ← if is_occupied s.topic_filter then check_handle_is_identical s h else ok false
      if identical
          then ok (some (record s { handler_user_data = h.handler_user_data } ∷ ss), i_free)
          else (do (table, free) ← rest; ok (keep s table, free))

-- The table after the loop and the test of `flag_dup` and `i_free`.
unfoldable pub placed :
    List SubTopicHandle
    → SubTopicHandle
    → Option (List SubTopicHandle) × Option ℕ
    → Outcome (List SubTopicHandle)
placed table h (some updated, i_free) = ok updated
placed table h (none, none) = err failure
placed table h (none, some i_free) = ok (set table i_free h)

unfoldable pub put_handle : List SubTopicHandle → SubTopicHandle → Outcome (List SubTopicHandle)
put_handle table h = scan table h 0 none >>= placed table h
