-- ===== src/Mqtt/SubTable/Alike.antt =====
-- When two handles are the same subscription.
use esp_qcloud.Prelude.{
  ℕ, ◌≡◌, refl, arith, Option, none, some, Bool, true, false, ◌&&◌, ◌||◌, List, [], ◌∷◌, All, ◌==◌,
}
use esp_qcloud.Mqtt.Topic.{is_topic_equals}
use esp_qcloud.Mqtt.Client.{SubTopicHandle}
use esp_qcloud.Mqtt.SubTable.{same_pointer, is_occupied}

abbrev pub alike_filter : Option (List ℕ) → Option (List ℕ) → Bool
alike_filter (some f) (some g) = is_topic_equals f g
alike_filter _ _ = false

-- The same topic filter and the same functions.
abbrev pub alike : SubTopicHandle → SubTopicHandle → Bool
alike s t =
    alike_filter s.topic_filter t.topic_filter
    && (same_pointer s.message_handler t.message_handler
        && same_pointer s.sub_event_handler t.sub_event_handler)

-- No two places hold handles that are alike.
abbrev pub NoTwins : List SubTopicHandle → Type 0
NoTwins [] = Unit {0}
NoTwins (s ∷ ss) = All (λ t. alike s t ≡ false) ss × NoTwins ss

-- A place holds the handle, with its user data.
abbrev pub holds : SubTopicHandle → List SubTopicHandle → Bool
holds h [] = false
holds h (s ∷ ss) = (alike s h && s.handler_user_data == h.handler_user_data) || holds h ss

topic_equals_self : (f : List ℕ) → is_topic_equals f f ≡ true
unfolding is_topic_equals
topic_equals_self [] = refl
topic_equals_self (x ∷ f) = ground (arith, topic_equals_self f)

topic_equals_sym : (f g : List ℕ) → is_topic_equals f g ≡ is_topic_equals g f
unfolding is_topic_equals
topic_equals_sym [] [] = refl
topic_equals_sym [] (y ∷ g) = refl
topic_equals_sym (x ∷ f) [] = refl
topic_equals_sym (x ∷ f) (y ∷ g) = ground (arith, topic_equals_sym f g)

same_pointer_self : (p : Option ℕ) → same_pointer p p ≡ true
unfolding same_pointer
same_pointer_self none = refl
same_pointer_self (some x) = ground arith

same_pointer_sym : (p q : Option ℕ) → same_pointer p q ≡ same_pointer q p
unfolding same_pointer
same_pointer_sym none none = refl
same_pointer_sym none (some y) = refl
same_pointer_sym (some x) none = refl
same_pointer_sym (some x) (some y) = ground arith

alike_filter_sym : (f g : Option (List ℕ)) → alike_filter f g ≡ alike_filter g f
alike_filter_sym none none = refl
alike_filter_sym none (some g) = refl
alike_filter_sym (some f) none = refl
alike_filter_sym (some f) (some g) = topic_equals_sym f g

pub alike_sym : (s t : SubTopicHandle) → alike s t ≡ alike t s
alike_sym s t = rw (alike_filter_sym s.topic_filter t.topic_filter) (
    rw (same_pointer_sym s.message_handler t.message_handler)
      (rw (same_pointer_sym s.sub_event_handler t.sub_event_handler) refl))

alike_filter_self : (f : Option (List ℕ)) → is_occupied f ≡ true → alike_filter f f ≡ true
alike_filter_self none e = ground arith
alike_filter_self (some f) e = topic_equals_self f

pub alike_self : (h : SubTopicHandle) → is_occupied h.topic_filter ≡ true → alike h h ≡ true
alike_self h e = ground (
  arith,
  alike_filter_self h.topic_filter e,
  same_pointer_self h.message_handler,
  same_pointer_self h.sub_event_handler,
)
