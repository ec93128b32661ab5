-- ===== src/Mqtt/Routing/Choice.antt =====
-- Which handler a message gets.
use esp_qcloud.Prelude.{
  ℕ, zero, suc, ◌-◌, ◌≤◌, ◌≡◌, refl, arith, Option, none, some, false, List, [], ◌∷◌, ◌++◌, length,
  take, drop, replicate, All, ◌==◌, if◌then◌else◌, ok, fault,
}
use esp_qcloud.Mqtt.Client.{SubTopicHandle}
use esp_qcloud.Mqtt.Routing.{c_string, copy_topic, choice, find_handler}

c_string-append_zeros :
    (topic : List ℕ) (k : ℕ)
    → All (λ b. (b == 0) ≡ false) topic
    → c_string (topic ++ replicate k 0) ≡ (if k == 0 then fault else ok topic)
unfolding c_string
c_string-append_zeros [] zero a = refl
c_string-append_zeros [] (suc k) a = ground arith
c_string-append_zeros (b ∷ topic) k (nonzero, more) =
    ground (arith, nonzero, c_string-append_zeros topic k more)

-- A topic of at most 128 bytes, none of them 0, that is copied into the array of 128 bytes: the
-- array holds the topic as a string if the topic is shorter, and no string at all if it has
-- exactly 128 bytes.
pub c_string-copy_topic :
    (topic : List ℕ) (at : ℕ) (buf array : List ℕ)
    → All (λ b. (b == 0) ≡ false) topic
    → length topic ≤ 128
    → take (length topic) (drop at buf) ≡ topic
    → copy_topic buf at (length topic) ≡ ok array
    → c_string array ≡ (if length topic == 128 then fault else ok topic)
unfolding copy_topic
c_string-copy_topic topic at buf array nonzero fits stands copy =
    ground (arith, c_string-append_zeros topic (128 - length topic) nonzero)

-- The first place of the table that matches the topic and has a message handler gives the handler
-- and its user data, whatever follows.
pub find_handler_first :
    (before after : List SubTopicHandle) (s : SubTopicHandle) (h : ℕ) (fix_topic : List ℕ)
    (topic_len : ℕ)
    → All (λ t. choice t.topic_filter t.message_handler fix_topic topic_len ≡ ok none) before
    → choice s.topic_filter s.message_handler fix_topic topic_len ≡ ok (some h)
    → find_handler (before ++ (s ∷ after)) fix_topic topic_len ≡ ok (some (h, s.handler_user_data))
unfolding find_handler
find_handler_first [] after s h fix_topic topic_len none_before here = rw here refl
find_handler_first (t ∷ before) after s h fix_topic topic_len (pass, more) here =
    rw pass (find_handler_first before after s h fix_topic topic_len more here)

-- The first place of the table that takes the topic and has a message handler, or that there is none.
abbrev pub Chosen : Option (ℕ × ℕ) → List SubTopicHandle → List ℕ → ℕ → Type 0
Chosen none table fix_topic topic_len =
    All (λ t. choice t.topic_filter t.message_handler fix_topic topic_len ≡ ok none) table
Chosen (some (h, user_data)) table fix_topic topic_len =
    (before : List SubTopicHandle) × ((s : SubTopicHandle) × ((after : List SubTopicHandle)
        × ((table ≡ before ++ (s ∷ after))
            × (All (λ t. choice t.topic_filter t.message_handler fix_topic topic_len ≡ ok none)
                before)
            × (choice s.topic_filter s.message_handler fix_topic topic_len ≡ ok (some h))
            × (s.handler_user_data ≡ user_data))))

find_handler-none :
    (table : List SubTopicHandle) (fix_topic : List ℕ) (topic_len : ℕ)
    → Chosen none table fix_topic topic_len
    → find_handler table fix_topic topic_len ≡ ok none
unfolding find_handler
find_handler-none [] fix_topic topic_len a = refl
find_handler-none (t ∷ table) fix_topic topic_len (pass, more) =
    rw pass (find_handler-none table fix_topic topic_len more)

pub find_handler-Chosen :
    (h : Option (ℕ × ℕ)) (table : List SubTopicHandle) (fix_topic : List ℕ) (topic_len : ℕ)
    → Chosen h table fix_topic topic_len
    → find_handler table fix_topic topic_len ≡ ok h
find_handler-Chosen none table fix_topic topic_len a = find_handler-none table fix_topic topic_len a
find_handler-Chosen (some (h, user_data)) table fix_topic topic_len
      (before, (s, (after, (at, pass, here, same)))) =
    rw (at, find_handler_first before after s h fix_topic topic_len pass here, same) refl
