-- ===== src/Mqtt/Deliver/Once.antt =====
-- A message of QoS 1 or 2 that is received once or again.
use mathlib.Core.List.{append_assoc, append-nil}
use esp_qcloud.Prelude.{
  ◌∙◌, sym, ℕ, ◌≤◌, ◌≡◌, refl, Option, none, some, Bool, true, false, List, [], ◌∷◌, ◌++◌, length,
  take, ◌==◌, if◌then◌else◌, ok,
}
use esp_qcloud.Mqtt.Header.{qos0}
use esp_qcloud.Mqtt.Publish.{Publish, deserialize_publish_packet}
use esp_qcloud.Mqtt.Repeat.Window
use esp_qcloud.Mqtt.Routing.Choice.{Chosen, find_handler-Chosen}
use esp_qcloud.Mqtt.Routing.{copy_topic, cut_topic_len, find_handler}
use esp_qcloud.Mqtt.Repeat.{get_packet_id_in_repeat_buf, add_packet_id_to_repeat_buf}
use esp_qcloud.Mqtt.Client.{
  Client, Output, to_default, to_handler, to_network, modify, ◌>>◌, output,
}
use esp_qcloud.Mqtt.Deliver.{
  hand_over, deliver_message, send_ack, deliver_new, deliver_known, handle_publish_packet,
}
use esp_qcloud.Mqtt.Deliver.Answer.{
  IsReady, ack_bytes, ack_header, answer_type, sent, send_ack_whole, answer_type-Answers,
}

-- The message and what the code takes from the read buffer with it.
pub record Received (c : Client) (msg : Publish) (id : ℕ) (topic : List ℕ) : Type 0 where
  pub read : deserialize_publish_packet c.read_buf (length c.read_buf) ≡ ok msg
  pub has_id : msg.packet_id ≡ some id
  pub above_qos0 : (msg.qos == qos0) ≡ false
  pub copied : copy_topic c.read_buf msg.topic_name.1 (cut_topic_len msg.topic_len) ≡ ok topic

-- What is remembered and sent, after what was delivered.
abbrev answered : Publish → ℕ → List ℕ → Client → Client
answered msg id ts c =
    sent (ack_bytes (ack_header (answer_type msg.qos)) id) ts
      (record c { repeat_buf = add_packet_id_to_repeat_buf c.repeat_buf id })

maybe_output-IsReady :
    (timer t : ℕ) (ts : List ℕ) (b : Bool) (o : Output) (c : Client)
    → IsReady timer t ts c
    → let d = if b then output o c else c in IsReady timer t ts d × (d.repeat_buf ≡ c.repeat_buf)
maybe_output-IsReady timer t ts true o c r =
    (record { room = r.room; clock = r.clock; early = r.early; takes = r.takes }, refl)
maybe_output-IsReady timer t ts false o c r = (r, refl)

hand_over-IsReady :
    (timer t : ℕ) (ts topic : List ℕ) (msg : Publish) (h : Option (ℕ × ℕ)) (c : Client)
    → IsReady timer t ts c
    → IsReady timer t ts (hand_over h topic msg c)
      × ((hand_over h topic msg c).repeat_buf ≡ c.repeat_buf)
unfolding hand_over
hand_over-IsReady timer t ts topic msg (some h) c r =
    (record { room = r.room; clock = r.clock; early = r.early; takes = r.takes }, refl)
hand_over-IsReady timer t ts topic msg none c r =
    maybe_output-IsReady timer t ts c.has_event_handler (to_default topic msg) c r

-- The end of the handler, for a message that is known or was just delivered.
finish_publish :
    (timer t id : ℕ) (ts : List ℕ) (msg : Publish) (c : Client)
    → IsReady timer t ts c
    → (modify (λ d. record d { repeat_buf = add_packet_id_to_repeat_buf d.repeat_buf id })
          >> send_ack (answer_type msg.qos) id timer)
        c
      ≡ (ok tt, answered msg id ts c)
finish_publish timer t id ts msg c r =
    send_ack_whole (answer_type msg.qos) id timer t ts
      (record c { repeat_buf = add_packet_id_to_repeat_buf c.repeat_buf id })
      (answer_type-Answers msg.qos)
      (record { room = r.room; clock = r.clock; early = r.early; takes = r.takes })

-- What goes to the program: to the handler, or to the client's own if it has one.
abbrev pub delivered : Option (ℕ × ℕ) → Bool → List ℕ → Publish → List Output
delivered (some (h, user_data)) has_default topic msg = to_handler h user_data topic msg ∷ []
delivered none true topic msg = to_default topic msg ∷ []
delivered none false topic msg = []

maybe_output-outputs :
    (b : Bool) (topic : List ℕ) (msg : Publish) (c : Client)
    → (if b then output (to_default topic msg) c else c).world.outputs
      ≡ c.world.outputs ++ delivered none b topic msg
maybe_output-outputs true topic msg c = refl
maybe_output-outputs false topic msg c = sym (append-nil c.world.outputs)

hand_over-outputs :
    (h : Option (ℕ × ℕ)) (topic : List ℕ) (msg : Publish) (c : Client)
    → (hand_over h topic msg c).world.outputs
      ≡ c.world.outputs ++ delivered h c.has_event_handler topic msg
unfolding hand_over
hand_over-outputs (some (h, user_data)) topic msg c = refl
hand_over-outputs none topic msg c = maybe_output-outputs c.has_event_handler topic msg c

new_publish :
    (timer t id : ℕ) (ts topic : List ℕ) (msg : Publish) (h : Option (ℕ × ℕ)) (c : Client)
    → Received c msg id topic
    → IsReady timer t ts c
    → find_handler c.sub_handles topic (cut_topic_len msg.topic_len) ≡ ok h
    → get_packet_id_in_repeat_buf c.repeat_buf id ≡ none
    → handle_publish_packet timer c
      ≡ (ok tt, answered msg id ts (hand_over h (take (cut_topic_len msg.topic_len) topic) msg c))
unfolding handle_publish_packet deliver_known deliver_new deliver_message hand_over
new_publish timer t id ts topic msg h c r ready found new =
    let d = hand_over h (take (cut_topic_len msg.topic_len) topic) msg c in
    let (ready', same) =
      hand_over-IsReady timer t ts (take (cut_topic_len msg.topic_len) topic) msg h c ready in
    simp (r.read, r.copied, r.above_qos0, r.has_id, new, found)
      (finish_publish timer t id ts msg d ready')

-- The network takes an acknowledgement at once. A message of QoS 1 or 2 whose id is not remembered
-- goes to the handler of the first place of the table that takes its topic and has one, or else to
-- the client's own if it has one; then a PUBACK or a PUBREC with the id is sent, and that is all
-- that goes out. The id is remembered from then on, while at most 49 further ids come.
pub handle_publish_packet_new :
    (timer t id : ℕ) (ts topic ids : List ℕ) (msg : Publish) (h : Option (ℕ × ℕ)) (c : Client)
    → Received c msg id topic
    → IsReady timer t ts c
    → Window.IsValid c.repeat_buf
    → Chosen h c.sub_handles topic (cut_topic_len msg.topic_len)
    → get_packet_id_in_repeat_buf c.repeat_buf id ≡ none
    → length ids ≤ 49
    → let r = handle_publish_packet timer c in
      (r.0 ≡ ok tt)
      × (r.1.world.outputs
          ≡ c.world.outputs
            ++ (delivered h c.has_event_handler (take (cut_topic_len msg.topic_len) topic) msg
                ++ (to_network (ack_bytes (ack_header (answer_type msg.qos)) id) ∷ [])))
      × (get_packet_id_in_repeat_buf (Window.add_all r.1.repeat_buf ids) id ≡ some id)
handle_publish_packet_new timer t id ts topic ids msg h c r ready valid chosen new short =
    let name = take (cut_topic_len msg.topic_len) topic in
    let found = find_handler-Chosen h c.sub_handles topic (cut_topic_len msg.topic_len) chosen in
    let (ready', same) = hand_over-IsReady timer t ts name msg h c ready in
    let answer = to_network (ack_bytes (ack_header (answer_type msg.qos)) id) ∷ [] in
    rw (new_publish timer t id ts topic msg h c r ready found new) (
      refl,
      (rw (hand_over-outputs h name msg c) refl)
          ∙ append_assoc c.world.outputs (delivered h c.has_event_handler name msg) answer,
      rw same (Window.get_packet_id-add_all c.repeat_buf id ids valid new short),
    )

-- A message of QoS 1 or 2 whose id is remembered is answered again, and no handler gets it: the
-- answer is all that goes out.
pub handle_publish_packet_again :
    (timer t id : ℕ) (ts topic : List ℕ) (msg : Publish) (c : Client)
    → Received c msg id topic
    → IsReady timer t ts c
    → get_packet_id_in_repeat_buf c.repeat_buf id ≡ some id
    → (handle_publish_packet timer c).0 ≡ ok tt
      × ((handle_publish_packet timer c).1.world.outputs
          ≡ c.world.outputs ++ (to_network (ack_bytes (ack_header (answer_type msg.qos)) id) ∷ []))
unfolding handle_publish_packet deliver_known deliver_new
handle_publish_packet_again timer t id ts topic msg c r ready known =
    let e = finish_publish timer t id ts msg c ready in
    simp (r.read, r.copied, r.above_qos0, r.has_id, known, e) (refl, refl)
