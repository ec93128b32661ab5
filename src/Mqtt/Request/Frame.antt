-- ===== src/Mqtt/Request/Frame.antt =====
-- What a subscription leaves as it is.
use esp_qcloud.Prelude.{
  ℕ, zero, suc, ◌≤◌, refl, arith, Option, none, some, Bool, true, false, not, List, [], ◌∷◌, length,
  Bool-cases, inl, inr, Outcome, ok, err, fault,
}
use esp_qcloud.Prelude.Codes.{Code}
use esp_qcloud.Mqtt.Header.{MessageType, subscribe}
use esp_qcloud.Mqtt.Subscribe.{serialize_subscribe_packet}
use esp_qcloud.Mqtt.Client.{Client, SubTopicHandle, Action, continue}
use esp_qcloud.Mqtt.Frame.{Goes, SameCore, stay-Goes, core-Goes, then-Goes, continue-Goes}
use esp_qcloud.Mqtt.WaitList.{allocate, countdown_ms, push_sub_info_to, remove_at}
use esp_qcloud.Mqtt.WaitList.Frame.{
  countdown_ms-Goes, allocate-SameCore, subs-Goes, push_sub_info_to-Goes,
}
use esp_qcloud.Mqtt.Net.{send_mqtt_packet}
use esp_qcloud.Mqtt.Net.Frame.{send_mqtt_packet-Goes}
use esp_qcloud.Mqtt.Request.{
  SubscribeParams, next_id, refusal, write_packet, undo, remove_sub, guarded, topic_of,
  require_filter, send_request, subscribe_connected, mqtt_subscribe, resubscribe_one,
  resubscribe_all, mqtt_resubscribe,
}

pub write_packet-SameCore : (packet : List ℕ) (c : Client) → SameCore c (write_packet packet c).1
unfolding write_packet
write_packet-SameCore packet c = ground arith

length-remove_at {ℓ} : {A : Type ℓ} (xs : List A) (i : ℕ) → length (remove_at xs i) ≤ length xs
unfolding remove_at
length-remove_at [] i = omega arith
length-remove_at (x ∷ xs) zero = omega arith
length-remove_at (x ∷ xs) (suc i) = omega (arith, length-remove_at xs i)

remove_sub-Goes : (place : ℕ) (c : Client) → Goes c (remove_sub place c)
unfolding remove_sub
remove_sub-Goes place c =
    subs-Goes c (remove_at c.list_sub_wait_ack place) (length-remove_at c.list_sub_wait_ack place)

undo-Goes :
    (place : ℕ) (c d : Client) (r : Outcome (Unit {0}))
    → Goes c d
    → Goes c (undo (remove_sub place) (r, d)).1
unfolding undo
undo-Goes place c d (ok u) goes = goes
undo-Goes place c d (err e) goes = then-Goes c d (remove_sub place d) goes (remove_sub-Goes place d)
undo-Goes place c d fault goes = goes

require_filter-then :
    {A : Type 0} (b : Bool) (c d : Client) (k : Unit {0} → Action A)
    → Goes c d
    → Goes c (k tt d).1
    → Goes c (continue (require_filter b d).0 k (require_filter b d).1).1
unfolding require_filter
require_filter-then true c d k p q = q
require_filter-then false c d k p q = p

send_request-Goes :
    (ty : MessageType) (packet : List ℕ) (id : ℕ) (h : SubTopicHandle) (timer : ℕ) (c : Client)
    → Goes c (send_request ty packet id h timer c).1
unfolding send_request
send_request-Goes ty packet id h timer c =
    let (w, d) = write_packet packet c in
    let written = core-Goes c d (write_packet-SameCore packet c) in
    continue-Goes c d w _ written (λ u.
      let (p, e) = push_sub_info_to (length packet) id ty h d in
      continue-Goes d e p _ (push_sub_info_to-Goes (length packet) id ty h d) (λ place.
        let (r, f) = send_mqtt_packet (length packet) timer e in
        let (q, g) = undo (remove_sub place) (r, f) in
        let sent = undo-Goes place e f r (send_mqtt_packet-Goes (length packet) timer e) in
        continue-Goes e g q _ sent (λ v. stay-Goes g)))

subscribe_connected-Goes :
    (topic : List ℕ) (p : SubscribeParams) (c : Client) → Goes c (subscribe_connected topic p c).1
unfolding subscribe_connected next_id
subscribe_connected-Goes topic p c =
    let (stored, d) = allocate c in
    let first = core-Goes c d (allocate-SameCore c) in
    require_filter-then stored c d _ first (
      let (timer, e) = countdown_ms c.command_timeout_ms d in
      let second = then-Goes c d e first (countdown_ms-Goes c.command_timeout_ms d) in
      let (id, f) = next_id e in
      let third = then-Goes c e f second (core-Goes e f refl) in
      continue-Goes c f (serialize_subscribe_packet (length c.write_buf) 0 id topic (p.qos ∷ [])) _
        third (λ packet. send_request-Goes subscribe packet id _ timer f))

guarded-Goes :
    {A : Type 0} (o : Option Code) (m : Action A) (c : Client)
    → Goes c (m c).1
    → Goes c (guarded o m c).1
guarded-Goes none m c goes = goes
guarded-Goes (some e) m c goes = stay-Goes c

mqtt_subscribe-Goes :
    (topic : Option (List ℕ)) (p : SubscribeParams) (c : Client)
    → Goes c (mqtt_subscribe topic p c).1
unfolding mqtt_subscribe
mqtt_subscribe-Goes topic p c =
    guarded-Goes (refusal topic p.qos c) (subscribe_connected (topic_of topic) p) c
      (subscribe_connected-Goes (topic_of topic) p c)

resubscribe_one-Goes :
    (topic : Option (List ℕ)) (s : SubTopicHandle) (c : Client)
    → Goes c (resubscribe_one topic s c).1
unfolding resubscribe_one
resubscribe_one-Goes none s c = stay-Goes c
resubscribe_one-Goes (some topic) s c =
    let p : SubscribeParams = record {
      qos = s.qos;
      on_message_handler = s.message_handler;
      on_sub_event_handler = s.sub_event_handler;
      user_data = s.handler_user_data;
    } in
    let (r, d) = mqtt_subscribe (some topic) p c in
    continue-Goes c d r _ (mqtt_subscribe-Goes (some topic) p c) (λ id. stay-Goes d)

resubscribe_all-Goes : (ss : List SubTopicHandle) (c : Client) → Goes c (resubscribe_all ss c).1
unfolding resubscribe_all
resubscribe_all-Goes [] c = stay-Goes c
resubscribe_all-Goes (s ∷ ss) c =
    let (r, d) = resubscribe_one s.topic_filter s c in
    continue-Goes c d r _ (resubscribe_one-Goes s.topic_filter s c) (λ u. resubscribe_all-Goes ss d)

-- A subscription made again leaves the connection as it is.
pub mqtt_resubscribe-Goes : (c : Client) → Goes c (mqtt_resubscribe c).1
unfolding mqtt_resubscribe
mqtt_resubscribe-Goes c = elim (Bool-cases (not c.is_connected)) [
  | inl off ↦ rw off (stay-Goes c)
  | inr on ↦ rw on (resubscribe_all-Goes c.sub_handles c)
]
