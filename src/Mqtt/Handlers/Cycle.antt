-- ===== src/Mqtt/Handlers/Cycle.antt =====
-- What a whole round of reading and handling keeps.
use esp_qcloud.Prelude.{
  ℕ, ◌*◌, ◌%◌, ◌^◌, ◌≡◌, refl, arith, Bool, true, false, length, ◌==◌, if◌then◌else◌, Bool-cases,
  inl, inr, Outcome, ok, err, fault,
}
use esp_qcloud.Mqtt.Header.{
  type_code, connack, publish, puback, pubrec, pubrel, pubcomp, suback, unsuback, pingresp,
}
use esp_qcloud.Mqtt.Ack.{deserialize_ack_packet, deserialize_unsuback_packet}
use esp_qcloud.Mqtt.Client.{
  Client, Action, continue, pure, notify, publish_success, unsubscribe_success,
}
use esp_qcloud.Mqtt.Frame.{Goes, stay-Goes, core-Goes, then-Goes, continue-Goes, notify-SameCore}
use esp_qcloud.Mqtt.WaitList.{mask_pub_info_from, mask_sub_info_from, countdown_ms}
use esp_qcloud.Mqtt.WaitList.Frame.{
  mask_pub_info_from-Goes, mask_sub_info_from-Goes, countdown_ms-Goes,
}
use esp_qcloud.Mqtt.Net.{read_mqtt_packet}
use esp_qcloud.Mqtt.Net.Reading.{read_mqtt_packet-SameCore}
use esp_qcloud.Mqtt.SubTable.Alike.{NoTwins}
use esp_qcloud.Mqtt.Deliver.Table.{handle_publish_packet-Goes, handle_pubrec_packet-Goes}
use esp_qcloud.Mqtt.Handlers.{
  handle_puback_packet, handle_unsuback_packet, handle_pingresp_packet, was_set, handle_packet,
  is_handled, note_alive, no_packet, cycle_after, cycle_for_read,
}
use esp_qcloud.Mqtt.Handlers.Acks.{handle_suback_packet-Goes}

handle_puback-Goes : (c : Client) → Goes c (handle_puback_packet c).1
unfolding handle_puback_packet
handle_puback-Goes c =
    continue-Goes c c (deserialize_ack_packet c.read_buf (length c.read_buf)) _ (stay-Goes c)
      (λ ack.
        let (r, d) = mask_pub_info_from ack.packet_id c in
        continue-Goes c d r _ (mask_pub_info_from-Goes ack.packet_id c) (λ u.
          core-Goes d (notify publish_success ack.packet_id d)
            (notify-SameCore publish_success ack.packet_id d)))

handle_unsuback-Goes : (c : Client) → Goes c (handle_unsuback_packet c).1
unfolding handle_unsuback_packet
handle_unsuback-Goes c =
    continue-Goes c c (deserialize_unsuback_packet c.read_buf (length c.read_buf)) _ (stay-Goes c)
      (λ id.
        let (r, d) = mask_sub_info_from id c in
        continue-Goes c d r _ (mask_sub_info_from-Goes id c) (λ h.
          continue-Goes d d (was_set h) _ (stay-Goes d) (λ u.
            core-Goes d (notify unsubscribe_success id d)
              (notify-SameCore unsubscribe_success id d))))

pingresp-Goes : (c : Client) → Goes c (handle_pingresp_packet c)
unfolding handle_pingresp_packet
pingresp-Goes c =
    let d = record c { is_ping_outstanding = 0 } in
    let t = c.options.keep_alive_interval * 1000 % 2 ^ 32 in
    let (end_time, e) = countdown_ms t d in
    then-Goes c e (record e { ping_end_time = end_time })
      (then-Goes c d e (core-Goes c d refl) (countdown_ms-Goes t d))
      (core-Goes e (record e { ping_end_time = end_time }) refl)

note_alive-Goes : (ty : ℕ) (c : Client) → Goes c (note_alive ty c)
unfolding note_alive
note_alive-Goes ty c = ground (arith, pingresp-Goes c)

-- One of two calls.
either-Goes :
    {A : Type 0} (b : Bool) (c : Client) (m n : Action A)
    → Goes c (m c).1
    → Goes c (n c).1
    → Goes c ((if b then m else n) c).1
either-Goes true c m n p q = p
either-Goes false c m n p q = q

handle_packet-Goes : (ty timer : ℕ) (c : Client) → Goes c (handle_packet ty timer c).1
unfolding handle_packet
handle_packet-Goes ty timer c = either-Goes (ty == type_code connack) c _ _ (stay-Goes c) (
    either-Goes (ty == type_code puback) c _ _ (handle_puback-Goes c) (
      either-Goes (ty == type_code suback) c _ _ (handle_suback_packet-Goes c) (
        either-Goes (ty == type_code unsuback) c _ _ (handle_unsuback-Goes c) (
          either-Goes (ty == type_code publish) c _ _ (handle_publish_packet-Goes timer c) (
            either-Goes (ty == type_code pubrec) c _ _ (handle_pubrec_packet-Goes timer c) (
              either-Goes (ty == type_code pubrel) c _ _ (stay-Goes c) (
                either-Goes (ty == type_code pubcomp) c _ _ (stay-Goes c)
                  (either-Goes (ty == type_code pingresp) c _ _ (stay-Goes c) (stay-Goes c)))))))))

pure-Goes :
    (ty : ℕ) (c d : Client) (r : Outcome (Unit {0}))
    → Goes c d
    → Goes c (continue r (λ u. pure ty) d).1
pure-Goes ty c d (ok u) k = k
pure-Goes ty c d (err e) k = k
pure-Goes ty c d fault k = k

cycle_after-Goes :
    (previous timer : ℕ) (r : Outcome ℕ) (c : Client) → Goes c (cycle_after previous timer r c).1
unfolding cycle_after
cycle_after-Goes previous timer (ok ty) c =
    let (rc, d) = handle_packet ty timer c in
    let kept = handle_packet-Goes ty timer c in
    elim (Bool-cases (is_handled ty)) [
      | inl y ↦ rw y (
          pure-Goes ty c (note_alive ty d) rc
            (then-Goes c d (note_alive ty d) kept (note_alive-Goes ty d)))
      | inr m ↦ rw m kept
    ]
cycle_after-Goes previous timer (err e) c = elim (Bool-cases (no_packet e)) [
  | inl y ↦ rw y (stay-Goes c)
  | inr m ↦ rw m (stay-Goes c)
]
cycle_after-Goes previous timer fault c = stay-Goes c

pub cycle_for_read-Goes :
    (previous timer : ℕ) (c : Client) → Goes c (cycle_for_read previous timer c).1
unfolding cycle_for_read
cycle_for_read-Goes previous timer c =
    let (r, d) = read_mqtt_packet c in
    then-Goes c d (cycle_after previous timer r d).1 (core-Goes c d (read_mqtt_packet-SameCore c))
      (cycle_after-Goes previous timer r d)

-- Whatever arrives, and whatever the network, the clock and the allocator do: a round of reading and
-- handling leaves the table of subscriptions as large as it was, and without two handles of the
-- same topic filter and functions if it had none.
pub cycle_for_read-NoTwins :
    (previous timer : ℕ) (c : Client)
    → NoTwins c.sub_handles
    → NoTwins (cycle_for_read previous timer c).1.sub_handles
      × (length (cycle_for_read previous timer c).1.sub_handles ≡ length c.sub_handles)
cycle_for_read-NoTwins previous timer c n =
    let (control, (runs, table, lists)) = cycle_for_read-Goes previous timer c in
    table (length c.sub_handles) (n, refl)
