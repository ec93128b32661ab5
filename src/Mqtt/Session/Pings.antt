-- ===== src/Mqtt/Session/Pings.antt =====
-- What the supervision of a connection keeps.
use esp_qcloud.Prelude.{
  ℕ, zero, suc, ◌+◌, ◌*◌, ◌%◌, ◌^◌, ◌≤◌, ◌<◌, ◌≡◌, ◌≢◌, refl, ap, ◌∙◌, arith, true, false, not,
  List, [], ◌∷◌, length, Bool-cases, inl, inr, Outcome, ok, err, fault,
}
use esp_qcloud.Prelude.Codes.{mqtt_no_conn}
use esp_qcloud.Mqtt.Header.{MessageType, pingreq}
use esp_qcloud.Mqtt.Ack.{serialize_packet_with_zero_payload}
use esp_qcloud.Mqtt.Client.{Client, Action, continue}
use esp_qcloud.Mqtt.WaitList.{countdown_ms, read_clock}
use esp_qcloud.Mqtt.Net.{send_mqtt_packet, put_bytes}
use esp_qcloud.Mqtt.Net.Frame.{OnlyWorld, send_mqtt_packet-OnlyWorld}
use esp_qcloud.Mqtt.Request.{write_packet}
use esp_qcloud.Mqtt.Session.{
  close, mqtt_disconnect, report_disconnect, after_disconnect, handle_disconnect, send_ping,
  or_else, ping_wait, try_ping, count_ping, after_ping, ping, mqtt_keep_alive,
}

-- A success leaves no connection.
abbrev Closed : Outcome (Unit {0}) × Client → Type 0
Closed r = r.0 ≡ ok tt → r.1.is_connected ≡ false

continue-Closed :
    {A : Type 0} (r : Outcome A) (k : A → Action (Unit {0})) (d : Client)
    → ((a : A) → Closed (k a d))
    → Closed (continue r k d)
continue-Closed (ok a) k d f = f a
continue-Closed (err e) k d f = λ h. cc
continue-Closed fault k d f = λ h. cc

mqtt_disconnect-Closed : (c : Client) → Closed (mqtt_disconnect c)
unfolding mqtt_disconnect close
mqtt_disconnect-Closed c = elim (Bool-cases (not c.is_connected)) [
  | inl y ↦ simp y (λ h. cc)
  | inr n ↦ simp n (
      continue-Closed
        (serialize_packet_with_zero_payload (length c.write_buf) MessageType.disconnect) _ c
        (λ packet.
          let (w, d) = write_packet packet c in
          continue-Closed w _ d (λ u.
            let (timer, e) = countdown_ms c.command_timeout_ms d in
            let (r, f) = send_mqtt_packet (length packet) timer e in
            continue-Closed r _ f (λ v. λ h. refl))))
]

after_disconnect_lem :
    (r : Outcome (Unit {0})) (c : Client)
    → (after_disconnect r c).0 ≢ fault
    → Closed (r, c)
    → ((after_disconnect r c).0 ≡ err mqtt_no_conn)
      × ((after_disconnect r c).1.is_connected ≡ false)
      × ((after_disconnect r c).1.was_manually_disconnected ≡ false)
unfolding after_disconnect report_disconnect close
after_disconnect_lem (ok u) c n h = (refl, ground (arith, h refl), refl)
after_disconnect_lem (err e) c n h = (refl, ground arith, refl)
after_disconnect_lem fault c n h = absurd (n refl)

-- When the end of a connection is handled, the client is told that it has none, whether its packet
-- could be sent or not, and the disconnection is not taken for one that the user asked for.
pub handle_disconnect_offline :
    (c : Client)
    → c.is_connected ≡ true
    → (handle_disconnect c).0 ≢ fault
    → ((handle_disconnect c).0 ≡ err mqtt_no_conn)
      × ((handle_disconnect c).1.is_connected ≡ false)
      × ((handle_disconnect c).1.was_manually_disconnected ≡ false)
unfolding handle_disconnect
handle_disconnect_offline c on = simp on (λ safe.
    after_disconnect_lem (mqtt_disconnect c).0 (mqtt_disconnect c).1 safe
      (mqtt_disconnect-Closed c))

-- The count of pings is as before.
abbrev Same : Client → Client → Type 0
Same c d = d.is_ping_outstanding ≡ c.is_ping_outstanding

continue-Same :
    {A B : Type 0} (c d : Client) (r : Outcome A) (k : A → Action B)
    → ((a : A) → Same c (k a d).1)
    → Same c d
    → Same c (continue r k d).1
continue-Same c d (ok a) k f e = f a
continue-Same c d (err x) k f e = e
continue-Same c d fault k f e = e

only-Same : (c d : Client) → OnlyWorld c d → Same c d
only-Same c d e = ap (λ x. x.is_ping_outstanding) e

write_packet-Same :
    (packet : List ℕ) (c : Client) (r : Outcome (List ℕ))
    → put_bytes 0 packet c.write_buf ≡ r
    → Same c (write_packet packet c).1
unfolding write_packet
write_packet-Same packet c (ok buf) e = simp e refl
write_packet-Same packet c (err x) e = simp e refl
write_packet-Same packet c fault e = simp e refl

read_clock-OnlyWorld : (c : Client) (l : List ℕ) → c.world.clock ≡ l → OnlyWorld c (read_clock c).1
unfolding read_clock
read_clock-OnlyWorld c [] e = simp e refl
read_clock-OnlyWorld c (t ∷ l) e = simp e refl

pub countdown_ms-OnlyWorld : (t : ℕ) (c : Client) → OnlyWorld c (countdown_ms t c).1
unfolding countdown_ms
countdown_ms-OnlyWorld t c = read_clock-OnlyWorld c c.world.clock refl

mqtt_disconnect-Same : (c : Client) → Same c (mqtt_disconnect c).1
unfolding mqtt_disconnect close
mqtt_disconnect-Same c = elim (Bool-cases (not c.is_connected)) [
  | inl y ↦ simp y refl
  | inr n ↦ simp n (
      continue-Same c c
        (serialize_packet_with_zero_payload (length c.write_buf) MessageType.disconnect) _
        (λ packet.
          let (w, d) = write_packet packet c in
          let written = write_packet-Same packet c (put_bytes 0 packet c.write_buf) refl in
          continue-Same c d w _
            (λ u.
              let (timer, e) = countdown_ms c.command_timeout_ms d in
              let (r, f) = send_mqtt_packet (length packet) timer e in
              let sent =
                only-Same e f (send_mqtt_packet-OnlyWorld (length packet) timer e)
                ∙ (only-Same d e (countdown_ms-OnlyWorld c.command_timeout_ms d) ∙ written) in
              continue-Same c f r _ (λ v. sent) sent)
            written)
        refl)
]

after_disconnect-Same : (r : Outcome (Unit {0})) (c : Client) → Same c (after_disconnect r c).1
unfolding after_disconnect report_disconnect close
after_disconnect-Same (ok u) c = ground arith
after_disconnect-Same (err e) c = ground arith
after_disconnect-Same fault c = refl

handle_disconnect-Same : (c : Client) → Same c (handle_disconnect c).1
unfolding handle_disconnect
handle_disconnect-Same c = elim (Bool-cases (not c.is_connected)) [
  | inl y ↦ simp y refl
  | inr n ↦
      let (r, d) = mqtt_disconnect c in simp n (after_disconnect-Same r d ∙ mqtt_disconnect-Same c)
]

send_ping-Same : (len : ℕ) (c : Client) → Same c (send_ping len c).1
unfolding send_ping
send_ping-Same len c =
    let (timer, d) = countdown_ms c.command_timeout_ms c in
    only-Same d (send_mqtt_packet len timer d).1 (send_mqtt_packet-OnlyWorld len timer d)
    ∙ only-Same c d (countdown_ms-OnlyWorld c.command_timeout_ms c)

or_else-Same :
    (c d : Client) (r : Outcome (Unit {0})) (m : Action (Unit {0}))
    → Same c (m d).1
    → Same c d
    → Same c (or_else r m d).1
or_else-Same c d (ok u) m f e = e
or_else-Same c d (err x) m f e = f
or_else-Same c d fault m f e = e

try_ping-Same : (rounds len : ℕ) (c : Client) → Same c (try_ping rounds len c).1
unfolding try_ping
try_ping-Same zero len c = send_ping-Same len c
try_ping-Same (suc rounds) len c =
    let (r, d) = send_ping len c in
    or_else-Same c d r (try_ping rounds len) (try_ping-Same rounds len d ∙ send_ping-Same len c)
      (send_ping-Same len c)

-- At most two pings are unanswered.
abbrev Bounded : Client → Type 0
Bounded c = c.is_ping_outstanding ≤ 2

continue-Bounded :
    {A B : Type 0} (r : Outcome A) (k : A → Action B) (d : Client)
    → ((a : A) → Bounded (k a d).1)
    → Bounded d
    → Bounded (continue r k d).1
continue-Bounded (ok a) k d f e = f a
continue-Bounded (err x) k d f e = e
continue-Bounded fault k d f e = e

count_ping_lem :
    (c : Client) → (count_ping c).is_ping_outstanding ≡ (c.is_ping_outstanding + 1) % 2 ^ 8
unfolding count_ping
count_ping_lem c =
    let d = record c { is_ping_outstanding = (c.is_ping_outstanding + 1) % 2 ^ 8 } in
    let seconds = ping_wait c.options.keep_alive_interval in
    only-Same d (countdown_ms (seconds * 1000) d).1 (countdown_ms-OnlyWorld (seconds * 1000) d)

after_ping-Bounded :
    (r : Outcome (Unit {0})) (c : Client) → c.is_ping_outstanding < 2 → Bounded (after_ping r c).1
unfolding after_ping
after_ping-Bounded (ok u) c h = omega (arith, count_ping_lem c)
after_ping-Bounded (err e) c h = omega (arith, handle_disconnect-Same c)
after_ping-Bounded fault c h = omega arith

ping-Bounded : (c : Client) → c.is_ping_outstanding < 2 → Bounded (ping c).1
unfolding ping
ping-Bounded c h =
    continue-Bounded (serialize_packet_with_zero_payload (length c.write_buf) pingreq) _ c
      (λ packet.
        let (w, d) = write_packet packet c in
        let written = write_packet-Same packet c (put_bytes 0 packet c.write_buf) refl in
        continue-Bounded w _ d
          (λ u.
            let (r, e) = try_ping 3 (length packet) d in
            after_ping-Bounded r e (omega (arith, written, try_ping-Same 3 (length packet) d)))
          (omega (arith, written)))
      (omega arith)

-- If at most two pings are unanswered, the keep alive step leaves no more than two unanswered,
-- whatever the clock and the network do.
pub mqtt_keep_alive_bounded :
    (c : Client) → c.is_ping_outstanding ≤ 2 → (mqtt_keep_alive c).1.is_ping_outstanding ≤ 2
unfolding mqtt_keep_alive
mqtt_keep_alive_bounded c h =
    let (now, d) = read_clock c in
    let same = only-Same c d (read_clock-OnlyWorld c c.world.clock refl) in
    ground (arith, same, handle_disconnect-Same d, ping-Bounded d)
