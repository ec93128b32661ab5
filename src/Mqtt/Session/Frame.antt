-- ===== src/Mqtt/Session/Frame.antt =====
-- What the end of a connection and its supervision leave as it is.
use esp_qcloud.Prelude.{
  ℕ, zero, suc, ◌+◌, ◌*◌, ◌%◌, ◌^◌, ◌≡◌, ◌≢◌, refl, arith, false, not, List, length, leb, ◌==◌,
  Bool-cases, inl, inr, Outcome, ok, err, fault,
}
use esp_qcloud.Mqtt.Header.{MessageType, pingreq}
use esp_qcloud.Mqtt.Ack.{serialize_packet_with_zero_payload}
use esp_qcloud.Mqtt.Client.{Client, Action, continue, notify, disconnected}
use esp_qcloud.Mqtt.Frame.{
  Moves, Goes, stay-Moves, stay-Goes, core-Goes, then-Moves, then-Goes, continue-Moves,
  notify-SameCore,
}
use esp_qcloud.Mqtt.WaitList.{countdown_ms, read_clock}
use esp_qcloud.Mqtt.WaitList.Frame.{countdown_ms-Goes, read_clock-Goes}
use esp_qcloud.Mqtt.Net.{send_mqtt_packet, is_expired}
use esp_qcloud.Mqtt.Net.Frame.{send_mqtt_packet-Goes}
use esp_qcloud.Mqtt.Request.{write_packet}
use esp_qcloud.Mqtt.Request.Frame.{write_packet-SameCore}
use esp_qcloud.Mqtt.Session.{
  mqtt_ping_retry_times, close, mqtt_disconnect, report_disconnect, after_disconnect,
  handle_disconnect, send_ping, or_else, ping_wait, try_ping, count_ping, after_ping, ping,
  mqtt_keep_alive,
}

pub write_packet-Goes : (packet : List ℕ) (c : Client) → Goes c (write_packet packet c).1
write_packet-Goes packet c = core-Goes c (write_packet packet c).1 (write_packet-SameCore packet c)

close-Moves : (c : Client) → Moves c (close c)
unfolding close
close-Moves c = (omega arith, (λ n s. s), λ s. s)

mqtt_disconnect-Moves : (c : Client) → Moves c (mqtt_disconnect c).1
unfolding mqtt_disconnect
mqtt_disconnect-Moves c = elim (Bool-cases (not c.is_connected)) [
  | inl y ↦ rw y (stay-Moves c)
  | inr n ↦ rw n (
      continue-Moves c c
        (serialize_packet_with_zero_payload (length c.write_buf) MessageType.disconnect) _
        (stay-Moves c)
        (λ packet.
          let (w, d) = write_packet packet c in
          continue-Moves c d w _ (write_packet-Goes packet c).1 (λ u.
            let (timer, e) = countdown_ms c.command_timeout_ms d in
            let (r, f) = send_mqtt_packet (length packet) timer e in
            let sent =
              then-Goes d e f (countdown_ms-Goes c.command_timeout_ms d)
                (send_mqtt_packet-Goes (length packet) timer e) in
            continue-Moves d f r _ sent.1 (λ v. close-Moves f))))
]

report_disconnect-Moves : (c : Client) → Moves c (report_disconnect c)
unfolding report_disconnect
report_disconnect-Moves c =
    let told = notify disconnected 0 c in
    then-Moves c told (record told { was_manually_disconnected = false })
      (core-Goes c told (notify-SameCore disconnected 0 c)).1 (omega arith, (λ n s. s), λ s. s)

after_disconnect-Moves : (r : Outcome (Unit {0})) (c : Client) → Moves c (after_disconnect r c).1
unfolding after_disconnect
after_disconnect-Moves (ok u) c = report_disconnect-Moves c
after_disconnect-Moves (err e) c =
    then-Moves c (close c) (report_disconnect (close c)) (close-Moves c)
      (report_disconnect-Moves (close c))
after_disconnect-Moves fault c = stay-Moves c

pub handle_disconnect-Moves : (c : Client) → Moves c (handle_disconnect c).1
unfolding handle_disconnect
handle_disconnect-Moves c = elim (Bool-cases (not c.is_connected)) [
  | inl y ↦ rw y (stay-Moves c)
  | inr n ↦
      let (r, d) = mqtt_disconnect c in
      rw n (
        then-Moves c d (after_disconnect r d).1 (mqtt_disconnect-Moves c)
          (after_disconnect-Moves r d))
]

-- The end of a connection is an error.
after_disconnect-ne-ok : (r : Outcome (Unit {0})) (c : Client) → (after_disconnect r c).0 ≢ ok tt
unfolding after_disconnect
after_disconnect-ne-ok (ok u) c = λ e. cc e
after_disconnect-ne-ok (err x) c = λ e. cc e
after_disconnect-ne-ok fault c = λ e. cc e

pub handle_disconnect-ne-ok : (c : Client) → (handle_disconnect c).0 ≢ ok tt
unfolding handle_disconnect
handle_disconnect-ne-ok c = elim (Bool-cases (not c.is_connected)) [
  | inl y ↦ rw y (λ e. cc e)
  | inr n ↦ rw n (after_disconnect-ne-ok (mqtt_disconnect c).0 (mqtt_disconnect c).1)
]

send_ping-Goes : (len : ℕ) (c : Client) → Goes c (send_ping len c).1
unfolding send_ping
send_ping-Goes len c =
    let (timer, d) = countdown_ms c.command_timeout_ms c in
    then-Goes c d (send_mqtt_packet len timer d).1 (countdown_ms-Goes c.command_timeout_ms c)
      (send_mqtt_packet-Goes len timer d)

or_else-Goes :
    (c d : Client) (r : Outcome (Unit {0})) (m : Action (Unit {0}))
    → Goes c d
    → Goes c (m d).1
    → Goes c (or_else r m d).1
or_else-Goes c d (ok u) m e f = e
or_else-Goes c d (err x) m e f = f
or_else-Goes c d fault m e f = e

try_ping-Goes : (rounds len : ℕ) (c : Client) → Goes c (try_ping rounds len c).1
unfolding try_ping
try_ping-Goes zero len c = send_ping-Goes len c
try_ping-Goes (suc rounds) len c =
    let (r, d) = send_ping len c in
    let first = send_ping-Goes len c in
    or_else-Goes c d r (try_ping rounds len) first
      (then-Goes c d (try_ping rounds len d).1 first (try_ping-Goes rounds len d))

count_ping-Goes : (c : Client) → Goes c (count_ping c)
unfolding count_ping
count_ping-Goes c =
    let d = record c { is_ping_outstanding = (c.is_ping_outstanding + 1) % 2 ^ 8 } in
    let t = ping_wait d.options.keep_alive_interval * 1000 in
    let (end_time, e) = countdown_ms t d in
    let f = record e { ping_end_time = end_time } in
    then-Goes c e f (then-Goes c d e (core-Goes c d refl) (countdown_ms-Goes t d))
      (core-Goes e f refl)

-- Time passes; and the connection stands if the call succeeds.
abbrev pub Supervises : Client → Outcome (Unit {0}) × Client → Type 0
Supervises c r = Moves c r.1 × (r.0 ≡ ok tt → Goes c r.1)

Goes-Supervises : (c d : Client) (r : Outcome (Unit {0})) → Goes c d → Supervises c (r, d)
Goes-Supervises c d r goes = (goes.1, λ e. goes)

continue-Supervises :
    {A : Type 0} (c d : Client) (r : Outcome A) (k : A → Action (Unit {0}))
    → Goes c d
    → ((a : A) → Supervises d (k a d))
    → Supervises c (continue r k d)
continue-Supervises c d (ok a) k goes f =
    let (moves, stands) = f a in
    (then-Moves c d (k a d).1 goes.1 moves, λ e. then-Goes c d (k a d).1 goes (stands e))
continue-Supervises c d (err x) k goes f = Goes-Supervises c d (err x) goes
continue-Supervises c d fault k goes f = Goes-Supervises c d fault goes

handle_disconnect-Supervises : (c : Client) → Supervises c (handle_disconnect c)
handle_disconnect-Supervises c =
    (handle_disconnect-Moves c, λ e. absurd (handle_disconnect-ne-ok c e))

after_ping-Supervises : (r : Outcome (Unit {0})) (c : Client) → Supervises c (after_ping r c)
unfolding after_ping
after_ping-Supervises (ok u) c = Goes-Supervises c (count_ping c) (ok tt) (count_ping-Goes c)
after_ping-Supervises (err e) c = handle_disconnect-Supervises c
after_ping-Supervises fault c = Goes-Supervises c c fault (stay-Goes c)

ping-Supervises : (c : Client) → Supervises c (ping c)
unfolding ping
ping-Supervises c =
    continue-Supervises c c (serialize_packet_with_zero_payload (length c.write_buf) pingreq) _
      (stay-Goes c)
      (λ packet.
        let (w, d) = write_packet packet c in
        continue-Supervises c d w _ (write_packet-Goes packet c) (λ u.
          let (r, e) = try_ping 3 (length packet) d in
          continue-Supervises d e (ok tt) (λ v. after_ping r) (try_ping-Goes 3 (length packet) d)
            (λ v. after_ping-Supervises r e)))

pub mqtt_keep_alive-Supervises : (c : Client) → Supervises c (mqtt_keep_alive c)
unfolding mqtt_keep_alive
mqtt_keep_alive-Supervises c =
    let (now, d) = read_clock c in
    let first = read_clock-Goes c in
    elim (Bool-cases (c.options.keep_alive_interval == 0)) [
      | inl y ↦ rw y (Goes-Supervises c c (ok tt) (stay-Goes c))
      | inr n ↦ rw n (elim (Bool-cases (not (is_expired c.ping_end_time now))) [
        | inl early ↦ rw early (Goes-Supervises c d (ok tt) first)
        | inr late ↦ rw late (elim (Bool-cases (leb mqtt_ping_retry_times d.is_ping_outstanding)) [
          | inl y ↦ rw y (
              continue-Supervises c d (ok tt) (λ v. handle_disconnect) first
                (λ v. handle_disconnect-Supervises d))
          | inr n ↦
              rw n (continue-Supervises c d (ok tt) (λ v. ping) first (λ v. ping-Supervises d))
        ])
      ])
    ]
