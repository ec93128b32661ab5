-- ===== src/Mqtt/Session/Connection/Steps.antt =====
-- The steps of a connection that the server answers.
use esp_qcloud.Prelude.Codes.{Code, mqtt_connack_unknown}
use esp_qcloud.Mqtt.WaitList.Frame.{countdown_ms-Goes}
use esp_qcloud.Prelude.{
  ◌⊎◌, if◌then◌else◌, ℕ, ◌*◌, ◌%◌, ◌^◌, ◌≤◌, ◌<◌, ◌≡◌, refl, ap, ◌∙◌, arith, Option, Bool, true,
  false, List, [], ◌∷◌, ◌++◌, length, drop, ◌==◌, Bool-cases, inl, inr, Outcome, ok, err, fault,
  length-append, length-drop, take-length-append,
}
use esp_qcloud.Mqtt.Ack.{connack_result}
use esp_qcloud.Mqtt.Client.{Client, to_network, output}
use esp_qcloud.Mqtt.WaitList.{countdown_ms, read_clock}
use esp_qcloud.Mqtt.Net.{send_mqtt_packet}
use esp_qcloud.Mqtt.Net.Send.{ticked, send_mqtt_packet_whole}
use esp_qcloud.Mqtt.Net.Receive.{put_bytes-append}
use esp_qcloud.Mqtt.Request.{write_packet}
use esp_qcloud.Mqtt.Session.Connection.{Status, success, take_connect, established}

pub write_packet_lem :
    (packet : List ℕ) (c : Client)
    → length packet ≤ length c.write_buf
    → write_packet packet c
      ≡ (ok tt, record c { write_buf = packet ++ drop (length packet) c.write_buf })
unfolding write_packet
write_packet_lem packet c fits = rw (put_bytes-append 0 [] packet c.write_buf refl fits) refl

-- The client that sent these bytes, at the reading `ts`.
abbrev pub sent : List ℕ → List ℕ → Client → Client
sent packet ts c =
    output (to_network packet)
      (ticked ts (record c { write_buf = packet ++ drop (length packet) c.write_buf }))

pub send_packet :
    (packet : List ℕ) (timer t : ℕ) (ts : List ℕ) (c : Client)
    → 0 < length packet
    → length packet < length c.write_buf
    → c.world.clock ≡ t ∷ ts
    → t ≤ timer
    → c.world.writes ≡ []
    → send_mqtt_packet
        (length packet)
        timer
        (record c { write_buf = packet ++ drop (length packet) c.write_buf })
      ≡ (ok tt, sent packet ts c)
send_packet packet timer t ts c some_bytes fits clock early writes =
    let d = record c { write_buf = packet ++ drop (length packet) c.write_buf } in
    let room : length packet < length d.write_buf = omega (
      arith,
      length-append packet (drop (length packet) c.write_buf),
      length-drop (length packet) c.write_buf,
    ) in
    send_mqtt_packet_whole (length packet) timer t ts d some_bytes room clock early writes
    ∙ ap (λ b. (ok tt, output (to_network b) (ticked ts d)))
        (take-length-append packet (drop (length packet) c.write_buf))

abbrev pub Refused : Outcome (Unit {0}) → Type 0
Refused r = (e : Code) × (r ≡ err e)

if-Refused :
    (b : Bool) (e : Code) (r : Outcome (Unit {0})) → Refused r → Refused (if b then err e else r)
if-Refused true e r h = (e, refl)
if-Refused false e r h = h

-- Any code but 0 refuses the connection.
connack_result-Refused : (code : ℕ) → (code == 0) ≡ false → Refused (connack_result code)
unfolding connack_result
connack_result-Refused code n = rw n (
    if-Refused (code == 1) _ _ (
      if-Refused (code == 2) _ _ (
        if-Refused (code == 3) _ _
          (if-Refused (code == 4) _ _ (if-Refused (code == 5) _ _ (mqtt_connack_unknown, refl))))))

clock_outputs :
    (c : Client) (l : List ℕ) → c.world.clock ≡ l → (read_clock c).1.world.outputs ≡ c.world.outputs
unfolding read_clock
clock_outputs c [] e = simp e refl
clock_outputs c (t ∷ l) e = simp e refl

pub established_outputs : (c : Client) → (established c).world.outputs ≡ c.world.outputs
unfolding established countdown_ms
established_outputs c =
    let d = record c {
      is_connected = true;
      was_manually_disconnected = false;
      is_ping_outstanding = 0;
    } in
    clock_outputs d d.world.clock refl

pub is_established : (c : Client) → (established c).is_connected ≡ true
unfolding established
is_established c =
    let d = record c {
      is_connected = true;
      was_manually_disconnected = false;
      is_ping_outstanding = 0;
    } in
    ap (λ k. k.connected) (countdown_ms-Goes (d.options.keep_alive_interval * 1000 % 2 ^ 32) d).0

-- The code of the CONNACK, as the client's answer.
abbrev pub as_status : Outcome (Unit {0}) → Outcome Status
as_status (ok u) = ok success
as_status (err e) = err e
as_status fault = fault

pub connect_succeeds :
    (rs : List (Option Code)) (c : Client) → rs ≡ [] → take_connect rs c ≡ (ok tt, c)
unfolding take_connect
connect_succeeds [] c e = refl
connect_succeeds (r ∷ rs) c e = cc e

-- The code, as a success or an error.
abbrev pub Says : Outcome (Unit {0}) → Bool → Type 0
Says r accepts = ((r ≡ ok tt) × (accepts ≡ true)) ⊎ (Refused r × (accepts ≡ false))

pub connack_result-Says : (code : ℕ) → Says (connack_result code) (code == 0)
unfolding connack_result
connack_result-Says code = elim (Bool-cases (code == 0)) [
  | inl y ↦ inl (rw y refl, y)
  | inr n ↦ inr (connack_result-Refused code n, n)
]
