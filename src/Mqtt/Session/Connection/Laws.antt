-- ===== src/Mqtt/Session/Connection/Laws.antt =====
-- How an attempt to connect ends.
use esp_qcloud.Prelude.{
  ℕ, ◌*◌, ◌%◌, ◌^◌, ◌≡◌, refl, ap, ◌∙◌, arith, Option, none, some, Bool, true, false, not, List, [],
  ◌∷◌, ◌++◌, length, Bool-cases, inl, inr, Outcome, ok, err, fault,
}
use esp_qcloud.Prelude.Codes.{Code}
use esp_qcloud.Mqtt.Header.{connack, type_code}
use esp_qcloud.Mqtt.Ack.{deserialize_connack_packet}
use esp_qcloud.Mqtt.Connect.{ConnectParams, serialize_connect_packet}
use esp_qcloud.Mqtt.Client.{Client, Output, closed, Action, continue}
use esp_qcloud.Mqtt.Frame.{
  Patient, Goes-Patient, Goes, SameCore, core-Goes, stay-Patient, then-Patient, continue-Patient,
}
use esp_qcloud.Mqtt.WaitList.{countdown_ms}
use esp_qcloud.Mqtt.WaitList.Frame.{countdown_ms-Goes}
use esp_qcloud.Mqtt.Net.{send_mqtt_packet}
use esp_qcloud.Mqtt.Net.Frame.{send_mqtt_packet-Goes}
use esp_qcloud.Mqtt.Request.{write_packet, mqtt_resubscribe}
use esp_qcloud.Mqtt.Request.Frame.{mqtt_resubscribe-Goes}
use esp_qcloud.Mqtt.Wait.{wait_for_read}
use esp_qcloud.Mqtt.Wait.Laws.{wait_for_read-Goes}
use esp_qcloud.Mqtt.Session.Frame.{write_packet-Goes}
use esp_qcloud.Mqtt.Session.Pings.{countdown_ms-OnlyWorld}
use esp_qcloud.Mqtt.Session.Connection.{
  Status, success, copy_connect_params, take_connect, net_connect, established, with_texts,
  exchange, connect_network, after_connect, mqtt_connect, after_reconnect, attempt_reconnect,
}

abbrev pub Connected : Client → Type 0
Connected c =
    (c.is_connected ≡ true) × (c.was_manually_disconnected ≡ false) × (c.is_ping_outstanding ≡ 0)

-- A success makes the connection, and an error leaves it as it was.
abbrev Connects : Client → Outcome (Unit {0}) × Client → Type 0
Connects c r =
    Patient c r.1
    × (r.0 ≡ ok tt → Connected r.1)
    × ((e : Code) → r.0 ≡ err e → r.1.is_connected ≡ c.is_connected)

continue-Connects :
    {A : Type 0} (c d : Client) (r : Outcome A) (k : A → Action (Unit {0}))
    → Patient c d
    → d.is_connected ≡ c.is_connected
    → ((a : A) → Connects d (k a d))
    → Connects c (continue r k d)
continue-Connects c d (ok a) k moves same f =
    let (moves', done, kept) = f a in
    (then-Patient c d (k a d).1 moves moves', done, λ e h. kept e h ∙ same)
continue-Connects c d (err x) k moves same f = (moves, (λ e. absurd (cc e)), λ e h. same)
continue-Connects c d fault k moves same f = (moves, (λ e. absurd (cc e)), λ e h. same)

then-Connects :
    (c d : Client) (r : Outcome (Unit {0}) × Client)
    → Patient c d
    → d.is_connected ≡ c.is_connected
    → Connects d r
    → Connects c r
then-Connects c d r moves same (moves', done, kept) =
    (then-Patient c d r.1 moves moves', done, λ e h. kept e h ∙ same)

-- The same for a step that leaves the connection as it is.
Goes-Connects :
    {A : Type 0} (c d : Client) (r : Outcome A) (k : A → Action (Unit {0}))
    → Goes c d
    → ((a : A) → Connects d (k a d))
    → Connects c (continue r k d)
Goes-Connects c d r k goes f =
    continue-Connects c d r k (Goes-Patient c d goes) (ap (λ k. k.connected) goes.0) f

established-Connects : (c : Client) → Connects c (ok tt, established c)
unfolding established
established-Connects c =
    let d = record c {
      is_connected = true;
      was_manually_disconnected = false;
      is_ping_outstanding = 0;
    } in
    let t = d.options.keep_alive_interval * 1000 % 2 ^ 32 in
    let e = (countdown_ms t d).1 in
    let (control, rest) = countdown_ms-Goes t d in
    let moves = Goes-Patient d e (countdown_ms-Goes t d) in
    let first : Patient c d = ((omega arith, (λ n s. s), λ s. s), refl) in
    (
      then-Patient c d e first moves,
      (λ h. (
        ap (λ k. k.connected) control,
        ap (λ k. k.left_by_user) control,
        ap (λ x. x.is_ping_outstanding) (countdown_ms-OnlyWorld t d),
      )),
      λ x h. absurd (cc h),
    )

-- The return code of the CONNACK.
answered-Connects :
    (c : Client) (r : Outcome (Unit {0}))
    → Connects c (continue r (λ u d. (ok tt, established d)) c)
answered-Connects c r =
    Goes-Connects c c r (λ u d. (ok tt, established d)) (core-Goes c c refl)
      (λ u. established-Connects c)

take_connect-SameCore : (rs : List (Option Code)) (c : Client) → SameCore c (take_connect rs c).1
unfolding take_connect
take_connect-SameCore [] c = refl
take_connect-SameCore (none ∷ rs) c = refl
take_connect-SameCore (some e ∷ rs) c = refl

net_connect-Goes : (c : Client) → Goes c (net_connect c).1
unfolding net_connect
net_connect-Goes c = core-Goes c (net_connect c).1 (take_connect-SameCore c.world.connects c)

-- The client is closed last.
abbrev pub EndsClosed : Client → Type 0
EndsClosed c = (os : List Output) × (c.world.outputs ≡ os ++ (closed ∷ []))

module _ (with_key : Bool) (texts : Client → List ℕ × Option (List ℕ)) where
  exchange-Connects : (timer : ℕ) (c : Client) → Connects c (exchange with_key texts timer c)
  unfolding exchange
  exchange-Connects timer c =
      Goes-Connects c c
        (serialize_connect_packet with_key (length c.write_buf) (with_texts with_key texts c)) _
        (core-Goes c c refl)
        (λ packet.
          let (w, d) = write_packet packet c in
          Goes-Connects c d w _ (write_packet-Goes packet c) (λ u.
            let (r, e) = send_mqtt_packet (length packet) timer d in
            Goes-Connects d e r _ (send_mqtt_packet-Goes (length packet) timer d) (λ v.
              let (q, f) = wait_for_read (type_code connack) timer e in
              Goes-Connects e f q _ (wait_for_read-Goes (type_code connack) timer e) (λ x.
                Goes-Connects f f (deserialize_connack_packet f.read_buf (length f.read_buf)) _
                  (core-Goes f f refl) (λ (session_present, rc). answered-Connects f rc)))))

  connect_network-Connects :
      (p : ConnectParams) (c : Client) → Connects c (connect_network with_key texts p c)
  unfolding connect_network copy_connect_params
  connect_network-Connects p c =
      let (timer, d) = countdown_ms c.command_timeout_ms c in
      let (control, rest) = countdown_ms-Goes c.command_timeout_ms c in
      let moves = Goes-Patient c d (countdown_ms-Goes c.command_timeout_ms c) in
      let e = copy_connect_params p d in
      let copied : Patient d e = ((omega arith, (λ n s. s), λ s. s), refl) in
      let (r, f) = net_connect e in
      then-Connects c e (connect_network with_key texts p c) (then-Patient c d e moves copied)
        (ap (λ k. k.connected) control)
        (Goes-Connects e f r (λ v. exchange with_key texts timer) (net_connect-Goes e)
          (λ v. exchange-Connects timer f))

  after_connect_lem :
      (c : Client) (r : Outcome (Unit {0}) × Client)
      → Connects c r
      → let q = after_connect with_key texts r.0 r.1 in
        Patient c q.1
        × (q.0 ≡ ok success → Connected q.1)
        × ((e : Code) → q.0 ≡ err e → (q.1.is_connected ≡ c.is_connected) × EndsClosed q.1)
  unfolding after_connect
  after_connect_lem c (ok u, d) (moves, done, kept) =
      (moves, (λ e. done refl), λ e h. absurd (cc h))
  after_connect_lem c (err x, d) (moves, done, kept) =
      (moves, (λ e. absurd (cc e)), λ e h. (kept x refl, (d.world.outputs, refl)))
  after_connect_lem c (fault, d) (moves, done, kept) =
      (moves, (λ e. absurd (cc e)), λ e h. absurd (cc h))

  pub connect-Patient :
      (p : ConnectParams) (c : Client) → Patient c (mqtt_connect with_key texts p c).1
  unfolding mqtt_connect
  connect-Patient p c = elim (Bool-cases c.is_connected) [
    | inl on ↦ simp on (stay-Patient c)
    | inr off ↦
        simp off
          (after_connect_lem c (connect_network with_key texts p c)
            (connect_network-Connects p c)).0
  ]

  -- A client that has no connection asks for one. A success means that it has one, that no ping is
  -- unanswered, and that it does not count as left by the user. An error means that it has none, and
  -- that the network was disconnected last.
  pub mqtt_connect_lem :
      (p : ConnectParams) (c : Client)
      → c.is_connected ≡ false
      → let r = mqtt_connect with_key texts p c in
        (r.0 ≡ ok success → Connected r.1)
        × ((e : Code) → r.0 ≡ err e → (r.1.is_connected ≡ false) × EndsClosed r.1)
  unfolding mqtt_connect
  mqtt_connect_lem p c off =
      let (moves, done, ended) =
        after_connect_lem c (connect_network with_key texts p c) (connect_network-Connects p c) in
      simp off (done, λ e h. ((ended e h).0 ∙ off, (ended e h).1))

  after_reconnect-Patient :
      (r : Outcome Status) (c : Client) → Patient c (after_reconnect with_key texts r c).1
  unfolding after_reconnect
  after_reconnect-Patient fault c = stay-Patient c
  after_reconnect-Patient (ok s) c = elim (Bool-cases (not c.is_connected)) [
    | inl off ↦ rw off (stay-Patient c)
    | inr on ↦
        let (r, d) = mqtt_resubscribe c in
        rw on (
          continue-Patient c d r _ (Goes-Patient c d (mqtt_resubscribe-Goes c))
            (λ u. stay-Patient d))
  ]
  after_reconnect-Patient (err e) c = elim (Bool-cases (not c.is_connected)) [
    | inl off ↦ rw off (stay-Patient c)
    | inr on ↦
        let (r, d) = mqtt_resubscribe c in
        rw on (
          continue-Patient c d r _ (Goes-Patient c d (mqtt_resubscribe-Goes c))
            (λ u. stay-Patient d))
  ]

  pub attempt_reconnect-Patient : (c : Client) → Patient c (attempt_reconnect with_key texts c).1
  unfolding attempt_reconnect
  attempt_reconnect-Patient c = elim (Bool-cases c.is_connected) [
    | inl on ↦ simp on (stay-Patient c)
    | inr off ↦
        let (r, d) = mqtt_connect with_key texts c.options c in
        simp off (
          then-Patient c d (after_reconnect with_key texts r d).1 (connect-Patient c.options c)
            (after_reconnect-Patient r d))
  ]
