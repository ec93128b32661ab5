-- ===== src/Mqtt/Session/Yield/Keeps.antt =====
-- What the supervision loop keeps.
use esp_qcloud.Prelude.{
  ℕ, ◌+◌, ◌*◌, ◌%◌, ◌^◌, ◌≤◌, ◌≡◌, ◌≢◌, refl, ap, ◌∙◌, arith, Option, Bool, true, ◌&&◌, not, List,
  length, ltb, ◌==◌, Bool-cases, inl, inr, Outcome, ok, err, fault,
}
use esp_qcloud.Prelude.Codes.{mqtt_attempting_reconnect}
use esp_qcloud.Mqtt.Client.{Client, Action, max_repub_num, max_message_handlers}
use esp_qcloud.Mqtt.Frame.{Moves, stay-Moves, then-Moves}
use esp_qcloud.Mqtt.SubTable.Alike.{NoTwins}
use esp_qcloud.Mqtt.WaitList.{countdown_ms, read_clock}
use esp_qcloud.Mqtt.WaitList.Frame.{countdown_ms-Goes, read_clock-Goes}
use esp_qcloud.Mqtt.Net.{is_expired}
use esp_qcloud.Mqtt.Handlers.{cycle_for_read}
use esp_qcloud.Mqtt.Handlers.Cycle.{cycle_for_read-Goes}
use esp_qcloud.Mqtt.Timed.{timed_loop, timed_loop_keeps}
use esp_qcloud.Mqtt.Session.Connection.{
  Status, success, mqtt_reconnected, mqtt_manually_disconnected, mqtt_already_connected,
  attempt_reconnect,
}
use esp_qcloud.Mqtt.Session.Yield.{
  max_reconnect_wait_interval, is_physical_layer_connected, back_off, after_attempt, is_no_conn,
  after_cycle, lost, read_type, handle_reconnect, end_round, go_on, yield_round, mqtt_yield,
}
use esp_qcloud.Mqtt.Session.Yield.Ends.{handle_reconnect-Moves, after_cycle-Supervises, lost-Moves}

back_off-ne-success :
    (rc : Outcome Status) (c : Client) → rc ≢ ok success → (back_off rc c).0 ≢ ok success
unfolding back_off
back_off-ne-success rc c ne =
    elim (Bool-cases
      (ltb max_reconnect_wait_interval (c.current_reconnect_wait_interval * 2 % 2 ^ 32))) [
        | inl y ↦ rw y (λ e. cc e)
        | inr n ↦ rw n ne
      ]

after_attempt-ne-success : (r : Outcome Status) (c : Client) → (after_attempt r c).0 ≢ ok success
unfolding after_attempt
after_attempt-ne-success fault c = λ e. cc e
after_attempt-ne-success (ok mqtt_reconnected) c = λ e. cc e
after_attempt-ne-success (ok success) c = back_off-ne-success _ c (λ e. cc e)
after_attempt-ne-success (ok mqtt_manually_disconnected) c = back_off-ne-success _ c (λ e. cc e)
after_attempt-ne-success (ok mqtt_already_connected) c = back_off-ne-success _ c (λ e. cc e)
after_attempt-ne-success (err x) c = back_off-ne-success _ c (λ e. cc e)

-- The call succeeds only where the client has its connection.
abbrev Stands : Client → Outcome Status → Type 0
Stands c r = r ≡ ok success → c.is_connected ≡ true

module _ (with_key : Bool) (texts : Client → List ℕ × Option (List ℕ)) where
  handle_reconnect-ne-success : (c : Client) → (handle_reconnect with_key texts c).0 ≢ ok success
  unfolding handle_reconnect
  handle_reconnect-ne-success c =
      let (now, d) = read_clock c in
      let (up, e) = is_physical_layer_connected d in
      let (r, f) = attempt_reconnect with_key texts e in
      elim (Bool-cases (not (is_expired c.reconnect_end_time now))) [
        | inl early ↦ rw early (λ h. cc h)
        | inr late ↦ rw late (elim (Bool-cases up) [
          | inl y ↦ rw y (after_attempt-ne-success r f)
          | inr n ↦ rw n (back_off-ne-success (ok mqtt_reconnected) e (λ h. cc h))
        ])
      ]

  module _ (k : Outcome Status × ℕ → Action Status) where
    module _ (after : (s : Outcome Status × ℕ) (c : Client) → Moves c (k s c).1) where
      go_on-Moves :
          (ty : ℕ) (r : Outcome Status) (c : Client) → Moves c (go_on with_key texts k ty r c).1
      unfolding go_on
      go_on-Moves ty fault c = stay-Moves c
      go_on-Moves ty (ok s) c = after (ok s, ty) c
      go_on-Moves ty (err e) c = after (err e, ty) c

      end_round-Moves :
          (ty : ℕ) (r : Outcome (Unit {0})) (c : Client)
          → Moves c (end_round with_key texts k ty r c).1
      unfolding end_round
      end_round-Moves ty fault c = stay-Moves c
      end_round-Moves ty (ok u) c = after (ok success, ty) c
      end_round-Moves ty (err e) c =
          let d = record c {
            counter_network_disconnected = (c.counter_network_disconnected + 1) % 2 ^ 32;
          } in
          let counted : Moves c d = (omega arith, (λ n s. s), λ s. s) in
          let s : Outcome Status × ℕ = (err mqtt_attempting_reconnect, ty) in
          elim (Bool-cases (is_no_conn e)) [
            | inl y ↦ rw y (elim (Bool-cases c.options.auto_connect_enable) [
              | inl auto ↦ simp auto (
                  then-Moves c (lost d) (k s (lost d)).1
                    (then-Moves c d (lost d) counted (lost-Moves d)) (after s (lost d)))
              | inr manual ↦ simp manual counted
            ])
            | inr n ↦ rw n (stay-Moves c)
          ]

      yield_round-Moves :
          (timer : ℕ) (s : Outcome Status × ℕ) (c : Client)
          → Moves c (yield_round with_key texts timer k s c).1
      unfolding yield_round
      yield_round-Moves timer (rc, ty) c =
          let (now, d) = read_clock c in
          let first = (read_clock-Goes c).1 in
          elim (Bool-cases (is_expired timer now)) [
            | inl late ↦ rw late first
            | inr waits ↦ rw waits (elim (Bool-cases (not d.is_connected)) [
              | inl off ↦
                  rw off
                    (elim (Bool-cases
                      (ltb max_reconnect_wait_interval d.current_reconnect_wait_interval)) [
                        | inl y ↦ rw y first
                        | inr n ↦
                            let (r, e) = handle_reconnect with_key texts d in
                            rw n (
                              then-Moves c e (go_on with_key texts k ty r e).1
                                (then-Moves c d e first (handle_reconnect-Moves with_key texts d))
                                (go_on-Moves ty r e))
                      ])
              | inr on ↦
                  let (r, e) = cycle_for_read ty timer d in
                  let (q, f) = after_cycle r e in
                  let round =
                    then-Moves d e f (cycle_for_read-Goes ty timer d).1
                      (after_cycle-Supervises r e).0 in
                  rw on (
                    then-Moves c f (end_round with_key texts k (read_type ty r) q f).1
                      (then-Moves c d f first round) (end_round-Moves (read_type ty r) q f))
            ])
          ]

    module _
        (after : (s : Outcome Status × ℕ) (c : Client)
          → Stands c s.0
          → Stands (k s c).1 (k s c).0) where
      go_on-Stands :
          (ty : ℕ) (r : Outcome Status) (c : Client)
          → r ≢ ok success
          → let q = go_on with_key texts k ty r c in Stands q.1 q.0
      unfolding go_on
      go_on-Stands ty fault c ne = λ e. absurd (cc e)
      go_on-Stands ty (ok s) c ne = after (ok s, ty) c (λ e. absurd (ne e))
      go_on-Stands ty (err e) c ne = after (err e, ty) c (λ h. absurd (ne h))

      end_round-Stands :
          (ty : ℕ) (r : Outcome (Unit {0})) (c : Client)
          → (r ≡ ok tt → c.is_connected ≡ true)
          → let q = end_round with_key texts k ty r c in Stands q.1 q.0
      unfolding end_round
      end_round-Stands ty fault c h = λ e. absurd (cc e)
      end_round-Stands ty (ok u) c h = after (ok success, ty) c (λ e. h refl)
      end_round-Stands ty (err x) c h =
          let d = record c {
            counter_network_disconnected = (c.counter_network_disconnected + 1) % 2 ^ 32;
          } in
          elim (Bool-cases (is_no_conn x)) [
            | inl y ↦ rw y (elim (Bool-cases c.options.auto_connect_enable) [
              | inl auto ↦
                  simp auto
                    (after (err mqtt_attempting_reconnect, ty) (lost d) (λ e. absurd (cc e)))
              | inr manual ↦ simp manual (λ e. absurd (cc e))
            ])
            | inr n ↦ rw n (λ e. absurd (cc e))
          ]

      yield_round-Stands :
          (timer : ℕ) (s : Outcome Status × ℕ) (c : Client)
          → Stands c s.0
          → let q = yield_round with_key texts timer k s c in Stands q.1 q.0
      unfolding yield_round
      yield_round-Stands timer (rc, ty) c stands =
          let (now, d) = read_clock c in
          let same : d.is_connected ≡ c.is_connected =
            ap (λ k. k.connected) (read_clock-Goes c).0 in
          elim (Bool-cases (is_expired timer now)) [
            | inl late ↦ rw late (λ e. same ∙ stands e)
            | inr waits ↦ rw waits (elim (Bool-cases (not d.is_connected)) [
              | inl off ↦
                  rw off
                    (elim (Bool-cases
                      (ltb max_reconnect_wait_interval d.current_reconnect_wait_interval)) [
                        | inl y ↦ rw y (λ e. absurd (cc e))
                        | inr n ↦
                            let (r, e) = handle_reconnect with_key texts d in
                            rw n (go_on-Stands ty r e (handle_reconnect-ne-success d))
                      ])
              | inr on ↦
                  let (r, e) = cycle_for_read ty timer d in
                  let (q, f) = after_cycle r e in
                  let (moves, kept) = after_cycle-Supervises r e in
                  let read = ap (λ k. k.connected) (cycle_for_read-Goes ty timer d).0 in
                  let here : d.is_connected ≡ true = ground (arith, on) in
                  rw on (
                    end_round-Stands (read_type ty r) q f
                      (λ h. ap (λ k. k.connected) (kept h).0 ∙ (read ∙ here)))
            ])
          ]

  mqtt_yield-Moves :
      (timeout_ms : ℕ) (c : Client) → Moves c (mqtt_yield with_key texts timeout_ms c).1
  unfolding mqtt_yield
  mqtt_yield-Moves timeout_ms c =
      let (timer, d) = countdown_ms timeout_ms c in
      let loop =
        timed_loop_keeps (yield_round with_key texts timer) (λ s c q. Moves c q.1)
          (λ s c. stay-Moves c) (λ k after. yield_round-Moves k after timer) (ok success, 0) d in
      let run =
        then-Moves c d (timed_loop (yield_round with_key texts timer) (ok success, 0) d).1
          (countdown_ms-Goes timeout_ms c).1 loop in
      elim (Bool-cases (timeout_ms == 0)) [
        | inl y ↦ rw y (stay-Moves c)
        | inr n ↦ rw n (elim (Bool-cases (not c.is_connected && c.was_manually_disconnected)) [
          | inl y ↦ rw y (stay-Moves c)
          | inr m ↦
              rw m (elim (Bool-cases (not c.is_connected && not c.options.auto_connect_enable)) [
                | inl y ↦ rw y (stay-Moves c)
                | inr l ↦ rw l run
              ])
        ])
      ]

  -- A supervision, however it ends, leaves the table of subscriptions as large as it was and without
  -- two handles of the same topic filter and functions if it had none, and the waiting lists within
  -- their limits of 20 and 10 if they were; whatever the server, the network, the clock and the
  -- allocator do, with any number of reconnections.
  pub mqtt_yield-Sound :
      (timeout_ms : ℕ) (c : Client)
      → NoTwins c.sub_handles
      → length c.list_pub_wait_ack ≤ max_repub_num
      → length c.list_sub_wait_ack ≤ max_message_handlers
      → let d = (mqtt_yield with_key texts timeout_ms c).1 in
        NoTwins d.sub_handles
        × (length d.sub_handles ≡ length c.sub_handles)
        × (length d.list_pub_wait_ack ≤ max_repub_num)
        × (length d.list_sub_wait_ack ≤ max_message_handlers)
  mqtt_yield-Sound timeout_ms c twins pub_len sub_len =
      let (runs, table, lists) = mqtt_yield-Moves timeout_ms c in
      let (twins', size) = table (length c.sub_handles) (twins, refl) in
      let (pub_len', sub_len') = lists (pub_len, sub_len) in (twins', size, pub_len', sub_len')

  yield_loop-Stands :
      (timer : ℕ) (s : Outcome Status × ℕ) (c : Client)
      → Stands c s.0
      → let q = timed_loop (yield_round with_key texts timer) s c in Stands q.1 q.0
  yield_loop-Stands timer s c =
      timed_loop_keeps (yield_round with_key texts timer) (λ s c q. Stands c s.0 → Stands q.1 q.0)
        (λ s c stands e. absurd (cc e))
        (λ k after s c stands. yield_round-Stands k after timer s c stands) s c

  -- A supervision that begins with a connection and succeeds ends with one.
  pub mqtt_yield_connected :
      (timeout_ms : ℕ) (c : Client)
      → c.is_connected ≡ true
      → (mqtt_yield with_key texts timeout_ms c).0 ≡ ok success
      → (mqtt_yield with_key texts timeout_ms c).1.is_connected ≡ true
  unfolding mqtt_yield
  mqtt_yield_connected timeout_ms c on =
      let (timer, d) = countdown_ms timeout_ms c in
      let same = ap (λ k. k.connected) (countdown_ms-Goes timeout_ms c).0 in
      elim (Bool-cases (timeout_ms == 0)) [
        | inl y ↦ rw y (λ e. absurd (cc e))
        | inr n ↦ simp (n, on) (yield_loop-Stands timer (ok success, 0) d (λ e. same ∙ on))
      ]
