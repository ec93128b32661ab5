-- ===== src/Mqtt/Session/Yield/Ends.antt =====
-- The supervision loop ends, and keeps the table of subscriptions and the waiting lists sound.
use esp_qcloud.Prelude.{
  ℕ, ◌+◌, ◌*◌, ◌%◌, ◌^◌, ◌≤◌, ◌≡◌, refl, arith, Option, Bool, not, List, [], ◌∷◌, ltb, Bool-cases,
  inl, inr, Outcome, ok, err, fault,
}
use esp_qcloud.Prelude.Codes.{mqtt_attempting_reconnect}
use esp_qcloud.Mqtt.Client.{Client, Action, reconnected, notify}
use esp_qcloud.Mqtt.Frame.{
  Moves, Goes, SameCore, core-Goes, stay-Moves, then-Moves, then-Goes, notify-SameCore,
}
use esp_qcloud.Mqtt.WaitList.{countdown_ms, read_clock}
use esp_qcloud.Mqtt.WaitList.Frame.{countdown_ms-Goes, read_clock-Goes}
use esp_qcloud.Mqtt.Expiry.{pub_info_proc, sub_info_proc}
use esp_qcloud.Mqtt.Expiry.Frame.{pub_info_proc-Goes, sub_info_proc-Goes}
use esp_qcloud.Mqtt.Net.{is_expired}
use esp_qcloud.Mqtt.Handlers.{cycle_for_read}
use esp_qcloud.Mqtt.Handlers.Cycle.{cycle_for_read-Goes}
use esp_qcloud.Mqtt.Timed.{Ticks, readings, timed_loop, timed_loop-eq}
use esp_qcloud.Mqtt.Wait.Laws.{is_expired-Ticks}
use esp_qcloud.Mqtt.Session.{mqtt_keep_alive}
use esp_qcloud.Mqtt.Session.Frame.{
  handle_disconnect-Moves, handle_disconnect-ne-ok, Supervises, mqtt_keep_alive-Supervises,
}
use esp_qcloud.Mqtt.Session.Connection.{
  Status, success, mqtt_reconnected, mqtt_manually_disconnected, mqtt_already_connected,
  attempt_reconnect,
}
use esp_qcloud.Mqtt.Session.Connection.Laws.{attempt_reconnect-Patient}
use esp_qcloud.Mqtt.Session.Yield.{
  max_reconnect_wait_interval, take_random, get_random_interval, take_link,
  is_physical_layer_connected, back_off, after_attempt, is_read_failure, is_no_conn, after_cycle,
  lost, read_type, handle_reconnect, end_round, go_on, yield_round,
}

take_random-SameCore : (rs : List ℕ) (c : Client) → SameCore c (take_random rs c).1
unfolding take_random
take_random-SameCore [] c = refl
take_random-SameCore (r ∷ rs) c = refl

take_link-SameCore : (bs : List Bool) (c : Client) → SameCore c (take_link bs c).1
unfolding take_link
take_link-SameCore [] c = refl
take_link-SameCore (b ∷ bs) c = refl

pub is_physical_layer_connected-Goes : (c : Client) → Goes c (is_physical_layer_connected c).1
unfolding is_physical_layer_connected
is_physical_layer_connected-Goes c =
    core-Goes c (take_link c.world.links c).1 (take_link-SameCore c.world.links c)

pub lost-Moves : (c : Client) → Moves c (lost c)
unfolding lost get_random_interval
lost-Moves c =
    let d = (take_random c.world.randoms c).1 in
    let interval = (get_random_interval c).0 in
    let e = record d { current_reconnect_wait_interval = interval } in
    let (end_time, f) = countdown_ms interval e in
    then-Moves c e (record f { reconnect_end_time = end_time })
      (then-Moves c d e (core-Goes c d (take_random-SameCore c.world.randoms c)).1
        (omega arith, (λ n s. s), λ s. s))
      (then-Moves e f (record f { reconnect_end_time = end_time }) (countdown_ms-Goes interval e).1
        (omega arith, (λ n s. s), λ s. s))

back_off-Moves : (rc : Outcome Status) (c : Client) → Moves c (back_off rc c).1
unfolding back_off
back_off-Moves rc c =
    let interval = c.current_reconnect_wait_interval * 2 % 2 ^ 32 in
    let d = record c { current_reconnect_wait_interval = interval } in
    let doubled : Moves c d = (omega arith, (λ n s. s), λ s. s) in
    let (end_time, e) = countdown_ms interval d in
    elim (Bool-cases (ltb max_reconnect_wait_interval interval)) [
      | inl y ↦ rw y doubled
      | inr n ↦ rw n (
          then-Moves c d (record e { reconnect_end_time = end_time }) doubled
            (then-Moves d e (record e { reconnect_end_time = end_time })
              (countdown_ms-Goes interval d).1 (omega arith, (λ n s. s), λ s. s)))
    ]

after_attempt-Moves : (r : Outcome Status) (c : Client) → Moves c (after_attempt r c).1
unfolding after_attempt
after_attempt-Moves fault c = stay-Moves c
after_attempt-Moves (ok mqtt_reconnected) c =
    (core-Goes c (notify reconnected 0 c) (notify-SameCore reconnected 0 c)).1
after_attempt-Moves (ok success) c = back_off-Moves (err mqtt_attempting_reconnect) c
after_attempt-Moves (ok mqtt_manually_disconnected) c =
    back_off-Moves (err mqtt_attempting_reconnect) c
after_attempt-Moves (ok mqtt_already_connected) c = back_off-Moves (err mqtt_attempting_reconnect) c
after_attempt-Moves (err e) c = back_off-Moves (err mqtt_attempting_reconnect) c

-- Time passes; and a round that succeeds leaves the connection.
pub after_cycle-Supervises : (r : Outcome ℕ) (c : Client) → Supervises c (after_cycle r c)
unfolding after_cycle
after_cycle-Supervises (ok ty) c =
    let d = pub_info_proc c in
    let e = sub_info_proc d in
    let passed = then-Goes c d e (pub_info_proc-Goes c) (sub_info_proc-Goes d) in
    let (moves, stands) = mqtt_keep_alive-Supervises e in
    (
      then-Moves c e (mqtt_keep_alive e).1 passed.1 moves,
      λ h. then-Goes c e (mqtt_keep_alive e).1 passed (stands h),
    )
after_cycle-Supervises (err x) c = elim (Bool-cases (is_read_failure x)) [
  | inl y ↦ rw y (handle_disconnect-Moves c, λ h. absurd (handle_disconnect-ne-ok c h))
  | inr n ↦ rw n (stay-Moves c, λ h. absurd (cc h))
]
after_cycle-Supervises fault c = (stay-Moves c, λ h. absurd (cc h))

module _ (with_key : Bool) (texts : Client → List ℕ × Option (List ℕ)) where
  pub handle_reconnect-Moves : (c : Client) → Moves c (handle_reconnect with_key texts c).1
  unfolding handle_reconnect
  handle_reconnect-Moves c =
      let (now, d) = read_clock c in
      let (up, e) = is_physical_layer_connected d in
      let first = then-Moves c d e (read_clock-Goes c).1 (is_physical_layer_connected-Goes d).1 in
      elim (Bool-cases (not (is_expired c.reconnect_end_time now))) [
        | inl early ↦ rw early (read_clock-Goes c).1
        | inr late ↦ rw late (elim (Bool-cases up) [
          | inl y ↦
              let (r, f) = attempt_reconnect with_key texts e in
              rw y (
                then-Moves c e (after_attempt r f).1 first (
                  then-Moves e f (after_attempt r f).1
                    (attempt_reconnect-Patient with_key texts e).0 (after_attempt-Moves r f)))
          | inr n ↦ rw n (
              then-Moves c e (back_off (ok mqtt_reconnected) e).1 first
                (back_off-Moves (ok mqtt_reconnected) e))
        ])
      ]

  go_on-same :
      (k k' : Outcome Status × ℕ → Action Status) (ty : ℕ) (r : Outcome Status) (c : Client)
      → ((s : Outcome Status × ℕ) → k s c ≡ k' s c)
      → go_on with_key texts k ty r c ≡ go_on with_key texts k' ty r c
  unfolding go_on
  go_on-same k k' ty fault c same = refl
  go_on-same k k' ty (ok s) c same = same (ok s, ty)
  go_on-same k k' ty (err e) c same = same (err e, ty)

  end_round-same :
      (k k' : Outcome Status × ℕ → Action Status) (ty : ℕ) (r : Outcome (Unit {0})) (c : Client)
      → ((s : Outcome Status × ℕ) (d : Client) → readings d ≤ readings c → k s d ≡ k' s d)
      → end_round with_key texts k ty r c ≡ end_round with_key texts k' ty r c
  unfolding end_round
  end_round-same k k' ty fault c same = refl
  end_round-same k k' ty (ok u) c same = same (ok success, ty) c (omega arith)
  end_round-same k k' ty (err e) c same =
      let d = record c {
        counter_network_disconnected = (c.counter_network_disconnected + 1) % 2 ^ 32;
      } in
      let (runs, table, lists) = lost-Moves d in
      elim (Bool-cases (is_no_conn e)) [
        | inl y ↦ rw y (elim (Bool-cases c.options.auto_connect_enable) [
          | inl auto ↦ simp auto (same (err mqtt_attempting_reconnect, ty) (lost d) runs)
          | inr manual ↦ simp manual refl
        ])
        | inr n ↦ rw n refl
      ]

  yield_round-Ticks : (timer : ℕ) → Ticks (yield_round with_key texts timer)
  unfolding yield_round
  yield_round-Ticks timer k k' (rc, ty) c same =
      let (now, d) = read_clock c in
      elim (Bool-cases (is_expired timer now)) [
        | inl late ↦ rw late refl
        | inr waits ↦
            let ticks = is_expired-Ticks timer c waits in
            rw waits (elim (Bool-cases (not d.is_connected)) [
              | inl off ↦
                  rw off
                    (elim (Bool-cases
                      (ltb max_reconnect_wait_interval d.current_reconnect_wait_interval)) [
                        | inl y ↦ rw y refl
                        | inr n ↦
                            let (r, e) = handle_reconnect with_key texts d in
                            let (runs, table, lists) = handle_reconnect-Moves d in
                            rw n (go_on-same k k' ty r e (λ s. same s e (omega arith)))
                      ])
              | inr on ↦
                  let (r, e) = cycle_for_read ty timer d in
                  let (q, f) = after_cycle r e in
                  let (runs, table, lists) =
                    then-Moves d e f (cycle_for_read-Goes ty timer d).1
                      (after_cycle-Supervises r e).0 in
                  rw on
                    (end_round-same k k' (read_type ty r) q f (λ s g fewer. same s g (omega arith)))
            ])
      ]

  -- The supervision loop is its body, followed by the loop, whatever the clock, the network and the
  -- allocator answer and in whatever state of its variables: the rounds that the model allows are
  -- enough.
  yield_loop-eq :
      (timer : ℕ) (s : Outcome Status × ℕ) (c : Client)
      → timed_loop (yield_round with_key texts timer) s c
        ≡ yield_round with_key texts timer (timed_loop (yield_round with_key texts timer)) s c
  yield_loop-eq timer s c =
      timed_loop-eq (yield_round with_key texts timer) (yield_round-Ticks timer) s c
