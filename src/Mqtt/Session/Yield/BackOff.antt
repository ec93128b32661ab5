-- ===== src/Mqtt/Session/Yield/BackOff.antt =====
-- The wait between two attempts to connect again doubles, until the client gives up.
use native.Mathlib.Nat.{mul_assoc, pow-suc, pow-le-pow_right, mul-le-mul}
use esp_qcloud.Prelude.{
  sym, leb, ℕ, suc, ◌*◌, ◌%◌, ◌^◌, ◌≤◌, ◌≡◌, ◌≢◌, refl, ap, ◌∙◌, arith, Option, Bool, true, false,
  List, ltb, Bool-cases, inl, inr, Outcome, ok, err, fault,
}
use esp_qcloud.Prelude.Codes.{mqtt_attempting_reconnect, mqtt_reconnect_timeout}
use esp_qcloud.Mqtt.Client.{Client}
use esp_qcloud.Mqtt.Frame.{Goes-Patient, then-Patient}
use esp_qcloud.Mqtt.WaitList.{countdown_ms, read_clock}
use esp_qcloud.Mqtt.WaitList.Frame.{countdown_ms-Goes, read_clock-Goes}
use esp_qcloud.Mqtt.Net.{is_expired}
use esp_qcloud.Mqtt.Session.Connection.{
  Status, success, mqtt_reconnected, mqtt_manually_disconnected, mqtt_already_connected,
  attempt_reconnect,
}
use esp_qcloud.Mqtt.Session.Connection.Laws.{attempt_reconnect-Patient}
use esp_qcloud.Mqtt.Session.Yield.{
  max_reconnect_wait_interval, is_physical_layer_connected, back_off, after_attempt,
  handle_reconnect,
}
use esp_qcloud.Mqtt.Session.Yield.Ends.{is_physical_layer_connected-Goes}

-- The wait is twice as long, and not too long.
abbrev Doubled : ℕ → Client → Type 0
Doubled i d = (d.current_reconnect_wait_interval ≡ i * 2) × (i * 2 ≤ max_reconnect_wait_interval)

back_off-Doubled :
    (rc : Outcome Status) (c : Client)
    → c.current_reconnect_wait_interval ≤ max_reconnect_wait_interval
    → (back_off rc c).0 ≢ err mqtt_reconnect_timeout
    → Doubled c.current_reconnect_wait_interval (back_off rc c).1
unfolding back_off
back_off-Doubled rc c small =
    let interval = c.current_reconnect_wait_interval * 2 % 2 ^ 32 in
    let whole : interval ≡ c.current_reconnect_wait_interval * 2 = omega arith in
    let d = record c { current_reconnect_wait_interval = interval } in
    let waited = (Goes-Patient d (countdown_ms interval d).1 (countdown_ms-Goes interval d)).1 in
    elim (Bool-cases (ltb max_reconnect_wait_interval interval)) [
      | inl y ↦ rw y (λ ne. absurd (ne refl))
      | inr n ↦ rw n (λ ne. (waited ∙ whole, ground (arith, n, whole)))
    ]

after_attempt-Doubled :
    (r : Outcome Status) (c : Client)
    → c.current_reconnect_wait_interval ≤ max_reconnect_wait_interval
    → (after_attempt r c).0 ≡ err mqtt_attempting_reconnect
    → Doubled c.current_reconnect_wait_interval (after_attempt r c).1
unfolding after_attempt
after_attempt-Doubled fault c small e = absurd (cc e)
after_attempt-Doubled (ok mqtt_reconnected) c small e = absurd (cc e)
after_attempt-Doubled (ok success) c small e = back_off-Doubled _ c small (λ h. cc (e, h))
after_attempt-Doubled (ok mqtt_manually_disconnected) c small e =
    back_off-Doubled _ c small (λ h. cc (e, h))
after_attempt-Doubled (ok mqtt_already_connected) c small e =
    back_off-Doubled _ c small (λ h. cc (e, h))
after_attempt-Doubled (err x) c small e = back_off-Doubled _ c small (λ h. cc (e, h))

unplugged-ne : (c : Client) → (back_off (ok mqtt_reconnected) c).0 ≢ err mqtt_attempting_reconnect
unfolding back_off
unplugged-ne c =
    elim (Bool-cases
      (ltb max_reconnect_wait_interval (c.current_reconnect_wait_interval * 2 % 2 ^ 32))) [
        | inl y ↦ rw y (λ e. cc e)
        | inr n ↦ rw n (λ e. cc e)
      ]

twice_power : (i n j : ℕ) → j ≡ i * 2 ^ n → j * 2 ≡ i * 2 ^ suc n
twice_power i n j e =
    ap (λ x. x * 2) e ∙ (mul_assoc i (2 ^ n) 2 ∙ ap (λ x. i * x) (sym (pow-suc 2 n)))

-- Six times twice a second is more than a minute.
few : (i n : ℕ) → 1000 ≤ i → i * 2 ^ n ≤ 60 * 1000 → n ≤ 5
few i n large h = elim (Bool-cases (leb n 5)) [
  | inl y ↦ ground arith
  | inr more ↦
      let six : 6 ≤ n = ground (arith, more) in
      let power : 2 ^ 6 ≤ 2 ^ n = pow-le-pow_right (omega arith) six in
      let product : 1000 * 2 ^ 6 ≤ i * 2 ^ n = mul-le-mul large power in absurd (omega arith)
]

module _ (with_key : Bool) (texts : Client → List ℕ × Option (List ℕ)) where
  -- The timer of the next reconnection has expired.
  abbrev pub IsDue : Client → Type 0
  IsDue c = is_expired c.reconnect_end_time (read_clock c).0 ≡ true

  attempt-Doubled :
      (c : Client)
      → IsDue c
      → c.current_reconnect_wait_interval ≤ max_reconnect_wait_interval
      → (handle_reconnect with_key texts c).0 ≡ err mqtt_attempting_reconnect
      → Doubled c.current_reconnect_wait_interval (handle_reconnect with_key texts c).1
  unfolding handle_reconnect
  attempt-Doubled c due small =
      let (now, d) = read_clock c in
      let (up, e) = is_physical_layer_connected d in
      let (r, f) = attempt_reconnect with_key texts e in
      let same =
        then-Patient c e f
          (then-Patient c d e (Goes-Patient c d (read_clock-Goes c))
            (Goes-Patient d e (is_physical_layer_connected-Goes d)))
          (attempt_reconnect-Patient with_key texts e) in
      let small' : f.current_reconnect_wait_interval ≤ max_reconnect_wait_interval =
        omega (arith, same.1) in
      rw due (elim (Bool-cases up) [
        | inl y ↦ rw y (λ h.
            let (twice, fits) = after_attempt-Doubled r f small' h in
            (twice ∙ ap (λ i. i * 2) same.1, omega (arith, same.1)))
        | inr n ↦ rw n (λ h. absurd (unplugged-ne e h))
      ])

  -- Some attempts that failed one after the other, and calls before the wait is over.
  pub data Attempts (c : Client) : ℕ → Client → Type 0 where
    start : Attempts c 0 c
    early :
        {n : ℕ} {d : Client}
        → Attempts c n d
        → is_expired d.reconnect_end_time (read_clock d).0 ≡ false
        → Attempts c n (handle_reconnect with_key texts d).1
    failed :
        {n : ℕ} {d : Client}
        → Attempts c n d
        → IsDue d
        → (handle_reconnect with_key texts d).0 ≡ err mqtt_attempting_reconnect
        → Attempts c (suc n) (handle_reconnect with_key texts d).1

  early_same :
      (d : Client)
      → is_expired d.reconnect_end_time (read_clock d).0 ≡ false
      → (handle_reconnect with_key texts d).1.current_reconnect_wait_interval
        ≡ d.current_reconnect_wait_interval
  unfolding handle_reconnect
  early_same d e = rw e (Goes-Patient d (read_clock d).1 (read_clock-Goes d)).1

  Attempts-doubled :
      (c : Client) (n : ℕ) (d : Client)
      → c.current_reconnect_wait_interval ≤ max_reconnect_wait_interval
      → Attempts c n d
      → (d.current_reconnect_wait_interval ≡ c.current_reconnect_wait_interval * 2 ^ n)
        × (d.current_reconnect_wait_interval ≤ max_reconnect_wait_interval)
  Attempts-doubled c n d small start = (omega arith, small)
  Attempts-doubled c n d small (early a e) =
      let (doubled, fits) = Attempts-doubled c n _ small a in
      let same = early_same _ e in (same ∙ doubled, omega (arith, same))
  Attempts-doubled c (suc n) d small (failed a due e) =
      let (doubled, fits) = Attempts-doubled c n _ small a in
      let (twice, fits') = attempt-Doubled _ due fits e in
      (twice ∙ twice_power c.current_reconnect_wait_interval n _ doubled, omega (arith, twice))

  -- From a wait between 1 and 60 seconds on, as a client has it that lost its connection: each
  -- attempt to connect again that fails doubles the wait, a call before its end changes nothing in
  -- it, the wait never gets longer than 60 seconds, and no more than five attempts are answered with
  -- another wait.
  pub Attempts-bounded :
      (c : Client) (n : ℕ) (d : Client)
      → 1000 ≤ c.current_reconnect_wait_interval
      → c.current_reconnect_wait_interval ≤ max_reconnect_wait_interval
      → Attempts c n d
      → (d.current_reconnect_wait_interval ≡ c.current_reconnect_wait_interval * 2 ^ n)
        × (d.current_reconnect_wait_interval ≤ max_reconnect_wait_interval)
        × (n ≤ 5)
  Attempts-bounded c n d large small a =
      let (doubled, fits) = Attempts-doubled c n d small a in
      (doubled, fits, few c.current_reconnect_wait_interval n large (omega (arith, doubled)))
