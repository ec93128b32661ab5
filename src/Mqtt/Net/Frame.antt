-- ===== src/Mqtt/Net/Frame.antt =====
-- What sending changes.
use esp_qcloud.Prelude.{
  ℕ, ◌+◌, ◌≡◌, refl, ap, ◌∙◌, arith, some, not, List, [], ◌∷◌, length, ltb, leb, Bool-cases, inl,
  inr, Outcome, ok, err, fault,
}
use esp_qcloud.Mqtt.Client.{Client, WriteReply, accepted, write_failed, Action, continue}
use esp_qcloud.Mqtt.Frame.{control, ClockRuns, Goes}
use esp_qcloud.Mqtt.Net.{send_mqtt_packet, send_loop, slice, net_write, take_write, is_expired}

-- The client differs in its world at most.
abbrev pub OnlyWorld : Client → Client → Type 0
OnlyWorld c d = d ≡ record c { world = d.world }

abbrev with_world : Client → Client → Client
with_world e c = record c { world = e.world }

trans_only : (c d e : Client) → OnlyWorld c d → OnlyWorld d e → OnlyWorld c e
trans_only c d e p q = q ∙ ap (with_world e) p

continue_only :
    {A B : Type 0} (c d : Client) (r : Outcome A) (k : A → Action B)
    → ((a : A) → OnlyWorld c (k a d).1)
    → OnlyWorld c d
    → OnlyWorld c (continue r k d).1
continue_only c d (ok a) k f e = f a
continue_only c d (err x) k f e = e
continue_only c d fault k f e = e

take_write-OnlyWorld :
    (ws : List WriteReply) (bytes : List ℕ) (c : Client) → OnlyWorld c (take_write ws bytes c).1
unfolding take_write
take_write-OnlyWorld [] bytes c = refl
take_write-OnlyWorld (accepted n ∷ ws) bytes c = refl
take_write-OnlyWorld (write_failed e ∷ ws) bytes c = refl

send_loop-OnlyWorld :
    (ts : List ℕ) (len end_time sent : ℕ) (c : Client)
    → OnlyWorld c (send_loop ts len end_time sent c).1
unfolding send_loop net_write
send_loop-OnlyWorld [] len end_time sent c = refl
send_loop-OnlyWorld (t ∷ ts) len end_time sent c =
    let d = record c { world = record c.world { clock = ts } } in
    elim (Bool-cases (not (ltb sent len))) [
      | inl y ↦ rw y refl
      | inr n ↦ elim (Bool-cases (is_expired end_time (some t))) [
        | inl y ↦ rw n (rw y refl)
        | inr m ↦ rw n (
            rw m (
              continue_only c d (slice sent len c.write_buf) _
                (λ bytes.
                  let (r, e) = take_write c.world.writes bytes d in
                  let written = take_write-OnlyWorld c.world.writes bytes d in
                  continue_only c e r (λ n. send_loop ts len end_time (sent + n))
                    (λ n.
                      trans_only c e (send_loop ts len end_time (sent + n) e).1 written
                        (send_loop-OnlyWorld ts len end_time (sent + n) e))
                    written)
                refl))
      ]
    ]

-- Sending changes no part of the client but its world.
pub send_mqtt_packet-OnlyWorld :
    (len end_time : ℕ) (c : Client) → OnlyWorld c (send_mqtt_packet len end_time c).1
unfolding send_mqtt_packet
send_mqtt_packet-OnlyWorld len end_time c = elim (Bool-cases (leb (length c.write_buf) len)) [
  | inl y ↦ rw y refl
  | inr n ↦ rw n (send_loop-OnlyWorld c.world.clock len end_time 0 c)
]

take_write-clock :
    (ws : List WriteReply) (bytes : List ℕ) (c : Client)
    → (take_write ws bytes c).1.world.clock ≡ c.world.clock
unfolding take_write
take_write-clock [] bytes c = refl
take_write-clock (accepted n ∷ ws) bytes c = refl
take_write-clock (write_failed e ∷ ws) bytes c = refl

continue-ClockRuns :
    {A B : Type 0} (c d : Client) (r : Outcome A) (k : A → Action B)
    → ((a : A) → ClockRuns c (k a d).1)
    → ClockRuns c d
    → ClockRuns c (continue r k d).1
continue-ClockRuns c d (ok a) k f e = f a
continue-ClockRuns c d (err x) k f e = e
continue-ClockRuns c d fault k f e = e

send_loop-ClockRuns :
    (ts : List ℕ) (len end_time sent : ℕ) (c : Client)
    → c.world.clock ≡ ts
    → ClockRuns c (send_loop ts len end_time sent c).1
unfolding send_loop net_write
send_loop-ClockRuns [] len end_time sent c e = omega arith
send_loop-ClockRuns (t ∷ ts) len end_time sent c e =
    let d = record c { world = record c.world { clock = ts } } in
    let runs : ClockRuns c d = rw e (omega arith) in
    elim (Bool-cases (not (ltb sent len))) [
      | inl y ↦ rw y (omega arith)
      | inr n ↦ elim (Bool-cases (is_expired end_time (some t))) [
        | inl y ↦ rw n (rw y runs)
        | inr m ↦ rw n (
            rw m (
              continue-ClockRuns c d (slice sent len c.write_buf) _
                (λ bytes.
                  let (r, f) = take_write c.world.writes bytes d in
                  let clock = take_write-clock c.world.writes bytes d in
                  let written : ClockRuns c f = rw clock runs in
                  continue-ClockRuns c f r (λ n. send_loop ts len end_time (sent + n))
                    (λ n.
                      let rest = send_loop-ClockRuns ts len end_time (sent + n) f clock in
                      omega arith)
                    written)
                runs))
      ]
    ]

pub send_mqtt_packet-ClockRuns :
    (len end_time : ℕ) (c : Client) → ClockRuns c (send_mqtt_packet len end_time c).1
unfolding send_mqtt_packet
send_mqtt_packet-ClockRuns len end_time c = elim (Bool-cases (leb (length c.write_buf) len)) [
  | inl y ↦ rw y (omega arith)
  | inr n ↦ rw n (send_loop-ClockRuns c.world.clock len end_time 0 c refl)
]

-- The client differs in its world, where time has passed.
pub world-Goes : (c d : Client) → OnlyWorld c d → ClockRuns c d → Goes c d
world-Goes c d e runs =
    let table : d.sub_handles ≡ c.sub_handles = ap (λ x. x.sub_handles) e in
    let pubs = ap (λ x. length x.list_pub_wait_ack) e in
    let subs = ap (λ x. length x.list_sub_wait_ack) e in
    (
      ap control e,
      (
        runs,
        (λ n (twins, size). (rw table twins, ap length table ∙ size)),
        λ (pub_len, sub_len). (omega (arith, pubs), omega (arith, subs)),
      ),
    )

pub send_mqtt_packet-Goes :
    (len end_time : ℕ) (c : Client) → Goes c (send_mqtt_packet len end_time c).1
send_mqtt_packet-Goes len end_time c =
    world-Goes c (send_mqtt_packet len end_time c).1 (send_mqtt_packet-OnlyWorld len end_time c)
      (send_mqtt_packet-ClockRuns len end_time c)
