-- ===== src/Mqtt/Wait/Laws.antt =====
-- Waiting for a packet ends, and leaves the connection as it is.
use esp_qcloud.Prelude.{
  ℕ, ◌<◌, ◌≡◌, refl, arith, false, List, [], ◌∷◌, ◌==◌, Bool-cases, inl, inr, Outcome, ok, err,
  fault,
}
use esp_qcloud.Mqtt.Client.{Client, Action, continue}
use esp_qcloud.Mqtt.WaitList.{read_clock}
use esp_qcloud.Mqtt.WaitList.Frame.{read_clock-Goes}
use esp_qcloud.Mqtt.Net.{is_expired}
use esp_qcloud.Mqtt.Frame.{Goes, stay-Goes, then-Goes, continue-Goes}
use esp_qcloud.Mqtt.Handlers.{cycle_for_read}
use esp_qcloud.Mqtt.Handlers.Cycle.{cycle_for_read-Goes}
use esp_qcloud.Mqtt.Timed.{Ticks, readings, timed_loop, timed_loop-eq, timed_loop_keeps}
use esp_qcloud.Mqtt.Wait.{wait_round, wait_for_read}

-- After a test of a timer that has not expired there is a reading less.
clock_ticks :
    (end_time : ℕ) (c : Client) (l : List ℕ)
    → c.world.clock ≡ l
    → is_expired end_time (read_clock c).0 ≡ false
    → readings (read_clock c).1 < readings c
unfolding is_expired read_clock
clock_ticks end_time c [] e waits = absurd (ground arith)
clock_ticks end_time c (t ∷ l) e waits = ground arith

pub is_expired-Ticks :
    (end_time : ℕ) (c : Client)
    → is_expired end_time (read_clock c).0 ≡ false
    → readings (read_clock c).1 < readings c
is_expired-Ticks end_time c waits = clock_ticks end_time c c.world.clock refl waits

-- What comes after is called with no more readings.
pub continue-same :
    {A B : Type 0} (r : Outcome A) (k k' : A → Action B) (d : Client)
    → ((a : A) → k a d ≡ k' a d)
    → continue r k d ≡ continue r k' d
continue-same (ok a) k k' d e = e a
continue-same (err x) k k' d e = refl
continue-same fault k k' d e = refl

wait_round-Ticks : (packet_type timer : ℕ) → Ticks (wait_round packet_type timer)
unfolding wait_round
wait_round-Ticks packet_type timer k k' previous c same =
    let (now, d) = read_clock c in
    elim (Bool-cases (is_expired timer now)) [
      | inl late ↦ rw late refl
      | inr waits ↦
          let (r, e) = cycle_for_read previous timer d in
          let (control, (runs, table, lists)) = cycle_for_read-Goes previous timer d in
          let ticks = is_expired-Ticks timer c waits in
          rw waits (
            continue-same r _ _ e (λ ty. elim (Bool-cases (ty == packet_type)) [
              | inl y ↦ rw y refl
              | inr n ↦ rw n (same ty e (omega arith))
            ]))
    ]

-- The loop is its body, followed by the loop, whatever the clock, the network and the allocator
-- answer: the rounds that the model allows are enough.
pub wait_for_read-eq :
    (packet_type timer : ℕ) (c : Client)
    → wait_for_read packet_type timer c
      ≡ wait_round packet_type timer (timed_loop (wait_round packet_type timer)) 0 c
unfolding wait_for_read
wait_for_read-eq packet_type timer c =
    timed_loop-eq (wait_round packet_type timer) (wait_round-Ticks packet_type timer) 0 c

wait_round-Goes :
    (packet_type timer : ℕ) (k : ℕ → Action (Unit {0}))
    → ((previous : ℕ) (c : Client) → Goes c (k previous c).1)
    → (previous : ℕ) (c : Client) → Goes c (wait_round packet_type timer k previous c).1
unfolding wait_round
wait_round-Goes packet_type timer k after previous c =
    let (now, d) = read_clock c in
    elim (Bool-cases (is_expired timer now)) [
      | inl late ↦ rw late (read_clock-Goes c)
      | inr waits ↦
          let (r, e) = cycle_for_read previous timer d in
          rw waits (
            continue-Goes c e r _
              (then-Goes c d e (read_clock-Goes c) (cycle_for_read-Goes previous timer d))
              (λ ty. elim (Bool-cases (ty == packet_type)) [
                | inl y ↦ rw y (stay-Goes e)
                | inr n ↦ rw n (after ty e)
              ]))
    ]

pub wait_for_read-Goes :
    (packet_type timer : ℕ) (c : Client) → Goes c (wait_for_read packet_type timer c).1
unfolding wait_for_read
wait_for_read-Goes packet_type timer c =
    timed_loop_keeps (wait_round packet_type timer) (λ previous c r. Goes c r.1)
      (λ previous c. stay-Goes c) (wait_round-Goes packet_type timer) 0 c
