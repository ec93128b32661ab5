-- ===== src/Coap/Waiting/Expiry.antt =====
-- Requests do not wait for ever.
use esp_qcloud.Prelude.{
  ℕ, suc, ◌+◌, ◌%◌, ◌≤◌, ◌<◌, ◌≡◌, refl, arith, Option, none, some, true, false, ◌&&◌, not, List,
  [], ◌∷◌, All, length, ltb, Outcome, Bool-cases, inl, inr,
}
use esp_qcloud.Prelude.Gives.{Surely, Surely->>=, Surely-if}
use esp_qcloud.Coap.Waiting.Passes.{Visited, Left, message_list_proc-Left}
use esp_qcloud.Mqtt.Client.{WriteReply, accepted, write_failed}
use esp_qcloud.Mqtt.WaitList.{time_left}
use esp_qcloud.Coap.Message.{CoapMessage}
use esp_qcloud.Coap.Client.{
  Client, SendInfo, to_network, NodeState, normal, invalid, EventType, EventContent, output,
  take_reading, take_write, countdown_ms, has_time_left, write,
}
use esp_qcloud.Coap.Waiting.{
  process_wait, notify, retransmit, give_up, visit_expired, visit_wait, visit, message_list_proc,
}

abbrev pub HasBytes : Option (List ℕ) → Type 0
HasBytes none = ⊥
HasBytes (some bytes) = Unit {0}

-- A request that was sent again `k` times at least and `max` times at most.
abbrev pub SentAgain : ℕ → ℕ → SendInfo → Type 0
SentAgain k max n = HasBytes n.message × (k ≤ n.retrans_count) × (n.retrans_count ≤ max)

-- No timer has time left, the allocator gives, and nothing arrives.
abbrev pub IsSilent : ℕ → Client → Type 0
IsSilent max c =
    (c.world.clock ≡ [])
    × (c.world.allocations ≡ [])
    × (c.world.reads ≡ [])
    × (c.max_retry_count ≡ max)

has_time_left-none :
    (end_time : ℕ) (c : Client) → c.world.clock ≡ [] → has_time_left end_time c ≡ (false, c)
unfolding has_time_left take_reading time_left
has_time_left-none end_time c e = rw e refl

countdown_ms-none :
    (timeout_ms : ℕ) (c : Client) → c.world.clock ≡ [] → (countdown_ms timeout_ms c).1 ≡ c
unfolding countdown_ms take_reading
countdown_ms-none timeout_ms c e = rw e refl

take_write-IsSilent :
    (max len : ℕ) (ws : List WriteReply) (c : Client)
    → IsSilent max c
    → IsSilent max (take_write len ws c).1
unfolding take_write
take_write-IsSilent max len [] c s = s
take_write-IsSilent max len (accepted n ∷ ws) c s = s
take_write-IsSilent max len (write_failed e ∷ ws) c s = s

notify-IsSilent :
    (max : ℕ) (event : EventType) (content : EventContent) (c : Client)
    → IsSilent max c
    → IsSilent max (notify event content c)
notify-IsSilent max event content c s = elim (Bool-cases c.has_event_handler) [
  | inl y ↦ rw y s
  | inr n ↦ rw n s
]

give_up-IsSilent :
    (max : ℕ) (n : SendInfo) (h : Option ℕ) (m : CoapMessage) (c : Client)
    → IsSilent max c
    → IsSilent max (give_up n h m c).1
unfolding give_up
give_up-IsSilent max n none m c s = notify-IsSilent max _ _ c s
give_up-IsSilent max n (some h) m c s = s

retransmit-IsSilent :
    (max : ℕ) (o : Option (List ℕ)) (c : Client)
    → HasBytes o
    → IsSilent max c
    → Surely (IsSilent max) (retransmit o c)
unfolding retransmit write
retransmit-IsSilent max none c has s = absurd has
retransmit-IsSilent max (some bytes) c has s =
    take_write-IsSilent max (length bytes) c.world.writes (output (to_network bytes) c) s

visit_expired-Visited :
    (k max : ℕ) (n : SendInfo) (m : CoapMessage) (c : Client)
    → max < 256
    → SentAgain k max n
    → IsSilent max c
    → Surely (Visited (SentAgain (suc k) max) (λ m c. IsSilent max c)) (visit_expired n m c)
unfolding visit_expired
visit_expired-Visited k max n m c small (has, low, high) s =
    let (end_time, c') = countdown_ms c.command_timeout_ms c in
    let s' : IsSilent max c' = rw (countdown_ms-none c.command_timeout_ms c s.0) s in
    Surely-if (Visited (SentAgain (suc k) max) (λ m c. IsSilent max c))
      (ltb n.retrans_count c.max_retry_count && not n.acked) _ _
      (λ again.
        Surely->>= (IsSilent max) (Visited (SentAgain (suc k) max) (λ m c. IsSilent max c))
          (retransmit n.message c') _ (retransmit-IsSilent max n.message c' has s')
          λ c'' s''. ((has, grow again s.3, bound again s.3), s''))
      λ ended. (tt, give_up-IsSilent max n n.handler m c s)
  where
    less :
        (ltb n.retrans_count c.max_retry_count && not n.acked) ≡ true
        → c.max_retry_count ≡ max
        → n.retrans_count < max
    less again e = ground arith

    grow :
        (ltb n.retrans_count c.max_retry_count && not n.acked) ≡ true
        → c.max_retry_count ≡ max
        → suc k ≤ (n.retrans_count + 1) % 256
    grow again e = omega (arith, less again e)

    bound :
        (ltb n.retrans_count c.max_retry_count && not n.acked) ≡ true
        → c.max_retry_count ≡ max
        → (n.retrans_count + 1) % 256 ≤ max
    bound again e = omega (arith, less again e)

visit_wait-Visited :
    (k max : ℕ) (state : NodeState) (n : SendInfo) (m : CoapMessage) (c : Client)
    → max < 256
    → SentAgain k max n
    → IsSilent max c
    → Surely (Visited (SentAgain (suc k) max) (λ m c. IsSilent max c)) (visit_wait state n m c)
unfolding visit_wait
visit_wait-Visited k max invalid n m c small again s = (tt, s)
visit_wait-Visited k max normal n m c small again s =
    rw (has_time_left-none n.start_time c s.0) (visit_expired-Visited k max n m c small again s)

-- What a call of the pass does to the list, and that it is no fault.
abbrev pub Proceeds : ℕ → ℕ → Outcome (Unit {0}) × Client → Type 0
Proceeds k max (r, c) = Left (SentAgain k max) (r, c) × IsSilent max c

pub message_list_proc-Proceeds :
    (k max : ℕ) (m : CoapMessage) (c : Client)
    → max < 256
    → All (SentAgain k max) c.message_list
    → IsSilent max c
    → Proceeds (suc k) max (message_list_proc m process_wait c)
unfolding visit
message_list_proc-Proceeds k max m c small again s =
    message_list_proc-Left process_wait (SentAgain k max) (SentAgain (suc k) max)
      (λ m c. IsSilent max c) (IsSilent max)
      (λ n m c again s. visit_wait-Visited k max n.node_state n m c small again s) (λ m d ns s. s) m
      c s.1 again s
