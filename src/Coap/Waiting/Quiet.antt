-- ===== src/Coap/Waiting/Quiet.antt =====
-- A request that is acknowledged is not sent again.
use esp_qcloud.Prelude.{
  ℕ, ◌≡◌, ◌≢◌, ◌⊎◌, inl, inr, refl, arith, Option, none, some, true, ◌&&◌, not, List, [], ◌∷◌, ◌++◌,
  All, length, ltb, ◌==◌, fault, Bool-cases,
}
use esp_qcloud.Prelude.Gives.{Surely, Surely->>=, Surely-if}
use esp_qcloud.Mqtt.Client.{WriteReply, accepted, write_failed}
use esp_qcloud.Coap.Message.{CoapMessage, default_message}
use esp_qcloud.Coap.Client.{
  Client, SendInfo, NodeState, normal, invalid, Output, to_network, to_event, EventType,
  EventContent, output, take_reading, take_write, countdown_ms, has_time_left, write,
}
use esp_qcloud.Coap.Waiting.{
  process_ack, process_wait, notify, visit_ack, retransmit, give_up, visit_expired, visit_wait,
  visit, message_list_proc,
}
use esp_qcloud.Coap.Waiting.Passes.{Visited, message_list_proc-Left}
use esp_qcloud.Coap.Waiting.Expiry.{HasBytes}

-- These bytes have not gone out.
abbrev pub NotSent : List ℕ → List Output → Type 0
NotSent b os = All (λ o. o ≢ to_network b) os

NotSent-append :
    (b : List ℕ) (os : List Output) (o : Output)
    → NotSent b os
    → o ≢ to_network b
    → NotSent b (os ++ (o ∷ []))
NotSent-append b [] o all new = (new, tt)
NotSent-append b (p ∷ os) o (old, all) new = (old, NotSent-append b os o all new)

-- A request of the id, or with other bytes.
abbrev pub Candidate : ℕ → List ℕ → SendInfo → Type 0
Candidate id b n = HasBytes n.message × ((n.msg_id ≡ id) ⊎ (n.message ≢ some b))

abbrev Settled : List ℕ → SendInfo → Type 0
Settled b n = HasBytes n.message × ((n.acked ≡ true) ⊎ (n.message ≢ some b))

abbrev Calm : List ℕ → Client → Type 0
Calm b c = (c.world.allocations ≡ []) × NotSent b c.world.outputs

take_reading-Calm :
    (b : List ℕ) (ts : List ℕ) (c : Client) → Calm b c → Calm b (take_reading ts c).1
unfolding take_reading
take_reading-Calm b [] c s = s
take_reading-Calm b (t ∷ ts) c s = s

countdown_ms-Calm : (b : List ℕ) (ms : ℕ) (c : Client) → Calm b c → Calm b (countdown_ms ms c).1
unfolding countdown_ms
countdown_ms-Calm b ms c s = take_reading-Calm b c.world.clock c s

has_time_left-Calm :
    (b : List ℕ) (end_time : ℕ) (c : Client) → Calm b c → Calm b (has_time_left end_time c).1
unfolding has_time_left
has_time_left-Calm b end_time c s = take_reading-Calm b c.world.clock c s

take_write-Calm :
    (b : List ℕ) (len : ℕ) (ws : List WriteReply) (c : Client)
    → Calm b c
    → Calm b (take_write len ws c).1
unfolding take_write
take_write-Calm b len [] c s = s
take_write-Calm b len (accepted n ∷ ws) c s = s
take_write-Calm b len (write_failed e ∷ ws) c s = s

abbrev Asked : ℕ → List ℕ → CoapMessage → Client → Type 0
Asked id b m c = (m.msg_id ≡ id) × Calm b c

visit_ack-Visited :
    (id : ℕ) (b : List ℕ) (n : SendInfo) (m : CoapMessage) (c : Client)
    → Candidate id b n
    → Asked id b m c
    → Surely (Visited (Settled b) (Asked id b)) (visit process_ack n m c)
unfolding visit visit_ack
visit_ack-Visited id b n m c (has, same) (e, calm) = elim (Bool-cases (n.msg_id == m.msg_id)) [
  | inl y ↦ rw y ((has, inl refl), (e, countdown_ms-Calm b c.command_timeout_ms c calm))
  | inr z ↦ elim same [
    | inl q ↦ absurd (ground arith)
    | inr other ↦ rw z ((has, inr other), (e, calm))
  ]
]

notify-Calm :
    (b : List ℕ) (event : EventType) (content : EventContent) (c : Client)
    → Calm b c
    → Calm b (notify event content c)
notify-Calm b event content c (free, quiet) = elim (Bool-cases c.has_event_handler) [
  | inl y ↦ rw y (free, NotSent-append b c.world.outputs (to_event event content) quiet (λ e. cc e))
  | inr n ↦ rw n (free, quiet)
]

give_up-Calm :
    (b : List ℕ) (n : SendInfo) (h : Option ℕ) (m : CoapMessage) (c : Client)
    → Calm b c
    → Calm b (give_up n h m c).1
unfolding give_up
give_up-Calm b n none m c calm = notify-Calm b _ _ c calm
give_up-Calm b n (some h) m c (free, quiet) =
    (free, NotSent-append b c.world.outputs _ quiet (λ e. cc e))

retransmit-Calm :
    (b : List ℕ) (o : Option (List ℕ)) (c : Client)
    → HasBytes o
    → o ≢ some b
    → Calm b c
    → Surely (Calm b) (retransmit o c)
unfolding retransmit write
retransmit-Calm b none c has other calm = absurd has
retransmit-Calm b (some bytes) c has other (free, quiet) =
    take_write-Calm b (length bytes) c.world.writes (output (to_network bytes) c)
      (free, NotSent-append b c.world.outputs (to_network bytes) quiet (λ e. other (cc e)))

abbrev Anything : SendInfo → Type 0
Anything n = Unit {0}

visit_wait-Visited :
    (b : List ℕ) (state : NodeState) (n : SendInfo) (m : CoapMessage) (c : Client)
    → Settled b n
    → Calm b c
    → Surely (Visited Anything (λ m c. Calm b c)) (visit_wait state n m c)
unfolding visit_wait visit_expired
visit_wait-Visited b invalid n m c settled calm = (tt, calm)
visit_wait-Visited b normal n m c (has, settled) calm =
    let (left, c') = has_time_left n.start_time c in
    let calm' : Calm b c' = has_time_left-Calm b n.start_time c calm in
    Surely-if (Visited Anything (λ m c. Calm b c)) left _ _ (λ y. (tt, calm'))
      λ late.
        Surely-if (Visited Anything (λ m c. Calm b c))
          (ltb n.retrans_count c'.max_retry_count && not n.acked) _ _
          (λ again. elim settled [
            | inl acked ↦ absurd (ground arith)
            | inr other ↦
                Surely->>= (Calm b) (Visited Anything (λ m c. Calm b c))
                  (retransmit n.message (countdown_ms c'.command_timeout_ms c').1) _
                  (retransmit-Calm b n.message _ has other
                    (countdown_ms-Calm b c'.command_timeout_ms c' calm'))
                  λ c'' calm''. (tt, calm'')
          ])
          λ ended. (tt, give_up-Calm b n n.handler m c' calm')

-- If the allocator gives, every waiting request has its bytes, and only requests with the message's
-- id have the bytes `b`, then after an acknowledgement of this id has been handled the next pass over
-- the list does not send these bytes, whatever the clock says; neither call ends in a fault.
pub ack-quiet :
    (b : List ℕ) (m : CoapMessage) (c : Client)
    → c.world.allocations ≡ []
    → All (Candidate m.msg_id b) c.message_list
    → NotSent b c.world.outputs
    → ((message_list_proc m process_ack c).0 ≢ fault)
      × ((message_list_proc default_message process_wait (message_list_proc m process_ack c).1).0
          ≢ fault)
      × NotSent b
          (message_list_proc default_message process_wait
            (message_list_proc m process_ack c).1).1.world.outputs
unfolding visit
ack-quiet b m c free all quiet =
    let id = m.msg_id in
    let (marked, calm) =
      message_list_proc-Left process_ack (Candidate id b) (Settled b) (Asked id b) (Calm b)
        (λ n m' c' candidate asked. visit_ack-Visited id b n m' c' candidate asked)
        (λ m' d ns asked. asked.1) m c free all (refl, (free, quiet)) in
    let (done, still) =
      message_list_proc-Left process_wait (Settled b) Anything (λ m c. Calm b c) (Calm b)
        (λ n m' c' settled calm. visit_wait-Visited b n.node_state n m' c' settled calm)
        (λ m' d ns calm. calm) default_message (message_list_proc m process_ack c).1 calm.0 marked.1
        calm in
    (marked.0, done.0, still.1)
