-- ===== src/Coap/Waiting/Answers.antt =====
-- What is answered is not sent again, and leaves the list.
use esp_qcloud.Prelude.{
  ℕ, ◌≡◌, ◌≢◌, ◌⊎◌, inl, inr, refl, arith, Option, none, some, ◌&&◌, not, List, [], ◌∷◌, All, ltb,
  ◌==◌, fault, Bool-cases,
}
use esp_qcloud.Prelude.Gives.{Surely, Surely->>=, Surely-if}
use esp_qcloud.Coap.Message.{CoapMessage, default_message}
use esp_qcloud.Coap.Client.{
  Client, SendInfo, NodeState, normal, invalid, countdown_ms, has_time_left,
}
use esp_qcloud.Coap.Waiting.{
  process_piggy, process_wait, answer_piggy, visit_piggy, retransmit, visit_expired, visit_wait,
  visit, message_list_proc,
}
use esp_qcloud.Coap.Waiting.Passes.{Visited, message_list_proc-Left}
use esp_qcloud.Coap.Waiting.Expiry.{HasBytes}

-- A node of another id, or one that the next pass removes.
abbrev OtherOrDone : ℕ → SendInfo → Type 0
OtherOrDone id n = HasBytes n.message × ((n.node_state ≡ invalid) ⊎ (n.msg_id ≢ id))

abbrev Other : ℕ → SendInfo → Type 0
Other id n = HasBytes n.message × (n.msg_id ≢ id)

-- The message keeps its id, and the allocator gives.
abbrev IsMessage : ℕ → CoapMessage → Client → Type 0
IsMessage id m c = (m.msg_id ≡ id) × (c.world.allocations ≡ [])

abbrev Anything : CoapMessage → Client → Type 0
Anything m c = Unit {0}

answer_piggy-Same :
    (n : SendInfo) (h : Option ℕ) (m : CoapMessage) (c : Client)
    → c.world.allocations ≡ []
    → (answer_piggy n h m c).world.allocations ≡ []
unfolding answer_piggy
answer_piggy-Same n (some h) m c e = e
answer_piggy-Same n none m c e = elim (Bool-cases c.has_event_handler) [
  | inl y ↦ rw y e
  | inr z ↦ rw z e
]

visit_piggy-Visited :
    (id : ℕ) (n : SendInfo) (m : CoapMessage) (c : Client)
    → HasBytes n.message
    → IsMessage id m c
    → Surely (Visited (OtherOrDone id) (IsMessage id)) (visit process_piggy n m c)
unfolding visit visit_piggy
visit_piggy-Visited id n m c has (e, free) = elim (Bool-cases (n.msg_id == m.msg_id)) [
  | inl y ↦ rw y ((has, inl refl), (e, answer_piggy-Same n n.handler _ c free))
  | inr z ↦ rw z ((has, inr (λ same. ground arith)), (e, free))
]

retransmit-Surely :
    (o : Option (List ℕ)) (c : Client) → HasBytes o → Surely (λ d. Unit {0}) (retransmit o c)
unfolding retransmit
retransmit-Surely none c has = absurd has
retransmit-Surely (some bytes) c has = tt

visit_wait-Visited :
    (id : ℕ) (state : NodeState) (n : SendInfo) (m : CoapMessage) (c : Client)
    → HasBytes n.message
    → (state ≡ invalid) ⊎ (n.msg_id ≢ id)
    → Surely (Visited (Other id) Anything) (visit_wait state n m c)
unfolding visit_wait visit_expired
visit_wait-Visited id invalid n m c has other = (tt, tt)
visit_wait-Visited id normal n m c has (inl e) = absurd (cc e)
visit_wait-Visited id normal n m c has (inr other) =
    let (left, c') = has_time_left n.start_time c in
    Surely-if (Visited (Other id) Anything) left _ _ (λ y. ((has, other), tt))
      λ late.
        Surely-if (Visited (Other id) Anything)
          (ltb n.retrans_count c'.max_retry_count && not n.acked) _ _
          (λ again.
            Surely->>= (λ d. Unit {0}) (Visited (Other id) Anything)
              (retransmit n.message (countdown_ms c'.command_timeout_ms c').1) _
              (retransmit-Surely n.message _ has) λ c'' u. ((has, other), tt))
          λ ended. (tt, tt)

-- If the allocator gives and every waiting request has its bytes, then after an answer that
-- acknowledges a message id has been handled and the list was passed over once more, no request with
-- this id waits any more; neither call ends in a fault.
pub piggy-gone :
    (m : CoapMessage) (c : Client)
    → c.world.allocations ≡ []
    → All (λ n. HasBytes n.message) c.message_list
    → ((message_list_proc m process_piggy c).0 ≢ fault)
      × ((message_list_proc default_message process_wait (message_list_proc m process_piggy c).1).0
          ≢ fault)
      × All
          (λ n. n.msg_id ≢ m.msg_id)
          (message_list_proc default_message process_wait
            (message_list_proc m process_piggy c).1).1.message_list
unfolding visit visit_wait
piggy-gone m c free all =
    let id = m.msg_id in
    let (marked, free') =
      message_list_proc-Left process_piggy (λ n. HasBytes n.message) (OtherOrDone id) (IsMessage id)
        (λ d. d.world.allocations ≡ []) (λ n m' c' has i. visit_piggy-Visited id n m' c' has i)
        (λ m' d ns i. i.1) m c free all (refl, free) in
    let (gone, u) =
      message_list_proc-Left process_wait (OtherOrDone id) (Other id) Anything (λ d. Unit {0})
        (λ n m' c' other i. visit_wait-Visited id n.node_state n m' c' other.0 other.1)
        (λ m' d ns i. tt) default_message (message_list_proc m process_piggy c).1 free' marked.1
        tt in
    (marked.0, gone.0, All-second id _ gone.1)
  where
    All-second : (id : ℕ) (ns : List SendInfo) → All (Other id) ns → All (λ n. n.msg_id ≢ id) ns
    All-second id [] a = tt
    All-second id (n ∷ ns) ((has, other), a) = (other, All-second id ns a)
