-- ===== src/Coap/Exchange/Track.antt =====
-- What a send leaves in the list of waiting requests.
use esp_qcloud.Prelude.{
  ℕ, ◌≡◌, refl, ap, Option, Bool, true, false, ◌&&◌, List, [], ◌∷◌, ◌++◌, length, take, ◌==◌,
  if◌then◌else◌, Outcome, ok, err, fault, Bool-cases, inl, inr,
}
use esp_qcloud.Mqtt.Client.{WriteReply, accepted, write_failed}
use esp_qcloud.Coap.Message.{CoapMessage, over, msg_con, msg_req}
use esp_qcloud.Coap.Serialize.{serialize_coap_message}
use esp_qcloud.Coap.Client.{
  Client, SendInfo, take_reading, take_write, take_allocation, countdown_ms, allocate, write,
}
use esp_qcloud.Coap.Exchange.{
  Action, continue, ◌>>=◌, pure, lift, run, modify, require_memory, kept_bytes, new_node,
  append_node, message_list_add, message_send,
}

-- What holds of the result and the client, or that the list is as it was.
abbrev pub Tracks :
    {A : Type 0} → List SendInfo → (A → Client → Type 0) → Outcome A × Client → Type 0
Tracks ns Q (ok a, c) = Q a c
Tracks ns Q (err e, c) = c.message_list ≡ ns
Tracks ns Q (fault, c) = c.message_list ≡ ns

continue-Tracks :
    {A B : Type 0} (ns : List SendInfo) (Q : A → Client → Type 0) (R : B → Client → Type 0)
    (r : Outcome A × Client) (f : A → Action B)
    → Tracks ns Q r
    → ((a : A) (c : Client) → Q a c → Tracks ns R (f a c))
    → Tracks ns R (continue r.0 f r.1)
continue-Tracks ns Q R (ok a, c) f h k = k a c h
continue-Tracks ns Q R (err e, c) f h k = h
continue-Tracks ns Q R (fault, c) f h k = h

pub bind-Tracks :
    {A B : Type 0} (ns : List SendInfo) (Q : A → Client → Type 0) (R : B → Client → Type 0)
    (m : Action A) (f : A → Action B) (c : Client)
    → Tracks ns Q (m c)
    → ((a : A) (d : Client) → Q a d → Tracks ns R (f a d))
    → Tracks ns R ((m >>= f) c)
bind-Tracks ns Q R m f c h k = continue-Tracks ns Q R (m c) f h k

abbrev pub Same : {A : Type 0} → List SendInfo → A → Client → Type 0
Same ns a c = c.message_list ≡ ns

pub lift-Tracks :
    {A : Type 0} (ns : List SendInfo) (o : Outcome A) (c : Client)
    → c.message_list ≡ ns
    → Tracks ns (Same ns) (o, c)
lift-Tracks ns (ok a) c e = e
lift-Tracks ns (err x) c e = e
lift-Tracks ns fault c e = e

allocate-Same :
    (ns : List SendInfo) (bs : List Bool) (c : Client)
    → c.message_list ≡ ns
    → (take_allocation bs c).1.message_list ≡ ns
unfolding take_allocation
allocate-Same ns [] c e = e
allocate-Same ns (b ∷ bs) c e = e

countdown-Same :
    (ns : List SendInfo) (ts : List ℕ) (c : Client)
    → c.message_list ≡ ns
    → (take_reading ts c).1.message_list ≡ ns
unfolding take_reading
countdown-Same ns [] c e = e
countdown-Same ns (t ∷ ts) c e = e

require_memory-Tracks :
    (ns : List SendInfo) (b : Bool) (c : Client)
    → c.message_list ≡ ns
    → Tracks ns (Same ns) (require_memory b c)
unfolding require_memory
require_memory-Tracks ns true c e = e
require_memory-Tracks ns false c e = e

kept_bytes-Tracks :
    (ns : List SendInfo) (b : Bool) (len : ℕ) (c : Client)
    → c.message_list ≡ ns
    → Tracks ns (Same ns) (kept_bytes b len c)
unfolding kept_bytes
kept_bytes-Tracks ns true len c e = lift-Tracks ns _ c e
kept_bytes-Tracks ns false len c e = e

write-Tracks :
    (ns : List SendInfo) (len : ℕ) (ws : List WriteReply) (c : Client)
    → c.message_list ≡ ns
    → Tracks ns (Same ns) (take_write len ws c)
unfolding take_write
write-Tracks ns len [] c e = e
write-Tracks ns len (accepted n ∷ ws) c e = e
write-Tracks ns len (write_failed x ∷ ws) c e = e

-- The new node is at the tail, fresh, and stands for the request.
abbrev pub Appended : List SendInfo → CoapMessage → Client → Type 0
Appended ns m c =
    (n : SendInfo) × (c.message_list ≡ ns ++ (n ∷ []))
    × (n.msg_id ≡ m.msg_id)
    × (n.token_len ≡ m.token_len)
    × (n.token ≡ take m.token_len m.token)
    × (n.handler ≡ m.handler)
    × (n.acked ≡ false)
    × (n.retrans_count ≡ 0)
    × (n.user_context ≡ m.user_context)

append_node-Appended :
    (ns : List SendInfo) (m : CoapMessage) (end_time : ℕ) (bytes : Option (List ℕ)) (c : Client)
    → c.message_list ≡ ns
    → Tracks ns (λ u d. Appended ns m d) (append_node m end_time bytes c)
unfolding append_node
append_node-Appended ns m end_time bytes c e = (
  new_node m end_time bytes,
  ap (λ l. l ++ (new_node m end_time bytes ∷ [])) e,
  refl,
  refl,
  refl,
  refl,
  refl,
  refl,
  refl,
)

message_list_add-Tracks :
    (ns : List SendInfo) (m : CoapMessage) (len : ℕ) (c : Client)
    → c.message_list ≡ ns
    → Tracks ns (λ u d. Appended ns m d) (message_list_add m len c)
unfolding message_list_add countdown_ms allocate
message_list_add-Tracks ns m len c e =
    let here = Appended ns m in
    bind-Tracks ns (Same ns) (λ u. here) (run allocate) _ c
      (allocate-Same ns c.world.allocations c e)
      λ info c1 e1.
        bind-Tracks ns (Same ns) (λ u. here) (require_memory info) _ c1
          (require_memory-Tracks ns info c1 e1)
          λ u c2 e2.
            bind-Tracks ns (Same ns) (λ u. here) (run (λ d. countdown_ms d.command_timeout_ms d)) _
              c2 (countdown-Same ns c2.world.clock c2 e2)
              λ end_time c3 e3.
                bind-Tracks ns (Same ns) (λ u. here) (run allocate) _ c3
                  (allocate-Same ns c3.world.allocations c3 e3)
                  λ memory c4 e4.
                    bind-Tracks ns (Same ns) (λ u. here) (kept_bytes memory len) _ c4
                      (kept_bytes-Tracks ns memory len c4 e4)
                      λ bytes c5 e5.
                        bind-Tracks ns (Same ns) (λ u. here) (run allocate) _ c5
                          (allocate-Same ns c5.world.allocations c5 e5)
                          λ node c6 e6.
                            bind-Tracks ns (Same ns) (λ u. here) (require_memory node)
                              (λ v. append_node m end_time bytes) c6
                              (require_memory-Tracks ns node c6 e6)
                              λ u c7 e7. append_node-Appended ns m end_time bytes c7 e7

-- What a send that succeeds does to the list.
abbrev pub Waits : Bool → List SendInfo → CoapMessage → Client → Type 0
Waits true ns m c = Appended ns m c
Waits false ns m c = c.message_list ≡ ns

-- A send that returns success appends one node to the waiting requests if the message is a
-- confirmable request, with its id, token and handler, not acknowledged and not sent again; it
-- changes nothing in the list for another message. A send that fails leaves the list as it was.
pub message_send-Tracks :
    (m : CoapMessage) (c : Client)
    → Tracks c.message_list
        (λ u d. Waits (m.type == msg_con && m.code_class == msg_req) c.message_list m d)
        (message_send m c)
unfolding message_send write
message_send-Tracks m c =
    let ns = c.message_list in
    let there = λ (d : Client). Waits (m.type == msg_con && m.code_class == msg_req) ns m d in
    bind-Tracks ns (Same ns) (λ u. there) (run (λ c. (length c.send_buf, c))) _ c refl
      λ size c1 e1.
        bind-Tracks ns (Same ns) (λ u. there) (lift (serialize_coap_message m size)) _ c1
          (lift-Tracks ns _ c1 e1)
          λ bytes c2 e2.
            bind-Tracks ns (Same ns) (λ u. there)
              (modify (λ c. record c { send_buf = over bytes c.send_buf })) _ c2 e2
              λ u c3 e3.
                bind-Tracks ns (Same ns) (λ u. there) (write bytes)
                  (λ written.
                    if m.type == msg_con && m.code_class == msg_req
                    then message_list_add m written
                    else pure tt)
                  c3 (write-Tracks ns (length bytes) c3.world.writes _ e3)
                  λ written c4 e4.
                    elim (Bool-cases (m.type == msg_con && m.code_class == msg_req)) [
                      | inl y ↦ rw y (message_list_add-Tracks ns m written c4 e4)
                      | inr n ↦ rw n e4
                    ]
