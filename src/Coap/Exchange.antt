-- ===== src/Coap/Exchange.antt =====
-- Sending and receiving: the rest of sdk_src/coap_client_message.c.
mod Tests
pub mod Expiry
pub mod Track
use esp_qcloud.Prelude.{
  ℕ, Option, none, some, Bool, true, false, ◌&&◌, not, List, [], ◌∷◌, ◌++◌, length, take, drop, leb,
  ltb, ◌==◌, if◌then◌else◌, Outcome, ok, err, fault,
}
use esp_qcloud.Prelude.Codes.{Code, failure, ssl_read_timeout}
use esp_qcloud.Mqtt.Client.{ReadReply, received, read_failed}
use esp_qcloud.Coap.Message.{
  CoapMessage, default_message, zero_message, over, msg_con, msg_non, msg_ack, msg_req,
  coap_message_type_set, coap_message_id_set,
}
use esp_qcloud.Coap.Serialize.{copy, serialize_coap_message}
use esp_qcloud.Coap.Deserialize.{message_after}
use esp_qcloud.Coap.Client.{Client, SendInfo, normal, invalid, countdown_ms, allocate, write}
use esp_qcloud.Coap.Waiting.{
  process_ack, process_piggy, process_resp, process_wait, message_list_proc,
}

abbrev pub Action : Type 0 → Type 0
Action A = Client → Outcome A × Client

abbrev pub continue : {A B : Type 0} → Outcome A → (A → Action B) → Action B
continue (ok a) f c = f a c
continue (err e) f c = (err e, c)
continue fault f c = (fault, c)

infixl 5 ◌>>=◌
abbrev pub ◌>>=◌ : {A B : Type 0} → Action A → (A → Action B) → Action B
◌>>=◌ m f c = let (r, c') = m c in continue r f c'

abbrev pub pure : {A : Type 0} → A → Action A
pure a c = (ok a, c)

abbrev pub lift : {A : Type 0} → Outcome A → Action A
lift r c = (r, c)

abbrev pub run : {A : Type 0} → (Client → A × Client) → Action A
run f c = let (a, c') = f c in (ok a, c')

abbrev pub modify : (Client → Client) → Action (Unit {0})
modify f c = (ok tt, f c)

unfoldable pub require_memory : Bool → Action (Unit {0})
require_memory true c = (ok tt, c)
require_memory false c = (err failure, c)

-- The copy of the first `len` bytes of `send_buf`, or a null pointer.
unfoldable pub kept_bytes : Bool → ℕ → Action (Option (List ℕ))
kept_bytes false len c = (ok none, c)
kept_bytes true len c =
    (if leb len (length c.send_buf) then ok (some (take len c.send_buf)) else fault, c)

abbrev pub new_node : CoapMessage → ℕ → Option (List ℕ) → SendInfo
new_node m end_time bytes = record {
  node_state = normal;
  user_context = m.user_context;
  msg_id = m.msg_id;
  acked = false;
  token_len = m.token_len;
  token = take m.token_len m.token;
  retrans_count = 0;
  start_time = end_time;
  message = bytes;
  handler = m.handler;
}

-- The new node, at the tail.
unfoldable pub append_node : CoapMessage → ℕ → Option (List ℕ) → Action (Unit {0})
append_node m end_time bytes c =
    (ok tt, record c { message_list = c.message_list ++ (new_node m end_time bytes ∷ []) })

-- `_coap_message_list_add`, which is called for a confirmable request only.
unfoldable pub message_list_add : CoapMessage → ℕ → Action (Unit {0})
unfolding require_memory kept_bytes
message_list_add m len = do
  info ← run allocate
  _ ← require_memory info
  end_time ← run (λ c. countdown_ms c.command_timeout_ms c)
  memory ← run allocate
  bytes ← kept_bytes memory len
  node ← run allocate
  _ ← require_memory node
  append_node m end_time bytes

-- A request that is confirmable waits for its answer, with the bytes that the network took. What
-- an error leaves in `send_buf` is not modelled.
unfoldable pub message_send : CoapMessage → Action (Unit {0})
message_send m = do
  size ← run (λ c. (length c.send_buf, c))
  bytes ← lift (serialize_coap_message m size)
  _ ← modify (λ c. record c { send_buf = over bytes c.send_buf })
  written ← write bytes
  if m.type == msg_con && m.code_class == msg_req then message_list_add m written else pure tt

-- `_coap_client_send_ack`
unfoldable pub send_ack : ℕ → Action (Unit {0})
send_ack msg_id = do
  typed ← lift (coap_message_type_set default_message msg_ack)
  ack ← lift (coap_message_id_set typed msg_id)
  message_send ack

-- An error that the code only logs.
abbrev pub settle : Outcome (Unit {0}) → Outcome (Unit {0})
settle (ok u) = ok tt
settle (err e) = ok tt
settle fault = fault

-- `_coap_resp_message_handle`: the message is handled also if its acknowledgement fails.
unfoldable pub resp_message_handle : CoapMessage → Action (Unit {0})
resp_message_handle m c =
    let (r, d) = (if msg_con == m.type then send_ack m.msg_id c else (ok tt, c)) in
    continue (settle r) (λ u. message_list_proc m process_resp) d

-- The kinds of messages that `_coap_message_handle` tells apart.
unfoldable pub dispatch : CoapMessage → Action (Unit {0})
dispatch m =
    if m.type == msg_ack && (m.code_class == 2 && m.code_detail == 3)
    then message_list_proc m process_ack
    else if m.type == msg_ack && not (m.code_class == 0 && m.code_detail == 0)
    then message_list_proc m process_piggy
    else if m.type == msg_con && (m.code_class == 2 && m.code_detail == 5)
    then resp_message_handle m
    else if m.type == msg_non && (m.code_class == 2 && m.code_detail == 5)
    then resp_message_handle m
    else pure tt

-- `_coap_message_handle`: the message is handled also when it could not be parsed.
unfoldable pub message_handle : List ℕ → ℕ → Action (Unit {0})
message_handle p len c =
    continue (message_after c.world.malloc zero_message p len)
      (λ m d. let (r, e) = dispatch m d in (settle r, e)) c

unfoldable pub take_read : List ReadReply → Action (List ℕ)
take_read [] c = (err ssl_read_timeout, c)
take_read (received bytes ∷ rs) c = (ok bytes, record c { world = record c.world { reads = rs } })
take_read (read_failed e ∷ rs) c = (err e, record c { world = record c.world { reads = rs } })

-- The network gives no more than the buffer holds.
unfoldable pub message_recv : Action (Unit {0})
unfolding take_read
message_recv = do
  bytes ← (λ c. take_read c.world.reads c)
  _ ← (λ c. (
    if leb (length bytes) (length c.recv_buf) then ok tt else fault,
    record c { recv_buf = over bytes c.recv_buf },
  ))
  λ c. message_handle c.recv_buf (length bytes) c

unfoldable pub is_timeout : Code → Bool
is_timeout ssl_read_timeout = true
is_timeout _ = false

unfoldable pub after_recv : Outcome (Unit {0}) → Action (Unit {0})
unfolding is_timeout
after_recv (ok u) = message_list_proc default_message process_wait
after_recv (err e) =
    if is_timeout e then message_list_proc default_message process_wait else (λ c. (err e, c))
after_recv fault = λ c. (fault, c)

-- `coap_message_cycle`
unfoldable pub message_cycle : Action (Unit {0})
unfolding after_recv
message_cycle c = let (r, d) = message_recv c in after_recv r d
