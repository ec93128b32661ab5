-- ===== src/Coap/Waiting.antt =====
-- The list of requests that wait for an answer: `_coap_message_list_proc` and
-- `_event_message_type_set` of sdk_src/coap_client_message.c. The list is in the order of its
-- insertions; the iterator goes from its tail.
pub mod Passes
pub mod Expiry
pub mod Answers
pub mod Quiet
use esp_qcloud.Prelude.{
  ℕ, zero, suc, ◌+◌, ◌%◌, ◌^◌, Option, none, some, Bool, true, false, ◌&&◌, not, List, [], ◌∷◌,
  ◌++◌, length, take, ltb, ◌==◌, if◌then◌else◌, Outcome, ok, err, fault, ◌>>=◌,
}
use esp_qcloud.Prelude.Codes.{Code, failure}
use esp_qcloud.Coap.Message.{CoapMessage, msg_ack, msg_success, msg_client_err, msg_sdkinternal_err}
use esp_qcloud.Coap.Client.{
  Client, SendInfo, NodeState, normal, invalid, EventType, receive_ack, receive_respcontent,
  unauthorized, forbidden, internal_server_error, ack_timeout, sepresp_timeout, EventContent, whole,
  only_id, Output, to_handler, to_event, to_network, output, countdown_ms, has_time_left, allocate,
  write,
}

-- `PROCESS_ACK_CMD` to `PROCESS_WAIT_CMD`
pub data Command : Type 0 where
  process_ack process_piggy process_resp process_wait : Command

abbrev pub received_event : Command → EventType
received_event process_resp = receive_respcontent
received_event process_ack = receive_ack
received_event process_piggy = receive_ack
received_event process_wait = receive_ack

unfoldable pub event_message_type : CoapMessage → Command → EventType
event_message_type m command =
    if m.code_class == msg_success && m.code_detail == 5
    then received_event command
    else if m.code_class == msg_client_err && m.code_detail == 1
    then unauthorized
    else if m.code_class == msg_client_err && m.code_detail == 3
    then forbidden
    else internal_server_error

-- `memcmp` of as many bytes
unfoldable pub same_bytes : List ℕ → List ℕ → Bool
same_bytes [] [] = true
same_bytes [] (y ∷ ys) = false
same_bytes (x ∷ xs) [] = false
same_bytes (x ∷ xs) (y ∷ ys) = x == y && same_bytes xs ys

-- An event, if the client has a handler for it.
abbrev pub notify : EventType → EventContent → Client → Client
notify e content c = if c.has_event_handler then output (to_event e content) c else c

unfoldable pub visit_ack : SendInfo → CoapMessage → Client → SendInfo × Client
visit_ack n m c =
    let (end_time, c') = countdown_ms c.command_timeout_ms c in
    if n.msg_id == m.msg_id then (record n { acked = true; start_time = end_time }, c') else (n, c)

unfoldable pub has_token : SendInfo → CoapMessage → Bool
has_token n m =
    not (n.token_len == 0)
    && (n.token_len == m.token_len
        && same_bytes (take m.token_len n.token) (take m.token_len m.token))

-- The request's own handler, or else the client's, whose event gives the message the request's id.
unfoldable pub answer_resp : SendInfo → Option ℕ → CoapMessage → Client → CoapMessage × Client
answer_resp n (some h) m c =
    let m' = record m { user_context = n.user_context } in
    (m', output (to_handler h m' n.user_context) c)
answer_resp n none m c =
    let m' = record m { user_context = n.user_context } in
    let m'' = record m' { msg_id = n.msg_id } in
    if c.has_event_handler
    then (m'', output (to_event (event_message_type m process_resp) (whole m'')) c)
    else (m', c)

unfoldable pub visit_resp : SendInfo → CoapMessage → Client → SendInfo × CoapMessage × Client
visit_resp n m c =
    let (m', c') = answer_resp n n.handler m c in
    if has_token n m then (record n { node_state = invalid }, m', c') else (n, m, c)

unfoldable pub answer_piggy : SendInfo → Option ℕ → CoapMessage → Client → Client
answer_piggy n (some h) m c = output (to_handler h m n.user_context) c
answer_piggy n none m c = notify (event_message_type m process_piggy) (only_id m.msg_id) c

unfoldable pub visit_piggy : SendInfo → CoapMessage → Client → SendInfo × CoapMessage × Client
visit_piggy n m c =
    let m' = record m { user_context = n.user_context } in
    if n.msg_id == m.msg_id
    then (record n { acked = true; node_state = invalid }, m', answer_piggy n n.handler m' c)
    else (n, m, c)

-- A request is sent again. What the network answers changes nothing.
unfoldable pub retransmit : Option (List ℕ) → Client → Outcome Client
retransmit none c = fault
retransmit (some bytes) c = ok (write bytes c).1

-- The end of a request that nobody has answered.
unfoldable pub give_up : SendInfo → Option ℕ → CoapMessage → Client → CoapMessage × Client
give_up n (some h) m c =
    let m' = record m {
      type = msg_ack;
      user_context = n.user_context;
      code_class = msg_sdkinternal_err;
      code_detail = 0;
      msg_id = n.msg_id;
    } in
    (m', output (to_handler h m' n.user_context) c)
give_up n none m c =
    (m, notify (if n.acked then sepresp_timeout else ack_timeout) (only_id n.msg_id) c)

-- The node as it stays in the list, or `none` when it is removed.
unfoldable pub visit_expired :
    SendInfo → CoapMessage → Client → Outcome (Option SendInfo × CoapMessage × Client)
visit_expired n m c =
    let (end_time, c') = countdown_ms c.command_timeout_ms c in
    let (m', gone) = give_up n n.handler m c in
    if ltb n.retrans_count c.max_retry_count && not n.acked
    then (do
      c'' ← retransmit n.message c'
      ok (
        some (record n { start_time = end_time; retrans_count = (n.retrans_count + 1) % 256 }),
        m,
        c'',
      ))
    else ok (none, m', gone)

unfoldable pub visit_wait :
    NodeState → SendInfo → CoapMessage → Client → Outcome (Option SendInfo × CoapMessage × Client)
visit_wait invalid n m c = ok (none, m, c)
visit_wait normal n m c =
    let (left, c') = has_time_left n.start_time c in
    if left then ok (some n, m, c') else visit_expired n m c'

unfoldable pub visit :
    Command → SendInfo → CoapMessage → Client → Outcome (Option SendInfo × CoapMessage × Client)
visit process_ack n m c = let (n', c') = visit_ack n m c in ok (some n', m, c')
visit process_piggy n m c = let (n', m', c') = visit_piggy n m c in ok (some n', m', c')
visit process_resp n m c = let (n', m', c') = visit_resp n m c in ok (some n', m', c')
visit process_wait n m c = visit_wait n.node_state n m c

abbrev pub keep : Option SendInfo → List SendInfo → List SendInfo
keep none ns = ns
keep (some n) ns = n ∷ ns

unfoldable pub pass :
    Command → List SendInfo → CoapMessage → Client → Outcome (List SendInfo × CoapMessage × Client)
pass command [] m c = ok ([], m, c)
pass command (n ∷ ns) m c = do
  (ns', m', c') ← pass command ns m c
  (n', m'', c'') ← visit command n m' c'
  ok (keep n' ns', m'', c'')

abbrev pub put_back :
    Outcome (List SendInfo × CoapMessage × Client) → Client → Outcome (Unit {0}) × Client
put_back (ok (ns, m, c')) c = (ok tt, record c' { message_list = ns })
put_back (err e) c = (err e, c)
put_back fault c = (fault, c)

-- An empty list is an error; without memory for the iterator nothing is done.
unfoldable pub message_list_proc : CoapMessage → Command → Client → Outcome (Unit {0}) × Client
message_list_proc m command c =
    let (iterator, d) = allocate c in
    if length c.message_list == 0
    then (err failure, c)
    else if iterator
    then put_back (pass command d.message_list m d) d
    else (ok tt, d)
