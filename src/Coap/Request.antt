-- ===== src/Coap/Request.antt =====
-- The requests of the user and of the authentication: `IOT_COAP_SendMessage` and the reading of an
-- answer (sdk_src/coap_client.c), and the request of `coap_client_auth` (sdk_src/coap_client_auth.c).
-- `malloc` says for a size whether the allocator gives it; the caller's pointers are not null. What
-- HAL_Snprintf writes is a parameter, `path` and `pay_load` of the authentication.
mod Tests
pub mod Wire
pub mod Made
pub mod Send
use esp_qcloud.Prelude.{
  ℕ, Option, none, some, Bool, true, false, ◌&&◌, not, List, [], ◌∷◌, length, replicate, ltb, ◌==◌,
  if◌then◌else◌, Outcome, ok, err, fault, ◌>>=◌,
}
use esp_qcloud.Prelude.Codes.{failure}
use esp_qcloud.Coap.Message.{
  CoapMessage, default_message, msg_con, msg_req, msg_success, msg_client_err, msg_server_err,
  msg_sdkinternal_err, get_next_coap_msg_id, get_coap_message_token, coap_message_type_set,
  coap_message_code_set, coap_message_id_set, coap_message_token_set, coap_message_payload_set,
  coap_message_option_add,
}
use esp_qcloud.Coap.Client.{
  EventType, ack_timeout, receive_respcontent, unauthorized, forbidden, internal_server_error,
  sepresp_timeout,
}

pub record SendMsgParams : Type 0 where
  pub need_resp : Bool
  pub pay_load : List ℕ
  pub user_context : ℕ
  pub resp_callback : Option ℕ

-- COAP_MSG_URI_PATH, COAP_MSG_AUTH_TOKEN and COAP_MSG_NEED_RESP
abbrev pub uri_path : ℕ
uri_path = 11

abbrev pub auth_token_option : ℕ
auth_token_option = 61

abbrev pub need_resp_option : ℕ
need_resp_option = 62

abbrev pub uri_path_max_len : ℕ
uri_path_max_len = 128

-- A setter whose result the caller drops; one that fails leaves the message as it was.
abbrev pub or_same : CoapMessage → Outcome CoapMessage → Outcome CoapMessage
or_same m (ok m') = ok m'
or_same m (err e) = ok m
or_same m fault = fault

-- The start of every request: a confirmable POST with an id and a token.
unfoldable pub post : ℕ → List ℕ → Outcome CoapMessage
post msg_id token = do
  m1 ← or_same default_message (coap_message_type_set default_message msg_con)
  m2 ← or_same m1 (coap_message_code_set m1 msg_req 2)
  m3 ← or_same m2 (coap_message_id_set m2 msg_id)
  or_same m3 (coap_message_token_set m3 token)

-- A payload that has its memory.
unfoldable pub with_pay_load : List ℕ → CoapMessage → Outcome CoapMessage
with_pay_load pay_load m =
    let m' = record m { pay_load = some (replicate (length pay_load) 0) } in
    or_same m' (coap_message_payload_set m' pay_load)

unfoldable pub add_option : (ℕ → Bool) → ℕ → List ℕ → CoapMessage → Outcome CoapMessage
add_option malloc num val m = or_same m (coap_message_option_add malloc m num val)

-- The byte of `need_resp`, "0" or "1", and the callback, which is set for a request that needs an
-- answer.
abbrev pub need_resp_val : Bool → List ℕ
need_resp_val true = 0x31 ∷ []
need_resp_val false = 0x30 ∷ []

abbrev pub with_callback : SendMsgParams → CoapMessage → CoapMessage
with_callback p m = record m {
  handler = if p.need_resp then p.resp_callback else m.handler;
  user_context = p.user_context;
}

unfoldable pub request :
    (ℕ → Bool) → List ℕ → ℕ → List ℕ → List ℕ → SendMsgParams → Outcome CoapMessage
request malloc auth_token msg_id token topic p = do
  m1 ← post msg_id token
  m2 ← with_pay_load p.pay_load m1
  m3 ← add_option malloc uri_path topic m2
  m4 ← add_option malloc auth_token_option auth_token m3
  m5 ← add_option malloc need_resp_option (need_resp_val p.need_resp) m4
  ok (with_callback p m5)

-- The request for a token: its callback is `_coap_client_auth_callback`, with the client.
unfoldable pub auth_request :
    (ℕ → Bool) → ℕ → List ℕ → List ℕ → List ℕ → ℕ → ℕ → Outcome CoapMessage
auth_request malloc msg_id token path pay_load callback client = do
  m1 ← post msg_id token
  m2 ← add_option malloc uri_path path m1
  m3 ← add_option malloc need_resp_option (need_resp_val false) m2
  with_pay_load pay_load (record m3 { handler = some callback; user_context = client })

-- `IOT_COAP_GetMessagePayload`
unfoldable pub get_message_payload : CoapMessage → Outcome (Option (List ℕ) × ℕ)
get_message_payload m =
    if not (m.code_class == msg_success && m.code_detail == 5)
    then err failure
    else ok (m.pay_load, m.pay_load_len)

-- `IOT_COAP_GetMessageCode`
unfoldable pub get_message_code : CoapMessage → EventType
get_message_code m =
    if m.code_class == msg_success
    then receive_respcontent
    else if m.code_class == msg_client_err
    then (if m.code_detail == 1 then unauthorized else forbidden)
    else if m.code_class == msg_server_err
    then internal_server_error
    else if m.code_class == msg_sdkinternal_err
    then sepresp_timeout
    else ack_timeout
