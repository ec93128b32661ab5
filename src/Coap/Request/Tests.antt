-- ===== src/Coap/Request/Tests.antt =====
-- A request of the user with two bytes of topic.
use esp_qcloud.Prelude.{
  ℕ, ◌≡◌, refl, arith, none, Bool, true, false, List, [], ◌∷◌, ◌++◌, length, replicate, ok,
}
use esp_qcloud.Coap.Message.{zero_message}
use esp_qcloud.Coap.Serialize.{
  first_byte, code_byte, serialize_header, copy, serialize_token, delta, counted, nibble, extension,
  option_bytes, format_op, serialize_options, copy_payload, serialize_payload, serialize_parts,
  or_internal, serialize_coap_message,
}
use esp_qcloud.Coap.Deserialize.{deserialize_coap_message}
use esp_qcloud.Coap.Deserialize.RoundTrip.{received}
use esp_qcloud.Coap.Client.{Client}
use esp_qcloud.Coap.Exchange.Track.{Tracks}
use esp_qcloud.Coap.Request.{SendMsgParams, request}
use esp_qcloud.Coap.Request.Wire.{made, request-received}
use esp_qcloud.Coap.Request.Send.{send_message, SentWith, send_message-Tracks}

abbrev gives : ℕ → Bool
gives n = true

abbrev params : SendMsgParams
params = record { need_resp = false; pay_load = 9 ∷ []; user_context = 5; resp_callback = none }

abbrev topic : List ℕ
topic = 0x61 ∷ 0x62 ∷ []

abbrev four : List ℕ
four = 1 ∷ 2 ∷ 3 ∷ 4 ∷ []

abbrev request_bytes : List ℕ
request_bytes =
    0x44 ∷ 2 ∷ 0 ∷ 7 ∷ 1 ∷ 2 ∷ 3 ∷ 4 ∷ 0xb2 ∷ 0x61 ∷ 0x62 ∷ 0xd2 ∷ 37 ∷ 8 ∷ 8 ∷ 0x11 ∷ 0x30 ∷ 0xff
    ∷ 9 ∷ []

sent_bytes : serialize_coap_message (made (8 ∷ 8 ∷ []) 7 four topic params) 64 ≡ ok request_bytes
unfolding serialize_coap_message or_internal serialize_parts serialize_header first_byte code_byte
    serialize_token copy serialize_options format_op option_bytes delta counted nibble extension
    serialize_payload copy_payload
sent_bytes = refl

request-received_example :
    (request gives (8 ∷ 8 ∷ []) 7 four topic params ≡ ok (made (8 ∷ 8 ∷ []) 7 four topic params))
    × (deserialize_coap_message gives zero_message (request_bytes ++ 0 ∷ []) (length request_bytes)
        ≡ ok (received (made (8 ∷ 8 ∷ []) 7 four topic params) zero_message))
request-received_example =
    request-received gives (8 ∷ 8 ∷ []) topic 7 1 2 3 4 64 0 params request_bytes [] (λ n. refl)
      (omega arith) (omega arith) (omega arith) sent_bytes

abbrev a_client : Client
a_client = record {
  message_token = 0x04030201;
  auth_token = 8 ∷ 8 ∷ [];
  next_msg_id = 6;
  send_buf = replicate 64 0;
  recv_buf = replicate 64 0;
  command_timeout_ms = 2000;
  message_list = [];
  max_retry_count = 5;
  has_event_handler = false;
  world = record {
    clock = [];
    reads = [];
    writes = [];
    allocations = [];
    malloc = gives;
    outputs = [];
  };
}

send_message-Tracks_example :
    Tracks a_client.message_list (SentWith a_client params) (send_message topic params a_client)
send_message-Tracks_example = send_message-Tracks topic params a_client (omega arith)
