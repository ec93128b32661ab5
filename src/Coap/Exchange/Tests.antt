-- ===== src/Coap/Exchange/Tests.antt =====
-- A client with two requests that wait, and a third that is sent.
use esp_qcloud.Prelude.{
  ℕ, ◌+◌, ◌≡◌, ◌≢◌, inl, inr, List, refl, arith, some, true, false, [], ◌∷◌, replicate, All, ok,
  fault,
}
use esp_qcloud.Coap.Message.{CoapMessage, default_message, msg_ack}
use esp_qcloud.Coap.Client.{Client, SendInfo, normal}
use esp_qcloud.Coap.Waiting.{process_ack, process_piggy, process_wait, message_list_proc}
use esp_qcloud.Coap.Waiting.Answers.{piggy-gone}
use esp_qcloud.Coap.Waiting.Quiet.{NotSent, ack-quiet}
use esp_qcloud.Coap.Exchange.Expiry.{cycles, cycles-empty}

abbrev waiting : ℕ → SendInfo
waiting id = record {
  node_state = normal;
  user_context = 0;
  msg_id = id;
  acked = false;
  token_len = 1;
  token = id ∷ [];
  retrans_count = 0;
  start_time = 100;
  message = some (0x41 ∷ 1 ∷ 0 ∷ id ∷ id ∷ []);
  handler = some 7;
}

abbrev a_client : Client
a_client = record {
  message_token = 0x0a0b0c0d;
  auth_token = 1 ∷ 2 ∷ [];
  next_msg_id = 6;
  send_buf = replicate 32 0;
  recv_buf = replicate 32 0;
  command_timeout_ms = 2000;
  message_list = waiting 5 ∷ waiting 6 ∷ [];
  max_retry_count = 3;
  has_event_handler = true;
  world = record {
    clock = [];
    reads = [];
    writes = [];
    allocations = [];
    malloc = λ n. true;
    outputs = [];
  };
}

cycles-empty_example :
    ((cycles (3 + 1) a_client).0 ≡ ok tt) × ((cycles (3 + 1) a_client).1.message_list ≡ [])
cycles-empty_example =
    cycles-empty 3 a_client (omega arith) (refl, refl, refl, refl)
      ((tt, omega arith, omega arith), ((tt, omega arith, omega arith), tt))

abbrev answer : CoapMessage
answer = record default_message { type = msg_ack; code_class = 2; code_detail = 5; msg_id = 6 }

piggy-gone_example :
    ((message_list_proc answer process_piggy a_client).0 ≢ fault)
    × ((message_list_proc default_message process_wait
          (message_list_proc answer process_piggy a_client).1).0
        ≢ fault)
    × All
        (λ n. n.msg_id ≢ 6)
        (message_list_proc default_message process_wait
          (message_list_proc answer process_piggy a_client).1).1.message_list
piggy-gone_example = piggy-gone answer a_client refl (tt, (tt, tt))

abbrev a_request : CoapMessage
a_request = record default_message { msg_id = 7 }

abbrev an_ack : CoapMessage
an_ack = record default_message { type = msg_ack; msg_id = 5 }

abbrev sent_bytes : List ℕ
sent_bytes = 0x41 ∷ 1 ∷ 0 ∷ 5 ∷ 5 ∷ []

abbrev other_bytes : List ℕ
other_bytes = 0x41 ∷ 1 ∷ 0 ∷ 6 ∷ 6 ∷ []

other_bytes_differ : some other_bytes ≢ some sent_bytes
other_bytes_differ e = absurd (cc e)

ack-quiet_example :
    ((message_list_proc an_ack process_ack a_client).0 ≢ fault)
    × ((message_list_proc default_message process_wait
          (message_list_proc an_ack process_ack a_client).1).0
        ≢ fault)
    × NotSent sent_bytes
        (message_list_proc default_message process_wait
          (message_list_proc an_ack process_ack a_client).1).1.world.outputs
ack-quiet_example =
    ack-quiet sent_bytes an_ack a_client refl ((tt, inl refl), ((tt, inr other_bytes_differ), tt))
      tt
