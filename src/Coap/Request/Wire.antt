-- ===== src/Coap/Request/Wire.antt =====
-- A request of the user on the wire.
use esp_qcloud.Prelude.{
  ℕ, suc, ◌%◌, ◌^◌, ◌≤◌, ◌<◌, ◌≡◌, refl, ap, arith, length-replicate, some, Bool, true, false, List,
  [], ◌∷◌, ◌++◌, length, replicate, ok,
}
use esp_qcloud.Coap.Message.{
  CoapOption, CoapMessage, default_message, zero_message, over, coap_message_type_set,
  coap_message_code_set, coap_message_id_set, coap_message_token_set, copy_payload,
  coap_message_payload_set, coap_option_init, insert_after, insert_option, add_made,
  coap_message_option_add,
}
use esp_qcloud.Coap.Serialize.{serialize_coap_message}
use esp_qcloud.Coap.Deserialize.{is_class, is_empty, msg_check, deserialize_coap_message}
use esp_qcloud.Coap.Deserialize.RoundTrip.{
  IsWellFormed, received, deserialize-serialize_coap_message,
}
use esp_qcloud.Coap.Request.{
  SendMsgParams, post, with_pay_load, add_option, need_resp_val, with_callback, request,
}

-- The three options of a request.
abbrev pub options : List ℕ → List ℕ → SendMsgParams → List CoapOption
options topic auth_token p =
    record { option_num = 11; val = topic }
    ∷ record { option_num = 61; val = auth_token }
    ∷ record { option_num = 62; val = need_resp_val p.need_resp }
    ∷ []

-- The request, written out.
abbrev pub made : List ℕ → ℕ → List ℕ → List ℕ → SendMsgParams → CoapMessage
made auth_token msg_id token topic p = with_callback p (record default_message {
  msg_id = msg_id;
  token = token ++ (0 ∷ 0 ∷ 0 ∷ 0 ∷ []);
  token_len = 4;
  pay_load = some p.pay_load;
  pay_load_len = length p.pay_load;
  op_list = options topic auth_token p;
})

pub post-eq :
    (msg_id t0 t1 t2 t3 : ℕ)
    → msg_id < 2 ^ 16
    → post msg_id (t0 ∷ t1 ∷ t2 ∷ t3 ∷ [])
      ≡ ok (record default_message {
        msg_id = msg_id;
        token = t0 ∷ t1 ∷ t2 ∷ t3 ∷ 0 ∷ 0 ∷ 0 ∷ 0 ∷ [];
        token_len = 4;
      })
unfolding post coap_message_type_set coap_message_code_set coap_message_id_set
    coap_message_token_set
post-eq msg_id t0 t1 t2 t3 h = ground arith

add_option-eq :
    (malloc : ℕ → Bool) (num : ℕ) (val : List ℕ) (m : CoapMessage)
    → ((n : ℕ) → malloc n ≡ true)
    → num < 2 ^ 16
    → add_option malloc num val m
      ≡ ok (record m { op_list = insert_option m.op_list (record { option_num = num; val = val }) })
unfolding add_option coap_message_option_add coap_option_init add_made
add_option-eq malloc num val m mem h =
    let same : num % 2 ^ 16 ≡ num = omega arith in rw (mem 16, mem (length val), same) refl

over-replicate : (bs : List ℕ) → over bs (replicate (length bs) 0) ≡ bs
over-replicate [] = refl
over-replicate (b ∷ bs) = ap (λ l. b ∷ l) (over-replicate bs)

with_pay_load-eq :
    (pay_load : List ℕ) (m : CoapMessage)
    → m.pay_load_len ≡ 0
    → with_pay_load pay_load m
      ≡ ok (record m { pay_load = some pay_load; pay_load_len = length pay_load })
unfolding with_pay_load coap_message_payload_set copy_payload
with_pay_load-eq [] m e = refl
with_pay_load-eq (b ∷ bs) m e =
    rw (length-replicate {A = ℕ} (suc (length bs)) 0, over-replicate (b ∷ bs)) (ground arith)

request-made :
    (malloc : ℕ → Bool) (auth_token topic : List ℕ) (msg_id t0 t1 t2 t3 : ℕ) (p : SendMsgParams)
    → ((n : ℕ) → malloc n ≡ true)
    → msg_id < 2 ^ 16
    → request malloc auth_token msg_id (t0 ∷ t1 ∷ t2 ∷ t3 ∷ []) topic p
      ≡ ok (made auth_token msg_id (t0 ∷ t1 ∷ t2 ∷ t3 ∷ []) topic p)
unfolding request insert_option insert_after
request-made malloc auth_token topic msg_id t0 t1 t2 t3 p mem h =
    let start = record default_message {
      msg_id = msg_id;
      token = t0 ∷ t1 ∷ t2 ∷ t3 ∷ 0 ∷ 0 ∷ 0 ∷ 0 ∷ [];
      token_len = 4;
    } in
    let loaded = record start { pay_load = some p.pay_load; pay_load_len = length p.pay_load } in
    let one = record loaded { op_list = record { option_num = 11; val = topic } ∷ [] } in
    let two = record one {
      op_list =
          record { option_num = 11; val = topic }
          ∷ record { option_num = 61; val = auth_token }
          ∷ [];
    } in
    rw
      (
        post-eq msg_id t0 t1 t2 t3 h,
        with_pay_load-eq p.pay_load start refl,
        add_option-eq malloc 11 topic loaded mem (omega arith),
        add_option-eq malloc 61 auth_token one mem (omega arith),
        add_option-eq malloc 62 (need_resp_val p.need_resp) two mem (omega arith),
      )
      refl

need_resp_val-short : (b : Bool) → length (need_resp_val b) < 65805
need_resp_val-short true = omega arith
need_resp_val-short false = omega arith

made-IsWellFormed :
    (auth_token topic token : List ℕ) (msg_id : ℕ) (p : SendMsgParams)
    → msg_id < 2 ^ 16
    → length topic ≤ 128
    → length auth_token < 65805
    → IsWellFormed (made auth_token msg_id token topic p)
unfolding is_class is_empty msg_check
made-IsWellFormed auth_token topic token msg_id p h short fits = (
  omega arith,
  omega arith,
  refl,
  omega arith,
  h,
  (omega arith, (omega arith, (omega arith, tt))),
  (
    (omega arith, omega arith),
    ((omega arith, fits), ((omega arith, need_resp_val-short p.need_resp), tt)),
  ),
  refl,
)

-- A request for a topic of at most 128 bytes, with a token of four bytes and an authentication token
-- that an option can carry, is received as it was made if the allocator gives all memory: whenever
-- its message is written, the bytes are read back as a message with the same type, code, id, token
-- and payload and with three options, the topic, the authentication token and the need of an answer.
pub request-received :
    (malloc : ℕ → Bool) (auth_token topic : List ℕ) (msg_id t0 t1 t2 t3 len next : ℕ)
    (p : SendMsgParams) (bytes rest : List ℕ)
    → ((n : ℕ) → malloc n ≡ true)
    → msg_id < 2 ^ 16
    → length topic ≤ 128
    → length auth_token < 65805
    → serialize_coap_message (made auth_token msg_id (t0 ∷ t1 ∷ t2 ∷ t3 ∷ []) topic p) len
      ≡ ok bytes
    → (request malloc auth_token msg_id (t0 ∷ t1 ∷ t2 ∷ t3 ∷ []) topic p
        ≡ ok (made auth_token msg_id (t0 ∷ t1 ∷ t2 ∷ t3 ∷ []) topic p))
      × (deserialize_coap_message malloc zero_message (bytes ++ next ∷ rest) (length bytes)
          ≡ ok (received (made auth_token msg_id (t0 ∷ t1 ∷ t2 ∷ t3 ∷ []) topic p) zero_message))
request-received malloc auth_token topic msg_id t0 t1 t2 t3 len next p bytes rest mem h short fits
      e =
    let token = t0 ∷ t1 ∷ t2 ∷ t3 ∷ [] in
    (
      request-made malloc auth_token topic msg_id t0 t1 t2 t3 p mem h,
      deserialize-serialize_coap_message malloc (made auth_token msg_id token topic p) zero_message
          len next bytes rest mem (made-IsWellFormed auth_token topic token msg_id p h short fits)
          refl refl e,
    )
