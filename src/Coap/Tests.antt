-- ===== src/Coap/Tests.antt =====
-- A confirmable POST with a path, a query and a payload.
use esp_qcloud.Prelude.{
  ℕ, ◌≡◌, ◌≢◌, refl, arith, inl, inr, some, Bool, true, List, [], ◌∷◌, ◌++◌, length, replicate, ok,
  fault,
}
use mathlib.Core.List.{Perm}
use esp_qcloud.Coap.Message.{CoapOption, CoapMessage, default_message, coap_message_option_add}
use esp_qcloud.Coap.Message.Order.{IsSorted, coap_message_option_add_lem}
use esp_qcloud.Coap.Serialize.{
  first_byte, code_byte, serialize_header, copy, serialize_token, delta, counted, nibble, extension,
  option_bytes, format_op, serialize_options, copy_payload, serialize_payload, serialize_parts,
  or_internal, serialize_coap_message,
}
use esp_qcloud.Coap.Serialize.Sizes.{format_op-overflow, serialize_coap_message-ne-fault}
use esp_qcloud.Coap.Deserialize.{is_class, is_empty, msg_check, deserialize_coap_message}
use esp_qcloud.Coap.Deserialize.RoundTrip.{
  IsWellFormed, received, deserialize-serialize_coap_message,
}
use esp_qcloud.Coap.Deserialize.Safety.{deserialize_coap_message-ne-fault}

abbrev gives : ℕ → Bool
gives n = true

abbrev path : CoapOption
path = record { option_num = 11; val = replicate 12 0x61 }

abbrev query : CoapOption
query = record { option_num = 15; val = replicate 20 0x62 }

abbrev a_post : CoapMessage
a_post = record default_message {
  msg_id = 0x1234;
  pay_load = some (1 ∷ 2 ∷ 3 ∷ []);
  pay_load_len = 2;
  token = 9 ∷ 8 ∷ 7 ∷ 6 ∷ 0 ∷ 0 ∷ 0 ∷ 0 ∷ [];
  token_len = 4;
  op_list = path ∷ query ∷ [];
}

abbrev post_bytes : List ℕ
post_bytes =
    0x44
    ∷ 2
    ∷ 0x12
    ∷ 0x34
    ∷ 9
    ∷ 8
    ∷ 7
    ∷ 6
    ∷ 0xbc
    ∷ (replicate 12 0x61 ++ 0x4d ∷ 7 ∷ (replicate 20 0x62 ++ 0xff ∷ 1 ∷ 2 ∷ []))

a_post-IsWellFormed : IsWellFormed a_post
unfolding is_class is_empty msg_check
a_post-IsWellFormed = (
  omega arith,
  omega arith,
  refl,
  omega arith,
  omega arith,
  (omega arith, (omega arith, tt)),
  ((omega arith, omega arith), ((omega arith, omega arith), tt)),
  refl,
)

serialize_post : serialize_coap_message a_post 100 ≡ ok post_bytes
unfolding serialize_coap_message or_internal serialize_parts serialize_header first_byte code_byte
    serialize_token copy serialize_options format_op option_bytes delta counted nibble extension
    serialize_payload copy_payload
serialize_post = refl

deserialize-serialize_coap_message_example :
    deserialize_coap_message gives default_message (post_bytes ++ 0 ∷ []) (length post_bytes)
    ≡ ok (received a_post default_message)
deserialize-serialize_coap_message_example =
    deserialize-serialize_coap_message gives a_post default_message 100 0 post_bytes [] (λ n. refl)
      a_post-IsWellFormed refl refl serialize_post

deserialize_coap_message-ne-fault_example :
    deserialize_coap_message gives default_message (0x40 ∷ 1 ∷ 0 ∷ 1 ∷ 0xd1 ∷ 3 ∷ []) 5 ≢ fault
deserialize_coap_message-ne-fault_example =
    deserialize_coap_message-ne-fault gives default_message (0x40 ∷ 1 ∷ 0 ∷ 1 ∷ 0xd1 ∷ 3 ∷ []) 5
      (omega arith)

serialize_coap_message-ne-fault_example : serialize_coap_message a_post 30 ≢ fault
serialize_coap_message-ne-fault_example =
    serialize_coap_message-ne-fault a_post 30 (omega arith) (omega arith)
      (inl (omega arith), (inr (inl (omega arith)), tt))

format_op-overflow_example :
    format_op
      (record { option_num = 11; val = replicate 20 0x61 })
      0
      (counted (record { option_num = 11; val = replicate 20 0x61 }) (delta 11 0))
    ≡ fault
format_op-overflow_example =
    format_op-overflow (record { option_num = 11; val = replicate 20 0x61 }) 0 (omega arith)
      (omega arith) (omega arith)

-- The path is put before the query that is there.
coap_message_option_add_lem_example :
    (os : List CoapOption) × (coap_message_option_add gives
        (record default_message { op_list = query ∷ [] })
        11
        (replicate 12 0x61)
      ≡ ok (record default_message { op_list = os }))
    × IsSorted 0 os
    × Perm os (path ∷ query ∷ [])
coap_message_option_add_lem_example =
    coap_message_option_add_lem gives (record default_message { op_list = query ∷ [] }) 11
      (replicate 12 0x61) (omega arith, tt) refl refl
