-- ===== src/Coap/Deserialize.antt =====
-- Reading a CoAP message: sdk_src/coap_client_deserialize.c. A function takes the memory from `buf`
-- on, which may go on behind the `len` bytes of the message, and returns what it stores and the
-- number of bytes that it parsed. A 16-bit load is that of a little-endian host.
pub mod Header
pub mod Options
pub mod RoundTrip
pub mod Safety
use esp_qcloud.Prelude.{
  ℕ, zero, suc, ◌+◌, ◌-◌, ◌*◌, ◌%◌, ◌/◌, ◌^◌, Option, none, some, Bool, true, false, ◌&&◌, ◌||◌,
  not, List, [], ◌∷◌, ◌++◌, length, take, drop, ltb, leb, ◌==◌, if◌then◌else◌, Outcome, ok, err,
  fault, ◌>>=◌,
}
use esp_qcloud.Prelude.Codes.{Code, failure, coap_data_size, coap_badmsg, coap_internal}
use esp_qcloud.Coap.Message.{
  CoapOption, CoapMessage, zero_message, coap_option_init, over, max_token_len, msg_non, msg_rst,
  msg_req, msg_success, msg_client_err, msg_server_err,
}
use esp_qcloud.Coap.Serialize.{negative_errno, copy, or_internal}

unfoldable pub byte_at : ℕ → List ℕ → Outcome ℕ
byte_at i [] = fault
byte_at zero (b ∷ bs) = ok b
byte_at (suc i) (b ∷ bs) = byte_at i bs

-- `Swap16` of the two bytes that are loaded from `p`.
unfoldable pub load16 : List ℕ → Outcome ℕ
load16 p = do
  low ← byte_at 0 p
  high ← byte_at 1 p
  let word = low + high * 2 ^ 8
  ok (word / 2 ^ 8 % 2 ^ 8 + word % 2 ^ 8 * 2 ^ 8)

unfoldable pub is_class : ℕ → Bool
is_class c = c == msg_req || (c == msg_success || (c == msg_client_err || c == msg_server_err))

unfoldable pub deserialize_header : CoapMessage → List ℕ → ℕ → Outcome (CoapMessage × ℕ)
unfolding is_class
deserialize_header m p len = if ltb len 4 then err coap_data_size else do
  b0 ← byte_at 0 p
  if not (b0 / 2 ^ 6 % 4 == 1) then err negative_errno else do
    let token_len = b0 % 16
    if ltb max_token_len token_len then err coap_data_size else do
      b1 ← byte_at 1 p
      if not (is_class (b1 / 2 ^ 5 % 8)) then err coap_badmsg else do
        id ← load16 (drop 2 p)
        ok (
          record m {
            version = 1;
            type = b0 / 2 ^ 4 % 4;
            token_len = token_len;
            code_detail = b1 % 32;
            code_class = b1 / 2 ^ 5 % 8;
            msg_id = id;
          },
          4,
        )

unfoldable pub deserialize_token : CoapMessage → List ℕ → ℕ → Outcome (CoapMessage × ℕ)
deserialize_token m p len =
    if ltb len m.token_len
    then err coap_data_size
    else do bytes ← copy m.token_len p; ok (record m { token = over bytes m.token }, m.token_len)

-- A field of an option, from its four bits: its value, what is left of `p`, and of `len`.
unfoldable pub read_field : ℕ → List ℕ → ℕ → Outcome (ℕ × List ℕ × ℕ)
read_field field p len =
    if field == 13
    then (if ltb len 1
        then err coap_data_size
        else do b ← byte_at 0 p; ok (field + b, drop 1 p, len - 1))
    else if field == 14
    then (if ltb len 2
        then err coap_data_size
        else do w ← load16 p; ok (269 + w, drop 2 p, len - 2))
    else ok (field, p, len)

-- The number of the list's last option, or 0.
unfoldable pub last_num : List CoapOption → ℕ
last_num [] = 0
last_num (o ∷ []) = o.option_num
last_num (o ∷ p ∷ os) = last_num (p ∷ os)

add_last : List CoapOption → Option CoapOption → Outcome (List CoapOption)
add_last ops none = err failure
add_last ops (some o) = ok (ops ++ (o ∷ []))

-- The options with the new one, and the bytes parsed.
unfoldable pub deserialize_option :
    (ℕ → Bool) → List CoapOption → List ℕ → ℕ → Outcome (List CoapOption × ℕ)
unfolding add_last
deserialize_option malloc ops p len = if ltb len 1 then err coap_data_size else do
  b ← byte_at 0 p
  if b / 2 ^ 4 % 16 == 15 || b % 16 == 15 then err coap_data_size else do
    (op_delta, p1, len1) ← read_field (b / 2 ^ 4 % 16) (drop 1 p) (len - 1)
    (op_len, p2, len2) ← read_field (b % 16) p1 len1
    if ltb len2 op_len then err coap_data_size else do
      val ← copy op_len p2
      ops' ← add_last ops (coap_option_init malloc ((last_num ops + op_delta) % 2 ^ 32) val)
      ok (ops', len - len2 + op_len)

-- `while (1)`, by fuel: a round that goes on parses a byte at least. The first byte is looked at
-- before the length. The result is the options and the bytes parsed.
unfoldable pub options_loop :
    ℕ → (ℕ → Bool) → List CoapOption → List ℕ → ℕ → ℕ → Outcome (List CoapOption × ℕ)
options_loop zero malloc ops p len parsed = fault
options_loop (suc fuel) malloc ops p len parsed = do
  b ← byte_at 0 p
  if b % 256 == 0xff || len == 0 then ok (ops, parsed) else do
    (ops', num) ← deserialize_option malloc ops p len
    options_loop fuel malloc ops' (drop num p) (len - num) (parsed + num)

unfoldable pub deserialize_options :
    (ℕ → Bool) → CoapMessage → List ℕ → ℕ → Outcome (CoapMessage × ℕ)
deserialize_options malloc m p len = do
  (ops, num) ← options_loop (len + 1) malloc m.op_list p len 0
  ok (record m { op_list = ops }, num)

unfoldable pub deserialize_payload : (ℕ → Bool) → CoapMessage → List ℕ → ℕ → Outcome CoapMessage
deserialize_payload malloc m p len = if len == 0 then ok m else do
  b ← byte_at 0 p
  if not (b % 256 == 0xff)
      then err coap_data_size
      else if len - 1 == 0
      then err coap_data_size
      else if not (malloc (len - 1))
      then err negative_errno
      else (do
        bytes ← copy (len - 1) (drop 1 p)
        ok (record m { pay_load = some bytes; pay_load_len = len - 1 }))

unfoldable pub is_empty : List CoapOption → Bool
is_empty [] = true
is_empty (o ∷ os) = false

unfoldable pub msg_check : CoapMessage → Outcome (Unit {0})
unfolding is_empty
msg_check m =
    if m.code_class == 0 && m.code_detail == 0
    then (if m.type == msg_non
          || (not (m.token_len == 0) || (not (is_empty m.op_list) || not (m.pay_load_len == 0)))
        then err coap_data_size
        else ok tt)
    else (if m.type == msg_rst then err coap_data_size else ok tt)

unfoldable pub deserialize_parts : (ℕ → Bool) → CoapMessage → List ℕ → ℕ → Outcome CoapMessage
deserialize_parts malloc m p len = do
  (m1, n1) ← deserialize_header m p len
  (m2, n2) ← deserialize_token m1 (drop n1 p) (len - n1)
  (m3, n3) ← deserialize_options malloc m2 (drop n2 (drop n1 p)) (len - n1 - n2)
  deserialize_payload malloc m3 (drop n3 (drop n2 (drop n1 p))) (len - n1 - n2 - n3)

-- A message that could not be parsed is destroyed: it is all 0 then. One that fails the check
-- stays as it was parsed.
unfoldable pub deserialize_coap_message :
    (ℕ → Bool) → CoapMessage → List ℕ → ℕ → Outcome CoapMessage
deserialize_coap_message malloc m p len = do
  parsed ← or_internal (deserialize_parts malloc m p len)
  _ ← msg_check parsed
  ok parsed

or_zero : Outcome CoapMessage → Outcome CoapMessage
or_zero (ok parsed) = ok parsed
or_zero (err e) = ok zero_message
or_zero fault = fault

-- The caller's message after `deserialize_coap_message`, whatever that returns.
unfoldable pub message_after : (ℕ → Bool) → CoapMessage → List ℕ → ℕ → Outcome CoapMessage
unfolding or_zero
message_after malloc m p len = or_zero (deserialize_parts malloc m p len)
