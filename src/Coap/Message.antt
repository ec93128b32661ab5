-- ===== src/Coap/Message.antt =====
-- CoAP messages and how they are built: `CoAPMessage` of sdk_src/internal_inc/coap_client.h and
-- the setters of sdk_src/coap_client_common.c. A list of options is in its order of links, with
-- `last` its end. A `char` is a byte from 0 to 255.
pub mod Order
use esp_qcloud.Prelude.{
  ℕ, zero, suc, ◌+◌, ◌%◌, ◌/◌, ◌^◌, ◌≤◌, Option, none, some, Bool, true, false, List, [], ◌∷◌, ◌++◌,
  length, take, drop, replicate, ltb, leb, ◌==◌, if◌then◌else◌, Outcome, ok, err, fault, ◌>>=◌, map,
}
use esp_qcloud.Prelude.Codes.{Code, inval, failure}

pub record CoapOption : Type 0 where
  pub option_num : ℕ
  -- The `val_len` bytes behind `val`.
  pub val : List ℕ

pub record CoapMessage : Type 0 where
  pub version : ℕ
  pub type : ℕ
  pub code_class : ℕ
  pub code_detail : ℕ
  pub msg_id : ℕ
  -- The memory behind `pay_load`; `none` is a null pointer.
  pub pay_load : Option (List ℕ)
  pub pay_load_len : ℕ
  -- The 8 bytes of the array.
  pub token : List ℕ
  pub token_len : ℕ
  pub op_list : List CoapOption
  pub handler : Option ℕ
  pub user_context : ℕ

-- `CoAPMsgType`
abbrev pub msg_con : ℕ
msg_con = 0

abbrev pub msg_non : ℕ
msg_non = 1

abbrev pub msg_ack : ℕ
msg_ack = 2

abbrev pub msg_rst : ℕ
msg_rst = 3

-- `CoAPMessageClass`
abbrev pub msg_req : ℕ
msg_req = 0

abbrev pub msg_success : ℕ
msg_success = 2

abbrev pub msg_client_err : ℕ
msg_client_err = 4

abbrev pub msg_server_err : ℕ
msg_server_err = 5

abbrev pub msg_sdkinternal_err : ℕ
msg_sdkinternal_err = 6

-- COAP_MSG_MAX_TOKEN_LEN
abbrev pub max_token_len : ℕ
max_token_len = 8

abbrev pub max_msg_id : ℕ
max_msg_id = 65535

-- DEFAULT_COAP_MESSAGE
abbrev pub default_message : CoapMessage
default_message = record {
  version = 1;
  type = msg_con;
  code_class = msg_req;
  code_detail = 2;
  msg_id = 0;
  pay_load = none;
  pay_load_len = 0;
  token = replicate max_token_len 0;
  token_len = 0;
  op_list = [];
  handler = none;
  user_context = 0;
}

-- The memory of a message after `memset` with 0.
abbrev pub zero_message : CoapMessage
zero_message = record default_message { version = 0; code_detail = 0 }

unfoldable pub get_next_coap_msg_id : ℕ → ℕ
get_next_coap_msg_id next_msg_id =
    if max_msg_id == next_msg_id then 1 else (next_msg_id + 1) % 2 ^ 16

-- The four bytes of the token, and the client's next one.
unfoldable pub get_coap_message_token : ℕ → List ℕ × ℕ
get_coap_message_token value = (
  value % 256 ∷ value / 2 ^ 8 % 256 ∷ value / 2 ^ 16 % 256 ∷ value / 2 ^ 24 % 256 ∷ [],
  (value + 1) % 2 ^ 32,
)

unfoldable pub coap_message_type_set : CoapMessage → ℕ → Outcome CoapMessage
coap_message_type_set m type =
    if type == msg_con
    then ok (record m { type = type })
    else if type == msg_non
    then ok (record m { type = type })
    else if type == msg_ack
    then ok (record m { type = type })
    else if type == msg_rst
    then ok (record m { type = type })
    else err inval

unfoldable pub coap_message_code_set : CoapMessage → ℕ → ℕ → Outcome CoapMessage
coap_message_code_set m code_class code_detail =
    if ltb 7 code_class
    then err inval
    else if ltb 31 code_detail
    then err inval
    else ok (record m { code_class = code_class; code_detail = code_detail })

unfoldable pub coap_message_id_set : CoapMessage → ℕ → Outcome CoapMessage
coap_message_id_set m msg_id =
    if ltb max_msg_id msg_id then err inval else ok (record m { msg_id = msg_id })

-- `memcpy` into the front of an array that is long enough.
abbrev pub over : List ℕ → List ℕ → List ℕ
over bytes memory = bytes ++ drop (length bytes) memory

-- `len` is the length of `buf`.
unfoldable pub coap_message_token_set : CoapMessage → List ℕ → Outcome CoapMessage
coap_message_token_set m buf =
    if ltb max_token_len (length buf)
    then err inval
    else ok (record m { token = over buf m.token; token_len = length buf })

unfoldable pub copy_payload : CoapMessage → List ℕ → Option (List ℕ) → Outcome CoapMessage
copy_payload m buf none = err failure
copy_payload m buf (some memory) =
    if leb (length buf) (length memory)
    then ok (record m { pay_load = some (over buf memory); pay_load_len = length buf })
    else fault

-- The message's memory is the caller's, and its size is not tested. An error has reset the length.
unfoldable pub coap_message_payload_set : CoapMessage → List ℕ → Outcome CoapMessage
unfolding copy_payload
coap_message_payload_set m buf =
    if length buf == 0 then ok (record m { pay_load_len = 0 }) else copy_payload m buf m.pay_load

-- `qcloud_iot_coap_option_init`: the number is cut to 16 bits. `malloc` says for a size whether the
-- allocator gives that much; an option takes 16 bytes on a 32-bit target.
unfoldable pub coap_option_init : (ℕ → Bool) → ℕ → List ℕ → Option CoapOption
coap_option_init malloc num val =
    if malloc 16
    then (if malloc (length val)
        then some (record { option_num = num % 2 ^ 16; val = val })
        else none)
    else none

-- The loop from `prev` on: an option goes before the first one that has a greater number.
unfoldable pub insert_after : CoapOption → List CoapOption → CoapOption → List CoapOption
insert_after prev [] option = prev ∷ option ∷ []
insert_after prev (n ∷ ns) option =
    let rest = insert_after n ns option in
    if leb prev.option_num option.option_num
    then (if ltb option.option_num n.option_num then prev ∷ option ∷ n ∷ ns else prev ∷ rest)
    else prev ∷ rest

unfoldable pub insert_option : List CoapOption → CoapOption → List CoapOption
insert_option [] option = option ∷ []
insert_option (first ∷ ns) option =
    let rest = insert_after first ns option in
    if ltb option.option_num first.option_num then option ∷ first ∷ ns else rest

unfoldable pub add_made : CoapMessage → Option CoapOption → Outcome CoapMessage
add_made m none = err failure
add_made m (some option) = ok (record m { op_list = insert_option m.op_list option })

unfoldable pub coap_message_option_add : (ℕ → Bool) → CoapMessage → ℕ → List ℕ → Outcome CoapMessage
unfolding add_made
coap_message_option_add malloc m num val = add_made m (coap_option_init malloc num val)
