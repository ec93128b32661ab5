-- ===== src/Coap/Serialize.antt =====
-- Writing a CoAP message: sdk_src/coap_client_serialize.c. A function returns the bytes that it puts
-- at `buf`, whose number is its result, out of the `len` bytes that are there: a byte behind these is
-- a fault. The caller sees every error as QCLOUD_ERR_COAP_INTERNAL.
pub mod Parts
pub mod Sizes
use esp_qcloud.Prelude.{
  ℕ, zero, suc, ◌+◌, ◌-◌, ◌*◌, ◌%◌, ◌/◌, ◌^◌, bit_or, Option, none, some, Bool, List, [], ◌∷◌, ◌++◌,
  length, take, ltb, leb, ◌==◌, if◌then◌else◌, Outcome, ok, err, fault, ◌>>=◌,
}
use esp_qcloud.Prelude.Codes.{Code, coap_data_size, coap_internal}
use esp_qcloud.Coap.Message.{CoapOption, CoapMessage}

-- A negative `errno` value, which no caller tells from another error.
abbrev pub negative_errno : Code
negative_errno = coap_internal

-- The first two bytes of the header: COAP_MSG_VER is 1.
unfoldable pub first_byte : CoapMessage → ℕ
first_byte m = bit_or (bit_or (1 * 2 ^ 6) (m.type % 4 * 2 ^ 4)) (m.token_len % 16)

unfoldable pub code_byte : CoapMessage → ℕ
code_byte m = bit_or (m.code_class % 8 * 2 ^ 5) (m.code_detail % 32)

-- Bytes that are written to the `len` bytes that are there.
abbrev pub written : ℕ → List ℕ → Outcome (List ℕ)
written len bytes = if ltb len (length bytes) then fault else ok bytes

unfoldable pub serialize_header : CoapMessage → ℕ → Outcome (List ℕ)
serialize_header m len =
    if ltb len 4
    then err negative_errno
    else written len (first_byte m ∷ code_byte m ∷ m.msg_id / 256 % 256 ∷ m.msg_id % 256 ∷ [])

-- `memcpy` of `n` bytes, which must be there.
unfoldable pub copy : ℕ → List ℕ → Outcome (List ℕ)
copy n bytes = if leb n (length bytes) then ok (take n bytes) else fault

unfoldable pub serialize_token : CoapMessage → ℕ → Outcome (List ℕ)
serialize_token m len =
    if ltb len m.token_len then err negative_errno else copy m.token_len m.token >>= written len

-- `unsigned short op_delta`
unfoldable pub delta : ℕ → ℕ → ℕ
delta option_num prev_num = (option_num + 2 ^ 32 - prev_num) % 2 ^ 16

-- The bytes that an extended field takes, as the code counts them: for the length, the second test
-- is on the option's number.
unfoldable pub counted : CoapOption → ℕ → ℕ
counted op op_delta =
    1
    + (if leb 269 op_delta then 2 else if leb 13 op_delta then 1 else 0)
    + (if leb 269 (length op.val) then 2 else if leb 13 op.option_num then 1 else 0)
    + length op.val

-- A field's four bits, and its extension.
unfoldable pub nibble : ℕ → ℕ
nibble n = if leb 269 n then 14 else if leb 13 n then 13 else n

unfoldable pub extension : ℕ → List ℕ
extension n =
    if leb 269 n
    then (n - 269) / 256 % 256 ∷ (n - 269) % 256 ∷ []
    else if leb 13 n
    then (n - 13) % 256 ∷ []
    else []

-- The bytes of an option.
unfoldable pub option_bytes : CoapOption → ℕ → List ℕ
option_bytes op op_delta =
    bit_or (nibble op_delta * 2 ^ 4) (nibble (length op.val))
    ∷ (extension op_delta ++ (extension (length op.val) ++ op.val))

-- The bytes are written once `counted` of them fit.
unfoldable pub format_op : CoapOption → ℕ → ℕ → Outcome (List ℕ)
format_op op prev_num len =
    let bytes = option_bytes op (delta op.option_num prev_num) in
    if ltb len (counted op (delta op.option_num prev_num))
    then err coap_data_size
    else written len bytes

unfoldable pub serialize_options : List CoapOption → ℕ → ℕ → Outcome (List ℕ)
serialize_options [] prev_num len = ok []
serialize_options (op ∷ ops) prev_num len = do
  bytes ← format_op op prev_num len
  later ← serialize_options ops op.option_num (len - length bytes)
  ok (bytes ++ later)

unfoldable pub copy_payload : Option (List ℕ) → ℕ → Outcome (List ℕ)
copy_payload none n = fault
copy_payload (some memory) n = do bytes ← copy n memory; ok (0xff ∷ bytes)

unfoldable pub serialize_payload : CoapMessage → ℕ → Outcome (List ℕ)
unfolding copy_payload
serialize_payload m len =
    if m.pay_load_len == 0
    then ok []
    else if ltb len (m.pay_load_len + 1)
    then err negative_errno
    else copy_payload m.pay_load m.pay_load_len >>= written len

-- The message's parts, each into the bytes that are left.
unfoldable pub serialize_parts : CoapMessage → ℕ → Outcome (List ℕ)
serialize_parts m len = do
  header ← serialize_header m len
  let len' = len - length header
  token ← serialize_token m len'
  let len'' = len' - length token
  options ← serialize_options m.op_list 0 len''
  payload ← serialize_payload m (len'' - length options)
  ok (header ++ (token ++ (options ++ payload)))

-- The label `error`.
unfoldable pub or_internal {ℓ} : {A : Type ℓ} → Outcome A → Outcome A
or_internal (ok a) = ok a
or_internal (err e) = err coap_internal
or_internal fault = fault

unfoldable pub serialize_coap_message : CoapMessage → ℕ → Outcome (List ℕ)
serialize_coap_message m len = or_internal (serialize_parts m len)
