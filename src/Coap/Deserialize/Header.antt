-- ===== src/Coap/Deserialize/Header.antt =====
-- The header of a message that was written.
use esp_qcloud.Prelude.{ℕ, suc, ◌+◌, ◌*◌, ◌/◌, ◌%◌, ◌^◌, ◌≤◌, ◌<◌, ◌≡◌, arith, true, List, ◌∷◌, ok}
use esp_qcloud.Prelude.Bits.{join_nibbles, join_code, join_version}
use esp_qcloud.Coap.Message.{CoapMessage}
use esp_qcloud.Coap.Serialize.{first_byte, code_byte}
use esp_qcloud.Coap.Deserialize.{byte_at, load16, is_class, deserialize_header}

abbrev pub with_header : CoapMessage → CoapMessage → CoapMessage
with_header m m0 = record m0 {
  version = 1;
  type = m.type;
  token_len = m.token_len;
  code_detail = m.code_detail;
  code_class = m.code_class;
  msg_id = m.msg_id;
}

first_byte-eq :
    (m : CoapMessage)
    → m.type < 4
    → m.token_len ≤ 8
    → first_byte m ≡ (4 + m.type) * 16 + m.token_len
unfolding first_byte
first_byte-eq m t k =
    let type : m.type % 4 ≡ m.type = omega arith in
    let token : m.token_len % 16 ≡ m.token_len = omega arith in
    rw (type, token, join_version m.type t)
      (join_nibbles (4 + m.type) m.token_len (omega arith) (omega arith))

code_byte-eq :
    (m : CoapMessage)
    → is_class m.code_class ≡ true
    → m.code_detail < 32
    → (code_byte m / 2 ^ 5 % 8 ≡ m.code_class) × (code_byte m % 32 ≡ m.code_detail)
unfolding code_byte is_class
code_byte-eq m c d =
    let small : m.code_class < 8 = ground arith in
    let class : m.code_class % 8 ≡ m.code_class = omega arith in
    let detail : m.code_detail % 32 ≡ m.code_detail = omega arith in
    rw (class, detail, join_code m.code_class m.code_detail small d) (omega arith, omega arith)

pub deserialize_header-bytes :
    (m m0 : CoapMessage) (rest : List ℕ) (l : ℕ)
    → m.type < 4
    → m.token_len ≤ 8
    → is_class m.code_class ≡ true
    → m.code_detail < 32
    → m.msg_id < 2 ^ 16
    → deserialize_header m0
        (first_byte m ∷ code_byte m ∷ m.msg_id / 256 % 256 ∷ m.msg_id % 256 ∷ rest)
        (suc (suc (suc (suc l))))
      ≡ ok (with_header m m0, 4)
unfolding deserialize_header byte_at load16
deserialize_header-bytes m m0 rest l t k c d i =
    let fields = code_byte-eq m c d in
    let first = first_byte-eq m t k in
    ground (
      arith,
      fields,
      first,
      (let e : first_byte m / 2 ^ 6 % 4 ≡ 1 = omega (arith, first) in e),
      (let e : first_byte m / 2 ^ 4 % 4 ≡ m.type = omega (arith, first) in e),
      (let e : first_byte m % 16 ≡ m.token_len = omega (arith, first) in e),
    )
