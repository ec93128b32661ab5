-- ===== src/Coap/Deserialize/RoundTrip.antt =====
-- A message that is written is read back.
use esp_qcloud.Prelude.{
  ℕ, suc, ◌+◌, ◌-◌, ◌/◌, ◌%◌, ◌^◌, ◌≤◌, ◌<◌, ◌≡◌, refl, sym, ap, arith, ◌⊎◌, inl, inr, Bool, true,
  false, List, [], ◌∷◌, ◌++◌, All, length, take, drop, drop-length-append, length-append, ◌==◌,
  if◌then◌else◌, Outcome, ok, err, fault, ◌>>=◌,
}
use mathlib.Core.List.{append_assoc}
use mathlib.Core.Option
use esp_qcloud.Coap.Message.{CoapOption, CoapMessage, over}
use esp_qcloud.Coap.Message.Order.{IsSorted}
use esp_qcloud.Coap.Serialize.{
  first_byte, code_byte, serialize_options, serialize_payload, serialize_parts,
  serialize_coap_message, or_internal,
}
use esp_qcloud.Coap.Deserialize.{
  last_num, byte_at, is_class, deserialize_token, deserialize_options, deserialize_payload,
  msg_check, deserialize_parts, deserialize_coap_message,
}
use esp_qcloud.Coap.Serialize.Parts.{serialize_payload-ok, serialize_parts-ok}
use esp_qcloud.Coap.Deserialize.Header.{with_header, deserialize_header-bytes}
use esp_qcloud.Coap.Deserialize.Options.{
  Fits, copy-append, length-serialize_options, options_loop-serialize,
}

-- What the wire can carry of a message, and what the check of a received message asks for.
abbrev pub IsWellFormed : CoapMessage → Type 0
IsWellFormed m =
    (m.type < 4)
    × (m.token_len ≤ 8)
    × (is_class m.code_class ≡ true)
    × (m.code_detail < 32)
    × (m.msg_id < 2 ^ 16)
    × IsSorted 0 m.op_list
    × All Fits m.op_list
    × (msg_check m ≡ ok tt)

-- The message as it is read: the memory of a payload is its bytes.
abbrev pub received : CoapMessage → CoapMessage → CoapMessage
received m m0 = record (with_header m m0) {
  token = over (take m.token_len m.token) m0.token;
  op_list = m.op_list;
  pay_load =
      if m.pay_load_len == 0 then m0.pay_load else Option.map (take m.pay_load_len) m.pay_load;
  pay_load_len = m.pay_load_len;
}

deserialize_token-bytes :
    (m : CoapMessage) (token rest : List ℕ) (l : ℕ)
    → length token ≡ m.token_len
    → deserialize_token m (token ++ rest) (m.token_len + l)
      ≡ ok (record m { token = over token m.token }, m.token_len)
unfolding deserialize_token
deserialize_token-bytes m token rest l e = rw (sym e) (ground (arith, copy-append token rest))

deserialize_options-bytes :
    (malloc : ℕ → Bool) (m : CoapMessage) (ops : List CoapOption) (len l next : ℕ)
    (bytes rest : List ℕ)
    → ((n : ℕ) → malloc n ≡ true)
    → m.op_list ≡ []
    → IsSorted 0 ops
    → All Fits ops
    → serialize_options ops 0 len ≡ ok bytes
    → (next ≡ 0xff) ⊎ (l ≡ 0)
    → deserialize_options malloc m (bytes ++ next ∷ rest) (length bytes + l)
      ≡ ok (record m { op_list = ops }, length bytes)
unfolding deserialize_options last_num
deserialize_options-bytes malloc m ops len l next bytes rest mem empty s fit e stop =
    let enough : length ops < length bytes + l + 1 =
      omega (arith, length-serialize_options ops 0 len bytes s fit e) in
    let zero : 0 + length bytes ≡ length bytes = omega arith in
    rw
      (
        empty,
        options_loop-serialize malloc [] ops (length bytes + l + 1) len l 0 next bytes rest mem s
            fit e enough stop,
        zero,
      )
      refl

abbrev with_payload : CoapMessage → CoapMessage → CoapMessage
with_payload m m3 = record m3 {
  pay_load =
      if m.pay_load_len == 0 then m3.pay_load else Option.map (take m.pay_load_len) m.pay_load;
  pay_load_len = m.pay_load_len;
}

-- What is behind the options stops their loop, and gives the payload.
deserialize_payload-bytes :
    (malloc : ℕ → Bool) (m m3 : CoapMessage) (len next : ℕ) (payload rest : List ℕ)
    → ((n : ℕ) → malloc n ≡ true)
    → m3.pay_load_len ≡ 0
    → serialize_payload m len ≡ ok payload
    → (next' : ℕ) × (rest' : List ℕ) × (payload ++ next ∷ rest ≡ next' ∷ rest')
      × ((next' ≡ 0xff) ⊎ (length payload ≡ 0))
      × (deserialize_payload malloc m3 (next' ∷ rest') (length payload) ≡ ok (with_payload m m3))
unfolding deserialize_payload byte_at
deserialize_payload-bytes malloc m m3 len next payload rest mem empty e =
    elim (serialize_payload-ok m len payload e) [
      | inl (zero_len, is_nil) ↦ (
        next,
        rest,
        rw is_nil refl,
        inr (rw is_nil refl),
        rw (is_nil, zero_len) (sym (ap (λ n. ok (record m3 { pay_load_len = n })) (sym empty))),
      )
      | inr (memory, bytes, stored, more, is_cons, same, size) ↦ (
        0xff,
        bytes ++ next ∷ rest,
        rw is_cons refl,
        inl refl,
        let left : suc (length bytes) - 1 ≡ length bytes = omega arith in
            let some_left : (m.pay_load_len == 0) ≡ false = ground arith in
            rw
              (
                is_cons,
                left,
                copy-append bytes (next ∷ rest),
                mem (length bytes),
                stored,
                size,
                some_left,
                same,
              )
              (ground arith),
      )
    ]

-- The parts up to the payload.
deserialize_parts-bytes :
    (malloc : ℕ → Bool) (m m0 : CoapMessage) (token options rest : List ℕ) (l left next : ℕ)
    → ((n : ℕ) → malloc n ≡ true)
    → IsWellFormed m
    → m0.op_list ≡ []
    → length token ≡ m.token_len
    → serialize_options m.op_list 0 left ≡ ok options
    → (next ≡ 0xff) ⊎ (l ≡ 0)
    → deserialize_parts malloc m0
        (first_byte m
          ∷ code_byte m
          ∷ m.msg_id / 256 % 256
          ∷ m.msg_id % 256
          ∷ (token ++ (options ++ next ∷ rest)))
        (suc (suc (suc (suc (length token + (length options + l))))))
      ≡ deserialize_payload malloc
          (record (with_header m m0) { token = over token m0.token; op_list = m.op_list })
          (next ∷ rest)
          l
unfolding deserialize_parts
deserialize_parts-bytes malloc m m0 token options rest l left next mem
      (t, k, c, d, i, s, fit, check) empty size made_options stop =
    let m1 = with_header m m0 in
    let m2 = record m1 { token = over token m0.token } in
    let four : suc (suc (suc (suc (length token + (length options + l))))) - 4
        ≡ m1.token_len + (length options + l) =
      omega arith in
    let after_token : m1.token_len + (length options + l) - m1.token_len ≡ length options + l =
      omega arith in
    let past : drop m.token_len (token ++ (options ++ next ∷ rest)) ≡ options ++ next ∷ rest =
      rw (sym size) (drop-length-append token (options ++ next ∷ rest)) in
    let after_options : length options + l - length options ≡ l = omega arith in
    rw
      (
        deserialize_header-bytes m m0 (token ++ (options ++ next ∷ rest))
            (length token + (length options + l)) t k c d i,
        four,
        deserialize_token-bytes m1 token (options ++ next ∷ rest) (length options + l) size,
        after_token,
        past,
        deserialize_options-bytes malloc m2 m.op_list left l next options rest mem empty s fit
            made_options stop,
        after_options,
        drop-length-append options (next ∷ rest),
      )
      refl

deserialize-serialize_parts :
    (malloc : ℕ → Bool) (m m0 : CoapMessage) (len next : ℕ) (bytes rest : List ℕ)
    → ((n : ℕ) → malloc n ≡ true)
    → IsWellFormed m
    → m0.op_list ≡ []
    → m0.pay_load_len ≡ 0
    → serialize_parts m len ≡ ok bytes
    → deserialize_parts malloc m0 (bytes ++ next ∷ rest) (length bytes) ≡ ok (received m m0)
deserialize-serialize_parts malloc m m0 len next bytes rest mem wf empty no_payload e =
    let (
      token, options, payload, left, left', is_token, token_size, made_options, made_payload,
      joined,
    ) =
      serialize_parts-ok m len bytes e in
    let m3 = record (with_header m m0) { token = over token m0.token; op_list = m.op_list } in
    let (next', rest', behind, stop, last) =
      deserialize_payload-bytes malloc m m3 left' next payload rest mem no_payload made_payload in
    rw
      (
        sym joined,
        append_assoc token (options ++ payload) (next ∷ rest),
        append_assoc options payload (next ∷ rest),
        behind,
        length-append token (options ++ payload),
        length-append options payload,
        deserialize_parts-bytes malloc m m0 token options rest' (length payload) left next' mem wf
            empty token_size made_options stop,
        last,
        sym is_token,
      )
      refl

or_internal-ok : (o : Outcome (List ℕ)) (bytes : List ℕ) → or_internal o ≡ ok bytes → o ≡ ok bytes
unfolding or_internal
or_internal-ok (ok a) bytes e = e
or_internal-ok (err c) bytes e = absurd (cc e)
or_internal-ok fault bytes e = absurd (cc e)

-- A message whose fields the wire can carry and that passes the check is written, when it fits the
-- `len` bytes of the buffer. If the allocator gives all memory asked for, reading these bytes, with
-- any memory of at least a byte behind them, into a message without options and payload gives back
-- its type, code, id, token, options and payload.
pub deserialize-serialize_coap_message :
    (malloc : ℕ → Bool) (m m0 : CoapMessage) (len next : ℕ) (bytes rest : List ℕ)
    → ((n : ℕ) → malloc n ≡ true)
    → IsWellFormed m
    → m0.op_list ≡ []
    → m0.pay_load_len ≡ 0
    → serialize_coap_message m len ≡ ok bytes
    → deserialize_coap_message malloc m0 (bytes ++ next ∷ rest) (length bytes) ≡ ok (received m m0)
unfolding serialize_coap_message deserialize_coap_message msg_check or_internal
deserialize-serialize_coap_message malloc m m0 len next bytes rest mem wf empty no_payload e =
    rw
      (deserialize-serialize_parts malloc m m0 len next bytes rest mem wf empty no_payload
        (or_internal-ok _ bytes e))
      (ap (λ o. o >>= (λ u. ok (received m m0))) (wf.7))
