-- ===== src/Coap/Serialize/Parts.antt =====
-- What the parts of a message that was written are.
use esp_qcloud.Prelude.{
  ℕ, ◌+◌, ◌-◌, ◌/◌, ◌%◌, ◌≡◌, refl, sym, ap, ◌∙◌, arith, ◌≢◌, ◌⊎◌, inl, inr, Option, none, some,
  List, [], ◌∷◌, ◌++◌, length, take, length-take_le, ltb, leb, ◌==◌, if◌then◌else◌, ok, err, fault,
  ◌>>=◌, >>=-ok, ok_injective, if-ok, ==_iff,
}
use esp_qcloud.Coap.Message.{CoapMessage}
use esp_qcloud.Coap.Serialize.{
  first_byte, code_byte, serialize_header, written, copy, serialize_token, copy_payload,
  serialize_options, negative_errno, serialize_payload, serialize_parts,
}

-- The bytes that were written.
written-ok : (len : ℕ) (bytes out : List ℕ) → written len bytes ≡ ok out → bytes ≡ out
written-ok len bytes out e = elim (if-ok (ltb len (length bytes)) fault (ok bytes) out e) [
  | inl (_, made) ↦ absurd (cc made)
  | inr (_, made) ↦ ok_injective made
]

pub serialize_header-ok :
    (m : CoapMessage) (len : ℕ) (header : List ℕ)
    → serialize_header m len ≡ ok header
    → header ≡ first_byte m ∷ code_byte m ∷ m.msg_id / 256 % 256 ∷ m.msg_id % 256 ∷ []
unfolding serialize_header
serialize_header-ok m len header e = grind arith

-- The bytes that a copy gives, and their number.
pub copy-ok :
    (n : ℕ) (memory bytes : List ℕ)
    → copy n memory ≡ ok bytes
    → (bytes ≡ take n memory) × (length bytes ≡ n)
unfolding copy
copy-ok n memory bytes e = elim (if-ok (leb n (length memory)) (ok (take n memory)) fault bytes e) [
  | inl (le, made) ↦
      let same : take n memory ≡ bytes = ok_injective made in
      (sym same, rw (sym same) (length-take_le n memory (ground arith)))
  | inr (_, made) ↦ absurd (cc made)
]

pub serialize_token-ok :
    (m : CoapMessage) (len : ℕ) (token : List ℕ)
    → serialize_token m len ≡ ok token
    → (token ≡ take m.token_len m.token) × (length token ≡ m.token_len)
unfolding serialize_token
serialize_token-ok m len token e =
    elim (if-ok (ltb len m.token_len) (err negative_errno)
      (copy m.token_len m.token >>= written len) token e) [
        | inl (_, made) ↦ absurd (cc made)
        | inr (le, made) ↦
            let (bytes, copied, stored) =
              >>=-ok (copy m.token_len m.token) (written len) token made in
            copy-ok m.token_len m.token token (copied ∙ ap ok (written-ok len bytes token stored))
      ]

pub copied :
    (pay_load : Option (List ℕ)) (n : ℕ) (payload : List ℕ)
    → n ≢ 0
    → copy_payload pay_load n ≡ ok payload
    → (memory bytes : List ℕ) × (pay_load ≡ some memory)
      × (n ≢ 0)
      × (payload ≡ 0xff ∷ bytes)
      × (bytes ≡ take n memory)
      × (length bytes ≡ n)
unfolding copy_payload
copied none n payload more e = absurd (cc e)
copied (some memory) n payload more e =
    let (bytes, made, e1) = >>=-ok _ _ payload e in
    let (same, size) = copy-ok n memory bytes made in
    (memory, bytes, refl, more, sym (ok_injective e1), same, size)

-- No payload, or its mark and its bytes.
pub serialize_payload-ok :
    (m : CoapMessage) (len : ℕ) (payload : List ℕ)
    → serialize_payload m len ≡ ok payload
    → ((m.pay_load_len ≡ 0) × (payload ≡ []))
      ⊎ ((memory bytes : List ℕ) × (m.pay_load ≡ some memory)
          × (m.pay_load_len ≢ 0)
          × (payload ≡ 0xff ∷ bytes)
          × (bytes ≡ take m.pay_load_len memory)
          × (length bytes ≡ m.pay_load_len))
unfolding serialize_payload
serialize_payload-ok m len payload e =
    elim (if-ok (m.pay_load_len == 0) (ok [])
      (if ltb len (m.pay_load_len + 1)
        then err negative_errno
        else copy_payload m.pay_load m.pay_load_len >>= written len)
      payload e) [
        | inl (none_left, made) ↦ inl ((==_iff _ _).0 none_left, sym (ok_injective made))
        | inr (more, e1) ↦
            elim (if-ok (ltb len (m.pay_load_len + 1)) (err negative_errno)
              (copy_payload m.pay_load m.pay_load_len >>= written len) payload e1) [
                | inl (_, made) ↦ absurd (cc made)
                | inr (fits, e2) ↦
                    let (bytes, made, stored) =
                      >>=-ok (copy_payload m.pay_load m.pay_load_len) (written len) payload e2 in
                    inr (
                      copied m.pay_load m.pay_load_len payload (ground arith)
                        (made ∙ ap ok (written-ok len bytes payload stored)))
              ]
      ]

-- The four parts of a message, one behind the other.
pub serialize_parts-ok :
    (m : CoapMessage) (len : ℕ) (bytes : List ℕ)
    → serialize_parts m len ≡ ok bytes
    → (token options payload : List ℕ) × (left left' : ℕ) × (token ≡ take m.token_len m.token)
      × (length token ≡ m.token_len)
      × (serialize_options m.op_list 0 left ≡ ok options)
      × (serialize_payload m left' ≡ ok payload)
      × (first_byte m
            ∷ code_byte m
            ∷ m.msg_id / 256 % 256
            ∷ m.msg_id % 256
            ∷ (token ++ (options ++ payload))
          ≡ bytes)
unfolding serialize_parts
serialize_parts-ok m len bytes e =
    let (header, made_header, e1) = >>=-ok _ _ bytes e in
    let (token, made_token, e2) = >>=-ok (serialize_token m (len - length header)) _ bytes e1 in
    let (options, made_options, e3) =
      >>=-ok (serialize_options m.op_list 0 (len - length header - length token)) _ bytes e2 in
    let (payload, made_payload, e4) =
      >>=-ok (serialize_payload m (len - length header - length token - length options)) _ bytes
        e3 in
    let (is_token, token_size) = serialize_token-ok m (len - length header) token made_token in
    (
      token,
      options,
      payload,
      len - length header - length token,
      len - length header - length token - length options,
      is_token,
      token_size,
      made_options,
      made_payload,
      ap (λ h. h ++ (token ++ (options ++ payload)))
            (sym (serialize_header-ok m len header made_header))
          ∙ ok_injective e4,
    )
