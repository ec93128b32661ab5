-- ===== src/Coap/Serialize/Sizes.antt =====
-- The bytes that an option takes, and the bytes that the code counts for it.
use esp_qcloud.Prelude.{
  ℕ, ◌+◌, ◌-◌, ◌≤◌, ◌<◌, ◌≡◌, ◌≢◌, ◌⊎◌, arith, Option, none, some, List, [], ◌∷◌, ◌++◌, All, length,
  length-append, Outcome, ok, err, fault, >>=-ne-fault, if-ne-fault, ltb, ◌==◌,
}
use esp_qcloud.Coap.Serialize.Parts.{copy-ok, copied}
use esp_qcloud.Coap.Message.{CoapOption, CoapMessage}
use esp_qcloud.Coap.Serialize.{
  delta, written, counted, extension, option_bytes, format_op, serialize_options, copy,
  copy_payload, serialize_header, serialize_token, serialize_payload, serialize_parts,
  serialize_coap_message, or_internal,
}

length-option_bytes :
    (op : CoapOption) (d : ℕ)
    → length (option_bytes op d)
      ≡ 1 + length (extension d) + length (extension (length op.val)) + length op.val
unfolding option_bytes
length-option_bytes op d =
    rw
      (
        length-append (extension d) (extension (length op.val) ++ op.val),
        length-append (extension (length op.val)) op.val,
      )
      (omega arith)

-- The option whose length field is as long as the code counts.
abbrev pub IsCounted : CoapOption → Type 0
IsCounted op = (length op.val < 13) ⊎ ((13 ≤ op.option_num) ⊎ (269 ≤ length op.val))

counted-le : (op : CoapOption) (d : ℕ) → IsCounted op → length (option_bytes op d) ≤ counted op d
unfolding counted extension
counted-le op d c = rw (length-option_bytes op d) (ground arith)

-- An option with a number below 13 and a value of 13 to 268 bytes, in a buffer that has just the
-- bytes that the code counts for it: the code writes one byte behind the buffer.
pub format_op-overflow :
    (op : CoapOption) (prev_num : ℕ)
    → op.option_num < 13
    → 13 ≤ length op.val
    → length op.val < 269
    → format_op op prev_num (counted op (delta op.option_num prev_num)) ≡ fault
unfolding format_op counted extension
format_op-overflow op prev_num num long short =
    ground (arith, length-option_bytes op (delta op.option_num prev_num))

format_op-ne-fault :
    (op : CoapOption) (prev_num len : ℕ) → IsCounted op → format_op op prev_num len ≢ fault
unfolding format_op
format_op-ne-fault op prev_num len c =
    λ e. ground (arith, counted-le op (delta op.option_num prev_num) c)

serialize_options-ne-fault :
    (ops : List CoapOption) (prev_num len : ℕ)
    → All IsCounted ops
    → serialize_options ops prev_num len ≢ fault
unfolding serialize_options
serialize_options-ne-fault [] prev_num len c = λ e. cc e
serialize_options-ne-fault (op ∷ ops) prev_num len (c, cs) =
    >>=-ne-fault (format_op op prev_num len) _ (format_op-ne-fault op prev_num len c) λ bytes made.
      >>=-ne-fault (serialize_options ops op.option_num (len - length bytes)) _
        (serialize_options-ne-fault ops op.option_num (len - length bytes) cs)
        λ later made_later. λ e. cc e

-- Bytes that fit are written inside.
written-ne-fault : (len : ℕ) (bytes : List ℕ) → length bytes ≤ len → written len bytes ≢ fault
written-ne-fault len bytes fits = λ e. ground arith

serialize_header-ne-fault : (m : CoapMessage) (len : ℕ) → serialize_header m len ≢ fault
unfolding serialize_header
serialize_header-ne-fault m len = λ e. ground arith

copy-ne-fault : (n : ℕ) (memory : List ℕ) → n ≤ length memory → copy n memory ≢ fault
unfolding copy
copy-ne-fault n memory h = λ e. ground arith

serialize_token-ne-fault :
    (m : CoapMessage) (len : ℕ) → m.token_len ≤ length m.token → serialize_token m len ≢ fault
unfolding serialize_token
serialize_token-ne-fault m len h =
    if-ne-fault (ltb len m.token_len) _ _ (λ small. λ e. cc e)
      λ fits.
        >>=-ne-fault (copy m.token_len m.token) _ (copy-ne-fault m.token_len m.token h)
          λ bytes made.
            let (same, size) = copy-ok m.token_len m.token bytes made in
            written-ne-fault len bytes (ground (arith, size))

-- A payload's length has that many bytes behind it.
abbrev pub IsBacked : ℕ → Option (List ℕ) → Type 0
IsBacked n none = n ≡ 0
IsBacked n (some memory) = n ≤ length memory

copy_payload-ne-fault :
    (pay_load : Option (List ℕ)) (n : ℕ)
    → IsBacked n pay_load
    → n ≢ 0
    → copy_payload pay_load n ≢ fault
unfolding copy_payload
copy_payload-ne-fault none n h more = absurd (more h)
copy_payload-ne-fault (some memory) n h more =
    >>=-ne-fault (copy n memory) _ (copy-ne-fault n memory h) λ bytes made. λ e. cc e

serialize_payload-ne-fault :
    (m : CoapMessage) (len : ℕ)
    → IsBacked m.pay_load_len m.pay_load
    → serialize_payload m len ≢ fault
unfolding serialize_payload
serialize_payload-ne-fault m len h =
    if-ne-fault (m.pay_load_len == 0) _ _ (λ empty. λ e. cc e)
      λ more.
        if-ne-fault (ltb len (m.pay_load_len + 1)) _ _ (λ small. λ e. cc e)
          λ fits.
            >>=-ne-fault (copy_payload m.pay_load m.pay_load_len) _
              (copy_payload-ne-fault m.pay_load m.pay_load_len h (ground arith))
              λ payload made.
                let (memory, bytes, there, some_bytes, is, same, size) =
                  copied m.pay_load m.pay_load_len payload (ground arith) made in
                written-ne-fault len payload (rw is (ground (arith, size)))

or_internal-ne-fault : (o : Outcome (List ℕ)) → o ≢ fault → or_internal o ≢ fault
unfolding or_internal
or_internal-ne-fault (ok a) h = h
or_internal-ne-fault (err c) h = λ e. cc e
or_internal-ne-fault fault h = h

-- Writing a message stays inside the buffer and inside the message's memory, whatever the length of
-- the buffer: for a message whose token and payload have their bytes, and whose options are shorter
-- than 13 bytes, or longer than 268, or have a number from 13 on.
pub serialize_coap_message-ne-fault :
    (m : CoapMessage) (len : ℕ)
    → m.token_len ≤ length m.token
    → IsBacked m.pay_load_len m.pay_load
    → All IsCounted m.op_list
    → serialize_coap_message m len ≢ fault
unfolding serialize_coap_message serialize_parts
serialize_coap_message-ne-fault m len token payload options = or_internal-ne-fault _ (
    >>=-ne-fault (serialize_header m len) _ (serialize_header-ne-fault m len) λ h made.
      >>=-ne-fault (serialize_token m (len - length h)) _
        (serialize_token-ne-fault m (len - length h) token)
        λ t made.
          >>=-ne-fault (serialize_options m.op_list 0 (len - length h - length t)) _
            (serialize_options-ne-fault m.op_list 0 (len - length h - length t) options)
            λ o made.
              >>=-ne-fault (serialize_payload m (len - length h - length t - length o)) _
                (serialize_payload-ne-fault m (len - length h - length t - length o) payload)
                λ p made. λ e. cc e)
