-- ===== src/Coap/Deserialize/Safety.antt =====
-- Reading any bytes ends, inside the message and the byte behind it.
use esp_qcloud.Prelude.{
  ℕ, zero, suc, ◌+◌, ◌-◌, ◌/◌, ◌%◌, ◌^◌, ◌≤◌, ◌<◌, ◌≡◌, ◌≢◌, arith, Option, none, some, Bool, List,
  [], ◌∷◌, ◌||◌, not, length, drop, length-drop, ltb, ◌==◌, if◌then◌else◌, Outcome, ok, err, fault,
  ◌>>=◌, >>=-ne-fault,
}
use esp_qcloud.Prelude.Codes.{coap_data_size}
use esp_qcloud.Prelude.Gives.{Gives, Gives->>=, Gives-if}
use esp_qcloud.Coap.Message.{CoapOption, CoapMessage, coap_option_init}
use esp_qcloud.Coap.Serialize.{copy, or_internal}
use esp_qcloud.Coap.Deserialize.{
  byte_at, load16, is_class, last_num, read_field, add_last, deserialize_option, options_loop,
  deserialize_header, deserialize_token, deserialize_options, deserialize_payload, msg_check,
  deserialize_parts, deserialize_coap_message,
}

abbrev Any {ℓ} : {A : Type ℓ} → A → Type 0
Any a = Unit {0}

byte_at-Gives : (i : ℕ) (p : List ℕ) → i < length p → Gives Any (byte_at i p)
unfolding byte_at
byte_at-Gives i [] h = absurd (omega arith)
byte_at-Gives zero (b ∷ bs) h = tt
byte_at-Gives (suc i) (b ∷ bs) h = byte_at-Gives i bs (omega arith)

load16-Gives : (p : List ℕ) → 2 ≤ length p → Gives Any (load16 p)
unfolding load16
load16-Gives p h =
    Gives->>= Any Any (byte_at 0 p) _ (byte_at-Gives 0 p (omega arith))
      λ low u. Gives->>= Any Any (byte_at 1 p) _ (byte_at-Gives 1 p (omega arith)) λ high u. tt

copy-Gives : (n : ℕ) (p : List ℕ) → n ≤ length p → Gives Any (copy n p)
unfolding copy
copy-Gives n p h = ground arith

-- What is left is not longer, and in the memory.
abbrev IsLeft : ℕ → ℕ × List ℕ × ℕ → Type 0
IsLeft len (value, p, len') = (len' ≤ len) × (len' ≤ length p)

read_field-Gives :
    (field : ℕ) (p : List ℕ) (len : ℕ)
    → len ≤ length p
    → Gives (IsLeft len) (read_field field p len)
unfolding read_field
read_field-Gives field p len h =
    Gives-if (IsLeft len) (field == 13) _ _
      (λ is_13.
        Gives-if (IsLeft len) (ltb len 1) _ _ (λ short. tt)
          λ enough.
            Gives->>= Any (IsLeft len) (byte_at 0 p) _ (byte_at-Gives 0 p (ground arith))
              λ b u. left 1)
      λ not_13.
        Gives-if (IsLeft len) (field == 14) _ _
          (λ is_14.
            Gives-if (IsLeft len) (ltb len 2) _ _ (λ short. tt)
              λ enough.
                Gives->>= Any (IsLeft len) (load16 p) _ (load16-Gives p (ground arith))
                  λ w u. left 2)
          λ not_14. (omega arith, h)
  where
    left : (n : ℕ) → (len - n ≤ len) × (len - n ≤ length (drop n p))
    left n = (omega arith, rw (length-drop n p) (omega arith))

-- An option takes a byte at least, and no more than there are.
abbrev IsStep : ℕ → List CoapOption × ℕ → Type 0
IsStep len (ops, n) = (1 ≤ n) × (n ≤ len)

add_last-Gives : (ops : List CoapOption) (o : Option CoapOption) → Gives Any (add_last ops o)
unfolding add_last
add_last-Gives ops none = tt
add_last-Gives ops (some o) = tt

deserialize_option-Gives :
    (malloc : ℕ → Bool) (ops : List CoapOption) (p : List ℕ) (len : ℕ)
    → len ≤ length p
    → Gives (IsStep len) (deserialize_option malloc ops p len)
unfolding deserialize_option
deserialize_option-Gives malloc ops p len h =
    Gives-if (IsStep len) (ltb len 1) _ _ (λ short. tt)
      λ enough. Gives->>= Any (IsStep len) (byte_at 0 p) _ (byte_at-Gives 0 p (ground arith)) λ b u.
        Gives-if (IsStep len) (b / 2 ^ 4 % 16 == 15 || b % 16 == 15) _ _ (λ bad. tt)
          λ good.
            Gives->>= (IsLeft (len - 1)) (IsStep len)
              (read_field (b / 2 ^ 4 % 16) (drop 1 p) (len - 1)) _
              (read_field-Gives (b / 2 ^ 4 % 16) (drop 1 p) (len - 1)
                (rw (length-drop 1 p) (omega arith)))
              λ delta left. value b delta left (ground arith)
  where
    made : List ℕ → ℕ → Outcome (List CoapOption)
    made val d = add_last ops (coap_option_init malloc ((last_num ops + d) % 2 ^ 32) val)

    value :
        (b : ℕ) (delta : ℕ × List ℕ × ℕ)
        → IsLeft (len - 1) delta
        → 1 ≤ len
        → Gives (IsStep len) (
            read_field (b % 16) delta.1 delta.2 >>= λ x.
            if ltb x.2 x.0
            then err coap_data_size
            else (copy x.0 x.1 >>= λ val. made val delta.0 >>= λ ops'. ok (ops', len - x.2 + x.0)))
    value b (d, p1, len1) (le, room) some_len =
        Gives->>= (IsLeft len1) (IsStep len) (read_field (b % 16) p1 len1) _
          (read_field-Gives (b % 16) p1 len1 room)
          λ x left.
            Gives-if (IsStep len) (ltb x.2 x.0) _ _ (λ short. tt)
              λ enough.
                Gives->>= Any (IsStep len) (copy x.0 x.1) _
                  (copy-Gives x.0 x.1 (ground (arith, left)))
                  λ val u.
                    Gives->>= Any (IsStep len) (made val d) (λ ops'. ok (ops', len - x.2 + x.0))
                      (add_last-Gives ops _)
                      λ ops' v. (omega (arith, left.0), ground (arith, left.0))

abbrev IsParsed : ℕ → List CoapOption × ℕ → Type 0
IsParsed len (ops, n) = n ≤ len

options_loop-Gives :
    (fuel : ℕ) (malloc : ℕ → Bool) (ops : List CoapOption) (p : List ℕ) (len parsed : ℕ)
    → len < fuel
    → len < length p
    → Gives (IsParsed (parsed + len)) (options_loop fuel malloc ops p len parsed)
unfolding options_loop
options_loop-Gives zero malloc ops p len parsed more room = absurd (omega arith)
options_loop-Gives (suc fuel) malloc ops p len parsed more room =
    Gives->>= Any (IsParsed (parsed + len)) (byte_at 0 p) _ (byte_at-Gives 0 p (omega arith)) λ b u.
      Gives-if (IsParsed (parsed + len)) (b % 256 == 0xff || len == 0) _ _ (λ end. omega arith)
        λ goes_on.
          Gives->>= (IsStep len) (IsParsed (parsed + len)) (deserialize_option malloc ops p len) _
            (deserialize_option-Gives malloc ops p len (omega arith))
            λ step is_step.
              let count : parsed + step.1 + (len - step.1) ≡ parsed + len =
                omega (arith, is_step.1) in
              rw⁻¹ count (
                options_loop-Gives fuel malloc step.0 (drop step.1 p) (len - step.1)
                  (parsed + step.1) (omega (arith, is_step.0))
                  (rw (length-drop step.1 p) (omega (arith, is_step.0, is_step.1))))

abbrev Within : ℕ → CoapMessage × ℕ → Type 0
Within len (m, n) = n ≤ len

deserialize_header-Gives :
    (m : CoapMessage) (p : List ℕ) (len : ℕ)
    → len ≤ length p
    → Gives (Within len) (deserialize_header m p len)
unfolding deserialize_header
deserialize_header-Gives m p len h =
    Gives-if (Within len) (ltb len 4) _ _ (λ short. tt)
      λ enough.
        Gives->>= Any (Within len) (byte_at 0 p) _ (byte_at-Gives 0 p (ground arith)) λ b0 u.
          Gives-if (Within len) (not (b0 / 2 ^ 6 % 4 == 1)) _ _ (λ bad. tt)
            λ good.
              Gives-if (Within len) (ltb 8 (b0 % 16)) _ _ (λ bad. tt)
                λ good.
                  Gives->>= Any (Within len) (byte_at 1 p) _ (byte_at-Gives 1 p (ground arith))
                    λ b1 u.
                      Gives-if (Within len) (not (is_class (b1 / 2 ^ 5 % 8))) _ _ (λ bad. tt)
                        λ good.
                          Gives->>= Any (Within len) (load16 (drop 2 p)) _
                            (load16-Gives (drop 2 p) (rw (length-drop 2 p) (ground arith)))
                            λ id u. ground arith

deserialize_token-Gives :
    (m : CoapMessage) (p : List ℕ) (len : ℕ)
    → len ≤ length p
    → Gives (Within len) (deserialize_token m p len)
unfolding deserialize_token
deserialize_token-Gives m p len h =
    Gives-if (Within len) (ltb len m.token_len) _ _ (λ short. tt)
      λ enough.
        Gives->>= Any (Within len) (copy m.token_len p) _ (copy-Gives m.token_len p (ground arith))
          λ b u. ground arith

deserialize_options-Gives :
    (malloc : ℕ → Bool) (m : CoapMessage) (p : List ℕ) (len : ℕ)
    → len < length p
    → Gives (Within len) (deserialize_options malloc m p len)
unfolding deserialize_options
deserialize_options-Gives malloc m p len h =
    Gives->>= (IsParsed (0 + len)) (Within len) (options_loop (len + 1) malloc m.op_list p len 0) _
      (options_loop-Gives (len + 1) malloc m.op_list p len 0 (omega arith) h)
      λ x parsed. omega (arith, parsed)

deserialize_payload-Gives :
    (malloc : ℕ → Bool) (m : CoapMessage) (p : List ℕ) (len : ℕ)
    → len ≤ length p
    → Gives Any (deserialize_payload malloc m p len)
unfolding deserialize_payload
deserialize_payload-Gives malloc m p len h =
    Gives-if Any (len == 0) _ _ (λ end. tt)
      λ enough. Gives->>= Any Any (byte_at 0 p) _ (byte_at-Gives 0 p (ground arith)) λ b u.
        Gives-if Any (not (b % 256 == 0xff)) _ _ (λ bad. tt)
          λ good.
            Gives-if Any (len - 1 == 0) _ _ (λ bad. tt)
              λ good.
                Gives-if Any (not (malloc (len - 1))) _ _ (λ bad. tt)
                  λ good.
                    Gives->>= Any Any (copy (len - 1) (drop 1 p)) _
                      (copy-Gives (len - 1) (drop 1 p) (rw (length-drop 1 p) (omega arith)))
                      λ bytes u. tt

deserialize_parts-Gives :
    (malloc : ℕ → Bool) (m : CoapMessage) (p : List ℕ) (len : ℕ)
    → len < length p
    → Gives Any (deserialize_parts malloc m p len)
unfolding deserialize_parts
deserialize_parts-Gives malloc m p len h =
    Gives->>= (Within len) Any (deserialize_header m p len) _
      (deserialize_header-Gives m p len (omega arith))
      λ x1 h1.
        let room1 : len - x1.1 < length (drop x1.1 p) =
          rw (length-drop x1.1 p) (omega (arith, h1)) in
        Gives->>= (Within (len - x1.1)) Any (deserialize_token x1.0 (drop x1.1 p) (len - x1.1)) _
          (deserialize_token-Gives x1.0 (drop x1.1 p) (len - x1.1) (omega (arith, room1)))
          λ x2 h2.
            let p2 = drop x2.1 (drop x1.1 p) in
            let room2 : len - x1.1 - x2.1 < length p2 =
              rw (length-drop x2.1 (drop x1.1 p)) (omega (arith, h2, room1)) in
            Gives->>= (Within (len - x1.1 - x2.1)) Any
              (deserialize_options malloc x2.0 p2 (len - x1.1 - x2.1)) _
              (deserialize_options-Gives malloc x2.0 p2 (len - x1.1 - x2.1) room2)
              λ x3 h3.
                deserialize_payload-Gives malloc x3.0 (drop x3.1 p2) (len - x1.1 - x2.1 - x3.1)
                  (rw (length-drop x3.1 p2) (omega (arith, h3, room2)))

-- Reading ends, and without a fault, for any bytes, any allocator and any length that leaves a byte
-- of memory behind the message: the rounds of the options' loop are no more than the bytes, and no
-- byte is read or copied from outside of the memory.
pub deserialize_coap_message-ne-fault :
    (malloc : ℕ → Bool) (m : CoapMessage) (p : List ℕ) (len : ℕ)
    → len < length p
    → deserialize_coap_message malloc m p len ≢ fault
unfolding deserialize_coap_message or_internal msg_check
deserialize_coap_message-ne-fault malloc m p len h =
    >>=-ne-fault (or_internal (deserialize_parts malloc m p len)) _
      (internal (deserialize_parts malloc m p len) (deserialize_parts-Gives malloc m p len h))
      λ parsed made. >>=-ne-fault (msg_check parsed) _ (λ e. ground arith) λ u checked. λ e. cc e
  where
    internal : (o : Outcome CoapMessage) → Gives Any o → or_internal o ≢ fault
    internal (ok a) g = λ e. cc e
    internal (err c) g = λ e. cc e
    internal fault g = absurd g
