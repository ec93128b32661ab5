-- ===== src/Mqtt/Net/Reading.antt =====
-- What reading a packet leaves alone.
use esp_qcloud.Prelude.{
  ℕ, zero, suc, ◌+◌, ◌-◌, ◌*◌, ◌%◌, ◌^◌, refl, ◌∙◌, arith, bit_and, Bool, true, false, List, [],
  ◌∷◌, length, ltb, leb, ◌==◌, if◌then◌else◌, Bool-cases, inl, inr, Outcome, ok, err, fault,
}
use esp_qcloud.Prelude.Codes.{buf_too_short}
use esp_qcloud.Mqtt.Wire.{write_packet_rem_len}
use esp_qcloud.Mqtt.Header.{header_type}
use esp_qcloud.Mqtt.Client.{Client, ReadReply, received, read_failed, continue, pure, ◌>>=◌, ◌>>◌}
use esp_qcloud.Mqtt.Frame.{SameCore, continue-SameCore}
use esp_qcloud.Mqtt.Net.{
  take_read, net_read, put_bytes, store_read, read_into, one_byte,
  decode_packet_rem_len_with_net_read, discard, nothing_to_read, read_payload, too_long,
  read_mqtt_packet, first_byte,
}

take_read-SameCore :
    (rs : List ReadReply) (len : ℕ) (c : Client) → SameCore c (take_read rs len c).1
unfolding take_read
take_read-SameCore [] len c = refl
take_read-SameCore (received bytes ∷ rs) len c = ground arith
take_read-SameCore (read_failed e ∷ rs) len c = refl

net_read-SameCore : (len : ℕ) (c : Client) → SameCore c (net_read len c).1
unfolding net_read
net_read-SameCore len c = take_read-SameCore c.world.reads len c

store_read-SameCore : (at : ℕ) (bytes : List ℕ) (c : Client) → SameCore c (store_read at bytes c).1
unfolding store_read
store_read-SameCore at bytes c =
    continue-SameCore c c (put_bytes at bytes c.read_buf) _ refl (λ buf. refl)

read_into-SameCore : (at len : ℕ) (c : Client) → SameCore c (read_into at len c).1
unfolding read_into
read_into-SameCore at len c =
    let ((bytes, rc), d) = net_read len c in
    let (r, e) = store_read at bytes d in
    continue-SameCore c e r _ (store_read-SameCore at bytes d ∙ net_read-SameCore len c) (λ u. refl)

decode-SameCore :
    (rounds value multiplier : ℕ) (c : Client)
    → SameCore c (decode_packet_rem_len_with_net_read rounds value multiplier c).1
unfolding decode_packet_rem_len_with_net_read
decode-SameCore zero value multiplier c = refl
decode-SameCore (suc rounds) value multiplier c =
    let ((bytes, rc), d) = net_read 1 c in
    continue-SameCore c d (one_byte bytes rc) _ (net_read-SameCore 1 c) (λ i.
      let value' = (value + bit_and i 127 * multiplier % 2 ^ 32) % 2 ^ 32 in
      elim (Bool-cases (bit_and i 128 == 0)) [
        | inl y ↦ rw y refl
        | inr n ↦ rw n (decode-SameCore rounds value' (multiplier * 128 % 2 ^ 32) d)
      ])

either-SameCore :
    (rc : Outcome (Unit {0})) (b : Bool) (c x y : Client)
    → SameCore c x
    → SameCore c y
    → SameCore c (elim rc [ ok u ↦ if b then x else y | _ ↦ y ])
either-SameCore (ok u) true c x y e f = e
either-SameCore (ok u) false c x y e f = f
either-SameCore (err z) b c x y e f = f
either-SameCore fault b c x y e f = f

discard-SameCore :
    (rounds rem_len total to_read : ℕ) (c : Client)
    → SameCore c (discard rounds rem_len total to_read c)
unfolding discard
discard-SameCore zero rem_len total to_read c = refl
discard-SameCore (suc rounds) rem_len total to_read c =
    let ((bytes, rc), c') = net_read to_read c in
    let d = (store_read 0 bytes c').1 in
    let total' = total + length bytes in
    let left = rem_len - total' in
    let size = length c.read_buf in
    let next = if leb size left then size else left in
    let same = store_read-SameCore 0 bytes c' ∙ net_read-SameCore to_read c in
    either-SameCore rc (ltb total' rem_len) c (discard rounds rem_len total' next d) d
      (discard-SameCore rounds rem_len total' next d ∙ same) same

read_payload-SameCore : (len rem_len : ℕ) (c : Client) → SameCore c (read_payload len rem_len c).1
unfolding read_payload
read_payload-SameCore len rem_len c =
    ground (arith, read_into-SameCore 0 rem_len c, read_into-SameCore len rem_len c)

after_length-SameCore :
    (rem_len : ℕ) (c : Client)
    → SameCore c
        (continue
          (ok (too_long rem_len c))
          (λ long.
            if long
            then (λ d. (err buf_too_short, discard rem_len rem_len 0 (length d.read_buf) d))
            else (do
              store_read 1 (write_packet_rem_len rem_len)
              read_payload (1 + length (write_packet_rem_len rem_len)) rem_len
              header ← (λ d. (first_byte d.read_buf, d))
              pure (header_type header)))
          c).1
after_length-SameCore rem_len c = elim (Bool-cases (too_long rem_len c)) [
  | inl y ↦ rw y (discard-SameCore rem_len rem_len 0 (length c.read_buf) c)
  | inr n ↦
      let w = write_packet_rem_len rem_len in
      let (r, d) = store_read 1 w c in
      rw n (
        continue-SameCore c d r _ (store_read-SameCore 1 w c) (λ u.
          let (q, e) = read_payload (1 + length w) rem_len d in
          continue-SameCore d e q _ (read_payload-SameCore (1 + length w) rem_len d)
            (λ v. continue-SameCore e e (first_byte e.read_buf) _ refl (λ h. refl))))
]

-- Whatever arrives, reading it leaves alone all but the buffer and the network.
pub read_mqtt_packet-SameCore : (c : Client) → SameCore c (read_mqtt_packet c).1
unfolding read_mqtt_packet
read_mqtt_packet-SameCore c =
    let ((bytes, rc), c') = net_read 1 c in
    let (r, d) = store_read 0 bytes c' in
    continue-SameCore c d r _ (store_read-SameCore 0 bytes c' ∙ net_read-SameCore 1 c) (λ u.
      continue-SameCore d d (nothing_to_read rc) _ refl (λ v.
        let (n, e) = decode_packet_rem_len_with_net_read 4 0 1 d in
        continue-SameCore d e n _ (decode-SameCore 4 0 1 d)
          (λ rem_len. after_length-SameCore rem_len e)))
