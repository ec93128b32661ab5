-- ===== src/Mqtt/Net/Receive.antt =====
-- A packet that arrives is put together in the read buffer.
use esp_qcloud.Prelude.{
  ℕ, zero, suc, ◌+◌, ◌-◌, ◌*◌, ◌%◌, ◌^◌, ◌≤◌, ◌<◌, ◌≡◌, refl, ap, ◌∙◌, arith, bit_and, List, [],
  ◌∷◌, ◌++◌, length, length-append, drop, take-length-append, drop-length-append, drop_past,
  length-drop, ok,
}
use esp_qcloud.Mqtt.Wire.{decode_packet_rem_len, read_packet_rem_len_form_buf, write_packet_rem_len}
use esp_qcloud.Mqtt.Wire.RemLen.{read-write_packet_rem_len}
use esp_qcloud.Mqtt.Header.{header_type}
use esp_qcloud.Mqtt.Client.{Client, ReadReply, received}
use esp_qcloud.Mqtt.Net.{
  decode_packet_rem_len_with_net_read, net_read, read_mqtt_packet, put_bytes, store_read, read_into,
  read_payload, nothing_to_read, first_byte, too_long,
}

abbrev pub with_reads : List ReadReply → Client → Client
with_reads rs c = record c { world = record c.world { reads = rs } }

decode_reads_some :
    (buf : List ℕ) (value multiplier len x k : ℕ)
    → decode_packet_rem_len buf value multiplier len ≡ ok (x, k)
    → len < k
unfolding decode_packet_rem_len
decode_reads_some [] value multiplier len x k e = ground arith
decode_reads_some (b ∷ bs) value multiplier len x k e = ground (
  arith,
  decode_reads_some bs ((value + bit_and b 127 * multiplier % 2 ^ 32) % 2 ^ 32)
      (multiplier * 128 % 2 ^ 32) (len + 1) x k,
)

drop-cons : (j : ℕ) (b : ℕ) (bs : List ℕ) → 0 < j → drop j (b ∷ bs) ≡ drop (j - 1) bs
drop-cons zero b bs h = absurd (omega arith)
drop-cons (suc j) b bs h = ap (λ i. drop i bs) (omega arith)

-- The remaining length is read from the network as from a buffer that holds what arrives.
decode_from_net :
    (rounds len value multiplier x k : ℕ) (buf : List ℕ) (rs : List ReadReply) (c : Client)
    → rounds + len ≡ 4
    → c.world.reads ≡ received buf ∷ rs
    → decode_packet_rem_len buf value multiplier len ≡ ok (x, k)
    → decode_packet_rem_len_with_net_read rounds value multiplier c
      ≡ (ok x, with_reads (received (drop (k - len) buf) ∷ rs) c)
unfolding decode_packet_rem_len_with_net_read decode_packet_rem_len net_read
decode_from_net zero len value multiplier x k [] rs c h r e = ground arith
decode_from_net zero len value multiplier x k (b ∷ bs) rs c h r e = ground arith
decode_from_net (suc rounds) len value multiplier x k [] rs c h r e = ground arith
decode_from_net (suc rounds) len value multiplier x k (b ∷ bs) rs c h r e = ground (
  arith,
  decode_reads_some (b ∷ bs) value multiplier len x k,
  drop-cons (k - len) b bs,
  decode_from_net rounds (len + 1) ((value + bit_and b 127 * multiplier % 2 ^ 32) % 2 ^ 32)
      (multiplier * 128 % 2 ^ 32) x k bs rs (with_reads (received bs ∷ rs) c),
)

-- Bytes put just behind the first part of a buffer.
pub put_bytes-append :
    (at : ℕ) (front bytes tail : List ℕ)
    → at ≡ length front
    → length bytes ≤ length tail
    → put_bytes at bytes (front ++ tail) ≡ ok (front ++ (bytes ++ drop (length bytes) tail))
unfolding put_bytes
put_bytes-append at front bytes tail e h = ground (
  arith,
  length-append front tail,
  take-length-append front tail,
  drop_past (at + length bytes) (length bytes) front tail,
)

-- The header byte and the remaining length, in the buffer.
begin_packet :
    (h : ℕ) (w buf : List ℕ)
    → 1 + length w ≤ length buf
    → (put_bytes 0 (h ∷ []) buf ≡ ok (h ∷ drop 1 buf))
      × (put_bytes 1 w (h ∷ drop 1 buf) ≡ ok (h ∷ (w ++ drop (length w) (drop 1 buf))))
begin_packet h w [] le = absurd (omega arith)
begin_packet h w (b ∷ buf) le = (
  put_bytes-append 0 [] (h ∷ []) (b ∷ buf) refl (omega arith),
  put_bytes-append 1 (h ∷ []) w buf refl (omega arith),
)

decoded :
    (n : ℕ) (later : List ℕ) (rs : List ReadReply) (c : Client)
    → n < 2 ^ 28
    → c.world.reads ≡ received (write_packet_rem_len n ++ later) ∷ rs
    → decode_packet_rem_len_with_net_read 4 0 1 c ≡ (ok n, with_reads (received later ∷ rs) c)
unfolding read_packet_rem_len_form_buf
decoded n later rs c small arrives =
    let w = write_packet_rem_len n in
    decode_from_net 4 0 0 1 n (length w) (w ++ later) rs c refl arrives
      (read-write_packet_rem_len n later small)
    ∙ ap (λ l. (ok n, with_reads (received l ∷ rs) c))
        (drop_past (length w - 0) 0 w later (omega arith))

-- The payload, behind the header and the remaining length.
payload_read :
    (front payload more tail : List ℕ) (rs : List ReadReply) (c : Client)
    → c.read_buf ≡ front ++ tail
    → length payload ≤ length tail
    → c.world.reads ≡ received (payload ++ more) ∷ rs
    → read_payload (length front) (length payload) c ≡ (
      ok tt,
      with_reads
          (received more ∷ rs)
          (record c { read_buf = front ++ (payload ++ drop (length payload) tail) }),
    )
unfolding read_payload read_into net_read store_read
payload_read front [] more tail rs c buf fits arrives =
    λ i. (ok tt, with_reads (arrives i) (record c { read_buf = buf i }))
payload_read front (p ∷ payload) more tail rs c buf fits arrives = ground (
  arith,
  length-append front tail,
  length-append (p ∷ payload) more,
  take-length-append (p ∷ payload) more,
  drop-length-append (p ∷ payload) more,
  put_bytes-append (length front) front (p ∷ payload) tail refl,
)

-- A packet that arrives in one piece and fits the buffer.
pub read_mqtt_packet_whole :
    (h : ℕ) (payload more : List ℕ) (rs : List ReadReply) (c : Client)
    → let w = write_packet_rem_len (length payload) in
      let rest = drop (length payload) (drop (length w) (drop 1 c.read_buf)) in
      length payload < 2 ^ 28
      → 1 + length w + length payload ≤ length c.read_buf
      → c.world.reads ≡ received (h ∷ (w ++ (payload ++ more))) ∷ rs
      → read_mqtt_packet c ≡ (
        ok (header_type h),
        with_reads (received more ∷ rs) (record c { read_buf = h ∷ (w ++ (payload ++ rest)) }),
      )
unfolding read_mqtt_packet net_read store_read nothing_to_read first_byte too_long
read_mqtt_packet_whole h payload more rs c small fits arrives =
    let w = write_packet_rem_len (length payload) in
    let (first_put, second_put) = begin_packet h w c.read_buf (omega arith) in
    let later = payload ++ more in
    let tail = drop (length w) (drop 1 c.read_buf) in
    let one =
      with_reads (received (w ++ later) ∷ rs) (record c { read_buf = h ∷ drop 1 c.read_buf }) in
    let two = with_reads (received later ∷ rs) (record c { read_buf = h ∷ (w ++ tail) }) in
    ground (
      arith,
      first_put,
      second_put,
      decoded (length payload) later rs one small refl,
      payload_read (h ∷ w) payload more tail rs two refl,
      length-drop (length w) (drop 1 c.read_buf),
      length-drop 1 c.read_buf,
    )
