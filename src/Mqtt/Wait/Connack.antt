-- ===== src/Mqtt/Wait/Connack.antt =====
-- The wait for a CONNACK that arrives.
use esp_qcloud.Prelude.{
  bit_and, ℕ, ◌≤◌, ◌≡◌, refl, arith, some, false, List, [], ◌∷◌, ◌++◌, length, drop, ok,
}
use esp_qcloud.Mqtt.Wire.{
  read_char, read_rem_len, read_packet_rem_len_form_buf, decode_packet_rem_len,
  write_packet_rem_len, write_packet_rem_len_loop,
}
use esp_qcloud.Mqtt.Header.{connack, type_code, header_type}
use esp_qcloud.Mqtt.Ack.{deserialize_connack_packet, connack_result}
use esp_qcloud.Mqtt.Client.{Client, ReadReply, received}
use esp_qcloud.Mqtt.WaitList.{read_clock}
use esp_qcloud.Mqtt.Net.{is_expired}
use esp_qcloud.Mqtt.Net.Send.{ticked}
use esp_qcloud.Mqtt.Net.Receive.{with_reads, read_mqtt_packet_whole}
use esp_qcloud.Mqtt.Handlers.{handle_packet, note_alive, cycle_for_read}
use esp_qcloud.Mqtt.Wait.{wait_round, wait_for_read}
use esp_qcloud.Mqtt.Wait.Laws.{wait_for_read-eq}

-- A CONNACK with these two bytes.
abbrev pub connack_bytes : ℕ → ℕ → List ℕ
connack_bytes flags code = 0x20 ∷ 2 ∷ flags ∷ code ∷ []

-- The client with the CONNACK in its buffer.
abbrev pub answered : ℕ → ℕ → List ℕ → List ReadReply → Client → Client
answered flags code more rs c =
    with_reads (received more ∷ rs)
      (record c { read_buf = connack_bytes flags code ++ drop 2 (drop 1 (drop 1 c.read_buf)) })

cycle_connack :
    (previous timer flags code : ℕ) (more : List ℕ) (rs : List ReadReply) (c : Client)
    → 4 ≤ length c.read_buf
    → c.world.reads ≡ received (connack_bytes flags code ++ more) ∷ rs
    → cycle_for_read previous timer c ≡ (ok (type_code connack), answered flags code more rs c)
unfolding cycle_for_read write_packet_rem_len write_packet_rem_len_loop handle_packet note_alive
    type_code header_type
cycle_connack previous timer flags code more rs c room arrives =
    rw
      (read_mqtt_packet_whole 0x20 (flags ∷ code ∷ []) more rs c (omega arith) (omega arith)
        arrives)
      refl

pub read_clock_lem :
    (t : ℕ) (ts : List ℕ) (c : Client)
    → c.world.clock ≡ t ∷ ts
    → read_clock c ≡ (some t, ticked ts c)
unfolding read_clock
read_clock_lem t ts c e = ground arith

not_expired : (end_time t : ℕ) → t ≤ end_time → is_expired end_time (some t) ≡ false
unfolding is_expired
not_expired end_time t early = ground arith

pub wait_connack :
    (timer t flags code : ℕ) (ts more : List ℕ) (rs : List ReadReply) (c : Client)
    → c.world.clock ≡ t ∷ ts
    → t ≤ timer
    → 4 ≤ length c.read_buf
    → c.world.reads ≡ received (connack_bytes flags code ++ more) ∷ rs
    → wait_for_read (type_code connack) timer c ≡ (ok tt, answered flags code more rs (ticked ts c))
unfolding wait_round type_code
wait_connack timer t flags code ts more rs c clock early room arrives =
    let clocked = read_clock_lem t ts c clock in
    let waits = not_expired timer t early in
    let read = cycle_connack 0 timer flags code more rs (ticked ts c) room arrives in
    rw (wait_for_read-eq (type_code connack) timer c) (rw clocked (rw waits (rw read refl)))

pub deserialize_connack_bytes :
    (flags code n : ℕ) (rest : List ℕ)
    → 4 ≤ n
    → (f : ℕ) × (deserialize_connack_packet (connack_bytes flags code ++ rest) n
        ≡ ok (f, connack_result code))
unfolding deserialize_connack_packet read_char read_rem_len read_packet_rem_len_form_buf
    decode_packet_rem_len header_type type_code
deserialize_connack_bytes flags code n rest h = (bit_and flags 0x01, ground arith)
