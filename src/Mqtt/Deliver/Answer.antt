-- ===== src/Mqtt/Deliver/Answer.antt =====
-- The acknowledgement that a received PUBLISH or PUBREC is answered with: its bytes, and how it is
-- sent when the network takes it.
use esp_qcloud.Prelude.{
  ℕ, ◌%◌, ◌/◌, ◌≤◌, ◌<◌, ◌≡◌, refl, arith, List, [], ◌∷◌, ◌++◌, length, length-drop, drop, ◌==◌,
  if◌then◌else◌, ok, ◌⊎◌, inl, inr, Bool-cases,
}
use esp_qcloud.Mqtt.Wire.{write_packet_rem_len, write_packet_rem_len_loop, write_uint_16}
use esp_qcloud.Mqtt.Header.{
  MessageType, puback, pubrec, pubrel, qos1, init_packet_header, type_code,
}
use esp_qcloud.Mqtt.Ack.{serialize_pub_ack_packet, request_qos}
use esp_qcloud.Mqtt.Client.{Client, to_network, output}
use esp_qcloud.Mqtt.Net.{put_bytes}
use esp_qcloud.Mqtt.Net.Send.{ticked, send_mqtt_packet_whole}
use esp_qcloud.Mqtt.Deliver.{write_and_send, send_ack}

-- The network takes what it is given, and the timer has not expired when a packet is sent.
pub record IsReady (timer t : ℕ) (ts : List ℕ) (c : Client) : Type 0 where
  pub room : 4 < length c.write_buf
  pub clock : c.world.clock ≡ t ∷ ts
  pub early : t ≤ timer
  pub takes : c.world.writes ≡ []

-- The four bytes of an acknowledgement: its first byte, the remaining length and the packet id.
abbrev pub ack_bytes : ℕ → ℕ → List ℕ
ack_bytes header packet_id = header ∷ 2 ∷ write_uint_16 packet_id

-- The first byte.
abbrev pub ack_header : MessageType → ℕ
ack_header puback = 0x40
ack_header pubrec = 0x50
ack_header pubrel = 0x62
ack_header _ = 0

-- The client after a packet of four bytes went out of the write buffer.
abbrev pub sent : List ℕ → List ℕ → Client → Client
sent packet ts c =
    output (to_network packet) (ticked ts (record c { write_buf = packet ++ drop 4 c.write_buf }))

write_and_send-four :
    (a b d e timer t : ℕ) (ts : List ℕ) (c : Client)
    → IsReady timer t ts c
    → let packet = a ∷ b ∷ d ∷ e ∷ [] in write_and_send packet timer c ≡ (ok tt, sent packet ts c)
unfolding write_and_send put_bytes
write_and_send-four a b d e timer t ts c r =
    let packet = a ∷ b ∷ d ∷ e ∷ [] in
    ground (
      arith,
      r.room,
      r.clock,
      r.early,
      r.takes,
      length-drop 4 c.write_buf,
      send_mqtt_packet_whole 4 timer t ts (record c { write_buf = packet ++ drop 4 c.write_buf }),
    )

-- The three types that answer a publish.
abbrev pub Answers : MessageType → Type 0
Answers ty = (ty ≡ puback) ⊎ ((ty ≡ pubrec) ⊎ (ty ≡ pubrel))

answer_header :
    (ty : MessageType)
    → Answers ty
    → init_packet_header ty (request_qos ty) 0 0 ≡ ok (ack_header ty)
unfolding init_packet_header type_code request_qos
answer_header ty (inl e) = rw e refl
answer_header ty (inr (inl e)) = rw e refl
answer_header ty (inr (inr e)) = rw e refl

answer_bytes :
    (ty : MessageType) (buf_len id : ℕ)
    → Answers ty
    → 4 ≤ buf_len
    → serialize_pub_ack_packet buf_len ty 0 id ≡ ok (ack_bytes (ack_header ty) id)
unfolding serialize_pub_ack_packet write_packet_rem_len write_packet_rem_len_loop
answer_bytes ty buf_len id a h = ground (arith, answer_header ty a)

pub send_ack_whole :
    (ty : MessageType) (id timer t : ℕ) (ts : List ℕ) (c : Client)
    → Answers ty
    → IsReady timer t ts c
    → send_ack ty id timer c ≡ (ok tt, sent (ack_bytes (ack_header ty) id) ts c)
unfolding send_ack write_uint_16
send_ack_whole ty id timer t ts c a r =
    rw (answer_bytes ty (length c.write_buf) id a (omega (arith, r.room)))
      (write_and_send-four (ack_header ty) 2 (id / 256 % 256) (id % 256) timer t ts c r)

-- How a message of QoS 1 and any other is answered.
abbrev pub answer_type : ℕ → MessageType
answer_type qos = if qos == qos1 then puback else pubrec

pub answer_type-Answers : (qos : ℕ) → Answers (answer_type qos)
answer_type-Answers qos = elim (Bool-cases (qos == qos1)) [
  | inl e ↦ rw e (inl refl)
  | inr e ↦ rw e (inr (inl refl))
]
