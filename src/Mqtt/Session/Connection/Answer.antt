-- ===== src/Mqtt/Session/Connection/Answer.antt =====
-- A connection that the server answers.
use mathlib.Core.List.{append_assoc}
use esp_qcloud.Prelude.{
  if◌then◌else◌, ℕ, ◌+◌, ◌%◌, ◌^◌, ◌≤◌, ◌<◌, ◌≡◌, refl, ◌∙◌, arith, Option, Bool, false, List, [],
  ◌∷◌, ◌++◌, length, drop, ◌==◌, inl, inr, Outcome, ok,
}
use esp_qcloud.Mqtt.Ack.{connack_result}
use esp_qcloud.Mqtt.Connect.{ConnectParams, serialize_connect_packet}
use esp_qcloud.Mqtt.Client.{Client, Output, to_network, closed, ReadReply, received, continue}
use esp_qcloud.Mqtt.WaitList.{countdown_ms}
use esp_qcloud.Mqtt.Net.Send.{ticked}
use esp_qcloud.Mqtt.Session.Connection.{
  copy_connect_params, net_connect, take_connect, established, with_texts, exchange,
  connect_network, after_connect, mqtt_connect,
}
use esp_qcloud.Mqtt.Wait.Connack.{
  read_clock_lem, wait_connack, deserialize_connack_bytes, connack_bytes, answered,
}
use esp_qcloud.Mqtt.Session.Connection.Steps.{
  write_packet_lem, send_packet, sent, Says, established_outputs, is_established, connect_succeeds,
  connack_result-Says, as_status,
}

-- What the world answers: readings before the timer's end, and a CONNACK.
record IsAnswered (timer t u flags code : ℕ) (ts more : List ℕ) (rs : List ReadReply) (c : Client)
    : Type 0 where
  clock : c.world.clock ≡ t ∷ u ∷ ts
  early : t ≤ timer
  later : u ≤ timer
  writes : c.world.writes ≡ []
  arrives : c.world.reads ≡ received (connack_bytes flags code ++ more) ∷ rs
  room : 4 ≤ length c.read_buf

module _ (with_key : Bool) (texts : Client → List ℕ × Option (List ℕ)) where
  exchange-answered :
      (timer t u flags code : ℕ) (ts more packet : List ℕ) (rs : List ReadReply) (c : Client)
      → IsAnswered timer t u flags code ts more rs c
      → serialize_connect_packet with_key (length c.write_buf) (with_texts with_key texts c)
        ≡ ok packet
      → 0 < length packet
      → length packet < length c.write_buf
      → exchange with_key texts timer c
        ≡ continue
            (connack_result code)
            (λ v d. (ok tt, established d))
            (answered flags code more rs (ticked ts (sent packet (u ∷ ts) c)))
  unfolding exchange
  exchange-answered timer t u flags code ts more packet rs c w packed some_bytes fits =
      let d = sent packet (u ∷ ts) c in
      let written = write_packet_lem packet c (omega arith) in
      let sending =
        send_packet packet timer t (u ∷ ts) c some_bytes fits w.clock w.early w.writes in
      let waited = wait_connack timer u flags code ts more rs d refl w.later w.room w.arrives in
      let e = answered flags code more rs (ticked ts d) in
      let (f, read) =
        deserialize_connack_bytes flags code (length e.read_buf)
          (drop 2 (drop 1 (drop 1 c.read_buf))) (omega arith) in
      rw (packed) (rw written (rw sending (rw waited (rw read refl))))

  -- The client that has the options, behind the first reading of the clock.
  abbrev pub asking : ConnectParams → List ℕ → Client → Client
  asking p ts c = copy_connect_params p (ticked ts c)

  network_answered :
      (p : ConnectParams) (s t u flags code : ℕ) (ts more packet : List ℕ) (rs : List ReadReply)
      (c : Client)
      → c.world.clock ≡ s ∷ t ∷ u ∷ ts
      → c.world.connects ≡ []
      → IsAnswered
          ((s + c.command_timeout_ms) % 2 ^ 32)
          t
          u
          flags
          code
          ts
          more
          rs
          (asking p (t ∷ u ∷ ts) c)
      → serialize_connect_packet with_key
          (length c.write_buf)
          (with_texts with_key texts (asking p (t ∷ u ∷ ts) c))
        ≡ ok packet
      → 0 < length packet
      → length packet < length c.write_buf
      → connect_network with_key texts p c
        ≡ continue
            (connack_result code)
            (λ v d. (ok tt, established d))
            (answered flags code more rs
              (ticked ts (sent packet (u ∷ ts) (asking p (t ∷ u ∷ ts) c))))
  unfolding connect_network copy_connect_params net_connect take_connect countdown_ms
  network_answered p s t u flags code ts more packet rs c clock connects w packed some_bytes fits =
      let clocked = read_clock_lem s (t ∷ u ∷ ts) c clock in
      let exchanged =
        exchange-answered _ t u flags code ts more packet rs (asking p (t ∷ u ∷ ts) c) w packed
          some_bytes fits in
      let connected = connect_succeeds c.world.connects (asking p (t ∷ u ∷ ts) c) connects in
      rw clocked (rw connected exchanged)

  begins :
      (p : ConnectParams) (c : Client)
      → c.is_connected ≡ false
      → mqtt_connect with_key texts p c
        ≡ after_connect with_key texts
            (connect_network with_key texts p c).0
            (connect_network with_key texts p c).1
  unfolding mqtt_connect
  begins p c off = simp off refl

  after_answer :
      (q : Outcome (Unit {0})) (accepts : Bool) (packet : List ℕ) (os : List Output) (e : Client)
      → Says q accepts
      → e.is_connected ≡ false
      → e.world.outputs ≡ os ++ (to_network packet ∷ [])
      → let a = continue q (λ v d. (ok tt, established d)) e in
        let r = after_connect with_key texts a.0 a.1 in
        (r.0 ≡ as_status q)
        × (r.1.is_connected ≡ accepts)
        × (r.1.world.outputs ≡ os ++ (to_network packet ∷ (if accepts then [] else closed ∷ [])))
  unfolding after_connect
  after_answer q accepts packet os e (inl (h, k)) off said =
      rw (h, k) (refl, is_established e, established_outputs e ∙ said)
  after_answer q accepts packet os e (inr ((x, h), k)) off said =
      rw (h, k) (refl, off, rw said (append_assoc os _ _))

  -- A client without a connection asks for one, the network takes its CONNECT packet, the server
  -- answers with a CONNACK, and neither test of the timer finds it expired. The client returns what
  -- the code of the CONNACK says, it is connected exactly if the code is 0, and it has sent the
  -- CONNECT packet of its parameters and nothing else, and closed the network behind it if it was
  -- refused.
  pub mqtt_connect_answered :
      (p : ConnectParams) (s t u flags code : ℕ) (ts more packet : List ℕ) (rs : List ReadReply)
      (c : Client)
      → c.is_connected ≡ false
      → c.world.clock ≡ s ∷ t ∷ u ∷ ts
      → t ≤ (s + c.command_timeout_ms) % 2 ^ 32
      → u ≤ (s + c.command_timeout_ms) % 2 ^ 32
      → c.world.connects ≡ []
      → c.world.writes ≡ []
      → c.world.reads ≡ received (connack_bytes flags code ++ more) ∷ rs
      → 4 ≤ length c.read_buf
      → serialize_connect_packet with_key
          (length c.write_buf)
          (with_texts with_key texts (asking p (t ∷ u ∷ ts) c))
        ≡ ok packet
      → 0 < length packet
      → length packet < length c.write_buf
      → let r = mqtt_connect with_key texts p c in
        (r.0 ≡ as_status (connack_result code))
        × (r.1.is_connected ≡ (code == 0))
        × (r.1.world.outputs
            ≡ c.world.outputs ++ (to_network packet ∷ (if code == 0 then [] else closed ∷ [])))
  unfolding copy_connect_params
  mqtt_connect_answered p s t u flags code ts more packet rs c off clock early later connects writes
        arrives room packed some_bytes fits =
      let d = asking p (t ∷ u ∷ ts) c in
      let timer = (s + c.command_timeout_ms) % 2 ^ 32 in
      let w : IsAnswered timer t u flags code ts more rs d = record {
        clock = refl;
        early = early;
        later = later;
        writes = writes;
        arrives = arrives;
        room = room;
      } in
      let answer =
        network_answered p s t u flags code ts more packet rs c clock connects w packed some_bytes
          fits in
      rw (begins p c off) (
        rw answer (
          after_answer (connack_result code) (code == 0) packet c.world.outputs
            (answered flags code more rs (ticked ts (sent packet (u ∷ ts) d)))
            (connack_result-Says code) off refl))
