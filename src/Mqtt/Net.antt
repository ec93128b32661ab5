-- ===== src/Mqtt/Net.antt =====
-- Packets to and from the network: `send_mqtt_packet`, `_decode_packet_rem_len_with_net_read` and
-- `_read_mqtt_packet` of sdk_src/mqtt_client_common.c. The network's functions are the client's
-- function pointers; their timeouts decide nothing here.
pub mod Frame
pub mod Reading
pub mod Send
pub mod Receive
use esp_qcloud.Prelude.{
  ℕ, zero, suc, ◌+◌, ◌-◌, ◌*◌, ◌%◌, ◌^◌, bit_and, Option, none, some, Bool, true, false, ◌&&◌, not,
  List, [], ◌∷◌, ◌++◌, length, take, drop, ltb, leb, ◌==◌, if◌then◌else◌, Outcome, ok, err, fault,
}
use esp_qcloud.Prelude.Codes.{
  Code, failure, buf_too_short, mqtt_packet_read, mqtt_nothing_to_read, ssl_nothing_to_read,
  tcp_nothing_to_read, ssl_read_timeout,
}
use esp_qcloud.Mqtt.Wire.{write_packet_rem_len}
use esp_qcloud.Mqtt.Header.{header_type}
use esp_qcloud.Mqtt.Client.{
  Client, Output, to_network, ReadReply, received, read_failed, WriteReply, accepted, write_failed,
  Action, pure, fail, lift, run, modify, continue, ◌>>=◌, ◌>>◌, output,
}
use esp_qcloud.Mqtt.WaitList.{read_clock}

-- `expired`: the time is past the timer's end.
unfoldable pub is_expired : ℕ → Option ℕ → Bool
is_expired end_time none = true
is_expired end_time (some now) = ltb end_time now

-- One call of `network_stack.write` with these bytes: the number that it took.
unfoldable pub take_write : List WriteReply → List ℕ → Client → Outcome ℕ × Client
take_write [] bytes c = (ok (length bytes), output (to_network bytes) c)
take_write (accepted n ∷ ws) bytes c =
    (ok n, output (to_network (take n bytes)) (record c { world = record c.world { writes = ws } }))
take_write (write_failed e ∷ ws) bytes c =
    (err e, record c { world = record c.world { writes = ws } })

unfoldable pub net_write : List ℕ → Action ℕ
unfolding take_write
net_write bytes c = take_write c.world.writes bytes c

-- What `&write_buf[sent]` shows of the `length` bytes that are asked for; past the buffer's end
-- there are none.
unfoldable pub slice : ℕ → ℕ → List ℕ → Outcome (List ℕ)
slice sent len buf = if leb (sent + len) (length buf) then ok (take len (drop sent buf)) else fault

-- The loop, by the clock readings that are left: without one the timer has expired. A round asks
-- for all `len` bytes from `&write_buf[sent]` on. Where the test ends the loop, `rc` is 0.
unfoldable pub send_loop : List ℕ → ℕ → ℕ → ℕ → Action (Unit {0})
unfolding slice
send_loop [] len end_time sent c = (ok tt, c)
send_loop (t ∷ ts) len end_time sent c =
    if not (ltb sent len)
    then (ok tt, c)
    else if is_expired end_time (some t)
    then (ok tt, record c { world = record c.world { clock = ts } })
    else (do
      bytes ← lift (slice sent len c.write_buf)
      n ← net_write bytes
      send_loop ts len end_time (sent + n))
        (record c { world = record c.world { clock = ts } })

-- The second number is the timer's end.
unfoldable pub send_mqtt_packet : ℕ → ℕ → Action (Unit {0})
unfolding send_loop
send_mqtt_packet len end_time c =
    if leb (length c.write_buf) len
    then (err buf_too_short, c)
    else send_loop c.world.clock len end_time 0 c

-- `network_stack.read`, which is `HAL_TLS_Read` of platform/HAL_TLS_mbedtls.c. A reply `received`
-- is what arrives before the read times out: the bytes stored, and the return code.
take_read : List ReadReply → ℕ → Client → (List ℕ × Outcome (Unit {0})) × Client
take_read [] len c = (([], err ssl_nothing_to_read), c)
take_read (read_failed e ∷ rs) len c =
    (([], err e), record c { world = record c.world { reads = rs } })
take_read (received bytes ∷ rs) len c =
    if leb len (length bytes)
    then (
      (take len bytes, ok tt),
      record c { world = record c.world { reads = received (drop len bytes) ∷ rs } },
    )
    else (
      (bytes, err (if length bytes == 0 then ssl_nothing_to_read else ssl_read_timeout)),
      record c { world = record c.world { reads = rs } },
    )

unfoldable pub net_read : ℕ → Client → (List ℕ × Outcome (Unit {0})) × Client
unfolding take_read
net_read len c = take_read c.world.reads len c

-- Bytes put into a buffer from an offset on; past its end they may not go.
unfoldable pub put_bytes : ℕ → List ℕ → List ℕ → Outcome (List ℕ)
put_bytes at bytes buf =
    if leb (at + length bytes) (length buf)
    then ok (take at buf ++ (bytes ++ drop (at + length bytes) buf))
    else fault

store_read : ℕ → List ℕ → Action (Unit {0})
store_read at bytes = do
  buf ← (λ c. (put_bytes at bytes c.read_buf, c))
  modify (λ c. record c { read_buf = buf })

-- A read into `&read_buf[at]`: what arrived is stored, also when the read fails.
read_into : ℕ → ℕ → Action (Unit {0})
unfolding store_read
read_into at len = do (bytes, rc) ← run (net_read len); store_read at bytes; lift rc

-- The first byte of a list that was read whole with length 1.
one_byte : List ℕ → Outcome (Unit {0}) → Outcome ℕ
one_byte (b ∷ bs) (ok u) = ok b
one_byte bytes rc = err failure

-- The rounds left of MAX_NO_OF_REMAINING_LENGTH_BYTES.
unfoldable pub decode_packet_rem_len_with_net_read : ℕ → ℕ → ℕ → Action ℕ
unfolding one_byte
decode_packet_rem_len_with_net_read zero value multiplier = fail mqtt_packet_read
decode_packet_rem_len_with_net_read (suc rounds) value multiplier = do
  (bytes, rc) ← run (net_read 1)
  i ← lift (one_byte bytes rc)
  let value' = (value + bit_and i 127 * multiplier % 2 ^ 32) % 2 ^ 32
  let more = decode_packet_rem_len_with_net_read rounds value' (multiplier * 128 % 2 ^ 32)
  if bit_and i 128 == 0 then pure value' else more

-- The loop that reads past a packet that is too long. A read that succeeds takes a byte at least,
-- so `rem_len` rounds are enough.
discard : ℕ → ℕ → ℕ → ℕ → Client → Client
discard zero rem_len total to_read c = c
discard (suc rounds) rem_len total to_read c =
    let ((bytes, rc), c') = net_read to_read c in
    let (_, d) = store_read 0 bytes c' in
    let total' = total + length bytes in
    let left = rem_len - total' in
    let size = length c.read_buf in
    let more = discard rounds rem_len total' (if leb size left then size else left) d in
    elim rc [ ok u ↦ if ltb total' rem_len then more else d | _ ↦ d ]

is_nothing : Code → Bool
is_nothing ssl_nothing_to_read = true
is_nothing tcp_nothing_to_read = true
is_nothing _ = false

nothing_to_read : Outcome (Unit {0}) → Outcome (Unit {0})
unfolding is_nothing
nothing_to_read (ok u) = ok tt
nothing_to_read (err e) = if is_nothing e then err mqtt_nothing_to_read else err e
nothing_to_read fault = fault

first_byte : List ℕ → Outcome ℕ
first_byte [] = fault
first_byte (b ∷ bs) = ok b

-- The payload behind the header of `len` bytes.
read_payload : ℕ → ℕ → Action (Unit {0})
unfolding read_into
read_payload len rem_len c =
    if not (ltb 0 rem_len)
    then (ok tt, c)
    else if ltb (length c.read_buf) (len + rem_len)
    then (let (_, d) = read_into 0 rem_len c in (err buf_too_short, d))
    else read_into len rem_len c

too_long : ℕ → Client → Bool
too_long rem_len c = leb (length c.read_buf) rem_len

-- The result is the packet's type.
unfoldable pub read_mqtt_packet : Action ℕ
unfolding nothing_to_read discard read_payload first_byte too_long store_read
read_mqtt_packet = do
  (bytes, rc) ← run (net_read 1)
  store_read 0 bytes
  lift (nothing_to_read rc)
  rem_len ← decode_packet_rem_len_with_net_read 4 0 1
  long ← (λ c. (ok (too_long rem_len c), c))
  if long then (λ c. (err buf_too_short, discard rem_len rem_len 0 (length c.read_buf) c)) else (do
    store_read 1 (write_packet_rem_len rem_len)
    read_payload (1 + length (write_packet_rem_len rem_len)) rem_len
    header ← (λ c. (first_byte c.read_buf, c))
    pure (header_type header))
