-- ===== src/Mqtt/Wire.antt =====
-- The primitive readers and writers of sdk_src/mqtt_client_common.c. A writer is the list of the
-- bytes that it puts at `*pptr`, whose length is the advance of the pointer. `size_t` and
-- `uint32_t` have 32 bits, as on the ESP32 and the ESP8266.
pub mod RemLen
use esp_qcloud.Prelude.{
  ℕ, zero, suc, ◌+◌, ◌*◌, ◌/◌, ◌%◌, ◌^◌, bit_and, bit_or, List, [], ◌∷◌, ◌++◌, ltb, ◌==◌,
  if◌then◌else◌, length, drop, Outcome, ok, err, fault, ◌>>=◌,
}
use esp_qcloud.Prelude.Codes.{mqtt_packet_read}

-- One round writes `length % 128`, with the top bit set while digits are left. The first number
-- is the rounds that are left: a `uint32_t` has at most five digits of seven bits.
unfoldable pub write_packet_rem_len_loop : ℕ → ℕ → List ℕ
write_packet_rem_len_loop zero length = []
write_packet_rem_len_loop (suc rounds) length =
    let encode_byte = length % 128 in
    let rest = write_packet_rem_len_loop rounds (length / 128) in
    if ltb 0 (length / 128) then bit_or encode_byte 0x80 ∷ rest else encode_byte ∷ []

unfoldable pub write_packet_rem_len : ℕ → List ℕ
write_packet_rem_len length = write_packet_rem_len_loop 5 length

-- The size of a packet with this remaining length: the fixed header and the rest.
unfoldable pub get_mqtt_packet_len : ℕ → ℕ
get_mqtt_packet_len rem_len =
    let n = (rem_len + 1) % 2 ^ 32 in
    if ltb n 128
    then (n + 1) % 2 ^ 32
    else if ltb n 16384
    then (n + 2) % 2 ^ 32
    else if ltb n 2097151
    then (n + 3) % 2 ^ 32
    else (n + 4) % 2 ^ 32

-- `_decode_packet_rem_len_from_buf_read` over `bufchar`, which always delivers a byte; the list
-- is what the buffer holds from `bufptr` on. The result is the value and the bytes read.
unfoldable pub decode_packet_rem_len : List ℕ → ℕ → ℕ → ℕ → Outcome (ℕ × ℕ)
decode_packet_rem_len [] value multiplier len =
    if ltb 4 (len + 1) then err mqtt_packet_read else fault
decode_packet_rem_len (c ∷ cs) value multiplier len =
    let value' = (value + bit_and c 127 * multiplier % 2 ^ 32) % 2 ^ 32 in
    let more = decode_packet_rem_len cs value' (multiplier * 128 % 2 ^ 32) (len + 1) in
    if ltb 4 (len + 1)
    then err mqtt_packet_read
    else if bit_and c 128 == 0
    then ok (value', len + 1)
    else more

unfoldable pub read_packet_rem_len_form_buf : List ℕ → Outcome (ℕ × ℕ)
read_packet_rem_len_form_buf buf = decode_packet_rem_len buf 0 1 0

-- `curdata`: what the buffer holds from it on, and its offset from the buffer's start.
abbrev pub Cursor : Type 0
Cursor = List ℕ × ℕ

-- `curdata += n`
abbrev pub advance : ℕ → Cursor → Cursor
advance n (rest, at) = (drop n rest, at + n)

unfoldable pub read_char : Cursor → Outcome (ℕ × Cursor)
read_char ([], at) = fault
read_char (c ∷ rest, at) = ok (c, (rest, at + 1))

unfoldable pub read_uint16 : Cursor → Outcome (ℕ × Cursor)
read_uint16 (first ∷ second ∷ rest, at) = ok ((second + 256 * first) % 2 ^ 16, (rest, at + 2))
read_uint16 (_, at) = fault

unfoldable pub write_uint_16 : ℕ → List ℕ
write_uint_16 n = n / 256 % 256 ∷ n % 256 ∷ []

-- `(uint16_t) len` cuts the length that is written, not the copy.
unfoldable pub write_utf8_string : List ℕ → List ℕ
write_utf8_string string = write_uint_16 (length string % 2 ^ 16) ++ string

-- The deserializers' use of the reader: `curdata += readBytesLen` behind it.
unfoldable pub read_rem_len : Cursor → Outcome (ℕ × Cursor)
read_rem_len (rest, at) = do
  (decoded_len, read_bytes_len) ← read_packet_rem_len_form_buf rest
  ok (decoded_len, advance read_bytes_len (rest, at))
