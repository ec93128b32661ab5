-- ===== src/Mqtt/Wire/RemLen.antt =====
-- The remaining length of a packet: what the writer puts is what the reader finds.
use esp_qcloud.Prelude.{
  ℕ, suc, ◌+◌, ◌*◌, ◌/◌, ◌%◌, ◌^◌, ◌≤◌, ◌<◌, ◌≡◌, refl, arith, List, [], ◌∷◌, ◌++◌, length, All, ok,
  err, bit_and,
}
use esp_qcloud.Prelude.Bits.{low_seven, top_bit, set_top_bit}
use esp_qcloud.Prelude.Codes.{mqtt_packet_read}
use esp_qcloud.Mqtt.Wire.{
  write_packet_rem_len_loop, write_packet_rem_len, decode_packet_rem_len,
  read_packet_rem_len_form_buf, get_mqtt_packet_len,
}

-- One round of the writer, in plain arithmetic.
write_last : (r n : ℕ) → n < 128 → write_packet_rem_len_loop (suc r) n ≡ n ∷ []
unfolding write_packet_rem_len_loop
write_last r n h = ground arith

write_more :
    (r n : ℕ)
    → 128 ≤ n
    → write_packet_rem_len_loop (suc r) n ≡ (n % 128 + 128) ∷ write_packet_rem_len_loop r (n / 128)
unfolding write_packet_rem_len_loop
write_more r n h = ground (arith, set_top_bit (n % 128) (omega arith))

-- One round of the reader.
read_last :
    (c value multiplier len : ℕ) (rest : List ℕ)
    → c < 128
    → len ≤ 3
    → value + c * multiplier < 2 ^ 32
    → decode_packet_rem_len (c ∷ rest) value multiplier len ≡ ok (value + c * multiplier, len + 1)
unfolding decode_packet_rem_len
read_last c value multiplier len rest hc hl fits = ground (arith, low_seven c, top_bit c)

read_more :
    (c value multiplier len : ℕ) (rest : List ℕ)
    → c < 128
    → len ≤ 3
    → value + c * multiplier < 2 ^ 32
    → decode_packet_rem_len ((c + 128) ∷ rest) value multiplier len
      ≡ decode_packet_rem_len rest (value + c * multiplier) (multiplier * 128 % 2 ^ 32) (len + 1)
unfolding decode_packet_rem_len
read_more c value multiplier len rest hc hl fits =
    ground (arith, low_seven (c + 128), top_bit (c + 128))

-- The reader from its fourth, third, second and first byte on.
read_write_fourth :
    (r n value : ℕ) (rest : List ℕ)
    → n < 128
    → value < 2 ^ 21
    → decode_packet_rem_len (write_packet_rem_len_loop (suc r) n ++ rest) value (2 ^ 21) 3
      ≡ ok (value + n * 2 ^ 21, 3 + length (write_packet_rem_len_loop (suc r) n))
read_write_fourth r n value rest h hv =
    ground (arith, write_last r n, read_last n value (2 ^ 21) 3 rest)

read_write_third :
    (r n value : ℕ) (rest : List ℕ)
    → n < 128 ^ 2
    → value < 2 ^ 14
    → decode_packet_rem_len (write_packet_rem_len_loop (suc (suc r)) n ++ rest) value (2 ^ 14) 2
      ≡ ok (value + n * 2 ^ 14, 2 + length (write_packet_rem_len_loop (suc (suc r)) n))
read_write_third r n value rest h hv = ground (
  arith,
  write_last (suc r) n,
  write_more (suc r) n,
  read_last n value (2 ^ 14) 2 rest,
  read_more (n % 128) value (2 ^ 14) 2 (write_packet_rem_len_loop (suc r) (n / 128) ++ rest),
  read_write_fourth r (n / 128) (value + n % 128 * 2 ^ 14) rest,
)

read_write_second :
    (r n value : ℕ) (rest : List ℕ)
    → n < 128 ^ 3
    → value < 2 ^ 7
    → decode_packet_rem_len
        (write_packet_rem_len_loop (suc (suc (suc r))) n ++ rest)
        value
        (2 ^ 7)
        1
      ≡ ok (value + n * 2 ^ 7, 1 + length (write_packet_rem_len_loop (suc (suc (suc r))) n))
read_write_second r n value rest h hv = ground (
  arith,
  write_last (suc (suc r)) n,
  write_more (suc (suc r)) n,
  read_last n value (2 ^ 7) 1 rest,
  read_more (n % 128) value (2 ^ 7) 1 (write_packet_rem_len_loop (suc (suc r)) (n / 128) ++ rest),
  read_write_third r (n / 128) (value + n % 128 * 2 ^ 7) rest,
)

-- Reading back what was written for a length below 2 ^ 28 gives the length, and the number of
-- bytes that were written, whatever follows them.
pub read-write_packet_rem_len :
    (n : ℕ) (rest : List ℕ)
    → n < 2 ^ 28
    → read_packet_rem_len_form_buf (write_packet_rem_len n ++ rest)
      ≡ ok (n, length (write_packet_rem_len n))
unfolding write_packet_rem_len read_packet_rem_len_form_buf
read-write_packet_rem_len n rest h = ground (
  arith,
  write_last 4 n,
  write_more 4 n,
  read_last n 0 1 0 rest,
  read_more (n % 128) 0 1 0 (write_packet_rem_len_loop 4 (n / 128) ++ rest),
  read_write_second 1 (n / 128) (n % 128) rest,
)

fifth_byte :
    (buf : List ℕ) (value multiplier : ℕ)
    → (c : ℕ) → decode_packet_rem_len (c ∷ buf) value multiplier 4 ≡ err mqtt_packet_read
unfolding decode_packet_rem_len
fifth_byte buf value multiplier c = refl

four_more :
    (a b c d e : ℕ) (rest : List ℕ)
    → a < 128
    → b < 128
    → c < 128
    → d < 128
    → decode_packet_rem_len ((a + 128) ∷ (b + 128) ∷ (c + 128) ∷ (d + 128) ∷ e ∷ rest) 0 1 0
      ≡ err mqtt_packet_read
four_more a b c d e rest ha hb hc hd = ground (
  arith,
  read_more a 0 1 0 ((b + 128) ∷ (c + 128) ∷ (d + 128) ∷ e ∷ rest),
  read_more b a 128 1 ((c + 128) ∷ (d + 128) ∷ e ∷ rest),
  read_more c (a + b * 128) (128 * 128) 2 ((d + 128) ∷ e ∷ rest),
  read_more d (a + b * 128 + c * (128 * 128)) (128 * 128 * 128) 3 (e ∷ rest),
  fifth_byte rest (a + b * 128 + c * (128 * 128) + d * (128 * 128 * 128)) (2 ^ 28) e,
)

-- A length of 28 to 32 bits is written in five bytes, and the reader refuses it.
pub read-write_too_long :
    (n : ℕ) (rest : List ℕ)
    → 2 ^ 28 ≤ n
    → n < 2 ^ 32
    → (read_packet_rem_len_form_buf (write_packet_rem_len n ++ rest) ≡ err mqtt_packet_read)
      × (length (write_packet_rem_len n) ≡ 5)
unfolding write_packet_rem_len read_packet_rem_len_form_buf
read-write_too_long n rest h k =
    let n1 = n / 128 in
    let n2 = n1 / 128 in
    let n3 = n2 / 128 in
    let n4 = n3 / 128 in
    ground (
      arith,
      write_more 4 n,
      write_more 3 n1,
      write_more 2 n2,
      write_more 1 n3,
      write_last 0 n4,
      four_more (n % 128) (n1 % 128) (n2 % 128) (n3 % 128) n4 rest,
    )

-- The packet length covers the header byte, the bytes of the remaining length and the rest, and
-- is at most one more.
pub get_mqtt_packet_len_bounds :
    (n : ℕ)
    → n < 2 ^ 28
    → (1 + length (write_packet_rem_len n) + n ≤ get_mqtt_packet_len n)
      × (get_mqtt_packet_len n ≤ 2 + length (write_packet_rem_len n) + n)
unfolding write_packet_rem_len get_mqtt_packet_len write_packet_rem_len_loop
get_mqtt_packet_len_bounds n h = ground arith

accepts_fourth :
    (buf : List ℕ) (value v n : ℕ)
    → All (λ b. b < 256) buf
    → value < 2 ^ 21
    → decode_packet_rem_len buf value (2 ^ 21) 3 ≡ ok (v, n)
    → (v < 2 ^ 28) × (n ≡ 4) × (n ≤ 3 + length buf)
unfolding decode_packet_rem_len
accepts_fourth [] value v n hb hv e = cc
accepts_fourth (c ∷ []) value v n hb hv e = ground (arith, low_seven c)
accepts_fourth (c ∷ d ∷ cs) value v n hb hv e = ground (arith, low_seven c)

accepts_third :
    (buf : List ℕ) (value v n : ℕ)
    → All (λ b. b < 256) buf
    → value < 2 ^ 14
    → decode_packet_rem_len buf value (2 ^ 14) 2 ≡ ok (v, n)
    → (v < 2 ^ 28) × (3 ≤ n) × (n ≤ 4) × (n ≤ 2 + length buf)
unfolding decode_packet_rem_len
accepts_third [] value v n hb hv e = cc
accepts_third (c ∷ cs) value v n hb hv e =
    ground (arith, low_seven c, accepts_fourth cs (value + bit_and c 127 * 2 ^ 14) v n)

accepts_second :
    (buf : List ℕ) (value v n : ℕ)
    → All (λ b. b < 256) buf
    → value < 2 ^ 7
    → decode_packet_rem_len buf value (2 ^ 7) 1 ≡ ok (v, n)
    → (v < 2 ^ 28) × (2 ≤ n) × (n ≤ 4) × (n ≤ 1 + length buf)
unfolding decode_packet_rem_len
accepts_second [] value v n hb hv e = cc
accepts_second (c ∷ cs) value v n hb hv e =
    ground (arith, low_seven c, accepts_third cs (value + bit_and c 127 * 2 ^ 7) v n)

-- Whatever bytes the buffer holds, a length that the reader accepts is below 2 ^ 28, and was
-- read from 1 to 4 bytes, all of them in the buffer.
pub read_packet_rem_len_bounds :
    (buf : List ℕ) (v n : ℕ)
    → All (λ b. b < 256) buf
    → read_packet_rem_len_form_buf buf ≡ ok (v, n)
    → (v < 2 ^ 28) × (1 ≤ n) × (n ≤ 4) × (n ≤ length buf)
unfolding read_packet_rem_len_form_buf decode_packet_rem_len
read_packet_rem_len_bounds [] v n hb e = cc
read_packet_rem_len_bounds (c ∷ cs) v n hb e =
    ground (arith, low_seven c, accepts_second cs (bit_and c 127) v n)
