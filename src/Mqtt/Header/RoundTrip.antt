-- ===== src/Mqtt/Header/RoundTrip.antt =====
-- The fields of a header byte, read back.
use esp_qcloud.Prelude.{ℕ, ◌<◌, ◌≡◌, refl, Bool, true, ◌&&◌, ◌==◌, arith, ok, ◌≢◌, ltb}
use esp_qcloud.Prelude.Bits.{holds_below, holds_below-at}
use esp_qcloud.Mqtt.Header.{
  MessageType, reserved, type_code, header_byte, init_packet_header, header_type, header_dup,
  header_qos, header_retain,
}

reads_back : ℕ → ℕ → ℕ → ℕ → Bool
reads_back type qos dup retained =
    let h = header_byte type qos dup retained in
    ltb h 256
    && (header_type h == type
        && (header_dup h == dup && (header_qos h == qos && header_retain h == retained)))

all_read_back : ℕ → Bool
all_read_back type =
    holds_below 3 (λ q. holds_below 2 (λ d. holds_below 2 (λ r. reads_back type q d r)))

header_table : holds_below 16 all_read_back ≡ true
unfolding holds_below all_read_back reads_back header_byte header_type header_dup header_qos
    header_retain
header_table = refl

header_fields :
    (type qos dup retained : ℕ)
    → type < 16
    → qos < 3
    → dup < 2
    → retained < 2
    → let h = header_byte type qos dup retained in
      (h < 256)
      × (header_type h ≡ type)
      × (header_dup h ≡ dup)
      × (header_qos h ≡ qos)
      × (header_retain h ≡ retained)
unfolding all_read_back reads_back
header_fields type qos dup retained ht hq hd hr = ground (arith, table)
  where
    table : reads_back type qos dup retained ≡ true
    table =
        holds_below-at 2 (λ r. reads_back type qos dup r) retained
          (holds_below-at 2 (λ d. holds_below 2 (λ r. reads_back type qos d r)) dup
            (holds_below-at 3 (λ q. holds_below 2 (λ d. holds_below 2 (λ r. reads_back type q d r)))
              qos (holds_below-at 16 all_read_back type header_table ht) hq)
            hd)
          hr

pub type_code-lt : (t : MessageType) → type_code t < 15
unfolding type_code
type_code-lt reserved = omega arith
type_code-lt _ = omega arith

header_ok :
    (t : MessageType) (qos dup retained : ℕ)
    → t ≢ reserved
    → init_packet_header t qos dup retained ≡ ok (header_byte (type_code t) qos dup retained)
unfolding init_packet_header
header_ok reserved qos dup retained h = absurd (h refl)
header_ok _ qos dup retained h = refl

-- The header byte of every message type but RESERVED, with a QoS up to 2 and one-bit flags, is a
-- byte from which the deserializers read the same type, flags and QoS.
pub init_packet_header_fields :
    (t : MessageType) (qos dup retained : ℕ)
    → t ≢ reserved
    → qos < 3
    → dup < 2
    → retained < 2
    → (h : ℕ) × (init_packet_header t qos dup retained ≡ ok h)
      × (h < 256)
      × (header_type h ≡ type_code t)
      × (header_dup h ≡ dup)
      × (header_qos h ≡ qos)
      × (header_retain h ≡ retained)
init_packet_header_fields t qos dup retained ne hq hd hr =
    let (a, b, c, d, e) =
      header_fields (type_code t) qos dup retained (omega (arith, type_code-lt t)) hq hd hr in
    (header_byte (type_code t) qos dup retained, header_ok t qos dup retained ne, a, b, c, d, e)
