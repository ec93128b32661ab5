-- ===== src/Mqtt/Header.antt =====
-- The first byte of a packet: `mqtt_init_packet_header` of sdk_src/mqtt_client_common.c, and the
-- masks by which the deserializers take it apart. A `QoS` is a number, since the deserializers
-- cast one from two bits of the wire.
pub mod RoundTrip
use esp_qcloud.Prelude.{ℕ, ◌*◌, ◌/◌, ◌^◌, bit_and, bit_or, ◌==◌, if◌then◌else◌, Outcome, ok, err}
use esp_qcloud.Prelude.Codes.{mqtt_unknown}

pub data MessageType : Type 0 where
  reserved connect connack publish puback pubrec pubrel pubcomp : MessageType
  subscribe suback unsubscribe unsuback pingreq pingresp disconnect : MessageType

-- The values of the enumeration.
unfoldable pub type_code : MessageType → ℕ
type_code reserved = 0
type_code connect = 1
type_code connack = 2
type_code publish = 3
type_code puback = 4
type_code pubrec = 5
type_code pubrel = 6
type_code pubcomp = 7
type_code subscribe = 8
type_code suback = 9
type_code unsubscribe = 10
type_code unsuback = 11
type_code pingreq = 12
type_code pingresp = 13
type_code disconnect = 14

abbrev pub qos0 : ℕ
qos0 = 0

abbrev pub qos1 : ℕ
qos1 = 1

abbrev pub qos2 : ℕ
qos2 = 2

-- An unknown `QoS` is sent as QOS0.
qos_bits : ℕ → ℕ
qos_bits qos = if qos == qos0 then 0 else if qos == qos1 then 1 else if qos == qos2 then 2 else 0

header_byte : ℕ → ℕ → ℕ → ℕ → ℕ
unfolding qos_bits
header_byte type qos dup retained =
    bit_or
      (bit_or (bit_or (bit_and (type * 2 ^ 4) 0xF0) (bit_and (dup * 2 ^ 3) 0x08))
        (bit_and (qos_bits qos * 2 ^ 1) 0x06))
      (bit_and retained 0x01)

unfoldable pub init_packet_header : MessageType → ℕ → ℕ → ℕ → Outcome ℕ
unfolding header_byte
init_packet_header reserved qos dup retained = err mqtt_unknown
init_packet_header message_type qos dup retained =
    ok (header_byte (type_code message_type) qos dup retained)

-- How the deserializers read the fields of a header.
unfoldable pub header_type : ℕ → ℕ
header_type header = bit_and header 0xF0 / 2 ^ 4

unfoldable pub header_dup : ℕ → ℕ
header_dup header = bit_and header 0x08 / 2 ^ 3

unfoldable pub header_qos : ℕ → ℕ
header_qos header = bit_and header 0x06 / 2 ^ 1

unfoldable pub header_retain : ℕ → ℕ
header_retain header = bit_and header 0x01
