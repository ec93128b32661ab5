-- ===== src/Mqtt/Connect.antt =====
-- CONNECT packets: `_get_packet_connect_rem_len` and `_serialize_connect_packet` of
-- sdk_src/mqtt_client_connect.c. The user name and the password are parameters: they are the texts
-- that HAL_Snprintf makes from the identity of the client, the clock and the signature.
pub mod Size
use esp_qcloud.Prelude.{
  ℕ, ◌+◌, bit_or, Option, none, some, Bool, true, false, List, [], ◌∷◌, ◌++◌, length, ltb, ◌==◌,
  if◌then◌else◌, Outcome, ok, err, ◌>>=◌,
}
use esp_qcloud.Prelude.Codes.{buf_too_short}
use esp_qcloud.Mqtt.Wire.{
  get_mqtt_packet_len, write_packet_rem_len, write_uint_16, write_utf8_string,
}
use esp_qcloud.Mqtt.Header.{connect, init_packet_header}

-- `MQTTConnectParams`, with what is set when the packet is written.
pub record ConnectParams : Type 0 where
  pub mqtt_version : ℕ
  pub client_id : List ℕ
  pub username : List ℕ
  pub password : Option (List ℕ)
  pub keep_alive_interval : ℕ
  pub clean_session : Bool
  pub auto_connect_enable : Bool

-- Nothing is counted for a version other than 3 and 4.
abbrev pub version_len : ℕ → ℕ
version_len version = if 3 == version then 12 else if 4 == version then 10 else 0

abbrev pub password_len : Option (List ℕ) → ℕ
password_len none = 0
password_len (some text) = length text + 2

unfoldable pub get_packet_connect_rem_len : ConnectParams → ℕ
get_packet_connect_rem_len p =
    version_len p.mqtt_version
    + (length p.client_id + 2)
    + (length p.username + 2)
    + password_len p.password

-- The protocol's name and version: "MQTT" and 4, or "MQIsdp" and 3.
unfoldable pub protocol : ℕ → List ℕ
protocol version =
    if 4 == version
    then write_utf8_string (0x4d ∷ 0x51 ∷ 0x54 ∷ 0x54 ∷ []) ++ (4 ∷ [])
    else write_utf8_string (0x4d ∷ 0x51 ∷ 0x49 ∷ 0x73 ∷ 0x64 ∷ 0x70 ∷ []) ++ (3 ∷ [])

-- Whether the build has AUTH_WITH_NOTLS and AUTH_MODE_KEY, which sets the flag of the password.
unfoldable pub connect_flags : Bool → ConnectParams → ℕ
connect_flags with_key p =
    let clean = (if p.clean_session then 0x02 else 0) in
    if with_key then bit_or (bit_or clean 0x80) 0x40 else bit_or clean 0x80

-- The password is written if its flag is set and it is there.
unfoldable pub password_field : Bool → Option (List ℕ) → List ℕ
password_field true (some text) = write_utf8_string text
password_field true none = []
password_field false password = []

unfoldable pub connect_body : Bool → ConnectParams → List ℕ
connect_body with_key p =
    protocol p.mqtt_version
    ++ (connect_flags with_key p
        ∷ (write_uint_16 p.keep_alive_interval
            ++ (write_utf8_string p.client_id
                ++ (write_utf8_string p.username ++ password_field with_key p.password))))

unfoldable pub serialize_connect_packet : Bool → ℕ → ConnectParams → Outcome (List ℕ)
serialize_connect_packet with_key buf_len p =
    let rem_len = get_packet_connect_rem_len p in
    if ltb buf_len (get_mqtt_packet_len rem_len) then err buf_too_short else do
      header ← init_packet_header connect 0 0 0
      ok (header ∷ (write_packet_rem_len rem_len ++ connect_body with_key p))
