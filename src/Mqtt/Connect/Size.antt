-- ===== src/Mqtt/Connect/Size.antt =====
-- The size that a CONNECT packet is given.
use esp_qcloud.Prelude.{
  ℕ, ◌+◌, ◌^◌, ◌≤◌, ◌<◌, ◌≡◌, ◌⊎◌, inl, inr, refl, arith, Option, none, some, Bool, true, false,
  List, ◌∷◌, ◌++◌, length, length-append, ok,
}
use esp_qcloud.Mqtt.Wire.{
  get_mqtt_packet_len, write_packet_rem_len, write_uint_16, write_utf8_string,
}
use esp_qcloud.Mqtt.Wire.RemLen.{get_mqtt_packet_len_bounds}
use esp_qcloud.Mqtt.Header.{connect, type_code, header_type}
use esp_qcloud.Mqtt.Header.RoundTrip.{init_packet_header_fields}
use esp_qcloud.Mqtt.Connect.{
  ConnectParams, version_len, password_len, get_packet_connect_rem_len, protocol, connect_flags,
  password_field, connect_body, serialize_connect_packet,
}

-- The password that a build writes is the one that it counts.
abbrev pub PasswordFits : Bool → Option (List ℕ) → Type 0
PasswordFits true password = Unit {0}
PasswordFits false password = password ≡ none

length-write_utf8_string : (text : List ℕ) → length (write_utf8_string text) ≡ length text + 2
unfolding write_utf8_string write_uint_16
length-write_utf8_string text = omega arith

length-password_field :
    (with_key : Bool) (password : Option (List ℕ))
    → PasswordFits with_key password
    → length (password_field with_key password) ≡ password_len password
unfolding password_field
length-password_field true (some text) f = length-write_utf8_string text
length-password_field true none f = refl
length-password_field false (some text) f = absurd (cc f)
length-password_field false none f = refl

length-protocol :
    (version : ℕ)
    → (version ≡ 3) ⊎ (version ≡ 4)
    → length (protocol version) + 3 ≡ version_len version
unfolding protocol write_utf8_string write_uint_16
length-protocol version (inl e) = rw e refl
length-protocol version (inr e) = rw e refl

pub length-connect_body :
    (with_key : Bool) (p : ConnectParams)
    → (p.mqtt_version ≡ 3) ⊎ (p.mqtt_version ≡ 4)
    → PasswordFits with_key p.password
    → length (connect_body with_key p) ≡ get_packet_connect_rem_len p
unfolding connect_body get_packet_connect_rem_len write_uint_16
length-connect_body with_key p v f =
    let last = password_field with_key p.password in
    let names = write_utf8_string p.client_id ++ (write_utf8_string p.username ++ last) in
    let rest = connect_flags with_key p ∷ (write_uint_16 p.keep_alive_interval ++ names) in
    let split : length (protocol p.mqtt_version ++ rest)
        ≡ length (protocol p.mqtt_version) + length rest =
      length-append (protocol p.mqtt_version) rest in
    let count_rest : length rest ≡ 3 + length names = omega arith in
    let count_names : length names
        ≡ length (write_utf8_string p.client_id)
          + (length (write_utf8_string p.username) + length last) =
      rw
        (
          length-append (write_utf8_string p.client_id) (write_utf8_string p.username ++ last),
          length-append (write_utf8_string p.username) last,
        )
        refl in
    omega (
      arith,
      split,
      count_rest,
      count_names,
      length-protocol p.mqtt_version v,
      length-write_utf8_string p.client_id,
      length-write_utf8_string p.username,
      length-password_field with_key p.password f,
    )

-- A CONNECT packet of version 3 or 4 that has less than 2 ^ 28 bytes behind its header, and whose
-- password, if there is one, is written by the build: if it fits the buffer as counted it has the
-- type CONNECT, a remaining length that is the number of bytes behind it, and it does fit the buffer.
pub serialize_connect_packet_lem :
    (with_key : Bool) (buf_len : ℕ) (p : ConnectParams)
    → (p.mqtt_version ≡ 3) ⊎ (p.mqtt_version ≡ 4)
    → PasswordFits with_key p.password
    → get_packet_connect_rem_len p < 2 ^ 28
    → get_mqtt_packet_len (get_packet_connect_rem_len p) ≤ buf_len
    → (h : ℕ) × (serialize_connect_packet with_key buf_len p
        ≡ ok (h ∷ (write_packet_rem_len (get_packet_connect_rem_len p) ++ connect_body with_key p)))
      × (header_type h ≡ type_code connect)
      × (length (connect_body with_key p) ≡ get_packet_connect_rem_len p)
      × (1
            + length (write_packet_rem_len (get_packet_connect_rem_len p))
            + length (connect_body with_key p)
          ≤ buf_len)
unfolding serialize_connect_packet
serialize_connect_packet_lem with_key buf_len p v f small fits =
    let (h, made, _, type_back, _, _, _) =
      init_packet_header_fields connect 0 0 0 (λ e. cc) (omega arith) (omega arith) (omega arith) in
    let size = length-connect_body with_key p v f in
    (
      h,
      ground (arith, made),
      type_back,
      size,
      omega (arith, size, get_mqtt_packet_len_bounds (get_packet_connect_rem_len p)),
    )
