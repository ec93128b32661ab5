-- ===== src/Mqtt/Tests/Answers.antt =====
-- A connection that the server refuses.
use esp_qcloud.Prelude.{ℕ, ◌≡◌, refl, arith, false, List, [], ◌∷◌, length, replicate, ok, err}
use esp_qcloud.Prelude.Codes.{mqtt_connack_server_unavailable}
use esp_qcloud.Mqtt.Wire.{
  get_mqtt_packet_len, write_packet_rem_len, write_packet_rem_len_loop, write_utf8_string,
  write_uint_16,
}
use esp_qcloud.Mqtt.Header.{type_code, init_packet_header}
use esp_qcloud.Mqtt.Connect.{
  get_packet_connect_rem_len, serialize_connect_packet, connect_body, connect_flags, protocol,
  password_field,
}
use esp_qcloud.Mqtt.Ack.{connack_result}
use esp_qcloud.Mqtt.Client.{Client, received, to_network, closed}
use esp_qcloud.Mqtt.Session.Connection.{mqtt_connect, with_texts, copy_connect_params}
use esp_qcloud.Mqtt.Session.Connection.Answer.{asking, mqtt_connect_answered}
use esp_qcloud.Mqtt.Tests.Clients.{quiet, idle, a_device}
use esp_qcloud.Mqtt.Tests.Yields.{a_text}

-- The server answers with code 3.
abbrev waiting : Client
waiting = record idle {
  is_connected = false;
  write_buf = replicate 64 0;
  world = record quiet { clock = 10 ∷ 20 ∷ 30 ∷ []; reads = received (0x20 ∷ 2 ∷ 0 ∷ 3 ∷ []) ∷ [] };
}

abbrev packet : List ℕ
packet =
    0x10 ∷ 17 ∷ 0 ∷ 4 ∷ 0x4d ∷ 0x51 ∷ 0x54 ∷ 0x54 ∷ 4 ∷ 0x82 ∷ 0 ∷ 240 ∷ 0 ∷ 2 ∷ 0x61 ∷ 0x62 ∷ 0 ∷ 1
    ∷ 0x75 ∷ []

packed :
    serialize_connect_packet false
      (length waiting.write_buf)
      (with_texts false a_text (asking false a_text a_device (20 ∷ 30 ∷ []) waiting))
    ≡ ok packet
unfolding serialize_connect_packet with_texts get_mqtt_packet_len write_packet_rem_len
    write_packet_rem_len_loop write_utf8_string write_uint_16 get_packet_connect_rem_len
    connect_body connect_flags protocol password_field type_code init_packet_header
    copy_connect_params
packed = refl

connack_result_3 : connack_result 3 ≡ err mqtt_connack_server_unavailable
unfolding connack_result
connack_result_3 = refl

mqtt_connect_answered_example :
    let r = mqtt_connect false a_text a_device waiting in
    (r.0 ≡ err mqtt_connack_server_unavailable)
    × (r.1.is_connected ≡ false)
    × (r.1.world.outputs ≡ to_network packet ∷ closed ∷ [])
unfolding connack_result
mqtt_connect_answered_example =
    mqtt_connect_answered false a_text a_device 10 20 30 0 3 [] [] packet [] waiting refl refl
      (omega arith) (omega arith) refl refl refl (omega arith) packed (omega arith) (omega arith)
