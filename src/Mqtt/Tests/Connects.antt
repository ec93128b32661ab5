-- ===== src/Mqtt/Tests/Connects.antt =====
-- A CONNECT packet of version 4 with a password.
use esp_qcloud.Prelude.{◌≡◌, refl}
use esp_qcloud.Mqtt.Connect.{get_packet_connect_rem_len}
use esp_qcloud.Mqtt.Tests.Clients.{a_device}

rem_len : get_packet_connect_rem_len a_device ≡ 22
unfolding get_packet_connect_rem_len
rem_len = refl
