-- ===== src/Mqtt/Tests/Calls.antt =====
-- Calls of the user and the supervision of a connection, at concrete states.
use esp_qcloud.Prelude.{ℕ, ◌≤◌, ◌≡◌, ◌≢◌, refl, arith, some, false, List, [], ◌∷◌, err, fault}
use esp_qcloud.Prelude.Codes.{mqtt_no_conn}
use esp_qcloud.Mqtt.Wire.{write_packet_rem_len, write_packet_rem_len_loop}
use esp_qcloud.Mqtt.Header.{init_packet_header, type_code}
use esp_qcloud.Mqtt.Topic.{hash, plus}
use esp_qcloud.Mqtt.Request.{PublishParams, mqtt_publish, write_packet}
use esp_qcloud.Mqtt.Request.Track.{Tracked, mqtt_publish-Tracked}
use esp_qcloud.Mqtt.Unsubscribe.{has_after_slash}
use esp_qcloud.Mqtt.WaitList.{countdown_ms, read_clock}
use esp_qcloud.Mqtt.Net.{send_mqtt_packet, send_loop, put_bytes}
use esp_qcloud.Mqtt.Ack.{serialize_packet_with_zero_payload}
use esp_qcloud.Mqtt.Session.{handle_disconnect, mqtt_disconnect, after_disconnect, mqtt_keep_alive}
use esp_qcloud.Mqtt.Session.Pings.{mqtt_keep_alive_bounded}
use esp_qcloud.Mqtt.Tests.Clients.{idle, busy, at_time}

abbrev greeting : PublishParams
greeting = record { qos = 1; retained = 0; id = 0; payload = some (b'!' ∷ []) }

mqtt_publish-Tracked_example :
    Tracked 1 busy.list_pub_wait_ack (mqtt_publish (some (b't' ∷ [])) greeting busy)
mqtt_publish-Tracked_example = mqtt_publish-Tracked (some (b't' ∷ [])) greeting busy

-- "t/a"
abbrev a_topic : List ℕ
a_topic = b't' ∷ b'/' ∷ b'a' ∷ []

no_hash : has_after_slash hash a_topic ≡ false
unfolding has_after_slash
no_hash = refl

no_plus : has_after_slash plus a_topic ≡ false
unfolding has_after_slash
no_plus = refl

-- "x/#", which is not the filter of any handle.
abbrev wildcard_topic : List ℕ
wildcard_topic = b'x' ∷ b'/' ∷ b'#' ∷ []

no_connection : (handle_disconnect idle).0 ≡ err mqtt_no_conn
unfolding handle_disconnect mqtt_disconnect after_disconnect serialize_packet_with_zero_payload
    write_packet countdown_ms read_clock send_mqtt_packet send_loop put_bytes init_packet_header
    type_code write_packet_rem_len write_packet_rem_len_loop
no_connection = refl

no_fault : (handle_disconnect idle).0 ≢ fault
no_fault = rw no_connection (λ e. cc)

mqtt_keep_alive_bounded_example :
    (mqtt_keep_alive (at_time (50 ∷ 60 ∷ []))).1.is_ping_outstanding ≤ 2
mqtt_keep_alive_bounded_example = mqtt_keep_alive_bounded (at_time (50 ∷ 60 ∷ [])) (omega arith)
