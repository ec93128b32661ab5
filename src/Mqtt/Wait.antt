-- ===== src/Mqtt/Wait.antt =====
-- `wait_for_read` of sdk_src/mqtt_client_common.c.
pub mod Laws
pub mod Connack
use esp_qcloud.Prelude.{ℕ, ◌==◌, if◌then◌else◌, err}
use esp_qcloud.Prelude.Codes.{mqtt_request_timeout}
use esp_qcloud.Mqtt.Client.{Client, Action, pure, continue, ◌>>=◌}
use esp_qcloud.Mqtt.WaitList.{read_clock}
use esp_qcloud.Mqtt.Net.{is_expired}
use esp_qcloud.Mqtt.Handlers.{cycle_for_read}
use esp_qcloud.Mqtt.Timed.{Body, timed_loop}

-- One round of the loop, whose state is `read_packet_type`.
unfoldable pub wait_round : ℕ → ℕ → Body ℕ (Unit {0})
wait_round packet_type timer again read_packet_type c =
    let (now, d) = read_clock c in
    if is_expired timer now
    then (err mqtt_request_timeout, d)
    else (do
      ty ← cycle_for_read read_packet_type timer
      if ty == packet_type then pure tt else again ty)
        d

unfoldable pub wait_for_read : ℕ → ℕ → Action (Unit {0})
wait_for_read packet_type timer = timed_loop (wait_round packet_type timer) 0
