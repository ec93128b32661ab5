-- ===== src/Mqtt/Tests/Yields.antt =====
-- Connections that are made, lost and made again.
use esp_qcloud.Prelude.{
  ℕ, ◌*◌, ◌^◌, ◌≤◌, ◌≡◌, refl, arith, Option, none, some, true, false, List, [], ◌∷◌, length, ok,
  err,
}
use esp_qcloud.Prelude.Codes.{Code, tcp_connect, mqtt_attempting_reconnect}
use esp_qcloud.Mqtt.Client.{Client}
use esp_qcloud.Mqtt.SubTable.Alike.{NoTwins}
use esp_qcloud.Mqtt.Timed.{timed_loop, rounds}
use esp_qcloud.Mqtt.Session.Connection.{
  success, mqtt_connect, connect_network, copy_connect_params, net_connect, take_connect,
  after_connect, after_reconnect, attempt_reconnect,
}
use esp_qcloud.Mqtt.Session.Connection.Laws.{Connected, EndsClosed, mqtt_connect_lem}
use esp_qcloud.Mqtt.Session.Yield.{
  max_reconnect_wait_interval, yield_round, end_round, after_cycle, mqtt_yield, handle_reconnect,
  is_physical_layer_connected, back_off, after_attempt,
}
use esp_qcloud.Mqtt.Session.Yield.Keeps.{mqtt_yield-Sound, mqtt_yield_connected}
use esp_qcloud.Mqtt.Session.Yield.BackOff.{IsDue, start, failed, Attempts-bounded}
use esp_qcloud.Mqtt.WaitList.{countdown_ms, read_clock}
use esp_qcloud.Mqtt.Net.{is_expired, read_mqtt_packet, put_bytes, net_read}
use esp_qcloud.Mqtt.Handlers.{cycle_for_read}
use esp_qcloud.Mqtt.Expiry.{pub_info_proc, sub_info_proc}
use esp_qcloud.Mqtt.Session.{mqtt_keep_alive}
use esp_qcloud.Mqtt.Tests.Clients.{quiet, idle, at_time, busy, a_device}

abbrev pub a_text : Client → List ℕ × Option (List ℕ)
a_text c = (0x75 ∷ [], none)

-- A second of a wait is over, and the network refuses the connection.
abbrev offline : Client
offline = record idle {
  is_connected = false;
  current_reconnect_wait_interval = 1500;
  reconnect_end_time = 1000;
  world = record quiet { clock = 2000 ∷ 2001 ∷ 2002 ∷ []; connects = some tcp_connect ∷ [] };
}

refused : (handle_reconnect false a_text offline).0 ≡ err mqtt_attempting_reconnect
unfolding handle_reconnect is_physical_layer_connected back_off after_attempt attempt_reconnect
    mqtt_connect connect_network copy_connect_params net_connect take_connect after_connect
    after_reconnect countdown_ms read_clock is_expired
refused = refl

is_due : IsDue false a_text offline
unfolding is_expired read_clock
is_due = refl

Attempts-bounded_example :
    ((handle_reconnect false a_text offline).1.current_reconnect_wait_interval ≡ 1500 * 2 ^ 1)
    × ((handle_reconnect false a_text offline).1.current_reconnect_wait_interval
        ≤ max_reconnect_wait_interval)
    × (1 ≤ 5)
Attempts-bounded_example =
    Attempts-bounded false a_text offline 1 (handle_reconnect false a_text offline).1 (omega arith)
      (omega arith) (failed start is_due refused)

mqtt_connect_lem_example :
    ((mqtt_connect false a_text a_device offline).0 ≡ ok success
      → Connected (mqtt_connect false a_text a_device offline).1)
    × ((e : Code)
        → (mqtt_connect false a_text a_device offline).0 ≡ err e
        → ((mqtt_connect false a_text a_device offline).1.is_connected ≡ false)
          × EndsClosed (mqtt_connect false a_text a_device offline).1)
mqtt_connect_lem_example = mqtt_connect_lem false a_text a_device offline refl

abbrev no_twins : NoTwins busy.sub_handles
no_twins = ((refl, (refl, tt)), ((refl, tt), (tt, tt)))

mqtt_yield-Sound_example :
    NoTwins (mqtt_yield false a_text 50 busy).1.sub_handles
    × (length (mqtt_yield false a_text 50 busy).1.sub_handles ≡ 3)
    × (length (mqtt_yield false a_text 50 busy).1.list_pub_wait_ack ≤ 20)
    × (length (mqtt_yield false a_text 50 busy).1.list_sub_wait_ack ≤ 10)
mqtt_yield-Sound_example =
    mqtt_yield-Sound false a_text 50 busy no_twins (omega arith) (omega arith)

-- One round, in which nothing arrives and no ping is due.
abbrev one_round : Client
one_round = at_time (100 ∷ 120 ∷ 0 ∷ [])

round_succeeds : (mqtt_yield false a_text 50 one_round).0 ≡ ok success
unfolding mqtt_yield timed_loop rounds countdown_ms read_clock yield_round is_expired end_round
    after_cycle cycle_for_read read_mqtt_packet put_bytes net_read mqtt_keep_alive sub_info_proc
    pub_info_proc
round_succeeds = refl

mqtt_yield_connected_example : (mqtt_yield false a_text 50 one_round).1.is_connected ≡ true
mqtt_yield_connected_example = mqtt_yield_connected false a_text 50 one_round refl round_succeeds
