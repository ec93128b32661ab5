-- ===== src/Mqtt/Session.antt =====
-- The end of a connection and its supervision: `qcloud_iot_mqtt_disconnect`
-- (sdk_src/mqtt_client_connect.c), `_handle_disconnect` and `_mqtt_keep_alive`
-- (sdk_src/mqtt_client_yield.c).
pub mod Frame
pub mod Pings
pub mod Connection
pub mod Yield
use esp_qcloud.Prelude.{
  ℕ, zero, suc, ◌+◌, ◌*◌, ◌/◌, ◌%◌, ◌^◌, Option, Bool, true, false, not, List, length, ltb, leb,
  ◌==◌, if◌then◌else◌, Outcome, ok, err, fault,
}
use esp_qcloud.Prelude.Codes.{mqtt_no_conn}
use esp_qcloud.Mqtt.Header.{MessageType, pingreq}
use esp_qcloud.Mqtt.Ack.{serialize_packet_with_zero_payload}
use esp_qcloud.Mqtt.Client.{
  Client, Output, closed, EventType, disconnected, Action, lift, run, modify, continue, ◌>>=◌, ◌>>◌,
  output, notify,
}
use esp_qcloud.Mqtt.WaitList.{countdown_ms, read_clock}
use esp_qcloud.Mqtt.Net.{send_mqtt_packet, is_expired}
use esp_qcloud.Mqtt.Request.{write_packet}

abbrev pub mqtt_ping_retry_times : ℕ
mqtt_ping_retry_times = 2

-- The network is disconnected and the state is NOTCONNECTED.
unfoldable pub close : Client → Client
close c = output closed (record c { is_connected = false })

unfoldable pub mqtt_disconnect : Action (Unit {0})
mqtt_disconnect c =
    if not c.is_connected
    then (err mqtt_no_conn, c)
    else (do
      packet ← lift (serialize_packet_with_zero_payload (length c.write_buf) MessageType.disconnect)
      write_packet packet
      timer ← run (countdown_ms c.command_timeout_ms)
      send_mqtt_packet (length packet) timer
      modify (λ d. record (close d) { was_manually_disconnected = true }))
        c

-- The client is told, and the disconnection does not count as a manual one.
unfoldable pub report_disconnect : Client → Client
report_disconnect c = record (notify disconnected 0 c) { was_manually_disconnected = false }

-- After the disconnection: by force, if it failed.
unfoldable pub after_disconnect : Outcome (Unit {0}) → Action (Unit {0})
after_disconnect (ok u) c = (err mqtt_no_conn, report_disconnect c)
after_disconnect (err e) c = (err mqtt_no_conn, report_disconnect (close c))
after_disconnect fault c = (fault, c)

unfoldable pub handle_disconnect : Action (Unit {0})
handle_disconnect c =
    if not c.is_connected
    then (err mqtt_no_conn, c)
    else (let (r, d) = mqtt_disconnect c in after_disconnect r d)

-- One round of the loop that sends a ping.
unfoldable pub send_ping : ℕ → Action (Unit {0})
send_ping len c = (do timer ← run (countdown_ms c.command_timeout_ms); send_mqtt_packet len timer) c

abbrev pub or_else : {A : Type 0} → Outcome A → Action A → Action A
or_else (ok a) m c = (ok a, c)
or_else (err e) m c = m c
or_else fault m c = (fault, c)

-- The loop, by the rounds that may follow this one.
unfoldable pub try_ping : ℕ → ℕ → Action (Unit {0})
try_ping zero len c = send_ping len c
try_ping (suc rounds) len c = let (r, d) = send_ping len c in or_else r (try_ping rounds len) d

-- `Min(5, keep_alive_interval / 2)`, in seconds.
unfoldable pub ping_wait : ℕ → ℕ
ping_wait interval = if leb 5 (interval / 2) then 5 else interval / 2

-- A ping that went out is counted in a byte, and waited for.
unfoldable pub count_ping : Client → Client
unfolding ping_wait
count_ping c =
    let d = record c { is_ping_outstanding = (c.is_ping_outstanding + 1) % 2 ^ 8 } in
    let (end_time, e) = countdown_ms (ping_wait d.options.keep_alive_interval * 1000) d in
    record e { ping_end_time = end_time }

unfoldable pub after_ping : Outcome (Unit {0}) → Action (Unit {0})
after_ping (ok u) c = (ok tt, count_ping c)
after_ping (err e) c = handle_disconnect c
after_ping fault c = (fault, c)

unfoldable pub ping : Action (Unit {0})
ping c =
    (do
      packet ← lift (serialize_packet_with_zero_payload (length c.write_buf) pingreq)
      write_packet packet
      (λ d. let (r, e) = try_ping 3 (length packet) d in after_ping r e))
      c

unfoldable pub mqtt_keep_alive : Action (Unit {0})
mqtt_keep_alive c =
    if c.options.keep_alive_interval == 0
    then (ok tt, c)
    else (let (now, d) = read_clock c in
        if not (is_expired c.ping_end_time now)
        then (ok tt, d)
        else if leb mqtt_ping_retry_times d.is_ping_outstanding
        then handle_disconnect d
        else ping d)
