-- ===== src/Mqtt/Session/Yield.antt =====
-- The supervision loop of sdk_src/mqtt_client_yield.c: `_get_random_interval`,
-- `_handle_reconnect` and `qcloud_iot_mqtt_yield`, without LOG_UPLOAD.
pub mod Ends
pub mod Keeps
pub mod BackOff
use esp_qcloud.Prelude.{
  ℕ, ◌+◌, ◌*◌, ◌%◌, ◌^◌, Option, none, some, Bool, true, false, ◌&&◌, not, List, [], ◌∷◌, length,
  ltb, ◌==◌, if◌then◌else◌, Outcome, ok, err, fault,
}
use esp_qcloud.Prelude.Codes.{
  Code, inval, mqtt_no_conn, mqtt_attempting_reconnect, mqtt_reconnect_timeout, ssl_read_timeout,
  ssl_read, tcp_peer_shutdown, tcp_read_fail,
}
use esp_qcloud.Mqtt.Client.{Client, reconnected, Action, continue, ◌>>=◌, notify}
use esp_qcloud.Mqtt.WaitList.{countdown_ms, read_clock}
use esp_qcloud.Mqtt.Expiry.{pub_info_proc, sub_info_proc}
use esp_qcloud.Mqtt.Net.{is_expired}
use esp_qcloud.Mqtt.Handlers.{cycle_for_read}
use esp_qcloud.Mqtt.Timed.{Body, timed_loop}
use esp_qcloud.Mqtt.Session.{handle_disconnect, mqtt_keep_alive}
use esp_qcloud.Mqtt.Session.Connection.{
  Status, success, mqtt_reconnected, mqtt_manually_disconnected, mqtt_already_connected,
  attempt_reconnect,
}

abbrev pub max_reconnect_wait_interval : ℕ
max_reconnect_wait_interval = 60 * 1000

take_random : List ℕ → Client → ℕ × Client
take_random [] c = (0, c)
take_random (r ∷ rs) c = (r, record c { world = record c.world { randoms = rs } })

-- The reading that seeds `rand` decides nothing here.
unfoldable pub get_random_interval : Client → ℕ × Client
unfolding take_random
get_random_interval c = let (r, d) = take_random c.world.randoms c in ((r % 100 + 100) * 10, d)

take_link : List Bool → Client → Bool × Client
take_link [] c = (true, c)
take_link (b ∷ bs) c = (b, record c { world = record c.world { links = bs } })

-- `network_stack.is_connected`.
unfoldable pub is_physical_layer_connected : Client → Bool × Client
unfolding take_link
is_physical_layer_connected c = take_link c.world.links c

-- The wait is doubled, and waited for if it is not too long. `rc` is returned.
unfoldable pub back_off : Outcome Status → Action Status
back_off rc c =
    let d = record c {
      current_reconnect_wait_interval = c.current_reconnect_wait_interval * 2 % 2 ^ 32;
    } in
    if ltb max_reconnect_wait_interval d.current_reconnect_wait_interval
    then (err mqtt_reconnect_timeout, d)
    else (let (end_time, e) = countdown_ms d.current_reconnect_wait_interval d in
        (rc, record e { reconnect_end_time = end_time }))

unfoldable pub after_attempt : Outcome Status → Action Status
after_attempt fault c = (fault, c)
after_attempt (ok mqtt_reconnected) c = (ok mqtt_reconnected, notify reconnected 0 c)
after_attempt (ok success) c = back_off (err mqtt_attempting_reconnect) c
after_attempt (ok mqtt_manually_disconnected) c = back_off (err mqtt_attempting_reconnect) c
after_attempt (ok mqtt_already_connected) c = back_off (err mqtt_attempting_reconnect) c
after_attempt (err e) c = back_off (err mqtt_attempting_reconnect) c

-- The errors of the network that end a connection.
unfoldable pub is_read_failure : Code → Bool
is_read_failure ssl_read_timeout = true
is_read_failure ssl_read = true
is_read_failure tcp_peer_shutdown = true
is_read_failure tcp_read_fail = true
is_read_failure _ = false

unfoldable pub is_no_conn : Code → Bool
is_no_conn mqtt_no_conn = true
is_no_conn _ = false

-- What a round does behind the packet that it read.
unfoldable pub after_cycle : Outcome ℕ → Action (Unit {0})
after_cycle (ok ty) c = mqtt_keep_alive (sub_info_proc (pub_info_proc c))
after_cycle (err e) c = if is_read_failure e then handle_disconnect c else (err e, c)
after_cycle fault c = (fault, c)

-- A connection that was lost: the client waits before it is made again.
unfoldable pub lost : Client → Client
lost c =
    let (interval, d) = get_random_interval c in
    let e = record d { current_reconnect_wait_interval = interval } in
    let (end_time, f) = countdown_ms interval e in record f { reconnect_end_time = end_time }

-- `packet_type` behind the packet.
unfoldable pub read_type : ℕ → Outcome ℕ → ℕ
read_type packet_type (ok ty) = ty
read_type packet_type (err e) = packet_type
read_type packet_type fault = packet_type

module _ (with_key : Bool) (texts : Client → List ℕ × Option (List ℕ)) where
  unfoldable pub handle_reconnect : Action Status
  handle_reconnect c =
      let (now, d) = read_clock c in
      if not (is_expired c.reconnect_end_time now)
      then (err mqtt_attempting_reconnect, d)
      else (let (up, e) = is_physical_layer_connected d in
          if up
          then (let (r, f) = attempt_reconnect with_key texts e in after_attempt r f)
          else back_off (ok mqtt_reconnected) e)

  -- The end of a round: the loop goes on with a success, and with a connection that was lost and is
  -- to be made again. Its state is `rc` and `packet_type`.
  unfoldable pub end_round :
      (Outcome Status × ℕ → Action Status) → ℕ → Outcome (Unit {0}) → Action Status
  end_round again packet_type fault c = (fault, c)
  end_round again packet_type (ok u) c = again (ok success, packet_type) c
  end_round again packet_type (err e) c =
      let d = record c {
        counter_network_disconnected = (c.counter_network_disconnected + 1) % 2 ^ 32;
      } in
      if is_no_conn e
      then (if d.options.auto_connect_enable
          then again (err mqtt_attempting_reconnect, packet_type) (lost d)
          else (err e, d))
      else (err e, c)

  -- `continue` behind a reconnection, which a fault does not reach.
  unfoldable pub go_on : (Outcome Status × ℕ → Action Status) → ℕ → Outcome Status → Action Status
  go_on again packet_type fault c = (fault, c)
  go_on again packet_type (ok s) c = again (ok s, packet_type) c
  go_on again packet_type (err e) c = again (err e, packet_type) c

  unfoldable pub yield_round : ℕ → Body (Outcome Status × ℕ) Status
  yield_round timer again (rc, packet_type) c =
      let (now, d) = read_clock c in
      if is_expired timer now
      then (rc, d)
      else if not d.is_connected
      then (if ltb max_reconnect_wait_interval d.current_reconnect_wait_interval
          then (err mqtt_reconnect_timeout, d)
          else (let (r, e) = handle_reconnect d in go_on again packet_type r e))
      else (let (r, e) = cycle_for_read packet_type timer d in
          let (q, f) = after_cycle r e in end_round again (read_type packet_type r) q f)

  unfoldable pub mqtt_yield : ℕ → Action Status
  mqtt_yield timeout_ms c =
      if timeout_ms == 0
      then (err inval, c)
      else if not c.is_connected && c.was_manually_disconnected
      then (ok mqtt_manually_disconnected, c)
      else if not c.is_connected && not c.options.auto_connect_enable
      then (err mqtt_no_conn, c)
      else (let (timer, d) = countdown_ms timeout_ms c in
          timed_loop (yield_round timer) (ok success, 0) d)
