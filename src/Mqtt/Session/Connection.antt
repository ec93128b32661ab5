-- ===== src/Mqtt/Session/Connection.antt =====
-- A connection is made, and made again: `_copy_connect_params`, `_mqtt_connect`,
-- `qcloud_iot_mqtt_connect` and `qcloud_iot_mqtt_attempt_reconnect` of
-- sdk_src/mqtt_client_connect.c.
pub mod Laws
pub mod Steps
pub mod Answer
use esp_qcloud.Prelude.{
  ℕ, ◌*◌, ◌%◌, ◌^◌, Option, none, some, Bool, true, false, not, List, [], ◌∷◌, length,
  if◌then◌else◌, Outcome, ok, err, fault,
}
use esp_qcloud.Prelude.Codes.{Code}
use esp_qcloud.Mqtt.Header.{connack, type_code}
use esp_qcloud.Mqtt.Ack.{deserialize_connack_packet}
use esp_qcloud.Mqtt.Connect.{ConnectParams, serialize_connect_packet}
use esp_qcloud.Mqtt.Client.{
  Client, closed, Action, lift, run, modify, continue, ◌>>=◌, ◌>>◌, output,
}
use esp_qcloud.Mqtt.WaitList.{countdown_ms}
use esp_qcloud.Mqtt.Net.{send_mqtt_packet}
use esp_qcloud.Mqtt.Request.{write_packet, mqtt_resubscribe}
use esp_qcloud.Mqtt.Wait.{wait_for_read}

-- The return codes that are not errors.
pub data Status : Type 0 where
  success mqtt_reconnected mqtt_manually_disconnected mqtt_already_connected : Status

-- The password is not copied.
unfoldable pub copy_connect_params : ConnectParams → Client → Client
copy_connect_params p c = record c { options = record p { password = c.options.password } }

unfoldable pub take_connect : List (Option Code) → Action (Unit {0})
take_connect [] c = (ok tt, c)
take_connect (none ∷ rs) c = (ok tt, record c { world = record c.world { connects = rs } })
take_connect (some e ∷ rs) c = (err e, record c { world = record c.world { connects = rs } })

-- `network_stack.connect`.
unfoldable pub net_connect : Action (Unit {0})
net_connect c = take_connect c.world.connects c

-- The connection is there, and the timer of the pings starts. `countdown` takes seconds.
unfoldable pub established : Client → Client
established c =
    let d = record c {
      is_connected = true;
      was_manually_disconnected = false;
      is_ping_outstanding = 0;
    } in
    let (end_time, e) = countdown_ms (d.options.keep_alive_interval * 1000 % 2 ^ 32) d in
    record e { ping_end_time = end_time }

-- Whether the build has AUTH_WITH_NOTLS and AUTH_MODE_KEY, and what HAL_Snprintf makes of the
-- client's identity, a connection id and the clock: the user name, and the signed password if there
-- is a secret. Both are freed when the packet is written.
module _ (with_key : Bool) (texts : Client → List ℕ × Option (List ℕ)) where
  -- The options when the packet is written.
  unfoldable pub with_texts : Client → ConnectParams
  with_texts c =
      let (username, password) = texts c in
      record c.options { username = username; password = password }

  -- Behind the CONNECT packet, `timer` bounds the wait for the CONNACK.
  unfoldable pub exchange : ℕ → Action (Unit {0})
  exchange timer c =
      (do
        packet ← lift (serialize_connect_packet with_key (length c.write_buf) (with_texts c))
        write_packet packet
        send_mqtt_packet (length packet) timer
        wait_for_read (type_code connack) timer
        (session_present, connack_rc) ←
            (λ d. (deserialize_connack_packet d.read_buf (length d.read_buf), d))
        lift connack_rc
        modify established)
        c

  unfoldable pub connect_network : ConnectParams → Action (Unit {0})
  connect_network p c =
      (do
        timer ← run (countdown_ms c.command_timeout_ms)
        modify (copy_connect_params p)
        net_connect
        exchange timer)
        c

  -- A connection that failed is closed.
  unfoldable pub after_connect : Outcome (Unit {0}) → Action Status
  after_connect (ok u) c = (ok success, c)
  after_connect (err e) c = (err e, output closed c)
  after_connect fault c = (fault, c)

  unfoldable pub mqtt_connect : ConnectParams → Action Status
  mqtt_connect p c =
      if c.is_connected
      then (ok mqtt_already_connected, c)
      else (let (r, d) = connect_network p c in after_connect r d)

  unfoldable pub after_reconnect : Outcome Status → Action Status
  after_reconnect fault c = (fault, c)
  after_reconnect (ok s) c =
      if not c.is_connected then (ok s, c) else (do mqtt_resubscribe; lift (ok mqtt_reconnected)) c
  after_reconnect (err e) c =
      if not c.is_connected then (err e, c) else (do mqtt_resubscribe; lift (ok mqtt_reconnected)) c

  unfoldable pub attempt_reconnect : Action Status
  attempt_reconnect c =
      if c.is_connected
      then (ok mqtt_already_connected, c)
      else (let (r, d) = mqtt_connect c.options c in after_reconnect r d)
