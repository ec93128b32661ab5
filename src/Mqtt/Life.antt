-- ===== src/Mqtt/Life.antt =====
-- The construction and the end of a client: `IOT_MQTT_Construct` and `IOT_MQTT_Destroy` of
-- sdk_src/mqtt_client.c.
pub mod Resources
pub mod Init
pub mod Balance
pub mod Construct
pub mod Destroy
use esp_qcloud.Prelude.{
  map, ℕ, ◌+◌, ◌-◌, ◌*◌, ◌/◌, ◌%◌, ◌^◌, Option, none, some, Bool, true, false, not, ◌&&◌, ◌||◌,
  List, [], ◌∷◌, ◌++◌, length, replicate, ltb, leb, if◌then◌else◌, Outcome, ok, err, fault,
}
use esp_qcloud.Prelude.Codes.{Code, failure, inval, malloc}
use esp_qcloud.Mqtt.Connect.{ConnectParams}
use esp_qcloud.Mqtt.Repeat
use esp_qcloud.Mqtt.Client.{
  Client, World, SubTopicHandle, EventType, client_destroy, max_message_handlers, output,
  notify_subscriber,
}
use esp_qcloud.Mqtt.Session.{mqtt_disconnect}
use esp_qcloud.Mqtt.Session.Connection.{Status, success, mqtt_connect}
use esp_qcloud.Mqtt.Life.Resources.{Platform, client_create}
use esp_qcloud.Mqtt.Life.Init.{
  Build, InitParams, with_key, mqtt_init, mqtt_fini, free_client, device_info_set,
}

-- What `IOT_MQTT_Construct` returns, with `g_last_err_code`, and what it left behind.
pub record Constructed : Type 0 where
  pub client : Option Client
  pub code : Outcome Status
  pub world : World
  pub platform : Platform

abbrev pub refused : Outcome Status → World → Platform → Constructed
refused code w m = record { client = none; code = code; world = w; platform = m }

-- `STRING_PTR_SANITY_CHECK`: NULL and an empty text are refused.
unfoldable pub sane : Option (List ℕ) → Option (List ℕ)
sane none = none
sane (some []) = none
sane (some (x ∷ text)) = some (x ∷ text)

unfoldable pub connect_params : InitParams → List ℕ → ConnectParams
connect_params p client_id = record {
  mqtt_version = 4;
  client_id = client_id;
  username = [];
  password = none;
  keep_alive_interval =
      if leb 690 (p.keep_alive_interval_ms / 1000) then 690 else p.keep_alive_interval_ms / 1000;
  clean_session = p.clean_session;
  auto_connect_enable = p.auto_connect_enable;
}

-- `decode` is `qcloud_iot_utils_base64decode`, `texts` what HAL_Snprintf makes of the identity.
module _ (decode : List ℕ → Outcome (Unit {0})) (texts : Client → List ℕ × Option (List ℕ))
    (b : Build) where
  -- The length of a secret that is NULL is asked for.
  unfoldable pub decode_secret : InitParams → Outcome (Unit {0})
  decode_secret p =
      if with_key b then elim p.device_secret [ none ↦ fault | some text ↦ decode text ] else ok tt

  unfoldable pub connected : Outcome Status × Client → Platform → Constructed
  connected (ok success, c) m = record {
    client = some c;
    code = ok success;
    world = c.world;
    platform = m;
  }
  connected (r, c) m = refused r c.world (free_client (mqtt_fini m))

  unfoldable pub with_secret :
      Outcome (Unit {0}) → InitParams → List ℕ → Client → Platform → Constructed
  with_secret (ok u) p client_id c m =
      connected (mqtt_connect (with_key b) texts (connect_params p client_id) c) m
  with_secret (err e) p client_id c m = refused (err e) c.world (free_client (mqtt_fini m))
  with_secret fault p client_id c m = refused fault c.world m

  unfoldable pub initialized : InitParams → List ℕ → Outcome Client × World × Platform → Constructed
  initialized p client_id (ok c, w, m) = with_secret (decode_secret p) p client_id c m
  initialized p client_id (err e, w, m) = refused (err e) w (free_client m)
  initialized p client_id (fault, w, m) = refused fault w m

  unfoldable pub construct_device :
      InitParams → Repeat.RepeatBuf → List ℕ → Outcome (List ℕ) → World → Platform → Constructed
  construct_device p ids product_id (err e) w m = refused (err e) w m
  construct_device p ids product_id fault w m = refused fault w m
  construct_device p ids product_id (ok client_id) w m =
      let (given, m) = client_create m in
      if given
      then initialized p client_id (mqtt_init b p product_id ids w m)
      else refused (err malloc) w m

  unfoldable pub construct_named :
      InitParams
      → Repeat.RepeatBuf
      → Option (List ℕ)
      → Option (List ℕ)
      → World
      → Platform
      → Constructed
  construct_named p ids (some product_id) (some device_name) w m =
      construct_device p ids product_id (device_info_set product_id device_name) w m
  construct_named p ids _ _ w m = refused (err inval) w m

  unfoldable pub construct : InitParams → Repeat.RepeatBuf → World → Platform → Constructed
  construct p ids w m = construct_named p ids (sane p.product_id) (sane p.device_name) w m

-- The subscribers are told, and the topic filters are freed.
unfoldable pub tell_destroyed : List SubTopicHandle → Client → Client
tell_destroyed [] c = c
tell_destroyed (h ∷ hs) c =
    tell_destroyed hs (notify_subscriber h.sub_event_handler client_destroy h.handler_user_data c)

-- The result is that of the disconnection.
unfoldable pub destroy : Client → Platform → Outcome (Unit {0}) × Client × Platform
destroy c m =
    let (r, d) = mqtt_disconnect c in
    let e = tell_destroyed d.sub_handles d in
    (
      r,
      record e {
        sub_handles =
            map {A = SubTopicHandle} (λ h. record h { topic_filter = none }) e.sub_handles;
        repeat_buf = Repeat.reset_repeat_packet_id_buffer e.repeat_buf;
      },
      free_client (mqtt_fini m),
    )
