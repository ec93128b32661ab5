-- ===== src/Mqtt/Life/Init.antt =====
-- `qcloud_iot_mqtt_init` and `qcloud_iot_mqtt_fini` of sdk_src/mqtt_client.c, and `iot_device_info_set` of
-- sdk_src/qcloud_iot_device.c.
use esp_qcloud.Prelude.{
  ℕ, ◌+◌, ◌-◌, ◌%◌, ◌^◌, Option, none, some, Bool, true, false, not, ◌&&◌, List, [], ◌∷◌, ◌++◌,
  length, replicate, ltb, leb, if◌then◌else◌, Outcome, ok, err,
}
use esp_qcloud.Prelude.Codes.{failure, inval}
use esp_qcloud.Mqtt.Connect.{ConnectParams}
use esp_qcloud.Mqtt.Repeat
use esp_qcloud.Mqtt.Client.{Client, World, SubTopicHandle, max_message_handlers}
use esp_qcloud.Mqtt.Life.Resources.{Platform, init_handles}

-- AUTH_WITH_NOTLS with AUTH_MODE_KEY or without, TLS with a secret, or with AUTH_MODE_CERT.
pub data Build : Type 0 where
  tcp_key tcp tls_psk tls_cert : Build

abbrev pub with_key : Build → Bool
with_key tcp_key = true
with_key tcp = false
with_key tls_psk = false
with_key tls_cert = false

pub record InitParams : Type 0 where
  pub product_id : Option (List ℕ)
  pub device_name : Option (List ℕ)
  pub cert_file : Option (List ℕ)
  pub key_file : Option (List ℕ)
  pub device_secret : Option (List ℕ)
  pub command_timeout : ℕ
  pub keep_alive_interval_ms : ℕ
  pub clean_session : Bool
  pub auto_connect_enable : Bool
  pub has_event_handler : Bool

abbrev pub is_set : Option (List ℕ) → Bool
is_set none = false
is_set (some text) = true

-- What a build with TLS asks of the parameters. What becomes of the secret's decoding is not looked at.
unfoldable pub has_credentials : Build → InitParams → Bool
has_credentials tcp_key p = true
has_credentials tcp p = true
has_credentials tls_psk p = is_set p.device_secret
has_credentials tls_cert p = is_set p.cert_file && is_set p.key_file

abbrev pub host_str_length : ℕ
host_str_length = 64

-- The length of "iotcloud.tencentdevices.com".
abbrev pub domain_length : ℕ
domain_length = 27

unfoldable pub clamp_timeout : ℕ → ℕ
clamp_timeout t = if ltb t 500 then 500 else if ltb 20000 t then 20000 else t

unfoldable pub get_random_start_packet_id : World → ℕ × World
get_random_start_packet_id w = elim w.randoms [
  | [] ↦ (1, w)
  | r ∷ rs ↦ ((r % 65536 + 1) % 2 ^ 16, record w { randoms = rs })
]

abbrev pub empty_handle : SubTopicHandle
empty_handle = record {
  topic_filter = none;
  message_handler = none;
  sub_event_handler = none;
  handler_user_data = 0;
  qos = 0;
}

-- The options of a client that was zeroed.
abbrev pub zero_options : ConnectParams
zero_options = record {
  mqtt_version = 0;
  client_id = [];
  username = [];
  password = none;
  keep_alive_interval = 0;
  clean_session = false;
  auto_connect_enable = false;
}

-- The fields of the client after `qcloud_iot_mqtt_init`. The repeated ids are not the client's.
unfoldable pub init_client : InitParams → Repeat.RepeatBuf → World → Client
init_client p ids w =
    let (id, w) = get_random_start_packet_id w in
    record {
      is_connected = false;
      was_manually_disconnected = false;
      is_ping_outstanding = 0;
      next_packet_id = id;
      command_timeout_ms = clamp_timeout p.command_timeout;
      current_reconnect_wait_interval = 0;
      counter_network_disconnected = 0;
      write_buf = replicate 2048 0;
      read_buf = replicate 2048 0;
      list_pub_wait_ack = [];
      list_sub_wait_ack = [];
      has_event_handler = p.has_event_handler;
      options = zero_options;
      ping_end_time = 0;
      reconnect_end_time = 0;
      sub_handles = replicate max_message_handlers empty_handle;
      repeat_buf = ids;
      world = w;
    }

unfoldable pub mqtt_init :
    Build
    → InitParams
    → List ℕ
    → Repeat.RepeatBuf
    → World
    → Platform
    → Outcome Client × World × Platform
mqtt_init b p product_id ids w m =
    if ltb (host_str_length - 1) (length product_id + 1 + domain_length)
    then (err failure, w, m)
    else (let c = init_client p ids w in
        let (complete, m) = init_handles m in
        if not complete
        then (err failure, c.world, m)
        else (if not (has_credentials b p) then (err inval, c.world, m) else (ok c, c.world, m)))

unfoldable pub mqtt_fini : Platform → Platform
mqtt_fini m = record m { mutexes = m.mutexes - 4; lists = m.lists - 2 }

abbrev pub free_client : Platform → Platform
free_client m = record m { clients = m.clients - 1 }

-- The client's id, of the product's id and the device's name.
unfoldable pub device_info_set : List ℕ → List ℕ → Outcome (List ℕ)
device_info_set product_id device_name =
    if ltb 10 (length product_id)
    then err failure
    else (if ltb 48 (length device_name)
        then err failure
        else (if leb 80 (length (product_id ++ device_name))
            then err failure
            else ok (product_id ++ device_name)))
