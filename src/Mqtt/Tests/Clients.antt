-- ===== src/Mqtt/Tests/Clients.antt =====
-- Clients for the tests.
use esp_qcloud.Prelude.{ℕ, none, some, true, false, List, [], ◌∷◌, replicate}
use esp_qcloud.Mqtt.Header.{subscribe}
use esp_qcloud.Mqtt.Connect.{ConnectParams}
use esp_qcloud.Mqtt.Repeat.{initial}
use esp_qcloud.Mqtt.Client.{Client, World, SubTopicHandle, normal, PubInfo, SubInfo}

abbrev pub no_handle : SubTopicHandle
no_handle = record {
  topic_filter = none;
  message_handler = none;
  sub_event_handler = none;
  handler_user_data = 0;
  qos = 0;
}

-- A subscription of "t/a".
abbrev pub a_handle : SubTopicHandle
a_handle = record {
  topic_filter = some (b't' ∷ b'/' ∷ b'a' ∷ []);
  message_handler = some 5;
  sub_event_handler = some 6;
  handler_user_data = 9;
  qos = 1;
}

abbrev pub quiet : World
quiet = record {
  clock = [];
  reads = [];
  writes = [];
  allocations = [];
  connects = [];
  links = [];
  randoms = [];
  outputs = [];
}

abbrev pub a_device : ConnectParams
a_device = record {
  mqtt_version = 4;
  client_id = 0x61 ∷ 0x62 ∷ [];
  username = 0x63 ∷ 0x64 ∷ 0x65 ∷ [];
  password = some (0x66 ∷ []);
  keep_alive_interval = 240;
  clean_session = true;
  auto_connect_enable = true;
}

abbrev pub idle : Client
idle = record {
  is_connected = true;
  was_manually_disconnected = false;
  is_ping_outstanding = 0;
  next_packet_id = 1;
  command_timeout_ms = 5000;
  current_reconnect_wait_interval = 0;
  counter_network_disconnected = 0;
  write_buf = 1 ∷ 2 ∷ 3 ∷ 4 ∷ 5 ∷ 6 ∷ 7 ∷ 8 ∷ [];
  read_buf = replicate 16 0;
  list_pub_wait_ack = [];
  list_sub_wait_ack = [];
  has_event_handler = true;
  options = a_device;
  ping_end_time = 0;
  reconnect_end_time = 0;
  sub_handles = no_handle ∷ a_handle ∷ no_handle ∷ [];
  repeat_buf = initial;
  world = quiet;
}

abbrev pub at_time : List ℕ → Client
at_time ts = record idle { world = record quiet { clock = ts } }

abbrev pub waiting_pub : ℕ → PubInfo
waiting_pub id = record { pub_end_time = 0; pub_state = normal; pub_msg_id = id; pub_buf = [] }

abbrev pub waiting_sub : ℕ → SubInfo
waiting_sub id = record {
  sub_type = subscribe;
  sub_msg_id = id;
  sub_end_time = 0;
  sub_state = normal;
  handler = a_handle;
  sub_buf = [];
}

abbrev pub busy : Client
busy = record idle {
  list_pub_wait_ack = waiting_pub 3 ∷ waiting_pub 4 ∷ [];
  list_sub_wait_ack = waiting_sub 7 ∷ [];
}
