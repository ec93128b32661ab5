-- ===== src/Mqtt/Tests/Lives.antt =====
-- A client that is not constructed, and one that ends.
use esp_qcloud.Prelude.{
  ℕ, ◌≡◌, ◌≢◌, ◌++◌, refl, arith, none, some, true, false, List, [], ◌∷◌, All, replicate, Outcome,
  ok, fault,
}
use esp_qcloud.Mqtt.Repeat.{initial}
use esp_qcloud.Mqtt.Client.{Client}
use esp_qcloud.Mqtt.Session.{mqtt_disconnect}
use esp_qcloud.Mqtt.Life.{construct, decode_secret, destroy}
use esp_qcloud.Mqtt.Life.Resources.{Platform}
use esp_qcloud.Mqtt.Life.Init.{InitParams, tls_psk, has_credentials}
use esp_qcloud.Mqtt.Life.Construct.{empties, Constructs, Leaves, construct-Constructs}
use esp_qcloud.Mqtt.Life.Destroy.{farewells, destroy_lem}
use esp_qcloud.Mqtt.Tests.Clients.{quiet, idle, busy, no_handle}
use esp_qcloud.Mqtt.Tests.Yields.{a_text}

abbrev params : InitParams
params = record {
  product_id = some (b'P' ∷ []);
  device_name = some (b'd' ∷ []);
  cert_file = none;
  key_file = none;
  device_secret = some (b's' ∷ []);
  command_timeout = 5000;
  keep_alive_interval_ms = 240000;
  clean_session = true;
  auto_connect_enable = true;
  has_event_handler = false;
}

abbrev decodes : List ℕ → Outcome (Unit {0})
decodes text = ok tt

-- The memory of the client and two locks are given, and a third is not.
abbrev scarce : Platform
scarce = record { mutexes = 7; lists = 3; clients = 1; answers = true ∷ true ∷ true ∷ false ∷ [] }

safe : decode_secret decodes a_text tls_psk params ≢ fault
unfolding decode_secret
safe = λ e. cc e

construct-Constructs_example :
    Constructs
      (has_credentials tls_psk params)
      scarce
      (construct decodes a_text tls_psk params initial quiet scarce)
construct-Constructs_example =
    construct-Constructs decodes a_text tls_psk params initial quiet scarce (λ has. safe)

abbrev made : Client
made = record idle { sub_handles = replicate 10 no_handle }

abbrev before : Platform
before = record { mutexes = 1; lists = 0; clients = 0; answers = [] }

abbrev behind : Platform
behind = record { mutexes = 5; lists = 2; clients = 1; answers = [] }

is_made : Leaves before (some made) behind
is_made = (refl, refl, refl, ((refl, refl, refl), (empties 10, refl), (omega arith, omega arith)))

destroy_lem_example :
    let (r, e, q) = destroy busy behind in
    (e.world.outputs
      ≡ (mqtt_disconnect busy).1.world.outputs ++ farewells (mqtt_disconnect busy).1.sub_handles)
    × All (λ h. h.topic_filter ≡ none) e.sub_handles
    × (e.repeat_buf.ids ≡ replicate 50 0)
    × (e.repeat_buf.current_packet_id_cnt
        ≡ (mqtt_disconnect busy).1.repeat_buf.current_packet_id_cnt)
    × Leaves before none q
destroy_lem_example = destroy_lem before behind made busy is_made
