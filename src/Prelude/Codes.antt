-- ===== src/Prelude/Codes.antt =====
-- The outcome of a C function: a return code, or a fault where the code reads or writes outside
-- its buffer. The codes are the QCLOUD_ERR_ values of
-- qcloud_iot_c_sdk/include/exports/qcloud_iot_export_error.h.
use mathlib.Core.Path.{◌≡◌, refl}
use mathlib.Core.Logic.{◌≢◌, ◌⊎◌, inl, inr}
use mathlib.Core.Bool.{Bool, true, false}
use esp_qcloud.Prelude.Tests.{if◌then◌else◌}

pub data Code : Type 0 where
  failure inval dev_info malloc http_closed http http_prtcl http_unresolved_dns : Code
  http_parse http_conn http_auth http_not_found http_timeout : Code
  mqtt_push_to_list_failed mqtt_no_conn mqtt_unknown mqtt_attempting_reconnect : Code
  mqtt_reconnect_timeout mqtt_max_subscriptions mqtt_sub mqtt_nothing_to_read : Code
  mqtt_packet_read mqtt_request_timeout mqtt_connack_unknown : Code
  mqtt_connack_unacceptable_protocol_version mqtt_connack_identifier_rejected : Code
  mqtt_connack_server_unavailable mqtt_connack_bad_userdata : Code
  mqtt_connack_not_authorized rx_message_inval buf_too_short mqtt_qos_not_support : Code
  mqtt_unsub_fail json_parse json_buffer_truncated json_buffer_too_small json : Code
  max_json_token max_appending_request max_topic_length coap_null coap_data_size : Code
  coap_internal coap_badmsg dtls_peer_close_notify shadow_property_exist : Code
  shadow_not_property_exist shadow_update_timeout shadow_update_rejected : Code
  shadow_get_timeout shadow_get_rejected gateway_create_session_fail : Code
  gateway_session_no_exist gateway_session_timeout gateway_subdev_online : Code
  gateway_subdev_offline tcp_socket_failed tcp_unknown_host tcp_connect : Code
  tcp_read_timeout tcp_write_timeout tcp_read_fail tcp_write_fail : Code
  tcp_peer_shutdown tcp_nothing_to_read ssl_init ssl_cert ssl_connect : Code
  ssl_connect_timeout ssl_write_timeout ssl_write ssl_read_timeout ssl_read : Code
  ssl_nothing_to_read : Code

pub data Outcome {ℓ} (A : Type ℓ) : Type ℓ where
  ok : A → Outcome A
  err : Code → Outcome A
  fault : Outcome A

infixl 5 ◌>>=◌
abbrev pub ◌>>=◌ {ℓ κ} : {A : Type ℓ} {B : Type κ} → Outcome A → (A → Outcome B) → Outcome B
ok a >>= f = f a
err c >>= f = err c
fault >>= f = fault

-- What a chain that gives a result was made of.
pub >>=-ok {ℓ κ} :
    {A : Type ℓ} {B : Type κ} (x : Outcome A) (f : A → Outcome B) (b : B)
    → x >>= f ≡ ok b
    → (a : A) × (x ≡ ok a) × (f a ≡ ok b)
>>=-ok (ok a) f b e = (a, refl, e)
>>=-ok (err c) f b e = absurd (cc e)
>>=-ok fault f b e = absurd (cc e)

pub ok_injective {ℓ} : {A : Type ℓ} {a b : A} → ok a ≡ ok b → a ≡ b
ok_injective e = cc e

-- The branch that gives a result.
pub if-ok {ℓ} :
    {A : Type ℓ} (b : Bool) (x y : Outcome A) (a : A)
    → (if b then x else y) ≡ ok a
    → ((b ≡ true) × (x ≡ ok a)) ⊎ ((b ≡ false) × (y ≡ ok a))
if-ok true x y a e = inl (refl, e)
if-ok false x y a e = inr (refl, e)

pub >>=-ne-fault {ℓ κ} :
    {A : Type ℓ} {B : Type κ} (x : Outcome A) (f : A → Outcome B)
    → x ≢ fault
    → ((a : A) → x ≡ ok a → f a ≢ fault)
    → x >>= f ≢ fault
>>=-ne-fault (ok a) f h k = k a refl
>>=-ne-fault (err c) f h k = λ e. cc e
>>=-ne-fault fault f h k = absurd (h refl)

pub if-ne-fault {ℓ} :
    {A : Type ℓ} (b : Bool) (x y : Outcome A)
    → (b ≡ true → x ≢ fault)
    → (b ≡ false → y ≢ fault)
    → (if b then x else y) ≢ fault
if-ne-fault true x y h k = h refl
if-ne-fault false x y h k = k refl
