-- ===== src/Coap.antt =====
-- The CoAP client: sdk_src/coap_client_*.c under qcloud_iot_c_sdk.
mod Tests
pub mod Message
pub mod Client
pub mod Waiting
pub mod Exchange
pub mod Request
pub mod Serialize
pub mod Deserialize
