-- ===== src/Mqtt.antt =====
-- The MQTT client: sdk_src/mqtt_client_*.c under qcloud_iot_c_sdk.
pub mod Wire
pub mod Header
pub mod Ack
pub mod Connect
pub mod Publish
pub mod Subscribe
pub mod Topic
pub mod PacketId
pub mod Repeat
pub mod Client
pub mod WaitList
pub mod Expiry
pub mod Net
pub mod Routing
pub mod Deliver
pub mod SubTable
pub mod Frame
pub mod Handlers
pub mod Request
pub mod Timed
pub mod Wait
pub mod Unsubscribe
pub mod Session
pub mod Life
mod Tests
