-- ===== src/Mqtt/Tests.antt =====
-- The theorems on the MQTT client at concrete inputs, and runs of its functions.
mod Connects
mod Yields
mod Answers
mod Lives
mod Codec
mod Topics
mod Clients
mod Session
mod Messages
mod Acks
mod Calls
