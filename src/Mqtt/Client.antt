-- ===== src/Mqtt/Client.antt =====
-- core/aiot_mqtt_api.c: the client, as functions on its handle and on the state of the port layer.
pub mod State
pub mod Net
pub mod RemainLen
pub mod Inbound
pub mod Outbound
pub mod Session
