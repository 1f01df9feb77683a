-- ===== src/Mqtt.antt =====
-- core/aiot_mqtt_api.c: the MQTT client.
pub mod Codes
pub mod Topic
pub mod Wire
pub mod PubList
pub mod SubList
pub mod Client
mod Tests
