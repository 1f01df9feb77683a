-- ===== src/Mqtt/Client/State.antt =====
-- core/utils/core_mqtt.h: the handle of the client, and what it asks of the port layer (core/aiot_sysdep_api.h).
use aliyun_iot_arm.Prelude.{ℕ, Bool, List, ℤ, Bytes}
use aliyun_iot_arm.Mqtt.Codes.{Code}
use aliyun_iot_arm.Mqtt.PubList.{PubNode}
use aliyun_iot_arm.Mqtt.SubList.{SubNode}

-- The port layer over its own state: every call may change it, and answers what it likes.
pub record Port (W : Type 0) : Type 0 where
  pub malloc : W → Bool × W  -- whether the memory is had
  pub time : W → ℕ × W  -- milliseconds, a `uint64_t`
  pub send : Bytes → W → ℤ × W  -- the bytes sent, or an error
  pub recv : ℕ → W → ℤ × Bytes × W  -- the bytes read, or an error, and what was read
  pub deinit : W → W  -- closes the connection

-- `core_mqtt_handle_t`. Flags of one bit are Booleans; a handler is its address, 0 for none.
pub record Handle : Type 0 where
  pub network : Bool  -- `network_handle != NULL`
  pub clientid : Bytes
  pub username : Bytes
  pub password : Bytes
  pub keep_alive_s : ℕ
  pub clean_session : ℕ
  pub heartbeat_interval_ms : ℕ
  pub max_lost_times : ℕ
  pub lost_times : ℕ
  pub last_send_time : ℕ
  pub reconnect_enabled : Bool
  pub reconnect_interval_ms : ℕ
  pub last_retry_time : ℕ
  pub backoff_enabled : Bool
  pub rand_ms : ℤ
  pub reconnect_counter : ℕ
  pub repub_timeout_ms : ℕ
  pub has_connected : Bool
  pub disconnected : Bool
  pub disconnect_api_called : Bool
  pub exec_enabled : Bool
  pub exec_count : ℕ
  pub topic_header_check : Bool
  pub packet_id : ℕ
  pub sub_list : List SubNode
  pub pub_list : List PubNode
  pub process_data_list : List ℕ
  pub recv_handler : ℕ
  pub event_handler : ℕ
  pub userdata : ℕ
  pub repub_list_limit : ℕ
  pub rtt : ℕ

pub data EventType : Type 0 where
  connect reconnect network_disconnect heartbeat_disconnect : EventType

-- The calls that the client makes into its user's code.
pub data Event : Type 0 where
  notified : EventType → Event
  processed : (handler : ℕ) → EventType → Event
  message : (handler userdata qos : ℕ) (topic payload : Bytes) → Event
  heartbeat_response : Event
  pub_ack : (packet_id : ℕ) → Event
  sub_ack : (packet_id : ℕ) → Code → (max_qos : ℕ) → Event
  unsub_ack : (packet_id : ℕ) → Event

-- What a function of the client leaves: its result, the two states, and the calls in their order.
pub record Out (W : Type 0) : Type 0 where
  pub res : Code
  pub handle : Handle
  pub world : W
  pub events : List Event
