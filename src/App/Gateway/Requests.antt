-- ===== src/App/Gateway/Requests.antt =====
-- src/gateway_manager.c: what the gateway publishes.
use aliyun_iot_arm.Prelude.{
  ℕ, ◌+◌, false, not, Option, none, some, List, [], ◌∷◌, ◌++◌, ltb, ◌==◌, if◌then◌else◌, length,
  get_elem?, Bytes, codes, snprintf, decimal, concat,
}
use aliyun_iot_arm.Utils.Hex.{hex2str}
use aliyun_iot_arm.App.Gateway.{GatewaySubDeviceState, GatewayManager, has_secret}
use aliyun_iot_arm.App.Gateway.Topics.{topo_topic, list_found_topic, combine_topic, sub_topic}

-- The calls of the request functions, with an index that is in the table.
pub data Request : Type 0 where
  list_found : Request
  topo_get : Request
  topo_add : (index : ℕ) → Request
  login : (index : ℕ) → Request
  reply_notify : (suffix request_id : Bytes) → Request
  post_sub_properties : (index : ℕ) (properties_json : Bytes) → Request
  reply_sub_service : (index : ℕ) (service_path request_id data_json : Bytes) → Request

pub record Message : Type 0 where
  pub topic : Bytes
  pub payload : Bytes

-- `request_id == NULL || *request_id == '\0' ? "0" : request_id`, and so for "{}".
abbrev pub or_else : Bytes → Bytes → Bytes
or_else default [] = default
or_else default (c ∷ text) = c ∷ text

-- The loop over the devices: `{"productKey":"…","deviceName":"…"}` of each, behind a comma but the first.
abbrev pub item_of : GatewaySubDeviceState → Bytes
item_of sub_device = concat (
    codes "{\"productKey\":\""
    ∷ sub_device.config.product_key
    ∷ codes "\",\"deviceName\":\""
    ∷ sub_device.config.device_name
    ∷ codes "\"}"
    ∷ [])

unfoldable pub listed : (index : ℕ) → List GatewaySubDeviceState → Bytes
listed index [] = []
listed index (sub_device ∷ sub_devices) =
    (if ltb 0 index then codes "," else [])
    ++ (item_of sub_device ++ listed (index + 1) sub_devices)

-- `gateway_request_list_found`; the builder has the memory it asks for.
unfoldable pub list_found_message : (now_ms : ℕ) → GatewayManager → Message
unfolding listed decimal list_found_topic
list_found_message now_ms manager = record {
  topic = list_found_topic manager;
  payload = concat (
      codes "{\"id\":\""
      ∷ decimal now_ms
      ∷ codes "\",\"version\":\"1.0\",\"params\":["
      ∷ listed 0 manager.sub_devices
      ∷ codes "],\"method\":\"thing.list.found\"}"
      ∷ []);
}

-- `gateway_request_topo_get`
unfoldable pub topo_get_message : (now_ms : ℕ) → GatewayManager → Message
unfolding decimal topo_topic
topo_get_message now_ms manager = record {
  topic = topo_topic manager (codes "get");
  payload = snprintf 256 (
      concat (
        codes "{\"id\":\""
        ∷ decimal now_ms
        ∷ codes "\",\"version\":\"1.0\",\"params\":{},\"method\":\"thing.topo.get\"}"
        ∷ []));
}

abbrev pub client_id : GatewaySubDeviceState → Bytes
client_id sub_device =
    snprintf 256 (sub_device.config.product_key ++ (b'&' ∷ sub_device.config.device_name))

-- The text that `gateway_build_sign` signs, and the sign; `hmac` stands for `core_hmac_sha256`.
abbrev pub plain_text : GatewaySubDeviceState → (timestamp : Bytes) → Bytes
plain_text sub_device timestamp = concat (
    codes "clientId"
    ∷ client_id sub_device
    ∷ codes "deviceName"
    ∷ sub_device.config.device_name
    ∷ codes "productKey"
    ∷ sub_device.config.product_key
    ∷ codes "timestamp"
    ∷ timestamp
    ∷ [])

unfoldable pub build_sign :
    (hmac : (message key : Bytes) → Bytes) → GatewaySubDeviceState → (timestamp : Bytes) → Bytes
unfolding hex2str
build_sign hmac sub_device timestamp =
    snprintf 65
      (hex2str false (hmac (plain_text sub_device timestamp) sub_device.config.device_secret))

-- `gateway_request_topo_add` and `gateway_request_login` of a device; `timestamp_ms` and `now_ms` are the
-- two readings of the clock. `none` where the secret is missing.
unfoldable pub topo_add_message :
    (hmac : (message key : Bytes) → Bytes) (timestamp_ms now_ms : ℕ)
    → GatewayManager
    → GatewaySubDeviceState
    → Option Message
unfolding decimal topo_topic build_sign
topo_add_message hmac timestamp_ms now_ms manager sub_device =
    let timestamp = snprintf 64 (decimal timestamp_ms) in
    if not (has_secret sub_device)
    then none
    else some (record {
      topic = topo_topic manager (codes "add");
      payload = snprintf 1024 (
          concat (
            codes "{\"id\":\""
            ∷ decimal now_ms
            ∷ codes "\",\"version\":\"1.0\",\"params\":[{\"productKey\":\""
            ∷ sub_device.config.product_key
            ∷ codes "\",\"deviceName\":\""
            ∷ sub_device.config.device_name
            ∷ codes "\",\"sign\":\""
            ∷ build_sign hmac sub_device timestamp
            ∷ codes "\",\"signmethod\":\"hmacSha256\",\"timestamp\":\""
            ∷ timestamp
            ∷ codes "\",\"clientId\":\""
            ∷ client_id sub_device
            ∷ codes "\"}],\"method\":\"thing.topo.add\"}"
            ∷ []));
    })

unfoldable pub login_message :
    (hmac : (message key : Bytes) → Bytes) (timestamp_ms now_ms : ℕ)
    → GatewayManager
    → GatewaySubDeviceState
    → Option Message
unfolding decimal combine_topic build_sign
login_message hmac timestamp_ms now_ms manager sub_device =
    let timestamp = snprintf 64 (decimal timestamp_ms) in
    if not (has_secret sub_device)
    then none
    else some (record {
      topic = combine_topic manager (codes "login");
      payload = snprintf 1024 (
          concat (
            codes "{\"id\":\""
            ∷ decimal now_ms
            ∷ codes "\",\"params\":{\"productKey\":\""
            ∷ sub_device.config.product_key
            ∷ codes "\",\"deviceName\":\""
            ∷ sub_device.config.device_name
            ∷ codes "\",\"clientId\":\""
            ∷ client_id sub_device
            ∷ codes "\",\"timestamp\":\""
            ∷ timestamp
            ∷ codes "\",\"signMethod\":\"hmacSha256\",\"sign\":\""
            ∷ build_sign hmac sub_device timestamp
            ∷ codes "\",\"cleanSession\":\"false\"}}"
            ∷ []));
    })

-- `gateway_reply_notify`
unfoldable pub reply_notify_message : GatewayManager → (suffix request_id : Bytes) → Message
unfolding topo_topic
reply_notify_message manager suffix request_id = record {
  topic = topo_topic manager suffix;
  payload = snprintf 256 (
      concat (
        codes "{\"id\":\""
        ∷ or_else (codes "0") request_id
        ∷ codes "\",\"code\":200,\"data\":{}}"
        ∷ []));
}

-- `gateway_post_sub_properties`
unfoldable pub post_sub_properties_message :
    (now_ms : ℕ) → GatewaySubDeviceState → (properties_json : Bytes) → Message
unfolding decimal
post_sub_properties_message now_ms sub_device properties_json = record {
  topic = sub_topic sub_device (codes "/thing/event/property/post");
  payload = concat (
      codes "{\"id\":\""
      ∷ decimal now_ms
      ∷ codes "\",\"version\":\"1.0\",\"params\":"
      ∷ properties_json
      ∷ codes ",\"method\":\"thing.event.property.post\"}"
      ∷ []);
}

-- `gateway_reply_sub_service`
unfoldable pub reply_sub_service_message :
    GatewaySubDeviceState → (service_path request_id data_json : Bytes) → Message
reply_sub_service_message sub_device service_path request_id data_json = record {
  topic =
      sub_topic sub_device (concat (codes "/thing/service/" ∷ service_path ∷ codes "_reply" ∷ []));
  payload = snprintf 1536 (
      concat (
        codes "{\"id\":\""
        ∷ or_else (codes "0") request_id
        ∷ codes "\",\"code\":200,\"data\":"
        ∷ or_else (codes "{}") data_json
        ∷ codes "}"
        ∷ []));
}

-- What a request publishes; `none` where it publishes nothing.
unfoldable pub request_message :
    (hmac : (message key : Bytes) → Bytes) (timestamp_ms now_ms : ℕ)
    → GatewayManager
    → Request
    → Option Message
unfolding list_found_message topo_get_message topo_add_message login_message reply_notify_message
    post_sub_properties_message reply_sub_service_message
request_message hmac timestamp_ms now_ms manager list_found =
    if length manager.sub_devices == 0 then none else some (list_found_message now_ms manager)
request_message hmac timestamp_ms now_ms manager topo_get =
    if length manager.sub_devices == 0 then none else some (topo_get_message now_ms manager)
request_message hmac timestamp_ms now_ms manager (topo_add index) =
    elim (get_elem? manager.sub_devices index) [
      | none ↦ none
      | some sub_device ↦ topo_add_message hmac timestamp_ms now_ms manager sub_device
    ]
request_message hmac timestamp_ms now_ms manager (login index) =
    elim (get_elem? manager.sub_devices index) [
      | none ↦ none
      | some sub_device ↦ login_message hmac timestamp_ms now_ms manager sub_device
    ]
request_message hmac timestamp_ms now_ms manager (reply_notify suffix request_id) =
    some (reply_notify_message manager suffix request_id)
request_message hmac timestamp_ms now_ms manager (post_sub_properties index properties_json) =
    elim (get_elem? manager.sub_devices index) [
      | none ↦ none
      | some sub_device ↦ some (post_sub_properties_message now_ms sub_device properties_json)
    ]
request_message hmac timestamp_ms now_ms manager
      (reply_sub_service index service_path request_id data_json) =
    elim (get_elem? manager.sub_devices index) [
      | none ↦ none
      | some sub_device ↦
          some (reply_sub_service_message sub_device service_path request_id data_json)
    ]
