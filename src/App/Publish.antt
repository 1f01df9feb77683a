-- ===== src/App/Publish.antt =====
-- src/iot_ide_app.c: what the application publishes, to the broker or to the program that it is a library of.
use aliyun_iot_arm.Prelude.{
  ℕ, Bool, not, ◌||◌, Option, none, some, [], ◌∷◌, ◌==◌, if◌then◌else◌, Bytes, codes, snprintf,
  decimal, concat,
}
use aliyun_iot_arm.Json.Copy.{succeeded, stored, escape_string}

-- The names of the device and the mode of the application.
pub record Identity : Type 0 where
  pub product_key : Bytes
  pub device_name : Bytes
  pub runtime_library_mode : Bool

-- A call of `aiot_mqtt_pub`, or of the program's callback for events.
pub data Output : Type 0 where
  mqtt_pub : (topic payload : Bytes) → Output
  runtime_event : (event_name event_json : Bytes) → Output

abbrev pub or_else : Bytes → Bytes → Bytes
or_else default [] = default
or_else default (c ∷ text) = c ∷ text

-- `app_publish_topic`, with a client or in the library mode.
unfoldable pub publish_topic : Identity → (topic payload : Bytes) → Output
publish_topic app topic payload =
    if app.runtime_library_mode
    then runtime_event (codes "mqtt.publish") (
        snprintf 4096 (
          concat (
            codes "{\"topic\":\""
            ∷ topic
            ∷ codes "\",\"payload\":"
            ∷ or_else (codes "\"\"") payload
            ∷ codes "}"
            ∷ [])))
    else mqtt_pub topic payload

-- A topic of the device's own in its buffer.
abbrev pub own_topic : Identity → (front suffix : Bytes) → Bytes
own_topic app front suffix =
    snprintf 320 (concat (front ∷ app.product_key ∷ codes "/" ∷ app.device_name ∷ suffix ∷ []))

-- `app_post_properties`; the builder has the memory it asks for, here and below.
unfoldable pub post_properties : Identity → (now_ms : ℕ) (params_json : Bytes) → Output
unfolding publish_topic decimal
post_properties app now_ms params_json =
    let payload = concat (
      codes "{\"id\":\""
      ∷ decimal now_ms
      ∷ codes "\",\"version\":\"1.0\",\"params\":"
      ∷ params_json
      ∷ codes ",\"method\":\"thing.event.property.post\"}"
      ∷ []) in
    if app.runtime_library_mode
    then runtime_event (codes "property.post") params_json
    else publish_topic app (own_topic app (codes "/sys/") (codes "/thing/event/property/post"))
        payload

-- `app_reply_service` with the code 200, the only one in use.
unfoldable pub reply_service : Identity → (service_path request_id data_json : Bytes) → Output
unfolding publish_topic
reply_service app service_path request_id data_json =
    let reply_id = or_else (codes "0") request_id in
    let shown = or_else (codes "{}") data_json in
    if app.runtime_library_mode
    then runtime_event (codes "service.reply") (
        snprintf 4096 (
          concat (
            codes "{\"service\":\""
            ∷ service_path
            ∷ codes "\",\"id\":\""
            ∷ reply_id
            ∷ codes "\",\"code\":200,\"data\":"
            ∷ shown
            ∷ codes "}"
            ∷ [])))
    else publish_topic app
        (own_topic app (codes "/sys/")
          (concat (codes "/thing/service/" ∷ service_path ∷ codes "_reply" ∷ [])))
        (concat (
          codes "{\"id\":\""
          ∷ reply_id
          ∷ codes "\",\"code\":200,\"data\":"
          ∷ shown
          ∷ codes "}"
          ∷ []))

-- `app_publish_trace`, with a payload that is there.
unfoldable pub publish_trace : Identity → (payload_json : Bytes) → Output
unfolding publish_topic
publish_trace app payload_json =
    if app.runtime_library_mode
    then runtime_event (codes "trace.publish") payload_json
    else publish_topic app (own_topic app (codes "/") (codes "/user/trace/data")) payload_json

-- `app_build_simple_result_json`; `none` is -1.
unfoldable pub build_simple_result_json :
    (success : Bool) (message : Bytes) (buffer_size : ℕ) → Option Bytes
unfolding escape_string
build_simple_result_json success message buffer_size =
    let escaped = escape_string message 512 in
    if buffer_size == 0 || not (succeeded escaped)
    then none
    else some (
        snprintf buffer_size (
          concat (
            codes "{\"success\":"
            ∷ (if success then codes "1" else codes "0")
            ∷ codes ",\"message\":\""
            ∷ stored escaped
            ∷ codes "\"}"
            ∷ [])))
