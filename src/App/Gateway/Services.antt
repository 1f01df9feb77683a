-- ===== src/App/Gateway/Services.antt =====
-- src/gateway_manager.c: the services of the sub-devices, and the dispatch of a message by its topic.
use aliyun_iot_arm.Prelude.{
  ℕ, suc, Bool, true, false, ◌&&◌, ◌||◌, Option, none, some, List, [], ◌∷◌, ◌==◌, if◌then◌else◌,
  length, drop, Bytes, codes, starts_with, str_eq, strstr, snprintf,
}
use aliyun_iot_arm.Json.Copy.{succeeded, stored}
use aliyun_iot_arm.Json.Get.{get_object, get_raw_value}
use aliyun_iot_arm.App.Gateway.{GatewaySubDeviceState, GatewayManager, store_properties}
use aliyun_iot_arm.App.Gateway.Topics.{
  topo_topic, list_found_reply_topic, combine_topic, sub_service_prefix, sub_post_reply_prefix,
}
use aliyun_iot_arm.App.Gateway.Requests.{Request, post_sub_properties, reply_sub_service}
use aliyun_iot_arm.App.Gateway.Handle.{
  Handled, request_id_of, handle_topo_get_reply, handle_topo_add_reply, handle_topo_add_notify,
  handle_topo_change, handle_combine_reply,
}

-- The first device whose prefix the topic has, with its index.
unfoldable pub find_prefix :
    (prefix_of : GatewaySubDeviceState → Bytes) (topic : Bytes)
    → List GatewaySubDeviceState
    → Option (ℕ × GatewaySubDeviceState)
unfolding starts_with
find_prefix prefix_of topic [] = none
find_prefix prefix_of topic (sub_device ∷ sub_devices) =
    let rest = find_prefix prefix_of topic sub_devices in
    if starts_with (prefix_of sub_device) topic
    then some (0, sub_device)
    else elim rest [ none ↦ none | some found ↦ some (suc found.0, found.1) ]

-- The body of `gateway_handle_sub_service_message` for the device at an index.
unfoldable pub serve :
    (index : ℕ) → GatewaySubDeviceState → (service_path payload : Bytes) → GatewayManager → Handled
unfolding str_eq get_object get_raw_value store_properties
serve index sub_device service_path payload manager =
    let request_id = request_id_of payload in
    let params_json = get_object payload (codes "params") 1024 in
    let cached_properties = snprintf 1024 sub_device.last_property_json in
    let reply : Bytes → List Request =
      λ data_json. reply_sub_service index service_path request_id data_json ∷ [] in
    if str_eq service_path (codes "property/set")
    then (if succeeded params_json
        then record {
          manager = store_properties index (stored params_json) manager;
          requests = post_sub_properties index (stored params_json) ∷ reply (codes "{}");
        }
        else record { manager = manager; requests = reply (codes "{}") })
    else (if str_eq service_path (codes "property/get")
        then record { manager = manager; requests = reply cached_properties }
        else record { manager = manager; requests = reply (codes "{}") })

-- `gateway_handle_sub_service_message`; `none` is 0.
unfoldable pub handle_sub_service_message :
    (topic payload : Bytes) → GatewayManager → Option Handled
unfolding find_prefix serve sub_service_prefix
handle_sub_service_message topic payload manager =
    elim (find_prefix sub_service_prefix topic manager.sub_devices) [
      | none ↦ none
      | some (index, sub_device) ↦ some (
          serve index sub_device (drop (length (sub_service_prefix sub_device)) topic) payload
            manager)
    ]

abbrev pub is_post_reply : (topic : Bytes) → Bool
is_post_reply topic = elim (strstr topic (codes "/post_reply")) [ none ↦ false | some rest ↦ true ]

-- `gateway_handle_sub_post_reply`
unfoldable pub handle_sub_post_reply : (topic : Bytes) → List GatewaySubDeviceState → Bool
unfolding starts_with strstr sub_post_reply_prefix
handle_sub_post_reply topic [] = false
handle_sub_post_reply topic (sub_device ∷ sub_devices) =
    starts_with (sub_post_reply_prefix sub_device) topic && is_post_reply topic
    || handle_sub_post_reply topic sub_devices

-- The rest of `gateway_manager_handle_message`, for a topic that is not one of the gateway's own.
unfoldable pub handle_sub_device : (topic payload : Bytes) → GatewayManager → Option Handled
unfolding handle_sub_service_message handle_sub_post_reply
handle_sub_device topic payload manager = elim (handle_sub_service_message topic payload manager) [
  | some handled ↦ some handled
  | none ↦
      if handle_sub_post_reply topic manager.sub_devices
      then some (record { manager = manager; requests = [] })
      else none
]

-- A row of `if (test) { …; return 1; }`, and what stands behind it.
unfoldable pub first_of : List (Bool × Handled) → Option Handled → Option Handled
first_of [] other = other
first_of ((test, handled) ∷ cases) other = if test then some handled else first_of cases other

-- `gateway_manager_handle_message`; `none` is 0, where the message is left to others.
abbrev pub own_topics : (topic payload : Bytes) → GatewayManager → List (Bool × Handled)
own_topics topic payload manager =
    (str_eq topic (topo_topic manager (codes "get_reply")), handle_topo_get_reply payload manager)
    ∷ (str_eq topic (topo_topic manager (codes "add_reply")), handle_topo_add_reply payload manager)
    ∷ (
      str_eq topic (topo_topic manager (codes "add/notify")),
      handle_topo_add_notify payload manager,
    )
    ∷ (str_eq topic (topo_topic manager (codes "change")), handle_topo_change payload manager)
    ∷ (str_eq topic (list_found_reply_topic manager), record { manager = manager; requests = [] })
    ∷ (
      str_eq topic (combine_topic manager (codes "login_reply")),
      handle_combine_reply topic payload manager,
    )
    ∷ (
      str_eq topic (combine_topic manager (codes "logout_reply")),
      handle_combine_reply topic payload manager,
    )
    ∷ []

unfoldable pub handle_message : (topic payload : Bytes) → GatewayManager → Option Handled
unfolding str_eq topo_topic list_found_reply_topic combine_topic handle_topo_get_reply
    handle_topo_add_reply handle_topo_add_notify handle_topo_change handle_combine_reply
    handle_sub_device first_of
handle_message topic payload manager =
    if length manager.sub_devices == 0
    then none
    else first_of (own_topics topic payload manager) (handle_sub_device topic payload manager)
