-- ===== src/App/Gateway/Handle.antt =====
-- src/gateway_manager.c: what a message does to the table, and the requests it causes, in their order.
use aliyun_iot_arm.Prelude.{
  ℕ, ◌+◌, Bool, true, false, not, ◌&&◌, ◌||◌, Option, none, some, List, [], ◌∷◌, ◌++◌, map,
  if◌then◌else◌, get_elem?, ℤ, pos, eq_ℤ, Bytes, codes, strstr, atoi,
}
use aliyun_iot_arm.Json.Copy.{succeeded, stored, or_keep}
use aliyun_iot_arm.Json.Get.{get_string, get_array, get_object, get_raw_value}
use aliyun_iot_arm.App.Config.{text_size, items_of}
use aliyun_iot_arm.App.Gateway.{
  GatewaySubDeviceState, GatewayManager, find_index, has_secret, update_topo_state,
  update_online_state, with_topo,
}
use aliyun_iot_arm.App.Gateway.Requests.{Request, topo_add, login, reply_notify}

pub record Handled : Type 0 where
  pub manager : GatewayManager
  pub requests : List Request

abbrev pub request_id_of : Bytes → Bytes
request_id_of payload = or_keep (codes "0") (get_raw_value payload (codes "id") 64)

-- The number at a key; `none` where there is no value to copy.
abbrev pub number_at : (json key : Bytes) → Option ℤ
number_at json key =
    let raw = get_raw_value json key 64 in if succeeded raw then some (atoi (stored raw)) else none

-- The reply carries the code 200.
abbrev pub is_success : Bytes → Bool
is_success payload = elim (number_at payload (codes "code")) [
  | none ↦ false
  | some code_number ↦ eq_ℤ code_number (pos 200)
]

-- The index of the device that an object names.
unfoldable pub index_of_item : GatewayManager → (item_json : Bytes) → Option ℕ
unfolding get_string find_index
index_of_item manager item_json =
    let product_key = get_string item_json (codes "productKey") text_size in
    let device_name = get_string item_json (codes "deviceName") text_size in
    if succeeded product_key && succeeded device_name
    then find_index (stored product_key) (stored device_name) manager.sub_devices
    else none

abbrev pub secret_at : GatewayManager → (index : ℕ) → Bool
secret_at manager index = elim (get_elem? manager.sub_devices index) [
  | none ↦ false
  | some sub_device ↦ has_secret sub_device
]

-- The body of a loop over the items of an array, for an item that names the device at an index.
abbrev pub Visit : Type 0
Visit = (index : ℕ) → GatewayManager → Handled

-- The loop, with what its passes have caused behind each other.
unfoldable pub visit_items : Visit → List Bytes → GatewayManager → Handled
unfolding index_of_item
visit_items visit [] manager = record { manager = manager; requests = [] }
visit_items visit (item_json ∷ items) manager =
    let here : Handled = elim (index_of_item manager item_json) [
      | none ↦ record { manager = manager; requests = [] }
      | some index ↦ visit index manager
    ] in
    let rest = visit_items visit items here.manager in
    record { manager = rest.manager; requests = here.requests ++ rest.requests }

-- `gateway_handle_topo_get_reply`: its three loops.
abbrev pub reset : GatewayManager → GatewayManager
reset manager = record manager {
  sub_devices = map (with_topo false false false) manager.sub_devices;
}

abbrev pub visit_listed : Visit
visit_listed index manager = record {
  manager = update_topo_state index true false false manager;
  requests = [];
}

abbrev pub request_for : (index : ℕ) → GatewaySubDeviceState → List Request
request_for index sub_device =
    if sub_device.disabled || not (has_secret sub_device)
    then []
    else (if sub_device.topo_added then login index ∷ [] else topo_add index ∷ [])

unfoldable pub requests_from : (index : ℕ) → List GatewaySubDeviceState → List Request
requests_from index [] = []
requests_from index (sub_device ∷ sub_devices) =
    request_for index sub_device ++ requests_from (index + 1) sub_devices

unfoldable pub handle_topo_get_reply : (payload : Bytes) → GatewayManager → Handled
unfolding get_raw_value atoi get_array items_of visit_items requests_from update_topo_state
handle_topo_get_reply payload manager =
    let data_array = get_array payload (codes "data") 4096 in
    let items = if succeeded data_array then items_of (stored data_array) 512 else [] in
    let updated = (visit_items visit_listed items (reset manager)).manager in
    if is_success payload
    then record { manager = updated; requests = requests_from 0 updated.sub_devices }
    else record { manager = manager; requests = [] }

-- `gateway_handle_topo_add_reply`; the request asks for the secret itself.
abbrev pub visit_added : Visit
visit_added index manager = record {
  manager = update_topo_state index true false false manager;
  requests = login index ∷ [];
}

unfoldable pub handle_topo_add_reply : (payload : Bytes) → GatewayManager → Handled
unfolding get_raw_value atoi get_array items_of visit_items update_topo_state
handle_topo_add_reply payload manager =
    let data_array = get_array payload (codes "data") 4096 in
    if is_success payload && succeeded data_array
    then visit_items visit_added (items_of (stored data_array) 512) manager
    else record { manager = manager; requests = [] }

-- `gateway_handle_topo_add_notify`
abbrev pub visit_notified : Visit
visit_notified index manager = record {
  manager = manager;
  requests = if secret_at manager index then topo_add index ∷ [] else [];
}

abbrev pub after_reply : Request → Handled → Handled
after_reply reply handled = record handled { requests = reply ∷ handled.requests }

unfoldable pub handle_topo_add_notify : (payload : Bytes) → GatewayManager → Handled
unfolding get_raw_value get_array items_of visit_items
handle_topo_add_notify payload manager =
    let params_array = get_array payload (codes "params") 4096 in
    let items = if succeeded params_array then items_of (stored params_array) 512 else [] in
    after_reply (reply_notify (codes "add/notify_reply") (request_id_of payload))
      (visit_items visit_notified items manager)

-- `gateway_handle_topo_change`
unfoldable pub visit_changed : (status : ℤ) → Visit
unfolding update_topo_state
visit_changed status index manager =
    if eq_ℤ status (pos 0) || eq_ℤ status (pos 2)
    then record {
      manager = update_topo_state index true false false manager;
      requests = if secret_at manager index then login index ∷ [] else [];
    }
    else (if eq_ℤ status (pos 1)
        then record { manager = update_topo_state index false false false manager; requests = [] }
        else (if eq_ℤ status (pos 8)
            then record { manager = update_topo_state index true true false manager; requests = [] }
            else record { manager = manager; requests = [] }))

unfoldable pub changes : (payload : Bytes) → GatewayManager → Handled
unfolding get_object get_raw_value get_array items_of visit_items visit_changed atoi
changes payload manager =
    let params_json = get_object payload (codes "params") 4096 in
    let status = number_at (stored params_json) (codes "status") in
    let sub_list = get_array (stored params_json) (codes "subList") 4096 in
    elim status [
      | none ↦ record { manager = manager; requests = [] }
      | some status_number ↦
          if succeeded params_json && succeeded sub_list
          then visit_items (visit_changed status_number) (items_of (stored sub_list) 512) manager
          else record { manager = manager; requests = [] }
    ]

unfoldable pub handle_topo_change : (payload : Bytes) → GatewayManager → Handled
unfolding get_raw_value changes
handle_topo_change payload manager =
    after_reply (reply_notify (codes "change_reply") (request_id_of payload))
      (changes payload manager)

-- `gateway_handle_combine_reply`
abbrev pub is_login : (topic : Bytes) → Bool
is_login topic = elim (strstr topic (codes "/login_reply")) [ none ↦ false | some rest ↦ true ]

unfoldable pub handle_combine_reply : (topic payload : Bytes) → GatewayManager → Handled
unfolding get_object get_raw_value atoi index_of_item update_online_state strstr
handle_combine_reply topic payload manager =
    let data_json = get_object payload (codes "data") 512 in
    let index = index_of_item manager (stored data_json) in
    let updated : GatewayManager = elim index [
      | none ↦ manager
      | some found ↦ update_online_state found (is_login topic) manager
    ] in
    if is_success payload && succeeded data_json
    then record { manager = updated; requests = [] }
    else record { manager = manager; requests = [] }
