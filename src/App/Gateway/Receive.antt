-- ===== src/App/Gateway/Receive.antt =====
-- src/gateway_manager.c: the devices of the table over any sequence of messages.
use aliyun_iot_arm.Prelude.{
  ℕ, ◌≡◌, refl, sym, ap, subst, inl, inr, Bool, true, false, ◌&&◌, Option, none, some, List, [],
  ◌∷◌, map, arith, ◌==◌, if◌then◌else◌, Bool-cases, Option-cases, length, drop, All, ℤ, Bytes,
  codes, str_eq,
}
use aliyun_iot_arm.Json.Copy.{succeeded, stored}
use aliyun_iot_arm.Json.Get.{get_object, get_array}
use aliyun_iot_arm.App.Config.{SubDeviceConfig, DeviceConfig, items_of}
use aliyun_iot_arm.App.Gateway.{
  GatewaySubDeviceState, GatewayManager, gateway_init, new_sub_device, update_online_state,
  store_properties,
}
use aliyun_iot_arm.App.Gateway.Topics.{sub_service_prefix}
use aliyun_iot_arm.App.Gateway.Handle.{
  Handled, visit_items, index_of_item, number_at, is_success, is_login, reset, visit_listed,
  visit_added, visit_notified, visit_changed, requests_from, handle_topo_get_reply,
  handle_topo_add_reply, handle_topo_add_notify, handle_topo_change, handle_combine_reply, changes,
}
use aliyun_iot_arm.App.Gateway.Services.{
  find_prefix, serve, handle_sub_service_message, handle_sub_device, handle_message, first_of,
  own_topics,
}
use aliyun_iot_arm.App.Gateway.Devices.{
  config_of, Fits, IsOf, idle, update_topo_state-IsOf, update_online_state-IsOf,
  store_properties-IsOf, reset-IsOf, IsOf-if, visit_items-IsOf, visit_changed-IsOf,
}

-- The table after a message that may be left to others.
abbrev pub manager_after : GatewayManager → Option Handled → GatewayManager
manager_after manager none = manager
manager_after manager (some handled) = handled.manager

manager-serve :
    (index : ℕ) (sub_device : GatewaySubDeviceState) (service_path payload : Bytes)
    (manager : GatewayManager)
    → (serve index sub_device service_path payload manager).manager ≡ (
        if str_eq service_path (codes "property/set")
          && succeeded (get_object payload (codes "params") 1024)
        then store_properties index (stored (get_object payload (codes "params") 1024)) manager
        else manager)
unfolding serve
manager-serve index sub_device service_path payload manager = ground arith

-- The table after a message for a sub-device.
abbrev after_service :
    Option (ℕ × GatewaySubDeviceState) → (topic payload : Bytes) → GatewayManager → GatewayManager
after_service none topic payload manager = manager
after_service (some (index, sub_device)) topic payload manager =
    (serve index sub_device (drop (length (sub_service_prefix sub_device)) topic) payload
      manager).manager

manager-handle_sub_device :
    (topic payload : Bytes) (manager : GatewayManager)
    → manager_after manager (handle_sub_device topic payload manager)
      ≡ after_service
          (find_prefix sub_service_prefix topic manager.sub_devices)
          topic
          payload
          manager
unfolding handle_sub_device handle_sub_service_message
manager-handle_sub_device topic payload manager =
    elim (Option-cases (find_prefix sub_service_prefix topic manager.sub_devices)) [
      | inl e ↦ ground arith
      | inr (found, e) ↦ ground arith
    ]

module _ (config : DeviceConfig) where
  handle_topo_get_reply-IsOf :
      (payload : Bytes) (manager : GatewayManager)
      → IsOf config manager
      → IsOf config (handle_topo_get_reply payload manager).manager
  unfolding handle_topo_get_reply
  handle_topo_get_reply-IsOf payload manager of =
      let data_array = get_array payload (codes "data") 4096 in
      let items : List Bytes =
        if succeeded data_array then items_of (stored data_array) 512 else [] in
      let updated = (visit_items visit_listed items (reset manager)).manager in
      IsOf-if config (is_success payload)
        (record { manager = updated; requests = requests_from 0 updated.sub_devices })
        (idle manager)
        (visit_items-IsOf config visit_listed items (reset manager)
          (λ index m. update_topo_state-IsOf config index true false false m)
          (reset-IsOf config manager of))
        of

  handle_topo_add_reply-IsOf :
      (payload : Bytes) (manager : GatewayManager)
      → IsOf config manager
      → IsOf config (handle_topo_add_reply payload manager).manager
  unfolding handle_topo_add_reply
  handle_topo_add_reply-IsOf payload manager of =
      let data_array = get_array payload (codes "data") 4096 in
      let items = items_of (stored data_array) 512 in
      IsOf-if config (is_success payload && succeeded data_array)
        (visit_items visit_added items manager) (idle manager)
        (visit_items-IsOf config visit_added items manager
          (λ index m. update_topo_state-IsOf config index true false false m) of)
        of

  handle_topo_add_notify-IsOf :
      (payload : Bytes) (manager : GatewayManager)
      → IsOf config manager
      → IsOf config (handle_topo_add_notify payload manager).manager
  unfolding handle_topo_add_notify
  handle_topo_add_notify-IsOf payload manager of =
      let params_array = get_array payload (codes "params") 4096 in
      let items : List Bytes =
        if succeeded params_array then items_of (stored params_array) 512 else [] in
      visit_items-IsOf config visit_notified items manager (λ index m kept. kept) of

  IsOf-changes :
      (status : Option ℤ) (test : Bool) (items : List Bytes) (manager : GatewayManager)
      → IsOf config manager
      → let handled : Handled = elim status [
        | none ↦ record { manager = manager; requests = [] }
        | some number ↦
            if test
            then visit_items (visit_changed number) items manager
            else record { manager = manager; requests = [] }
      ] in
        IsOf config handled.manager
  IsOf-changes none test items manager of = of
  IsOf-changes (some number) test items manager of =
      IsOf-if config test (visit_items (visit_changed number) items manager) (idle manager)
        (visit_items-IsOf config (visit_changed number) items manager
          (visit_changed-IsOf config number) of)
        of

  handle_topo_change-IsOf :
      (payload : Bytes) (manager : GatewayManager)
      → IsOf config manager
      → IsOf config (handle_topo_change payload manager).manager
  unfolding handle_topo_change changes
  handle_topo_change-IsOf payload manager of =
      let params_json = get_object payload (codes "params") 4096 in
      let sub_list = get_array (stored params_json) (codes "subList") 4096 in
      IsOf-changes (number_at (stored params_json) (codes "status"))
        (succeeded params_json && succeeded sub_list) (items_of (stored sub_list) 512) manager of

  IsOf-online :
      (found : Option ℕ) (online : Bool) (manager : GatewayManager)
      → IsOf config manager
      → let updated : GatewayManager = elim found [
        | none ↦ manager
        | some index ↦ update_online_state index online manager
      ] in
        IsOf config updated
  IsOf-online none online manager of = of
  IsOf-online (some index) online manager of =
      update_online_state-IsOf config index online manager of

  handle_combine_reply-IsOf :
      (topic payload : Bytes) (manager : GatewayManager)
      → IsOf config manager
      → IsOf config (handle_combine_reply topic payload manager).manager
  unfolding handle_combine_reply
  handle_combine_reply-IsOf topic payload manager of =
      let data_json = get_object payload (codes "data") 512 in
      let index = index_of_item manager (stored data_json) in
      let updated : GatewayManager = elim index [
        | none ↦ manager
        | some found ↦ update_online_state found (is_login topic) manager
      ] in
      IsOf-if config (is_success payload && succeeded data_json)
        (record { manager = updated; requests = [] }) (idle manager)
        (IsOf-online index (is_login topic) manager of) of

  IsOf-stored :
      (test : Bool) (index : ℕ) (properties_json : Bytes) (manager : GatewayManager)
      → IsOf config manager
      → IsOf config (if test then store_properties index properties_json manager else manager)
  IsOf-stored true index properties_json manager of =
      store_properties-IsOf config index properties_json manager of
  IsOf-stored false index properties_json manager of = of

  serve-IsOf :
      (index : ℕ) (sub_device : GatewaySubDeviceState) (service_path payload : Bytes)
      (manager : GatewayManager)
      → IsOf config manager
      → IsOf config (serve index sub_device service_path payload manager).manager
  serve-IsOf index sub_device service_path payload manager of =
      subst (IsOf config) (sym (manager-serve index sub_device service_path payload manager))
        (IsOf-stored _ index _ manager of)

  after_service-IsOf :
      (found : Option (ℕ × GatewaySubDeviceState)) (topic payload : Bytes)
      (manager : GatewayManager)
      → IsOf config manager
      → IsOf config (after_service found topic payload manager)
  after_service-IsOf none topic payload manager of = of
  after_service-IsOf (some (index, sub_device)) topic payload manager of =
      serve-IsOf index sub_device _ payload manager of

  first_of-IsOf :
      (cases : List (Bool × Handled)) (other : Option Handled) (manager : GatewayManager)
      → All (λ (c : Bool × Handled). IsOf config c.1.manager) cases
      → IsOf config (manager_after manager other)
      → IsOf config (manager_after manager (first_of cases other))
  unfolding first_of
  first_of-IsOf [] other manager all of = of
  first_of-IsOf ((true, handled) ∷ cases) other manager (here, all) of = here
  first_of-IsOf ((false, handled) ∷ cases) other manager (here, all) of =
      first_of-IsOf cases other manager all of

  handle_message-IsOf :
      (topic payload : Bytes) (manager : GatewayManager)
      → IsOf config manager
      → IsOf config (manager_after manager (handle_message topic payload manager))
  unfolding handle_message
  handle_message-IsOf topic payload manager of =
      let served = subst (IsOf config) (sym (manager-handle_sub_device topic payload manager)) (
        after_service-IsOf (find_prefix sub_service_prefix topic manager.sub_devices) topic payload
          manager of) in
      let own =
        first_of-IsOf (own_topics topic payload manager) (handle_sub_device topic payload manager)
          manager
          (
            handle_topo_get_reply-IsOf payload manager of,
            (
              handle_topo_add_reply-IsOf payload manager of,
              (
                handle_topo_add_notify-IsOf payload manager of,
                (
                  handle_topo_change-IsOf payload manager of,
                  (
                    of,
                    (
                      handle_combine_reply-IsOf topic payload manager of,
                      (handle_combine_reply-IsOf topic payload manager of, tt),
                    ),
                  ),
                ),
              ),
            ),
          )
          served in
      elim (Bool-cases (length manager.sub_devices == 0)) [ inl e ↦ rw e of | inr e ↦ rw e own ]

-- A sequence of messages, each a topic and a payload.
unfoldable pub receive_all : List (Bytes × Bytes) → GatewayManager → GatewayManager
unfolding handle_message
receive_all [] manager = manager
receive_all ((topic, payload) ∷ messages) manager =
    receive_all messages (manager_after manager (handle_message topic payload manager))

receive_all-IsOf :
    (config : DeviceConfig) (messages : List (Bytes × Bytes)) (manager : GatewayManager)
    → IsOf config manager
    → IsOf config (receive_all messages manager)
unfolding receive_all
receive_all-IsOf config [] manager of = of
receive_all-IsOf config ((topic, payload) ∷ messages) manager of =
    receive_all-IsOf config messages _ (handle_message-IsOf config topic payload manager of)

new_sub_devices :
    (configs : List SubDeviceConfig)
    → (map config_of (map new_sub_device configs) ≡ configs) × All Fits (map new_sub_device configs)
new_sub_devices [] = (refl, tt)
new_sub_devices (config ∷ configs) =
    let (same, fitting) = new_sub_devices configs in
    (ap (λ l. config ∷ l) same, (omega arith, fitting))

-- Whatever messages the gateway receives after its start, its table holds the sub-devices of the
-- configuration in their order, its own names are those of the configuration, and the text kept of each
-- device's last properties fits its buffer with the NUL.
pub gateway_init-receive_all-IsOf :
    (config : DeviceConfig) (messages : List (Bytes × Bytes))
    → IsOf config (receive_all messages (gateway_init config))
unfolding gateway_init
gateway_init-receive_all-IsOf config messages =
    let (same, fitting) = new_sub_devices config.sub_devices in
    receive_all-IsOf config messages _
      (record { same_key = refl; same_name = refl; same_devices = same; fitting = fitting })
