-- ===== src/App/Gateway/Devices.antt =====
-- src/gateway_manager.c: the devices of the table under the changes of the handlers.
use aliyun_iot_arm.Prelude.{
  ℕ, zero, suc, ◌<◌, ◌≡◌, refl, sym, ap, ◌∙◌, subst, Bool, true, false, Option, none, some, List,
  [], ◌∷◌, map, arith, if◌then◌else◌, length, All, length-take, ℤ, Bytes,
}
use aliyun_iot_arm.App.Config.{SubDeviceConfig, DeviceConfig}
use aliyun_iot_arm.App.Gateway.{
  GatewaySubDeviceState, GatewayManager, update_at, with_topo, with_online, with_properties,
  update_topo_state, update_online_state, store_properties, property_size,
}
use aliyun_iot_arm.App.Gateway.Handle.{
  Handled, Visit, visit_items, index_of_item, reset, visit_changed,
}
use aliyun_iot_arm.App.Gateway.Table.{Status}
use aliyun_iot_arm.App.Gateway.Refine.{apply_status}
use aliyun_iot_arm.App.Gateway.Replies.{changed_to, visit_changed_lem}

abbrev pub config_of : GatewaySubDeviceState → SubDeviceConfig
config_of sub_device = sub_device.config

-- The text of the last properties and its NUL are in their buffer.
abbrev pub Fits : GatewaySubDeviceState → Type 0
Fits sub_device = length sub_device.last_property_json < property_size

-- The devices are those of the configuration, in its order.
pub record IsOf (config : DeviceConfig) (manager : GatewayManager) : Type 0 where
  pub same_key : manager.product_key ≡ config.product_key
  pub same_name : manager.device_name ≡ config.device_name
  pub same_devices : map config_of manager.sub_devices ≡ config.sub_devices
  pub fitting : All Fits manager.sub_devices

-- A change of one device that keeps its configuration and its text in bounds.
abbrev pub IsChange : (GatewaySubDeviceState → GatewaySubDeviceState) → Type 0
IsChange change =
    (sub_device : GatewaySubDeviceState)
    → ((change sub_device).config ≡ sub_device.config)
      × (Fits sub_device → Fits (change sub_device))

map_config-update_at :
    (change : GatewaySubDeviceState → GatewaySubDeviceState) (index : ℕ)
    (sub_devices : List GatewaySubDeviceState)
    → IsChange change
    → map config_of (update_at index change sub_devices) ≡ map config_of sub_devices
unfolding update_at
map_config-update_at change index [] is_change = refl
map_config-update_at change zero (sub_device ∷ sub_devices) is_change =
    λ i. (is_change sub_device).0 i ∷ map config_of sub_devices
map_config-update_at change (suc index) (sub_device ∷ sub_devices) is_change =
    ap (λ l. sub_device.config ∷ l) (map_config-update_at change index sub_devices is_change)

All-update_at :
    (change : GatewaySubDeviceState → GatewaySubDeviceState) (index : ℕ)
    (sub_devices : List GatewaySubDeviceState)
    → IsChange change
    → All Fits sub_devices
    → All Fits (update_at index change sub_devices)
unfolding update_at
All-update_at change index [] is_change fitting = fitting
All-update_at change zero (sub_device ∷ sub_devices) is_change (fits, fitting) =
    ((is_change sub_device).1 fits, fitting)
All-update_at change (suc index) (sub_device ∷ sub_devices) is_change (fits, fitting) =
    (fits, All-update_at change index sub_devices is_change fitting)

map_config-with_topo :
    (topo_added disabled online : Bool) (sub_devices : List GatewaySubDeviceState)
    → map config_of (map (with_topo topo_added disabled online) sub_devices)
      ≡ map config_of sub_devices
map_config-with_topo a d o [] = refl
map_config-with_topo a d o (sub_device ∷ sub_devices) =
    ap (λ l. sub_device.config ∷ l) (map_config-with_topo a d o sub_devices)

All-with_topo :
    (topo_added disabled online : Bool) (sub_devices : List GatewaySubDeviceState)
    → All Fits sub_devices
    → All Fits (map (with_topo topo_added disabled online) sub_devices)
All-with_topo a d o [] fitting = fitting
All-with_topo a d o (sub_device ∷ sub_devices) (fits, fitting) =
    (fits, All-with_topo a d o sub_devices fitting)

abbrev pub idle : GatewayManager → Handled
idle manager = record { manager = manager; requests = [] }

module _ (config : DeviceConfig) where
  pub update_at-IsOf :
      (change : GatewaySubDeviceState → GatewaySubDeviceState) (index : ℕ)
      (manager : GatewayManager)
      → IsChange change
      → IsOf config manager
      → IsOf config (record manager { sub_devices = update_at index change manager.sub_devices })
  update_at-IsOf change index manager is_change of = record {
    same_key = of.same_key;
    same_name = of.same_name;
    same_devices =
        map_config-update_at change index manager.sub_devices is_change ∙ of.same_devices;
    fitting = All-update_at change index manager.sub_devices is_change of.fitting;
  }

  pub update_topo_state-IsOf :
      (index : ℕ) (topo_added disabled online : Bool) (manager : GatewayManager)
      → IsOf config manager
      → IsOf config (update_topo_state index topo_added disabled online manager)
  unfolding update_topo_state
  update_topo_state-IsOf index a d o manager =
      update_at-IsOf (with_topo a d o) index manager (λ sub_device. (refl, λ fits. fits))

  pub update_online_state-IsOf :
      (index : ℕ) (online : Bool) (manager : GatewayManager)
      → IsOf config manager
      → IsOf config (update_online_state index online manager)
  unfolding update_online_state
  update_online_state-IsOf index online manager =
      update_at-IsOf (with_online online) index manager (λ sub_device. (refl, λ fits. fits))

  pub store_properties-IsOf :
      (index : ℕ) (properties_json : Bytes) (manager : GatewayManager)
      → IsOf config manager
      → IsOf config (store_properties index properties_json manager)
  unfolding store_properties
  store_properties-IsOf index json manager =
      update_at-IsOf (with_properties json) index manager
        (λ sub_device. (refl, λ fits. omega (arith, length-take 1023 json)))

  pub reset-IsOf : (manager : GatewayManager) → IsOf config manager → IsOf config (reset manager)
  reset-IsOf manager of = record {
    same_key = of.same_key;
    same_name = of.same_name;
    same_devices = map_config-with_topo false false false manager.sub_devices ∙ of.same_devices;
    fitting = All-with_topo false false false manager.sub_devices of.fitting;
  }

  pub IsOf-if :
      (test : Bool) (handled handled' : Handled)
      → IsOf config handled.manager
      → IsOf config handled'.manager
      → IsOf config (if test then handled else handled').manager
  IsOf-if true handled handled' of of' = of
  IsOf-if false handled handled' of of' = of'

  -- The table after a pass that may find no device.
  pub IsOf-found :
      (found : Option ℕ) (visit : Visit) (manager : GatewayManager)
      → ((index : ℕ) (m : GatewayManager) → IsOf config m → IsOf config (visit index m).manager)
      → IsOf config manager
      → let here : Handled = elim found [
        | none ↦ record { manager = manager; requests = [] }
        | some index ↦ visit index manager
      ] in
        IsOf config here.manager
  IsOf-found none visit manager keeps of = of
  IsOf-found (some index) visit manager keeps of = keeps index manager of

  pub visit_items-IsOf :
      (visit : Visit) (items : List Bytes) (manager : GatewayManager)
      → ((index : ℕ) (m : GatewayManager) → IsOf config m → IsOf config (visit index m).manager)
      → IsOf config manager
      → IsOf config (visit_items visit items manager).manager
  unfolding visit_items
  visit_items-IsOf visit [] manager keeps of = of
  visit_items-IsOf visit (item_json ∷ items) manager keeps of =
      visit_items-IsOf visit items _ keeps
        (IsOf-found (index_of_item manager item_json) visit manager keeps of)

  pub apply_status-IsOf :
      (new : Option Status) (index : ℕ) (manager : GatewayManager)
      → IsOf config manager
      → IsOf config (apply_status new index manager)
  apply_status-IsOf none index manager of = of
  apply_status-IsOf (some status) index manager of =
      update_topo_state-IsOf index status.topo_added status.disabled status.online manager of

  pub visit_changed-IsOf :
      (status : ℤ) (index : ℕ) (manager : GatewayManager)
      → IsOf config manager
      → IsOf config (visit_changed status index manager).manager
  visit_changed-IsOf status index manager of =
      subst (IsOf config) (sym (visit_changed_lem status index manager))
        (apply_status-IsOf (changed_to status) index manager of)
