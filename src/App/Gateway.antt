-- ===== src/App/Gateway.antt =====
-- src/gateway_manager.c: the table of the sub-devices.
use aliyun_iot_arm.Prelude.{
  ℕ, zero, suc, ◌+◌, ◌-◌, ◌*◌, ◌/◌, ◌%◌, ◌^◌, ◌≤◌, ◌<◌, ◌≡◌, refl, sym, ap, ◌∙◌, subst, subst₂, ◌≢◌,
  ◌↔◌, ◌⊎◌, inl, inr, Bool, true, false, not, ◌&&◌, ◌||◌, Option, none, some, List, [], ◌∷◌, ◌++◌,
  map, append-nil, append_assoc, arith, bit_and, bit_or, bit_xor, ltb, leb, ◌==◌, if◌then◌else◌,
  ltb→lt, lt→ltb, leb→le, ==_iff, Bool-cases, Option-cases, length, get_elem?, set, length-append,
  length-set, get_elem?-set_self, get_elem?-set_ne, get_or, take, drop, replicate, take-append-drop,
  All, drop-append, take-append, take_all, length-take, length-drop, length-replicate, length-map,
  ℤ, pos, negsuc, inc, dec, is_zero, is_neg, eq_ℤ, sub_ℕ, neg, eq_ℤ→eq, eq_ℤ_refl, Bytes, codes,
  starts_with, str_eq, strstr, isspace, snprintf, decimal, atoi, str_eq_iff, str_eq_refl,
  starts_with-append,
}
use aliyun_iot_arm.App.Config.{SubDeviceConfig, DeviceConfig, at_end}
pub mod Topics
pub mod Requests
pub mod Handle
pub mod Services
pub mod Start
pub mod Table
pub mod Devices
pub mod Receive
pub mod Others
pub mod Asked
pub mod Refine
pub mod Replies

pub record GatewaySubDeviceState : Type 0 where
  pub config : SubDeviceConfig
  pub topo_added : Bool
  pub online : Bool
  pub disabled : Bool
  pub last_property_json : Bytes

-- `GatewayManager`, with what its functions read of the application; `sub_device_count` is the length of
-- the list.
pub record GatewayManager : Type 0 where
  pub product_key : Bytes
  pub device_name : Bytes
  pub sub_devices : List GatewaySubDeviceState

abbrev pub property_size : ℕ
property_size = 1024

-- `gateway_manager_init`
abbrev pub new_sub_device : SubDeviceConfig → GatewaySubDeviceState
new_sub_device config = record {
  config = config;
  topo_added = false;
  online = false;
  disabled = false;
  last_property_json = codes "{}";
}

unfoldable pub gateway_init : DeviceConfig → GatewayManager
gateway_init config = record {
  product_key = config.product_key;
  device_name = config.device_name;
  sub_devices = map new_sub_device config.sub_devices;
}

-- The two comparisons of a device with a key.
abbrev pub is_named : (product_key device_name : Bytes) → GatewaySubDeviceState → Bool
is_named product_key device_name sub_device =
    str_eq sub_device.config.product_key product_key
    && str_eq sub_device.config.device_name device_name

-- `gateway_find_sub_device_index`; `none` is -1.
unfoldable pub find_index :
    (product_key device_name : Bytes) → List GatewaySubDeviceState → Option ℕ
unfolding str_eq
find_index product_key device_name [] = none
find_index product_key device_name (sub_device ∷ sub_devices) =
    let rest = find_index product_key device_name sub_devices in
    if is_named product_key device_name sub_device
    then some 0
    else elim rest [ none ↦ none | some index ↦ some (suc index) ]

-- `gateway_sub_device_has_secret`
abbrev pub has_secret : GatewaySubDeviceState → Bool
has_secret sub_device = not (at_end sub_device.config.device_secret)

-- A change of the device at an index; out of range there is none.
unfoldable pub update_at :
    ℕ
    → (GatewaySubDeviceState → GatewaySubDeviceState)
    → List GatewaySubDeviceState
    → List GatewaySubDeviceState
update_at index change [] = []
update_at zero change (sub_device ∷ sub_devices) = change sub_device ∷ sub_devices
update_at (suc index) change (sub_device ∷ sub_devices) =
    sub_device ∷ update_at index change sub_devices

abbrev pub with_topo :
    (topo_added disabled online : Bool) → GatewaySubDeviceState → GatewaySubDeviceState
with_topo topo_added disabled online sub_device = record sub_device {
  topo_added = topo_added;
  disabled = disabled;
  online = online;
}

-- `gateway_update_topo_state`
unfoldable pub update_topo_state :
    (index : ℕ) (topo_added disabled online : Bool) → GatewayManager → GatewayManager
unfolding update_at
update_topo_state index topo_added disabled online manager = record manager {
  sub_devices = update_at index (with_topo topo_added disabled online) manager.sub_devices;
}

abbrev pub with_online : (online : Bool) → GatewaySubDeviceState → GatewaySubDeviceState
with_online online sub_device = record sub_device { online = online }

-- `gateway_update_online_state`
unfoldable pub update_online_state : (index : ℕ) (online : Bool) → GatewayManager → GatewayManager
unfolding update_at
update_online_state index online manager = record manager {
  sub_devices = update_at index (with_online online) manager.sub_devices;
}

abbrev pub with_properties : Bytes → GatewaySubDeviceState → GatewaySubDeviceState
with_properties properties_json sub_device = record sub_device {
  last_property_json = snprintf property_size properties_json;
}

-- `gateway_store_properties`
unfoldable pub store_properties : (index : ℕ) → Bytes → GatewayManager → GatewayManager
unfolding update_at
store_properties index properties_json manager = record manager {
  sub_devices = update_at index (with_properties properties_json) manager.sub_devices;
}
