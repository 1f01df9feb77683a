-- ===== src/App/Config.antt =====
-- src/device_config.c: the configuration of the device, read from its file.
use aliyun_iot_arm.Prelude.{
  ℕ, zero, suc, ◌+◌, ◌-◌, ◌*◌, ◌/◌, ◌%◌, ◌^◌, ◌≤◌, ◌<◌, ◌≡◌, refl, sym, ap, ◌∙◌, subst, subst₂, ◌≢◌,
  ◌↔◌, ◌⊎◌, inl, inr, Bool, true, false, not, ◌&&◌, ◌||◌, Option, none, some, List, [], ◌∷◌, ◌++◌,
  map, append-nil, append_assoc, arith, bit_and, bit_or, bit_xor, ltb, leb, ◌==◌, if◌then◌else◌,
  ltb→lt, lt→ltb, leb→le, ==_iff, Bool-cases, Option-cases, length, get_elem?, set, length-append,
  length-set, get_elem?-set_self, get_elem?-set_ne, get_or, take, drop, replicate, take-append-drop,
  All, drop-append, take-append, take_all, length-take, length-drop, length-replicate, length-map,
  ℤ, pos, negsuc, inc, dec, is_zero, is_neg, eq_ℤ, sub_ℕ, neg, eq_ℤ→eq, eq_ℤ_refl, Bytes, codes,
  starts_with, str_eq, strstr, isspace, snprintf, decimal, atoi, str_eq_iff, str_eq_refl,
  starts_with-append,
}
use aliyun_iot_arm.Json.Copy.{Copied, copied, cut, rejected, succeeded, stored, or_keep}
use aliyun_iot_arm.Json.Get.{get_string, get_array}
use aliyun_iot_arm.Json.Array.{array_size, array_get_item}
pub mod Laws

abbrev pub text_size : ℕ
text_size = 128

abbrev pub region_size : ℕ
region_size = 64

abbrev pub sign_method_size : ℕ
sign_method_size = 32

abbrev pub max_sub_devices : ℕ
max_sub_devices = 8

pub record SubDeviceConfig : Type 0 where
  pub product_key : Bytes
  pub device_name : Bytes
  pub device_secret : Bytes
  pub sign_method : Bytes

-- `sub_device_count` is the length of the list.
pub record DeviceConfig : Type 0 where
  pub product_key : Bytes
  pub device_name : Bytes
  pub device_secret : Bytes
  pub instance_id : Bytes
  pub region : Bytes
  pub sub_devices : List SubDeviceConfig

-- The items of an array that can be copied, in their order; `remaining` counts those not read yet.
unfoldable pub items_from : (array_json : Bytes) (item_size index remaining : ℕ) → List Bytes
unfolding array_get_item
items_from array_json item_size index zero = []
items_from array_json item_size index (suc remaining) =
    let rest = items_from array_json item_size (index + 1) remaining in
    let item = array_get_item array_json index item_size in
    if succeeded item then stored item ∷ rest else rest

unfoldable pub items_of : (array_json : Bytes) (item_size : ℕ) → List Bytes
unfolding array_size items_from
items_of array_json item_size = elim (array_size array_json) [
  | none ↦ []
  | some item_count ↦ items_from array_json item_size 0 item_count
]

abbrev pub at_end : Bytes → Bool
at_end [] = true
at_end (c ∷ text) = false

-- The device that one item of "subDevice" describes.
abbrev pub made_of : Bytes → SubDeviceConfig
made_of item_json =
    let method = get_string item_json (codes "signMethod") sign_method_size in
    record {
      product_key = stored (get_string item_json (codes "productKey") text_size);
      device_name = stored (get_string item_json (codes "deviceName") text_size);
      device_secret = or_keep [] (get_string item_json (codes "deviceSecret") text_size);
      sign_method =
          if not (succeeded method) || at_end (stored method)
          then codes "hmacsha256"
          else stored method;
    }

-- That device, if the item names it.
unfoldable pub sub_device_of : Bytes → Option SubDeviceConfig
unfolding get_string
sub_device_of item_json =
    let product_key = get_string item_json (codes "productKey") text_size in
    let device_name = get_string item_json (codes "deviceName") text_size in
    if not (succeeded product_key && succeeded device_name)
    then none
    else (if at_end (stored product_key) || at_end (stored device_name)
        then none
        else some (made_of item_json))

abbrev pub with_next : Option SubDeviceConfig → List SubDeviceConfig → List SubDeviceConfig
with_next none sub_devices = sub_devices
with_next (some sub_device) sub_devices = sub_devices ++ (sub_device ∷ [])

-- The loop of `device_config_load_sub_devices`: it ends at the eighth device.
unfoldable pub add_sub_devices : List Bytes → List SubDeviceConfig → List SubDeviceConfig
unfolding sub_device_of
add_sub_devices [] sub_devices = sub_devices
add_sub_devices (item_json ∷ items) sub_devices =
    let rest = add_sub_devices items (with_next (sub_device_of item_json) sub_devices) in
    if leb max_sub_devices (length sub_devices) then sub_devices else rest

unfoldable pub load_sub_devices : Bytes → List SubDeviceConfig
unfolding add_sub_devices items_of get_array
load_sub_devices json =
    let array_json = get_array json (codes "subDevice") 8192 in
    if succeeded array_json then add_sub_devices (items_of (stored array_json) 1024) [] else []

-- The configuration that a text describes.
unfoldable pub read_config : (json : Bytes) → DeviceConfig
unfolding get_string load_sub_devices
read_config json = record {
  product_key = stored (get_string json (codes "productKey") text_size);
  device_name = stored (get_string json (codes "deviceName") text_size);
  device_secret = stored (get_string json (codes "deviceSecret") text_size);
  instance_id = or_keep [] (get_string json (codes "instanceId") text_size);
  region = or_keep [] (get_string json (codes "region") region_size);
  sub_devices = load_sub_devices json;
}

-- `device_config_load`, from the text of the file; `none` where that cannot be read.
unfoldable pub load : (json : Option Bytes) → Option DeviceConfig
unfolding get_string read_config
load none = none
load (some json) =
    let product_key = get_string json (codes "productKey") text_size in
    let device_name = get_string json (codes "deviceName") text_size in
    let device_secret = get_string json (codes "deviceSecret") text_size in
    if not (succeeded product_key && (succeeded device_name && succeeded device_secret))
    then none
    else some (read_config json)

-- `device_config_build_mqtt_host`, for a buffer that is there.
unfoldable pub build_mqtt_host : DeviceConfig → (host_size : ℕ) → Option Bytes
build_mqtt_host config host_size =
    if host_size == 0
    then none
    else (if not (at_end config.instance_id)
        then some (snprintf host_size (config.instance_id ++ codes ".mqtt.iothub.aliyuncs.com"))
        else (if at_end config.region
            then none
            else some (
                snprintf host_size (
                  config.product_key
                  ++ (codes ".iot-as-mqtt." ++ (config.region ++ codes ".aliyuncs.com"))))))
