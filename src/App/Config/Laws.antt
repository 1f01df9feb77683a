-- ===== src/App/Config/Laws.antt =====
-- src/device_config.c: what a configuration that was read holds.
use aliyun_iot_arm.Prelude.{
  ℕ, ◌≤◌, ◌<◌, ◌≡◌, subst, ◌⊎◌, inl, inr, false, ◌&&◌, none, some, List, [], ◌∷◌, ◌++◌, arith, leb,
  Bool-cases, length, length-append, All, Bytes, codes,
}
use aliyun_iot_arm.Json.Copy.{Copied, copied, cut, rejected, succeeded, stored}
use aliyun_iot_arm.Json.Copy.Bounds.{Fits}
use aliyun_iot_arm.Json.Get.{get_string, get_array}
use aliyun_iot_arm.Json.Get.Bounds.{get_string-Fits, or_keep-Fits}
use aliyun_iot_arm.App.Config.{
  text_size, max_sub_devices, SubDeviceConfig, DeviceConfig, at_end, items_of, made_of,
  sub_device_of, add_sub_devices, load_sub_devices, read_config, load,
}

-- The texts lie in their buffers with their NULs, and the names are there.
pub record IsSubDevice (sub_device : SubDeviceConfig) : Type 0 where
  pub key_fits : length sub_device.product_key < text_size
  pub name_fits : length sub_device.device_name < text_size
  pub secret_fits : length sub_device.device_secret < text_size
  pub has_key : at_end sub_device.product_key ≡ false
  pub has_name : at_end sub_device.device_name ≡ false

stored-Fits : (size : ℕ) (r : Copied) → 0 < size → Fits size r → length (stored r) < size
stored-Fits size (copied w) room fits = omega arith
stored-Fits size (cut w) room fits = omega arith
stored-Fits size rejected room fits = omega arith

text_fits : (json key : Bytes) → length (stored (get_string json key text_size)) < text_size
text_fits json key =
    stored-Fits text_size (get_string json key text_size) (omega arith)
      (get_string-Fits json key text_size)

made_of-IsSubDevice :
    (item_json : Bytes)
    → at_end (stored (get_string item_json (codes "productKey") text_size)) ≡ false
    → at_end (stored (get_string item_json (codes "deviceName") text_size)) ≡ false
    → IsSubDevice (made_of item_json)
made_of-IsSubDevice item_json has_key has_name = record {
  key_fits = text_fits item_json (codes "productKey");
  name_fits = text_fits item_json (codes "deviceName");
  secret_fits =
      or_keep-Fits [] text_size (get_string item_json (codes "deviceSecret") text_size)
        (omega arith) (get_string-Fits item_json (codes "deviceSecret") text_size);
  has_key = has_key;
  has_name = has_name;
}

-- An item gives no device, or the one that it describes.
sub_device_of-cases :
    (item_json : Bytes)
    → (sub_device_of item_json ≡ none)
      ⊎ ((sub_device_of item_json ≡ some (made_of item_json)) × IsSubDevice (made_of item_json))
unfolding sub_device_of
sub_device_of-cases item_json =
    let product_key = get_string item_json (codes "productKey") text_size in
    let device_name = get_string item_json (codes "deviceName") text_size in
    elim (Bool-cases (succeeded product_key && succeeded device_name)) [
      | inr missing ↦ inl (ground (arith, missing))
      | inl there ↦ elim (Bool-cases (at_end (stored product_key))) [
        | inl e ↦ inl (ground (arith, there, e))
        | inr has_key ↦ elim (Bool-cases (at_end (stored device_name))) [
          | inl e ↦ inl (ground (arith, there, e))
          | inr has_name ↦ inr (
            ground (arith, there, has_key, has_name),
            made_of-IsSubDevice item_json has_key has_name,
          )
        ]
      ]
    ]

All-append :
    (sub_devices : List SubDeviceConfig) (sub_device : SubDeviceConfig)
    → All IsSubDevice sub_devices
    → IsSubDevice sub_device
    → All IsSubDevice (sub_devices ++ (sub_device ∷ []))
All-append [] sub_device all is = (is, tt)
All-append (first ∷ sub_devices) sub_device (here, all) is =
    (here, All-append sub_devices sub_device all is)

-- The devices so far: at most eight, each of them in bounds and named.
abbrev pub AreSubDevices : List SubDeviceConfig → Type 0
AreSubDevices sub_devices = All IsSubDevice sub_devices × (length sub_devices ≤ max_sub_devices)

add_sub_devices-AreSubDevices :
    (items : List Bytes) (sub_devices : List SubDeviceConfig)
    → AreSubDevices sub_devices
    → AreSubDevices (add_sub_devices items sub_devices)
unfolding add_sub_devices
add_sub_devices-AreSubDevices [] sub_devices are = are
add_sub_devices-AreSubDevices (item_json ∷ items) sub_devices (all, few) =
    elim (Bool-cases (leb max_sub_devices (length sub_devices))) [
      | inl full ↦ rw full (all, few)
      | inr room ↦ elim (sub_device_of-cases item_json) [
        | inl missing ↦
            rw (room, missing) (add_sub_devices-AreSubDevices items sub_devices (all, few))
        | inr (there, is) ↦
            rw (room, there)
              (add_sub_devices-AreSubDevices items (sub_devices ++ (made_of item_json ∷ [])) (
                All-append sub_devices (made_of item_json) all is,
                ground (arith, room, length-append sub_devices (made_of item_json ∷ [])),
              ))
      ]
    ]

load_sub_devices-AreSubDevices : (json : Bytes) → AreSubDevices (load_sub_devices json)
unfolding load_sub_devices
load_sub_devices-AreSubDevices json =
    let array_json = get_array json (codes "subDevice") 8192 in
    elim (Bool-cases (succeeded array_json)) [
      | inl e ↦
          rw e
            (add_sub_devices-AreSubDevices (items_of (stored array_json) 1024) [] (tt, omega arith))
      | inr e ↦ rw e (tt, omega arith)
    ]

read_config-AreSubDevices : (json : Bytes) → AreSubDevices (read_config json).sub_devices
unfolding read_config
read_config-AreSubDevices json = load_sub_devices-AreSubDevices json

load-read_config :
    (json : Bytes) (config : DeviceConfig)
    → load (some json) ≡ some config
    → read_config json ≡ config
unfolding load
load-read_config json config e = ground arith

-- A configuration that is read holds at most eight sub-devices; each of them has a product key and a device
-- name that are not empty, and its three texts lie in their buffers with the NUL.
pub load-AreSubDevices :
    (json : Bytes) (config : DeviceConfig)
    → load (some json) ≡ some config
    → AreSubDevices config.sub_devices
load-AreSubDevices json config e =
    let read : read_config json ≡ config = load-read_config json config e in
    subst (λ c. AreSubDevices c.sub_devices) read (read_config-AreSubDevices json)
