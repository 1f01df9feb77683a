-- ===== src/App/Shadow.antt =====
-- src/device_shadow_manager.c: the shadow of the device and its version.
use aliyun_iot_arm.Prelude.{
  ℕ, zero, suc, ◌+◌, ◌-◌, ◌*◌, ◌/◌, ◌%◌, ◌^◌, ◌≤◌, ◌<◌, ◌≡◌, refl, sym, ap, ◌∙◌, subst, subst₂, ◌≢◌,
  ◌↔◌, ◌⊎◌, inl, inr, Bool, true, false, not, ◌&&◌, ◌||◌, Option, none, some, List, [], ◌∷◌, ◌++◌,
  map, append-nil, append_assoc, arith, bit_and, bit_or, bit_xor, ltb, leb, ◌==◌, if◌then◌else◌,
  ltb→lt, lt→ltb, leb→le, ==_iff, Bool-cases, Option-cases, length, get_elem?, set, length-append,
  length-set, get_elem?-set_self, get_elem?-set_ne, get_or, take, drop, replicate, take-append-drop,
  All, drop-append, take-append, take_all, length-take, length-drop, length-replicate, length-map,
  ℤ, pos, negsuc, inc, dec, is_zero, is_neg, eq_ℤ, sub_ℕ, neg, eq_ℤ→eq, eq_ℤ_refl, Bytes, codes,
  starts_with, str_eq, strstr, isspace, snprintf, decimal, atoi, str_eq_iff, str_eq_refl,
  starts_with-append, concat, decimal_int,
}
use aliyun_iot_arm.Json.Copy.{
  Copied, copied, cut, rejected, succeeded, stored, or_keep, escape_string,
}
use aliyun_iot_arm.Json.Get.{get_string, get_object, get_raw_value}
use aliyun_iot_arm.App.Config.{DeviceConfig}
pub mod Version

-- `DeviceShadowManager` with what it shares with the application: the names of the device, and the switch.
-- A version is an `int`.
pub record DeviceShadowManager : Type 0 where
  pub product_key : Bytes
  pub device_name : Bytes
  pub version : ℤ
  pub adas_switch : Bool

-- `device_shadow_manager_init`
abbrev pub shadow_init : DeviceConfig → DeviceShadowManager
shadow_init config = record {
  product_key = config.product_key;
  device_name = config.device_name;
  version = pos 0;
  adas_switch = false;
}

abbrev pub is_positive : ℤ → Bool
is_positive (pos n) = not (n == 0)
is_positive (negsuc n) = false

-- The topics that are subscribed and published.
unfoldable pub get_topic : DeviceShadowManager → Bytes
get_topic manager =
    snprintf 320
      (concat (codes "/shadow/get/" ∷ manager.product_key ∷ codes "/" ∷ manager.device_name ∷ []))

unfoldable pub update_topic : DeviceShadowManager → Bytes
update_topic manager =
    snprintf 320 (
      concat (codes "/shadow/update/" ∷ manager.product_key ∷ codes "/" ∷ manager.device_name ∷ []))

-- The largest `int`.
abbrev pub int_max : ℕ
int_max = 2147483647

-- `version + 1` as an `int`. Behind the largest one C leaves the sum undefined; here it wraps to the
-- smallest, as the addition of two's complement does.
abbrev pub int_inc : ℤ → ℤ
int_inc version = if eq_ℤ version (pos int_max) then negsuc int_max else inc version

-- `device_shadow_manager_get_next_version`
unfoldable pub get_next_version : DeviceShadowManager → ℤ
get_next_version manager = if is_positive manager.version then int_inc manager.version else pos 0

-- `device_shadow_manager_update_version`
unfoldable pub update_version : (version : ℤ) → DeviceShadowManager → DeviceShadowManager
update_version version manager =
    if is_positive version then record manager { version = version } else manager

abbrev pub with_version : (front : Bytes) → ℤ → Bytes
with_version front version =
    if is_positive version
    then concat (front ∷ codes ",\"version\":" ∷ decimal_int version ∷ codes "}" ∷ [])
    else concat (front ∷ codes "}" ∷ [])

-- The payloads of `device_shadow_manager_get`, `_update_reported`, `_delete_key` and `_delete_all`; the
-- builders have the memory they ask for. `none` is -1, with nothing published.
abbrev pub get_payload : Bytes
get_payload = codes "{\"method\":\"get\"}"

unfoldable pub reported_payload : DeviceShadowManager → (reported_json : Bytes) → Bytes
unfolding get_next_version decimal
reported_payload manager reported_json =
    with_version
      (concat
        (codes "{\"method\":\"update\",\"state\":{\"reported\":" ∷ reported_json ∷ codes "}" ∷ []))
      (get_next_version manager)

unfoldable pub delete_key_payload : DeviceShadowManager → (key : Bytes) → Option Bytes
unfolding get_next_version decimal escape_string
delete_key_payload manager key =
    let escaped_key = escape_string key 256 in
    if not (succeeded escaped_key)
    then none
    else some (
        with_version
          (concat (
            codes "{\"method\":\"delete\",\"state\":{\"reported\":{\""
            ∷ stored escaped_key
            ∷ codes "\":\"null\"}}"
            ∷ []))
          (get_next_version manager))

unfoldable pub delete_all_payload : DeviceShadowManager → Bytes
unfolding get_next_version decimal
delete_all_payload manager =
    with_version (codes "{\"method\":\"delete\",\"state\":{\"reported\":\"null\"}")
      (get_next_version manager)

-- What a message makes the device do, in its order.
pub data Effect : Type 0 where
  post_properties : (params_json : Bytes) → Effect
  publish_reported : (payload : Bytes) → Effect

pub record Handled : Type 0 where
  pub manager : DeviceShadowManager
  pub effects : List Effect

-- The object "desired" of a control, where the three objects about it can be copied.
unfoldable pub desired_of : (payload : Bytes) → Option Bytes
unfolding get_object
desired_of payload =
    let payload_json = get_object payload (codes "payload") 4096 in
    let state_json = get_object (stored payload_json) (codes "state") 3072 in
    let desired_json = get_object (stored state_json) (codes "desired") 2048 in
    if succeeded payload_json && (succeeded state_json && succeeded desired_json)
    then some (stored desired_json)
    else none

-- The switch that a text of properties sets.
abbrev pub switch_of : Bytes → Option Bool
switch_of properties_json =
    let raw = get_raw_value properties_json (codes "ADASSwitch") 64 in
    if succeeded raw then some (not (is_zero (atoi (stored raw)))) else none

unfoldable pub control : (desired_json : Bytes) → DeviceShadowManager → Handled
unfolding get_raw_value atoi reported_payload
control desired_json manager = elim (switch_of desired_json) [
  | none ↦ record {
    manager = manager;
    effects = publish_reported (reported_payload manager desired_json) ∷ [];
  }
  | some is_on ↦ record {
    manager = record manager { adas_switch = is_on };
    effects =
        post_properties desired_json
        ∷ publish_reported (reported_payload manager desired_json)
        ∷ [];
  }
]

-- The version that a message carries, and the table behind it.
unfoldable pub versioned : (payload : Bytes) → DeviceShadowManager → DeviceShadowManager
unfolding get_raw_value atoi update_version
versioned payload manager =
    let raw = get_raw_value payload (codes "version") 64 in
    if succeeded raw then update_version (atoi (stored raw)) manager else manager

-- `device_shadow_manager_handle_message`; `none` is 0.
unfoldable pub handle_message : (topic payload : Bytes) → DeviceShadowManager → Option Handled
unfolding str_eq get_topic versioned get_string desired_of control
handle_message topic payload manager =
    let known = versioned payload manager in
    let method = or_keep [] (get_string payload (codes "method") 64) in
    let done : Handled = elim (desired_of payload) [
      | none ↦ record { manager = known; effects = [] }
      | some desired_json ↦ control desired_json known
    ] in
    if not (str_eq topic (get_topic manager))
    then none
    else (if str_eq method (codes "control")
        then some done
        else some (record { manager = known; effects = [] }))
