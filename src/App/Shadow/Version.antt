-- ===== src/App/Shadow/Version.antt =====
-- src/device_shadow_manager.c: the version over any sequence of messages, and the topics.
use aliyun_iot_arm.Prelude.{
  ◌&&◌, Option, none, some, List, [], ◌∷◌, if◌then◌else◌, ℤ, Bytes, codes, atoi,
}
use aliyun_iot_arm.Json.Copy.{succeeded, stored}
use aliyun_iot_arm.Json.Get.{get_raw_value}
use aliyun_iot_arm.App.Shadow.{DeviceShadowManager, Handled, is_positive, handle_message}

-- The shadow after a message that may be left to others.
abbrev pub manager_after : DeviceShadowManager → Option Handled → DeviceShadowManager
manager_after manager none = manager
manager_after manager (some handled) = handled.manager

unfoldable pub receive_all : List (Bytes × Bytes) → DeviceShadowManager → DeviceShadowManager
unfolding handle_message
receive_all [] manager = manager
receive_all ((topic, payload) ∷ messages) manager =
    receive_all messages (manager_after manager (handle_message topic payload manager))

-- The version that a payload carries, where it is positive.
unfoldable pub carried : (payload : Bytes) → Option ℤ
unfolding get_raw_value atoi
carried payload =
    let raw = get_raw_value payload (codes "version") 64 in
    if succeeded raw && is_positive (atoi (stored raw)) then some (atoi (stored raw)) else none
