-- ===== src/App/Gateway/Start.antt =====
-- src/gateway_manager.c: the subscriptions and the first requests.
use aliyun_iot_arm.Prelude.{
  Bool, true, false, List, [], ◌∷◌, ◌++◌, ◌==◌, if◌then◌else◌, length, Bytes, codes,
}
use aliyun_iot_arm.App.Gateway.{GatewaySubDeviceState, GatewayManager}
use aliyun_iot_arm.App.Gateway.Topics.{topo_topic, list_found_reply_topic, combine_topic, sub_topic}
use aliyun_iot_arm.App.Gateway.Requests.{Request, list_found, topo_get}
pub mod Order

-- The calls of `gateway_manager_start` that can fail.
pub data Call : Type 0 where
  subscribe : (topic : Bytes) → Call
  request : Request → Call

-- The two subscriptions of each sub-device.
unfoldable pub sub_device_calls : List GatewaySubDeviceState → List Call
sub_device_calls [] = []
sub_device_calls (sub_device ∷ sub_devices) =
    subscribe (sub_topic sub_device (codes "/thing/service/#"))
    ∷ subscribe (sub_topic sub_device (codes "/thing/event/+/post_reply"))
    ∷ sub_device_calls sub_devices

-- Every call of `gateway_manager_start`, in its order.
unfoldable pub start_calls : GatewayManager → List Call
unfolding sub_device_calls topo_topic list_found_reply_topic combine_topic
start_calls manager =
    subscribe (topo_topic manager (codes "#"))
    ∷ subscribe (list_found_reply_topic manager)
    ∷ subscribe (combine_topic manager (codes "#"))
    ∷ (sub_device_calls manager.sub_devices ++ (request list_found ∷ request topo_get ∷ []))

-- The calls up to the first that fails, and whether all answered 0; `answers` says which calls do.
unfoldable pub until_failure : (answers : Call → Bool) → List Call → Bool × List Call
until_failure answers [] = (true, [])
until_failure answers (call ∷ calls) =
    let (ok, made) = until_failure answers calls in
    if answers call then (ok, call ∷ made) else (false, call ∷ [])

-- `gateway_manager_start`: whether it answers 0, and the calls it makes.
unfoldable pub start : (answers : Call → Bool) → GatewayManager → Bool × List Call
unfolding start_calls until_failure
start answers manager =
    if length manager.sub_devices == 0
    then (true, [])
    else until_failure answers (start_calls manager)
