-- ===== src/App/Tests/Gateway.antt =====
-- Runs of the gateway of sub-devices.
use aliyun_iot_arm.Prelude.{
  ◌≡◌, refl, ◌⊎◌, true, false, Option, none, some, List, [], ◌∷◌, ◌++◌, arith, if◌then◌else◌,
  get_elem?, Bytes, codes, atoi,
}
use aliyun_iot_arm.Json.Copy.{succeeded, stored}
use aliyun_iot_arm.Json.Get.{get_object, get_raw_value}
use aliyun_iot_arm.App.Gateway.{GatewaySubDeviceState, gateway_init, with_topo, update_topo_state}
use aliyun_iot_arm.App.Gateway.Requests.{login}
use aliyun_iot_arm.App.Gateway.Handle.{
  handle_topo_get_reply, handle_topo_change, is_success, number_at,
}
use aliyun_iot_arm.App.Gateway.Table.{Status, status_of}
use aliyun_iot_arm.App.Gateway.Refine.{statuses, overwritten, is_listed}
use aliyun_iot_arm.App.Gateway.Replies.{
  listed_by, is_added, is_removed, changed_to, handle_topo_get_reply-statuses,
  handle_topo_change-statuses,
}
use aliyun_iot_arm.App.Gateway.Devices.{IsOf}
use aliyun_iot_arm.App.Gateway.Receive.{receive_all, gateway_init-receive_all-IsOf}
use aliyun_iot_arm.App.Gateway.Start.{Call, start}
use aliyun_iot_arm.App.Gateway.Asked.{Includes, handle_topo_get_reply-Includes}
use aliyun_iot_arm.App.Gateway.Start.Order.{all_answer, wanted_calls, start_lem}
use aliyun_iot_arm.App.Tests.Data.{sub_config, config, device, gateway}

abbrev topology : Bytes
topology = codes "{\"code\":200,\"data\":[{\"productKey\":\"pk\",\"deviceName\":\"d2\"}]}"

topology-success : is_success topology ≡ true
unfolding get_raw_value atoi
topology-success = refl

handle_topo_get_reply-statuses_example :
    statuses (handle_topo_get_reply topology gateway).manager (codes "pk") (codes "d2") ≡ (
      if is_success topology
      then overwritten
          (some is_added)
          (is_listed (codes "pk") (codes "d2") (listed_by topology (codes "data")))
          (overwritten (some is_removed) true (statuses gateway (codes "pk") (codes "d2")))
      else statuses gateway (codes "pk") (codes "d2"))
handle_topo_get_reply-statuses_example =
    handle_topo_get_reply-statuses topology gateway (codes "pk") (codes "d2")

-- The device that is listed is in the topology.
topology-added :
    statuses (handle_topo_get_reply topology gateway).manager (codes "pk") (codes "d2")
    ≡ some is_added
unfolding handle_topo_get_reply update_topo_state status_of
topology-added = refl

abbrev change : Bytes
change =
    codes
      "{\"id\":\"7\",\"params\":{\"status\":8,\"subList\":[{\"productKey\":\"pk\",\"deviceName\":\"d1\"}]}}"

handle_topo_change-statuses_example :
    let params_json = get_object change (codes "params") 4096 in
    let new : Option Status = elim (number_at (stored params_json) (codes "status")) [
      | none ↦ none
      | some status ↦ if succeeded params_json then changed_to status else none
    ] in
    statuses (handle_topo_change change gateway).manager (codes "pk") (codes "d1")
    ≡ overwritten new
        (is_listed (codes "pk") (codes "d1") (listed_by (stored params_json) (codes "subList")))
        (statuses gateway (codes "pk") (codes "d1"))
handle_topo_change-statuses_example =
    handle_topo_change-statuses change gateway (codes "pk") (codes "d1")

gateway_init-receive_all-IsOf_example :
    IsOf config
      (receive_all ((codes "/sys/gk/gw/thing/topo/change", change) ∷ []) (gateway_init config))
gateway_init-receive_all-IsOf_example =
    gateway_init-receive_all-IsOf config ((codes "/sys/gk/gw/thing/topo/change", change) ∷ [])

abbrev second_added : GatewaySubDeviceState
second_added = with_topo true false false (device (sub_config (codes "d2") (codes "s2")))

second-there :
    get_elem? (handle_topo_get_reply topology gateway).manager.sub_devices 1 ≡ some second_added
unfolding handle_topo_get_reply
second-there = refl

handle_topo_get_reply-Includes_example :
    Includes (login 1 ∷ []) (handle_topo_get_reply topology gateway).requests
handle_topo_get_reply-Includes_example =
    handle_topo_get_reply-Includes topology gateway 1 second_added topology-success second-there
      refl refl

start_lem_example :
    ((start (λ call. true) gateway ≡ (true, wanted_calls gateway))
      × (all_answer (λ call. true) (wanted_calls gateway) ≡ true))
    ⊎ ((before : List Call) × (failing : Call) × (after : List Call) × (start (λ call. true) gateway
          ≡ (false, before ++ (failing ∷ [])))
        × (wanted_calls gateway ≡ before ++ (failing ∷ after))
        × (all_answer (λ call. true) before ≡ true)
        × (true ≡ false))
start_lem_example = start_lem (λ call. true) gateway (λ e. absurd (omega arith))
