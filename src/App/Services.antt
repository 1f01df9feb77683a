-- ===== src/App/Services.antt =====
-- src/iot_ide_app.c: the services of the device.
use aliyun_iot_arm.Prelude.{
  ℕ, Bool, false, not, Option, none, some, List, [], ◌∷◌, ◌++◌, map, if◌then◌else◌, Bytes, codes,
  snprintf, decimal, atoi, concat,
}
use aliyun_iot_arm.Json.Copy.{succeeded, stored, or_keep, escape_string}
use aliyun_iot_arm.Json.Get.{get_string, get_object, get_raw_value}
use aliyun_iot_arm.Ide.Manager
use aliyun_iot_arm.Ide.Manager.{is_connected_client, get_snapshot}
use aliyun_iot_arm.Ide.Manager.Handle
use aliyun_iot_arm.Ide.Manager.Handle.{handle_request_connect, handle_disconnect, handle_heartbeat}
use aliyun_iot_arm.App.Deploy
use aliyun_iot_arm.App.Deploy.Turns
use aliyun_iot_arm.App.Deploy.Turns.{DeployManager, Supply, handle_deploy}
use aliyun_iot_arm.App.StartProject.{StartTask, Started, Surroundings, handle_start}
use aliyun_iot_arm.App.Shadow.{DeviceShadowManager, reported_payload, switch_of}
use aliyun_iot_arm.App.Publish.{build_simple_result_json}

-- The managers of `AppContext`; the switch is in the shadow's, which sets it too.
pub record AppContext : Type 0 where
  pub ide_manager : Manager.Manager
  pub deploy_manager : DeployManager
  pub start_busy : Bool
  pub shadow_manager : DeviceShadowManager

-- What a service does outside, in its order.
pub data Effect : Type 0 where
  post_properties : (params_json : Bytes) → Effect
  publish_shadow : (payload : Bytes) → Effect
  report_ide : Manager.Report → Effect
  report_deploy : Deploy.DeployStatus → Effect
  start_worker : Deploy.DeployTask → Effect
  launch_program : StartTask → Effect
  reply : (service_path request_id data_json : Bytes) → Effect

pub record Served : Type 0 where
  pub app : AppContext
  pub effects : List Effect

-- The time of a message, and what it may or may not get.
pub record Moment : Type 0 where
  pub now_ms : ℕ
  pub had : Bool
  pub supply : Supply
  pub around : Surroundings

abbrev pub replied : (service_path request_id data_json : Bytes) → AppContext → Served
replied service_path request_id data_json app = record {
  app = app;
  effects = reply service_path request_id data_json ∷ [];
}

-- `app_handle_property_set`
unfoldable pub handle_property_set : (request_id payload : Bytes) → AppContext → Served
unfolding get_object get_raw_value atoi reported_payload
handle_property_set request_id payload app =
    let params_json = get_object payload (codes "params") 2048 in
    let params = if succeeded params_json then stored params_json else codes "{}" in
    let shadow : DeviceShadowManager = elim (switch_of params) [
      | none ↦ app.shadow_manager
      | some is_on ↦ record app.shadow_manager { adas_switch = is_on }
    ] in
    record {
      app = record app { shadow_manager = shadow };
      effects =
          post_properties params
          ∷ publish_shadow (reported_payload shadow params)
          ∷ reply (codes "property/set") request_id (codes "{}")
          ∷ [];
    }

-- `app_handle_property_get`
unfoldable pub properties_text : AppContext → Bytes
unfolding get_snapshot escape_string decimal
properties_text app =
    let (connected, client_id, heartbeat_ms) = get_snapshot app.ide_manager 128 in
    let escaped_client_id = or_keep [] (escape_string client_id 256) in
    snprintf 1024 (
      concat (
        codes "{\"ADASSwitch\":"
        ∷ (if app.shadow_manager.adas_switch then codes "1" else codes "0")
        ∷ codes ",\"hasIDEConnected\":"
        ∷ (if connected then codes "1" else codes "0")
        ∷ codes ",\"IDEInfo\":\""
        ∷ escaped_client_id
        ∷ codes "\",\"IDEHeartbeat\":\""
        ∷ decimal heartbeat_ms
        ∷ codes "\"}"
        ∷ []))

-- The text that a service's answer starts with.
abbrev pub failed_text : (service : Bytes) → Bytes
failed_text service =
    concat (codes "{\"success\":0,\"message\":\"" ∷ service ∷ codes " failed\"}" ∷ [])

-- What one of the three services of the lock leaves.
abbrev pub ide_served : (service request_id : Bytes) → Handle.Handled → AppContext → Served
ide_served service request_id handled app = record {
  app = record app { ide_manager = handled.manager };
  effects =
      map report_ide handled.reports
      ++ (reply service request_id (or_keep (failed_text service) handled.response) ∷ []);
}

-- `app_handle_connect_service`, `app_handle_disconnect_service` and `app_handle_heartbeat_service`
unfoldable pub handle_connect_service : Moment → (request_id payload : Bytes) → AppContext → Served
unfolding get_object handle_request_connect
handle_connect_service moment request_id payload app =
    let params = get_object payload (codes "params") 2048 in
    let service = codes "requestConnect" in
    if succeeded params
    then ide_served service request_id
        (handle_request_connect moment.had moment.now_ms (some (stored params)) 512 app.ide_manager)
        app
    else replied service request_id (failed_text service) app

unfoldable pub handle_disconnect_service :
    Moment → (request_id payload : Bytes) → AppContext → Served
unfolding get_object handle_disconnect
handle_disconnect_service moment request_id payload app =
    let params = get_object payload (codes "params") 1024 in
    let service = codes "requestDisconnect" in
    if succeeded params
    then ide_served service request_id
        (handle_disconnect moment.had (some (stored params)) 512 app.ide_manager) app
    else replied service request_id (failed_text service) app

unfoldable pub handle_heartbeat_service :
    Moment → (request_id payload : Bytes) → AppContext → Served
unfolding get_object handle_heartbeat
handle_heartbeat_service moment request_id payload app =
    let params = get_object payload (codes "params") 1024 in
    let service = codes "ideHeartbeat" in
    if succeeded params
    then ide_served service request_id
        (handle_heartbeat moment.had moment.now_ms (some (stored params)) 512 app.ide_manager) app
    else replied service request_id (failed_text service) app

-- The IDE that the parameters name holds the device.
unfoldable pub is_active : (params : Bytes) → AppContext → Bool
unfolding get_string is_connected_client
is_active params app =
    is_connected_client app.ide_manager (or_keep [] (get_string params (codes "clientId") 128))

abbrev pub optional : {A : Type 0} → (A → Effect) → Option A → List Effect
optional effect none = []
optional effect (some x) = effect x ∷ []

abbrev pub or_text : Bytes → Option Bytes → Bytes
or_text default none = default
or_text default (some text) = text

-- The way of a service that only the active IDE has: without parameters it fails, for another IDE it refuses.
abbrev pub guarded :
    (service request_id failed refusal : Bytes) (has_params active : Bool)
    → AppContext
    → Served
    → Served
guarded service request_id failed refusal has_params active app accepted =
    if not has_params
    then replied service request_id failed app
    else (if not active then replied service request_id refusal app else accepted)

abbrev pub deploy_failed : Bytes
deploy_failed = codes "{\"success\":0,\"message\":\"deployProject failed\",\"deployLog\":\"\"}"

-- What the deployment itself leaves.
abbrev pub deploy_served : (request_id : Bytes) → Turns.Handled → AppContext → Served
deploy_served request_id handled app = record {
  app = record app { deploy_manager = handled.manager };
  effects =
      optional report_deploy handled.report
      ++ (optional start_worker handled.started
          ++ (reply (codes "deployProject") request_id (or_keep deploy_failed handled.response)
              ∷ []));
}

-- `app_handle_deploy_service`
unfoldable pub handle_deploy_service : Moment → (request_id payload : Bytes) → AppContext → Served
unfolding get_object is_active handle_deploy build_simple_result_json
handle_deploy_service moment request_id payload app =
    let params = get_object payload (codes "params") 4096 in
    let refusal = or_text deploy_failed (
      build_simple_result_json false
        (codes "deploy rejected, clientId is not the active IDE connection") 1024) in
    guarded (codes "deployProject") request_id deploy_failed refusal (succeeded params)
      (is_active (stored params) app) app
      (deploy_served request_id
        (handle_deploy moment.supply (stored params) 1024 app.deploy_manager) app)

abbrev pub start_failed : Bytes
start_failed = failed_text (codes "startProject")

abbrev pub start_served : (request_id : Bytes) → Started → AppContext → Served
start_served request_id started app = record {
  app = record app { start_busy = started.busy };
  effects =
      optional launch_program started.launched
      ++ (reply (codes "startProject") request_id (or_keep start_failed started.response) ∷ []);
}

-- `app_handle_start_service`
unfoldable pub handle_start_service : Moment → (request_id payload : Bytes) → AppContext → Served
unfolding get_object is_active handle_start build_simple_result_json
handle_start_service moment request_id payload app =
    let params = get_object payload (codes "params") 2048 in
    let refusal = or_text start_failed (
      build_simple_result_json false
        (codes "start rejected, clientId is not the active IDE connection") 1024) in
    guarded (codes "startProject") request_id start_failed refusal (succeeded params)
      (is_active (stored params) app) app
      (start_served request_id (handle_start moment.around (stored params) 1024 app.start_busy) app)
