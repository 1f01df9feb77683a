-- ===== src/App/Tests.antt =====
-- Runs of the configuration, the shadow and the application.
mod Data
mod Gateway
mod Deploy
use aliyun_iot_arm.Prelude.{
  Bool, ◌&&◌, ◌<◌, ◌≡◌, refl, ◌≢◌, true, false, Option, none, some, List, [], ◌++◌, arith,
  if◌then◌else◌, length, get_elem?, All, pos, Bytes, codes, atoi,
}
use aliyun_iot_arm.Json.Copy.{succeeded, stored, or_keep}
use aliyun_iot_arm.Json.Get.{get_object, get_raw_value}
use aliyun_iot_arm.Utils.Shell.{bare, read_word}
use aliyun_iot_arm.App.Config.{SubDeviceConfig, DeviceConfig, load, read_config}
use aliyun_iot_arm.App.Config.Laws.{AreSubDevices, load-AreSubDevices}
use aliyun_iot_arm.App.Gateway.{
  GatewaySubDeviceState, GatewayManager, gateway_init, with_topo, update_topo_state,
}
use aliyun_iot_arm.App.Gateway.Requests.{login}
use aliyun_iot_arm.App.Gateway.Handle.{
  handle_topo_get_reply, handle_topo_change, is_success, number_at,
}
use aliyun_iot_arm.App.Gateway.Services as Table
use aliyun_iot_arm.App.Gateway.Table.{Status, status_of}
use aliyun_iot_arm.App.Gateway.Refine.{statuses, overwritten, is_listed}
use aliyun_iot_arm.App.Gateway.Replies.{
  listed_by, is_added, is_removed, changed_to, handle_topo_get_reply-statuses,
  handle_topo_change-statuses,
}
use aliyun_iot_arm.App.Gateway.Devices.{IsOf}
use aliyun_iot_arm.App.Gateway.Receive.{gateway_init-receive_all-IsOf}
use aliyun_iot_arm.App.Gateway.Start.{Call, start, start_calls}
use aliyun_iot_arm.App.Gateway.Asked.{Includes, handle_topo_get_reply-Includes}
use aliyun_iot_arm.App.Deploy.{DeployTask, DeployStatus, is_safe, sanitize_name}
use aliyun_iot_arm.App.Deploy.Names.{sanitize_name-safe}
use aliyun_iot_arm.App.Deploy.Worker.{
  Action, post_status, unlink, run_command, Answer, worker, download_zip, extract_zip, deploy_step,
  download_text, zip_path_of, first_trace,
}
use aliyun_iot_arm.App.Deploy.Order.{is_quiet}
use aliyun_iot_arm.App.Deploy.Outcome.{all_done, worker_report}
use aliyun_iot_arm.App.Deploy.Quoted.{download_zip-quoted}
use aliyun_iot_arm.App.Deploy.Turns.{Supply, deploy_init, end_worker, run-IsValid, end_worker-run}
use aliyun_iot_arm.App.Shadow as Shadow
use aliyun_iot_arm.App.Shadow.{DeviceShadowManager, shadow_init}
use aliyun_iot_arm.App.Shadow.Version as Version
use aliyun_iot_arm.App.Publish.{Identity}
use aliyun_iot_arm.App.Services.{AppContext, Moment}
use aliyun_iot_arm.App.Lifecycle.{
  Part, ide_manager, deploy_manager, init, shutdown, track, needs_closing, init-shutdown,
}
use aliyun_iot_arm.App.Dispatch.{service_prefix, dispatch_service}
use aliyun_iot_arm.App.Dispatch.Answered.{IsAnswered}
use aliyun_iot_arm.App.Dispatch.Once.{dispatch_service-IsAnswered}
use aliyun_iot_arm.App.Dispatch.Guarded.{
  acts_in, IsHolder, dispatch_service-IsHolder, handle_message-apart,
}
use aliyun_iot_arm.App.Tests.Data.{
  sub_config, config, device, gateway, supply, deployment, shadow, shadow_message,
}

abbrev config_text : Bytes
config_text =
    codes
      "{\"productKey\":\"a\",\"deviceName\":\"b\",\"deviceSecret\":\"c\",\"subDevice\":[{\"productKey\":\"p\",\"deviceName\":\"d\"}]}"

config_text-load : load (some config_text) ≡ some (read_config config_text)
unfolding load
config_text-load = refl

load-AreSubDevices_example : AreSubDevices (read_config config_text).sub_devices
load-AreSubDevices_example =
    load-AreSubDevices config_text (read_config config_text) config_text-load

abbrev identity : Identity
identity = record {
  product_key = codes "gk";
  device_name = codes "gw";
  runtime_library_mode = false;
}

abbrev moment : Moment
moment = record {
  now_ms = 9;
  had = true;
  supply = supply;
  around = record {
    has_log = true;
    had = true;
    launch = λ command directory. record {
      is_zero = true;
      in_background = true;
      exit_code = pos 0;
      child_pid = pos 4;
      output = [];
    };
  };
}

abbrev held_app : AppContext
held_app = record {
  ide_manager = record {
    connected = true;
    current_client_id = codes "ide1";
    current_client_info = [];
    last_heartbeat_ms = 3;
  };
  deploy_manager = deploy_init;
  start_busy = false;
  shadow_manager = shadow;
}

abbrev deploy_request : Bytes
deploy_request =
    codes "{\"id\":\"1\",\"params\":{\"clientId\":\"ide1\",\"downloadUrl\":\"http://h/a.zip\"}}"

deploy_request-acts :
    acts_in
      (dispatch_service identity moment
        (codes "/sys/gk/gw/thing/service/deployProject")
        deploy_request
        held_app).effects
    ≡ true
unfolding dispatch_service acts_in
deploy_request-acts = refl

dispatch_service-IsHolder_example : IsHolder held_app deploy_request
dispatch_service-IsHolder_example =
    dispatch_service-IsHolder identity moment (codes "/sys/gk/gw/thing/service/deployProject")
      deploy_request held_app deploy_request-acts

dispatch_service-IsAnswered_example :
    IsAnswered
      (codes "deployProject")
      (or_keep (codes "0") (get_raw_value deploy_request (codes "id") 64))
      (dispatch_service identity moment
        (service_prefix identity ++ codes "deployProject")
        deploy_request
        held_app).effects
dispatch_service-IsAnswered_example =
    dispatch_service-IsAnswered identity moment (codes "deployProject") deploy_request held_app

shadow_message-taken :
    Shadow.handle_message (codes "/shadow/get/gk/gw") shadow_message shadow ≢ none
unfolding Shadow.handle_message
shadow_message-taken e = absurd (cc)

handle_message-apart_example :
    Table.handle_message (codes "/shadow/get/gk/gw") shadow_message gateway ≡ none
handle_message-apart_example =
    handle_message-apart (codes "/shadow/get/gk/gw") shadow_message shadow gateway
      shadow_message-taken

-- The deployment's manager fails.
abbrev no_deploy : Part → Bool
no_deploy deploy_manager = false
no_deploy part = true

init-shutdown_example :
    let run = init no_deploy true true in
    (track ide_manager false run.1 ≡ some (run.0 && needs_closing ide_manager))
    × (track ide_manager false (run.1 ++ (if run.0 then shutdown else [])) ≡ some false)
init-shutdown_example = init-shutdown ide_manager no_deploy true true
