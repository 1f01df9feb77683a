-- ===== src/Ide/Manager/Handle.antt =====
-- src/ide_connection_manager.c: the handlers of the three requests.
use aliyun_iot_arm.Prelude.{ℕ, Bool, Option, none, some, List, [], Bytes}
use aliyun_iot_arm.Json.Copy.{Copied, rejected}
use aliyun_iot_arm.Ide.Manager.{
  Manager, Report, Reply, request_connect, disconnect, heartbeat, client_id_of, client_info_of,
}
use aliyun_iot_arm.Ide.Manager.Params.{build_result_json}

-- What a handler leaves: the lock, what it reports, and what it writes to `response_json`. The
-- memory for the answer is had or not.
pub record Handled : Type 0 where
  pub manager : Manager
  pub reports : List Report
  pub response : Copied

abbrev pub answered : (had : Bool) (response_size : ℕ) → Reply → Handled
answered had response_size reply = record {
  manager = reply.manager;
  reports = reply.reports;
  response = build_result_json had reply.success reply.message response_size;
}

abbrev pub not_handled : Manager → Handled
not_handled m = record { manager = m; reports = []; response = rejected }

-- `ide_connection_manager_handle_request_connect`; `params_json` may be null.
unfoldable pub handle_request_connect :
    (had : Bool) (now_ms : ℕ) (params_json : Option Bytes) (response_size : ℕ) → Manager → Handled
unfolding request_connect client_id_of client_info_of build_result_json
handle_request_connect had now_ms none response_size m = not_handled m
handle_request_connect had now_ms (some params_json) response_size m =
    answered had response_size
      (request_connect (client_id_of params_json) (client_info_of params_json) now_ms m)

-- `ide_connection_manager_handle_disconnect`
unfoldable pub handle_disconnect :
    (had : Bool) (params_json : Option Bytes) (response_size : ℕ) → Manager → Handled
unfolding disconnect client_id_of build_result_json
handle_disconnect had none response_size m = not_handled m
handle_disconnect had (some params_json) response_size m =
    answered had response_size (disconnect (client_id_of params_json) m)

-- `ide_connection_manager_handle_heartbeat`
unfoldable pub handle_heartbeat :
    (had : Bool) (now_ms : ℕ) (params_json : Option Bytes) (response_size : ℕ) → Manager → Handled
unfolding heartbeat client_id_of build_result_json
handle_heartbeat had now_ms none response_size m = not_handled m
handle_heartbeat had now_ms (some params_json) response_size m =
    answered had response_size (heartbeat (client_id_of params_json) now_ms m)
