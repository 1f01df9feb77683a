-- ===== src/App/StartProject.antt =====
-- src/start_manager.c: one request to start a program.
use aliyun_iot_arm.Prelude.{
  ℕ, ◌≡◌, Bool, false, not, ◌&&◌, Option, none, some, [], ◌∷◌, arith, if◌then◌else◌, ℤ, Bytes,
  codes, snprintf, decimal, concat, decimal_int,
}
use aliyun_iot_arm.Json.Copy.{Copied, or_keep}
use aliyun_iot_arm.Json.Get.{get_string}
use aliyun_iot_arm.Ide.Manager.Params.{build_result_json}
use aliyun_iot_arm.App.Config.{at_end}

-- What `start_background_command` answers, and the text of the log behind it.
pub record Launch : Type 0 where
  pub is_zero : Bool
  pub in_background : Bool
  pub exit_code : ℤ
  pub child_pid : ℤ
  pub output : Bytes

-- What a call may or may not get: memory for the log and for the answer, and the process it starts.
pub record Surroundings : Type 0 where
  pub has_log : Bool
  pub had : Bool
  pub launch : (command directory : Bytes) → Launch

-- The parameters of a request.
pub record StartTask : Type 0 where
  pub target_path : Bytes
  pub start_command : Bytes

unfoldable pub start_task_of : (params_json : Bytes) → StartTask
unfolding get_string
start_task_of params_json =
    let project_name =
      or_keep (codes "project") (get_string params_json (codes "projectName") 128) in
    let deploy_path =
      or_keep (codes "/tmp/deploy") (get_string params_json (codes "deployPath") 512) in
    record {
      target_path = snprintf 768 (concat (deploy_path ∷ codes "/" ∷ project_name ∷ []));
      start_command = or_keep [] (get_string params_json (codes "startCommand") 1024);
    }

-- The message behind the start.
abbrev pub launch_message : StartTask → Launch → Bytes
launch_message task launched =
    let log = concat (
      codes "targetPath="
      ∷ task.target_path
      ∷ codes "\n"
      ∷ codes "command="
      ∷ task.start_command
      ∷ codes "\n"
      ∷ launched.output
      ∷ []) in
    snprintf 512 (
      if launched.is_zero
      then (if launched.in_background
          then concat
              (codes "service started in background, pid=" ∷ decimal_int launched.child_pid ∷ [])
          else codes "start command finished successfully")
      else concat (
          codes "start failed, exitCode="
          ∷ decimal_int launched.exit_code
          ∷ codes ", log="
          ∷ log
          ∷ []))

-- What a call leaves: the program it started, if any, `busy`, and its answer.
pub record Started : Type 0 where
  pub busy : Bool
  pub launched : Option StartTask
  pub response : Copied

-- `start_manager_handle_start`; `busy` says whether another call is under way.
unfoldable pub handle_start :
    Surroundings → (params_json : Bytes) (response_size : ℕ) → (busy : Bool) → Started
unfolding start_task_of build_result_json decimal
handle_start around params_json response_size busy =
    let task = start_task_of params_json in
    let launched = around.launch task.start_command task.target_path in
    let refuse : Bytes → Started = λ message. record {
      busy = busy;
      launched = none;
      response = build_result_json around.had false message response_size;
    } in
    if at_end task.start_command
    then refuse (codes "startCommand is empty")
    else (if busy
        then refuse (codes "another start task is still running")
        else (if not around.has_log
            then refuse (codes "failed to allocate log buffer")
            else record {
              busy = false;
              launched = some task;
              response =
                  build_result_json around.had launched.is_zero (launch_message task launched)
                    response_size;
            }))

-- A request starts a program exactly when its command is not empty, no other start is under way and the log
-- has its memory; then the program is the command in the project's directory. The manager is as busy behind
-- the call as it was before.
pub handle_start_lem :
    (around : Surroundings) (params_json : Bytes) (response_size : ℕ) (busy : Bool)
    → let started = handle_start around params_json response_size busy in
      let task = start_task_of params_json in
      (started.launched ≡ (
        if not (at_end task.start_command) && (not busy && around.has_log)
        then some task
        else none))
      × (started.busy ≡ busy)
unfolding handle_start
handle_start_lem around params_json response_size busy = (ground arith, ground arith)
