-- ===== src/App/Deploy/Worker.antt =====
-- src/deploy_manager.c: the stages of the worker.
use aliyun_iot_arm.Prelude.{
  ℕ, ◌*◌, Bool, true, false, not, ◌&&◌, Option, none, some, List, [], ◌∷◌, ◌++◌, if◌then◌else◌, ℤ,
  pos, eq_ℤ, Bytes, codes, snprintf, decimal, concat, decimal_int,
}
use aliyun_iot_arm.Utils.Shell.{shell_quote}
use aliyun_iot_arm.App.Config.{at_end}
use aliyun_iot_arm.App.Deploy.{DeployTask, DeployStatus, name_size, path_max, sanitize_name}

-- The calls by which the worker acts on its surroundings. A command runs in a directory, if one is given.
pub data Action : Type 0 where
  ensure_directory : (path : Bytes) → Action
  remove_tree : (path : Bytes) → Action
  is_there : (path : Bytes) → Action
  run_command : (command : Bytes) (directory : Option Bytes) (timeout_sec : ℕ) → Action
  post_status : DeployStatus → Action
  unlink : (path : Bytes) → Action

-- What an action gives: 0 or not, the status a command exits with, and what it writes to the log.
pub record Answer : Type 0 where
  pub is_zero : Bool
  pub exit_code : ℤ
  pub output : Bytes

-- The log and the actions so far, the latest last. The log has the memory it asks for as it grows.
pub record Trace : Type 0 where
  pub log : Bytes
  pub actions : List Action

abbrev pub append_log : Bytes → Trace → Trace
append_log text trace = record trace { log = trace.log ++ text }

abbrev pub act : Action → Trace → Trace
act action trace = record trace { actions = trace.actions ++ (action ∷ []) }

abbrev pub download_text : (quoted_url quoted_zip : Bytes) → Bytes
download_text quoted_url quoted_zip = concat (
    codes "if command -v curl >/dev/null 2>&1; then curl -L --fail -o "
    ∷ quoted_zip
    ∷ codes " "
    ∷ quoted_url
    ∷ codes "; elif command -v wget >/dev/null 2>&1; then wget -O "
    ∷ quoted_zip
    ∷ codes " "
    ∷ quoted_url
    ∷ codes "; else echo 'curl or wget is required for deployProject' >&2; exit 127; fi"
    ∷ [])

abbrev pub download_action : (quoted_url quoted_zip : Bytes) → Action
download_action quoted_url quoted_zip =
    run_command (snprintf 65536 (download_text quoted_url quoted_zip)) none 300

abbrev pub extract_action : (quoted_zip quoted_target : Bytes) → Action
extract_action quoted_zip quoted_target =
    run_command
      (snprintf 65536 (
        concat (
          codes "if command -v unzip >/dev/null 2>&1; then unzip -oq "
          ∷ quoted_zip
          ∷ codes " -d "
          ∷ quoted_target
          ∷ codes "; elif command -v busybox >/dev/null 2>&1; then busybox unzip -o "
          ∷ quoted_zip
          ∷ codes " -d "
          ∷ quoted_target
          ∷ codes
              "; else echo 'unzip or busybox unzip is required for deployProject' >&2; exit 127; fi"
          ∷ [])))
      none 600

-- `deploy_report_status` with what the log holds.
abbrev pub report :
    (success : Bool) (message : Bytes) → DeployTask → (target_path : Bytes) → Trace → Trace
report success message task target_path trace =
    act
      (post_status (record {
        success = success;
        message = message;
        deploy_log = trace.log;
        project_name = task.project_name;
        deploy_path = target_path;
      }))
      trace

-- A stage that fails: its line in the log, and the report.
abbrev pub failed : (message : Bytes) → DeployTask → (target_path : Bytes) → Trace → Trace
failed message task target_path trace =
    report false message task target_path (append_log (message ++ codes "\n") trace)

abbrev pub zip_path_of : (now_ms : ℕ) → DeployTask → Bytes
zip_path_of now_ms task = snprintf path_max (
    concat (
      codes "/tmp/"
      ∷ sanitize_name task.project_name name_size
      ∷ codes "-"
      ∷ decimal now_ms
      ∷ codes ".zip"
      ∷ []))

abbrev pub target_path_of : DeployTask → Bytes
target_path_of task =
    snprintf path_max (concat (task.deploy_path ∷ codes "/" ∷ task.project_name ∷ []))

-- What the log says before the first stage.
abbrev pub first_trace : DeployTask → Trace
first_trace task = record {
  log = concat (
      codes "projectName="
      ∷ task.project_name
      ∷ codes "\n"
      ∷ codes "deployPath="
      ∷ task.deploy_path
      ∷ codes "\n"
      ∷ codes "targetPath="
      ∷ target_path_of task
      ∷ codes "\n"
      ∷ []);
  actions = [];
}

module _ (outside : Action → Answer) where
  -- `run_command_capture` with its output in the log.
  unfoldable pub run_command_capture : Action → Trace → Trace
  run_command_capture action trace = append_log (outside action).output (act action trace)

  -- The command ran and its status is 0.
  abbrev pub is_done : Action → Bool
  is_done action = (outside action).is_zero && eq_ℤ (outside action).exit_code (pos 0)

  -- `deploy_download_zip`: whether it answers 0.
  unfoldable pub download_zip : DeployTask → (zip_path : Bytes) → Trace → Bool × Trace
  unfolding shell_quote run_command_capture
  download_zip task zip_path trace = elim (shell_quote task.download_url 2048) [
    | none ↦ (false, trace)
    | some quoted_url ↦ elim (shell_quote zip_path (path_max * 2)) [
      | none ↦ (false, trace)
      | some quoted_zip ↦
          let action = download_action quoted_url quoted_zip in
          (
            is_done action,
            run_command_capture action (
                append_log
                  (concat (
                    codes "=== download ===\n"
                    ∷ codes "url="
                    ∷ task.download_url
                    ∷ codes "\n"
                    ∷ []))
                  trace),
          )
    ]
  ]

  -- The first test of `deploy_extract_zip`: `access` is called only when the tree is not removed.
  abbrev pub cleared : (target_path : Bytes) → Trace → Bool × Trace
  cleared target_path trace =
      if (outside (remove_tree target_path)).is_zero
      then (true, act (remove_tree target_path) trace)
      else (
        not (outside (is_there target_path)).is_zero,
        act (is_there target_path) (act (remove_tree target_path) trace),
      )

  unfoldable pub unpack : (zip_path target_path : Bytes) → Trace → Bool × Trace
  unfolding shell_quote run_command_capture
  unpack zip_path target_path trace = elim (shell_quote zip_path (path_max * 2)) [
    | none ↦ (false, trace)
    | some quoted_zip ↦ elim (shell_quote target_path (path_max * 2)) [
      | none ↦ (false, trace)
      | some quoted_target ↦
          let action = extract_action quoted_zip quoted_target in
          (
            is_done action,
            run_command_capture action (append_log (codes "=== extract ===\n") trace),
          )
    ]
  ]

  -- `deploy_extract_zip`
  unfoldable pub extract_zip : (zip_path target_path : Bytes) → Trace → Bool × Trace
  unfolding unpack
  extract_zip zip_path target_path trace =
      let (free, cleared_trace) = cleared target_path trace in
      let made = act (ensure_directory target_path) cleared_trace in
      if not free
      then (false, cleared_trace)
      else (if not (outside (ensure_directory target_path)).is_zero
          then (false, made)
          else unpack zip_path target_path made)

  -- The deploy command, if there is one.
  unfoldable pub deploy_step : DeployTask → (target_path : Bytes) → Trace → Bool × Trace
  unfolding run_command_capture
  deploy_step task target_path trace =
      let action = run_command task.deploy_command (some target_path) 600 in
      let ran = run_command_capture action (
        append_log
          (concat
            (codes "=== deploy command ===\n" ∷ codes "$ " ∷ task.deploy_command ∷ codes "\n" ∷ []))
          trace) in
      let unfinished =
        append_log
          (concat (
            codes "deploy command failed, exitCode="
            ∷ decimal_int (outside action).exit_code
            ∷ codes "\n"
            ∷ []))
          ran in
      if at_end task.deploy_command
      then (true, trace)
      else (if is_done action then (true, ran) else (false, unfinished))

  -- The stages of `deploy_worker`, each behind the success of the one before.
  unfoldable pub stages : (now_ms : ℕ) → DeployTask → Trace
  unfolding download_zip extract_zip deploy_step sanitize_name decimal
  stages now_ms task =
      let zip_path = zip_path_of now_ms task in
      let target_path = target_path_of task in
      let root = ensure_directory task.deploy_path in
      let rooted = act root (first_trace task) in
      let (downloaded, with_zip) = download_zip task zip_path rooted in
      let (extracted, with_tree) = extract_zip zip_path target_path with_zip in
      let (deployed, with_result) = deploy_step task target_path with_tree in
      if not (outside root).is_zero
      then failed (codes "failed to create deploy root directory") task target_path rooted
      else (if not downloaded
          then failed (codes "download step failed") task target_path with_zip
          else (if not extracted
              then failed (codes "extract step failed") task target_path with_tree
              else (if not deployed
                  then report false (codes "deploy command failed") task target_path with_result
                  else report true (codes "deploy success") task target_path
                      (append_log (codes "deploy finished successfully\n") with_result))))

  -- `deploy_worker` up to the end of its use of the surroundings. Without memory for its log it returns
  -- at once.
  unfoldable pub worker : (has_log : Bool) (now_ms : ℕ) → DeployTask → Trace
  unfolding stages
  worker has_log now_ms task =
      if not has_log
      then record { log = []; actions = [] }
      else act (unlink (zip_path_of now_ms task)) (stages now_ms task)
