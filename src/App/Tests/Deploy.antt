-- ===== src/App/Tests/Deploy.antt =====
-- Runs of a deployment.
use aliyun_iot_arm.Prelude.{
  ◌+◌, ◌*◌, ◌↔◌, ◌<◌, ◌≡◌, refl, ◌≢◌, ◌⊎◌, true, false, none, some, List, [], ◌∷◌, ◌++◌, arith,
  length, All, pos, Bytes, codes, decimal,
}
use aliyun_iot_arm.Utils.Shell.{bare}
use aliyun_iot_arm.Utils.Words.{read_command}
use aliyun_iot_arm.App.Deploy.{DeployTask, DeployStatus, sanitize_name}
use aliyun_iot_arm.App.Deploy.Names.{IsNameChar, sanitize_name-safe}
use aliyun_iot_arm.App.Deploy.Worker.{
  Action, post_status, unlink, run_command, Answer, worker, download_zip, extract_zip, deploy_step,
  zip_path_of, first_trace,
}
use aliyun_iot_arm.App.Deploy.Order.{is_quiet}
use aliyun_iot_arm.App.Deploy.Outcome.{all_done, Deploys, IsDeployed, deploy_actions, worker_report}
use aliyun_iot_arm.App.Deploy.Quoted.{download_tokens, download_zip-quoted}
use aliyun_iot_arm.App.Deploy.Turns
use aliyun_iot_arm.App.Deploy.Turns.{Supply, deploy_init, end_worker, run-IsValid, end_worker-run}
use aliyun_iot_arm.App.Tests.Data.{supply, deployment}

abbrev task : DeployTask
task = record {
  project_name = codes "../x";
  download_url = codes "http://h/a.zip?b='c'";
  deploy_path = codes "/srv";
  deploy_command = codes "make";
}

abbrev all_well : Action → Answer
all_well action = record { is_zero = true; exit_code = pos 0; output = [] }

worker_report_example :
    ((worker all_well false 5 task).actions ≡ [])
    × (before : List Action) × (last : DeployStatus) × ((worker all_well true 5 task).actions
        ≡ before ++ (post_status last ∷ unlink (zip_path_of 5 task) ∷ []))
    × (is_quiet before ≡ true)
    × ((last.success ≡ true) ↔ IsDeployed all_well 5 task)
    × ((last.success ≡ false)
        ⊎ ((quoted_url : Bytes) × (quoted_zip : Bytes) × (quoted_target : Bytes) × Deploys all_well
              5 task quoted_url quoted_zip quoted_target
            × (before ≡ deploy_actions all_well 5 task quoted_url quoted_zip quoted_target)))
worker_report_example = worker_report all_well 5 task

task-done : all_done all_well 5 task ≡ true
unfolding all_done download_zip sanitize_name decimal extract_zip deploy_step
task-done = refl

download_zip-quoted_example :
    (((2048 < 5 * length task.download_url + 4) ⊎ (8192 < 5 * length (codes "/tmp/a.zip") + 4))
      × (download_zip all_well task (codes "/tmp/a.zip") (first_trace task)
          ≡ (false, first_trace task)))
    ⊎ ((command : Bytes) × ((download_zip all_well task
            (codes "/tmp/a.zip")
            (first_trace task)).1.actions
          ≡ [] ++ (run_command command none 300 ∷ []))
        × (read_command bare none [] command
            ≡ some (download_tokens task.download_url (codes "/tmp/a.zip"))))
download_zip-quoted_example =
    download_zip-quoted all_well task (codes "/tmp/a.zip") (first_trace task)

sanitize_name-safe_example :
    (length (sanitize_name (codes "../x") 128) < 128)
    × (sanitize_name (codes "../x") 128 ≢ [])
    × All IsNameChar (sanitize_name (codes "../x") 128)
sanitize_name-safe_example = sanitize_name-safe (codes "../x") 128 (omega arith)

run-IsValid_example :
    Turns.IsValid
      (Turns.run (Turns.deploy supply deployment 1024 ∷ Turns.worker_ends true ∷ []) deploy_init)
run-IsValid_example =
    run-IsValid (Turns.deploy supply deployment 1024 ∷ Turns.worker_ends true ∷ [])

abbrev working : Turns.DeployManager
working = record { busy = true; workers = 1 }

end_worker-run_example :
    Turns.run (Turns.deploy supply deployment 1024 ∷ []) (end_worker false working)
    ≡ record { busy = true; workers = 0 }
end_worker-run_example = end_worker-run working (Turns.deploy supply deployment 1024 ∷ []) refl refl
