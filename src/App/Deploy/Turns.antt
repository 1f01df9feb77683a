-- ===== src/App/Deploy/Turns.antt =====
-- src/deploy_manager.c: which deployments are taken, and the turns of the worker's thread.
use aliyun_iot_arm.Prelude.{
  ℕ, ◌+◌, ◌-◌, ◌≤◌, ◌≡◌, refl, sym, ap, ◌∙◌, subst, inl, inr, Bool, true, false, not, ◌&&◌, Option,
  none, some, List, [], ◌∷◌, arith, ◌==◌, if◌then◌else◌, Bool-cases, Bytes, codes,
}
use aliyun_iot_arm.Json.Copy.{Copied}
use aliyun_iot_arm.App.Config.{at_end}
use aliyun_iot_arm.App.Deploy.{DeployTask, DeployStatus, task_of, deploy_build_result_json}

-- `DeployManager`, with the number of workers that have not ended.
pub record DeployManager : Type 0 where
  pub busy : Bool
  pub workers : ℕ

-- `deploy_manager_init`
abbrev pub deploy_init : DeployManager
deploy_init = record { busy = false; workers = 0 }

-- What a call of `deploy_manager_handle_deploy` leaves: the task it starts, its report and its answer.
pub record Handled : Type 0 where
  pub manager : DeployManager
  pub started : Option DeployTask
  pub report : Option DeployStatus
  pub response : Copied

-- What the call may or may not get: memory for the task, a thread, memory for the answer.
pub record Supply : Type 0 where
  pub has_task : Bool
  pub has_thread : Bool
  pub had : ℕ → Bool

abbrev pub no_url : DeployTask → DeployStatus
no_url task = record {
  success = false;
  message = codes "downloadUrl is empty";
  deploy_log = [];
  project_name = task.project_name;
  deploy_path = task.deploy_path;
}

unfoldable pub handle_deploy :
    Supply → (params_json : Bytes) (response_size : ℕ) → DeployManager → Handled
unfolding task_of deploy_build_result_json
handle_deploy supply params_json response_size manager =
    let task = task_of params_json in
    let answer = λ (success : Bool) (message : Bytes).
      deploy_build_result_json supply.had success message [] response_size in
    let refuse : Bytes → Handled = λ message. record {
      manager = manager;
      started = none;
      report = none;
      response = answer false message;
    } in
    if not supply.has_task
    then refuse (codes "failed to allocate deploy task")
    else (if at_end task.download_url
        then record {
          manager = manager;
          started = none;
          report = some (no_url task);
          response = answer false (codes "downloadUrl is empty");
        }
        else (if manager.busy
            then refuse (codes "another deploy task is still running")
            else (if not supply.has_thread
                then record {
                  manager = record manager { busy = false };
                  started = none;
                  report = none;
                  response = answer false (codes "failed to create deploy worker");
                }
                else record {
                  manager = record { busy = true; workers = manager.workers + 1 };
                  started = some task;
                  report = none;
                  response = answer true (codes "deploy task received, executing asynchronously");
                })))

-- The end of a worker: without memory for its log it returns at once and leaves `busy` as it is.
unfoldable pub end_worker : (has_log : Bool) → DeployManager → DeployManager
end_worker has_log manager =
    if manager.workers == 0
    then manager
    else record { busy = if has_log then false else manager.busy; workers = manager.workers - 1 }

pub data Turn : Type 0 where
  deploy : Supply → (params_json : Bytes) (response_size : ℕ) → Turn
  worker_ends : (has_log : Bool) → Turn

unfoldable pub turn : Turn → DeployManager → DeployManager
unfolding handle_deploy end_worker
turn (deploy supply params_json response_size) manager =
    (handle_deploy supply params_json response_size manager).manager
turn (worker_ends has_log) manager = end_worker has_log manager

unfoldable pub run : List Turn → DeployManager → DeployManager
unfolding turn
run [] manager = manager
run (t ∷ turns) manager = run turns (turn t manager)

-- One worker at most, and none while the manager is not busy.
pub record IsValid (manager : DeployManager) : Type 0 where
  pub single : manager.workers ≤ 1
  pub idle : manager.busy ≡ false → manager.workers ≡ 0

if-manager :
    (test : Bool) (handled handled' : Handled)
    → (if test then handled else handled').manager
      ≡ (if test then handled.manager else handled'.manager)
if-manager true handled handled' = refl
if-manager false handled handled' = refl

-- A call takes a deployment when it gets its memory and its thread, names an address, and finds none running.
unfoldable pub takes : Supply → (params_json : Bytes) → DeployManager → Bool
unfolding task_of
takes supply params_json manager =
    supply.has_task
    && (not (at_end (task_of params_json).download_url) && (not manager.busy && supply.has_thread))

choice :
    (has_task no_address busy has_thread : Bool) (workers : ℕ)
    → let manager : DeployManager = record { busy = busy; workers = workers } in
      (if not has_task
        then manager
        else (if no_address
            then manager
            else (if busy
                then manager
                else (if not has_thread
                    then record { busy = false; workers = workers }
                    else record { busy = true; workers = workers + 1 }))))
      ≡ (if has_task && (not no_address && (not busy && has_thread))
          then record { busy = true; workers = workers + 1 }
          else manager)
choice false no_address busy has_thread workers = refl
choice true true busy has_thread workers = refl
choice true false true has_thread workers = refl
choice true false false false workers = refl
choice true false false true workers = refl

handle_deploy-manager :
    (supply : Supply) (params_json : Bytes) (response_size : ℕ) (manager : DeployManager)
    → (handle_deploy supply params_json response_size manager).manager ≡ (
        if takes supply params_json manager
        then record { busy = true; workers = manager.workers + 1 }
        else manager)
unfolding handle_deploy takes
handle_deploy-manager supply params_json response_size manager =
    let no_address = at_end (task_of params_json).download_url in
    let here = λ (m : DeployManager). if not supply.has_task then manager else m in
    let there = λ (m : DeployManager). if no_address then manager else m in
    let behind = λ (m : DeployManager). if manager.busy then manager else m in
    if-manager (not supply.has_task) _ _
    ∙ ap here (
        if-manager no_address _ _
        ∙ ap there
            (if-manager manager.busy _ _ ∙ ap behind (if-manager (not supply.has_thread) _ _)))
    ∙ choice supply.has_task no_address manager.busy supply.has_thread manager.workers

deploy-IsValid :
    (supply : Supply) (params_json : Bytes) (manager : DeployManager)
    → IsValid manager
    → IsValid (
        if takes supply params_json manager
        then record { busy = true; workers = manager.workers + 1 }
        else manager)
deploy-IsValid supply params_json manager valid =
    elim (Bool-cases (takes supply params_json manager)) [
      | inl e ↦
          let free : manager.busy ≡ false = unfold takes in ground arith in
          rw e (record { single = omega (arith, valid.idle free); idle = λ e. absurd (cc) })
      | inr e ↦ rw e valid
    ]

end_worker-IsValid :
    (has_log : Bool) (manager : DeployManager)
    → IsValid manager
    → IsValid (end_worker has_log manager)
unfolding end_worker
end_worker-IsValid has_log manager valid = elim (Bool-cases (manager.workers == 0)) [
  | inl e ↦ rw (e, end_worker) valid
  | inr e ↦
      let none_left : manager.workers - 1 ≡ 0 = omega (arith, valid.single) in
      rw (e, end_worker) (record { single = omega (arith, none_left); idle = λ e. none_left })
]

turn-IsValid : (t : Turn) (manager : DeployManager) → IsValid manager → IsValid (turn t manager)
unfolding turn
turn-IsValid (deploy supply params_json response_size) manager valid =
    subst IsValid (sym (handle_deploy-manager supply params_json response_size manager))
      (deploy-IsValid supply params_json manager valid)
turn-IsValid (worker_ends has_log) manager valid = end_worker-IsValid has_log manager valid

run-IsValid_from :
    (turns : List Turn) (manager : DeployManager) → IsValid manager → IsValid (run turns manager)
unfolding run
run-IsValid_from [] manager valid = valid
run-IsValid_from (t ∷ turns) manager valid =
    run-IsValid_from turns (turn t manager) (turn-IsValid t manager valid)

-- Whatever deployments arrive and whenever workers end, at most one worker runs at a time, and none runs
-- while the manager is not busy.
pub run-IsValid : (turns : List Turn) → IsValid (run turns deploy_init)
run-IsValid turns =
    run-IsValid_from turns deploy_init (record { single = omega arith; idle = λ e. refl })

-- The manager of a worker that ended without its log: busy, with no worker.
abbrev pub IsStuck : DeployManager → Type 0
IsStuck manager = (manager.busy ≡ true) × (manager.workers ≡ 0)

turn-IsStuck : (t : Turn) (manager : DeployManager) → IsStuck manager → turn t manager ≡ manager
unfolding turn
turn-IsStuck (deploy supply params_json response_size) manager stuck =
    let refused : takes supply params_json manager ≡ false = unfold takes in ground arith in
    handle_deploy-manager supply params_json response_size manager ∙ ground (arith, refused)
turn-IsStuck (worker_ends has_log) manager stuck = unfold end_worker in ground arith

run-IsStuck :
    (turns : List Turn)
    → run turns (record { busy = true; workers = 0 }) ≡ record { busy = true; workers = 0 }
unfolding run
run-IsStuck [] = refl
run-IsStuck (t ∷ turns) =
    ap (run turns) (turn-IsStuck t (record { busy = true; workers = 0 }) (refl, refl))
    ∙ run-IsStuck turns

-- When a worker ends without memory for its log while the manager is busy, nothing that follows changes
-- the manager: whatever deployments arrive and whatever workers end, it stays busy without a worker.
pub end_worker-run :
    (manager : DeployManager) (turns : List Turn)
    → manager.busy ≡ true
    → manager.workers ≡ 1
    → run turns (end_worker false manager) ≡ record { busy = true; workers = 0 }
unfolding end_worker
end_worker-run manager turns busy one =
    let lost : end_worker false manager ≡ record { busy = true; workers = 0 } = ground arith in
    ap (run turns) lost ∙ run-IsStuck turns
