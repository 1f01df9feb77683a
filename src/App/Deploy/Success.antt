-- ===== src/App/Deploy/Success.antt =====
-- src/deploy_manager.c: when each stage of the worker succeeds, and what it has done then.
use aliyun_iot_arm.Prelude.{
  ◌≡◌, refl, sym, ap, ◌∙◌, ◌⊎◌, inl, inr, true, false, some, List, [], ◌∷◌, ◌++◌, append-nil,
  append_assoc, arith, if◌then◌else◌, Bool-cases, Option-cases, pos, eq_ℤ→eq, Bytes,
}
use aliyun_iot_arm.Utils.Shell.{shell_quote}
use aliyun_iot_arm.App.Config.{at_end}
use aliyun_iot_arm.App.Deploy.{DeployTask}
use aliyun_iot_arm.App.Deploy.Worker.{
  Action, ensure_directory, remove_tree, is_there, run_command, Answer, Trace, act, is_done,
  download_action, extract_action, run_command_capture, download_zip, cleared, unpack, extract_zip,
  deploy_step,
}
pub mod Extract

-- What stands for a deploy command: nothing for an empty one.
abbrev pub command_actions : (command target_path : Bytes) → List Action
command_actions [] target_path = []
command_actions (c ∷ command) target_path = run_command (c ∷ command) (some target_path) 600 ∷ []

at_end-empty : (text : Bytes) → at_end text ≡ true → text ≡ []
at_end-empty [] e = refl
at_end-empty (c ∷ text) e = absurd (cc)

command_actions-given :
    (command target_path : Bytes)
    → at_end command ≡ false
    → command_actions command target_path ≡ run_command command (some target_path) 600 ∷ []
command_actions-given [] target_path e = absurd (cc)
command_actions-given (c ∷ command) target_path e = refl

module _ (outside : Action → Answer) where
  -- The command runs, and exits with 0.
  abbrev pub Finishes : Action → Type 0
  Finishes action = ((outside action).is_zero ≡ true) × ((outside action).exit_code ≡ pos 0)

  -- The address and the path can be quoted, and the command of the download finishes.
  abbrev pub Downloads : DeployTask → (zip_path quoted_url quoted_zip : Bytes) → Type 0
  Downloads task zip_path quoted_url quoted_zip =
      (shell_quote task.download_url 2048 ≡ some quoted_url)
      × (shell_quote zip_path 8192 ≡ some quoted_zip)
      × Finishes (download_action quoted_url quoted_zip)

  -- The old target is removed or not there, the new one is made, and the command that unpacks finishes.
  abbrev pub Extracts : (zip_path target_path quoted_zip quoted_target : Bytes) → Type 0
  Extracts zip_path target_path quoted_zip quoted_target =
      (shell_quote zip_path 8192 ≡ some quoted_zip)
      × (shell_quote target_path 8192 ≡ some quoted_target)
      × (((outside (remove_tree target_path)).is_zero ≡ true)
          ⊎ ((outside (is_there target_path)).is_zero ≡ false))
      × ((outside (ensure_directory target_path)).is_zero ≡ true)
      × Finishes (extract_action quoted_zip quoted_target)

  -- There is no deploy command, or it finishes in the target.
  abbrev pub Commands : DeployTask → (target_path : Bytes) → Type 0
  Commands task target_path =
      (task.deploy_command ≡ []) ⊎ Finishes (run_command task.deploy_command (some target_path) 600)

  abbrev pub clear_actions : (target_path : Bytes) → List Action
  clear_actions target_path =
      if (outside (remove_tree target_path)).is_zero
      then remove_tree target_path ∷ []
      else remove_tree target_path ∷ is_there target_path ∷ []

  is_done-Finishes : (action : Action) → is_done outside action ≡ true → Finishes action
  is_done-Finishes action done =
      (ground arith, eq_ℤ→eq (outside action).exit_code (pos 0) (ground arith))

  is_done-of : (action : Action) → Finishes action → is_done outside action ≡ true
  is_done-of action (ran, status) = rw (ran, status) refl

  download_zip-at :
      (task : DeployTask) (zip_path : Bytes) (trace : Trace) (quoted_url quoted_zip : Bytes)
      → shell_quote task.download_url 2048 ≡ some quoted_url
      → shell_quote zip_path 8192 ≡ some quoted_zip
      → ((download_zip outside task zip_path trace).0
          ≡ is_done outside (download_action quoted_url quoted_zip))
        × ((download_zip outside task zip_path trace).1.actions
            ≡ trace.actions ++ (download_action quoted_url quoted_zip ∷ []))
  unfolding download_zip run_command_capture
  download_zip-at task zip_path trace quoted_url quoted_zip e e' =
      (rw (e, e', download_zip) refl, rw (e, e', download_zip) refl)

  pub download_zip-success :
      (task : DeployTask) (zip_path : Bytes) (trace : Trace)
      → (download_zip outside task zip_path trace).0 ≡ true
      → (quoted_url : Bytes) × (quoted_zip : Bytes) × Downloads task zip_path quoted_url quoted_zip
        × ((download_zip outside task zip_path trace).1.actions
            ≡ trace.actions ++ (download_action quoted_url quoted_zip ∷ []))
  unfolding download_zip
  download_zip-success task zip_path trace done =
      elim (Option-cases (shell_quote task.download_url 2048)) [
        | inl e ↦ absurd (ground (arith, e))
        | inr (quoted_url, e) ↦ elim (Option-cases (shell_quote zip_path 8192)) [
          | inl e' ↦ absurd (ground (arith, e, e'))
          | inr (quoted_zip, e') ↦
              let (is, actions) = download_zip-at task zip_path trace quoted_url quoted_zip e e' in
              (
                quoted_url,
                quoted_zip,
                (e, e', is_done-Finishes (download_action quoted_url quoted_zip) (sym is ∙ done)),
                actions,
              )
        ]
      ]

  pub download_zip-of :
      (task : DeployTask) (zip_path : Bytes) (trace : Trace) (quoted_url quoted_zip : Bytes)
      → Downloads task zip_path quoted_url quoted_zip
      → (download_zip outside task zip_path trace).0 ≡ true
  download_zip-of task zip_path trace quoted_url quoted_zip (e, e', finishes) =
      (download_zip-at task zip_path trace quoted_url quoted_zip e e').0
      ∙ is_done-of (download_action quoted_url quoted_zip) finishes

  pub deploy_step-success :
      (task : DeployTask) (target_path : Bytes) (trace : Trace)
      → (deploy_step outside task target_path trace).0 ≡ true
      → Commands task target_path
        × ((deploy_step outside task target_path trace).1.actions
            ≡ trace.actions ++ command_actions task.deploy_command target_path)
  unfolding deploy_step run_command_capture
  deploy_step-success task target_path trace done = elim (Bool-cases (at_end task.deploy_command)) [
    | inl none_given ↦
        let is = at_end-empty task.deploy_command none_given in
        (
          inl is,
          rw none_given (
              sym (append-nil trace.actions)
              ∙ ap (λ c. trace.actions ++ command_actions c target_path) (sym is)),
        )
    | inr given ↦
        let action = run_command task.deploy_command (some target_path) 600 in
        elim (Bool-cases (is_done outside action)) [
          | inl fine ↦ (
            inr (is_done-Finishes action fine),
            rw (given, fine)
                (ap (λ l. trace.actions ++ l)
                  (sym (command_actions-given task.deploy_command target_path given))),
          )
          | inr fails ↦ absurd (ground arith)
        ]
  ]

  pub deploy_step-of :
      (task : DeployTask) (target_path : Bytes) (trace : Trace)
      → Commands task target_path
      → (deploy_step outside task target_path trace).0 ≡ true
  unfolding deploy_step
  deploy_step-of task target_path trace commands =
      let action = run_command task.deploy_command (some target_path) 600 in
      elim (Bool-cases (at_end task.deploy_command)) [
        | inl none_given ↦ rw none_given refl
        | inr given ↦ elim commands [
          | inl empty ↦ absurd (ground (arith, ap at_end empty))
          | inr finishes ↦ rw (given, is_done-of action finishes) refl
        ]
      ]
