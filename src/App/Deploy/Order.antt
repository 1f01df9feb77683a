-- ===== src/App/Deploy/Order.antt =====
-- src/deploy_manager.c: which stages run, what they run, and what is reported.
use aliyun_iot_arm.Prelude.{
  ℕ, ◌*◌, ◌≡◌, refl, sym, ap, ◌∙◌, inl, inr, Bool, true, false, not, ◌&&◌, Option, none, some, List,
  [], ◌∷◌, ◌++◌, append-nil, append_assoc, arith, if◌then◌else◌, Option-cases, Bytes,
}
use aliyun_iot_arm.Utils.Shell.{shell_quote}
use aliyun_iot_arm.App.Config.{at_end}
use aliyun_iot_arm.App.Deploy.{DeployTask, path_max}
use aliyun_iot_arm.App.Deploy.Worker.{
  Action, ensure_directory, remove_tree, is_there, run_command, post_status, unlink, Answer, Trace,
  append_log, act, run_command_capture, is_done, download_zip, cleared, unpack, extract_zip,
  deploy_step,
}

abbrev pub is_report : Action → Bool
is_report (ensure_directory path) = false
is_report (remove_tree path) = false
is_report (is_there path) = false
is_report (run_command command directory timeout_sec) = false
is_report (post_status r) = true
is_report (unlink path) = false

-- No action of the list reports.
unfoldable pub is_quiet : List Action → Bool
is_quiet [] = true
is_quiet (action ∷ actions) = not (is_report action) && is_quiet actions

pub is_quiet-append :
    (xs ys : List Action) → is_quiet xs ≡ true → is_quiet ys ≡ true → is_quiet (xs ++ ys) ≡ true
unfolding is_quiet
is_quiet-append [] ys quiet quiet' = quiet'
is_quiet-append (x ∷ xs) ys quiet quiet' = ground (arith, is_quiet-append xs ys)

-- A trace goes on from another, and reports nothing.
pub record Extends (trace trace' : Trace) : Type 0 where
  pub added : List Action
  pub longer : trace'.actions ≡ trace.actions ++ added
  pub quiet : is_quiet added ≡ true

pub Extends-refl : (trace : Trace) → Extends trace trace
Extends-refl trace = record {
  added = [];
  longer = sym (append-nil trace.actions);
  quiet = unfold is_quiet in refl;
}

pub Extends-act :
    (trace trace' : Trace) (action : Action)
    → Extends trace trace'
    → is_report action ≡ false
    → Extends trace (act action trace')
Extends-act trace trace' action further plain = record {
  added = further.added ++ (action ∷ []);
  longer =
      ap (λ l. l ++ (action ∷ [])) further.longer
      ∙ append_assoc trace.actions further.added (action ∷ []);
  quiet =
      is_quiet-append further.added (action ∷ []) further.quiet
        (unfold is_quiet in ground (arith, plain));
}

Extends-if :
    (trace : Trace) (test : Bool) (t t' : Bool × Trace)
    → Extends trace t.1
    → Extends trace t'.1
    → Extends trace (if test then t else t').1
Extends-if trace true t t' further further' = further
Extends-if trace false t t' further further' = further'

pub Extends-write :
    (trace trace' : Trace) (text : Bytes)
    → Extends trace trace'
    → Extends trace (append_log text trace')
Extends-write trace trace' text further = record {
  added = further.added;
  longer = further.longer;
  quiet = further.quiet;
}

module _ (outside : Action → Answer) where
  Extends-run :
      (trace trace' : Trace) (command : Bytes) (directory : Option Bytes) (timeout_sec : ℕ)
      → Extends trace trace'
      → Extends trace
          (run_command_capture outside (run_command command directory timeout_sec) trace')
  unfolding run_command_capture
  Extends-run trace trace' command directory timeout_sec further =
      let ran = Extends-act trace trace' (run_command command directory timeout_sec) further refl in
      record { added = ran.added; longer = ran.longer; quiet = ran.quiet }

  pub download_zip-Extends :
      (task : DeployTask) (zip_path : Bytes) (trace : Trace)
      → Extends trace (download_zip outside task zip_path trace).1
  unfolding download_zip
  download_zip-Extends task zip_path trace =
      elim (Option-cases (shell_quote task.download_url 2048)) [
        | inl e ↦ rw (e, download_zip) (Extends-refl trace)
        | inr (quoted_url, e) ↦ elim (Option-cases (shell_quote zip_path (path_max * 2))) [
          | inl e' ↦ rw (e, e', download_zip) (Extends-refl trace)
          | inr (quoted_zip, e') ↦
              rw (e, e', download_zip)
                (Extends-run trace _ _ none 300 (Extends-write trace _ _ (Extends-refl trace)))
        ]
      ]

  unpack-Extends :
      (zip_path target_path : Bytes) (trace trace' : Trace)
      → Extends trace trace'
      → Extends trace (unpack outside zip_path target_path trace').1
  unfolding unpack
  unpack-Extends zip_path target_path trace trace' further =
      elim (Option-cases (shell_quote zip_path (path_max * 2))) [
        | inl e ↦ rw (e, unpack) further
        | inr (quoted_zip, e) ↦ elim (Option-cases (shell_quote target_path (path_max * 2))) [
          | inl e' ↦ rw (e, e', unpack) further
          | inr (quoted_target, e') ↦
              rw (e, e', unpack) (Extends-run trace _ _ none 600 (Extends-write trace _ _ further))
        ]
      ]

  cleared-Extends :
      (target_path : Bytes) (trace : Trace) → Extends trace (cleared outside target_path trace).1
  cleared-Extends target_path trace =
      let removed = Extends-act trace trace (remove_tree target_path) (Extends-refl trace) refl in
      Extends-if trace (outside (remove_tree target_path)).is_zero
        (true, act (remove_tree target_path) trace)
        (
          not (outside (is_there target_path)).is_zero,
          act (is_there target_path) (act (remove_tree target_path) trace),
        )
        removed (Extends-act trace _ (is_there target_path) removed refl)

  pub extract_zip-Extends :
      (zip_path target_path : Bytes) (trace : Trace)
      → Extends trace (extract_zip outside zip_path target_path trace).1
  unfolding extract_zip
  extract_zip-Extends zip_path target_path trace =
      let (free, cleared_trace) = cleared outside target_path trace in
      let made = act (ensure_directory target_path) cleared_trace in
      let clear = cleared-Extends target_path trace in
      let making = Extends-act trace cleared_trace (ensure_directory target_path) clear refl in
      Extends-if trace (not free) (false, cleared_trace) _ clear
        (Extends-if trace (not (outside (ensure_directory target_path)).is_zero) (false, made) _
          making (unpack-Extends zip_path target_path trace made making))

  pub deploy_step-Extends :
      (task : DeployTask) (target_path : Bytes) (trace : Trace)
      → Extends trace (deploy_step outside task target_path trace).1
  unfolding deploy_step
  deploy_step-Extends task target_path trace =
      let action = run_command task.deploy_command (some target_path) 600 in
      let ran =
        Extends-run trace _ task.deploy_command (some target_path) 600
          (Extends-write trace _ _ (Extends-refl trace)) in
      Extends-if trace (at_end task.deploy_command) (true, trace) _ (Extends-refl trace)
        (Extends-if trace (is_done outside action) _ _ ran (Extends-write trace _ _ ran))
