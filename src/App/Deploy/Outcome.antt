-- ===== src/App/Deploy/Outcome.antt =====
-- src/deploy_manager.c: the one report of a deployment.
use aliyun_iot_arm.Prelude.{
  ℕ, ◌≡◌, refl, sym, ap, ◌∙◌, subst, ◌↔◌, ◌⊎◌, inl, inr, Bool, true, false, not, ◌&&◌, some, List,
  [], ◌∷◌, ◌++◌, append_assoc, arith, if◌then◌else◌, Bool-cases, Bytes, codes,
}
use aliyun_iot_arm.App.Deploy.Success.{
  command_actions, Downloads, Extracts, Commands, clear_actions, download_zip-success,
  download_zip-of, deploy_step-success, deploy_step-of,
}
use aliyun_iot_arm.App.Deploy.Success.Extract.{extract_zip-success, extract_zip-of}
use aliyun_iot_arm.App.Deploy.{DeployTask, DeployStatus}
use aliyun_iot_arm.App.Deploy.Worker.{
  download_action, extract_action, Action, ensure_directory, post_status, unlink, Answer, Trace,
  append_log, act, download_zip, extract_zip, deploy_step, report, zip_path_of, target_path_of,
  first_trace, stages, worker,
}
use aliyun_iot_arm.App.Deploy.Order.{
  is_quiet, is_quiet-append, Extends, Extends-refl, Extends-act, Extends-write,
  download_zip-Extends, extract_zip-Extends, deploy_step-Extends,
}

-- The trace ends with the one report of its actions, which says whether all is well; then all the actions
-- were made.
pub record Ends (success : Bool) (full : List Action) (trace : Trace) : Type 0 where
  pub before : List Action
  pub last : DeployStatus
  pub split : trace.actions ≡ before ++ (post_status last ∷ [])
  pub quiet : is_quiet before ≡ true
  pub outcome : last.success ≡ success
  pub whole : (success ≡ false) ⊎ (before ≡ full)

Ends-report :
    (success : Bool) (message : Bytes) (task : DeployTask) (target_path : Bytes)
    (trace trace' : Trace) (full : List Action)
    → trace.actions ≡ []
    → Extends trace trace'
    → (success ≡ false) ⊎ (trace'.actions ≡ full)
    → Ends success full (report success message task target_path trace')
Ends-report success message task target_path trace trace' full empty further whole = record {
  before = trace'.actions;
  last = _;
  split = refl;
  quiet =
      subst (λ l. is_quiet l ≡ true) (sym (further.longer ∙ ap (λ l. l ++ further.added) empty))
        further.quiet;
  outcome = refl;
  whole = whole;
}

Ends-if :
    (done rest : Bool) (full : List Action) (trace trace' : Trace)
    → Ends false full trace
    → Ends rest full trace'
    → Ends (done && rest) full (if not done then trace else trace')
Ends-if true rest full trace trace' stopped more = more
Ends-if false rest full trace trace' stopped more = stopped

Extends-trans : (t t' t'' : Trace) → Extends t t' → Extends t' t'' → Extends t t''
Extends-trans t t' t'' first second = record {
  added = first.added ++ second.added;
  longer =
      second.longer
      ∙ ap (λ l. l ++ second.added) first.longer
      ∙ append_assoc t.actions first.added second.added;
  quiet = is_quiet-append first.added second.added first.quiet second.quiet;
}

all_true :
    (a b c d : Bool)
    → a && (b && (c && (d && true))) ≡ true
    → (a ≡ true) × (b ≡ true) × (c ≡ true) × (d ≡ true)
all_true a b c d e = (ground arith, ground arith, ground arith, ground arith)

true_all :
    (a b c d : Bool)
    → a ≡ true
    → b ≡ true
    → c ≡ true
    → d ≡ true
    → a && (b && (c && (d && true))) ≡ true
true_all a b c d e f g h = ground arith

some_inj : {x y : Bytes} → some x ≡ some y → x ≡ y
some_inj e = cc

module _ (outside : Action → Answer) (now_ms : ℕ) (task : DeployTask) where
  rooted : Trace
  rooted = act (ensure_directory task.deploy_path) (first_trace task)

  downloaded : Bool × Trace
  downloaded = download_zip outside task (zip_path_of now_ms task) rooted

  extracted : Bool × Trace
  extracted = extract_zip outside (zip_path_of now_ms task) (target_path_of task) downloaded.1

  deployed : Bool × Trace
  deployed = deploy_step outside task (target_path_of task) extracted.1

  -- Every stage succeeds, each behind the one before.
  unfoldable pub all_done : Bool
  unfolding rooted downloaded extracted deployed
  all_done =
      (outside (ensure_directory task.deploy_path)).is_zero
      && (downloaded.0 && (extracted.0 && (deployed.0 && true)))

  stages-Ends : Ends all_done deployed.1.actions (stages outside now_ms task)
  unfolding stages all_done
  stages-Ends =
      let start = first_trace task in
      let root = ensure_directory task.deploy_path in
      let target = target_path_of task in
      let at_root = Extends-act start start root (Extends-refl start) refl in
      let at_zip =
        Extends-trans start rooted downloaded.1 at_root
          (download_zip-Extends outside task (zip_path_of now_ms task) rooted) in
      let at_tree =
        Extends-trans start downloaded.1 extracted.1 at_zip
          (extract_zip-Extends outside (zip_path_of now_ms task) target downloaded.1) in
      let at_end' =
        Extends-trans start extracted.1 deployed.1 at_tree
          (deploy_step-Extends outside task target extracted.1) in
      let full = deployed.1.actions in
      let stopped = λ (message : Bytes) (trace : Trace) (further : Extends start trace).
        Ends-report false message task target start (append_log (message ++ codes "\n") trace) full
          refl (Extends-write start trace (message ++ codes "\n") further) (inl refl) in
      let finished = append_log (codes "deploy finished successfully\n") deployed.1 in
      Ends-if (outside root).is_zero _ full _ _
        (stopped (codes "failed to create deploy root directory") rooted at_root)
        (Ends-if downloaded.0 _ full _ _
          (stopped (codes "download step failed") downloaded.1 at_zip)
          (Ends-if extracted.0 _ full _ _
            (stopped (codes "extract step failed") extracted.1 at_tree)
            (Ends-if deployed.0 true full _ _
              (Ends-report false (codes "deploy command failed") task target start deployed.1 full
                refl at_end' (inl refl))
              (Ends-report true (codes "deploy success") task target start finished full refl
                (Extends-write start deployed.1 (codes "deploy finished successfully\n") at_end')
                (inr refl)))))

  -- What a deployment needs to be a success: the directory is there, and the download, the unpacking and
  -- the deploy command finish.
  abbrev pub Deploys : (quoted_url quoted_zip quoted_target : Bytes) → Type 0
  Deploys quoted_url quoted_zip quoted_target =
      ((outside (ensure_directory task.deploy_path)).is_zero ≡ true)
      × Downloads outside task (zip_path_of now_ms task) quoted_url quoted_zip
      × Extracts outside (zip_path_of now_ms task) (target_path_of task) quoted_zip quoted_target
      × Commands outside task (target_path_of task)

  abbrev pub IsDeployed : Type 0
  IsDeployed =
      (quoted_url : Bytes) × (quoted_zip : Bytes) × (quoted_target : Bytes) × Deploys quoted_url
        quoted_zip quoted_target

  -- The actions of such a deployment, in their order.
  abbrev pub deploy_actions : (quoted_url quoted_zip quoted_target : Bytes) → List Action
  deploy_actions quoted_url quoted_zip quoted_target =
      let target = target_path_of task in
      ensure_directory task.deploy_path
      ∷ download_action quoted_url quoted_zip
      ∷ (clear_actions outside target
          ++ (ensure_directory target
              ∷ extract_action quoted_zip quoted_target
              ∷ command_actions task.deploy_command target))

  all_done-stages :
      all_done ≡ true
      → ((outside (ensure_directory task.deploy_path)).is_zero ≡ true)
        × (downloaded.0 ≡ true)
        × (extracted.0 ≡ true)
        × (deployed.0 ≡ true)
  unfolding all_done
  all_done-stages done =
      all_true (outside (ensure_directory task.deploy_path)).is_zero downloaded.0 extracted.0
        deployed.0 done

  all_done-success :
      all_done ≡ true
      → (quoted_url : Bytes) × (quoted_zip : Bytes) × (quoted_target : Bytes) × Deploys quoted_url
          quoted_zip quoted_target
        × (deployed.1.actions ≡ deploy_actions quoted_url quoted_zip quoted_target)
  unfolding deployed extracted downloaded rooted
  all_done-success done =
      let zip_path = zip_path_of now_ms task in
      let target = target_path_of task in
      let (root, got, free, ran) = all_done-stages done in
      let (quoted_url, quoted_zip, downloads, first) =
        download_zip-success outside task zip_path rooted got in
      let (quoted_zip', quoted_target, extracts, second) =
        extract_zip-success outside zip_path target downloaded.1 free in
      let (commands, third) = deploy_step-success outside task target extracted.1 ran in
      let same : quoted_zip' ≡ quoted_zip = some_inj (sym extracts.0 ∙ downloads.1) in
      let tail = λ (zip : Bytes).
        clear_actions outside target
        ++ (ensure_directory target ∷ extract_action zip quoted_target ∷ []) in
      let command = command_actions task.deploy_command target in
      (
        quoted_url,
        quoted_zip,
        quoted_target,
        (
          root,
          downloads,
          subst (λ q. Extracts outside zip_path target q quoted_target) same extracts,
          commands,
        ),
        third
            ∙ ap (λ l. l ++ command) second
            ∙ (λ i. (first i ++ tail (same i)) ++ command)
            ∙ ap
                (λ l. ensure_directory task.deploy_path ∷ download_action quoted_url quoted_zip ∷ l)
                (append_assoc (clear_actions outside target)
                  (ensure_directory target ∷ extract_action quoted_zip quoted_target ∷ []) command),
      )

  all_done-of : IsDeployed → all_done ≡ true
  unfolding all_done
  all_done-of (quoted_url, quoted_zip, quoted_target, (root, downloads, extracts, commands)) =
      let zip_path = zip_path_of now_ms task in
      let target = target_path_of task in
      true_all (outside (ensure_directory task.deploy_path)).is_zero downloaded.0 extracted.0
        deployed.0 root
        (download_zip-of outside task zip_path rooted quoted_url quoted_zip downloads)
        (extract_zip-of outside zip_path target downloaded.1 quoted_zip quoted_target extracts)
        (deploy_step-of outside task target extracted.1 commands)

  whole-cases :
      (before : List Action)
      → (all_done ≡ false) ⊎ (before ≡ deployed.1.actions)
      → (all_done ≡ false)
        ⊎ ((quoted_url : Bytes) × (quoted_zip : Bytes) × (quoted_target : Bytes) × Deploys
              quoted_url quoted_zip quoted_target
            × (before ≡ deploy_actions quoted_url quoted_zip quoted_target))
  whole-cases before whole = elim (Bool-cases all_done) [
    | inr e ↦ inl e
    | inl e ↦ elim whole [
      | inl f ↦ inl f
      | inr is ↦
          let (quoted_url, quoted_zip, quoted_target, deploys, made) = all_done-success e in
          inr (quoted_url, quoted_zip, quoted_target, deploys, is ∙ made)
    ]
  ]

-- A worker that has no memory for its log does nothing and reports nothing. The actions of any other end
-- with one report and with the removal of the downloaded file, and no report stands before. The report says
-- success exactly when the address and the two paths can be quoted, the directory is made, the old target
-- is removed or not there and the new one made, and the commands of the download, of the unpacking and of
-- the deployment, if it has one, each run and exit with 0; and then all of this was done, in the order of
-- the source, before the report.
pub worker_report :
    (outside : Action → Answer) (now_ms : ℕ) (task : DeployTask)
    → ((worker outside false now_ms task).actions ≡ [])
      × (before : List Action) × (last : DeployStatus) × ((worker outside true now_ms task).actions
          ≡ before ++ (post_status last ∷ unlink (zip_path_of now_ms task) ∷ []))
      × (is_quiet before ≡ true)
      × ((last.success ≡ true) ↔ IsDeployed outside now_ms task)
      × ((last.success ≡ false)
          ⊎ ((quoted_url : Bytes) × (quoted_zip : Bytes) × (quoted_target : Bytes) × Deploys outside
                now_ms task quoted_url quoted_zip quoted_target
              × (before ≡ deploy_actions outside now_ms task quoted_url quoted_zip quoted_target)))
unfolding worker
worker_report outside now_ms task =
    let ends = stages-Ends outside now_ms task in
    let zip = unlink (zip_path_of now_ms task) ∷ [] in
    (
      refl,
      ends.before,
      ends.last,
      ap (λ l. l ++ zip) ends.split ∙ append_assoc ends.before (post_status ends.last ∷ []) zip,
      ends.quiet,
      (
        λ success.
            let (quoted_url, quoted_zip, quoted_target, deploys, made) =
              all_done-success outside now_ms task (sym ends.outcome ∙ success) in
            (quoted_url, quoted_zip, quoted_target, deploys),
        λ deploys. ends.outcome ∙ all_done-of outside now_ms task deploys,
      ),
      elim (whole-cases outside now_ms task ends.before ends.whole) [
        | inl fails ↦ inl (ends.outcome ∙ fails)
        | inr made ↦ inr made
      ],
    )
