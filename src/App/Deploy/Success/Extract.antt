-- ===== src/App/Deploy/Success/Extract.antt =====
-- src/deploy_manager.c: when the unpacking succeeds, and what it has done then.
use aliyun_iot_arm.Prelude.{
  ◌≡◌, refl, sym, ap, ◌∙◌, ◌⊎◌, inl, inr, true, false, some, [], ◌∷◌, ◌++◌, append_assoc, arith,
  Bool-cases, Option-cases, Bytes,
}
use aliyun_iot_arm.Utils.Shell.{shell_quote}
use aliyun_iot_arm.App.Deploy.Worker.{
  Action, ensure_directory, remove_tree, is_there, Answer, Trace, act, is_done, extract_action,
  run_command_capture, cleared, unpack, extract_zip,
}
use aliyun_iot_arm.App.Deploy.Success.{Extracts, clear_actions, is_done-Finishes, is_done-of}

clash : true ≡ false → ⊥
clash e = cc

module _ (outside : Action → Answer) where
  unpack-at :
      (zip_path target_path : Bytes) (trace : Trace) (quoted_zip quoted_target : Bytes)
      → shell_quote zip_path 8192 ≡ some quoted_zip
      → shell_quote target_path 8192 ≡ some quoted_target
      → ((unpack outside zip_path target_path trace).0
          ≡ is_done outside (extract_action quoted_zip quoted_target))
        × ((unpack outside zip_path target_path trace).1.actions
            ≡ trace.actions ++ (extract_action quoted_zip quoted_target ∷ []))
  unfolding unpack run_command_capture
  unpack-at zip_path target_path trace quoted_zip quoted_target e e' =
      (rw (e, e', unpack) refl, rw (e, e', unpack) refl)

  unpack-quotes :
      (zip_path target_path : Bytes) (trace : Trace)
      → (unpack outside zip_path target_path trace).0 ≡ true
      → (quoted_zip : Bytes) × (quoted_target : Bytes) × (shell_quote zip_path 8192
          ≡ some quoted_zip)
        × (shell_quote target_path 8192 ≡ some quoted_target)
  unfolding unpack
  unpack-quotes zip_path target_path trace done = elim (Option-cases (shell_quote zip_path 8192)) [
    | inl e ↦ absurd (ground (arith, e))
    | inr (quoted_zip, e) ↦ elim (Option-cases (shell_quote target_path 8192)) [
      | inl e' ↦ absurd (ground (arith, e, e'))
      | inr (quoted_target, e') ↦ (quoted_zip, quoted_target, e, e')
    ]
  ]

  -- The target is free exactly when it is removed or not there.
  cleared-free :
      (target_path : Bytes) (trace : Trace)
      → (cleared outside target_path trace).0 ≡ true
      → ((outside (remove_tree target_path)).is_zero ≡ true)
        ⊎ ((outside (is_there target_path)).is_zero ≡ false)
  cleared-free target_path trace free =
      elim (Bool-cases (outside (remove_tree target_path)).is_zero) [
        | inl e ↦ inl e
        | inr e ↦ inr (ground arith)
      ]

  cleared-of :
      (target_path : Bytes) (trace : Trace)
      → ((outside (remove_tree target_path)).is_zero ≡ true)
        ⊎ ((outside (is_there target_path)).is_zero ≡ false)
      → (cleared outside target_path trace).0 ≡ true
  cleared-of target_path trace free =
      elim (Bool-cases (outside (remove_tree target_path)).is_zero) [
        | inl e ↦ rw e refl
        | inr e ↦ elim free [ inl removed ↦ absurd (cc) | inr gone ↦ rw (e, gone) refl ]
      ]

  cleared-actions :
      (target_path : Bytes) (trace : Trace)
      → (cleared outside target_path trace).1.actions
        ≡ trace.actions ++ clear_actions outside target_path
  cleared-actions target_path trace =
      elim (Bool-cases (outside (remove_tree target_path)).is_zero) [
        | inl e ↦ rw e refl
        | inr e ↦
            rw e (
              append_assoc trace.actions (remove_tree target_path ∷ []) (is_there target_path ∷ []))
      ]

  extract_zip-at :
      (zip_path target_path : Bytes) (trace : Trace)
      → (cleared outside target_path trace).0 ≡ true
      → (outside (ensure_directory target_path)).is_zero ≡ true
      → extract_zip outside zip_path target_path trace
        ≡ unpack outside zip_path target_path
            (act (ensure_directory target_path) (cleared outside target_path trace).1)
  unfolding extract_zip
  extract_zip-at zip_path target_path trace free made = rw (free, made) refl

  extract_zip-free :
      (zip_path target_path : Bytes) (trace : Trace)
      → (extract_zip outside zip_path target_path trace).0 ≡ true
      → ((cleared outside target_path trace).0 ≡ true)
        × ((outside (ensure_directory target_path)).is_zero ≡ true)
  unfolding extract_zip
  extract_zip-free zip_path target_path trace done =
      elim (Bool-cases (cleared outside target_path trace).0) [
        | inr taken ↦ absurd (clash (sym done ∙ rw taken refl))
        | inl free ↦ elim (Bool-cases (outside (ensure_directory target_path)).is_zero) [
          | inr fails ↦ absurd (clash (sym done ∙ rw (free, fails) refl))
          | inl made ↦ (free, made)
        ]
      ]

  pub extract_zip-success :
      (zip_path target_path : Bytes) (trace : Trace)
      → (extract_zip outside zip_path target_path trace).0 ≡ true
      → (quoted_zip : Bytes) × (quoted_target : Bytes) × Extracts outside zip_path target_path
          quoted_zip quoted_target
        × ((extract_zip outside zip_path target_path trace).1.actions
            ≡ trace.actions
              ++ (clear_actions outside target_path
                  ++ (ensure_directory target_path ∷ extract_action quoted_zip quoted_target ∷ [])))
  extract_zip-success zip_path target_path trace done =
      let (free, made) = extract_zip-free zip_path target_path trace done in
      let at = extract_zip-at zip_path target_path trace free made in
      let ready = act (ensure_directory target_path) (cleared outside target_path trace).1 in
      let (quoted_zip, quoted_target, e, e') =
        unpack-quotes zip_path target_path ready (sym (ap (λ r. r.0) at) ∙ done) in
      let (is, actions) = unpack-at zip_path target_path ready quoted_zip quoted_target e e' in
      let extract = extract_action quoted_zip quoted_target in
      (
        quoted_zip,
        quoted_target,
        (
          e,
          e',
          cleared-free target_path trace free,
          made,
          is_done-Finishes outside extract (sym is ∙ (sym (ap (λ r. r.0) at) ∙ done)),
        ),
        ap (λ r. r.1.actions) at
            ∙ actions
            ∙ append_assoc (cleared outside target_path trace).1.actions
                (ensure_directory target_path ∷ []) (extract ∷ [])
            ∙ ap (λ l. l ++ (ensure_directory target_path ∷ extract ∷ []))
                (cleared-actions target_path trace)
            ∙ append_assoc trace.actions (clear_actions outside target_path)
                (ensure_directory target_path ∷ extract ∷ []),
      )

  pub extract_zip-of :
      (zip_path target_path : Bytes) (trace : Trace) (quoted_zip quoted_target : Bytes)
      → Extracts outside zip_path target_path quoted_zip quoted_target
      → (extract_zip outside zip_path target_path trace).0 ≡ true
  extract_zip-of zip_path target_path trace quoted_zip quoted_target (e, e', gone, made, finishes) =
      let free = cleared-of target_path trace gone in
      let ready = act (ensure_directory target_path) (cleared outside target_path trace).1 in
      ap (λ r. r.0) (extract_zip-at zip_path target_path trace free made)
      ∙ (unpack-at zip_path target_path ready quoted_zip quoted_target e e').0
      ∙ is_done-of outside (extract_action quoted_zip quoted_target) finishes
