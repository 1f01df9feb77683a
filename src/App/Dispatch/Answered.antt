-- ===== src/App/Dispatch/Answered.antt =====
-- src/iot_ide_app.c: every request for a service is answered once.
use aliyun_iot_arm.Prelude.{
  ◌≡◌, refl, sym, Bool, true, false, not, ◌&&◌, Option, none, some, List, [], ◌∷◌, ◌++◌, map,
  append_assoc, arith, if◌then◌else◌, Bytes, codes,
}
use aliyun_iot_arm.Ide.Manager
use aliyun_iot_arm.Ide.Manager.Handle
use aliyun_iot_arm.Ide.Manager.Handle.{handle_request_connect, handle_disconnect, handle_heartbeat}
use aliyun_iot_arm.App.Deploy.Turns
use aliyun_iot_arm.App.Deploy.Turns.{handle_deploy}
use aliyun_iot_arm.App.StartProject.{Started}
use aliyun_iot_arm.App.Services.{
  guarded, deploy_served, start_served, AppContext, Served, Effect, post_properties, publish_shadow,
  report_ide, report_deploy, start_worker, launch_program, reply, replied, ide_served, optional,
}

abbrev pub is_reply : Effect → Bool
is_reply (post_properties params_json) = false
is_reply (publish_shadow payload) = false
is_reply (report_ide r) = false
is_reply (report_deploy r) = false
is_reply (start_worker task) = false
is_reply (launch_program task) = false
is_reply (reply service_path request_id data_json) = true

-- No effect of the list replies.
unfoldable pub is_quiet : List Effect → Bool
is_quiet [] = true
is_quiet (effect ∷ effects) = not (is_reply effect) && is_quiet effects

-- The last effect answers the request under its identifier, and no other effect answers it.
pub record IsAnswered (service_path request_id : Bytes) (effects : List Effect) : Type 0 where
  pub before : List Effect
  pub data_json : Bytes
  pub split : effects ≡ before ++ (reply service_path request_id data_json ∷ [])
  pub quiet : is_quiet before ≡ true

is_quiet-report_ide : (reports : List Manager.Report) → is_quiet (map report_ide reports) ≡ true
unfolding is_quiet
is_quiet-report_ide [] = refl
is_quiet-report_ide (r ∷ reports) = is_quiet-report_ide reports

is_quiet-optional_only :
    {A : Type 0}
    → (effect : A → Effect) (x : Option A) → ((a : A) → is_reply (effect a) ≡ false)
    → is_quiet (optional effect x) ≡ true
unfolding is_quiet
is_quiet-optional_only effect none plain = refl
is_quiet-optional_only effect (some a) plain = ground (arith, plain a)

is_quiet-optional :
    {A : Type 0}
    → (effect : A → Effect) (x : Option A) (effects : List Effect)
    → ((a : A) → is_reply (effect a) ≡ false)
    → is_quiet effects ≡ true
    → is_quiet (optional effect x ++ effects) ≡ true
unfolding is_quiet
is_quiet-optional effect none effects plain quiet = quiet
is_quiet-optional effect (some a) effects plain quiet = ground (arith, plain a)

module _ (service_path request_id : Bytes) where
  pub answered :
      (before : List Effect) (data_json : Bytes)
      → is_quiet before ≡ true
      → IsAnswered service_path request_id
          (before ++ (reply service_path request_id data_json ∷ []))
  answered before data_json quiet = record {
    before = before;
    data_json = data_json;
    split = refl;
    quiet = quiet;
  }

  pub IsAnswered-if :
      (test : Bool) (served served' : Served)
      → IsAnswered service_path request_id served.effects
      → IsAnswered service_path request_id served'.effects
      → IsAnswered service_path request_id (if test then served else served').effects
  IsAnswered-if true served served' done done' = done
  IsAnswered-if false served served' done done' = done'

  pub ide_served-IsAnswered :
      (handled : Handle.Handled) (app : AppContext)
      → IsAnswered service_path request_id (ide_served service_path request_id handled app).effects
  ide_served-IsAnswered handled app =
      answered (map report_ide handled.reports) _ (is_quiet-report_ide handled.reports)

  pub replied-IsAnswered :
      (data_json : Bytes) (app : AppContext)
      → IsAnswered service_path request_id (replied service_path request_id data_json app).effects
  replied-IsAnswered data_json app = answered [] data_json (unfold is_quiet in refl)

pub guarded-IsAnswered :
    (service request_id failed refusal : Bytes) (has_params active : Bool) (app : AppContext)
    (accepted : Served)
    → IsAnswered service request_id accepted.effects
    → IsAnswered service request_id
        (guarded service request_id failed refusal has_params active app accepted).effects
guarded-IsAnswered service request_id failed refusal false active app accepted done =
    replied-IsAnswered service request_id failed app
guarded-IsAnswered service request_id failed refusal true false app accepted done =
    replied-IsAnswered service request_id refusal app
guarded-IsAnswered service request_id failed refusal true true app accepted done = done

pub deploy_served-IsAnswered :
    (request_id : Bytes) (handled : Turns.Handled) (app : AppContext)
    → IsAnswered (codes "deployProject") request_id (deploy_served request_id handled app).effects
deploy_served-IsAnswered request_id handled app =
    let before = optional report_deploy handled.report ++ optional start_worker handled.started in
    record {
      before = before;
      data_json = _;
      split = sym (
          append_assoc (optional report_deploy handled.report)
            (optional start_worker handled.started) _);
      quiet =
          is_quiet-optional report_deploy handled.report (optional start_worker handled.started)
            (λ a. refl) (is_quiet-optional_only start_worker handled.started (λ a. refl));
    }

pub start_served-IsAnswered :
    (request_id : Bytes) (started : Started) (app : AppContext)
    → IsAnswered (codes "startProject") request_id (start_served request_id started app).effects
start_served-IsAnswered request_id started app =
    answered (codes "startProject") request_id (optional launch_program started.launched) _
      (is_quiet-optional_only launch_program started.launched (λ a. refl))
