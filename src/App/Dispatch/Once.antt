-- ===== src/App/Dispatch/Once.antt =====
-- src/iot_ide_app.c: every request for a service is answered once.
use aliyun_iot_arm.Prelude.{
  ◌≡◌, refl, sym, subst, inl, inr, Bool, some, [], ◌∷◌, ◌++◌, if◌then◌else◌, Bool-cases,
  drop-append, Bytes, codes, str_eq, str_eq_iff, starts_with-append,
}
use aliyun_iot_arm.Json.Copy.{succeeded, stored, or_keep}
use aliyun_iot_arm.Json.Get.{get_object, get_raw_value}
use aliyun_iot_arm.Ide.Manager.Handle
use aliyun_iot_arm.Ide.Manager.Handle.{handle_request_connect, handle_disconnect, handle_heartbeat}
use aliyun_iot_arm.App.Deploy.Turns.{handle_deploy}
use aliyun_iot_arm.App.StartProject.{handle_start}
use aliyun_iot_arm.App.Services.{
  failed_text, deploy_failed, deploy_served, start_failed, start_served, AppContext, Served, Moment,
  replied, ide_served, properties_text, handle_property_set, handle_connect_service,
  handle_disconnect_service, handle_heartbeat_service, handle_deploy_service, handle_start_service,
  is_active,
}
use aliyun_iot_arm.App.Publish.{Identity}
use aliyun_iot_arm.App.Dispatch.{serve, service_prefix, dispatch_service}
use aliyun_iot_arm.App.Dispatch.Answered.{
  is_quiet, IsAnswered, IsAnswered-if, ide_served-IsAnswered, replied-IsAnswered,
  guarded-IsAnswered, deploy_served-IsAnswered, start_served-IsAnswered,
}

module _ (request_id payload : Bytes) (app : AppContext) where
  -- A service that takes the parameters to the lock, or answers that it failed.
  lock-IsAnswered :
      (service : Bytes) (handled : Handle.Handled) (test : Bool)
      → IsAnswered service request_id
          (if test
            then ide_served service request_id handled app
            else replied service request_id (failed_text service) app).effects
  lock-IsAnswered service handled test =
      IsAnswered-if service request_id test (ide_served service request_id handled app)
        (replied service request_id (failed_text service) app)
        (ide_served-IsAnswered service request_id handled app)
        (replied-IsAnswered service request_id (failed_text service) app)

  property_set-IsAnswered :
      IsAnswered
        (codes "property/set")
        request_id
        (handle_property_set request_id payload app).effects
  unfolding handle_property_set
  property_set-IsAnswered = record {
    before = _ ∷ _ ∷ [];
    data_json = codes "{}";
    split = refl;
    quiet = unfold is_quiet in refl;
  }

  module _ (moment : Moment) where
    connect-IsAnswered :
        IsAnswered
          (codes "requestConnect")
          request_id
          (handle_connect_service moment request_id payload app).effects
    unfolding handle_connect_service
    connect-IsAnswered =
        let params = get_object payload (codes "params") 2048 in
        lock-IsAnswered (codes "requestConnect")
          (handle_request_connect moment.had moment.now_ms (some (stored params)) 512
            app.ide_manager)
          (succeeded params)

    disconnect-IsAnswered :
        IsAnswered
          (codes "requestDisconnect")
          request_id
          (handle_disconnect_service moment request_id payload app).effects
    unfolding handle_disconnect_service
    disconnect-IsAnswered =
        let params = get_object payload (codes "params") 1024 in
        lock-IsAnswered (codes "requestDisconnect")
          (handle_disconnect moment.had (some (stored params)) 512 app.ide_manager)
          (succeeded params)

    heartbeat-IsAnswered :
        IsAnswered
          (codes "ideHeartbeat")
          request_id
          (handle_heartbeat_service moment request_id payload app).effects
    unfolding handle_heartbeat_service
    heartbeat-IsAnswered =
        let params = get_object payload (codes "params") 1024 in
        lock-IsAnswered (codes "ideHeartbeat")
          (handle_heartbeat moment.had moment.now_ms (some (stored params)) 512 app.ide_manager)
          (succeeded params)

    deploy-IsAnswered :
        IsAnswered
          (codes "deployProject")
          request_id
          (handle_deploy_service moment request_id payload app).effects
    unfolding handle_deploy_service
    deploy-IsAnswered =
        let params = get_object payload (codes "params") 4096 in
        let handled = handle_deploy moment.supply (stored params) 1024 app.deploy_manager in
        guarded-IsAnswered (codes "deployProject") request_id deploy_failed _ (succeeded params)
          (is_active (stored params) app) app (deploy_served request_id handled app)
          (deploy_served-IsAnswered request_id handled app)

    start-IsAnswered :
        IsAnswered
          (codes "startProject")
          request_id
          (handle_start_service moment request_id payload app).effects
    unfolding handle_start_service
    start-IsAnswered =
        let params = get_object payload (codes "params") 2048 in
        let started = handle_start moment.around (stored params) 1024 app.start_busy in
        guarded-IsAnswered (codes "startProject") request_id start_failed _ (succeeded params)
          (is_active (stored params) app) app (start_served request_id started app)
          (start_served-IsAnswered request_id started app)

named :
    (service_path request_id name : Bytes) (served served' : Served)
    → IsAnswered name request_id served.effects
    → IsAnswered service_path request_id served'.effects
    → IsAnswered service_path request_id
        (if str_eq service_path name then served else served').effects
named service_path request_id name served served' done done' =
    elim (Bool-cases (str_eq service_path name)) [
      | inl e ↦ rw e (
          subst (λ s. IsAnswered s request_id served.effects)
            (sym ((str_eq_iff service_path name).0 e)) done)
      | inr e ↦ rw e done'
    ]

serve-IsAnswered :
    (moment : Moment) (service_path request_id payload : Bytes) (app : AppContext)
    → IsAnswered service_path request_id (serve moment service_path request_id payload app).effects
unfolding serve
serve-IsAnswered moment service_path request_id payload app =
    let other = named service_path request_id in
    other (codes "property/set") _ _ (property_set-IsAnswered request_id payload app) (
      other (codes "property/get") _ _
        (replied-IsAnswered (codes "property/get") request_id (properties_text app) app)
        (other (codes "requestConnect") _ _ (connect-IsAnswered request_id payload app moment) (
          other (codes "requestDisconnect") _ _
            (disconnect-IsAnswered request_id payload app moment)
            (other (codes "ideHeartbeat") _ _ (heartbeat-IsAnswered request_id payload app moment) (
              other (codes "deployProject") _ _ (deploy-IsAnswered request_id payload app moment) (
                other (codes "startProject") _ _ (start-IsAnswered request_id payload app moment)
                  (replied-IsAnswered service_path request_id _ app)))))))

dispatch_service-serve :
    (identity : Identity) (moment : Moment) (service_path payload : Bytes) (app : AppContext)
    → dispatch_service identity moment (service_prefix identity ++ service_path) payload app
      ≡ serve moment service_path
          (or_keep (codes "0") (get_raw_value payload (codes "id") 64))
          payload
          app
unfolding dispatch_service
dispatch_service-serve identity moment service_path payload app =
    let request_id = or_keep (codes "0") (get_raw_value payload (codes "id") 64) in
    let prefix = service_prefix identity in
    let matches = starts_with-append prefix service_path in
    let rest = drop-append prefix service_path in
    λ i.
      if matches i
      then serve moment (rest i) request_id payload app
      else record { app = app; effects = [] }

-- Every message on a topic of the device's services is answered once, by the last effect, with the name of
-- the service and the identifier of the request, whatever the service is called and the payload holds.
pub dispatch_service-IsAnswered :
    (identity : Identity) (moment : Moment) (service_path payload : Bytes) (app : AppContext)
    → IsAnswered service_path
        (or_keep (codes "0") (get_raw_value payload (codes "id") 64))
        (dispatch_service identity moment
          (service_prefix identity ++ service_path)
          payload
          app).effects
dispatch_service-IsAnswered identity moment service_path payload app =
    let request_id = or_keep (codes "0") (get_raw_value payload (codes "id") 64) in
    subst (λ served. IsAnswered service_path request_id served.effects)
      (sym (dispatch_service-serve identity moment service_path payload app))
      (serve-IsAnswered moment service_path request_id payload app)
