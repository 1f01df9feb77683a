-- ===== src/App/Dispatch/Guarded.antt =====
-- src/iot_ide_app.c: only the IDE that holds the device deploys and starts programs.
use aliyun_iot_arm.Prelude.{
  ℕ, ◌≡◌, refl, ap, ◌∙◌, ◌≢◌, ◌⊎◌, inl, inr, Bool, true, false, ◌||◌, none, some, List, [], ◌∷◌,
  ◌++◌, map, arith, if◌then◌else◌, Bool-cases, length, drop, Bytes, codes, starts_with, str_eq,
  str_eq_iff,
}
use aliyun_iot_arm.Json.Copy.{succeeded, stored, or_keep}
use aliyun_iot_arm.Json.Get.{get_object, get_string, get_raw_value}
use aliyun_iot_arm.Ide.Manager
use aliyun_iot_arm.Ide.Manager.{is_connected_client}
use aliyun_iot_arm.Ide.Manager.Handle
use aliyun_iot_arm.Ide.Manager.Handle.{handle_request_connect, handle_disconnect, handle_heartbeat}
use aliyun_iot_arm.App.Gateway.{GatewayManager}
use aliyun_iot_arm.App.Gateway.Services as Gateway
use aliyun_iot_arm.App.Gateway.Others.{handle_message-none}
use aliyun_iot_arm.App.Shadow as Shadow
use aliyun_iot_arm.App.Shadow.{DeviceShadowManager, get_topic}
use aliyun_iot_arm.App.Publish.{Identity}
use aliyun_iot_arm.App.Services.{
  failed_text, guarded, AppContext, Served, Effect, Moment, post_properties, publish_shadow,
  report_ide, report_deploy, start_worker, launch_program, reply, replied, ide_served,
  properties_text, handle_property_set, handle_connect_service, handle_disconnect_service,
  handle_heartbeat_service, handle_deploy_service, handle_start_service, is_active,
}
use aliyun_iot_arm.App.Dispatch.{serve, service_prefix, dispatch_service}

abbrev pub is_act : Effect → Bool
is_act (post_properties params_json) = false
is_act (publish_shadow payload) = false
is_act (report_ide r) = false
is_act (report_deploy r) = false
is_act (start_worker task) = true
is_act (launch_program task) = true
is_act (reply service_path request_id data_json) = false

-- Some effect starts a deployment or launches a program.
unfoldable pub acts_in : List Effect → Bool
acts_in [] = false
acts_in (effect ∷ effects) = is_act effect || acts_in effects

-- The name of the IDE that a request gives, from its parameters in a buffer of a size.
abbrev pub sender : (payload : Bytes) (size : ℕ) → Bytes
sender payload size =
    or_keep []
      (get_string (stored (get_object payload (codes "params") size)) (codes "clientId") 128)

-- The request comes from the IDE that holds the device.
abbrev pub IsHolder : AppContext → (payload : Bytes) → Type 0
IsHolder app payload =
    (size : ℕ) × (app.ide_manager.connected ≡ true)
    × (app.ide_manager.current_client_id ≡ sender payload size)

is_connected_client-holder :
    (m : Manager.Manager) (client_id : Bytes)
    → is_connected_client m client_id ≡ true
    → (m.connected ≡ true) × (m.current_client_id ≡ client_id)
unfolding is_connected_client
is_connected_client-holder m [] active = absurd (cc)
is_connected_client-holder m (c ∷ client_id) active =
    (ground arith, (str_eq_iff m.current_client_id (c ∷ client_id)).0 (ground arith))

is_active-IsHolder :
    (app : AppContext) (payload : Bytes) (size : ℕ)
    → is_active (stored (get_object payload (codes "params") size)) app ≡ true
    → IsHolder app payload
unfolding is_active
is_active-IsHolder app payload size active =
    let (connected, same) =
      is_connected_client-holder app.ide_manager (sender payload size) active in
    (size, connected, same)

acts_in-report_ide :
    (reports : List Manager.Report) (service request_id data_json : Bytes)
    → acts_in (map report_ide reports ++ (reply service request_id data_json ∷ [])) ≡ false
unfolding acts_in
acts_in-report_ide [] service request_id data_json = refl
acts_in-report_ide (r ∷ reports) service request_id data_json =
    acts_in-report_ide reports service request_id data_json

module _ (app : AppContext) (payload : Bytes) where
  IsGuarded : Served → Type 0
  IsGuarded served = (acts_in served.effects ≡ false) ⊎ IsHolder app payload

  IsGuarded-if :
      (test : Bool) (served served' : Served)
      → IsGuarded served
      → IsGuarded served'
      → IsGuarded (if test then served else served')
  IsGuarded-if true served served' safe safe' = safe
  IsGuarded-if false served served' safe safe' = safe'

  replied-IsGuarded :
      (service request_id data_json : Bytes) → IsGuarded (replied service request_id data_json app)
  unfolding IsGuarded acts_in
  replied-IsGuarded service request_id data_json = inl refl

  guarded-IsGuarded :
      (service request_id failed refusal : Bytes) (has_params active : Bool) (accepted : Served)
      → (active ≡ true → IsHolder app payload)
      → IsGuarded (guarded service request_id failed refusal has_params active app accepted)
  unfolding IsGuarded acts_in
  guarded-IsGuarded service request_id failed refusal false active accepted held = inl refl
  guarded-IsGuarded service request_id failed refusal true false accepted held = inl refl
  guarded-IsGuarded service request_id failed refusal true true accepted held = inr (held refl)

  lock-IsGuarded :
      (service request_id : Bytes) (handled : Handle.Handled) (test : Bool)
      → IsGuarded (
          if test
          then ide_served service request_id handled app
          else replied service request_id (failed_text service) app)
  unfolding IsGuarded acts_in
  lock-IsGuarded service request_id handled true =
      inl (acts_in-report_ide handled.reports service request_id _)
  lock-IsGuarded service request_id handled false = inl refl

  property_set-IsGuarded :
      (request_id : Bytes) → IsGuarded (handle_property_set request_id payload app)
  unfolding IsGuarded acts_in handle_property_set
  property_set-IsGuarded request_id = inl refl

  module _ (moment : Moment) (request_id : Bytes) where
    connect-IsGuarded : IsGuarded (handle_connect_service moment request_id payload app)
    unfolding handle_connect_service
    connect-IsGuarded =
        let params = get_object payload (codes "params") 2048 in
        lock-IsGuarded (codes "requestConnect") request_id
          (handle_request_connect moment.had moment.now_ms (some (stored params)) 512
            app.ide_manager)
          (succeeded params)

    disconnect-IsGuarded : IsGuarded (handle_disconnect_service moment request_id payload app)
    unfolding handle_disconnect_service
    disconnect-IsGuarded =
        let params = get_object payload (codes "params") 1024 in
        lock-IsGuarded (codes "requestDisconnect") request_id
          (handle_disconnect moment.had (some (stored params)) 512 app.ide_manager)
          (succeeded params)

    heartbeat-IsGuarded : IsGuarded (handle_heartbeat_service moment request_id payload app)
    unfolding handle_heartbeat_service
    heartbeat-IsGuarded =
        let params = get_object payload (codes "params") 1024 in
        lock-IsGuarded (codes "ideHeartbeat") request_id
          (handle_heartbeat moment.had moment.now_ms (some (stored params)) 512 app.ide_manager)
          (succeeded params)

    deploy-IsGuarded : IsGuarded (handle_deploy_service moment request_id payload app)
    unfolding handle_deploy_service
    deploy-IsGuarded =
        guarded-IsGuarded _ request_id _ _ _ _ _ (is_active-IsHolder app payload 4096)

    start-IsGuarded : IsGuarded (handle_start_service moment request_id payload app)
    unfolding handle_start_service
    start-IsGuarded = guarded-IsGuarded _ request_id _ _ _ _ _ (is_active-IsHolder app payload 2048)

    serve-IsGuarded :
        (service_path : Bytes) → IsGuarded (serve moment service_path request_id payload app)
    unfolding serve
    serve-IsGuarded service_path =
        let other = λ (name : Bytes). IsGuarded-if (str_eq service_path name) in
        other (codes "property/set") _ _ (property_set-IsGuarded request_id) (
          other (codes "property/get") _ _ (replied-IsGuarded _ request_id (properties_text app)) (
            other (codes "requestConnect") _ _ connect-IsGuarded (
              other (codes "requestDisconnect") _ _ disconnect-IsGuarded (
                other (codes "ideHeartbeat") _ _ heartbeat-IsGuarded (
                  other (codes "deployProject") _ _ deploy-IsGuarded (
                    other (codes "startProject") _ _ start-IsGuarded
                      (replied-IsGuarded service_path request_id _)))))))

  idle-IsGuarded : IsGuarded (record { app = app; effects = [] })
  unfolding IsGuarded acts_in
  idle-IsGuarded = inl refl

  dispatch_service-IsGuarded :
      (moment : Moment) (identity : Identity) (topic : Bytes)
      → IsGuarded (dispatch_service identity moment topic payload app)
  unfolding dispatch_service
  dispatch_service-IsGuarded moment identity topic =
      let prefix = service_prefix identity in
      IsGuarded-if (starts_with prefix topic) _ (record { app = app; effects = [] })
        (serve-IsGuarded moment (or_keep (codes "0") (get_raw_value payload (codes "id") 64))
          (drop (length prefix) topic))
        idle-IsGuarded

-- Whatever message the application receives, it starts a deployment or launches a program only when an IDE
-- holds the device and the request gives that IDE's name as its "clientId".
pub dispatch_service-IsHolder :
    (identity : Identity) (moment : Moment) (topic payload : Bytes) (app : AppContext)
    → acts_in (dispatch_service identity moment topic payload app).effects ≡ true
    → IsHolder app payload
unfolding IsGuarded
dispatch_service-IsHolder identity moment topic payload app acts =
    elim (dispatch_service-IsGuarded app payload moment identity topic) [
      | inl idle ↦ absurd (cc)
      | inr held ↦ held
    ]

starts_with-get_topic :
    (front : Bytes) (shadow : DeviceShadowManager) (topic : Bytes)
    → str_eq topic (get_topic shadow) ≡ true
    → starts_with front (get_topic shadow) ≡ false
    → starts_with front topic ≡ false
starts_with-get_topic front shadow topic same apart =
    ap (starts_with front) ((str_eq_iff topic (get_topic shadow)).0 same) ∙ apart

-- A message that the shadow takes is none of the gateway's, whatever the two hold: the order in which the
-- application asks them makes no difference.
pub handle_message-apart :
    (topic payload : Bytes) (shadow : DeviceShadowManager) (gateway : GatewayManager)
    → Shadow.handle_message topic payload shadow ≢ none
    → Gateway.handle_message topic payload gateway ≡ none
handle_message-apart topic payload shadow gateway taken =
    elim (Bool-cases (str_eq topic (get_topic shadow))) [
      | inl same ↦
          handle_message-none topic payload gateway
            (starts_with-get_topic (codes "/sys/") shadow topic same
              (unfold get_topic starts_with in refl))
            (starts_with-get_topic (codes "/ext/session/") shadow topic same
              (unfold get_topic starts_with in refl))
      | inr other ↦
          let left : Shadow.handle_message topic payload shadow ≡ none =
            unfold Shadow.handle_message in ground (arith, other) in
          absurd (taken left)
    ]
