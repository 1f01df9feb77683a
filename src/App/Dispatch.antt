-- ===== src/App/Dispatch.antt =====
-- src/iot_ide_app.c: which component a message goes to.
use aliyun_iot_arm.Prelude.{
  ℕ, zero, suc, ◌+◌, ◌-◌, ◌*◌, ◌/◌, ◌%◌, ◌^◌, ◌≤◌, ◌<◌, ◌≡◌, refl, sym, ap, ◌∙◌, subst, subst₂, ◌≢◌,
  ◌↔◌, ◌⊎◌, inl, inr, Bool, true, false, not, ◌&&◌, ◌||◌, Option, none, some, List, [], ◌∷◌, ◌++◌,
  map, append-nil, append_assoc, arith, bit_and, bit_or, bit_xor, ltb, leb, ◌==◌, if◌then◌else◌,
  ltb→lt, lt→ltb, leb→le, ==_iff, Bool-cases, Option-cases, length, get_elem?, set, length-append,
  length-set, get_elem?-set_self, get_elem?-set_ne, get_or, take, drop, replicate, take-append-drop,
  All, drop-append, take-append, take_all, length-take, length-drop, length-replicate, length-map,
  ℤ, pos, negsuc, inc, dec, is_zero, is_neg, eq_ℤ, sub_ℕ, neg, eq_ℤ→eq, eq_ℤ_refl, Bytes, codes,
  starts_with, str_eq, strstr, isspace, snprintf, decimal, atoi, str_eq_iff, str_eq_refl,
  starts_with-append, concat, decimal_int,
}
use aliyun_iot_arm.Json.Copy.{Copied, copied, cut, rejected, succeeded, stored, or_keep}
use aliyun_iot_arm.Json.Get.{get_raw_value}
use aliyun_iot_arm.App.Gateway.{GatewayManager}
use aliyun_iot_arm.App.Gateway.Requests.{Request}
use aliyun_iot_arm.App.Gateway.Services as Gateway
use aliyun_iot_arm.App.Gateway.Handle
use aliyun_iot_arm.App.Shadow as Shadow
use aliyun_iot_arm.App.Publish.{Identity, own_topic}
use aliyun_iot_arm.App.Services.{
  AppContext, Served, Effect, Moment, replied, reply, properties_text, handle_property_set,
  handle_connect_service, handle_disconnect_service, handle_heartbeat_service,
  handle_deploy_service, handle_start_service,
}
pub mod Guarded
pub mod Answered
pub mod Once

-- The services by their names, and the answer to another name.
unfoldable pub serve : Moment → (service_path request_id payload : Bytes) → AppContext → Served
unfolding str_eq handle_property_set properties_text handle_connect_service
    handle_disconnect_service handle_heartbeat_service handle_deploy_service handle_start_service
serve moment service_path request_id payload app =
    let unknown =
      replied service_path request_id (codes "{\"success\":0,\"message\":\"unknown service\"}")
        app in
    if str_eq service_path (codes "property/set")
    then handle_property_set request_id payload app
    else (if str_eq service_path (codes "property/get")
        then replied (codes "property/get") request_id (properties_text app) app
        else (if str_eq service_path (codes "requestConnect")
            then handle_connect_service moment request_id payload app
            else (if str_eq service_path (codes "requestDisconnect")
                then handle_disconnect_service moment request_id payload app
                else (if str_eq service_path (codes "ideHeartbeat")
                    then handle_heartbeat_service moment request_id payload app
                    else (if str_eq service_path (codes "deployProject")
                        then handle_deploy_service moment request_id payload app
                        else (if str_eq service_path (codes "startProject")
                            then handle_start_service moment request_id payload app
                            else unknown))))))

abbrev pub service_prefix : Identity → Bytes
service_prefix identity = own_topic identity (codes "/sys/") (codes "/thing/service/")

-- `app_dispatch_service`
unfoldable pub dispatch_service : Identity → Moment → (topic payload : Bytes) → AppContext → Served
unfolding starts_with get_raw_value serve
dispatch_service identity moment topic payload app =
    let prefix = service_prefix identity in
    let request_id = or_keep (codes "0") (get_raw_value payload (codes "id") 64) in
    if starts_with prefix topic
    then serve moment (drop (length prefix) topic) request_id payload app
    else record { app = app; effects = [] }

-- The bytes of a packet as a C string, up to the first NUL.
unfoldable pub c_string : Bytes → Bytes
c_string [] = []
c_string (c ∷ bytes) = if c == 0 then [] else c ∷ c_string bytes

-- The application with its gateway, and what a message makes each component do.
pub record State : Type 0 where
  pub app : AppContext
  pub gateway : GatewayManager

pub record Outcome : Type 0 where
  pub state : State
  pub shadow_effects : List Shadow.Effect
  pub requests : List Request
  pub effects : List Effect

abbrev pub by_shadow : State → Shadow.Handled → Outcome
by_shadow state handled = record {
  state = record state { app = record state.app { shadow_manager = handled.manager } };
  shadow_effects = handled.effects;
  requests = [];
  effects = [];
}

abbrev pub by_service : State → Served → Outcome
by_service state served = record {
  state = record state { app = served.app };
  shadow_effects = [];
  requests = [];
  effects = served.effects;
}

-- The message that reaches neither the shadow nor the gateway goes to the services.
abbrev pub behind_gateway : State → Option Handle.Handled → Served → Outcome
behind_gateway state none served = by_service state served
behind_gateway state (some handled) served = record {
  state = record state { gateway = handled.manager };
  shadow_effects = [];
  requests = handled.requests;
  effects = [];
}

abbrev pub behind_shadow : State → Option Shadow.Handled → Outcome → Outcome
behind_shadow state none other = other
behind_shadow state (some handled) other = by_shadow state handled

-- The case AIOT_MQTTRECV_PUB of `app_mqtt_recv_handler`, with memory for the two texts.
unfoldable pub recv_pub : Identity → Moment → (pub_topic pub_payload : Bytes) → State → Outcome
unfolding c_string Shadow.handle_message Gateway.handle_message dispatch_service
recv_pub identity moment pub_topic pub_payload state =
    let topic = c_string pub_topic in
    let payload = c_string pub_payload in
    let served = dispatch_service identity moment topic payload state.app in
    behind_shadow state (Shadow.handle_message topic payload state.app.shadow_manager)
      (behind_gateway state (Gateway.handle_message topic payload state.gateway) served)
