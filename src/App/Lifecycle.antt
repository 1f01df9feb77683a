-- ===== src/App/Lifecycle.antt =====
-- src/iot_ide_app.c: what the application opens and closes, and the order of its start.
use aliyun_iot_arm.Prelude.{
  ◌≡◌, Bool, true, false, ◌&&◌, Option, none, some, List, [], ◌∷◌, ◌++◌, arith, if◌then◌else◌,
}

-- What app_init opens: the mutex, the managers, and the simulator, which has nothing to close.
pub data Part : Type 0 where
  mqtt_lock ide_manager deploy_manager start_manager shadow_manager gateway_manager
        trace_simulator :
      Part

-- A part that is opened with success, and one that is closed.
pub data Event : Type 0 where
  opened : Part → Event
  closed : Part → Event

-- What is initialised at `init_failed`.
pub record Initialized : Type 0 where
  pub ide : Bool
  pub deploy : Bool
  pub start : Bool
  pub shadow : Bool
  pub gateway : Bool

abbrev pub closed_if : Bool → Part → List Event
closed_if true part = closed part ∷ []
closed_if false part = []

-- The code behind `init_failed`.
abbrev pub init_failed : Initialized → List Event
init_failed done =
    closed_if done.gateway gateway_manager
    ++ (closed_if done.shadow shadow_manager
        ++ (closed_if done.start start_manager
            ++ (closed_if done.deploy deploy_manager
                ++ (closed_if done.ide ide_manager ++ (closed mqtt_lock ∷ [])))))

-- Whether it answers 0, and what it opened and closed in turn.
abbrev pub Run : Type 0
Run = Bool × List Event

abbrev pub after : Event → Run → Run
after event run = (run.0, event ∷ run.1)

abbrev pub fails : Initialized → Run
fails done = (false, init_failed done)

abbrev pub initialized : (ide deploy start shadow gateway : Bool) → Initialized
initialized ide deploy start shadow gateway = record {
  ide = ide;
  deploy = deploy;
  start = start;
  shadow = shadow;
  gateway = gateway;
}

-- `app_init`, for a context and a path that are there; `opens` says whose initialisation answers 0,
-- `has_config` and `has_host` whether the configuration is read and names a host.
unfoldable pub init : (opens : Part → Bool) (has_config has_host : Bool) → Run
init opens has_config has_host =
    let at_trace : Run =
      if opens trace_simulator then (true, []) else fails (initialized true true true true true) in
    let at_gateway : Run =
      if opens gateway_manager
      then after (opened gateway_manager) at_trace
      else fails (initialized true true true true false) in
    let at_shadow : Run =
      if opens shadow_manager
      then after (opened shadow_manager) at_gateway
      else fails (initialized true true true false false) in
    let at_start : Run =
      if opens start_manager
      then after (opened start_manager) at_shadow
      else fails (initialized true true false false false) in
    let at_deploy : Run =
      if opens deploy_manager
      then after (opened deploy_manager) at_start
      else fails (initialized true false false false false) in
    let at_ide : Run =
      if opens ide_manager
      then after (opened ide_manager) at_deploy
      else (false, closed mqtt_lock ∷ []) in
    let at_config : Run =
      if has_config && has_host then at_ide else (false, closed mqtt_lock ∷ []) in
    if opens mqtt_lock then after (opened mqtt_lock) at_config else (false, [])

-- What `app_shutdown` closes behind its threads and its client.
unfoldable pub shutdown : List Event
shutdown =
    closed ide_manager
    ∷ closed deploy_manager
    ∷ closed start_manager
    ∷ closed gateway_manager
    ∷ closed shadow_manager
    ∷ closed mqtt_lock
    ∷ []

abbrev pub same_part : Part → Part → Bool
same_part mqtt_lock mqtt_lock = true
same_part ide_manager ide_manager = true
same_part deploy_manager deploy_manager = true
same_part start_manager start_manager = true
same_part shadow_manager shadow_manager = true
same_part gateway_manager gateway_manager = true
same_part trace_simulator trace_simulator = true
same_part part part' = false

-- A part over a sequence of events: open or not, and `none` where it is opened twice or closed unopened.
unfoldable pub track : Part → (is_open : Bool) → List Event → Option Bool
track part is_open [] = some is_open
track part is_open (opened part' ∷ events) =
    let open_rest = track part true events in
    let rest = track part is_open events in
    if same_part part part' then (if is_open then none else open_rest) else rest
track part is_open (closed part' ∷ events) =
    let closed_rest = track part false events in
    let rest = track part is_open events in
    if same_part part part' then (if is_open then closed_rest else none) else rest

abbrev pub needs_closing : Part → Bool
needs_closing trace_simulator = false
needs_closing part = true

-- What is open behind the initialisation, and behind the shutdown that follows where it succeeded.
track-init :
    (part : Part) (opens : Part → Bool) (has_config has_host : Bool)
    → track part false (init opens has_config has_host).1
      ≡ some ((init opens has_config has_host).0 && needs_closing part)
unfolding init track
track-init mqtt_lock opens has_config has_host = ground arith
track-init ide_manager opens has_config has_host = ground arith
track-init deploy_manager opens has_config has_host = ground arith
track-init start_manager opens has_config has_host = ground arith
track-init shadow_manager opens has_config has_host = ground arith
track-init gateway_manager opens has_config has_host = ground arith
track-init trace_simulator opens has_config has_host = ground arith

track-shutdown :
    (part : Part) (opens : Part → Bool) (has_config has_host : Bool)
    → let run = init opens has_config has_host in
      track part false (run.1 ++ (if run.0 then shutdown else [])) ≡ some false
unfolding init track shutdown
track-shutdown mqtt_lock opens has_config has_host = ground arith
track-shutdown ide_manager opens has_config has_host = ground arith
track-shutdown deploy_manager opens has_config has_host = ground arith
track-shutdown start_manager opens has_config has_host = ground arith
track-shutdown shadow_manager opens has_config has_host = ground arith
track-shutdown gateway_manager opens has_config has_host = ground arith
track-shutdown trace_simulator opens has_config has_host = ground arith

-- Whichever initialisations fail, each part that is opened is opened once, and what is not open is never
-- closed. When app_init fails nothing stays open; when it succeeds every part that has something to close is
-- open, and app_shutdown closes each of them.
pub init-shutdown :
    (part : Part) (opens : Part → Bool) (has_config has_host : Bool)
    → let run = init opens has_config has_host in
      (track part false run.1 ≡ some (run.0 && needs_closing part))
      × (track part false (run.1 ++ (if run.0 then shutdown else [])) ≡ some false)
init-shutdown part opens has_config has_host =
    (track-init part opens has_config has_host, track-shutdown part opens has_config has_host)
