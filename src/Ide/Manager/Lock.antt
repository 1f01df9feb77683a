-- ===== src/Ide/Manager/Lock.antt =====
-- src/ide_connection_manager.c: who holds the lock, and how it passes on.
use aliyun_iot_arm.Prelude.{
  ℕ, ◌+◌, ◌<◌, ◌≡◌, ◌≢◌, ◌⊎◌, inl, inr, Bool, true, Option, none, some, List, [], ◌∷◌, arith,
  Bool-cases, length, take, length-take, Bytes, str_eq, str_eq_iff,
}
use aliyun_iot_arm.Ide.Manager
use aliyun_iot_arm.Ide.Manager.{
  Manager, unlock_internal, client_id_of, client_info_of, client_id_size, client_info_size,
  timed_out, heartbeat_timeout_ms, is_connected_client,
}
use aliyun_iot_arm.Ide.Manager.Handle.{handle_request_connect, handle_disconnect, handle_heartbeat}

-- The critical sections of the manager: each runs under its mutex, so the threads of the program
-- interleave them as a sequence.
pub data Op : Type 0 where
  on_request_connect :
      (had : Bool) (now_ms : ℕ) (params_json : Option Bytes) (response_size : ℕ) → Op
  on_disconnect : (had : Bool) (params_json : Option Bytes) (response_size : ℕ) → Op
  on_heartbeat : (had : Bool) (now_ms : ℕ) (params_json : Option Bytes) (response_size : ℕ) → Op
  on_check : (now_ms : ℕ) → Op
  on_clear : Op

unfoldable pub step : Op → Manager → Manager
unfolding handle_request_connect handle_disconnect handle_heartbeat Manager.heartbeat_check
    Manager.clear_cloud_state
step (on_request_connect had now_ms params size) m =
    (handle_request_connect had now_ms params size m).manager
step (on_disconnect had params size) m = (handle_disconnect had params size m).manager
step (on_heartbeat had now_ms params size) m = (handle_heartbeat had now_ms params size m).manager
step (on_check now_ms) m = let (m', reports) = Manager.heartbeat_check now_ms m in m'
step on_clear m = let (m', reports) = Manager.clear_cloud_state m in m'

unfoldable pub run : List Op → Manager → Manager
unfolding step
run [] m = m
run (op ∷ ops) m = run ops (step op m)

abbrev pub Held : Bytes → Manager → Type 0
Held client_id m = (m.connected ≡ true) × (m.current_client_id ≡ client_id)

-- What may take the lock from its holder: a request of another IDE, or the check of the thread,
-- after the timeout; a disconnect of the holder; the clearing of all state.
abbrev pub Releases : Op → Manager → Type 0
Releases (on_request_connect had now_ms none size) m = ⊥
Releases (on_request_connect had now_ms (some params) size) m =
    (client_id_of params ≢ m.current_client_id)
    × (m.last_heartbeat_ms + heartbeat_timeout_ms < now_ms)
Releases (on_disconnect had none size) m = ⊥
Releases (on_disconnect had (some params) size) m = client_id_of params ≡ m.current_client_id
Releases (on_heartbeat had now_ms params size) m = ⊥
Releases (on_check now_ms) m = m.last_heartbeat_ms + heartbeat_timeout_ms < now_ms
Releases on_clear m = Unit {0}

request_keeps :
    (requester info : Bytes) (now_ms : ℕ) (m : Manager) (client_id : Bytes)
    → Held client_id m
    → Held client_id (Manager.request_connect requester info now_ms m).manager
      ⊎ ((requester ≢ m.current_client_id) × (m.last_heartbeat_ms + heartbeat_timeout_ms < now_ms))
unfolding Manager.request_connect
request_keeps requester info now_ms m client_id h =
    elim (Bool-cases (str_eq m.current_client_id requester)) [
      | inl same ↦ inl (ground arith)
      | inr other ↦ elim (Bool-cases (timed_out now_ms m)) [
        | inl late ↦
            inr ((λ e. ground (arith, str_eq_iff m.current_client_id requester)), ground arith)
        | inr early ↦ inl (ground arith)
      ]
    ]

disconnect_keeps :
    (requester : Bytes) (m : Manager) (client_id : Bytes)
    → Held client_id m
    → Held client_id (Manager.disconnect requester m).manager ⊎ (requester ≡ m.current_client_id)
unfolding Manager.disconnect
disconnect_keeps requester m client_id h = ground (arith, str_eq_iff m.current_client_id requester)

heartbeat_keeps :
    (requester : Bytes) (now_ms : ℕ) (m : Manager) (client_id : Bytes)
    → Held client_id m
    → Held client_id (Manager.heartbeat requester now_ms m).manager ⊎ ⊥
unfolding Manager.heartbeat
heartbeat_keeps requester now_ms m client_id h = ground arith

check_keeps :
    (now_ms : ℕ) (m : Manager) (client_id : Bytes)
    → Held client_id m
    → Held client_id (step (on_check now_ms) m)
      ⊎ (m.last_heartbeat_ms + heartbeat_timeout_ms < now_ms)
unfolding step Manager.heartbeat_check
check_keeps now_ms m client_id h = ground arith

-- The lock stays with its holder through any operation but those that `Releases` names.
pub Held-step :
    (op : Op) (m : Manager) (client_id : Bytes)
    → Held client_id m
    → Held client_id (step op m) ⊎ Releases op m
unfolding step
Held-step (on_request_connect had now_ms none size) m client_id h = inl h
Held-step (on_request_connect had now_ms (some params) size) m client_id h =
    request_keeps (client_id_of params) (client_info_of params) now_ms m client_id h
Held-step (on_disconnect had none size) m client_id h = inl h
Held-step (on_disconnect had (some params) size) m client_id h =
    disconnect_keeps (client_id_of params) m client_id h
Held-step (on_heartbeat had now_ms none size) m client_id h = inl h
Held-step (on_heartbeat had now_ms (some params) size) m client_id h =
    heartbeat_keeps (client_id_of params) now_ms m client_id h
Held-step (on_check now_ms) m client_id h = check_keeps now_ms m client_id h
Held-step on_clear m client_id h = inr tt

-- No operation of the trace takes the lock from its holder.
abbrev pub Undisturbed : List Op → Manager → Type 0
Undisturbed [] m = Unit {0}
Undisturbed (op ∷ ops) m = (Releases op m → ⊥) × Undisturbed ops (step op m)

-- An IDE that holds the lock has it at the end of every trace of operations, however the threads
-- interleave, in which none of those that `Releases` names occurs.
pub Held-run :
    (ops : List Op) (m : Manager) (client_id : Bytes)
    → Held client_id m
    → Undisturbed ops m
    → Held client_id (run ops m)
unfolding run
Held-run [] m client_id h calm = h
Held-run (op ∷ ops) m client_id h (calm, calms) = elim (Held-step op m client_id h) [
  | inl kept ↦ Held-run ops (step op m) client_id kept calms
  | inr released ↦ absurd (calm released)
]

-- The texts fit their buffers with the NUL behind them, and a free lock has no holder.
abbrev pub IsValid : Manager → Type 0
IsValid m =
    (length m.current_client_id < client_id_size)
    × (length m.current_client_info < client_info_size)
    × ((m.connected ≡ true) ⊎ ((m.current_client_id ≡ []) × (m.last_heartbeat_ms ≡ 0)))

request-IsValid :
    (requester info : Bytes) (now_ms : ℕ) (m : Manager)
    → IsValid m
    → IsValid (Manager.request_connect requester info now_ms m).manager
unfolding Manager.request_connect
request-IsValid requester info now_ms m v =
    let id_fits : length (take 127 requester) < 128 = omega (arith, length-take 127 requester) in
    let info_fits : length (take 511 info) < 512 = omega (arith, length-take 511 info) in
    elim (Bool-cases m.connected) [
      | inl held ↦ elim (Bool-cases (str_eq m.current_client_id requester)) [
        | inl same ↦ ground arith
        | inr other ↦ elim (Bool-cases (timed_out now_ms m)) [
          | inl late ↦ ground arith
          | inr early ↦ ground arith
        ]
      ]
      | inr free ↦ ground arith
    ]

-- Every operation keeps the texts of the lock within their buffers, and a free lock without a holder.
pub step-IsValid : (op : Op) (m : Manager) → IsValid m → IsValid (step op m)
unfolding step Manager.disconnect Manager.heartbeat Manager.heartbeat_check
    Manager.clear_cloud_state unlock_internal
step-IsValid (on_request_connect had now_ms none size) m v = v
step-IsValid (on_request_connect had now_ms (some params) size) m v =
    request-IsValid (client_id_of params) (client_info_of params) now_ms m v
step-IsValid (on_disconnect had none size) m v = v
step-IsValid (on_disconnect had (some params) size) m v = ground arith
step-IsValid (on_heartbeat had now_ms none size) m v = v
step-IsValid (on_heartbeat had now_ms (some params) size) m v = ground arith
step-IsValid (on_check now_ms) m v = ground arith
step-IsValid on_clear m v = ground arith
