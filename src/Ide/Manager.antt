-- ===== src/Ide/Manager.antt =====
-- src/ide_connection_manager.c: which IDE holds the device, and what is answered and reported.
use aliyun_iot_arm.Prelude.{
  ℕ, zero, suc, ◌+◌, ◌-◌, ◌*◌, ◌/◌, ◌%◌, ◌^◌, ◌≤◌, ◌<◌, ◌≡◌, refl, sym, ap, ◌∙◌, subst, subst₂, ◌≢◌,
  ◌↔◌, ◌⊎◌, inl, inr, Bool, true, false, not, ◌&&◌, ◌||◌, Option, none, some, List, [], ◌∷◌, ◌++◌,
  map, append-nil, append_assoc, arith, bit_and, bit_or, bit_xor, ltb, leb, ◌==◌, if◌then◌else◌,
  ltb→lt, lt→ltb, leb→le, ==_iff, Bool-cases, Option-cases, length, get_elem?, set, length-append,
  length-set, get_elem?-set_self, get_elem?-set_ne, get_or, take, drop, replicate, take-append-drop,
  All, drop-append, take-append, take_all, length-take, length-drop, length-replicate, length-map,
  ℤ, pos, negsuc, inc, dec, is_zero, is_neg, eq_ℤ, sub_ℕ, neg, eq_ℤ→eq, eq_ℤ_refl, Bytes, codes,
  starts_with, str_eq, strstr, isspace, snprintf, str_eq_iff, str_eq_refl, starts_with-append,
}
use aliyun_iot_arm.Json.Copy.{
  Copied, copied, cut, rejected, succeeded, stored, or_keep, escape_string,
}
use aliyun_iot_arm.Json.Get.{get_string, get_raw_value}
pub mod Params
pub mod Handle
pub mod Lock
pub mod Answer

-- `IdeConnectionManager` without its locks, its condition and its thread.
pub record Manager : Type 0 where
  pub connected : Bool
  pub current_client_id : Bytes
  pub current_client_info : Bytes
  pub last_heartbeat_ms : ℕ

-- `HEARTBEAT_TIMEOUT_MS`
abbrev pub heartbeat_timeout_ms : ℕ
heartbeat_timeout_ms = 2 * 60 * 1000

abbrev pub client_id_size : ℕ
client_id_size = 128

abbrev pub client_info_size : ℕ
client_info_size = 512

abbrev pub message_size : ℕ
message_size = 256

-- `now_ms - last_heartbeat_ms > HEARTBEAT_TIMEOUT_MS` on signed numbers.
abbrev pub timed_out : ℕ → Manager → Bool
timed_out now_ms m = ltb (m.last_heartbeat_ms + heartbeat_timeout_ms) now_ms

-- `ide_unlock_internal`
unfoldable pub unlock_internal : Manager → Manager
unlock_internal m = record {
  connected = false;
  current_client_id = [];
  current_client_info = [];
  last_heartbeat_ms = 0;
}

-- What `client_id` holds behind the call of `json_get_string`, whose result is dropped.
unfoldable pub client_id_of : Bytes → Bytes
unfolding get_string
client_id_of params_json =
    or_keep (codes "unknown") (get_string params_json (codes "clientId") client_id_size)

unfoldable pub client_info_of : Bytes → Bytes
unfolding get_raw_value
client_info_of params_json =
    or_keep [] (get_raw_value params_json (codes "clientInfo") client_info_size)

-- What a handler reports to the cloud behind the lock.
pub data Report : Type 0 where
  full_state : (connected : Bool) (client_id client_info : Bytes) (heartbeat_ms : ℕ) → Report
  heartbeat_ms : ℕ → Report

-- What a handler leaves: the lock, its reports, and the two parts of its answer.
pub record Reply : Type 0 where
  pub manager : Manager
  pub reports : List Report
  pub success : Bool
  pub message : Bytes

-- The lock goes to the IDE of the request.
abbrev pub taken_by : (client_id client_info : Bytes) (now_ms : ℕ) → Manager
taken_by client_id client_info now_ms = record {
  connected = true;
  current_client_id = snprintf client_id_size client_id;
  current_client_info = snprintf client_info_size client_info;
  last_heartbeat_ms = now_ms;
}

abbrev pub message_of : Bytes → Bytes
message_of text = snprintf message_size text

-- The critical section of `ide_connection_manager_handle_request_connect`, with the report behind it.
unfoldable pub request_connect : (client_id client_info : Bytes) (now_ms : ℕ) → Manager → Reply
request_connect client_id client_info now_ms m =
    let accepted = full_state true client_id client_info now_ms ∷ [] in
    if not m.connected
    then record {
      manager = taken_by client_id client_info now_ms;
      reports = accepted;
      success = true;
      message = message_of (codes "connect accepted");
    }
    else (if str_eq m.current_client_id client_id
        then record {
          manager = record m {
            last_heartbeat_ms = now_ms;
            current_client_info = snprintf client_info_size client_info;
          };
          reports = accepted;
          success = true;
          message = message_of (codes "reconnect accepted");
        }
        else (if timed_out now_ms m
            then record {
              manager = taken_by client_id client_info now_ms;
              reports = accepted;
              success = true;
              message = message_of (codes "previous IDE heartbeat timed out, lock transferred");
            }
            else record {
              manager = m;
              reports = [];
              success = false;
              message = message_of (codes "device is occupied by " ++ m.current_client_id);
            }))

-- That of `ide_connection_manager_handle_disconnect`.
unfoldable pub disconnect : (client_id : Bytes) → Manager → Reply
unfolding unlock_internal
disconnect client_id m =
    if not m.connected
    then record {
      manager = m;
      reports = [];
      success = true;
      message = message_of (codes "no active IDE connection");
    }
    else (if not (str_eq m.current_client_id client_id)
        then record {
          manager = m;
          reports = [];
          success = false;
          message =
              message_of (codes "disconnect rejected, active client is " ++ m.current_client_id);
        }
        else record {
          manager = unlock_internal m;
          reports = full_state false [] [] 0 ∷ [];
          success = true;
          message = message_of (codes "disconnect accepted");
        })

-- That of `ide_connection_manager_handle_heartbeat`.
unfoldable pub heartbeat : (client_id : Bytes) (now_ms : ℕ) → Manager → Reply
heartbeat client_id now_ms m =
    if not m.connected || not (str_eq m.current_client_id client_id)
    then record {
      manager = m;
      reports = [];
      success = false;
      message = message_of (codes "heartbeat rejected, active client is " ++ m.current_client_id);
    }
    else record {
      manager = record m { last_heartbeat_ms = now_ms };
      reports = heartbeat_ms now_ms ∷ [];
      success = true;
      message = message_of (codes "heartbeat updated");
    }

-- One round of `ide_heartbeat_thread` behind its wait.
unfoldable pub heartbeat_check : (now_ms : ℕ) → Manager → Manager × List Report
unfolding unlock_internal
heartbeat_check now_ms m =
    if m.connected && timed_out now_ms m
    then (unlock_internal m, full_state false [] [] 0 ∷ [])
    else (m, [])

-- `ide_connection_manager_clear_cloud_state`
unfoldable pub clear_cloud_state : Manager → Manager × List Report
unfolding unlock_internal
clear_cloud_state m = (unlock_internal m, full_state false [] [] 0 ∷ [])

-- `ide_connection_manager_is_connected_client`
unfoldable pub is_connected_client : Manager → Bytes → Bool
is_connected_client m [] = false
is_connected_client m (c ∷ client_id) = m.connected && str_eq m.current_client_id (c ∷ client_id)

-- `ide_connection_manager_get_snapshot`, with no pointer null.
unfoldable pub get_snapshot : Manager → (client_id_size : ℕ) → Bool × Bytes × ℕ
get_snapshot m size = (m.connected, snprintf size m.current_client_id, m.last_heartbeat_ms)
