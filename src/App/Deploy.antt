-- ===== src/App/Deploy.antt =====
-- src/deploy_manager.c: the task of a deployment, its names and its texts.
use aliyun_iot_arm.Prelude.{
  ℕ, zero, suc, ◌+◌, ◌-◌, ◌*◌, ◌/◌, ◌%◌, ◌^◌, ◌≤◌, ◌<◌, ◌≡◌, refl, sym, ap, ◌∙◌, subst, subst₂, ◌≢◌,
  ◌↔◌, ◌⊎◌, inl, inr, Bool, true, false, not, ◌&&◌, ◌||◌, Option, none, some, List, [], ◌∷◌, ◌++◌,
  map, append-nil, append_assoc, arith, bit_and, bit_or, bit_xor, ltb, leb, ◌==◌, if◌then◌else◌,
  ltb→lt, lt→ltb, leb→le, ==_iff, Bool-cases, Option-cases, length, get_elem?, set, length-append,
  length-set, get_elem?-set_self, get_elem?-set_ne, get_or, take, drop, replicate, take-append-drop,
  All, drop-append, take-append, take_all, length-take, length-drop, length-replicate, length-map,
  ℤ, pos, negsuc, inc, dec, is_zero, is_neg, eq_ℤ, sub_ℕ, neg, eq_ℤ→eq, eq_ℤ_refl, Bytes, codes,
  starts_with, str_eq, strstr, isspace, snprintf, decimal, atoi, str_eq_iff, str_eq_refl,
  starts_with-append, concat, decimal_int,
}
use aliyun_iot_arm.Json.Copy.{Copied, copied, cut, rejected, succeeded, stored, or_keep}
use aliyun_iot_arm.Json.Get.{get_string}
use aliyun_iot_arm.Ide.Manager.Params.{escape_alloc, print_into}
pub mod Worker
pub mod Order
pub mod Success
pub mod Outcome
pub mod Quoted
pub mod Turns
pub mod Names

-- `DeployTask` without the manager.
pub record DeployTask : Type 0 where
  pub project_name : Bytes
  pub download_url : Bytes
  pub deploy_path : Bytes
  pub deploy_command : Bytes

abbrev pub name_size : ℕ
name_size = 128

-- `PATH_MAX` of <limits.h>
abbrev pub path_max : ℕ
path_max = 4096

-- The task that `deploy_manager_handle_deploy` makes of the parameters.
unfoldable pub task_of : (params_json : Bytes) → DeployTask
unfolding get_string
task_of params_json = record {
  project_name = or_keep (codes "project") (get_string params_json (codes "projectName") name_size);
  download_url = or_keep [] (get_string params_json (codes "downloadUrl") 1024);
  deploy_path = or_keep (codes "/tmp/deploy") (get_string params_json (codes "deployPath") 512);
  deploy_command = or_keep [] (get_string params_json (codes "deployCommand") 1024);
}

-- `deploy_build_result_json`; `had` answers for its two allocations.
unfoldable pub deploy_build_result_json :
    (had : ℕ → Bool) (success : Bool) (message deploy_log : Bytes) (response_size : ℕ) → Copied
unfolding escape_alloc
deploy_build_result_json had success message deploy_log response_size =
    let escaped_log = escape_alloc (had 1) deploy_log in
    if response_size == 0 then rejected else elim (escape_alloc (had 0) message) [
      | none ↦ rejected
      | some escaped_message ↦ elim escaped_log [
        | none ↦ rejected
        | some log_text ↦ print_into response_size (
            concat (
              codes "{\"success\":"
              ∷ (if success then codes "1" else codes "0")
              ∷ codes ",\"message\":\""
              ∷ escaped_message
              ∷ codes "\",\"deployLog\":\""
              ∷ log_text
              ∷ codes "\"}"
              ∷ []))
      ]
    ]

-- What `deploy_report_status` says.
pub record DeployStatus : Type 0 where
  pub success : Bool
  pub message : Bytes
  pub deploy_log : Bytes
  pub project_name : Bytes
  pub deploy_path : Bytes

-- An allocation that fails ends the call.
infixl 20 ◌>>=◌
abbrev ◌>>=◌ : Option Bytes → (Bytes → Option Bytes) → Option Bytes
none >>= f = none
some x >>= f = f x

-- The text that `deploy_report_status` posts, a text in a text; `none` where it posts nothing. `had`
-- answers for its five allocations, and both builders have the memory they ask for.
unfoldable pub status_params : (had : ℕ → Bool) (now_ms : ℕ) → DeployStatus → Option Bytes
unfolding escape_alloc decimal
status_params had now_ms report = do
  escaped_message ← escape_alloc (had 0) report.message
  escaped_log ← escape_alloc (had 1) report.deploy_log
  escaped_project ← escape_alloc (had 2) report.project_name
  escaped_path ← escape_alloc (had 3) report.deploy_path
  escaped_status ← escape_alloc (had 4) (
      concat (
        codes "{\"success\":"
        ∷ (if report.success then codes "true" else codes "false")
        ∷ codes ",\"message\":\""
        ∷ escaped_message
        ∷ codes "\",\"deployLog\":\""
        ∷ escaped_log
        ∷ codes "\",\"timestamp\":"
        ∷ decimal now_ms
        ∷ codes ",\"projectName\":\""
        ∷ escaped_project
        ∷ codes "\",\"deployPath\":\""
        ∷ escaped_path
        ∷ codes "\"}"
        ∷ []))
  some (concat (codes "{\"deployStatus\":\"" ∷ escaped_status ∷ codes "\"}" ∷ []))

-- The characters that a sanitized name keeps.
abbrev pub is_safe : ℕ → Bool
is_safe c =
    (leb b'a' c && leb c b'z')
    || ((leb b'A' c && leb c b'Z') || ((leb b'0' c && leb c b'9') || (c == b'-' || c == b'_')))

-- The loop of `deploy_sanitize_name`; `room` is `output_size - idx - 1`.
unfoldable pub sanitize_loop : (room : ℕ) → Bytes → Bytes
sanitize_loop zero input = []
sanitize_loop (suc room) [] = []
sanitize_loop (suc room) (ch ∷ input) = (if is_safe ch then ch else b'_') ∷ sanitize_loop room input

-- `deploy_sanitize_name`, for an `output` of a size that is not 0.
unfoldable pub sanitize_name : (input : Bytes) (output_size : ℕ) → Bytes
unfolding sanitize_loop
sanitize_name [] output_size = snprintf output_size (codes "project")
sanitize_name (ch ∷ input) output_size = elim (sanitize_loop (output_size - 1) (ch ∷ input)) [
  | [] ↦ snprintf output_size (codes "project")
  | first ∷ rest ↦ first ∷ rest
]
