-- ===== src/Ide/Manager/Params.antt =====
-- src/ide_connection_manager.c: the texts of the answers and of the reports.
use aliyun_iot_arm.Prelude.{
  ℕ, ◌+◌, ◌*◌, Bool, true, false, ◌&&◌, ◌||◌, Option, none, some, [], ◌∷◌, ◌++◌, ltb, ◌==◌,
  if◌then◌else◌, length, Bytes, codes, snprintf, decimal,
}
use aliyun_iot_arm.Json.Copy.{Copied, copied, cut, rejected, succeeded, stored, escape_string}
use aliyun_iot_arm.Ide.Manager.{Report, full_state, heartbeat_ms}

-- `ide_escape_alloc`; `had` says whether the memory is.
unfoldable pub escape_alloc : (had : Bool) → Bytes → Option Bytes
unfolding escape_string
escape_alloc had text =
    let escaped = escape_string text (length text * 2 + 32) in
    if had && succeeded escaped then some (stored escaped) else none

-- What `snprintf` does to a buffer whose caller asks whether all fits.
abbrev pub print_into : ℕ → Bytes → Copied
print_into size text = if ltb (length text) size then copied text else cut (snprintf size text)

-- The format of `ide_build_result_json`.
abbrev pub result_text : (success : Bool) (escaped : Bytes) → Bytes
result_text success escaped =
    codes "{\"success\":"
    ++ ((if success then 49 else 48) ∷ (codes ",\"message\":\"" ++ (escaped ++ codes "\"}")))

-- `ide_build_result_json`
unfoldable pub build_result_json :
    (had success : Bool) (message : Bytes) (response_size : ℕ) → Copied
unfolding escape_alloc
build_result_json had success message response_size = elim (escape_alloc had message) [
  | none ↦ rejected
  | some escaped ↦
      if response_size == 0
      then rejected
      else print_into response_size (result_text success escaped)
]

-- The text of an `IDEInfo`, in its buffer; an object or an array goes in as it is.
unfoldable pub ide_info : (escaped_client_id client_info : Bytes) (heartbeat_ms : ℕ) → Bytes
unfolding decimal
ide_info escaped_client_id client_info now_ms = snprintf 2048 (
    codes "{\"clientId\":\""
    ++ (escaped_client_id
        ++ (codes "\",\"clientInfo\":"
            ++ (client_info ++ (codes ",\"connectTime\":" ++ (decimal now_ms ++ codes "}"))))))

abbrev pub is_compound : Bytes → Bool
is_compound [] = false
is_compound (c ∷ rest) = c == b'{' || c == b'['

-- An allocation that fails ends the call.
infixl 20 ◌>>=◌
abbrev ◌>>=◌ : Option Bytes → (Bytes → Option Bytes) → Option Bytes
none >>= f = none
some x >>= f = f x

-- The text that `ide_report_full_state` or `ide_report_heartbeat` posts, if memory lets it; `had`
-- answers for each of the allocations of the call in turn.
unfoldable pub report_params : (had : ℕ → Bool) → Report → Option Bytes
unfolding escape_alloc ide_info decimal
report_params had (heartbeat_ms now_ms) =
    some (snprintf 256 (codes "{\"IDEHeartbeat\":\"" ++ (decimal now_ms ++ codes "\"}")))
report_params had (full_state false client_id client_info now_ms) =
    some (snprintf 4096 (codes "{\"hasIDEConnected\":0,\"IDEInfo\":\"\",\"IDEHeartbeat\":\"0\"}"))
report_params had (full_state true client_id client_info now_ms) =
    let connected_params = λ (info : Bytes). snprintf 4096 (
      codes "{\"hasIDEConnected\":1,\"IDEInfo\":\""
      ++ (info ++ (codes "\",\"IDEHeartbeat\":\"" ++ (decimal now_ms ++ codes "\"}")))) in
    elim (is_compound client_info) [
      | true ↦ do
        escaped_client_id ← escape_alloc (had 0) client_id
        info ← escape_alloc (had 1) (ide_info escaped_client_id client_info now_ms)
        some (connected_params info)
      | false ↦ do
        escaped_client_id ← escape_alloc (had 0) client_id
        escaped_client_info ← escape_alloc (had 1) client_info
        info ←
            escape_alloc (had 2)
              (ide_info escaped_client_id (b'"' ∷ (escaped_client_info ++ (b'"' ∷ []))) now_ms)
        some (connected_params info)
    ]
