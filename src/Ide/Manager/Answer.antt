-- ===== src/Ide/Manager/Answer.antt =====
-- src/ide_connection_manager.c: what the answers to the requests say.
use aliyun_iot_arm.Prelude.{
  ℕ, ◌+◌, ◌*◌, ◌<◌, ◌≡◌, refl, Bool, true, false, some, [], arith, length, length-append, Bytes,
  codes, starts_with, strstr,
}
use aliyun_iot_arm.Json.Copy.{copied}
use aliyun_iot_arm.Json.Copy.Escape.{escaped, escape_string_fits}
use aliyun_iot_arm.Json.Get.{get_string}
use aliyun_iot_arm.Json.Get.Bounds.{get_string-Fits, or_keep-Fits}
use aliyun_iot_arm.Json.Get.Member.{get_string-escaped}
use aliyun_iot_arm.Ide.Manager.{Manager, client_id_of, client_id_size}
use aliyun_iot_arm.Ide.Manager.Params.{build_result_json, escape_alloc, result_text}

-- The identifier of a request has at most 127 bytes, whatever the message holds.
pub client_id_of-length : (params_json : Bytes) → length (client_id_of params_json) < client_id_size
unfolding client_id_of
client_id_of-length params_json =
    or_keep-Fits (codes "unknown") client_id_size _ (omega arith)
      (get_string-Fits params_json (codes "clientId") client_id_size)

escape_alloc-had : (text : Bytes) → escape_alloc true text ≡ some (escaped text)
unfolding escape_alloc
escape_alloc-had text =
    rw (escape_string_fits text (length text * 2 + 32) (omega arith), escape_alloc) refl

result_text-length :
    (success : Bool) (text : Bytes) → length (result_text success text) ≡ 26 + length text
result_text-length success text = omega (arith, length-append text (codes "\"}"))

result_text-message :
    (success : Bool) (message : Bytes) (out_size : ℕ)
    → length message < out_size
    → get_string (result_text success (escaped message)) (codes "message") out_size ≡ copied message
result_text-message true message out_size room =
    get_string-escaped (codes "{\"success\":1,") (codes "message") [] [] message (codes "}")
      out_size (omega arith) (tt, tt) (unfold strstr starts_with in refl) room
result_text-message false message out_size room =
    get_string-escaped (codes "{\"success\":0,") (codes "message") [] [] message (codes "}")
      out_size (omega arith) (tt, tt) (unfold strstr starts_with in refl) room

-- With memory for it, the answer is written in full to a buffer with room for the escaped message
-- and the 26 bytes about it, and `json_get_string` reads the message back from it unchanged.
pub build_result_json-message :
    (success : Bool) (message : Bytes) (response_size out_size : ℕ)
    → 26 + length (escaped message) < response_size
    → length message < out_size
    → (build_result_json true success message response_size
        ≡ copied (result_text success (escaped message)))
      × (get_string (result_text success (escaped message)) (codes "message") out_size
          ≡ copied message)
unfolding build_result_json
build_result_json-message success message response_size out_size fits room = (
  rw (escape_alloc-had message, build_result_json)
      (ground (arith, result_text-length success (escaped message))),
  result_text-message success message out_size room,
)
