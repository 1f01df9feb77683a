-- ===== src/Json/Tests.antt =====
-- Runs of src/json_utils.c on small texts.
use aliyun_iot_arm.Prelude.{
  ◌≡◌, refl, [], some, ◌∷◌, ◌++◌, arith, Bytes, codes, starts_with, strstr, isspace,
}
use aliyun_iot_arm.Json.Copy.{escape_string, escape_loop, copied}
use aliyun_iot_arm.Json.Copy.Bounds.{Fits}
use aliyun_iot_arm.Json.Get.{get_string}
use aliyun_iot_arm.Json.Get.Member.{member, get_string-member}
use aliyun_iot_arm.Json.Array.{array_size}
use aliyun_iot_arm.Json.Array.Size.{array_text, array_size-array_text}
use aliyun_iot_arm.Json.Get.Bounds.{get_string-Fits}

abbrev key_id : Bytes
key_id = codes "id"

abbrev one_member : Bytes
one_member = codes "{\"id\" : \"a\"}"

get_string-member_example :
    get_string
      (codes "{" ++ member key_id (32 ∷ []) (32 ∷ []) (codes "a\\\"b") (codes "}"))
      key_id
      8
    ≡ copied (codes "a\"b")
get_string-member_example =
    get_string-member (codes "{") key_id (32 ∷ []) (32 ∷ []) (codes "a\"b") (codes "a\\\"b")
      (codes "}") 16 8 (unfold escape_string escape_loop in refl) (omega arith)
      ((unfold isspace in refl, tt), (unfold isspace in refl, tt))
      (unfold strstr starts_with in refl) (omega arith)

get_string-Fits_example : Fits 1 (get_string one_member key_id 1)
get_string-Fits_example = get_string-Fits one_member key_id 1

array_size-array_text_example : array_size (array_text (codes "a,]") (codes "\"" ∷ [])) ≡ some 2
array_size-array_text_example = array_size-array_text (codes "a,]") (codes "\"" ∷ [])
