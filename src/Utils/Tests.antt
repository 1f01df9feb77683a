-- ===== src/Utils/Tests.antt =====
-- Runs of the utilities on small texts.
use aliyun_iot_arm.Prelude.{
  [], ◌∷◌, ◌<◌, ◌≡◌, refl, ◌≢◌, true, none, some, arith, length, Bytes, codes,
}
use aliyun_iot_arm.Utils.Shell.{
  shell_quote, bare, read_word, shell_quote-read_word, shell_quote_enough,
}
use aliyun_iot_arm.Utils.Hex.{hex2str, str2hex, str2hex-hex2str}
use aliyun_iot_arm.Utils.Decimal.{uint2str, uint642str, str2uint, str2uint64, str2uint-uint2str}

abbrev quoted_text : Bytes
quoted_text = codes "'it'\"'\"'s'"

shell_quote-read_word_example :
    (read_word bare quoted_text ≡ some (codes "it's")) × (length quoted_text < 11)
shell_quote-read_word_example =
    shell_quote-read_word (codes "it's") quoted_text 11 (unfold shell_quote in refl)

shell_quote_enough_example : shell_quote (codes "''") 14 ≢ none
shell_quote_enough_example = shell_quote_enough (codes "''") 14 (omega arith)

str2uint-uint2str_example :
    (str2uint (uint2str 4294967295) ≡ some 4294967295)
    × (str2uint64 (uint642str 120000) ≡ some 120000)
str2uint-uint2str_example = str2uint-uint2str 4294967295 120000 (omega arith) (omega arith)

str2hex-hex2str_example : str2hex (0 ∷ 0 ∷ []) (hex2str true (171 ∷ 5 ∷ [])) ≡ some (171 ∷ 5 ∷ [])
str2hex-hex2str_example =
    str2hex-hex2str true (0 ∷ 0 ∷ []) (171 ∷ 5 ∷ []) refl (omega arith, (omega arith, tt))
