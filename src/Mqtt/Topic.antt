-- ===== src/Mqtt/Topic.antt =====
-- core/aiot_mqtt_api.c: the validity of a topic filter, and the match of a filter and a topic.
use aliyun_iot_arm.Prelude.{
  ℕ, zero, suc, ◌+◌, ◌-◌, ◌*◌, ◌/◌, ◌%◌, ◌^◌, ◌≤◌, ◌<◌, ◌≡◌, refl, sym, ap, ◌∙◌, ◌≢◌, ◌↔◌, ◌⊎◌, inl,
  inr, Bool, true, false, not, ◌&&◌, ◌||◌, Option, none, some, List, [], ◌∷◌, ◌++◌, map, append-nil,
  append_assoc, arith, ltb, leb, ◌==◌, if◌then◌else◌, ltb→lt, lt→ltb, leb→le, ==_iff, Bool-cases,
  Option-cases, length, get_elem?, set, length-append, length-set, get_elem?-set_self,
  get_elem?-set_ne, get_or, take, drop, replicate, take-append-drop, All, drop-append, take-append,
  take_all, length-take, length-drop, length-replicate, length-map, ℤ, pos, negsuc, inc, dec,
  is_zero, is_neg, eq_ℤ, sub_ℕ, neg, eq_ℤ→eq, eq_ℤ_refl, Bytes, codes, starts_with, str_eq, strstr,
  isspace, snprintf, str_eq_iff, str_eq_refl, starts_with-append,
}
pub mod Levels
pub mod Valid
use aliyun_iot_arm.Mqtt.Codes.{
  Code, state_success, state_mqtt_topic_invalid, state_mqtt_topic_compare_failed,
}

-- `idx + 1 < len` and the character at `idx + 1` is another one.
abbrev pub other_than : ℕ → Bytes → Bool
other_than c [] = false
other_than c (d ∷ rest) = not (d == c)

abbrev pub is_empty : Bytes → Bool
is_empty [] = true
is_empty (c ∷ s) = false

-- The loop from `idx == 1`; `before` is the character at `idx - 1`.
unfoldable pub valid_from : ℕ → Bytes → Bool
valid_from before [] = true
valid_from before (c ∷ rest) =
    let more = valid_from c rest in
    if c == b'+' && (not (before == b'/') || other_than b'/' rest)
    then false
    else (if c == b'#' && (not (before == b'/') || not (is_empty rest)) then false else more)

-- `topic[0]`, which is the NUL of an empty topic.
abbrev pub first_char : Bytes → ℕ
first_char [] = 0
first_char (c ∷ s) = c

unfoldable pub topic_is_valid : Bool → Bytes → Code
unfolding valid_from
topic_is_valid topic_header_check topic =
    if topic_header_check && not (first_char topic == b'/')
    then state_mqtt_topic_invalid
    else (if valid_from (first_char topic) (drop 1 topic)
        then state_success
        else state_mqtt_topic_invalid)

-- The loop of the wildcard `+`: up to the next `/`.
unfoldable pub skip_level : Bytes → Bytes
skip_level [] = []
skip_level (d ∷ cmp_topic) =
    let rest = skip_level cmp_topic in if d == b'/' then d ∷ cmp_topic else rest

-- The rest of the filter is "/#".
abbrev pub is_parent : Bytes → Bool
is_parent (c ∷ d ∷ []) = c == b'/' && d == b'#'
is_parent _ = false

-- `topic` is the filter from `idx` on, `cmp_topic` the topic from `cmp_idx` on.
unfoldable pub compare_from : Bytes → Bytes → Bool
unfolding skip_level
compare_from [] cmp_topic = is_empty cmp_topic
compare_from (c ∷ topic) [] = is_parent (c ∷ topic)
compare_from (c ∷ topic) (d ∷ cmp_topic) = elim (c == b'#') [
  | true ↦ true
  | false ↦ elim (c == b'+') [
    | true ↦
        let left = skip_level (d ∷ cmp_topic) in
        elim (not (is_empty left) && is_empty topic) [
          | true ↦ false
          | false ↦ compare_from topic left
        ]
    | false ↦ elim (c == d) [ true ↦ compare_from topic cmp_topic | false ↦ false ]
  ]
]

unfoldable pub topic_compare : Bytes → Bytes → Code
unfolding compare_from
topic_compare topic cmp_topic =
    if compare_from topic cmp_topic then state_success else state_mqtt_topic_compare_failed
