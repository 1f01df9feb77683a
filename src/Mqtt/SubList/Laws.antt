-- ===== src/Mqtt/SubList/Laws.antt =====
-- core/aiot_mqtt_api.c: what a subscription changes.
use aliyun_iot_arm.Prelude.{
  ℕ, ◌<◌, ◌≡◌, refl, ◌≢◌, inl, inr, Bool, ◌&&◌, Option, none, some, List, [], ◌∷◌, ◌++◌, arith,
  ◌==◌, if◌then◌else◌, Option-cases, All, Bytes, str_eq, str_eq_iff,
}
use aliyun_iot_arm.Mqtt.Codes.{state_success}
use aliyun_iot_arm.Mqtt.SubList.{
  SubHandler, SubNode, Memory, handler_replace, handlerlist_insert, handlers_with, new_sub_node,
  sublist_insert, sublist_remove, handlers_without, sublist_remove_handler,
}

-- The user data under which a handler stands in a list of handlers, and in the list of filters.
abbrev pub userdata_in : ℕ → List SubHandler → Option ℕ
userdata_in handler [] = none
userdata_in handler (node ∷ nodes) =
    let rest = userdata_in handler nodes in
    if node.handler == handler then some node.userdata else rest

abbrev pub userdata_of : Bytes → ℕ → List SubNode → Option ℕ
userdata_of topic handler [] = none
userdata_of topic handler (node ∷ nodes) =
    let rest = userdata_of topic handler nodes in
    if str_eq node.topic topic then userdata_in handler node.handle_list else rest

userdata_in-replace :
    (h u k : ℕ) (nodes nodes' : List SubHandler)
    → handler_replace h u nodes ≡ some nodes'
    → userdata_in k nodes' ≡ (if h == k then some u else userdata_in k nodes)
unfolding handler_replace
userdata_in-replace h u k [] nodes' e = cc
userdata_in-replace h u k (node ∷ nodes) nodes' e =
    elim (Option-cases (handler_replace h u nodes)) [
      | inl n ↦ ground arith
      | inr (r, s) ↦ ground (arith, userdata_in-replace h u k nodes r s)
    ]

userdata_in-snoc :
    (h u k : ℕ) (nodes : List SubHandler)
    → handler_replace h u nodes ≡ none
    → userdata_in k (nodes ++ (record { handler = h; userdata = u } ∷ []))
      ≡ (if h == k then some u else userdata_in k nodes)
unfolding handler_replace
userdata_in-snoc h u k [] e = refl
userdata_in-snoc h u k (node ∷ nodes) e = ground (arith, userdata_in-snoc h u k nodes)

userdata_in-insert :
    (ok : Bool) (h u k : ℕ) (nodes : List SubHandler)
    → (handlerlist_insert ok h u nodes).0 ≡ state_success
    → userdata_in k (handlerlist_insert ok h u nodes).1
      ≡ (if h == k then some u else userdata_in k nodes)
unfolding handlerlist_insert
userdata_in-insert ok h u k nodes e = elim (Option-cases (handler_replace h u nodes)) [
  | inl n ↦ ground (arith, userdata_in-snoc h u k nodes n)
  | inr (r, s) ↦ ground (arith, userdata_in-replace h u k nodes r s)
]

userdata_in-with :
    (memory : Memory) (h u k : ℕ) (nodes : List SubHandler)
    → 0 < h
    → (handlers_with memory h u nodes).0 ≡ state_success
    → userdata_in k (handlers_with memory h u nodes).1
      ≡ (if h == k then some u else userdata_in k nodes)
unfolding handlers_with
userdata_in-with memory h u k nodes p e =
    ground (arith, userdata_in-insert memory.handler_ok h u k nodes)

userdata_of-new :
    (memory : Memory) (topic t : Bytes) (h u k : ℕ)
    → 0 < h
    → (new_sub_node memory topic h u).0 ≡ state_success
    → userdata_of t k (new_sub_node memory topic h u).1
      ≡ (if str_eq topic t && h == k then some u else none)
unfolding new_sub_node
userdata_of-new memory topic t h u k p e = ground (arith, userdata_in-with memory h u k [] p)

-- A subscription that succeeds sets the user data of its handler under its filter, and changes
-- no other.
pub userdata_of-sublist_insert :
    (memory : Memory) (topic t : Bytes) (h u k : ℕ) (nodes : List SubNode)
    → 0 < h
    → (sublist_insert memory topic h u nodes).0 ≡ state_success
    → userdata_of t k (sublist_insert memory topic h u nodes).1
      ≡ (if str_eq topic t && h == k then some u else userdata_of t k nodes)
unfolding sublist_insert
userdata_of-sublist_insert memory topic t h u k [] p e = userdata_of-new memory topic t h u k p e
userdata_of-sublist_insert memory topic t h u k (node ∷ nodes) p e = ground (
  arith,
  userdata_in-with memory h u k node.handle_list p,
  userdata_of-sublist_insert memory topic t h u k nodes p,
  str_eq_iff node.topic topic,
  str_eq_iff node.topic t,
  str_eq_iff topic t,
)

-- An unsubscription takes out all handlers of its filter, and changes no other filter.
pub userdata_of-sublist_remove :
    (topic t : Bytes) (k : ℕ) (nodes : List SubNode)
    → userdata_of t k (sublist_remove topic nodes)
      ≡ (if str_eq topic t then none else userdata_of t k nodes)
unfolding sublist_remove
userdata_of-sublist_remove topic t k [] = ground arith
userdata_of-sublist_remove topic t k (node ∷ nodes) = ground (
  arith,
  userdata_of-sublist_remove topic t k nodes,
  str_eq_iff node.topic topic,
  str_eq_iff node.topic t,
  str_eq_iff topic t,
)

userdata_in-without :
    (h k : ℕ) (nodes : List SubHandler)
    → userdata_in k (handlers_without h nodes) ≡ (if h == k then none else userdata_in k nodes)
unfolding handlers_without
userdata_in-without h k [] = ground arith
userdata_in-without h k (node ∷ nodes) = ground (arith, userdata_in-without h k nodes)

-- Removing a handler from a filter takes out this pair, and changes no other pair of a filter and a
-- handler.
pub userdata_of-remove_handler :
    (topic t : Bytes) (h k : ℕ) (nodes : List SubNode)
    → userdata_of t k (sublist_remove_handler topic h nodes)
      ≡ (if str_eq topic t && h == k then none else userdata_of t k nodes)
unfolding sublist_remove_handler
userdata_of-remove_handler topic t h k [] = ground arith
userdata_of-remove_handler topic t h k (node ∷ nodes) = ground (
  arith,
  userdata_of-remove_handler topic t h k nodes,
  userdata_in-without h k node.handle_list,
  str_eq_iff node.topic topic,
  str_eq_iff node.topic t,
  str_eq_iff topic t,
)

-- A topic stands in one node only, and a handler once in its node.
abbrev pub IsNewHandler : ℕ → List SubHandler → Type 0
IsNewHandler h nodes = All (λ node. node.handler ≢ h) nodes

abbrev pub HandlersDistinct : List SubHandler → Type 0
HandlersDistinct [] = Unit
HandlersDistinct (node ∷ nodes) = IsNewHandler node.handler nodes × HandlersDistinct nodes

abbrev pub IsNewTopic : Bytes → List SubNode → Type 0
IsNewTopic topic nodes = All (λ node. node.topic ≢ topic) nodes

abbrev pub IsValid : List SubNode → Type 0
IsValid [] = Unit
IsValid (node ∷ nodes) =
    HandlersDistinct node.handle_list × IsNewTopic node.topic nodes × IsValid nodes
