-- ===== src/Mqtt/SubList.antt =====
-- core/aiot_mqtt_api.c: the list of subscribed filters, each with the handlers of its messages.
use aliyun_iot_arm.Prelude.{
  ℕ, zero, suc, ◌+◌, ◌-◌, ◌*◌, ◌/◌, ◌%◌, ◌^◌, ◌≤◌, ◌<◌, ◌≡◌, refl, sym, ap, ◌∙◌, ◌≢◌, ◌↔◌, ◌⊎◌, inl,
  inr, Bool, true, false, not, ◌&&◌, ◌||◌, Option, none, some, List, [], ◌∷◌, ◌++◌, map, append-nil,
  append_assoc, arith, bit_and, bit_or, bit_xor, ltb, leb, ◌==◌, if◌then◌else◌, ltb→lt, lt→ltb,
  leb→le, ==_iff, Bool-cases, Option-cases, length, get_elem?, set, length-append, length-set,
  get_elem?-set_self, get_elem?-set_ne, get_or, take, drop, replicate, take-append-drop, All,
  drop-append, take-append, take_all, length-take, length-drop, length-replicate, length-map, ℤ,
  pos, negsuc, inc, dec, is_zero, is_neg, eq_ℤ, sub_ℕ, neg, eq_ℤ→eq, eq_ℤ_refl, Bytes, codes,
  starts_with, str_eq, strstr, isspace, snprintf, str_eq_iff, str_eq_refl, starts_with-append,
}
pub mod Laws
pub mod Valid
pub mod Deliver
use aliyun_iot_arm.Mqtt.Codes.{
  Code, state_success, state_sys_depend_malloc_failed, state_user_input_null_pointer,
  state_mqtt_topic_too_long,
}
use aliyun_iot_arm.Mqtt.Topic.{topic_is_valid, topic_compare}

-- A handler is known by its address, which is not 0; the user data is an address or 0.
pub record SubHandler : Type 0 where
  pub handler : ℕ
  pub userdata : ℕ

pub record SubNode : Type 0 where
  pub topic : Bytes
  pub handle_list : List SubHandler

-- `node->userdata = userdata` at the handler, or `none` where the list has no such handler.
unfoldable pub handler_replace : (handler userdata : ℕ) → List SubHandler → Option (List SubHandler)
handler_replace handler userdata [] = none
handler_replace handler userdata (node ∷ nodes) =
    let rest = handler_replace handler userdata nodes in
    if node.handler == handler
    then some (record node { userdata = userdata } ∷ nodes)
    else elim rest [ none ↦ none | some nodes' ↦ some (node ∷ nodes') ]

unfoldable pub handlerlist_insert :
    (handler_ok : Bool) (handler userdata : ℕ) → List SubHandler → Code × List SubHandler
unfolding handler_replace
handlerlist_insert handler_ok handler userdata nodes =
    elim (handler_replace handler userdata nodes) [
      | some nodes' ↦ (state_success, nodes')
      | none ↦
          if handler_ok
          then (state_success, nodes ++ (record { handler = handler; userdata = userdata } ∷ []))
          else (state_sys_depend_malloc_failed, nodes)
    ]

-- Whether the memory for a node, its topic and its handler is had.
pub record Memory : Type 0 where
  pub node_ok : Bool
  pub topic_ok : Bool
  pub handler_ok : Bool

-- `handler != NULL`, and the insertion into the list of a node.
unfoldable pub handlers_with :
    Memory → (handler userdata : ℕ) → List SubHandler → Code × List SubHandler
unfolding handlerlist_insert
handlers_with memory handler userdata nodes =
    if handler == 0
    then (state_success, nodes)
    else handlerlist_insert memory.handler_ok handler userdata nodes

-- The new node behind the loop.
unfoldable pub new_sub_node : Memory → (topic : Bytes) (handler userdata : ℕ) → Code × List SubNode
unfolding handlers_with
new_sub_node memory topic handler userdata =
    if not (memory.node_ok && memory.topic_ok)
    then (state_sys_depend_malloc_failed, [])
    else let (res, handlers) = handlers_with memory handler userdata [] in
      if is_neg res then (res, []) else (res, record { topic = topic; handle_list = handlers } ∷ [])

unfoldable pub sublist_insert :
    Memory → (topic : Bytes) (handler userdata : ℕ) → List SubNode → Code × List SubNode
unfolding new_sub_node handlers_with str_eq
sublist_insert memory topic handler userdata [] = new_sub_node memory topic handler userdata
sublist_insert memory topic handler userdata (node ∷ nodes) =
    let (res, handlers) = handlers_with memory handler userdata node.handle_list in
    let (res', nodes') = sublist_insert memory topic handler userdata nodes in
    if str_eq node.topic topic
    then (res, record node { handle_list = handlers } ∷ nodes)
    else (res', node ∷ nodes')

-- Every node with the topic goes.
unfoldable pub sublist_remove : Bytes → List SubNode → List SubNode
unfolding str_eq
sublist_remove topic [] = []
sublist_remove topic (node ∷ nodes) =
    let rest = sublist_remove topic nodes in if str_eq node.topic topic then rest else node ∷ rest

unfoldable pub handlers_without : ℕ → List SubHandler → List SubHandler
handlers_without handler [] = []
handlers_without handler (node ∷ nodes) =
    let rest = handlers_without handler nodes in
    if node.handler == handler then rest else node ∷ rest

unfoldable pub sublist_remove_handler : Bytes → ℕ → List SubNode → List SubNode
unfolding str_eq handlers_without
sublist_remove_handler topic handler [] = []
sublist_remove_handler topic handler (node ∷ nodes) =
    let rest = sublist_remove_handler topic handler nodes in
    if str_eq node.topic topic
    then record node { handle_list = handlers_without handler node.handle_list } ∷ rest
    else node ∷ rest

-- The checks of a topic map: no topic, one of 128 bytes or more, a misplaced wildcard.
unfoldable pub topic_map_check : (topic_header_check : Bool) → Option Bytes → Code
unfolding topic_is_valid
topic_map_check topic_header_check none = state_user_input_null_pointer
topic_map_check topic_header_check (some topic) =
    if leb 128 (length topic)
    then state_mqtt_topic_too_long
    else topic_is_valid topic_header_check topic

unfoldable pub append_topic_map :
    (topic_header_check : Bool)
    → Memory
    → (topic : Option Bytes) (handler userdata : ℕ) → List SubNode
    → Code × List SubNode
unfolding topic_map_check sublist_insert
append_topic_map check memory none handler userdata nodes = (topic_map_check check none, nodes)
append_topic_map check memory (some topic) handler userdata nodes =
    let res = topic_map_check check (some topic) in
    if is_neg res then (res, nodes) else sublist_insert memory topic handler userdata nodes

unfoldable pub remove_topic_map :
    (topic_header_check : Bool) (topic : Option Bytes) (handler : ℕ)
    → List SubNode
    → Code × List SubNode
unfolding topic_map_check sublist_remove_handler
remove_topic_map check none handler nodes = (topic_map_check check none, nodes)
remove_topic_map check (some topic) handler nodes =
    let res = topic_map_check check (some topic) in
    if is_neg res then (res, nodes) else (state_success, sublist_remove_handler topic handler nodes)
