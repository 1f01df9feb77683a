-- ===== src/Mqtt/SubList/Deliver.antt =====
-- core/aiot_mqtt_api.c: `_core_mqtt_call_user_handler`, which hands a message to the handlers.
use aliyun_iot_arm.Prelude.{
  ℕ, ◌≡◌, refl, ◌≢◌, ◌⊎◌, inl, inr, Bool, true, false, List, [], ◌∷◌, ◌++◌, map, ◌==◌,
  if◌then◌else◌, Bool-cases, drop, All, eq_ℤ, eq_ℤ→eq, Bytes,
}
use aliyun_iot_arm.Mqtt.Codes.{state_success}
use aliyun_iot_arm.Mqtt.Topic.{topic_compare}
use aliyun_iot_arm.Mqtt.SubList.{SubHandler, SubNode}

-- Whether the memory for the next copy is had; behind the end of the list it is.
abbrev pub next_ok : List Bool → Bool
next_ok [] = true
next_ok (ok ∷ oks) = ok

-- `_core_mqtt_handlerlist_append`: a node that cannot be copied is left out.
unfoldable pub handlerlist_append : List Bool → List SubHandler → List SubHandler × List Bool
handlerlist_append oks [] = ([], oks)
handlerlist_append oks (node ∷ nodes) =
    let (copies, oks') = handlerlist_append (drop 1 oks) nodes in
    (if next_ok oks then node ∷ copies else copies, oks')

-- The copies of the handlers of all filters that take the topic, in the order of the list.
unfoldable pub collect : List Bool → (topic : Bytes) → List SubNode → List SubHandler
unfolding handlerlist_append
collect oks topic [] = []
collect oks topic (node ∷ nodes) = elim (eq_ℤ (topic_compare node.topic topic) state_success) [
  | true ↦
      let (copies, oks') = handlerlist_append oks node.handle_list in
      copies ++ collect oks' topic nodes
  | false ↦ collect oks topic nodes
]

-- Null user data stands for that of the client.
abbrev pub call_of : ℕ → SubHandler → SubHandler
call_of client_userdata node = record node {
  userdata = if node.userdata == 0 then client_userdata else node.userdata;
}

-- The calls, in their order: those of the copies, or the client's own handler where there is none.
unfoldable pub call_user_handler :
    List Bool → (recv_handler client_userdata : ℕ) (topic : Bytes) → List SubNode → List SubHandler
unfolding collect
call_user_handler oks recv_handler client_userdata topic nodes = elim (collect oks topic nodes) [
  | [] ↦
      if recv_handler == 0
      then []
      else record { handler = recv_handler; userdata = client_userdata } ∷ []
  | node ∷ copies ↦ map (call_of client_userdata) (node ∷ copies)
]

abbrev pub Has : SubHandler → List SubHandler → Type 0
Has x [] = ⊥
Has x (y ∷ ys) = (x ≡ y) ⊎ Has x ys

collect-nothing :
    (topic : Bytes) (nodes : List SubNode)
    → All (λ node. topic_compare node.topic topic ≢ state_success) nodes
    → collect [] topic nodes ≡ []
unfolding collect
collect-nothing topic [] h = refl
collect-nothing topic (node ∷ nodes) h =
    elim (Bool-cases (eq_ℤ (topic_compare node.topic topic) state_success)) [
      | inl hit ↦ absurd (h.0 (eq_ℤ→eq _ _ hit))
      | inr miss ↦ rw (miss, collect) (collect-nothing topic nodes h.1)
    ]

-- A message whose topic no filter takes goes to the handler of the client, with its user data,
-- where there is one, and to nobody else.
pub call_user_handler_default :
    (recv_handler client_userdata : ℕ) (topic : Bytes) (nodes : List SubNode)
    → All (λ node. topic_compare node.topic topic ≢ state_success) nodes
    → call_user_handler [] recv_handler client_userdata topic nodes ≡ (
        if recv_handler == 0
        then []
        else record { handler = recv_handler; userdata = client_userdata } ∷ [])
unfolding call_user_handler
call_user_handler_default recv_handler c topic nodes h =
    rw (collect-nothing topic nodes h, call_user_handler)
