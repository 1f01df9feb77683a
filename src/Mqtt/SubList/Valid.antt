-- ===== src/Mqtt/SubList/Valid.antt =====
-- core/aiot_mqtt_api.c: no filter and no handler stands twice in the list of filters.
use aliyun_iot_arm.Prelude.{
  ℕ, ◌≡◌, sym, subst, ◌≢◌, inl, inr, Bool, none, some, List, [], ◌∷◌, ◌++◌, arith, ◌==◌, Bool-cases,
  Option-cases, Bytes, str_eq, str_eq_refl,
}
use aliyun_iot_arm.Mqtt.SubList.{
  SubHandler, SubNode, Memory, handler_replace, handlerlist_insert, handlers_with, new_sub_node,
  sublist_insert, sublist_remove, handlers_without, sublist_remove_handler,
}
use aliyun_iot_arm.Mqtt.SubList.Laws.{IsNewHandler, HandlersDistinct, IsNewTopic, IsValid}

replace-new :
    (h u k : ℕ) (nodes nodes' : List SubHandler)
    → handler_replace h u nodes ≡ some nodes'
    → IsNewHandler k nodes
    → IsNewHandler k nodes'
unfolding handler_replace
replace-new h u k [] nodes' e n = cc
replace-new h u k (node ∷ nodes) nodes' e n = elim (Bool-cases (node.handler == h)) [
  | inl same ↦
      let e' : record node { userdata = u } ∷ nodes ≡ nodes' = ground arith in
      subst (IsNewHandler k) e' (n.0, n.1)
  | inr other ↦ elim (Option-cases (handler_replace h u nodes)) [
    | inl none' ↦ absurd (ground arith)
    | inr (r, s) ↦
        let e' : node ∷ r ≡ nodes' = ground arith in
        subst (IsNewHandler k) e' (n.0, replace-new h u k nodes r s n.1)
  ]
]

replace-distinct :
    (h u : ℕ) (nodes nodes' : List SubHandler)
    → handler_replace h u nodes ≡ some nodes'
    → HandlersDistinct nodes
    → HandlersDistinct nodes'
unfolding handler_replace
replace-distinct h u [] nodes' e n = cc
replace-distinct h u (node ∷ nodes) nodes' e n = elim (Bool-cases (node.handler == h)) [
  | inl same ↦
      let e' : record node { userdata = u } ∷ nodes ≡ nodes' = ground arith in
      subst HandlersDistinct e' n
  | inr other ↦ elim (Option-cases (handler_replace h u nodes)) [
    | inl none' ↦ absurd (ground arith)
    | inr (r, s) ↦
        let e' : node ∷ r ≡ nodes' = ground arith in
        subst HandlersDistinct e'
          (replace-new h u node.handler nodes r s n.0, replace-distinct h u nodes r s n.1)
  ]
]

replace-none-new :
    (h u : ℕ) (nodes : List SubHandler) → handler_replace h u nodes ≡ none → IsNewHandler h nodes
unfolding handler_replace
replace-none-new h u [] e = tt
replace-none-new h u (node ∷ nodes) e = ground (arith, replace-none-new h u nodes)

snoc-new :
    (k : ℕ) (nodes : List SubHandler) (node : SubHandler)
    → IsNewHandler k nodes
    → node.handler ≢ k
    → IsNewHandler k (nodes ++ (node ∷ []))
snoc-new k [] node n h = (h, tt)
snoc-new k (m ∷ nodes) node n h = (n.0, snoc-new k nodes node n.1 h)

snoc-distinct :
    (nodes : List SubHandler) (node : SubHandler)
    → HandlersDistinct nodes
    → IsNewHandler node.handler nodes
    → HandlersDistinct (nodes ++ (node ∷ []))
snoc-distinct [] node d n = (tt, tt)
snoc-distinct (m ∷ nodes) node d n =
    (snoc-new m.handler nodes node d.0 (λ e. n.0 (sym e)), snoc-distinct nodes node d.1 n.1)

insert-distinct :
    (ok : Bool) (h u : ℕ) (nodes : List SubHandler)
    → HandlersDistinct nodes
    → HandlersDistinct (handlerlist_insert ok h u nodes).1
unfolding handlerlist_insert
insert-distinct ok h u nodes d = elim (Option-cases (handler_replace h u nodes)) [
  | inl n ↦ elim (Bool-cases ok) [
    | inl had ↦
        rw (n, handlerlist_insert)
          (rw had (
            snoc-distinct nodes (record { handler = h; userdata = u }) d
              (replace-none-new h u nodes n)))
    | inr lacks ↦ rw (n, handlerlist_insert) (rw lacks d)
  ]
  | inr (r, s) ↦ rw (s, handlerlist_insert) (replace-distinct h u nodes r s d)
]

with-distinct :
    (memory : Memory) (h u : ℕ) (nodes : List SubHandler)
    → HandlersDistinct nodes
    → HandlersDistinct (handlers_with memory h u nodes).1
unfolding handlers_with
with-distinct memory h u nodes d = ground (arith, insert-distinct memory.handler_ok h u nodes d)

new_sub_node-IsValid :
    (memory : Memory) (topic : Bytes) (h u : ℕ) → IsValid (new_sub_node memory topic h u).1
unfolding new_sub_node
new_sub_node-IsValid memory topic h u = ground (arith, with-distinct memory h u [] tt)

sublist_insert-new :
    (memory : Memory) (topic t : Bytes) (h u : ℕ) (nodes : List SubNode)
    → topic ≢ t
    → IsNewTopic t nodes
    → IsNewTopic t (sublist_insert memory topic h u nodes).1
unfolding sublist_insert
sublist_insert-new memory topic t h u [] ne n = unfold new_sub_node in ground arith
sublist_insert-new memory topic t h u (node ∷ nodes) ne n =
    ground (arith, sublist_insert-new memory topic t h u nodes ne n.1)

-- A subscription keeps the filters of the list distinct, and the handlers of each filter, on every
-- outcome of its allocations.
pub sublist_insert-IsValid :
    (memory : Memory) (topic : Bytes) (h u : ℕ) (nodes : List SubNode)
    → IsValid nodes
    → IsValid (sublist_insert memory topic h u nodes).1
unfolding sublist_insert
sublist_insert-IsValid memory topic h u [] v = new_sub_node-IsValid memory topic h u
sublist_insert-IsValid memory topic h u (node ∷ nodes) v =
    elim (Bool-cases (str_eq node.topic topic)) [
      | inl e ↦ rw e (with-distinct memory h u node.handle_list v.0, v.1, v.2)
      | inr e ↦ rw e (
        v.0,
        sublist_insert-new memory topic node.topic h u nodes (ground (arith, str_eq_refl topic))
            v.1,
        sublist_insert-IsValid memory topic h u nodes v.2,
      )
    ]

-- So do the two ways to unsubscribe.
sublist_remove-new :
    (topic t : Bytes) (nodes : List SubNode)
    → IsNewTopic t nodes
    → IsNewTopic t (sublist_remove topic nodes)
unfolding sublist_remove
sublist_remove-new topic t [] n = tt
sublist_remove-new topic t (node ∷ nodes) n = ground (arith, sublist_remove-new topic t nodes n.1)

-- An unsubscription keeps the filters of the list distinct, and the handlers of each filter.
pub sublist_remove-IsValid :
    (topic : Bytes) (nodes : List SubNode) → IsValid nodes → IsValid (sublist_remove topic nodes)
unfolding sublist_remove
sublist_remove-IsValid topic [] v = tt
sublist_remove-IsValid topic (node ∷ nodes) v =
    ground
      (arith, sublist_remove-new topic node.topic nodes v.1, sublist_remove-IsValid topic nodes v.2)

without-new :
    (h k : ℕ) (nodes : List SubHandler)
    → IsNewHandler k nodes
    → IsNewHandler k (handlers_without h nodes)
unfolding handlers_without
without-new h k [] n = tt
without-new h k (node ∷ nodes) n = ground (arith, without-new h k nodes n.1)

without-distinct :
    (h : ℕ) (nodes : List SubHandler)
    → HandlersDistinct nodes
    → HandlersDistinct (handlers_without h nodes)
unfolding handlers_without
without-distinct h [] d = tt
without-distinct h (node ∷ nodes) d =
    ground (arith, without-new h node.handler nodes d.0, without-distinct h nodes d.1)

remove_handler-new :
    (topic t : Bytes) (h : ℕ) (nodes : List SubNode)
    → IsNewTopic t nodes
    → IsNewTopic t (sublist_remove_handler topic h nodes)
unfolding sublist_remove_handler
remove_handler-new topic t h [] n = tt
remove_handler-new topic t h (node ∷ nodes) n =
    ground (arith, remove_handler-new topic t h nodes n.1)

-- Removing a handler from a filter keeps the filters of the list distinct, and the handlers of each
-- filter.
pub remove_handler-IsValid :
    (topic : Bytes) (h : ℕ) (nodes : List SubNode)
    → IsValid nodes
    → IsValid (sublist_remove_handler topic h nodes)
unfolding sublist_remove_handler
remove_handler-IsValid topic h [] v = tt
remove_handler-IsValid topic h (node ∷ nodes) v = ground (
  arith,
  without-distinct h node.handle_list v.0,
  remove_handler-new topic node.topic h nodes v.1,
  remove_handler-IsValid topic h nodes v.2,
)
