-- ===== src/Mqtt/PubList/Laws.antt =====
-- core/aiot_mqtt_api.c: the identifiers in the list of waiting packets are distinct.
use aliyun_iot_arm.Prelude.{
  ℕ, ◌+◌, ◌^◌, ◌≤◌, ◌<◌, ◌≡◌, refl, sym, subst, ◌≢◌, ◌⊎◌, inl, inr, Bool, true, ◌&&◌, Option, none,
  some, List, [], ◌∷◌, ◌++◌, arith, ◌==◌, if◌then◌else◌, Bool-cases, Option-cases, length,
  length-append, All, ℤ, is_neg, Bytes,
}
use aliyun_iot_arm.Mqtt.Codes.{state_success}
use aliyun_iot_arm.Mqtt.PubList.{PubNode, scan_for, publist_insert, publist_remove, next_packet_id}

-- No node of the list has the identifier.
abbrev pub IsFree : ℕ → List PubNode → Type 0
IsFree packet_id nodes = All (λ node. node.packet_id ≢ packet_id) nodes

-- Each identifier stands in the list at most once.
abbrev pub AreDistinct : List PubNode → Type 0
AreDistinct [] = Unit
AreDistinct (node ∷ nodes) = IsFree node.packet_id nodes × AreDistinct nodes

scan_for-none :
    (packet_id limit pack_num : ℕ) (nodes : List PubNode)
    → scan_for packet_id limit pack_num nodes ≡ none
    → IsFree packet_id nodes × ((nodes ≡ []) ⊎ (pack_num + length nodes ≤ limit + 1))
unfolding scan_for
scan_for-none packet_id limit pack_num [] h = (tt, inl refl)
scan_for-none packet_id limit pack_num (node ∷ nodes) h =
    ground (arith, scan_for-none packet_id limit (pack_num + 1) nodes)

All-snoc {ℓ κ} :
    {A : Type ℓ} (P : A → Type κ) (xs : List A) (y : A) → All P xs → P y → All P (xs ++ (y ∷ []))
All-snoc P [] y h hy = (hy, tt)
All-snoc P (x ∷ xs) y h hy = (h.0, All-snoc P xs y h.1 hy)

AreDistinct-snoc :
    (nodes : List PubNode) (node : PubNode)
    → AreDistinct nodes
    → IsFree node.packet_id nodes
    → AreDistinct (nodes ++ (node ∷ []))
AreDistinct-snoc [] node d f = (tt, tt)
AreDistinct-snoc (n ∷ nodes) node d f = (
  All-snoc (λ (m : PubNode). m.packet_id ≢ n.packet_id) nodes node d.0 (λ e. f.0 (sym e)),
  AreDistinct-snoc nodes node d.1 f.1,
)

-- The invariant of the list under a limit: distinct identifiers, and two nodes above the limit at
-- most.
pub record IsValid (repub_list_limit : ℕ) (nodes : List PubNode) : Type 0 where
  pub distinct : AreDistinct nodes
  pub bounded : length nodes ≤ repub_list_limit + 2

scan_for-some :
    (packet_id limit pack_num : ℕ) (nodes : List PubNode) (c : ℤ)
    → scan_for packet_id limit pack_num nodes ≡ some c
    → is_neg c ≡ true
unfolding scan_for
scan_for-some packet_id limit pack_num [] c h = cc
scan_for-some packet_id limit pack_num (node ∷ nodes) c h =
    ground (arith, scan_for-some packet_id limit (pack_num + 1) nodes c)

abbrev pub new_node : (now packet_id : ℕ) (packet : Bytes) → PubNode
new_node now packet_id packet = record {
  packet_id = packet_id;
  packet = packet;
  last_send_time = now;
}

-- An insertion that fails leaves the list as it was; one that succeeds puts the message last, its
-- identifier was not in use, and the list was empty or within one above the limit.
pub publist_insert_cases :
    (limit : ℕ) (node_ok packet_ok : Bool) (now packet_id : ℕ) (packet : Bytes)
    (nodes : List PubNode)
    → let (res, nodes') = publist_insert limit node_ok packet_ok now packet_id packet nodes in
      ((is_neg res ≡ true) × (nodes' ≡ nodes))
      ⊎ ((res ≡ state_success)
          × IsFree packet_id nodes
          × ((nodes ≡ []) ⊎ (length nodes ≤ limit + 1))
          × (nodes' ≡ nodes ++ (new_node now packet_id packet ∷ [])))
unfolding publist_insert
publist_insert_cases limit node_ok packet_ok now packet_id packet nodes =
    elim (Option-cases (scan_for packet_id limit 0 nodes)) [
      | inl free ↦ elim (Bool-cases (node_ok && packet_ok)) [
        | inl had ↦
            let (unused, room) = scan_for-none packet_id limit 0 nodes free in
            inr (ground arith, unused, ground arith, ground arith)
        | inr lacks ↦ inl (ground arith, ground arith)
      ]
      | inr (c, refused) ↦
          inl (ground (arith, scan_for-some packet_id limit 0 nodes c refused), ground arith)
    ]

-- An insertion, whatever it answers, keeps the identifiers of the waiting messages distinct and
-- their number within two above the limit.
pub publist_insert-IsValid :
    (limit : ℕ) (node_ok packet_ok : Bool) (now packet_id : ℕ) (packet : Bytes)
    (nodes : List PubNode)
    → IsValid limit nodes
    → IsValid limit (publist_insert limit node_ok packet_ok now packet_id packet nodes).1
publist_insert-IsValid limit node_ok packet_ok now packet_id packet nodes v =
    elim (publist_insert_cases limit node_ok packet_ok now packet_id packet nodes) [
      | inl (refused, same) ↦ subst (IsValid limit) (sym same) v
      | inr (done, free, room, grown) ↦ subst (IsValid limit) (sym grown) (record {
        distinct = AreDistinct-snoc nodes (new_node now packet_id packet) v.distinct free;
        bounded = longer room;
      })
    ]
  where
    longer :
        (nodes ≡ []) ⊎ (length nodes ≤ limit + 1)
        → length (nodes ++ (new_node now packet_id packet ∷ [])) ≤ limit + 2
    longer (inl e) = rw e (omega arith)
    longer (inr h) = omega (arith, length-append nodes (new_node now packet_id packet ∷ []))

-- The packet that waits under an identifier.
abbrev pub waiting : ℕ → List PubNode → Option PubNode
waiting packet_id [] = none
waiting packet_id (node ∷ nodes) =
    let rest = waiting packet_id nodes in if node.packet_id == packet_id then some node else rest

waiting-IsFree :
    (packet_id : ℕ) (nodes : List PubNode) → IsFree packet_id nodes → waiting packet_id nodes ≡ none
waiting-IsFree packet_id [] h = refl
waiting-IsFree packet_id (node ∷ nodes) h = ground (arith, waiting-IsFree packet_id nodes h.1)

-- In a list of distinct identifiers, an acknowledgement takes out the message with its identifier,
-- and no other.
pub waiting-publist_remove :
    (packet_id j : ℕ) (nodes : List PubNode)
    → AreDistinct nodes
    → waiting j (publist_remove packet_id nodes)
      ≡ (if packet_id == j then none else waiting j nodes)
unfolding publist_remove
waiting-publist_remove packet_id j [] d = ground arith
waiting-publist_remove packet_id j (node ∷ nodes) d =
    ground
      (arith, waiting-IsFree node.packet_id nodes d.0, waiting-publist_remove packet_id j nodes d.1)

All-publist_remove {κ} :
    (P : PubNode → Type κ) (packet_id : ℕ) (nodes : List PubNode)
    → All P nodes
    → All P (publist_remove packet_id nodes)
unfolding publist_remove
All-publist_remove P packet_id [] h = tt
All-publist_remove P packet_id (node ∷ nodes) h = elim (Bool-cases (node.packet_id == packet_id)) [
  | inl e ↦ rw e h.1
  | inr e ↦ rw e (h.0, All-publist_remove P packet_id nodes h.1)
]

-- From a counter of 16 bits, the next packet identifier is of 16 bits too, is not 0, and is not the
-- last one.
pub next_packet_id_range :
    (p : ℕ)
    → p < 2 ^ 16
    → (1 ≤ next_packet_id p) × (next_packet_id p < 2 ^ 16) × (next_packet_id p ≢ p)
unfolding next_packet_id
next_packet_id_range p h = ground arith

length-publist_remove :
    (packet_id : ℕ) (nodes : List PubNode) → length (publist_remove packet_id nodes) ≤ length nodes
unfolding publist_remove
length-publist_remove packet_id [] = omega arith
length-publist_remove packet_id (node ∷ nodes) =
    ground (arith, length-publist_remove packet_id nodes)

AreDistinct-publist_remove :
    (packet_id : ℕ) (nodes : List PubNode)
    → AreDistinct nodes
    → AreDistinct (publist_remove packet_id nodes)
unfolding publist_remove
AreDistinct-publist_remove packet_id [] d = tt
AreDistinct-publist_remove packet_id (node ∷ nodes) d =
    elim (Bool-cases (node.packet_id == packet_id)) [
      | inl e ↦ rw e d.1
      | inr e ↦ rw e (
        All-publist_remove (λ m. m.packet_id ≢ node.packet_id) packet_id nodes d.0,
        AreDistinct-publist_remove packet_id nodes d.1,
      )
    ]

-- An acknowledgement keeps the identifiers of the waiting messages distinct and their number within
-- two above the limit.
pub publist_remove-IsValid :
    (limit packet_id : ℕ) (nodes : List PubNode)
    → IsValid limit nodes
    → IsValid limit (publist_remove packet_id nodes)
publist_remove-IsValid limit packet_id nodes v = record {
  distinct = AreDistinct-publist_remove packet_id nodes v.distinct;
  bounded = omega (arith, v.bounded, length-publist_remove packet_id nodes);
}
