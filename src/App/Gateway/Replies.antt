-- ===== src/App/Gateway/Replies.antt =====
-- src/gateway_manager.c: what the replies and the changes of the topology do to the map of statuses.
use aliyun_iot_arm.Prelude.{
  ℕ, ◌≡◌, refl, inl, inr, true, false, ◌||◌, Option, none, some, List, [], arith, if◌then◌else◌,
  Bool-cases, Option-cases, ℤ, pos, eq_ℤ, Bytes, codes,
}
use aliyun_iot_arm.Json.Copy.{succeeded, stored}
use aliyun_iot_arm.Json.Get.{get_array, get_object}
use aliyun_iot_arm.App.Config.{items_of}
use aliyun_iot_arm.App.Gateway.{GatewayManager}
use aliyun_iot_arm.App.Gateway.Handle.{
  number_at, is_success, reset, visit_listed, visit_added, visit_changed, handle_topo_get_reply,
  handle_topo_add_reply, handle_topo_change, changes,
}
use aliyun_iot_arm.App.Gateway.Table.{Status, status_of-reset}
use aliyun_iot_arm.App.Gateway.Refine.{
  is_listed, statuses, overwritten, apply_status, overwritten-false, visit_items-overwritten,
}

-- The statuses that the reply and the change ask for.
abbrev pub is_added : Status
is_added = record { topo_added = true; disabled = false; online = false }

abbrev pub is_removed : Status
is_removed = record { topo_added = false; disabled = false; online = false }

abbrev pub is_disabled : Status
is_disabled = record { topo_added = true; disabled = true; online = false }

-- The status that a change of the topology stands for.
unfoldable pub changed_to : (status : ℤ) → Option Status
changed_to status =
    if eq_ℤ status (pos 0) || eq_ℤ status (pos 2)
    then some is_added
    else (if eq_ℤ status (pos 1)
        then some is_removed
        else (if eq_ℤ status (pos 8) then some is_disabled else none))

pub visit_changed_lem :
    (status : ℤ) (index : ℕ) (manager : GatewayManager)
    → (visit_changed status index manager).manager ≡ apply_status (changed_to status) index manager
unfolding visit_changed changed_to
visit_changed_lem status index manager = ground arith

-- The devices that the reply to the request for the topology lists.
abbrev pub listed_by : (payload key : Bytes) → List Bytes
listed_by payload key =
    let array_json = get_array payload key 4096 in
    if succeeded array_json then items_of (stored array_json) 512 else []

reset-statuses :
    (manager : GatewayManager) (pk dn : Bytes)
    → statuses (reset manager) pk dn ≡ overwritten (some is_removed) true (statuses manager pk dn)
reset-statuses manager pk dn =
    let all = status_of-reset pk dn false false false manager.sub_devices in
    elim (Option-cases (statuses manager pk dn)) [
      | inl e ↦ ground arith
      | inr (old, e) ↦ ground arith
    ]

-- After a reply of success to the request for the topology, a device of the table is in the topology
-- exactly when "data" lists it, and it is neither disabled nor online; names that the table does not
-- hold stay unknown. Another reply leaves every status as it is.
pub handle_topo_get_reply-statuses :
    (payload : Bytes) (manager : GatewayManager) (pk dn : Bytes)
    → statuses (handle_topo_get_reply payload manager).manager pk dn ≡ (
        if is_success payload
        then overwritten
            (some is_added)
            (is_listed pk dn (listed_by payload (codes "data")))
            (overwritten (some is_removed) true (statuses manager pk dn))
        else statuses manager pk dn)
unfolding handle_topo_get_reply
handle_topo_get_reply-statuses payload manager pk dn =
    let items = listed_by payload (codes "data") in
    let visited =
      visit_items-overwritten visit_listed (some is_added) (λ index m. refl) pk dn items
        (reset manager) in
    elim (Bool-cases (is_success payload)) [
      | inl e ↦ ground (arith, visited, reset-statuses manager pk dn)
      | inr e ↦ ground (arith)
    ]

-- A reply of success to the request to add devices puts those of the table that "data" lists into the
-- topology, neither disabled nor online, and leaves every other name as it was. Another reply leaves
-- every status as it is.
pub handle_topo_add_reply-statuses :
    (payload : Bytes) (manager : GatewayManager) (pk dn : Bytes)
    → statuses (handle_topo_add_reply payload manager).manager pk dn ≡ (
        if is_success payload
        then overwritten
            (some is_added)
            (is_listed pk dn (listed_by payload (codes "data")))
            (statuses manager pk dn)
        else statuses manager pk dn)
unfolding handle_topo_add_reply
handle_topo_add_reply-statuses payload manager pk dn =
    let array_json = get_array payload (codes "data") 4096 in
    let items = listed_by payload (codes "data") in
    let visited =
      visit_items-overwritten visit_added (some is_added) (λ index m. refl) pk dn items manager in
    elim (Bool-cases (is_success payload)) [
      | inl e ↦ elim (Bool-cases (succeeded array_json)) [
        | inl there ↦ ground (arith, visited)
        | inr missing ↦ ground (arith, overwritten-false (some is_added) (statuses manager pk dn))
      ]
      | inr e ↦ ground (arith)
    ]

-- A change of the topology gives the devices of the table that "subList" names the status that its number
-- stands for: in the topology for 0 and 2, out of it for 1, disabled for 8, as they were for another
-- number or without one. Every other name keeps its status.
pub handle_topo_change-statuses :
    (payload : Bytes) (manager : GatewayManager) (pk dn : Bytes)
    → let params_json = get_object payload (codes "params") 4096 in
      let new : Option Status = elim (number_at (stored params_json) (codes "status")) [
        | none ↦ none
        | some status ↦ if succeeded params_json then changed_to status else none
      ] in
      statuses (handle_topo_change payload manager).manager pk dn
      ≡ overwritten new
          (is_listed pk dn (listed_by (stored params_json) (codes "subList")))
          (statuses manager pk dn)
unfolding handle_topo_change changes
handle_topo_change-statuses payload manager pk dn =
    let params_json = get_object payload (codes "params") 4096 in
    let sub_list = get_array (stored params_json) (codes "subList") 4096 in
    let items = listed_by (stored params_json) (codes "subList") in
    elim (Option-cases (number_at (stored params_json) (codes "status"))) [
      | inl e ↦ ground arith
      | inr (status, e) ↦
          let visited =
            visit_items-overwritten (visit_changed status) (changed_to status)
              (visit_changed_lem status) pk dn items manager in
          elim (Bool-cases (succeeded params_json)) [
            | inl there ↦ elim (Bool-cases (succeeded sub_list)) [
              | inl array ↦ ground (arith, visited)
              | inr missing ↦
                  ground (arith, overwritten-false (changed_to status) (statuses manager pk dn))
            ]
            | inr missing ↦ ground arith
          ]
    ]
