-- ===== src/App/Gateway/Refine.antt =====
-- src/gateway_manager.c: the table as a map from names to statuses, and what the handlers do to that map.
use aliyun_iot_arm.Prelude.{
  ℕ, ◌≡◌, refl, sym, ap, ◌∙◌, inl, inr, Bool, true, false, ◌&&◌, ◌||◌, Option, none, some, List, [],
  ◌∷◌, arith, if◌then◌else◌, Bool-cases, Option-cases, Bytes, codes, str_eq_iff,
}
use aliyun_iot_arm.Json.Copy.{succeeded, stored}
use aliyun_iot_arm.Json.Get.{get_string}
use aliyun_iot_arm.App.Config.{text_size}
use aliyun_iot_arm.App.Gateway.{GatewayManager, find_index, update_topo_state}
use aliyun_iot_arm.App.Gateway.Handle.{Visit, visit_items, index_of_item}
use aliyun_iot_arm.App.Gateway.Table.{
  Status, status_of, same_name, status_of-update_at, find_index-status_of, status_of-found,
}

-- An item of an array names this device.
abbrev pub names : (pk dn item_json : Bytes) → Bool
names pk dn item_json =
    let product_key = get_string item_json (codes "productKey") text_size in
    let device_name = get_string item_json (codes "deviceName") text_size in
    (succeeded product_key && succeeded device_name)
    && same_name (stored product_key) (stored device_name) pk dn

unfoldable pub is_listed : (pk dn : Bytes) → List Bytes → Bool
unfolding get_string
is_listed pk dn [] = false
is_listed pk dn (item_json ∷ items) = names pk dn item_json || is_listed pk dn items

-- The statuses as a map on names, and the update of those that a list names.
abbrev pub Statuses : Type 0
Statuses = (pk dn : Bytes) → Option Status

abbrev pub statuses : GatewayManager → Statuses
statuses manager pk dn = status_of pk dn manager.sub_devices

abbrev pub overwritten : Option Status → Bool → Option Status → Option Status
overwritten none listed old = old
overwritten (some status) listed none = none
overwritten (some status) listed (some old) = if listed then some status else some old

abbrev pub apply_status : Option Status → ℕ → GatewayManager → GatewayManager
apply_status none index manager = manager
apply_status (some status) index manager =
    update_topo_state index status.topo_added status.disabled status.online manager

-- What the table says under the two names when they are one.
same_statuses :
    (pk dn pk' dn' : Bytes) (manager : GatewayManager)
    → same_name pk dn pk' dn' ≡ true
    → statuses manager pk dn ≡ statuses manager pk' dn'
same_statuses pk dn pk' dn' manager same =
    let first = (str_eq_iff pk pk').0 (ground arith) in
    let second = (str_eq_iff dn dn').0 (ground arith) in λ i. statuses manager (first i) (second i)

missing_item :
    (pk dn : Bytes) (manager : GatewayManager) (item_json : Bytes)
    → index_of_item manager item_json ≡ none
    → names pk dn item_json ≡ true
    → statuses manager pk dn ≡ none
unfolding index_of_item
missing_item pk dn manager item_json missing named =
    let product_key = stored (get_string item_json (codes "productKey") text_size) in
    let device_name = stored (get_string item_json (codes "deviceName") text_size) in
    let same : same_name product_key device_name pk dn ≡ true = ground arith in
    let absent : find_index product_key device_name manager.sub_devices ≡ none = ground arith in
    sym (same_statuses product_key device_name pk dn manager same)
    ∙ find_index-status_of product_key device_name manager.sub_devices absent

found_item :
    (pk dn : Bytes) (manager : GatewayManager) (item_json : Bytes) (index : ℕ) (status : Status)
    → index_of_item manager item_json ≡ some index
    → statuses
        (update_topo_state index status.topo_added status.disabled status.online manager)
        pk
        dn
      ≡ overwritten (some status) (names pk dn item_json) (statuses manager pk dn)
unfolding index_of_item update_topo_state
found_item pk dn manager item_json index status found =
    let product_key = stored (get_string item_json (codes "productKey") text_size) in
    let device_name = stored (get_string item_json (codes "deviceName") text_size) in
    let there : find_index product_key device_name manager.sub_devices ≡ some index =
      ground arith in
    let updated =
      status_of-update_at product_key device_name pk dn status.topo_added status.disabled
        status.online manager.sub_devices index there in
    let (old, known) = status_of-found product_key device_name manager.sub_devices index there in
    elim (Bool-cases (same_name product_key device_name pk dn)) [
      | inl e ↦
          ground (arith, updated, known, same_statuses product_key device_name pk dn manager e)
      | inr e ↦ elim (Option-cases (statuses manager pk dn)) [
        | inl gone ↦ ground (arith, updated)
        | inr (s, kept) ↦ ground (arith, updated)
      ]
    ]

overwritten-overwritten :
    (new : Option Status) (first second : Bool) (old : Option Status)
    → overwritten new second (overwritten new first old) ≡ overwritten new (first || second) old
overwritten-overwritten none first second old = refl
overwritten-overwritten (some status) first second none = refl
overwritten-overwritten (some status) true second (some old) = ground arith
overwritten-overwritten (some status) false second (some old) = refl

overwritten-none : (new : Option Status) (listed : Bool) → overwritten new listed none ≡ none
overwritten-none none listed = refl
overwritten-none (some status) listed = refl

pub overwritten-false : (new old : Option Status) → overwritten new false old ≡ old
overwritten-false none old = refl
overwritten-false (some status) none = refl
overwritten-false (some status) (some old) = refl

apply_status-statuses :
    (new : Option Status) (pk dn : Bytes) (item_json : Bytes) (manager : GatewayManager) (index : ℕ)
    → index_of_item manager item_json ≡ some index
    → statuses (apply_status new index manager) pk dn
      ≡ overwritten new (names pk dn item_json) (statuses manager pk dn)
apply_status-statuses none pk dn item_json manager index found = refl
apply_status-statuses (some status) pk dn item_json manager index found =
    found_item pk dn manager item_json index status found

module _ (visit : Visit) (new : Option Status)
    (does : (index : ℕ) (manager : GatewayManager)
      → (visit index manager).manager ≡ apply_status new index manager) where
  step : GatewayManager → Bytes → GatewayManager
  step manager item_json = elim (index_of_item manager item_json) [
    | none ↦ manager
    | some index ↦ (visit index manager).manager
  ]

  step-overwritten :
      (pk dn : Bytes) (item_json : Bytes) (manager : GatewayManager)
      → statuses (step manager item_json) pk dn
        ≡ overwritten new (names pk dn item_json) (statuses manager pk dn)
  unfolding step
  step-overwritten pk dn item_json manager = elim (Option-cases (index_of_item manager item_json)) [
    | inl e ↦ elim (Bool-cases (names pk dn item_json)) [
      | inl named ↦
          ground (arith, missing_item pk dn manager item_json e named, overwritten-none new true)
      | inr other ↦ ground (arith, overwritten-false new (statuses manager pk dn))
    ]
    | inr (index, e) ↦
        ground
          (arith, does index manager, apply_status-statuses new pk dn item_json manager index e)
  ]

  visit_items-step :
      (item_json : Bytes) (items : List Bytes) (manager : GatewayManager)
      → (visit_items visit (item_json ∷ items) manager).manager
        ≡ (visit_items visit items (step manager item_json)).manager
  unfolding visit_items step
  visit_items-step item_json items manager = elim (Option-cases (index_of_item manager item_json)) [
    | inl e ↦ ground arith
    | inr (index, e) ↦ ground arith
  ]

  pub visit_items-overwritten :
      (pk dn : Bytes) (items : List Bytes) (manager : GatewayManager)
      → statuses (visit_items visit items manager).manager pk dn
        ≡ overwritten new (is_listed pk dn items) (statuses manager pk dn)
  unfolding visit_items is_listed
  visit_items-overwritten pk dn [] manager = sym (overwritten-false new (statuses manager pk dn))
  visit_items-overwritten pk dn (item_json ∷ items) manager =
      let ih = visit_items-overwritten pk dn items (step manager item_json) in
      let here = step-overwritten pk dn item_json manager in
      ap (λ m. statuses m pk dn) (visit_items-step item_json items manager)
      ∙ ih
      ∙ ap (overwritten new (is_listed pk dn items)) here
      ∙ overwritten-overwritten new (names pk dn item_json) (is_listed pk dn items)
          (statuses manager pk dn)
