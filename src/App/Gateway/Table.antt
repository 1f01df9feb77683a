-- ===== src/App/Gateway/Table.antt =====
-- src/gateway_manager.c: what a change of one device does to the table, seen by the devices' names.
use aliyun_iot_arm.Prelude.{
  ℕ, zero, suc, ◌≡◌, refl, sym, inl, inr, Bool, true, false, ◌&&◌, Option, none, some, List, [],
  ◌∷◌, map, arith, if◌then◌else◌, Bool-cases, Option-cases, Bytes, str_eq, str_eq_iff,
}
use aliyun_iot_arm.App.Gateway.{GatewaySubDeviceState, is_named, find_index, update_at, with_topo}

-- What the table says of a device.
pub record Status : Type 0 where
  pub topo_added : Bool
  pub disabled : Bool
  pub online : Bool

abbrev pub status_of_device : GatewaySubDeviceState → Status
status_of_device sub_device = record {
  topo_added = sub_device.topo_added;
  disabled = sub_device.disabled;
  online = sub_device.online;
}

-- The status of the first device of a name.
unfoldable pub status_of :
    (product_key device_name : Bytes) → List GatewaySubDeviceState → Option Status
status_of product_key device_name [] = none
status_of product_key device_name (sub_device ∷ sub_devices) =
    if is_named product_key device_name sub_device
    then some (status_of_device sub_device)
    else status_of product_key device_name sub_devices

-- Two names are one.
abbrev pub same_name : (pk dn pk' dn' : Bytes) → Bool
same_name pk dn pk' dn' = str_eq pk pk' && str_eq dn dn'

is_named-same :
    (pk dn pk' dn' : Bytes) (sub_device : GatewaySubDeviceState)
    → is_named pk dn sub_device ≡ true
    → is_named pk' dn' sub_device ≡ same_name pk dn pk' dn'
is_named-same pk dn pk' dn' sub_device named =
    let first : sub_device.config.product_key ≡ pk =
      (str_eq_iff sub_device.config.product_key pk).0 (ground arith) in
    let second : sub_device.config.device_name ≡ dn =
      (str_eq_iff sub_device.config.device_name dn).0 (ground arith) in
    λ i. str_eq (first i) pk' && str_eq (second i) dn'

same_name_sym :
    (pk dn pk' dn' : Bytes) → same_name pk dn pk' dn' ≡ true → same_name pk' dn' pk dn ≡ true
same_name_sym pk dn pk' dn' same =
    let first = (str_eq_iff pk' pk).1 (sym ((str_eq_iff pk pk').0 (ground arith))) in
    let second = (str_eq_iff dn' dn).1 (sym ((str_eq_iff dn dn').0 (ground arith))) in ground arith

-- A device of another name has not this one.
not_same :
    (pk dn pk' dn' : Bytes) (sub_device : GatewaySubDeviceState)
    → is_named pk dn sub_device ≡ false
    → is_named pk' dn' sub_device ≡ true
    → same_name pk dn pk' dn' ≡ false
not_same pk dn pk' dn' sub_device other named = elim (Bool-cases (same_name pk dn pk' dn')) [
  | inl e ↦
      absurd (
        ground (arith, same_name_sym pk dn pk' dn' e, is_named-same pk' dn' pk dn sub_device named))
  | inr e ↦ e
]

-- A device that is found behind the first one.
found_behind :
    (pk dn : Bytes) (sub_device : GatewaySubDeviceState) (sub_devices : List GatewaySubDeviceState)
    (index : ℕ)
    → find_index pk dn (sub_device ∷ sub_devices) ≡ some (suc index)
    → (is_named pk dn sub_device ≡ false) × (find_index pk dn sub_devices ≡ some index)
unfolding find_index
found_behind pk dn sub_device sub_devices index found =
    elim (Option-cases (find_index pk dn sub_devices)) [
      | inl e ↦ absurd (ground arith)
      | inr (k, e) ↦ ground arith
    ]

-- The change of the device found under one name, seen under another.
pub status_of-update_at :
    (pk dn pk' dn' : Bytes) (topo_added disabled online : Bool)
    (sub_devices : List GatewaySubDeviceState) (index : ℕ)
    → find_index pk dn sub_devices ≡ some index
    → status_of pk' dn' (update_at index (with_topo topo_added disabled online) sub_devices) ≡ (
        if same_name pk dn pk' dn'
        then some (record { topo_added = topo_added; disabled = disabled; online = online })
        else status_of pk' dn' sub_devices)
unfolding find_index update_at status_of
status_of-update_at pk dn pk' dn' a d o [] index found = absurd (cc)
status_of-update_at pk dn pk' dn' a d o (sub_device ∷ sub_devices) zero found =
    elim (Bool-cases (is_named pk dn sub_device)) [
      | inl e ↦ ground (arith, is_named-same pk dn pk' dn' sub_device e)
      | inr e ↦ absurd (ground arith)
    ]
status_of-update_at pk dn pk' dn' a d o (sub_device ∷ sub_devices) (suc index) found =
    let behind = found_behind pk dn sub_device sub_devices index found in
    let ih = status_of-update_at pk dn pk' dn' a d o sub_devices index behind.1 in
    elim (Bool-cases (is_named pk' dn' sub_device)) [
      | inl e ↦ ground (arith, not_same pk dn pk' dn' sub_device behind.0 e)
      | inr e ↦ ground arith
    ]

-- A name that is not found has no status, and one that is found has one.
pub find_index-status_of :
    (pk dn : Bytes) (sub_devices : List GatewaySubDeviceState)
    → find_index pk dn sub_devices ≡ none
    → status_of pk dn sub_devices ≡ none
unfolding find_index status_of
find_index-status_of pk dn [] missing = refl
find_index-status_of pk dn (sub_device ∷ sub_devices) missing =
    elim (Option-cases (find_index pk dn sub_devices)) [
      | inl e ↦ ground (arith, find_index-status_of pk dn sub_devices e)
      | inr (k, e) ↦ absurd (ground arith)
    ]

-- A name that is found has a status.
pub status_of-found :
    (pk dn : Bytes) (sub_devices : List GatewaySubDeviceState) (index : ℕ)
    → find_index pk dn sub_devices ≡ some index
    → (status : Status) × (status_of pk dn sub_devices ≡ some status)
unfolding find_index status_of
status_of-found pk dn [] index found = absurd (cc)
status_of-found pk dn (sub_device ∷ sub_devices) index found =
    elim (Bool-cases (is_named pk dn sub_device)) [
      | inl e ↦ (status_of_device sub_device, ground arith)
      | inr e ↦ elim (Option-cases (find_index pk dn sub_devices)) [
        | inl missing ↦ absurd (ground arith)
        | inr (k, there) ↦
            let (status, known) = status_of-found pk dn sub_devices k there in
            (status, ground arith)
      ]
    ]

-- One status for every device.
pub status_of-reset :
    (pk dn : Bytes) (topo_added disabled online : Bool) (sub_devices : List GatewaySubDeviceState)
    → status_of pk dn (map (with_topo topo_added disabled online) sub_devices)
      ≡ (elim (status_of pk dn sub_devices) [
        | none ↦ none
        | some old ↦ some (record { topo_added = topo_added; disabled = disabled; online = online })
      ])
unfolding status_of
status_of-reset pk dn a d o [] = refl
status_of-reset pk dn a d o (sub_device ∷ sub_devices) =
    elim (Bool-cases (is_named pk dn sub_device)) [
      | inl e ↦ ground arith
      | inr e ↦ ground (arith, status_of-reset pk dn a d o sub_devices)
    ]
