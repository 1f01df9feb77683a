-- ===== src/App/Gateway/Asked.antt =====
-- src/gateway_manager.c: the requests that a reply on the topology causes.
use aliyun_iot_arm.Prelude.{
  ℕ, zero, suc, ◌+◌, ◌≡◌, sym, ap, ◌∙◌, subst₂, true, false, some, List, [], ◌∷◌, ◌++◌,
  append_assoc, arith, if◌then◌else◌, get_elem?, Bytes,
}
use aliyun_iot_arm.App.Gateway.{GatewaySubDeviceState, GatewayManager, has_secret}
use aliyun_iot_arm.App.Gateway.Requests.{Request, login, topo_add}
use aliyun_iot_arm.App.Gateway.Handle.{
  request_for, requests_from, is_success, handle_topo_get_reply,
}

-- The requests of the device at an index stand in the list.
unfoldable pub Includes : (wanted requests : List Request) → Type 0
Includes wanted requests =
    (before : List Request) × (after : List Request) × (requests ≡ before ++ (wanted ++ after))

requests_from-Includes :
    (first index : ℕ) (sub_devices : List GatewaySubDeviceState)
    (sub_device : GatewaySubDeviceState)
    → get_elem? sub_devices index ≡ some sub_device
    → Includes (request_for (first + index) sub_device) (requests_from first sub_devices)
unfolding requests_from Includes
requests_from-Includes first zero [] sub_device there = absurd (cc)
requests_from-Includes first (suc index) [] sub_device there = absurd (cc)
requests_from-Includes first zero (other ∷ sub_devices) sub_device there =
    let same : other ≡ sub_device = cc in
    let here : first ≡ first + 0 = omega arith in
    (
      [],
      requests_from (first + 1) sub_devices,
      λ i. request_for (here i) (same i) ++ requests_from (first + 1) sub_devices,
    )
requests_from-Includes first (suc index) (other ∷ sub_devices) sub_device there =
    let (before, after, split) =
      requests_from-Includes (first + 1) index sub_devices sub_device there in
    let behind : first + 1 + index ≡ first + suc index = omega arith in
    (
      request_for first other ++ before,
      after,
      ap (λ l. request_for first other ++ l) split
          ∙ sym (append_assoc (request_for first other) before _)
          ∙ (λ i.
              (request_for first other ++ before) ++ (request_for (behind i) sub_device ++ after)),
    )

requests-success :
    (payload : Bytes) (manager : GatewayManager)
    → is_success payload ≡ true
    → (handle_topo_get_reply payload manager).requests
      ≡ requests_from 0 (handle_topo_get_reply payload manager).manager.sub_devices
unfolding handle_topo_get_reply
requests-success payload manager success = ground arith

request_for_lem :
    (index : ℕ) (sub_device : GatewaySubDeviceState)
    → sub_device.disabled ≡ false
    → has_secret sub_device ≡ true
    → request_for index sub_device
      ≡ (if sub_device.topo_added then login index else topo_add index) ∷ []
request_for_lem index sub_device enabled secret = ground arith

-- After a reply of success to the request for the topology, no device with a secret is forgotten: the
-- request to log in stands among those that the handler makes for each device that is in the topology
-- and not disabled, and the request to add it for each that is not in the topology and not disabled.
pub handle_topo_get_reply-Includes :
    (payload : Bytes) (manager : GatewayManager) (index : ℕ) (sub_device : GatewaySubDeviceState)
    → is_success payload ≡ true
    → get_elem? (handle_topo_get_reply payload manager).manager.sub_devices index ≡ some sub_device
    → sub_device.disabled ≡ false
    → has_secret sub_device ≡ true
    → Includes
        ((if sub_device.topo_added then login index else topo_add index) ∷ [])
        (handle_topo_get_reply payload manager).requests
handle_topo_get_reply-Includes payload manager index sub_device success there enabled secret =
    let sub_devices = (handle_topo_get_reply payload manager).manager.sub_devices in
    let at_index : 0 + index ≡ index = omega arith in
    subst₂ Includes
      (ap (λ i. request_for i sub_device) at_index
        ∙ request_for_lem index sub_device enabled secret)
      (sym (requests-success payload manager success))
      (requests_from-Includes 0 index sub_devices sub_device there)
