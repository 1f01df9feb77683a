-- ===== src/App/Gateway/Others.antt =====
-- src/gateway_manager.c: the messages that are left to the other components.
use aliyun_iot_arm.Prelude.{
  ◌≡◌, refl, ap, inl, inr, true, false, none, List, [], ◌∷◌, arith, Bool-cases, Bytes, codes,
  starts_with, str_eq, str_eq_iff,
}
use aliyun_iot_arm.App.Gateway.{GatewaySubDeviceState, GatewayManager}
use aliyun_iot_arm.App.Gateway.Topics.{
  topo_topic, list_found_reply_topic, combine_topic, sub_service_prefix, sub_post_reply_prefix,
}
use aliyun_iot_arm.App.Gateway.Services.{
  find_prefix, handle_sub_service_message, handle_sub_post_reply, handle_sub_device, handle_message,
  first_of,
}

starts_with_trans :
    (p q text : Bytes)
    → starts_with p q ≡ true
    → starts_with q text ≡ true
    → starts_with p text ≡ true
unfolding starts_with
starts_with_trans [] q text first second = refl
starts_with_trans (c ∷ p) [] text first second = absurd (cc)
starts_with_trans (c ∷ p) (d ∷ q) [] first second = absurd (cc)
starts_with_trans (c ∷ p) (d ∷ q) (e ∷ text) first second =
    ground (arith, starts_with_trans p q text)

-- A topic that does not start as another text does is another text.
module _ (front topic : Bytes) (apart : starts_with front topic ≡ false) where
  differs : (other : Bytes) → starts_with front other ≡ true → str_eq topic other ≡ false
  differs other starts = elim (Bool-cases (str_eq topic other)) [
    | inl e ↦
        let same = (str_eq_iff topic other).0 e in
        absurd (ground (arith, ap (starts_with front) same))
    | inr e ↦ e
  ]

  no_prefix : (other : Bytes) → starts_with front other ≡ true → starts_with other topic ≡ false
  no_prefix other starts = ground (arith, starts_with_trans front other topic starts)

abbrev sys : Bytes
sys = codes "/sys/"

abbrev session : Bytes
session = codes "/ext/session/"

module _ (topic : Bytes) (apart : starts_with sys topic ≡ false) where
  find_prefix-none :
      (sub_devices : List GatewaySubDeviceState)
      → find_prefix sub_service_prefix topic sub_devices ≡ none
  unfolding find_prefix
  find_prefix-none [] = refl
  find_prefix-none (sub_device ∷ sub_devices) =
      let starts : starts_with sys (sub_service_prefix sub_device) ≡ true =
        unfold sub_service_prefix starts_with in refl in
      ground (
        arith,
        find_prefix-none sub_devices,
        no_prefix sys topic apart (sub_service_prefix sub_device) starts,
      )

  no_post_reply :
      (sub_devices : List GatewaySubDeviceState) → handle_sub_post_reply topic sub_devices ≡ false
  unfolding handle_sub_post_reply
  no_post_reply [] = refl
  no_post_reply (sub_device ∷ sub_devices) =
      let starts : starts_with sys (sub_post_reply_prefix sub_device) ≡ true =
        unfold sub_post_reply_prefix starts_with in refl in
      ground (
        arith,
        no_post_reply sub_devices,
        no_prefix sys topic apart (sub_post_reply_prefix sub_device) starts,
      )

  handle_sub_device-none :
      (payload : Bytes) (manager : GatewayManager) → handle_sub_device topic payload manager ≡ none
  unfolding handle_sub_device handle_sub_service_message
  handle_sub_device-none payload manager =
      ground (arith, find_prefix-none manager.sub_devices, no_post_reply manager.sub_devices)

-- A message whose topic starts neither with "/sys/" nor with "/ext/session/" is left to the others: the
-- gateway answers 0 and its table stays as it is.
pub handle_message-none :
    (topic payload : Bytes) (manager : GatewayManager)
    → starts_with (codes "/sys/") topic ≡ false
    → starts_with (codes "/ext/session/") topic ≡ false
    → handle_message topic payload manager ≡ none
unfolding handle_message first_of
handle_message-none topic payload manager not_sys not_session =
    let topo = λ (suffix : Bytes).
      differs sys topic not_sys (topo_topic manager suffix)
        (unfold topo_topic starts_with in refl) in
    let reply =
      differs sys topic not_sys (list_found_reply_topic manager)
        (unfold list_found_reply_topic starts_with in refl) in
    let combine = λ (suffix : Bytes).
      differs session topic not_session (combine_topic manager suffix)
        (unfold combine_topic starts_with in refl) in
    ground (
      arith,
      topo (codes "get_reply"),
      topo (codes "add_reply"),
      topo (codes "add/notify"),
      topo (codes "change"),
      reply,
      combine (codes "login_reply"),
      combine (codes "logout_reply"),
      handle_sub_device-none topic not_sys payload manager,
    )
