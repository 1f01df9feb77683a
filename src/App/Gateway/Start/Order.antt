-- ===== src/App/Gateway/Start/Order.antt =====
-- src/gateway_manager.c: the calls of the start, and their order.
use aliyun_iot_arm.Prelude.{
  ℕ, zero, suc, ◌-◌, ◌≡◌, refl, sym, ap, ◌∙◌, ◌≢◌, ◌⊎◌, inl, inr, Bool, true, false, ◌&&◌, List, [],
  ◌∷◌, ◌++◌, map, append_assoc, arith, Bool-cases, length, take, Bytes, codes,
}
use aliyun_iot_arm.App.Gateway.{GatewaySubDeviceState, GatewayManager}
use aliyun_iot_arm.App.Gateway.Requests.{list_found, topo_get}
use aliyun_iot_arm.App.Gateway.Topics.{
  topic_of, topo_topic, list_found_topic, list_found_reply_topic, combine_topic,
}
use aliyun_iot_arm.App.Gateway.Start.{
  Call, subscribe, request, sub_device_calls, start_calls, until_failure, start,
}

-- Whether every call answers 0.
unfoldable pub all_answer : (answers : Call → Bool) → List Call → Bool
all_answer answers [] = true
all_answer answers (call ∷ calls) = answers call && all_answer answers calls

until_failure-fst :
    (answers : Call → Bool) (calls : List Call)
    → (until_failure answers calls).0 ≡ all_answer answers calls
unfolding until_failure all_answer
until_failure-fst answers [] = refl
until_failure-fst answers (call ∷ calls) = ground (arith, until_failure-fst answers calls)

until_failure-success :
    (answers : Call → Bool) (calls : List Call)
    → all_answer answers calls ≡ true
    → (until_failure answers calls).1 ≡ calls
unfolding until_failure all_answer
until_failure-success answers [] all = refl
until_failure-success answers (call ∷ calls) all =
    ground (arith, until_failure-success answers calls)

until_failure-failure :
    (answers : Call → Bool) (calls : List Call)
    → all_answer answers calls ≡ false
    → (before : List Call) × (failing : Call) × (after : List Call) × ((until_failure answers
          calls).1
        ≡ before ++ (failing ∷ []))
      × (calls ≡ before ++ (failing ∷ after))
      × (all_answer answers before ≡ true)
      × (answers failing ≡ false)
unfolding until_failure all_answer
until_failure-failure answers [] some_fail = absurd (cc)
until_failure-failure answers (call ∷ calls) some_fail = elim (Bool-cases (answers call)) [
  | inl e ↦
      let (before, failing, after, made, split, fine, fails) =
        until_failure-failure answers calls (ground arith) in
      (
        call ∷ before,
        failing,
        after,
        ground (arith, ap (λ l. call ∷ l) made),
        ap (λ l. call ∷ l) split,
        ground arith,
        fails,
      )
  | inr e ↦ ([], call, calls, ground arith, refl, refl, e)
]

take-tail :
    (n : ℕ) (front back : Bytes)
    → take n front ++ take (n - length (take n front)) back ≡ take n (front ++ back)
take-tail zero front back = ground arith
take-tail (suc n) [] back = ground arith
take-tail (suc n) (c ∷ front) back =
    let left : suc n - length (take (suc n) (c ∷ front)) ≡ n - length (take n front) =
      omega arith in
    ap (λ m. c ∷ (take n front ++ take m back)) left ∙ ap (λ l. c ∷ l) (take-tail n front back)

-- The topics that the start is to subscribe to: three of the gateway, and two of each sub-device, each
-- cut to the 319 bytes that a buffer of 320 takes.
abbrev pub device_topics : List GatewaySubDeviceState → List Bytes
device_topics [] = []
device_topics (sub_device ∷ sub_devices) =
    let name = sub_device.config.product_key ++ (codes "/" ++ sub_device.config.device_name) in
    take 319 (codes "/sys/" ++ (name ++ codes "/thing/service/#"))
    ∷ take 319 (codes "/sys/" ++ (name ++ codes "/thing/event/+/post_reply"))
    ∷ device_topics sub_devices

abbrev pub wanted_topics : GatewayManager → List Bytes
wanted_topics manager =
    let name = manager.product_key ++ (codes "/" ++ manager.device_name) in
    take 319 (codes "/sys/" ++ (name ++ codes "/thing/topo/#"))
    ∷ take 319 (codes "/sys/" ++ (name ++ codes "/thing/list/found_reply"))
    ∷ take 319 (codes "/ext/session/" ++ (name ++ codes "/combine/#"))
    ∷ device_topics manager.sub_devices

abbrev pub wanted_calls : GatewayManager → List Call
wanted_calls manager =
    map subscribe (wanted_topics manager) ++ (request list_found ∷ request topo_get ∷ [])

topic_lem :
    (front product_key device_name suffix : Bytes)
    → topic_of front product_key device_name suffix
      ≡ take 319 (front ++ ((product_key ++ (codes "/" ++ device_name)) ++ suffix))
topic_lem front product_key device_name suffix =
    ap (λ l. take 319 (front ++ l))
      (sym (append_assoc product_key (codes "/" ++ device_name) suffix))

list_found_reply_lem :
    (manager : GatewayManager)
    → list_found_reply_topic manager
      ≡ take 319 (
          codes "/sys/"
          ++ ((manager.product_key ++ (codes "/" ++ manager.device_name))
              ++ codes "/thing/list/found_reply"))
unfolding list_found_reply_topic list_found_topic
list_found_reply_lem manager =
    let text =
      codes "/sys/"
      ++ (manager.product_key ++ (b'/' ∷ (manager.device_name ++ codes "/thing/list/found"))) in
    let longer : text ++ codes "_reply"
        ≡ codes "/sys/"
          ++ ((manager.product_key ++ (codes "/" ++ manager.device_name))
              ++ codes "/thing/list/found_reply") =
      simp append_assoc refl in
    let room : 320 - length (take 319 text) - 1 ≡ 319 - length (take 319 text) = omega arith in
    ap (λ n. take 319 text ++ take n (codes "_reply")) room
    ∙ take-tail 319 text (codes "_reply")
    ∙ ap (take 319) longer

sub_device_calls_lem :
    (sub_devices : List GatewaySubDeviceState)
    → sub_device_calls sub_devices ≡ map subscribe (device_topics sub_devices)
unfolding sub_device_calls
sub_device_calls_lem [] = refl
sub_device_calls_lem (sub_device ∷ sub_devices) =
    let product_key = sub_device.config.product_key in
    let device_name = sub_device.config.device_name in
    λ i.
      subscribe (topic_lem (codes "/sys/") product_key device_name (codes "/thing/service/#") i)
      ∷ subscribe
          (topic_lem (codes "/sys/") product_key device_name (codes "/thing/event/+/post_reply") i)
      ∷ sub_device_calls_lem sub_devices i

start_calls_lem : (manager : GatewayManager) → start_calls manager ≡ wanted_calls manager
unfolding start_calls topo_topic combine_topic
start_calls_lem manager =
    let product_key = manager.product_key in
    let device_name = manager.device_name in
    λ i.
      subscribe (topic_lem (codes "/sys/") product_key device_name (codes "/thing/topo/#") i)
      ∷ subscribe (list_found_reply_lem manager i)
      ∷ subscribe (topic_lem (codes "/ext/session/") product_key device_name (codes "/combine/#") i)
      ∷ (sub_device_calls_lem manager.sub_devices i ++ (request list_found ∷ request topo_get ∷ []))

-- With a sub-device in its table the gateway's start is to subscribe to the topics of the topology, of the
-- reply on the list and of the combined sessions, then to the services and the replies on events of each
-- sub-device in the order of the table, and then to make the requests for the list and for the topology. It
-- makes all of these calls, in this order, and answers 0 when each answers 0; otherwise it makes those up
-- to the first that fails, that one included, and answers -1. No topic is longer than its buffer takes.
pub start_lem :
    (answers : Call → Bool) (manager : GatewayManager)
    → length manager.sub_devices ≢ 0
    → ((start answers manager ≡ (true, wanted_calls manager))
        × (all_answer answers (wanted_calls manager) ≡ true))
      ⊎ ((before : List Call) × (failing : Call) × (after : List Call) × (start answers manager
            ≡ (false, before ++ (failing ∷ [])))
          × (wanted_calls manager ≡ before ++ (failing ∷ after))
          × (all_answer answers before ≡ true)
          × (answers failing ≡ false))
unfolding start
start_lem answers manager some_device =
    let calls = wanted_calls manager in
    let ok = until_failure-fst answers calls in
    let begun : start answers manager ≡ until_failure answers calls =
      ground arith ∙ ap (until_failure answers) (start_calls_lem manager) in
    elim (Bool-cases (all_answer answers calls)) [
      | inl e ↦ inl (begun ∙ (λ i. ((ok ∙ e) i, until_failure-success answers calls e i)), e)
      | inr e ↦
          let (before, failing, after, made, split, fine, fails) =
            until_failure-failure answers calls e in
          inr (before, failing, after, begun ∙ (λ i. ((ok ∙ e) i, made i)), split, fine, fails)
    ]
