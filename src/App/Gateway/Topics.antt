-- ===== src/App/Gateway/Topics.antt =====
-- src/gateway_manager.c: the topics of the gateway and of its sub-devices.
use aliyun_iot_arm.Prelude.{ℕ, ◌-◌, ◌∷◌, ◌++◌, length, take, Bytes, codes, snprintf}
use aliyun_iot_arm.App.Gateway.{GatewaySubDeviceState, GatewayManager}

abbrev pub topic_size : ℕ
topic_size = 320

-- A topic of the form `front/productKey/deviceName/suffix` in its buffer.
abbrev pub topic_of : (front product_key device_name suffix : Bytes) → Bytes
topic_of front product_key device_name suffix =
    snprintf topic_size (front ++ (product_key ++ (b'/' ∷ (device_name ++ suffix))))

-- `gateway_build_topo_topic`
unfoldable pub topo_topic : GatewayManager → (suffix : Bytes) → Bytes
topo_topic manager suffix =
    topic_of (codes "/sys/") manager.product_key manager.device_name
      (codes "/thing/topo/" ++ suffix)

-- `gateway_build_list_found_topic`
unfoldable pub list_found_topic : GatewayManager → Bytes
list_found_topic manager =
    topic_of (codes "/sys/") manager.product_key manager.device_name (codes "/thing/list/found")

-- The topic of the reply, with `strncat` into what is left of the buffer.
unfoldable pub list_found_reply_topic : GatewayManager → Bytes
unfolding list_found_topic
list_found_reply_topic manager =
    let topic = list_found_topic manager in
    topic ++ take (topic_size - length topic - 1) (codes "_reply")

-- `gateway_build_combine_topic`
unfoldable pub combine_topic : GatewayManager → (suffix : Bytes) → Bytes
combine_topic manager suffix =
    topic_of (codes "/ext/session/") manager.product_key manager.device_name
      (codes "/combine/" ++ suffix)

abbrev pub sub_topic : GatewaySubDeviceState → (suffix : Bytes) → Bytes
sub_topic sub_device suffix =
    topic_of (codes "/sys/") sub_device.config.product_key sub_device.config.device_name suffix

-- `gateway_build_sub_service_prefix` and `gateway_build_sub_post_reply_prefix`
unfoldable pub sub_service_prefix : GatewaySubDeviceState → Bytes
sub_service_prefix sub_device = sub_topic sub_device (codes "/thing/service/")

unfoldable pub sub_post_reply_prefix : GatewaySubDeviceState → Bytes
sub_post_reply_prefix sub_device = sub_topic sub_device (codes "/thing/event/")
