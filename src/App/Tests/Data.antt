-- ===== src/App/Tests/Data.antt =====
-- A configuration, a table and messages that the runs share.
use aliyun_iot_arm.Prelude.{true, false, [], ◌∷◌, Bytes, codes}
use aliyun_iot_arm.App.Config.{SubDeviceConfig, DeviceConfig}
use aliyun_iot_arm.App.Gateway.{GatewaySubDeviceState, GatewayManager}
use aliyun_iot_arm.App.Deploy.Turns.{Supply}
use aliyun_iot_arm.App.Shadow.{DeviceShadowManager, shadow_init}

abbrev pub sub_config : (name secret : Bytes) → SubDeviceConfig
sub_config name secret = record {
  product_key = codes "pk";
  device_name = name;
  device_secret = secret;
  sign_method = codes "hmacsha256";
}

abbrev pub config : DeviceConfig
config = record {
  product_key = codes "gk";
  device_name = codes "gw";
  device_secret = codes "s";
  instance_id = codes "i";
  region = [];
  sub_devices = sub_config (codes "d1") (codes "s1") ∷ sub_config (codes "d2") (codes "s2") ∷ [];
}

abbrev pub device : SubDeviceConfig → GatewaySubDeviceState
device c = record {
  config = c;
  topo_added = false;
  online = false;
  disabled = false;
  last_property_json = codes "{}";
}

abbrev pub gateway : GatewayManager
gateway = record {
  product_key = codes "gk";
  device_name = codes "gw";
  sub_devices =
      device (sub_config (codes "d1") (codes "s1"))
      ∷ device (sub_config (codes "d2") (codes "s2"))
      ∷ [];
}

abbrev pub supply : Supply
supply = record { has_task = true; has_thread = true; had = λ n. true }

abbrev pub deployment : Bytes
deployment = codes "{\"clientId\":\"ide1\",\"downloadUrl\":\"http://h/a.zip\"}"

abbrev pub shadow : DeviceShadowManager
shadow = shadow_init config

abbrev pub shadow_message : Bytes
shadow_message = codes "{\"method\":\"reply\",\"version\":12}"
