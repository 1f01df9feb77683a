-- ===== src/Mqtt/Codes.antt =====
-- core/aiot_state_api.h: the result codes that the modelled functions return, and
-- core/utils/core_mqtt.h: the packet types and limits.
use aliyun_iot_arm.Prelude.{ℕ, ℤ, pos, neg}

-- An `int32_t` result; a negative one is an error, or the notice of a connection.
abbrev pub Code : Type 0
Code = ℤ

abbrev pub state_success : Code
state_success = pos 0

abbrev pub state_user_input_null_pointer : Code
state_user_input_null_pointer = neg 0x0101

abbrev pub state_user_input_out_range : Code
state_user_input_out_range = neg 0x0102

abbrev pub state_user_input_unknown_option : Code
state_user_input_unknown_option = neg 0x0103

abbrev pub state_user_input_missing_product_key : Code
state_user_input_missing_product_key = neg 0x0104

abbrev pub state_user_input_missing_device_name : Code
state_user_input_missing_device_name = neg 0x0105

abbrev pub state_user_input_missing_device_secret : Code
state_user_input_missing_device_secret = neg 0x0106

abbrev pub state_user_input_missing_host : Code
state_user_input_missing_host = neg 0x0108

abbrev pub state_user_input_exec_disabled : Code
state_user_input_exec_disabled = neg 0x0109

abbrev pub state_user_input_json_parse_failed : Code
state_user_input_json_parse_failed = neg 0x010A

abbrev pub state_sys_depend_malloc_failed : Code
state_sys_depend_malloc_failed = neg 0x0201

abbrev pub state_sys_depend_nwk_invalid_option : Code
state_sys_depend_nwk_invalid_option = neg 0x0202

abbrev pub state_sys_depend_nwk_est_failed : Code
state_sys_depend_nwk_est_failed = neg 0x0203

abbrev pub state_sys_depend_nwk_closed : Code
state_sys_depend_nwk_closed = neg 0x0204

abbrev pub state_sys_depend_nwk_read_lessdata : Code
state_sys_depend_nwk_read_lessdata = neg 0x0205

abbrev pub state_sys_depend_nwk_write_lessdata : Code
state_sys_depend_nwk_write_lessdata = neg 0x0206

abbrev pub state_sys_depend_nwk_send_err : Code
state_sys_depend_nwk_send_err = neg 0x0209

abbrev pub state_sys_depend_nwk_recv_err : Code
state_sys_depend_nwk_recv_err = neg 0x020A

abbrev pub state_mqtt_connack_fmt_error : Code
state_mqtt_connack_fmt_error = neg 0x0301

abbrev pub state_mqtt_connack_rcode_unacceptable_protocol_version : Code
state_mqtt_connack_rcode_unacceptable_protocol_version = neg 0x0302

abbrev pub state_mqtt_connack_rcode_server_unavailable : Code
state_mqtt_connack_rcode_server_unavailable = neg 0x0303

abbrev pub state_mqtt_connack_rcode_bad_username_password : Code
state_mqtt_connack_rcode_bad_username_password = neg 0x0304

abbrev pub state_mqtt_connack_rcode_not_authorized : Code
state_mqtt_connack_rcode_not_authorized = neg 0x0305

abbrev pub state_mqtt_connack_rcode_unknown : Code
state_mqtt_connack_rcode_unknown = neg 0x0306

abbrev pub state_mqtt_publist_packet_id_roll : Code
state_mqtt_publist_packet_id_roll = neg 0x0307

abbrev pub state_mqtt_topic_invalid : Code
state_mqtt_topic_invalid = neg 0x0308

abbrev pub state_mqtt_connect_success : Code
state_mqtt_connect_success = neg 0x030B

abbrev pub state_mqtt_malformed_remaining_len : Code
state_mqtt_malformed_remaining_len = neg 0x030C

abbrev pub state_mqtt_malformed_remaining_bytes : Code
state_mqtt_malformed_remaining_bytes = neg 0x030D

abbrev pub state_mqtt_packet_type_unknown : Code
state_mqtt_packet_type_unknown = neg 0x030E

abbrev pub state_mqtt_suback_rcode_failure : Code
state_mqtt_suback_rcode_failure = neg 0x030F

abbrev pub state_mqtt_suback_rcode_unknown : Code
state_mqtt_suback_rcode_unknown = neg 0x0310

abbrev pub state_mqtt_topic_compare_failed : Code
state_mqtt_topic_compare_failed = neg 0x0311

abbrev pub state_mqtt_deinit_timeout : Code
state_mqtt_deinit_timeout = neg 0x0312

abbrev pub state_mqtt_topic_too_long : Code
state_mqtt_topic_too_long = neg 0x031B

abbrev pub state_mqtt_pub_payload_too_long : Code
state_mqtt_pub_payload_too_long = neg 0x031C

abbrev pub state_mqtt_recv_invalid_pinresp_packet : Code
state_mqtt_recv_invalid_pinresp_packet = neg 0x031E

abbrev pub state_mqtt_recv_invalid_publish_packet : Code
state_mqtt_recv_invalid_publish_packet = neg 0x031F

abbrev pub state_mqtt_recv_invalid_puback_packet : Code
state_mqtt_recv_invalid_puback_packet = neg 0x0320

abbrev pub state_qos_cache_exceeds_limit : Code
state_qos_cache_exceeds_limit = neg 0x0F28

-- `res < STATE_SUCCESS` is `is_neg res`. An error of the port layer is passed on as it is.
abbrev pub port_base : ℕ
port_base = 0x0F00
