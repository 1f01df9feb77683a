-- ===== src/Lib.antt =====
-- The device side of an IDE gateway: an MQTT client (core/), the managers that serve the IDE over it
-- (src/), and the text utilities that both stand on.
--
-- A message from the cloud is read from the connection by the client, which hands it to the handlers
-- whose filters take its topic. The application gives it to the shadow, to the gateway of sub-devices, or to
-- the service that its topic names. The connection manager keeps the lock that one IDE holds on the device;
-- that IDE alone deploys and starts programs.
--
-- Prelude: lists, Boolean tests, integers, bits and texts over native numbers. A text is the list of its
--   bytes without a NUL; functions of libc on texts are in Prelude.Text.
--
-- Mqtt: core/aiot_mqtt_api.c and core/utils/core_mqtt.h.
--   Codes: the result codes of core/aiot_state_api.h, by their names in lower case.
--   Topic: _core_mqtt_topic_is_valid (topic_is_valid) and _core_mqtt_topic_compare (topic_compare).
--   Wire: the packets, one function for each: conn_pkt, subunsub_pkt, pub_pkt, puback_pkt, pingreq_pkt,
--     disconnect_pkt; the remaining length is remain_len_encode.
--   PubList: the QoS 1 messages that wait for a PUBACK, with _core_mqtt_publist_insert and _remove.
--   SubList: the subscriptions, with _core_mqtt_sublist_insert, _remove and _remove_handler; their child
--     Deliver has _core_mqtt_call_user_handler.
--   Client.State: core_mqtt_handle_t as the record Handle, and the port layer as the record Port over a
--     state of its own, a parameter of all that calls it: memory, the clock, sending and receiving. What a
--     function leaves is an Out: its result, the handle, the state of the port layer, and the calls of the
--     user's handlers in order.
--   Client.Net: _core_mqtt_read, _core_mqtt_write, the reading of the remaining length and bytes.
--   Client.Inbound: the handlers of received packets.
--   Client.Outbound: publishing, subscribing, the heartbeat, and sending again (_core_mqtt_repub).
--   Client.Session: notifications, _core_mqtt_reconnect, aiot_mqtt_recv (recv) and aiot_mqtt_process
--     (process). _core_mqtt_connect, which establishes the connection, is a parameter of the section.
--
-- Json: src/json_utils.c. Scan has the searches, Copy the copies into a buffer, Get the getters of members,
--   Array the size and the items of an array. What a call stores and answers is a Copied.
--
-- Ide: src/ide_connection_manager.c. Manager has the lock as a record and the critical section of each
--   request as a function; Manager.Params the texts of answers and reports; Manager.Handle the handlers with
--   their answers; Manager.Lock the sequences of operations.
--
-- App: the rest of src/.
--   Config: device_config.c, from the text of the file on (load).
--   Gateway: gateway_manager.c. The table is GatewayManager; the handlers are functions on it that leave the
--     table and the requests they cause (Gateway.Handle, Gateway.Services), Gateway.Requests has what each
--     request publishes, with core_hmac_sha256 as a parameter, and Gateway.Start the start. Gateway.Refine has
--     the abstract view, a map from names to statuses, and Gateway.Replies what the handlers do to it.
--   Deploy: deploy_manager.c. Deploy.Worker has the stages of the worker over a parameter that answers each
--     action on the system, and whether the worker has memory for its log; Deploy.Success says when a stage
--     succeeds; Deploy.Turns has the requests and the ends of workers as sequences of turns.
--   StartProject: start_manager.c, over what start_background_command answers.
--   Shadow: device_shadow_manager.c.
--   Publish, Services, Dispatch: iot_ide_app.c, from app_publish_topic to app_mqtt_recv_handler. A service leaves
--     the managers and the list of its effects. Lifecycle: app_init and app_shutdown as what
--     they open and close. The escaping functions of deploy_manager.c and start_manager.c
--     and start_build_result_json are those of the connection manager, line by line, and taken from there.
--
-- Utils: Shell has shell_quote of src/shell_utils.c with a reading of quoted words by a shell, Words a reader
--   of commands with quoted words in them, StringBuilder src/string_builder.c, Decimal the unsigned numbers and Hex the hexadecimal texts of core/utils/core_string.c.
--
-- Mutexes: a function that holds a mutex from its first access to its last is one step; the threads of the
-- connection manager interleave as sequences of such steps, and so do the requests and the worker of a
-- deployment. A call to start a program is one step, which sees whether another is under way.
--
-- Fuel: the search for a key takes one round more than the text has bytes, since each round drops a
-- pattern; the remaining length is written in at most five rounds for 32 bits, and its reader refuses in the
-- fifth round at the latest; a decimal number of 64 bits has at most 20 digits; a capacity that is not 0
-- reaches any size of 64 bits in 64 doublings.
--
-- Not modelled: _core_mqtt_connect but for its packet and the reading of its answer's code, the set-up and
-- clearing of the client, and compression; the calls of app_start, the
-- application's threads and its entry points as a library; what a command, a file or a process does, which the worker's parameter
-- answers; core/utils but for its structures, its unsigned decimals and its hexadecimal texts; the adapter and
-- the port layer (core/sysdep, portfiles), which the record Port stands for; external/mbedtls, a library of its
-- own. The builders of texts in App have the memory they ask for; that of the deployment's log and of each
-- answer is a parameter. Logging and diagnosis have no effect on the states and are left out where they
-- stand. Time limits of reads and writes belong to the port layer.
pub mod Prelude
pub mod Json
pub mod Mqtt
pub mod Ide
pub mod Utils
pub mod App
