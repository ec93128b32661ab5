-- ===== src/Lib.antt =====
-- Verification of the Tencent Cloud IoT C SDK in qcloud_iot_c_sdk.
--
-- The program is a C library for a device that talks to a cloud: an MQTT client, on it a device
-- shadow and firmware updates, beside it a CoAP client. Modelled are the MQTT client, from its
-- construction and the bytes of its packets to the handlers of what it receives and the calls of
-- the user, the messages of the CoAP client, the download of a firmware, the ring buffer of the AT
-- client, the linked list and the hexadecimal conversions, in these modules (sdk_src in the
-- comments of the files is qcloud_iot_c_sdk/sdk_src):
--
--   Prelude           lists as C arrays, Boolean tests, bits, the error codes of
--                     qcloud_iot_c_sdk/include/exports/qcloud_iot_export_error.h, and Outcome: a
--                     result, an error code, or a fault, which is an access outside a buffer, a null
--                     pointer or an unset variable
--   Ring              the ring buffer (qcloud_iot_c_sdk/sdk_src/utils_ringbuff.c); Ring/Queue is the
--                     bounded queue that it refines
--   UtilsList         the doubly linked list (utils_list.c): UtilsList/Heap is the memory of its nodes,
--                     Heap/Links the segments that are linked both ways, and the other files the
--                     functions
--   Hex               bytes as hexadecimal text (the conversions of string_utils.c)
--   Coap/Message      a CoAP message, its setters and its list of options (coap_client_common.c)
--   Coap/Serialize    a message to bytes (coap_client_serialize.c)
--   Coap/Deserialize  bytes to a message (coap_client_deserialize.c)
--   Coap/Client       the client's state, with the clock, the network and the allocator that it meets
--   Coap/Waiting      the list of requests that wait, and the passes over it: ACK, response, WAIT
--                     (_coap_message_list_proc of coap_client_message.c)
--   Coap/Exchange     sending, receiving and the cycle (the rest of coap_client_message.c)
--   Coap/Request      IOT_COAP_SendMessage, the request of coap_client_auth, and reading an answer
--                     (coap_client.c, coap_client_auth.c)
--   Ota               the download of a firmware and its check (ota_client.c); what the server sends and
--                     what becomes of a report are replies, the hash is a parameter
--   Mqtt/Wire         remaining length, integers and strings (qcloud_iot_c_sdk/sdk_src/mqtt_client_common.c)
--   Mqtt/Header       the first byte of a packet (qcloud_iot_c_sdk/sdk_src/mqtt_client_common.c)
--   Mqtt/Ack          PUBACK, PUBREC, PUBREL, SUBACK, UNSUBACK, CONNACK (common, publish, connect)
--   Mqtt/Connect      CONNECT packets (mqtt_client_connect.c); the user name and the password are parameters
--   Mqtt/Publish      PUBLISH packets (qcloud_iot_c_sdk/sdk_src/mqtt_client_publish.c)
--   Mqtt/Subscribe    SUBSCRIBE and UNSUBSCRIBE packets (mqtt_client_subscribe.c, mqtt_client_unsubscribe.c)
--   Mqtt/Topic        a topic filter against a topic (_is_topic_matched)
--   Mqtt/PacketId     get_next_packet_id
--   Mqtt/Repeat       the ids received last (sg_repeat_packet_id_buf)
--   Mqtt/Client       Qcloud_IoT_Client as a record, and the world that it meets: readings of the
--                     clock, replies of the network, answers of the allocator, and a log of outputs
--   Mqtt/WaitList     list_pub_wait_ack and list_sub_wait_ack: push and mask
--   Mqtt/Expiry       the passes over these lists (qcloud_iot_c_sdk/sdk_src/mqtt_client_yield.c)
--   Mqtt/Net          send_mqtt_packet and _read_mqtt_packet
--   Mqtt/Routing      which handler takes a message (the loop of _deliver_message)
--   Mqtt/SubTable     the table sub_handles and how a SUBACK changes it
--   Mqtt/Deliver      _deliver_message, _handle_publish_packet, _handle_pubrec_packet
--   Mqtt/Handlers     the other handlers and cycle_for_read
--   Mqtt/Request      qcloud_iot_mqtt_publish, _subscribe and _resubscribe
--   Mqtt/Unsubscribe  qcloud_iot_mqtt_unsubscribe
--   Mqtt/Timed        a loop that ends when its timer has expired
--   Mqtt/Wait         wait_for_read
--   Mqtt/Session      qcloud_iot_mqtt_disconnect, _handle_disconnect and _mqtt_keep_alive;
--                     Session/Connection is _mqtt_connect and its callers (mqtt_client_connect.c),
--                     Session/Yield qcloud_iot_mqtt_yield and _handle_reconnect (mqtt_client_yield.c)
--   Mqtt/Life         the construction and the end of a client (mqtt_client.c); Life/Resources are its locks
--                     and lists, Life/Init is qcloud_iot_mqtt_init
--   Mqtt/Frame        what a step may change, with a lemma for each operation in the files of
--                     this name
--
-- A function of the C code that only computes is a function into Outcome. One that changes the
-- client is an Action, from a client to an outcome and a client, so that what it changed before
-- an error stays changed. A received packet goes from Net to Handlers, which mask nodes of
-- WaitList, change SubTable, or go through Deliver to Routing and Repeat; what they answer goes
-- out by Net. Session/Yield drives them, with the passes of Expiry and the keep alive, and
-- Session/Connection when there is no connection, which sends the CONNECT packet and subscribes
-- again by Request.
--
-- Numbers are natural; a wrap of a 16-bit or 32-bit integer is written out, and a size_t has 32
-- bits. A byte is a number that the theorems bound where they need it. A pointer into a buffer
-- is what the buffer holds from there on, with its offset. Buffers are lists, and their sizes
-- are lengths. The recursions are structural: on the buffer, on the bytes that are left, on the
-- rounds that the code allows, and in send_mqtt_packet on the readings of the clock, since a
-- timer for which no reading is left has expired. For the same reason the loops of Wait and
-- Yield, whose rounds test a timer first, get as many rounds as there are readings. A `char` of
-- the CoAP code is a byte from 0 to 255, and a 16-bit load is that of a little-endian host. The
-- loop over received options has fuel, one more than the bytes, which is enough, since a round
-- parses a byte at least. The rounds of the loop that discards a long packet are as many as the
-- packet has bytes, which is enough, since each read that succeeds takes one.
--
-- A CoAP request goes from Request to Exchange, and by Serialize to the network and into the
-- list of Waiting; what is received goes by Deserialize to a pass over that list. The allocator
-- of the CoAP messages is a parameter: for a size, whether it gives memory. The cycle of the
-- CoAP client makes one pass each.
--
-- A node of a linked list stands at an address, NULL and an address without a node fault, and the
-- search of a list has fuel, one more than its count, which is enough for a list that is one. The
-- waiting lists of the clients are sequences of nodes.
--
-- Locks are counted by Mqtt/Life and do nothing else: a function runs without another thread
-- between its steps. A callback is a number, and its call an output; it does not change the
-- client. Memory that is freed is modelled for linked lists only, and the identity of copies of
-- a topic filter is not. MQTT_RMDUP_MSG_ENABLED, which nothing in the repository defines, is
-- taken as defined. The timeouts that are handed to the network decide nothing. The setters and
-- getters of mqtt_client.c, the upload of logs, the shadow, the other functions of
-- string_utils.c, the messages of the update, the construction of a CoAP client and what it
-- makes of the answer to its authentication, JSON, HTTP, and the copies of mbedtls (hash
-- functions, AES, base64) are not modelled.
pub mod Prelude
pub mod Ring
pub mod Hex
pub mod Mqtt
pub mod Coap
pub mod Ota
pub mod UtilsList
