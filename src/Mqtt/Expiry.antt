-- ===== src/Mqtt/Expiry.antt =====
-- The passes over the waiting lists that remove what is acknowledged or late:
-- `qcloud_iot_mqtt_pub_info_proc` and `qcloud_iot_mqtt_sub_info_proc` of
-- sdk_src/mqtt_client_yield.c. They go from the tail to the head.
pub mod Laws
pub mod Frame
use esp_qcloud.Prelude.{ℕ, Option, none, some, Bool, true, false, not, List, [], ◌∷◌, if◌then◌else◌}
use esp_qcloud.Mqtt.Header.{MessageType, subscribe}
use esp_qcloud.Mqtt.Client.{
  Client, SubTopicHandle, NodeState, normal, invalid, PubInfo, SubInfo, publish_timeout,
  subscribe_timeout, unsubscribe_timeout, notify, notify_subscriber,
}
use esp_qcloud.Mqtt.WaitList.{allocate, countdown_ms, has_time_left, is_empty}

-- A late publish is reported, and its timer is started again before its node is removed.
late_pub : PubInfo → Client → Client
late_pub n c =
    let (end_time, c') = countdown_ms c.command_timeout_ms c in
    notify publish_timeout n.pub_msg_id c'

-- Whether a node stays.
visit_pub : NodeState → PubInfo → Client → Bool × Client
unfolding late_pub
visit_pub invalid n c = (false, c)
visit_pub normal n c =
    if not c.is_connected
    then (true, c)
    else (let (left, c') = has_time_left n.pub_end_time c in
        if left then (true, c') else (false, late_pub n c'))

pub_pass : List PubInfo → Client → List PubInfo × Client
unfolding visit_pub
pub_pass [] c = ([], c)
pub_pass (n ∷ ns) c =
    let (ns', c') = pub_pass ns c in
    let (stays, d) = visit_pub n.pub_state n c' in (if stays then n ∷ ns' else ns', d)

-- Nothing is done to an empty list, or if the iterator gets no memory.
unfoldable pub pub_info_proc : Client → Client
unfolding pub_pass
pub_info_proc c =
    if is_empty c.list_pub_wait_ack
    then c
    else (let (iterator, d) = allocate c in
        let (nodes, e) = pub_pass d.list_pub_wait_ack d in
        if iterator then record e { list_pub_wait_ack = nodes } else d)

is_subscribe : MessageType → Bool
is_subscribe subscribe = true
is_subscribe _ = false

-- The subscription's own handler hears of a late SUBSCRIBE, and only if the client has one.
late_sub : SubInfo → Client → Client
unfolding is_subscribe
late_sub n c =
    if not c.has_event_handler
    then c
    else if is_subscribe n.sub_type
    then notify subscribe_timeout n.sub_msg_id (
        notify_subscriber n.handler.sub_event_handler subscribe_timeout n.handler.handler_user_data
          c)
    else notify unsubscribe_timeout n.sub_msg_id c

visit_sub : NodeState → SubInfo → Client → Bool × Client
unfolding late_sub
visit_sub invalid n c = (false, c)
visit_sub normal n c =
    if not c.is_connected
    then (true, c)
    else (let (left, c') = has_time_left n.sub_end_time c in
        if left then (true, c') else (false, late_sub n c'))

sub_pass : List SubInfo → Client → List SubInfo × Client
unfolding visit_sub
sub_pass [] c = ([], c)
sub_pass (n ∷ ns) c =
    let (ns', c') = sub_pass ns c in
    let (stays, d) = visit_sub n.sub_state n c' in (if stays then n ∷ ns' else ns', d)

unfoldable pub sub_info_proc : Client → Client
unfolding sub_pass
sub_info_proc c =
    if is_empty c.list_sub_wait_ack
    then c
    else (let (iterator, d) = allocate c in
        let (nodes, e) = sub_pass d.list_sub_wait_ack d in
        if iterator then record e { list_sub_wait_ack = nodes } else d)
