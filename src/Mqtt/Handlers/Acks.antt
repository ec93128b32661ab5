-- ===== src/Mqtt/Handlers/Acks.antt =====
-- What a SUBACK and an UNSUBACK do to the client.
use esp_qcloud.Prelude.{
  ℕ, ◌≡◌, refl, ◌∙◌, arith, Option, none, some, Bool, true, false, List, [], length, get_or, ◌==◌,
  if◌then◌else◌, Outcome, ok, err, fault, Bool-cases, inl, inr,
}
use esp_qcloud.Prelude.Codes.{mqtt_sub}
use esp_qcloud.Mqtt.Ack.{deserialize_suback_packet, deserialize_unsuback_packet}
use esp_qcloud.Mqtt.Client.{
  Client, SubTopicHandle, subscribe_nack, subscribe_success, notify, notify_subscriber,
}
use esp_qcloud.Mqtt.WaitList.{
  mask_sub, masked_handler, mask_sub_info_from, allocate_iterator, allocate,
}
use esp_qcloud.Mqtt.SubTable.{is_occupied, put_handle}
use esp_qcloud.Mqtt.Frame.{
  SameCore, Goes, stay-Goes, core-Goes, then-Goes, continue-Goes, notify-SameCore,
  notify_subscriber-SameCore,
}
use esp_qcloud.Mqtt.WaitList.Frame.{mask_sub_info_from-Goes}
use esp_qcloud.Mqtt.SubTable.Put.{put_handle-NoTwins}
use esp_qcloud.Mqtt.Handlers.{
  report_nack, has_filter, masked, subscribed, handle_suback_packet, handle_unsuback_packet,
}

put-Goes :
    (r : Outcome (List SubTopicHandle)) (id : ℕ) (h : SubTopicHandle) (c : Client)
    → put_handle c.sub_handles h ≡ r
    → is_occupied h.topic_filter ≡ true
    → Goes c (subscribed false id h c).1
unfolding subscribed
put-Goes (ok table) id h c e o =
    let d = record c { sub_handles = table } in
    let put : Goes c d = (
      refl,
      (
        omega arith,
        (λ n (twins, size).
            let (twins', size', held) = put_handle-NoTwins c.sub_handles h table o twins e in
            (twins', size' ∙ size)),
        λ s. s,
      ),
    ) in
    let told = notify subscribe_success id d in
    let last = notify_subscriber h.sub_event_handler subscribe_success h.handler_user_data told in
    let same : SameCore d last =
      notify_subscriber-SameCore h.sub_event_handler subscribe_success h.handler_user_data told
      ∙ notify-SameCore subscribe_success id d in
    simp e (then-Goes c d last put (core-Goes d last same))
put-Goes (err x) id h c e o = simp e (refl, (omega arith, (λ n s. s), λ s. s))
put-Goes fault id h c e o = simp e (refl, (omega arith, (λ n s. s), λ s. s))

subscribed-Goes :
    (nack : Bool) (id : ℕ) (h : SubTopicHandle) (c : Client)
    → is_occupied h.topic_filter ≡ true
    → Goes c (subscribed nack id h c).1
unfolding subscribed
subscribed-Goes true id h c o =
    core-Goes c (notify_subscriber h.sub_event_handler subscribe_nack h.handler_user_data c)
      (notify_subscriber-SameCore h.sub_event_handler subscribe_nack h.handler_user_data c)
subscribed-Goes false id h c o = put-Goes (put_handle c.sub_handles h) id h c refl o

filter_occupied : (f : Option (List ℕ)) → has_filter f ≡ true → is_occupied f ≡ true
unfolding has_filter
filter_occupied none e = cc e
filter_occupied (some f) e = refl

masked-Goes :
    (nack : Bool) (id : ℕ) (h : Option SubTopicHandle) (c : Client) → Goes c (masked nack id h c).1
unfolding masked
masked-Goes nack id none c = stay-Goes c
masked-Goes nack id (some h) c = elim (Bool-cases (has_filter h.topic_filter)) [
  | inl y ↦ rw y (subscribed-Goes nack id h c (filter_occupied h.topic_filter y))
  | inr n ↦ rw n (stay-Goes c)
]

report-SameCore : (nack : Bool) (id : ℕ) (c : Client) → SameCore c (report_nack nack id c).1
unfolding report_nack
report-SameCore nack id c = ground arith

pub handle_suback_packet-Goes : (c : Client) → Goes c (handle_suback_packet c).1
unfolding handle_suback_packet
handle_suback_packet-Goes c =
    continue-Goes c c (deserialize_suback_packet 1 c.read_buf (length c.read_buf)) _ (stay-Goes c)
      (λ (id, granted).
        let nack = get_or granted 0 0 == 0x80 in
        let (r, d) = report_nack nack id c in
        continue-Goes c d r _ (core-Goes c d (report-SameCore nack id c)) (λ u.
          let (h, e) = mask_sub_info_from id d in
          continue-Goes d e h _ (mask_sub_info_from-Goes id d) (λ h. masked-Goes nack id h e)))

-- A SUBACK that grants the subscription which waits for its id, whose handle has a topic filter and
-- finds a place in the table: the table becomes the one with the handle, and the waiting node is
-- masked. The iterator got its memory.
pub handle_suback_packet_granted :
    (id : ℕ) (granted : List ℕ) (h : SubTopicHandle) (table : List SubTopicHandle) (c : Client)
    → deserialize_suback_packet 1 c.read_buf (length c.read_buf) ≡ ok (id, granted)
    → (get_or granted 0 0 == 0x80) ≡ false
    → c.world.allocations ≡ []
    → masked_handler id c.list_sub_wait_ack ≡ some h
    → has_filter h.topic_filter ≡ true
    → put_handle c.sub_handles h ≡ ok table
    → let r = handle_suback_packet c in
      (r.0 ≡ ok tt)
      × (r.1.sub_handles ≡ table)
      × (r.1.list_sub_wait_ack ≡ mask_sub id c.list_sub_wait_ack)
unfolding handle_suback_packet report_nack masked subscribed mask_sub_info_from allocate_iterator
    allocate
handle_suback_packet_granted id granted h table c read code memory waits filter put = ground arith

-- A SUBACK that refuses the subscription which waits for its id adds no handle. The result is an
-- error if the client's handler is set; if it is not, the null pointer is called.
pub handle_suback_packet_refused :
    (id : ℕ) (granted : List ℕ) (h : SubTopicHandle) (c : Client)
    → deserialize_suback_packet 1 c.read_buf (length c.read_buf) ≡ ok (id, granted)
    → (get_or granted 0 0 == 0x80) ≡ true
    → c.world.allocations ≡ []
    → masked_handler id c.list_sub_wait_ack ≡ some h
    → has_filter h.topic_filter ≡ true
    → let r = handle_suback_packet c in
      (r.0 ≡ (if c.has_event_handler then err mqtt_sub else fault))
      × (r.1.sub_handles ≡ c.sub_handles)
unfolding handle_suback_packet report_nack masked subscribed mask_sub_info_from allocate_iterator
    allocate
handle_suback_packet_refused id granted h c read code memory waits filter = ground arith

-- An UNSUBACK whose id no node waits for reads a handle that was never set.
pub handle_unsuback_packet_unset :
    (id : ℕ) (c : Client)
    → deserialize_unsuback_packet c.read_buf (length c.read_buf) ≡ ok id
    → masked_handler id c.list_sub_wait_ack ≡ none
    → (handle_unsuback_packet c).0 ≡ fault
unfolding handle_unsuback_packet mask_sub_info_from allocate_iterator allocate
handle_unsuback_packet_unset id c read waits = ground arith
