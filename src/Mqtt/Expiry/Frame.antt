-- ===== src/Mqtt/Expiry/Frame.antt =====
-- The passes over the waiting lists leave the connection and the table alone, and no list longer.
use esp_qcloud.Prelude.{
  ℕ, suc, ◌≤◌, arith, Bool, true, false, not, List, [], ◌∷◌, length, if◌then◌else◌, Bool-cases, inl,
  inr,
}
use esp_qcloud.Mqtt.Client.{
  Client, PubInfo, SubInfo, NodeState, normal, invalid, EventType, publish_timeout,
  subscribe_timeout, unsubscribe_timeout, notify, notify_subscriber,
}
use esp_qcloud.Mqtt.Frame.{
  Goes, stay-Goes, core-Goes, then-Goes, notify-SameCore, notify_subscriber-SameCore,
}
use esp_qcloud.Mqtt.WaitList.{allocate, countdown_ms, has_time_left, is_empty}
use esp_qcloud.Mqtt.WaitList.Frame.{countdown_ms-Goes, has_time_left-Goes, allocate-SameCore}
use esp_qcloud.Mqtt.Expiry.{
  late_pub, visit_pub, pub_pass, pub_info_proc, is_subscribe, late_sub, visit_sub, sub_pass,
  sub_info_proc,
}

notified-Goes : (e : EventType) (x : ℕ) (c d : Client) → Goes c d → Goes c (notify e x d)
notified-Goes e x c d goes =
    then-Goes c d (notify e x d) goes (core-Goes d (notify e x d) (notify-SameCore e x d))

late_pub-Goes : (n : PubInfo) (c : Client) → Goes c (late_pub n c)
unfolding late_pub
late_pub-Goes n c =
    notified-Goes publish_timeout n.pub_msg_id c (countdown_ms c.command_timeout_ms c).1
      (countdown_ms-Goes c.command_timeout_ms c)

visit_pub-Goes : (s : NodeState) (n : PubInfo) (c : Client) → Goes c (visit_pub s n c).1
unfolding visit_pub
visit_pub-Goes invalid n c = stay-Goes c
visit_pub-Goes normal n c = elim (Bool-cases (not c.is_connected)) [
  | inl off ↦ rw off (stay-Goes c)
  | inr on ↦
      let (left, d) = has_time_left n.pub_end_time c in
      let goes = has_time_left-Goes n.pub_end_time c in
      rw on (elim (Bool-cases left) [
        | inl y ↦ rw y goes
        | inr late ↦ rw late (then-Goes c d (late_pub n d) goes (late_pub-Goes n d))
      ])
]

length-if {ℓ} :
    {A : Type ℓ} (b : Bool) (x : A) (xs : List A) (n : ℕ)
    → length xs ≤ n
    → length (if b then x ∷ xs else xs) ≤ suc n
length-if true x xs n h = omega arith
length-if false x xs n h = omega arith

pub_pass-Goes :
    (ns : List PubInfo) (c : Client)
    → (length (pub_pass ns c).0 ≤ length ns) × Goes c (pub_pass ns c).1
unfolding pub_pass
pub_pass-Goes [] c = (omega arith, stay-Goes c)
pub_pass-Goes (n ∷ ns) c =
    let (ns', d) = pub_pass ns c in
    let (shorter, goes) = pub_pass-Goes ns c in
    let (stays, e) = visit_pub n.pub_state n d in
    (
      length-if stays n ns' (length ns) shorter,
      then-Goes c d e goes (visit_pub-Goes n.pub_state n d),
    )

-- The list becomes what the pass left of it.
pubs_left :
    (c d e : Client) (ns : List PubInfo)
    → Goes c d
    → Goes d e
    → length ns ≤ length d.list_pub_wait_ack
    → Goes c (record e { list_pub_wait_ack = ns })
pubs_left c d e ns p q shorter =
    let (control, (runs, table, lists)) = then-Goes c d e p q in
    (
      control,
      (
        runs,
        table,
        λ s.
            let (pub_len, sub_len) = p.1.2 s in
            let (pub_len', sub_len') = lists s in (omega arith, sub_len'),
      ),
    )

pub pub_info_proc-Goes : (c : Client) → Goes c (pub_info_proc c)
unfolding pub_info_proc
pub_info_proc-Goes c =
    let (iterator, d) = allocate c in
    let same = core-Goes c d (allocate-SameCore c) in
    let (nodes, e) = pub_pass d.list_pub_wait_ack d in
    let (shorter, goes) = pub_pass-Goes d.list_pub_wait_ack d in
    elim (Bool-cases (is_empty c.list_pub_wait_ack)) [
      | inl y ↦ rw y (stay-Goes c)
      | inr n ↦ rw n (elim (Bool-cases iterator) [
        | inl y ↦ rw y (pubs_left c d e nodes same goes shorter)
        | inr n ↦ rw n same
      ])
    ]

late_sub-Goes : (n : SubInfo) (c : Client) → Goes c (late_sub n c)
unfolding late_sub
late_sub-Goes n c =
    let h = n.handler in
    let told = notify_subscriber h.sub_event_handler subscribe_timeout h.handler_user_data c in
    let first =
      core-Goes c told
        (notify_subscriber-SameCore h.sub_event_handler subscribe_timeout h.handler_user_data c) in
    elim (Bool-cases (not c.has_event_handler)) [
      | inl off ↦ rw off (stay-Goes c)
      | inr on ↦ rw on (elim (Bool-cases (is_subscribe n.sub_type)) [
        | inl y ↦ rw y (notified-Goes subscribe_timeout n.sub_msg_id c told first)
        | inr m ↦ rw m (notified-Goes unsubscribe_timeout n.sub_msg_id c c (stay-Goes c))
      ])
    ]

visit_sub-Goes : (s : NodeState) (n : SubInfo) (c : Client) → Goes c (visit_sub s n c).1
unfolding visit_sub
visit_sub-Goes invalid n c = stay-Goes c
visit_sub-Goes normal n c = elim (Bool-cases (not c.is_connected)) [
  | inl off ↦ rw off (stay-Goes c)
  | inr on ↦
      let (left, d) = has_time_left n.sub_end_time c in
      let goes = has_time_left-Goes n.sub_end_time c in
      rw on (elim (Bool-cases left) [
        | inl y ↦ rw y goes
        | inr late ↦ rw late (then-Goes c d (late_sub n d) goes (late_sub-Goes n d))
      ])
]

sub_pass-Goes :
    (ns : List SubInfo) (c : Client)
    → (length (sub_pass ns c).0 ≤ length ns) × Goes c (sub_pass ns c).1
unfolding sub_pass
sub_pass-Goes [] c = (omega arith, stay-Goes c)
sub_pass-Goes (n ∷ ns) c =
    let (ns', d) = sub_pass ns c in
    let (shorter, goes) = sub_pass-Goes ns c in
    let (stays, e) = visit_sub n.sub_state n d in
    (
      length-if stays n ns' (length ns) shorter,
      then-Goes c d e goes (visit_sub-Goes n.sub_state n d),
    )

subs_left :
    (c d e : Client) (ns : List SubInfo)
    → Goes c d
    → Goes d e
    → length ns ≤ length d.list_sub_wait_ack
    → Goes c (record e { list_sub_wait_ack = ns })
subs_left c d e ns p q shorter =
    let (control, (runs, table, lists)) = then-Goes c d e p q in
    (
      control,
      (
        runs,
        table,
        λ s.
            let (pub_len, sub_len) = p.1.2 s in
            let (pub_len', sub_len') = lists s in (pub_len', omega arith),
      ),
    )

pub sub_info_proc-Goes : (c : Client) → Goes c (sub_info_proc c)
unfolding sub_info_proc
sub_info_proc-Goes c =
    let (iterator, d) = allocate c in
    let same = core-Goes c d (allocate-SameCore c) in
    let (nodes, e) = sub_pass d.list_sub_wait_ack d in
    let (shorter, goes) = sub_pass-Goes d.list_sub_wait_ack d in
    elim (Bool-cases (is_empty c.list_sub_wait_ack)) [
      | inl y ↦ rw y (stay-Goes c)
      | inr n ↦ rw n (elim (Bool-cases iterator) [
        | inl y ↦ rw y (subs_left c d e nodes same goes shorter)
        | inr n ↦ rw n same
      ])
    ]
