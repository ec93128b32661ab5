-- ===== src/Mqtt/Request/Track.antt =====
-- A publish and the list of waiting publishes.
use esp_qcloud.Prelude.{
  ℕ, ◌≡◌, refl, ap, ◌∙◌, arith, Option, none, some, Bool, true, false, List, [], ◌∷◌, ◌++◌, length,
  ltb, Bool-cases, inl, inr, Outcome, ok, err, fault,
}
use esp_qcloud.Prelude.Codes.{Code}
use esp_qcloud.Mqtt.Header.{qos0}
use esp_qcloud.Mqtt.Publish.{serialize_publish_packet}
use esp_qcloud.Mqtt.Client.{Client, PubInfo, normal, Action, continue, pure}
use esp_qcloud.Mqtt.WaitList.{remove_at, mask_push_pub_info_to, countdown_ms, read_clock}
use esp_qcloud.Mqtt.WaitList.Laws.{Pushed, mask_push_pub_info_to-Pushed}
use esp_qcloud.Mqtt.Net.{send_mqtt_packet, put_bytes}
use esp_qcloud.Mqtt.Net.Frame.{send_mqtt_packet-OnlyWorld}
use esp_qcloud.Mqtt.Request.{
  PublishParams, next_id, refusal, write_packet, undo, remove_pub, send_and_track, choose_id,
  publish_connected, guarded, mqtt_publish,
}

-- The waiting lists are as before.
abbrev Kept : Client → Client → Type 0
Kept c d = (d.list_pub_wait_ack ≡ c.list_pub_wait_ack) × (d.list_sub_wait_ack ≡ c.list_sub_wait_ack)

send_mqtt_packet-Kept : (len end_time : ℕ) (c : Client) → Kept c (send_mqtt_packet len end_time c).1
send_mqtt_packet-Kept len end_time c =
    let only = send_mqtt_packet-OnlyWorld len end_time c in
    (ap (λ d. d.list_pub_wait_ack) only, ap (λ d. d.list_sub_wait_ack) only)

remove_at_end : (xs : List PubInfo) (x : PubInfo) → remove_at (xs ++ (x ∷ [])) (length xs) ≡ xs
unfolding remove_at
remove_at_end [] x = refl
remove_at_end (y ∷ xs) x = ap (λ l. y ∷ l) (remove_at_end xs x)

-- The list has the node of a publish at its end, if the publish waits for an answer.
abbrev pub Grown : Bool → List PubInfo → ℕ → List PubInfo → Type 0
Grown false before id after = after ≡ before
Grown true before id after =
    (n : PubInfo) × (n.pub_msg_id ≡ id) × (n.pub_state ≡ normal) × (after ≡ before ++ (n ∷ []))

abbrev Sent : Bool → List PubInfo → ℕ → Outcome (Unit {0}) × Client → Type 0
Sent b before id (ok u, d) = Grown b before id d.list_pub_wait_ack
Sent b before id (err e, d) = d.list_pub_wait_ack ≡ before
Sent b before id (fault, d) = Unit {0}

unchanged-Sent :
    (before : List PubInfo) (id : ℕ) (r : Outcome (Unit {0})) (d : Client)
    → d.list_pub_wait_ack ≡ before
    → Sent false before id (r, d)
unchanged-Sent before id (ok u) d e = e
unchanged-Sent before id (err x) d e = e
unchanged-Sent before id fault d e = tt

undo-Sent :
    (before : List PubInfo) (id : ℕ) (n : PubInfo) (r : Outcome (Unit {0})) (d : Client)
    → n.pub_msg_id ≡ id
    → n.pub_state ≡ normal
    → d.list_pub_wait_ack ≡ before ++ (n ∷ [])
    → Sent true before id (undo (remove_pub (length before)) (r, d))
unfolding undo remove_pub
undo-Sent before id n (ok u) d i s e = (n, i, s, e)
undo-Sent before id n (err x) d i s e =
    ap (λ l. remove_at l (length before)) e ∙ remove_at_end before n
undo-Sent before id n fault d i s e = tt

Pushed-Sent :
    (len id timer : ℕ) (c : Client) (r : Outcome ℕ) (d : Client)
    → Pushed len id c (r, d)
    → Sent true c.list_pub_wait_ack id
        (continue r (λ place. λ e. undo (remove_pub place) (send_mqtt_packet len timer e)) d)
Pushed-Sent len id timer c (ok place) d (at, room, fits, (end_time, e)) =
    let before = c.list_pub_wait_ack in
    let (p, s) = send_mqtt_packet-Kept len timer d in
    rw at (
      undo-Sent before id _ (send_mqtt_packet len timer d).0 (send_mqtt_packet len timer d).1 refl
        refl (p ∙ e))
Pushed-Sent len id timer c (err x) d (e, same) = same
Pushed-Sent len id timer c fault d p = absurd p

send_and_track_lem :
    (qos len id timer : ℕ) (c : Client)
    → Sent (ltb qos0 qos) c.list_pub_wait_ack id (send_and_track qos len id timer c)
unfolding send_and_track
send_and_track_lem qos len id timer c = elim (Bool-cases (ltb qos0 qos)) [
  | inl y ↦ rw y (
      Pushed-Sent len id timer c (mask_push_pub_info_to len id c).0
        (mask_push_pub_info_to len id c).1 (mask_push_pub_info_to-Pushed len id c))
  | inr n ↦
      let (p, s) = send_mqtt_packet-Kept len timer c in
      rw n (
        unchanged-Sent c.list_pub_wait_ack id (send_mqtt_packet len timer c).0
          (send_mqtt_packet len timer c).1 p)
]

-- The result of a publish against the list before it.
abbrev pub Tracked : ℕ → List PubInfo → Outcome ℕ × Client → Type 0
Tracked qos before (ok id, d) = Grown (ltb qos0 qos) before id d.list_pub_wait_ack
Tracked qos before (err e, d) = d.list_pub_wait_ack ≡ before
Tracked qos before (fault, d) = Unit {0}

continue-Tracked :
    {A : Type 0} (qos : ℕ) (before : List PubInfo) (r : Outcome A) (k : A → Action ℕ) (d : Client)
    → ((a : A) → Tracked qos before (k a d))
    → d.list_pub_wait_ack ≡ before
    → Tracked qos before (continue r k d)
continue-Tracked qos before (ok a) k d f e = f a
continue-Tracked qos before (err x) k d f e = e
continue-Tracked qos before fault k d f e = tt

Sent-Tracked :
    (qos id : ℕ) (before : List PubInfo) (r : Outcome (Unit {0})) (d : Client)
    → Sent (ltb qos0 qos) before id (r, d)
    → Tracked qos before (continue r (λ u. pure id) d)
Sent-Tracked qos id before (ok u) d s = s
Sent-Tracked qos id before (err x) d s = s
Sent-Tracked qos id before fault d s = tt

choose_id-Kept : (qos id : ℕ) (c : Client) → Kept c (choose_id qos id c).1
unfolding choose_id next_id
choose_id-Kept qos id c = ground arith

countdown_ms-Kept :
    (t : ℕ) (c : Client) (l : List ℕ) → c.world.clock ≡ l → Kept c (countdown_ms t c).1
unfolding countdown_ms read_clock
countdown_ms-Kept t c [] e = simp e (refl, refl)
countdown_ms-Kept t c (x ∷ l) e = simp e (refl, refl)

send_and_track_from :
    (qos len id timer : ℕ) (before : List PubInfo) (c : Client)
    → c.list_pub_wait_ack ≡ before
    → Sent (ltb qos0 qos) before id (send_and_track qos len id timer c)
send_and_track_from qos len id timer before c e = rw⁻¹ e (send_and_track_lem qos len id timer c)

write_packet_same :
    (packet : List ℕ) (c : Client) (r : Outcome (List ℕ))
    → put_bytes 0 packet c.write_buf ≡ r
    → (write_packet packet c).1.list_pub_wait_ack ≡ c.list_pub_wait_ack
unfolding write_packet
write_packet_same packet c (ok buf) e = simp e refl
write_packet_same packet c (err x) e = simp e refl
write_packet_same packet c fault e = simp e refl

publish_connected_lem :
    (topic : List ℕ) (p : PublishParams) (c : Client)
    → Tracked p.qos c.list_pub_wait_ack (publish_connected topic p c)
unfolding publish_connected
publish_connected_lem topic p c =
    let before = c.list_pub_wait_ack in
    let (timer, d1) = countdown_ms c.command_timeout_ms c in
    let (id, d2) = choose_id p.qos p.id d1 in
    let same =
      (choose_id-Kept p.qos p.id d1).0
      ∙ (countdown_ms-Kept c.command_timeout_ms c c.world.clock refl).0 in
    continue-Tracked p.qos before
      (serialize_publish_packet (length c.write_buf) 0 p.qos p.retained id topic p.payload) _ d2
      (λ packet.
        let (w, e) = write_packet packet d2 in
        let written = write_packet_same packet d2 (put_bytes 0 packet d2.write_buf) refl ∙ same in
        continue-Tracked p.qos before w _ e
          (λ u.
            let (r, f) = send_and_track p.qos (length packet) id timer e in
            Sent-Tracked p.qos id before r f
              (send_and_track_from p.qos (length packet) id timer before e written))
          written)
      same

guarded-Tracked :
    (qos : ℕ) (refused : Option Code) (m : Action ℕ) (c : Client)
    → Tracked qos c.list_pub_wait_ack (m c)
    → Tracked qos c.list_pub_wait_ack (guarded refused m c)
guarded-Tracked qos none m c t = t
guarded-Tracked qos (some e) m c t = refl

-- Whatever the network, the clock and the allocator do: a publish that fails leaves the list of
-- waiting publishes as it was. One that succeeds with a QoS above 0 adds at the end of the list one
-- node, which waits for the id that is returned; with QoS 0 it leaves the list as it was. Nothing is
-- said of a send that reads past the write buffer.
pub mqtt_publish-Tracked :
    (topic_name : Option (List ℕ)) (p : PublishParams) (c : Client)
    → Tracked p.qos c.list_pub_wait_ack (mqtt_publish topic_name p c)
unfolding mqtt_publish
mqtt_publish-Tracked topic_name p c =
    guarded-Tracked p.qos (refusal topic_name p.qos c) _ c (publish_connected_lem _ p c)
