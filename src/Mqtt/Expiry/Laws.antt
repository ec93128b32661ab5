-- ===== src/Mqtt/Expiry/Laws.antt =====
-- What is left in the waiting lists after an acknowledgement and a pass.
use esp_qcloud.Prelude.{
  ℕ, ◌≡◌, ◌≢◌, refl, arith, Bool, true, false, List, [], ◌∷◌, All, Bool-cases, inl, inr, ◌==◌,
  if◌then◌else◌,
}
use esp_qcloud.Mqtt.Client.{Client, NodeState, normal, invalid, PubInfo, SubInfo}
use esp_qcloud.Mqtt.WaitList.{
  allocate, mask_pub, mask_sub, mask_pub_info_from, mask_sub_info_from, allocate_iterator,
}
use esp_qcloud.Mqtt.Expiry.{visit_pub, visit_sub, pub_pass, sub_pass, pub_info_proc, sub_info_proc}

-- A node that a pass may keep does not wait for the packet id.
abbrev PubDone : ℕ → PubInfo → Type 0
PubDone id n = n.pub_state ≡ normal → n.pub_msg_id ≢ id

abbrev SubDone : ℕ → SubInfo → Type 0
SubDone id n = n.sub_state ≡ normal → n.sub_msg_id ≢ id

PubDone-node :
    (id : ℕ) (n : PubInfo)
    → PubDone id (if n.pub_msg_id == id then record n { pub_state = invalid } else n)
PubDone-node id n = ground arith

mask_pub-PubDone : (id : ℕ) (ns : List PubInfo) → All (PubDone id) (mask_pub id ns)
unfolding mask_pub
mask_pub-PubDone id [] = tt
mask_pub-PubDone id (n ∷ ns) = (PubDone-node id n, mask_pub-PubDone id ns)

SubDone-node :
    (id : ℕ) (n : SubInfo)
    → SubDone id (if n.sub_msg_id == id then record n { sub_state = invalid } else n)
SubDone-node id n = ground arith

mask_sub-SubDone : (id : ℕ) (ns : List SubInfo) → All (SubDone id) (mask_sub id ns)
unfolding mask_sub
mask_sub-SubDone id [] = tt
mask_sub-SubDone id (n ∷ ns) = (SubDone-node id n, mask_sub-SubDone id ns)

-- Only normal nodes stay.
visit_pub-stays :
    (s : NodeState) (n : PubInfo) (c : Client) → (visit_pub s n c).0 ≡ true → s ≡ normal
unfolding visit_pub
visit_pub-stays normal n c e = refl
visit_pub-stays invalid n c e = cc

pub_pass-done :
    (id : ℕ) (ns : List PubInfo) (c : Client)
    → All (PubDone id) ns
    → All (λ n. n.pub_msg_id ≢ id) (pub_pass ns c).0
unfolding pub_pass
pub_pass-done id [] c h = tt
pub_pass-done id (n ∷ ns) c (hn, hns) =
    elim (Bool-cases (visit_pub n.pub_state n (pub_pass ns c).1).0) [
      | inl stays ↦
          rw stays
            (hn (visit_pub-stays n.pub_state n (pub_pass ns c).1 stays), pub_pass-done id ns c hns)
      | inr goes ↦ rw goes (pub_pass-done id ns c hns)
    ]

visit_sub-stays :
    (s : NodeState) (n : SubInfo) (c : Client) → (visit_sub s n c).0 ≡ true → s ≡ normal
unfolding visit_sub
visit_sub-stays normal n c e = refl
visit_sub-stays invalid n c e = cc

sub_pass-done :
    (id : ℕ) (ns : List SubInfo) (c : Client)
    → All (SubDone id) ns
    → All (λ n. n.sub_msg_id ≢ id) (sub_pass ns c).0
unfolding sub_pass
sub_pass-done id [] c h = tt
sub_pass-done id (n ∷ ns) c (hn, hns) =
    elim (Bool-cases (visit_sub n.sub_state n (sub_pass ns c).1).0) [
      | inl stays ↦
          rw stays
            (hn (visit_sub-stays n.sub_state n (sub_pass ns c).1 stays), sub_pass-done id ns c hns)
      | inr goes ↦ rw goes (sub_pass-done id ns c hns)
    ]

-- With memory for the iterator, the list becomes what the pass keeps.
list-pub_info_proc :
    (c : Client)
    → c.world.allocations ≡ []
    → (pub_info_proc c).list_pub_wait_ack ≡ (pub_pass c.list_pub_wait_ack c).0
unfolding pub_info_proc allocate
list-pub_info_proc c m = ground arith

list-sub_info_proc :
    (c : Client)
    → c.world.allocations ≡ []
    → (sub_info_proc c).list_sub_wait_ack ≡ (sub_pass c.list_sub_wait_ack c).0
unfolding sub_info_proc allocate
list-sub_info_proc c m = ground arith

-- Masking leaves the allocator's answers as they were, if there were none.
masked_pub :
    (id : ℕ) (c : Client)
    → c.world.allocations ≡ []
    → let d = (mask_pub_info_from id c).1 in
      (d.list_pub_wait_ack ≡ mask_pub id c.list_pub_wait_ack) × (d.world.allocations ≡ [])
unfolding mask_pub_info_from allocate_iterator allocate
masked_pub id c m = ground arith

masked_sub :
    (id : ℕ) (c : Client)
    → c.world.allocations ≡ []
    → let d = (mask_sub_info_from id c).1 in
      (d.list_sub_wait_ack ≡ mask_sub id c.list_sub_wait_ack) × (d.world.allocations ≡ [])
unfolding mask_sub_info_from allocate_iterator allocate
masked_sub id c m = ground arith

-- After an acknowledgement has masked a packet id and the pass has gone over the list, no publish
-- waits for that id, and no subscription if the id was masked in their list. The iterators got
-- their memory.
pub acknowledged_gone :
    (id : ℕ) (c : Client)
    → c.world.allocations ≡ []
    → All (λ n. n.pub_msg_id ≢ id) (pub_info_proc (mask_pub_info_from id c).1).list_pub_wait_ack
      × All (λ n. n.sub_msg_id ≢ id) (sub_info_proc (mask_sub_info_from id c).1).list_sub_wait_ack
acknowledged_gone id c m =
    let d = (mask_pub_info_from id c).1 in
    let e = (mask_sub_info_from id c).1 in
    let (dl, da) = masked_pub id c m in
    let (el, ea) = masked_sub id c m in
    (
      rw (list-pub_info_proc d da) (
          pub_pass-done id d.list_pub_wait_ack d (rw dl (mask_pub-PubDone id c.list_pub_wait_ack))),
      rw (list-sub_info_proc e ea) (
          sub_pass-done id e.list_sub_wait_ack e (rw el (mask_sub-SubDone id c.list_sub_wait_ack))),
    )

abbrev pub is_normal : NodeState → Bool
is_normal normal = true
is_normal invalid = false

abbrev pub normal_pubs : List PubInfo → List PubInfo
normal_pubs [] = []
normal_pubs (n ∷ ns) = if is_normal n.pub_state then n ∷ normal_pubs ns else normal_pubs ns

visit_offline :
    (s : NodeState) (n : PubInfo) (c : Client)
    → c.is_connected ≡ false
    → visit_pub s n c ≡ (is_normal s, c)
unfolding visit_pub
visit_offline normal n c h = ground arith
visit_offline invalid n c h = refl

pub_pass_offline :
    (ns : List PubInfo) (c : Client) → c.is_connected ≡ false → pub_pass ns c ≡ (normal_pubs ns, c)
unfolding pub_pass
pub_pass_offline [] c h = refl
pub_pass_offline (n ∷ ns) c h = rw (pub_pass_offline ns c h) (rw (visit_offline n.pub_state n c h))

-- While the client is not connected, a pass over the publishes removes the masked nodes and no
-- other, keeps the order, reports nothing and reads no clock.
pub pub_info_proc_offline :
    (c : Client)
    → c.is_connected ≡ false
    → c.world.allocations ≡ []
    → pub_info_proc c ≡ record c { list_pub_wait_ack = normal_pubs c.list_pub_wait_ack }
unfolding pub_info_proc allocate
pub_info_proc_offline c h m = ground (arith, pub_pass_offline c.list_pub_wait_ack c h)
