-- ===== src/Mqtt/WaitList/Frame.antt =====
-- What the clock, the allocator and the masks of the waiting lists leave alone.
use esp_qcloud.Prelude.{
  true, ◌∙◌, ◌++◌, length-append, false, Bool, leb, ap, ℕ, ◌≡◌, ◌≤◌, refl, arith, List, [], ◌∷◌,
  length, Bool-cases, inl, inr,
}
use esp_qcloud.Mqtt.Header.{MessageType}
use esp_qcloud.Mqtt.Client.{
  continue, Action, SubTopicHandle, max_message_handlers, Client, PubInfo, SubInfo,
}
use esp_qcloud.Mqtt.Frame.{then-Goes, SameCore, Goes, stay-Goes, core-Goes, continue-Goes}
use esp_qcloud.Mqtt.WaitList.{
  push_sub_info_to, require_memory, allocate, allocate_iterator, read_clock, countdown_ms,
  has_time_left, mask_pub, mask_sub, mask_pub_info_from, mask_sub_info_from,
}

clock-Goes : (c : Client) (l : List ℕ) → c.world.clock ≡ l → Goes c (read_clock c).1
unfolding read_clock
clock-Goes c [] e = simp e (refl, (omega arith, (λ n s. s), λ s. s))
clock-Goes c (t ∷ l) e = simp e (refl, (omega arith, (λ n s. s), λ s. s))

pub read_clock-Goes : (c : Client) → Goes c (read_clock c).1
read_clock-Goes c = clock-Goes c c.world.clock refl

pub countdown_ms-Goes : (t : ℕ) (c : Client) → Goes c (countdown_ms t c).1
unfolding countdown_ms
countdown_ms-Goes t c = read_clock-Goes c

pub has_time_left-Goes : (t : ℕ) (c : Client) → Goes c (has_time_left t c).1
unfolding has_time_left
has_time_left-Goes t c = read_clock-Goes c

pub allocate-SameCore : (c : Client) → SameCore c (allocate c).1
unfolding allocate
allocate-SameCore c = ground arith

length-mask_pub : (id : ℕ) (ns : List PubInfo) → length (mask_pub id ns) ≡ length ns
unfolding mask_pub
length-mask_pub id [] = refl
length-mask_pub id (n ∷ ns) = omega (arith, length-mask_pub id ns)

length-mask_sub : (id : ℕ) (ns : List SubInfo) → length (mask_sub id ns) ≡ length ns
unfolding mask_sub
length-mask_sub id [] = refl
length-mask_sub id (n ∷ ns) = omega (arith, length-mask_sub id ns)

iterator-SameCore {ℓ} :
    {A : Type ℓ} (list : List A) (c : Client) → SameCore c (allocate_iterator list c).1
unfolding allocate_iterator
iterator-SameCore [] c = refl
iterator-SameCore (x ∷ list) c = allocate-SameCore c

pub pubs-Goes :
    (c : Client) (ns : List PubInfo)
    → length ns ≤ length c.list_pub_wait_ack
    → Goes c (record c { list_pub_wait_ack = ns })
pubs-Goes c ns shorter =
    (refl, (omega arith, (λ n s. s), λ (pub_len, sub_len). (omega arith, sub_len)))

pub subs-Goes :
    (c : Client) (ns : List SubInfo)
    → length ns ≤ length c.list_sub_wait_ack
    → Goes c (record c { list_sub_wait_ack = ns })
subs-Goes c ns shorter =
    (refl, (omega arith, (λ n s. s), λ (pub_len, sub_len). (pub_len, omega arith)))

pub mask_pub_info_from-Goes : (id : ℕ) (c : Client) → Goes c (mask_pub_info_from id c).1
unfolding mask_pub_info_from
mask_pub_info_from-Goes id c =
    let (r, d) = allocate_iterator c.list_pub_wait_ack c in
    let iterated = core-Goes c d (iterator-SameCore c.list_pub_wait_ack c) in
    continue-Goes c d r _ iterated (λ iterator. elim (Bool-cases iterator) [
      | inl y ↦ rw y (
          pubs-Goes d (mask_pub id d.list_pub_wait_ack)
            (omega (arith, length-mask_pub id d.list_pub_wait_ack)))
      | inr n ↦ rw n (stay-Goes d)
    ])

pub mask_sub_info_from-Goes : (id : ℕ) (c : Client) → Goes c (mask_sub_info_from id c).1
unfolding mask_sub_info_from
mask_sub_info_from-Goes id c =
    let (r, d) = allocate_iterator c.list_sub_wait_ack c in
    let iterated = core-Goes c d (iterator-SameCore c.list_sub_wait_ack c) in
    continue-Goes c d r _ iterated (λ iterator. elim (Bool-cases iterator) [
      | inl y ↦ rw y (
          subs-Goes d (mask_sub id d.list_sub_wait_ack)
            (omega (arith, length-mask_sub id d.list_sub_wait_ack)))
      | inr n ↦ rw n (stay-Goes d)
    ])

clock-subs :
    (c : Client) (l : List ℕ)
    → c.world.clock ≡ l
    → (read_clock c).1.list_sub_wait_ack ≡ c.list_sub_wait_ack
unfolding read_clock
clock-subs c [] e = simp e refl
clock-subs c (t ∷ l) e = simp e refl

pub countdown_ms-subs :
    (t : ℕ) (c : Client) → (countdown_ms t c).1.list_sub_wait_ack ≡ c.list_sub_wait_ack
unfolding countdown_ms
countdown_ms-subs t c = clock-subs c c.world.clock refl

pub allocate-subs : (c : Client) → (allocate c).1.list_sub_wait_ack ≡ c.list_sub_wait_ack
allocate-subs c = ap (λ k. k.subs) (allocate-SameCore c)

-- A node at the end of a list that is not full.
pushed-Goes :
    (c d : Client) (n : SubInfo)
    → Goes c d
    → d.list_sub_wait_ack ≡ c.list_sub_wait_ack
    → leb max_message_handlers (length c.list_sub_wait_ack) ≡ false
    → Goes c (record d { list_sub_wait_ack = d.list_sub_wait_ack ++ (n ∷ []) })
pushed-Goes c d n (control, (runs, table, lists)) same room =
    let longer : length d.list_sub_wait_ack ≡ length c.list_sub_wait_ack = ap length same in
    (
      control,
      (
        runs,
        table,
        λ s.
            let (pub_len, sub_len) = lists s in
            (pub_len, ground (arith, longer, length-append d.list_sub_wait_ack (n ∷ []))),
      ),
    )

require_then :
    {A : Type 0} (b : Bool) (c d : Client) (k : Unit {0} → Action A)
    → Goes c d
    → Goes c (k tt d).1
    → Goes c (continue (require_memory b d).0 k (require_memory b d).1).1
unfolding require_memory
require_then true c d k p q = q
require_then false c d k p q = p

pub push_sub_info_to-Goes :
    (len id : ℕ) (ty : MessageType) (h : SubTopicHandle) (c : Client)
    → Goes c (push_sub_info_to len id ty h c).1
unfolding push_sub_info_to
push_sub_info_to-Goes len id ty h c =
    elim (Bool-cases (leb max_message_handlers (length c.list_sub_wait_ack))) [
      | inl full ↦ rw full (stay-Goes c)
      | inr room ↦
          let (info, d) = allocate c in
          let (end_time, e) = countdown_ms c.command_timeout_ms d in
          let (node, f) = allocate e in
          let first = core-Goes c d (allocate-SameCore c) in
          let second = then-Goes c d e first (countdown_ms-Goes c.command_timeout_ms d) in
          let third = then-Goes c e f second (core-Goes e f (allocate-SameCore e)) in
          let same =
            allocate-subs e ∙ (countdown_ms-subs c.command_timeout_ms d ∙ allocate-subs c) in
          rw room (
            require_then info c d _ first
              (require_then node c f _ third (pushed-Goes c f _ third same room)))
    ]
