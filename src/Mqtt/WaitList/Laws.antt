-- ===== src/Mqtt/WaitList/Laws.antt =====
-- Bounds and effects of a push to a waiting list.
use esp_qcloud.Prelude.{
  ℕ, ◌≤◌, ◌<◌, ◌≡◌, refl, arith, fault, Bool, Bool-cases, inl, inr, ◌∙◌, true, false, List, [], ◌∷◌,
  ◌++◌, length, take, ltb, leb, Outcome, ok, err,
}
use esp_qcloud.Prelude.Codes.{failure}
use esp_qcloud.Mqtt.Client.{Client, normal, Action, ◌>>=◌}
use esp_qcloud.Mqtt.WaitList.{
  allocate, read_clock, countdown_ms, require_memory, mask_push_pub_info_to,
}

-- What a push leaves, by its result.
abbrev pub Pushed : ℕ → ℕ → Client → Outcome ℕ × Client → Type 0
Pushed len id c (ok place, d) =
    (place ≡ length c.list_pub_wait_ack)
    × (length c.list_pub_wait_ack < 20)
    × (len ≤ length c.write_buf)
    × ((end_time : ℕ) × (d.list_pub_wait_ack
          ≡ c.list_pub_wait_ack
            ++ (record {
              pub_end_time = end_time;
              pub_state = normal;
              pub_msg_id = id;
              pub_buf = take len c.write_buf;
            }
                ∷ [])))
Pushed len id c (err e, d) = (e ≡ failure) × (d.list_pub_wait_ack ≡ c.list_pub_wait_ack)
Pushed len id c (fault, d) = ⊥

-- The lists and the buffer are as before.
abbrev SameLists : Client → Client → Type 0
SameLists c d = (d.list_pub_wait_ack ≡ c.list_pub_wait_ack) × (d.write_buf ≡ c.write_buf)

after_memory :
    (len id : ℕ) (c d : Client) (b : Bool) (k : Unit {0} → Action ℕ)
    → SameLists c d
    → Pushed len id c (k tt d)
    → Pushed len id c ((require_memory b >>= k) d)
unfolding require_memory
after_memory len id c d true k s p = p
after_memory len id c d false k (s, w) p = (refl, s)

allocate_same : (c : Client) (l : List Bool) → c.world.allocations ≡ l → SameLists c (allocate c).1
unfolding allocate
allocate_same c [] e = simp e (refl, refl)
allocate_same c (b ∷ l) e = simp e (refl, refl)

countdown_same :
    (t : ℕ) (c : Client) (l : List ℕ) → c.world.clock ≡ l → SameLists c (countdown_ms t c).1
unfolding countdown_ms read_clock
countdown_same t c [] e = simp e (refl, refl)
countdown_same t c (b ∷ l) e = simp e (refl, refl)

same_trans : (c d e : Client) → SameLists c d → SameLists d e → SameLists c e
same_trans c d e (s, w) (s', w') = (s' ∙ s, w' ∙ w)

push_node :
    (len id end_time : ℕ) (c d : Client)
    → SameLists c d
    → len ≤ length c.write_buf
    → length c.list_pub_wait_ack < 20
    → Pushed len id c (
      ok (length c.list_pub_wait_ack),
      record d {
        list_pub_wait_ack =
            d.list_pub_wait_ack
            ++ (record {
              pub_end_time = end_time;
              pub_state = normal;
              pub_msg_id = id;
              pub_buf = take len d.write_buf;
            }
                ∷ []);
      },
    )
push_node len id end_time c d (kept, written) fits room =
    (refl, room, fits, (end_time, rw kept (rw written refl)))

-- Whatever the allocator answers, a push to the waiting publishes fails and leaves the list as it
-- was, or it puts one node with the id and the packet at the end of a list of fewer than 20.
pub mask_push_pub_info_to-Pushed :
    (len id : ℕ) (c : Client) → Pushed len id c (mask_push_pub_info_to len id c)
unfolding mask_push_pub_info_to
mask_push_pub_info_to-Pushed len id c = elim (Bool-cases (ltb (length c.write_buf) len)) [
  | inl y ↦ rw y (refl, refl)
  | inr n ↦ elim (Bool-cases (leb 20 (length c.list_pub_wait_ack))) [
    | inl y ↦ rw n (rw y (refl, refl))
    | inr m ↦
        let d1 = (allocate c).1 in
        let d2 = (countdown_ms c.command_timeout_ms d1).1 in
        let d3 = (allocate d2).1 in
        let s1 = allocate_same c c.world.allocations refl in
        let s2 =
          same_trans c d1 d2 s1 (countdown_same c.command_timeout_ms d1 d1.world.clock refl) in
        let s3 = same_trans c d2 d3 s2 (allocate_same d2 d2.world.allocations refl) in
        rw n (
          rw m (
            after_memory len id c d1 (allocate c).0 _ s1 (
              after_memory len id c d3 (allocate d2).0 _ s3 (
                push_node len id (countdown_ms c.command_timeout_ms d1).0 c d3 s3
                  (ground (arith, n)) (ground (arith, m))))))
  ]
]
