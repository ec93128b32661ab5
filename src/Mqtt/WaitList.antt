-- ===== src/Mqtt/WaitList.antt =====
-- The lists of publishes and subscriptions that wait for an acknowledgement:
-- `_mask_push_pubInfo_to` of sdk_src/mqtt_client_publish.c, `push_sub_info_to`,
-- `_mask_pubInfo_from` and `_mask_sub_info_from` of sdk_src/mqtt_client_common.c, and the passes
-- over the lists of sdk_src/mqtt_client_yield.c. A list is in the order of its insertions; an
-- iterator goes from its tail.
pub mod Laws
pub mod Frame
use esp_qcloud.Prelude.{
  ℕ, zero, suc, ◌+◌, ◌-◌, ◌%◌, ◌^◌, Option, none, some, Bool, true, false, ◌&&◌, ◌||◌, not, List,
  [], ◌∷◌, ◌++◌, length, take, ltb, leb, ◌==◌, if◌then◌else◌, Outcome, ok, err,
}
use esp_qcloud.Prelude.Codes.{Code, failure, mqtt_max_subscriptions}
use esp_qcloud.Mqtt.Header.{MessageType, subscribe}
use esp_qcloud.Mqtt.Client.{
  Client, SubTopicHandle, NodeState, normal, invalid, PubInfo, SubInfo, EventType, publish_timeout,
  subscribe_timeout, unsubscribe_timeout, Action, pure, fail, lift, run, modify, continue, ◌>>=◌,
  ◌>>◌, output, notify, notify_subscriber, max_message_handlers, max_repub_num,
}

take_allocation : List Bool → Client → Bool × Client
take_allocation [] c = (true, c)
take_allocation (b ∷ bs) c = (b, record c { world = record c.world { allocations = bs } })

-- One call of `HAL_Malloc`: whether it gave memory.
unfoldable pub allocate : Client → Bool × Client
unfolding take_allocation
allocate c = take_allocation c.world.allocations c

take_reading : List ℕ → Client → Option ℕ × Client
take_reading [] c = (none, c)
take_reading (t ∷ ts) c = (some t, record c { world = record c.world { clock = ts } })

-- `HAL_GetTimeMs`, or `none` when the readings have run out.
unfoldable pub read_clock : Client → Option ℕ × Client
unfolding take_reading
read_clock c = take_reading c.world.clock c

deadline : ℕ → Option ℕ → ℕ
deadline timeout_ms none = 0
deadline timeout_ms (some now) = (now + timeout_ms) % 2 ^ 32

-- `countdown_ms`: the timer's end.
unfoldable pub countdown_ms : ℕ → Client → ℕ × Client
unfolding deadline
countdown_ms timeout_ms c = let (now, c') = read_clock c in (deadline timeout_ms now, c')

-- `left_ms(timer) > 0`, where the difference of two 32-bit times is cast to an `int`.
unfoldable pub time_left : ℕ → Option ℕ → Bool
time_left end_time none = false
time_left end_time (some now) =
    let left = (end_time + 2 ^ 32 - now) % 2 ^ 32 in ltb 0 left && ltb left (2 ^ 31)

unfoldable pub has_time_left : ℕ → Client → Bool × Client
has_time_left end_time c = let (now, c') = read_clock c in (time_left end_time now, c')

require_memory : Bool → Action (Unit {0})
require_memory true = pure tt
require_memory false = fail failure

-- The result is the place of the new node, at the list's tail.
unfoldable pub mask_push_pub_info_to : ℕ → ℕ → Action ℕ
unfolding require_memory
mask_push_pub_info_to len msg_id c =
    if ltb (length c.write_buf) len
    then (err failure, c)
    else if leb max_repub_num (length c.list_pub_wait_ack)
    then (err failure, c)
    else (do
      info ← run allocate
      require_memory info
      end_time ← run (countdown_ms c.command_timeout_ms)
      node ← run allocate
      require_memory node
      modify (λ d. record d {
        list_pub_wait_ack =
            d.list_pub_wait_ack
            ++ (record {
              pub_end_time = end_time;
              pub_state = normal;
              pub_msg_id = msg_id;
              pub_buf = take len d.write_buf;
            }
                ∷ []);
      })
      pure (length c.list_pub_wait_ack))
        c

unfoldable pub push_sub_info_to : ℕ → ℕ → MessageType → SubTopicHandle → Action ℕ
unfolding require_memory
push_sub_info_to len msg_id type handler c =
    if leb max_message_handlers (length c.list_sub_wait_ack)
    then (err mqtt_max_subscriptions, c)
    else (do
      info ← run allocate
      require_memory info
      end_time ← run (countdown_ms c.command_timeout_ms)
      node ← run allocate
      require_memory node
      modify (λ d. record d {
        list_sub_wait_ack =
            d.list_sub_wait_ack
            ++ (record {
              sub_type = type;
              sub_msg_id = msg_id;
              sub_end_time = end_time;
              sub_state = normal;
              handler = handler;
              sub_buf = take len d.write_buf;
            }
                ∷ []);
      })
      pure (length c.list_sub_wait_ack))
        c

-- `list_remove` of the node at a place.
unfoldable pub remove_at {ℓ} : {A : Type ℓ} → List A → ℕ → List A
remove_at [] i = []
remove_at (x ∷ xs) zero = xs
remove_at (x ∷ xs) (suc i) = x ∷ remove_at xs i

unfoldable pub mask_pub : ℕ → List PubInfo → List PubInfo
mask_pub msg_id [] = []
mask_pub msg_id (n ∷ ns) =
    (if n.pub_msg_id == msg_id then record n { pub_state = invalid } else n) ∷ mask_pub msg_id ns

unfoldable pub mask_sub : ℕ → List SubInfo → List SubInfo
mask_sub msg_id [] = []
mask_sub msg_id (n ∷ ns) =
    (if n.sub_msg_id == msg_id then record n { sub_state = invalid } else n) ∷ mask_sub msg_id ns

-- `*messageHandler` is last set by the match that is nearest to the head.
unfoldable pub masked_handler : ℕ → List SubInfo → Option SubTopicHandle
masked_handler msg_id [] = none
masked_handler msg_id (n ∷ ns) =
    if n.sub_msg_id == msg_id then some n.handler else masked_handler msg_id ns

-- The iterator is allocated if the list is not empty.
abbrev pub is_empty {ℓ} : {A : Type ℓ} → List A → Bool
is_empty [] = true
is_empty (x ∷ xs) = false

unfoldable pub allocate_iterator {ℓ} : {A : Type ℓ} → List A → Action Bool
allocate_iterator list = if is_empty list then pure true else run allocate

unfoldable pub mask_pub_info_from : ℕ → Action (Unit {0})
mask_pub_info_from msg_id c =
    (do
      iterator ← allocate_iterator c.list_pub_wait_ack
      if iterator
          then modify (λ d. record d { list_pub_wait_ack = mask_pub msg_id d.list_pub_wait_ack })
          else pure tt)
      c

-- The handler of the node that was masked; `none` leaves `*messageHandler` as it was.
unfoldable pub mask_sub_info_from : ℕ → Action (Option SubTopicHandle)
mask_sub_info_from msg_id c =
    (do
      iterator ← allocate_iterator c.list_sub_wait_ack
      if iterator
          then (do
            modify (λ d. record d { list_sub_wait_ack = mask_sub msg_id d.list_sub_wait_ack })
            pure (masked_handler msg_id c.list_sub_wait_ack))
          else pure none)
      c
