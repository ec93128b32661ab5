-- ===== src/Coap/Client.antt =====
-- The state of a CoAP client that its message layer uses (`CoAPClient` and `CoAPMsgSendInfo` of
-- sdk_src/internal_inc/coap_client.h), and what it meets outside: the clock, the network and the
-- allocator answer from lists of replies, and what goes out is kept in a log. Locks are not part of
-- the state, and a callback does not change the client or the message that it is given.
use esp_qcloud.Prelude.{
  ℕ, ◌+◌, ◌%◌, ◌^◌, Option, none, some, Bool, true, List, [], ◌∷◌, ◌++◌, length, Outcome, ok, err,
}
use esp_qcloud.Mqtt.Client.{ReadReply, WriteReply, accepted, write_failed}
use esp_qcloud.Mqtt.WaitList.{time_left}
use esp_qcloud.Coap.Message.{CoapMessage}

-- `COAP_NODE_STATE_NORMANL` and `COAP_NODE_STATE_INVALID`
pub data NodeState : Type 0 where
  normal invalid : NodeState

pub record SendInfo : Type 0 where
  pub node_state : NodeState
  pub user_context : ℕ
  pub msg_id : ℕ
  pub acked : Bool
  pub token_len : ℕ
  pub token : List ℕ
  pub retrans_count : ℕ
  -- The end of the timer `start_time`.
  pub start_time : ℕ
  -- The bytes sent; `none` is a null pointer.
  pub message : Option (List ℕ)
  pub handler : Option ℕ

pub data EventType : Type 0 where
  receive_ack receive_respcontent unauthorized forbidden internal_server_error : EventType
  ack_timeout sepresp_timeout : EventType

-- What an event carries: a pointer to the message, or a message id in the pointer's place.
pub data EventContent : Type 0 where
  whole : CoapMessage → EventContent
  only_id : ℕ → EventContent

-- A message to a request's handler with its context, an event, and bytes to the network.
pub data Output : Type 0 where
  to_handler : ℕ → CoapMessage → ℕ → Output
  to_event : EventType → EventContent → Output
  to_network : List ℕ → Output

pub record World : Type 0 where
  -- The readings of the clock that decide a timer. When none is left, every timer has expired.
  pub clock : List ℕ
  -- When no reply is left, there is nothing to read, and a write takes all.
  pub reads : List ReadReply
  pub writes : List WriteReply
  -- Whether an allocation of the message layer succeeds; when no answer is left, it does.
  pub allocations : List Bool
  -- Whether the allocator has a size for a part of a received message.
  pub malloc : ℕ → Bool
  pub outputs : List Output

pub record Client : Type 0 where
  pub message_token : ℕ
  -- The `auth_token_len` bytes of the token.
  pub auth_token : List ℕ
  pub next_msg_id : ℕ
  pub send_buf : List ℕ
  pub recv_buf : List ℕ
  pub command_timeout_ms : ℕ
  pub message_list : List SendInfo
  pub max_retry_count : ℕ
  -- Whether `event_handle.h_fp` is set.
  pub has_event_handler : Bool
  pub world : World

abbrev pub output : Output → Client → Client
output o c = record c { world = record c.world { outputs = c.world.outputs ++ (o ∷ []) } }

unfoldable pub take_reading : List ℕ → Client → Option ℕ × Client
take_reading [] c = (none, c)
take_reading (t ∷ ts) c = (some t, record c { world = record c.world { clock = ts } })

unfoldable pub deadline : ℕ → Option ℕ → ℕ
deadline timeout_ms none = 0
deadline timeout_ms (some now) = (now + timeout_ms) % 2 ^ 32

-- `InitTimer` and `countdown_ms`: the timer's end.
unfoldable pub countdown_ms : ℕ → Client → ℕ × Client
unfolding take_reading deadline
countdown_ms timeout_ms c =
    let (now, c') = take_reading c.world.clock c in (deadline timeout_ms now, c')

unfoldable pub has_time_left : ℕ → Client → Bool × Client
unfolding take_reading
has_time_left end_time c =
    let (now, c') = take_reading c.world.clock c in (time_left end_time now, c')

unfoldable pub take_allocation : List Bool → Client → Bool × Client
take_allocation [] c = (true, c)
take_allocation (b ∷ bs) c = (b, record c { world = record c.world { allocations = bs } })

unfoldable pub allocate : Client → Bool × Client
unfolding take_allocation
allocate c = take_allocation c.world.allocations c

unfoldable pub take_write : ℕ → List WriteReply → Client → Outcome ℕ × Client
take_write len [] c = (ok len, c)
take_write len (accepted n ∷ ws) c = (ok n, record c { world = record c.world { writes = ws } })
take_write len (write_failed e ∷ ws) c =
    (err e, record c { world = record c.world { writes = ws } })

-- `network_stack.write`: the bytes written.
unfoldable pub write : List ℕ → Client → Outcome ℕ × Client
unfolding take_write
write bytes c = take_write (length bytes) c.world.writes (output (to_network bytes) c)
