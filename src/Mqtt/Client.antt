-- ===== src/Mqtt/Client.antt =====
-- The state of an MQTT client (`Qcloud_IoT_Client` of sdk_src/internal_inc/mqtt_client.h) and
-- what its functions meet outside: the clock, the network and the allocator answer from lists of
-- replies, and what goes out is kept in a log. A function is an action on the client, which
-- stays changed when the function returns an error. Locks are not part of the state: each
-- function runs without another thread between its steps, and a callback does not call back.
use esp_qcloud.Prelude.{
  ℕ, Option, none, some, Bool, List, [], ◌∷◌, ◌++◌, if◌then◌else◌, Outcome, ok, err, fault,
}
use esp_qcloud.Prelude.Codes.{Code}
use esp_qcloud.Mqtt.Header.{MessageType}
use esp_qcloud.Mqtt.Connect.{ConnectParams}
use esp_qcloud.Mqtt.Publish.{Publish}
use esp_qcloud.Mqtt.Repeat.{RepeatBuf}

-- A callback or a user's pointer is known by a number; `none` is NULL.
pub record SubTopicHandle : Type 0 where
  pub topic_filter : Option (List ℕ)
  pub message_handler : Option ℕ
  pub sub_event_handler : Option ℕ
  pub handler_user_data : ℕ
  pub qos : ℕ

pub data NodeState : Type 0 where
  normal invalid : NodeState

-- The message is the copy of the packet behind the node.
pub record PubInfo : Type 0 where
  pub pub_end_time : ℕ
  pub pub_state : NodeState
  pub pub_msg_id : ℕ
  pub pub_buf : List ℕ

pub record SubInfo : Type 0 where
  pub sub_type : MessageType
  pub sub_msg_id : ℕ
  pub sub_end_time : ℕ
  pub sub_state : NodeState
  pub handler : SubTopicHandle
  pub sub_buf : List ℕ

pub data EventType : Type 0 where
  disconnected reconnected publish_success publish_timeout : EventType
  subscribe_success subscribe_timeout subscribe_nack : EventType
  unsubscribe unsubscribe_success unsubscribe_timeout client_destroy : EventType

-- What goes out: a message with its topic to a topic's handler and the user's data, an event to a
-- subscription's handler or to the handler of the client, a message that no handler took to the
-- latter, and bytes to the network.
pub data Output : Type 0 where
  to_handler : ℕ → ℕ → List ℕ → Publish → Output
  to_default : List ℕ → Publish → Output
  to_subscriber : ℕ → EventType → ℕ → Output
  to_client : EventType → ℕ → Output
  to_network : List ℕ → Output
  closed : Output

pub data ReadReply : Type 0 where
  received : List ℕ → ReadReply
  read_failed : Code → ReadReply

pub data WriteReply : Type 0 where
  accepted : ℕ → WriteReply
  write_failed : Code → WriteReply

pub record World : Type 0 where
  -- The readings of the clock that decide a timer. When none is left, every timer has expired.
  pub clock : List ℕ
  -- When no reply is left, there is nothing to read, and a write takes all.
  pub reads : List ReadReply
  pub writes : List WriteReply
  -- Whether an allocation succeeds; when no answer is left, it does.
  pub allocations : List Bool
  -- What `network_stack.connect` returns, `none` for success, and whether the physical layer is
  -- connected; when no answer is left, it succeeds, and it is.
  pub connects : List (Option Code)
  pub links : List Bool
  -- Results of `rand`; 0 when none is left.
  pub randoms : List ℕ
  pub outputs : List Output

pub record Client : Type 0 where
  pub is_connected : Bool
  pub was_manually_disconnected : Bool
  pub is_ping_outstanding : ℕ
  pub next_packet_id : ℕ
  pub command_timeout_ms : ℕ
  pub current_reconnect_wait_interval : ℕ
  pub counter_network_disconnected : ℕ
  pub write_buf : List ℕ
  pub read_buf : List ℕ
  pub list_pub_wait_ack : List PubInfo
  pub list_sub_wait_ack : List SubInfo
  -- Whether `event_handle.h_fp` is set.
  pub has_event_handler : Bool
  pub options : ConnectParams
  pub ping_end_time : ℕ
  pub reconnect_end_time : ℕ
  pub sub_handles : List SubTopicHandle
  pub repeat_buf : RepeatBuf
  pub world : World

abbrev pub max_message_handlers : ℕ
max_message_handlers = 10

abbrev pub max_repub_num : ℕ
max_repub_num = 20

abbrev pub Action : Type 0 → Type 0
Action A = Client → Outcome A × Client

abbrev pub pure : {A : Type 0} → A → Action A
pure a c = (ok a, c)

abbrev pub fail : {A : Type 0} → Code → Action A
fail e c = (err e, c)

-- A call that returns no error.
abbrev pub run : {A : Type 0} → (Client → A × Client) → Action A
run m c = let (a, c') = m c in (ok a, c')

-- A function of no state, such as a serializer.
abbrev pub lift : {A : Type 0} → Outcome A → Action A
lift r c = (r, c)

abbrev pub modify : (Client → Client) → Action (Unit {0})
modify f c = (ok tt, f c)

abbrev pub continue : {A B : Type 0} → Outcome A → (A → Action B) → Action B
continue (ok a) f c = f a c
continue (err e) f c = (err e, c)
continue fault f c = (fault, c)

infixl 5 ◌>>=◌ ◌>>◌
abbrev pub ◌>>=◌ : {A B : Type 0} → Action A → (A → Action B) → Action B
◌>>=◌ m f c = let (r, c') = m c in continue r f c'

abbrev pub ◌>>◌ : {B : Type 0} → Action (Unit {0}) → Action B → Action B
m >> n = m >>= λ _. n

abbrev pub output : Output → Client → Client
output o c = record c { world = record c.world { outputs = c.world.outputs ++ (o ∷ []) } }

-- An event to the client's handler, if there is one.
abbrev pub notify : EventType → ℕ → Client → Client
notify e n c = if c.has_event_handler then output (to_client e n) c else c

-- An event to a subscription's handler, if it has one.
abbrev pub notify_subscriber : Option ℕ → EventType → ℕ → Client → Client
notify_subscriber none e user_data c = c
notify_subscriber (some h) e user_data c = output (to_subscriber h e user_data) c
