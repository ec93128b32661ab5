-- ===== src/Mqtt/Frame.antt =====
-- What stays through a chain of calls.
use esp_qcloud.Prelude.{
  ℕ, ◌≤◌, ◌≡◌, ◌∙◌, ap, refl, arith, Option, none, some, Bool, List, length, Outcome, ok, err,
  fault,
}
use esp_qcloud.Mqtt.Connect.{ConnectParams}
use esp_qcloud.Mqtt.Client.{
  Client, SubTopicHandle, PubInfo, SubInfo, Action, continue, EventType, notify, notify_subscriber,
  max_message_handlers, max_repub_num,
}
use esp_qcloud.Mqtt.SubTable.Alike.{NoTwins}

-- What only connections and their ends change.
pub record Control : Type 0 where
  pub connected : Bool
  pub left_by_user : Bool
  pub timeout_ms : ℕ
  pub reconnect_wait : ℕ
  pub disconnections : ℕ
  pub reconnect_end : ℕ
  pub connect_options : ConnectParams

abbrev pub control : Client → Control
control c = record {
  connected = c.is_connected;
  left_by_user = c.was_manually_disconnected;
  timeout_ms = c.command_timeout_ms;
  reconnect_wait = c.current_reconnect_wait_interval;
  disconnections = c.counter_network_disconnected;
  reconnect_end = c.reconnect_end_time;
  connect_options = c.options;
}

pub record Core : Type 0 where
  pub link : Control
  pub table : List SubTopicHandle
  pub pubs : List PubInfo
  pub subs : List SubInfo
  pub readings : List ℕ

abbrev pub core : Client → Core
core c = record {
  link = control c;
  table = c.sub_handles;
  pubs = c.list_pub_wait_ack;
  subs = c.list_sub_wait_ack;
  readings = c.world.clock;
}

abbrev pub SameCore : Client → Client → Type 0
SameCore c d = core d ≡ core c

pub continue-SameCore :
    {A B : Type 0} (c d : Client) (r : Outcome A) (k : A → Action B)
    → SameCore c d
    → ((a : A) → SameCore d (k a d).1)
    → SameCore c (continue r k d).1
continue-SameCore c d (ok a) k e f = f a ∙ e
continue-SameCore c d (err x) k e f = e
continue-SameCore c d fault k e f = e

-- A table of `n` places without two handles of the same topic filter and functions.
abbrev pub SoundTable : ℕ → Client → Type 0
SoundTable n c = NoTwins c.sub_handles × (length c.sub_handles ≡ n)

-- Waiting lists within their limits.
abbrev pub ShortLists : Client → Type 0
ShortLists c =
    (length c.list_pub_wait_ack ≤ max_repub_num)
    × (length c.list_sub_wait_ack ≤ max_message_handlers)

abbrev pub ClockRuns : Client → Client → Type 0
ClockRuns c d = length d.world.clock ≤ length c.world.clock

abbrev pub KeepsTable : Client → Client → Type 0
KeepsTable c d = (n : ℕ) → SoundTable n c → SoundTable n d

abbrev pub KeepsLists : Client → Client → Type 0
KeepsLists c d = ShortLists c → ShortLists d

-- Time passes, and the table and the lists stay as they must be.
abbrev pub Moves : Client → Client → Type 0
Moves c d = ClockRuns c d × KeepsTable c d × KeepsLists c d

-- A step of a connection that stands as it is.
abbrev pub Goes : Client → Client → Type 0
Goes c d = (control d ≡ control c) × Moves c d

pub core-Goes : (c d : Client) → SameCore c d → Goes c d
core-Goes c d e =
    let readings : length d.world.clock ≡ length c.world.clock = ap (λ k. length k.readings) e in
    let table : d.sub_handles ≡ c.sub_handles = ap (λ k. k.table) e in
    let pubs : length d.list_pub_wait_ack ≡ length c.list_pub_wait_ack =
      ap (λ k. length k.pubs) e in
    let subs : length d.list_sub_wait_ack ≡ length c.list_sub_wait_ack =
      ap (λ k. length k.subs) e in
    (
      ap (λ k. k.link) e,
      (
        omega (arith, readings),
        (λ n (twins, size). (rw table twins, ap length table ∙ size)),
        λ (pub_len, sub_len). (omega (arith, pubs), omega (arith, subs)),
      ),
    )

pub stay-Goes : (c : Client) → Goes c c
stay-Goes c = core-Goes c c refl

pub stay-Moves : (c : Client) → Moves c c
stay-Moves c = (stay-Goes c).1

pub then-Moves : (c d e : Client) → Moves c d → Moves d e → Moves c e
then-Moves c d e (t, s, l) (u, z, m) = (omega arith, (λ n w. z n (s n w)), λ w. m (l w))

pub then-Goes : (c d e : Client) → Goes c d → Goes d e → Goes c e
then-Goes c d e (p, m) (q, n) = (q ∙ p, then-Moves c d e m n)

pub continue-Goes :
    {A B : Type 0} (c d : Client) (r : Outcome A) (k : A → Action B)
    → Goes c d
    → ((a : A) → Goes d (k a d).1)
    → Goes c (continue r k d).1
continue-Goes c d (ok a) k e f = then-Goes c d (k a d).1 e (f a)
continue-Goes c d (err x) k e f = e
continue-Goes c d fault k e f = e

pub notify-SameCore : (e : EventType) (x : ℕ) (c : Client) → SameCore c (notify e x c)
notify-SameCore e x c = ground arith

pub notify_subscriber-SameCore :
    (h : Option ℕ) (e : EventType) (x : ℕ) (c : Client) → SameCore c (notify_subscriber h e x c)
notify_subscriber-SameCore none e x c = refl
notify_subscriber-SameCore (some h) e x c = refl

pub continue-Moves :
    {A B : Type 0} (c d : Client) (r : Outcome A) (k : A → Action B)
    → Moves c d
    → ((a : A) → Moves d (k a d).1)
    → Moves c (continue r k d).1
continue-Moves c d (ok a) k e f = then-Moves c d (k a d).1 e (f a)
continue-Moves c d (err x) k e f = e
continue-Moves c d fault k e f = e

-- The wait before the next reconnection stays as well.
abbrev pub Patient : Client → Client → Type 0
Patient c d = Moves c d × (d.current_reconnect_wait_interval ≡ c.current_reconnect_wait_interval)

pub Goes-Patient : (c d : Client) → Goes c d → Patient c d
Goes-Patient c d (same, moves) = (moves, ap (λ k. k.reconnect_wait) same)

pub stay-Patient : (c : Client) → Patient c c
stay-Patient c = (stay-Moves c, refl)

pub then-Patient : (c d e : Client) → Patient c d → Patient d e → Patient c e
then-Patient c d e (m, p) (n, q) = (then-Moves c d e m n, q ∙ p)

pub continue-Patient :
    {A B : Type 0} (c d : Client) (r : Outcome A) (k : A → Action B)
    → Patient c d
    → ((a : A) → Patient d (k a d).1)
    → Patient c (continue r k d).1
continue-Patient c d (ok a) k e f = then-Patient c d (k a d).1 e (f a)
continue-Patient c d (err x) k e f = e
continue-Patient c d fault k e f = e
