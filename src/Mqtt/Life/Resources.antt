-- ===== src/Mqtt/Life/Resources.antt =====
-- The locks and the lists of a client, and the platform that gives them out: the creations of
-- `qcloud_iot_mqtt_init` (sdk_src/mqtt_client.c), and its label `error`.
use esp_qcloud.Prelude.{ℕ, ◌+◌, ◌-◌, Bool, true, false, not, List, [], ◌∷◌, if◌then◌else◌}

-- What the platform gave out, and whether it gives the next ones; when no answer is left, it does.
pub record Platform : Type 0 where
  pub mutexes : ℕ
  pub lists : ℕ
  pub clients : ℕ
  pub answers : List Bool

-- The pointers of a client to its locks and lists: whether each is set.
pub record Handles : Type 0 where
  pub lock_generic : Bool
  pub lock_write_buf : Bool
  pub lock_list_sub : Bool
  pub lock_list_pub : Bool
  pub list_pub_wait_ack : Bool
  pub list_sub_wait_ack : Bool

unfoldable pub take_answer : List Bool → Platform → Bool × Platform
take_answer [] m = (true, m)
take_answer (b ∷ bs) m = (b, record m { answers = bs })

unfoldable pub mutex_create : Platform → Bool × Platform
unfolding take_answer
mutex_create m =
    let (given, m) = take_answer m.answers m in
    (given, if given then record m { mutexes = m.mutexes + 1 } else m)

unfoldable pub list_create : Platform → Bool × Platform
unfolding take_answer
list_create m =
    let (given, m) = take_answer m.answers m in
    (given, if given then record m { lists = m.lists + 1 } else m)

unfoldable pub client_create : Platform → Bool × Platform
unfolding take_answer
client_create m =
    let (given, m) = take_answer m.answers m in
    (given, if given then record m { clients = m.clients + 1 } else m)

abbrev pub mutex_destroy : Bool → Platform → Platform
mutex_destroy held m = if held then record m { mutexes = m.mutexes - 1 } else m

abbrev pub list_release : Bool → Platform → Platform
list_release held m = if held then record m { lists = m.lists - 1 } else m

-- What stands behind the label `error`.
unfoldable pub init_error : Handles → Platform → Platform
init_error h m = mutex_destroy h.lock_write_buf (
    mutex_destroy h.lock_list_pub (
      mutex_destroy h.lock_list_sub (
        mutex_destroy h.lock_generic
          (list_release h.list_sub_wait_ack (list_release h.list_pub_wait_ack m)))))

abbrev pub no_handles : Handles
no_handles = record {
  lock_generic = false;
  lock_write_buf = false;
  lock_list_sub = false;
  lock_list_pub = false;
  list_pub_wait_ack = false;
  list_sub_wait_ack = false;
}

-- The pointers that are set after each creation.
abbrev pub set_1 : Handles
set_1 = record no_handles { lock_generic = true }

abbrev pub set_2 : Handles
set_2 = record set_1 { lock_write_buf = true }

abbrev pub set_3 : Handles
set_3 = record set_2 { lock_list_sub = true }

abbrev pub set_4 : Handles
set_4 = record set_3 { lock_list_pub = true }

abbrev pub set_5 : Handles
set_5 = record set_4 { list_pub_wait_ack = true }

-- A creation, and what follows if it is refused, and if not.
unfoldable pub create_else :
    (Platform → Bool × Platform)
    → (Platform → Platform)
    → (Platform → Bool × Platform)
    → Platform
    → Bool × Platform
create_else create fail more m =
    let (given, n) = create m in if not given then (false, fail n) else more n

-- The locks and the lists are made one after the other; the first that is refused ends it. Without the
-- first there is nothing to give back.
unfoldable pub init_handles : Platform → Bool × Platform
init_handles =
    create_else mutex_create (λ m. m)
      (create_else mutex_create (init_error set_1) (
        create_else mutex_create (init_error set_2) (
          create_else mutex_create (init_error set_3) (
            create_else list_create (init_error set_4)
              (create_else list_create (init_error set_5) (λ m. (true, m)))))))
