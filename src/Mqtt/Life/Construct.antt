-- ===== src/Mqtt/Life/Construct.antt =====
-- A client that was constructed, and one that was not.
use esp_qcloud.Prelude.{
  not, ℕ, zero, suc, All, replicate, ◌+◌, ◌-◌, ◌≡◌, ◌≢◌, ◌⊎◌, refl, arith, Option, none, some, Bool,
  true, false, List, [], ◌∷◌, length, ltb, if◌then◌else◌, Bool-cases, inl, inr, Outcome, ok, err,
  fault,
}
use esp_qcloud.Mqtt.Repeat.{RepeatBuf}
use esp_qcloud.Mqtt.Client.{Client, World}
use esp_qcloud.Mqtt.Frame.{SoundTable, ShortLists}
use esp_qcloud.Mqtt.SubTable.Alike.{NoTwins, alike}
use esp_qcloud.Mqtt.Session.Connection.{Status, success, mqtt_connect}
use esp_qcloud.Mqtt.Session.Connection.Laws.{Connected, mqtt_connect_lem, connect-Patient}
use esp_qcloud.Mqtt.Life.Resources.{Platform, client_create, take_answer, init_handles}
use esp_qcloud.Mqtt.Life.Init.{
  Build, InitParams, with_key, has_credentials, empty_handle, init_client, mqtt_init, mqtt_fini,
  free_client, device_info_set, host_str_length, domain_length,
}
use esp_qcloud.Prelude.Codes.{inval}
use esp_qcloud.Mqtt.Life.{
  Constructed, refused, sane, connect_params, decode_secret, connected, with_secret, initialized,
  construct_device, construct_named, construct,
}
use esp_qcloud.Mqtt.Life.Balance.{init_handles-Makes}

-- A client that is connected, with a sound table of subscriptions and short waiting lists.
abbrev pub Ready : Client → Type 0
Ready c = Connected c × SoundTable 10 c × ShortLists c

-- Nothing is held without a client, and four locks, two lists and the memory of the client with one.
abbrev pub Leaves : Platform → Option Client → Platform → Type 0
Leaves m none n = (n.mutexes ≡ m.mutexes) × (n.lists ≡ m.lists) × (n.clients ≡ m.clients)
Leaves m (some c) n =
    (n.mutexes ≡ m.mutexes + 4) × (n.lists ≡ m.lists + 2) × (n.clients ≡ m.clients + 1) × Ready c

-- What a construction leaves, with the credentials that the build asks for and without: then there
-- is no client, and either nothing is held, or the locks and the lists are but the memory is not.
abbrev pub Constructs : Bool → Platform → Constructed → Type 0
Constructs true m r = Leaves m r.client r.platform
Constructs false m r =
    (r.client ≡ none)
    × (Leaves m none r.platform
        ⊎ ((r.code ≡ err inval)
            × (r.platform.mutexes ≡ m.mutexes + 4)
            × (r.platform.lists ≡ m.lists + 2)
            × (r.platform.clients ≡ m.clients)))

refused-Constructs :
    (b : Bool) (code : Outcome Status) (w : World) (m n : Platform)
    → Leaves m none n
    → Constructs b m (refused code w n)
refused-Constructs true code w m n held = held
refused-Constructs false code w m n held = (refl, inl held)

-- `n` holds a client and what belongs to it.
abbrev Full : Platform → Platform → Type 0
Full m n = (n.mutexes ≡ m.mutexes + 4) × (n.lists ≡ m.lists + 2) × (n.clients ≡ m.clients + 1)

none_alike : (n : ℕ) → All (λ t. alike empty_handle t ≡ false) (replicate n empty_handle)
none_alike zero = tt
none_alike (suc n) = (refl, none_alike n)

pub empties : (n : ℕ) → NoTwins (replicate n empty_handle)
empties zero = tt
empties (suc n) = (none_alike n, empties n)

fresh_table : (p : InitParams) (ids : RepeatBuf) (w : World) → SoundTable 10 (init_client p ids w)
unfolding init_client
fresh_table p ids w = (empties 10, refl)

fresh_lists : (p : InitParams) (ids : RepeatBuf) (w : World) → ShortLists (init_client p ids w)
unfolding init_client
fresh_lists p ids w = (omega arith, omega arith)

fresh_offline :
    (p : InitParams) (ids : RepeatBuf) (w : World) → (init_client p ids w).is_connected ≡ false
unfolding init_client
fresh_offline p ids w = refl

released : (m n : Platform) → Full m n → Leaves m none (free_client (mqtt_fini n))
unfolding mqtt_fini
released m n (a, b, c) = (omega arith, omega arith, omega arith)

-- The memory of the client is given, and held, or not.
abbrev MakesClient : Platform → Bool × Platform → Type 0
MakesClient m r =
    ((r.0 ≡ true)
      × ((r.1.mutexes ≡ m.mutexes) × (r.1.lists ≡ m.lists) × (r.1.clients ≡ m.clients + 1)))
    ⊎ ((r.0 ≡ false) × Leaves m none r.1)

client_MakesClient :
    (m : Platform) (l : List Bool)
    → let r = take_answer l m in
      MakesClient m (r.0, if r.0 then record r.1 { clients = r.1.clients + 1 } else r.1)
unfolding take_answer
client_MakesClient m [] = inl (refl, (refl, refl, refl))
client_MakesClient m (true ∷ l) = inl (refl, (refl, refl, refl))
client_MakesClient m (false ∷ l) = inr (refl, (refl, refl, refl))

client_create-MakesClient : (m : Platform) → MakesClient m (client_create m)
unfolding client_create
client_create-MakesClient m = client_MakesClient m m.answers

module _ (decode : List ℕ → Outcome (Unit {0})) (texts : Client → List ℕ × Option (List ℕ))
    (b : Build) where
  connected-Leaves :
      (m n : Platform) (r : Outcome Status) (c : Client)
      → Full m n
      → (r ≡ ok success → Ready c)
      → let q = connected decode texts b (r, c) n in Leaves m q.client q.platform
  unfolding connected
  connected-Leaves m n (ok success) c (a, l, k) ready = (a, l, k, ready refl)
  connected-Leaves m n (ok Status.mqtt_reconnected) c full ready = released m n full
  connected-Leaves m n (ok Status.mqtt_manually_disconnected) c full ready = released m n full
  connected-Leaves m n (ok Status.mqtt_already_connected) c full ready = released m n full
  connected-Leaves m n (err e) c full ready = released m n full
  connected-Leaves m n fault c full ready = released m n full

  with_secret-Leaves :
      (q : Outcome (Unit {0})) (p : InitParams) (client_id : List ℕ) (m n : Platform) (c : Client)
      → q ≢ fault
      → Full m n
      → c.is_connected ≡ false
      → SoundTable 10 c
      → ShortLists c
      → let r = with_secret decode texts b q p client_id c n in Leaves m r.client r.platform
  unfolding with_secret
  with_secret-Leaves (ok u) p client_id m n c safe full off table short =
      let o = connect_params p client_id in
      let (r, d) = mqtt_connect (with_key b) texts o c in
      let ((runs, keeps, holds), wait) = connect-Patient (with_key b) texts o c in
      let (done, ended) = mqtt_connect_lem (with_key b) texts o c off in
      connected-Leaves m n r d full (λ e. (done e, keeps 10 table, holds short))
  with_secret-Leaves (err e) p client_id m n c safe full off table short = released m n full
  with_secret-Leaves fault p client_id m n c safe full off table short = absurd (safe refl)

  -- The step of the credentials, when everything was made.
  credentials-Constructs :
      (has : Bool) (p : InitParams) (client_id : List ℕ) (ids : RepeatBuf) (w : World)
      (m n : Platform)
      → (has ≡ true → decode_secret decode texts b p ≢ fault)
      → Full m n
      → let c = init_client p ids w in
        Constructs has m (
          initialized decode texts b p client_id
            (if not has then (err inval, c.world, n) else (ok c, c.world, n)))
  unfolding initialized
  credentials-Constructs true p client_id ids w m n safe full =
      with_secret-Leaves (decode_secret decode texts b p) p client_id m n (init_client p ids w)
        (safe refl) full (fresh_offline p ids w) (fresh_table p ids w) (fresh_lists p ids w)
  credentials-Constructs false p client_id ids w m n safe (a, l, k) =
      (refl, inr (refl, a, l, omega arith))

  initialized-Constructs :
      (p : InitParams) (client_id product_id : List ℕ) (ids : RepeatBuf) (w : World)
      (m n : Platform)
      → (has_credentials b p ≡ true → decode_secret decode texts b p ≢ fault)
      → (n.mutexes ≡ m.mutexes)
      → (n.lists ≡ m.lists)
      → (n.clients ≡ m.clients + 1)
      → Constructs
          (has_credentials b p)
          m
          (initialized decode texts b p client_id (mqtt_init b p product_id ids w n))
  unfolding initialized mqtt_init
  initialized-Constructs p client_id product_id ids w m n safe x y z =
      elim (Bool-cases (ltb (host_str_length - 1) (length product_id + 1 + domain_length))) [
        | inl long ↦ rw long (refused-Constructs _ _ _ _ _ (x, y, omega arith))
        | inr fits ↦ rw fits (elim (init_handles-Makes n) [
          | inl (made, (a, l, k)) ↦ rw made (
              credentials-Constructs (has_credentials b p) p client_id ids w m (init_handles n).1
                safe (omega arith, omega arith, omega arith))
          | inr (lost, (a, l, k)) ↦
              rw lost (refused-Constructs _ _ _ _ _ (omega arith, omega arith, omega arith))
        ])
      ]

  -- The memory of the client, if it is given.
  construct_device-Constructs :
      (p : InitParams) (ids : RepeatBuf) (product_id : List ℕ) (q : Outcome (List ℕ)) (w : World)
      (m : Platform)
      → (has_credentials b p ≡ true → decode_secret decode texts b p ≢ fault)
      → Constructs (has_credentials b p) m (construct_device decode texts b p ids product_id q w m)
  unfolding construct_device
  construct_device-Constructs p ids product_id (ok client_id) w m safe =
      elim (client_create-MakesClient m) [
        | inl (given, (a, l, k)) ↦
            rw given
              (initialized-Constructs p client_id product_id ids w m (client_create m).1 safe a l k)
        | inr (lost, (a, l, k)) ↦ rw lost (refused-Constructs _ _ _ _ _ (a, l, k))
      ]
  construct_device-Constructs p ids product_id (err e) w m safe =
      refused-Constructs _ _ _ _ _ (refl, refl, refl)
  construct_device-Constructs p ids product_id fault w m safe =
      refused-Constructs _ _ _ _ _ (refl, refl, refl)

  construct_named-Constructs :
      (p : InitParams) (ids : RepeatBuf) (product_id device_name : Option (List ℕ)) (w : World)
      (m : Platform)
      → (has_credentials b p ≡ true → decode_secret decode texts b p ≢ fault)
      → Constructs
          (has_credentials b p)
          m
          (construct_named decode texts b p ids product_id device_name w m)
  unfolding construct_named
  construct_named-Constructs p ids (some x) (some y) w m safe =
      construct_device-Constructs p ids x (device_info_set x y) w m safe
  construct_named-Constructs p ids (some x) none w m safe =
      refused-Constructs _ _ _ _ _ (refl, refl, refl)
  construct_named-Constructs p ids none y w m safe = refused-Constructs _ _ _ _ _ (refl, refl, refl)

  -- Where the build has the credentials it asks for, decoding the secret touches no memory outside.
  -- Then a client that was constructed is connected, has a table of ten places without twins and
  -- short waiting lists, and holds four locks, two lists and its memory, and if none was, whatever
  -- was refused, the platform holds what it held before. Without the credentials there is no
  -- client, and either the platform holds what it held before, or the result is
  -- QCLOUD_ERR_INVAL and four locks and two lists more are held, which are lost.
  pub construct-Constructs :
      (p : InitParams) (ids : RepeatBuf) (w : World) (m : Platform)
      → (has_credentials b p ≡ true → decode_secret decode texts b p ≢ fault)
      → Constructs (has_credentials b p) m (construct decode texts b p ids w m)
  unfolding construct
  construct-Constructs p ids w m safe =
      construct_named-Constructs p ids (sane p.product_id) (sane p.device_name) w m safe
