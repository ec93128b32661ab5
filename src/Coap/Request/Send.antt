-- ===== src/Coap/Request/Send.antt =====
-- Sending a request: `IOT_COAP_SendMessage` and `coap_client_auth`, and what they leave in the list
-- of waiting requests.
use esp_qcloud.Prelude.{
  ℕ, ◌+◌, ◌/◌, ◌%◌, ◌^◌, ◌<◌, ◌≡◌, ◌⊎◌, ◌∙◌, arith, none, true, false, [], ◌∷◌, ◌++◌, refl, sym,
  ◌&&◌, List, length, ltb, ◌==◌, if◌then◌else◌, Outcome, ok, err, fault, Bool-cases, inl, inr,
}
use esp_qcloud.Prelude.Codes.{inval, max_topic_length}
use esp_qcloud.Coap.Message.{
  CoapMessage, msg_con, msg_req, get_next_coap_msg_id, get_coap_message_token,
}
use esp_qcloud.Coap.Client.{Client, SendInfo}
use esp_qcloud.Coap.Exchange.{Action, ◌>>=◌, pure, run, message_send}
use esp_qcloud.Coap.Exchange.Track.{Tracks, bind-Tracks, Waits, message_send-Tracks}
use mathlib.Core.Path.{subst}
use esp_qcloud.Coap.Request.Made.{IsRequest, request-IsRequest}
use esp_qcloud.Coap.Request.{SendMsgParams, uri_path_max_len, request, auth_request}

-- The next id and token of the client.
unfoldable pub take_id : Client → ℕ × Client
take_id c = let id = get_next_coap_msg_id c.next_msg_id in (id, record c { next_msg_id = id })

unfoldable pub take_token : Client → List ℕ × Client
take_token c =
    let (token, next) = get_coap_message_token c.message_token in
    (token, record c { message_token = next })

-- Without memory for the payload there is no request.
unfoldable pub make_request : ℕ → List ℕ → List ℕ → SendMsgParams → Action CoapMessage
make_request id token topic p c = (
  if c.world.malloc (length p.pay_load)
      then request c.world.malloc c.auth_token id token topic p
      else err inval,
  c,
)

-- `IOT_COAP_SendMessage`: the result is the message's id.
unfoldable pub send_message : List ℕ → SendMsgParams → Action ℕ
send_message topic p c =
    if ltb uri_path_max_len (length topic)
    then (err max_topic_length, c)
    else (do
      id ← run take_id
      token ← run take_token
      m ← make_request id token topic p
      _ ← message_send m
      pure id)
        c

-- `coap_client_auth`
unfoldable pub client_auth : List ℕ → List ℕ → ℕ → ℕ → Action (Unit {0})
client_auth path pay_load callback client = do
  id ← run take_id
  token ← run take_token
  m ← (λ d. (
    if d.world.malloc (length pay_load)
        then auth_request d.world.malloc id token path pay_load callback client
        else err inval,
    d,
  ))
  message_send m

-- The id that follows another: 1 behind 65535.
abbrev pub Follows : ℕ → ℕ → Type 0
Follows n id = ((n < 65535) × (id ≡ n + 1)) ⊎ ((n ≡ 65535) × (id ≡ 1))

-- The four bytes of a number, the lowest first.
abbrev pub four_bytes : ℕ → List ℕ
four_bytes n = n % 256 ∷ n / 2 ^ 8 % 256 ∷ n / 2 ^ 16 % 256 ∷ n / 2 ^ 24 % 256 ∷ []

-- A node behind the others that stands for a request of the user: with the next id, which is the
-- result, the client's token, the callback if an answer is needed, and the user's context; not
-- acknowledged and not sent again.
abbrev pub SentWith : Client → SendMsgParams → ℕ → Client → Type 0
SentWith c p id d =
    Follows c.next_msg_id id
    × ((n : SendInfo) × (d.message_list ≡ c.message_list ++ (n ∷ []))
        × (n.msg_id ≡ id)
        × (n.token_len ≡ 4)
        × (n.token ≡ four_bytes c.message_token)
        × (n.handler ≡ (if p.need_resp then p.resp_callback else none))
        × (n.user_context ≡ p.user_context)
        × (n.acked ≡ false)
        × (n.retrans_count ≡ 0))

next_id-Follows : (n : ℕ) → n < 2 ^ 16 → Follows n (get_next_coap_msg_id n)
unfolding get_next_coap_msg_id
next_id-Follows n h = ground arith

next_id-lt : (n : ℕ) → get_next_coap_msg_id n < 2 ^ 16
unfolding get_next_coap_msg_id
next_id-lt n = ground arith

-- The node of a message that is a request.
sent_with :
    (c d : Client) (p : SendMsgParams) (m : CoapMessage)
    → c.next_msg_id < 2 ^ 16
    → IsRequest (get_next_coap_msg_id c.next_msg_id) (four_bytes c.message_token) p m
    → Waits (m.type == msg_con && m.code_class == msg_req) c.message_list m d
    → SentWith c p (get_next_coap_msg_id c.next_msg_id) d
sent_with c d p m small (type, class, id, token_len, token, handler, context) waits =
    let is : (m.type == msg_con && m.code_class == msg_req) ≡ true = ground arith in
    let (n, at, n_id, n_len, n_token, n_handler, acked, count, n_context) =
      subst (λ b. Waits b c.message_list m d) is waits in
    (
      next_id-Follows c.next_msg_id small,
      (
        n,
        at,
        n_id ∙ id,
        n_len ∙ token_len,
        n_token ∙ rw (token_len, token) refl,
        n_handler ∙ handler,
        n_context ∙ context,
        acked,
        count,
      ),
    )

-- The client with its id and token taken.
abbrev started : Client → Client
started c = record c {
  next_msg_id = get_next_coap_msg_id c.next_msg_id;
  message_token = (get_coap_message_token c.message_token).1;
}

-- The message of a request, while the list is as it was.
abbrev Made : Client → ℕ → List ℕ → List ℕ → SendMsgParams → CoapMessage → Client → Type 0
Made c id token topic p m e =
    (request c.world.malloc c.auth_token id token topic p ≡ ok m)
    × (e.message_list ≡ c.message_list)

Made-Tracks :
    (c : Client) (id : ℕ) (token topic : List ℕ) (p : SendMsgParams) (o : Outcome CoapMessage)
    → request c.world.malloc c.auth_token id token topic p ≡ o
    → Tracks c.message_list (Made c id token topic p) (o, started c)
Made-Tracks c id token topic p (ok m) e = (e, refl)
Made-Tracks c id token topic p (err x) e = refl
Made-Tracks c id token topic p fault e = refl

make_request-Tracks :
    (c : Client) (id : ℕ) (token topic : List ℕ) (p : SendMsgParams)
    → Tracks c.message_list (Made c id token topic p) (make_request id token topic p (started c))
unfolding make_request
make_request-Tracks c id token topic p = elim (Bool-cases (c.world.malloc (length p.pay_load))) [
  | inl y ↦ rw y (Made-Tracks c id token topic p _ refl)
  | inr n ↦ rw n refl
]

send_from :
    (ns : List SendInfo) (m : CoapMessage) (e : Client)
    → e.message_list ≡ ns
    → Tracks ns
        (λ u d. Waits (m.type == msg_con && m.code_class == msg_req) ns m d)
        (message_send m e)
send_from ns m e same = rw (sym same) (message_send-Tracks m e)

-- The id of the client has 16 bits. A request of the user that is sent waits: behind the requests that were waiting there is one more,
-- with the client's next id, which is the result, its token, the user's callback and context. When
-- the request fails, no matter where, the list of waiting requests is as it was.
pub send_message-Tracks :
    (topic : List ℕ) (p : SendMsgParams) (c : Client)
    → c.next_msg_id < 2 ^ 16
    → Tracks c.message_list (SentWith c p) (send_message topic p c)
unfolding send_message take_id take_token get_coap_message_token
send_message-Tracks topic p c small =
    let n = c.next_msg_id in
    let id = get_next_coap_msg_id n in
    let token = four_bytes c.message_token in
    let ns = c.message_list in
    elim (Bool-cases (ltb uri_path_max_len (length topic))) [
      | inl y ↦ rw y refl
      | inr short ↦ rw short (
          bind-Tracks ns (Made c id token topic p) (SentWith c p) (make_request id token topic p) _
            (started c) (make_request-Tracks c id token topic p)
            λ m e made.
              bind-Tracks ns (λ u d. Waits (m.type == msg_con && m.code_class == msg_req) ns m d)
                (SentWith c p) (message_send m) (λ u. pure id) e (send_from ns m e made.1)
                λ u d waits.
                  sent_with c d p m small
                    (request-IsRequest c.world.malloc c.auth_token topic id _ _ _ _ p m
                      (next_id-lt n) made.0)
                    waits)
    ]
