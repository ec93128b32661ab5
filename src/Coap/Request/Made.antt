-- ===== src/Coap/Request/Made.antt =====
-- What a request of the user is, whatever the allocator gives it.
use mathlib.Core.Path.{subst}
use esp_qcloud.Prelude.{
  ℕ, ◌<◌, ◌≡◌, refl, ap, sym, ◌∙◌, Option, none, some, Bool, List, [], ◌∷◌, ◌++◌, length, leb, ◌==◌,
  if◌then◌else◌, Bool-cases, inl, inr, Outcome, ok, err, fault, >>=-ok, ok_injective, ◌^◌,
  replicate,
}
use esp_qcloud.Coap.Message.{
  CoapMessage, CoapOption, coap_message_payload_set, copy_payload, coap_message_option_add,
  coap_option_init, add_made,
}
use esp_qcloud.Coap.Request.{
  SendMsgParams, or_same, post, with_pay_load, add_option, uri_path, auth_token_option,
  need_resp_option, need_resp_val, with_callback, request,
}
use esp_qcloud.Coap.Request.Wire.{post-eq}

-- A confirmable request with this id, and a token of these four bytes.
abbrev pub IsPost : ℕ → List ℕ → CoapMessage → Type 0
IsPost msg_id token m =
    (m.type ≡ 0)
    × (m.code_class ≡ 0)
    × (m.msg_id ≡ msg_id)
    × (m.token_len ≡ 4)
    × (m.token ≡ token ++ (0 ∷ 0 ∷ 0 ∷ 0 ∷ []))
    × (m.handler ≡ none)

module _ (msg_id : ℕ) (token : List ℕ) where
  -- A setter that keeps these fields, whether it succeeds or not.
  or_same-IsPost :
      (m m' : CoapMessage) (o : Outcome CoapMessage)
      → IsPost msg_id token m
      → ((a : CoapMessage) → o ≡ ok a → IsPost msg_id token a)
      → or_same m o ≡ ok m'
      → IsPost msg_id token m'
  or_same-IsPost m m' (ok a) was sets e = subst (IsPost msg_id token) (ok_injective e) (sets a refl)
  or_same-IsPost m m' (err x) was sets e = subst (IsPost msg_id token) (ok_injective e) was
  or_same-IsPost m m' fault was sets e = absurd (cc e)

  add_made-IsPost :
      (m a : CoapMessage) (option : Option CoapOption)
      → IsPost msg_id token m
      → add_made m option ≡ ok a
      → IsPost msg_id token a
  unfolding add_made
  add_made-IsPost m a none was e = absurd (cc e)
  add_made-IsPost m a (some option) was e = subst (IsPost msg_id token) (ok_injective e) was

  add_option-IsPost :
      (malloc : ℕ → Bool) (num : ℕ) (val : List ℕ) (m m' : CoapMessage)
      → IsPost msg_id token m
      → add_option malloc num val m ≡ ok m'
      → IsPost msg_id token m'
  unfolding add_option coap_message_option_add
  add_option-IsPost malloc num val m m' was =
      or_same-IsPost m m' (add_made m (coap_option_init malloc num val)) was
        λ a. add_made-IsPost m a (coap_option_init malloc num val) was

  copy_payload-IsPost :
      (m a : CoapMessage) (buf : List ℕ) (memory : Option (List ℕ))
      → IsPost msg_id token m
      → copy_payload m buf memory ≡ ok a
      → IsPost msg_id token a
  unfolding copy_payload
  copy_payload-IsPost m a buf none was e = absurd (cc e)
  copy_payload-IsPost m a buf (some memory) was e =
      elim (Bool-cases (leb (length buf) (length memory))) [
        | inl y ↦ subst (IsPost msg_id token) (ok_injective (rw y at e)) was
        | inr n ↦ absurd (cc (e, n))
      ]

  with_pay_load-IsPost :
      (pay_load : List ℕ) (m m' : CoapMessage)
      → IsPost msg_id token m
      → with_pay_load pay_load m ≡ ok m'
      → IsPost msg_id token m'
  unfolding with_pay_load coap_message_payload_set
  with_pay_load-IsPost pay_load m m' was =
      let m1 = record m { pay_load = some (replicate (length pay_load) 0) } in
      or_same-IsPost m1 m' (coap_message_payload_set m1 pay_load) was λ a set.
        elim (Bool-cases (length pay_load == 0)) [
          | inl y ↦ subst (IsPost msg_id token) (ok_injective (rw y at set)) was
          | inr n ↦ copy_payload-IsPost m1 a pay_load m1.pay_load was (rw n at set)
        ]

-- What a request is: as `IsPost`, with the user's callback if an answer is needed, and the user's context.
abbrev pub IsRequest : ℕ → List ℕ → SendMsgParams → CoapMessage → Type 0
IsRequest msg_id token p m =
    (m.type ≡ 0)
    × (m.code_class ≡ 0)
    × (m.msg_id ≡ msg_id)
    × (m.token_len ≡ 4)
    × (m.token ≡ token ++ (0 ∷ 0 ∷ 0 ∷ 0 ∷ []))
    × (m.handler ≡ (if p.need_resp then p.resp_callback else none))
    × (m.user_context ≡ p.user_context)

with_callback-IsRequest :
    (msg_id : ℕ) (token : List ℕ) (p : SendMsgParams) (m : CoapMessage)
    → IsPost msg_id token m
    → IsRequest msg_id token p (with_callback p m)
with_callback-IsRequest msg_id token p m (a, b, c, d, e, f) =
    (a, b, c, d, e, ap (λ h. if p.need_resp then p.resp_callback else h) f, refl)

pub request-IsRequest :
    (malloc : ℕ → Bool) (auth_token topic : List ℕ) (msg_id t0 t1 t2 t3 : ℕ) (p : SendMsgParams)
    (m : CoapMessage)
    → msg_id < 2 ^ 16
    → request malloc auth_token msg_id (t0 ∷ t1 ∷ t2 ∷ t3 ∷ []) topic p ≡ ok m
    → IsRequest msg_id (t0 ∷ t1 ∷ t2 ∷ t3 ∷ []) p m
unfolding request
request-IsRequest malloc auth_token topic msg_id t0 t1 t2 t3 p m h e =
    let token = t0 ∷ t1 ∷ t2 ∷ t3 ∷ [] in
    let (m1, e1, r1) = >>=-ok (post msg_id token) _ m e in
    let (m2, e2, r2) = >>=-ok (with_pay_load p.pay_load m1) _ m r1 in
    let (m3, e3, r3) = >>=-ok (add_option malloc uri_path topic m2) _ m r2 in
    let (m4, e4, r4) = >>=-ok (add_option malloc auth_token_option auth_token m3) _ m r3 in
    let (m5, e5, r5) =
      >>=-ok (add_option malloc need_resp_option (need_resp_val p.need_resp) m4) _ m r4 in
    let p1 : IsPost msg_id token m1 =
      subst (IsPost msg_id token) (ok_injective (sym (post-eq msg_id t0 t1 t2 t3 h) ∙ e1))
        (refl, refl, refl, refl, refl, refl) in
    let p2 = with_pay_load-IsPost msg_id token p.pay_load m1 m2 p1 e2 in
    let p3 = add_option-IsPost msg_id token malloc uri_path topic m2 m3 p2 e3 in
    let p4 = add_option-IsPost msg_id token malloc auth_token_option auth_token m3 m4 p3 e4 in
    let p5 =
      add_option-IsPost msg_id token malloc need_resp_option (need_resp_val p.need_resp) m4 m5 p4
        e5 in
    subst (IsRequest msg_id token p) (ok_injective r5)
      (with_callback-IsRequest msg_id token p m5 p5)
