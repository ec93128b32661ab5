-- ===== src/Coap/Waiting/Passes.antt =====
-- One visit for each node makes a pass.
use esp_qcloud.Prelude.{
  ◌≡◌, ◌≢◌, refl, arith, Option, none, some, true, Bool-cases, inl, inr, ◌==◌, ==_iff, List, [],
  ◌∷◌, length, All, Outcome, ok, err, fault,
}
use esp_qcloud.Prelude.Gives.{Surely, Surely->>=}
use esp_qcloud.Coap.Message.{CoapMessage}
use esp_qcloud.Coap.Client.{Client, SendInfo, allocate, take_allocation}
use esp_qcloud.Coap.Waiting.{Command, visit, keep, pass, put_back, message_list_proc}

-- A node that stays.
abbrev pub Stays : (SendInfo → Type 0) → Option SendInfo → Type 0
Stays Q none = Unit {0}
Stays Q (some n) = Q n

-- What a visit leaves, with what holds between the visits.
abbrev pub Visited :
    (SendInfo → Type 0)
    → (CoapMessage → Client → Type 0)
    → Option SendInfo × CoapMessage × Client
    → Type 0
Visited Q I (o, m, c) = Stays Q o × I m c

abbrev pub Passed :
    (SendInfo → Type 0)
    → (CoapMessage → Client → Type 0)
    → List SendInfo × CoapMessage × Client
    → Type 0
Passed Q I (ns, m, c) = All Q ns × I m c

keep-All :
    (Q : SendInfo → Type 0) (o : Option SendInfo) (ns : List SendInfo)
    → Stays Q o
    → All Q ns
    → All Q (keep o ns)
keep-All Q none ns s a = a
keep-All Q (some n) ns s a = (s, a)

module _ (command : Command) (P Q : SendInfo → Type 0) (I : CoapMessage → Client → Type 0)
    (step : (n : SendInfo) (m : CoapMessage) (c : Client)
      → P n
      → I m c
      → Surely (Visited Q I) (visit command n m c)) where
  pub pass-Passed :
      (ns : List SendInfo) (m : CoapMessage) (c : Client)
      → All P ns
      → I m c
      → Surely (Passed Q I) (pass command ns m c)
  unfolding pass
  pass-Passed [] m c all i = (tt, i)
  pass-Passed (n ∷ ns) m c (p, all) i =
      Surely->>= (Passed Q I) (Passed Q I) (pass command ns m c) _ (pass-Passed ns m c all i)
        λ x done.
          Surely->>= (Visited Q I) (Passed Q I) (visit command n x.1 x.2) _
            (step n x.1 x.2 p done.1) λ y now. (keep-All Q y.0 x.0 now.0 done.0, now.1)

allocate-true : (c : Client) → c.world.allocations ≡ [] → allocate c ≡ (true, c)
unfolding allocate take_allocation
allocate-true c e = rw e refl

-- A list after a call that was no fault.
abbrev pub Left : (SendInfo → Type 0) → Outcome (Unit {0}) × Client → Type 0
Left Q (r, c) = (r ≢ fault) × All Q c.message_list

put_back-Left :
    (Q : SendInfo → Type 0) (I : CoapMessage → Client → Type 0) (J : Client → Type 0)
    → ((m : CoapMessage) (d : Client) (ns : List SendInfo)
        → I m d
        → J (record d { message_list = ns }))
    → (o : Outcome (List SendInfo × CoapMessage × Client)) (c : Client) → Surely (Passed Q I) o
    → Left Q (put_back o c) × J (put_back o c).1
put_back-Left Q I J f (ok (ns, m, d)) c (all, i) = (((λ e. cc e), all), f m d ns i)
put_back-Left Q I J f (err e) c s = absurd s
put_back-Left Q I J f fault c s = absurd s

All-empty : (Q : SendInfo → Type 0) (ns : List SendInfo) → length ns ≡ 0 → All Q ns
All-empty Q [] e = tt
All-empty Q (n ∷ ns) e = absurd (omega (arith, e))

pub message_list_proc-Left :
    (command : Command) (P Q : SendInfo → Type 0) (I : CoapMessage → Client → Type 0)
    (J : Client → Type 0)
    → ((n : SendInfo) (m : CoapMessage) (c : Client)
        → P n
        → I m c
        → Surely (Visited Q I) (visit command n m c))
    → ((m : CoapMessage) (d : Client) (ns : List SendInfo)
        → I m d
        → J (record d { message_list = ns }))
    → (m : CoapMessage) (c : Client) → c.world.allocations ≡ []
    → All P c.message_list
    → I m c
    → Left Q (message_list_proc m command c) × J (message_list_proc m command c).1
unfolding message_list_proc
message_list_proc-Left command P Q I J step f m c free all i =
    rw (allocate-true c free) (elim (Bool-cases (length c.message_list == 0)) [
      | inl y ↦
          rw y
            (((λ e. cc e), All-empty Q c.message_list ((==_iff _ _).0 y)), f m c c.message_list i)
      | inr z ↦
          rw z (put_back-Left Q I J f _ c (pass-Passed command P Q I step c.message_list m c all i))
    ])
