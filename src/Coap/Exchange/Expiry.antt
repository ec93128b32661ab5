-- ===== src/Coap/Exchange/Expiry.antt =====
-- A client to which nothing comes ends with nothing to wait for.
use esp_qcloud.Prelude.{
  ℕ, zero, suc, ◌+◌, ◌<◌, ◌≡◌, refl, arith, List, [], ◌∷◌, All, Outcome, ok, err, fault,
}
use esp_qcloud.Coap.Message.{default_message}
use esp_qcloud.Coap.Client.{Client, SendInfo}
use esp_qcloud.Coap.Waiting.{process_wait, message_list_proc}
use esp_qcloud.Coap.Waiting.Expiry.{SentAgain, IsSilent, Proceeds, message_list_proc-Proceeds}
use esp_qcloud.Coap.Exchange.{
  Action, continue, settle, take_read, message_recv, after_recv, is_timeout, message_cycle,
}

-- `k` cycles, one after the other, whatever they return.
unfoldable pub cycles : ℕ → Action (Unit {0})
cycles zero c = (ok tt, c)
cycles (suc k) c = let (r, d) = message_cycle c in continue (settle r) (λ u. cycles k) d

message_cycle-silent :
    (c : Client)
    → c.world.reads ≡ []
    → message_cycle c ≡ message_list_proc default_message process_wait c
unfolding message_cycle message_recv take_read after_recv is_timeout
message_cycle-silent c e = rw e refl

abbrev Ends : ℕ → ℕ → Outcome (Unit {0}) × Client → Type 0
Ends k max (r, c) = (r ≡ ok tt) × All (SentAgain k max) c.message_list

-- One cycle, and then the others.
next_cycles :
    (j k max : ℕ) (done : Outcome (Unit {0}) × Client)
    → Proceeds k max done
    → ((d : Client)
        → All (SentAgain k max) d.message_list
        → IsSilent max d
        → Ends (k + j) max (cycles j d))
    → Ends (k + j) max (continue (settle done.0) (λ u. cycles j) done.1)
next_cycles j k max (ok u, d) ((n, again), s) later = later d again s
next_cycles j k max (err e, d) ((n, again), s) later = later d again s
next_cycles j k max (fault, d) ((n, again), s) later = absurd (n refl)

cycles-Ends :
    (j k max : ℕ) (c : Client)
    → max < 256
    → All (SentAgain k max) c.message_list
    → IsSilent max c
    → Ends (k + j) max (cycles j c)
unfolding cycles
cycles-Ends zero k max c small again s = let same : k + 0 ≡ k = omega arith in (refl, rw same again)
cycles-Ends (suc j) k max c small again s =
    let moved : k + suc j ≡ suc k + j = omega arith in
    rw (moved, message_cycle-silent c s.2)
      (next_cycles j (suc k) max (message_list_proc default_message process_wait c)
        (message_list_proc-Proceeds k max default_message c small again s)
        λ d again' s'. cycles-Ends j (suc k) max d small again' s')

none_left : (k max : ℕ) (ns : List SendInfo) → max < k → All (SentAgain k max) ns → ns ≡ []
none_left k max [] more a = refl
none_left k max (n ∷ ns) more ((has, low, high), a) = absurd (omega arith)

-- When nothing arrives, every timer has expired, the allocator gives, and every waiting request has
-- its bytes and was sent again at most as often as allowed, then after one cycle more than the
-- retries that the client allows no request waits any more, and no cycle ends in a fault: a request
-- that nobody answers is given up.
pub cycles-empty :
    (max : ℕ) (c : Client)
    → max < 256
    → IsSilent max c
    → All (SentAgain 0 max) c.message_list
    → ((cycles (max + 1) c).0 ≡ ok tt) × ((cycles (max + 1) c).1.message_list ≡ [])
cycles-empty max c small s again =
    let (fine, left) = cycles-Ends (max + 1) 0 max c small again s in
    (fine, none_left (0 + (max + 1)) max _ (omega arith) left)
