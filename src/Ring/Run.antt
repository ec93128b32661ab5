-- ===== src/Ring/Run.antt =====
-- Sequences of calls of a ring buffer's client, and what each returns.
use esp_qcloud.Prelude.{
  ℕ, ◌-◌, ◌≤◌, ◌<◌, ◌≡◌, refl, ap, ◌∙◌, List, [], ◌∷◌, length, Option, none, some,
}
use esp_qcloud.Ring.{Ringbuff, Status, init, flush, push_data, pop_data}
use esp_qcloud.Ring.Window.{IsValid, contents}
use esp_qcloud.Ring.Queue
use esp_qcloud.Ring.Refine.{push_data_refines, pop_data_refines, init_refines}

pub data Call : Type 0 where
  push : List ℕ → Call
  pop : ℕ → Call
  empty : Call

pub data Reply : Type 0 where
  pushed : Status → Reply
  popped : Option (List ℕ) → Reply
  emptied : Reply
  invalid : Reply

-- The ring after a flush, if its memory is there.
abbrev pub after_flush : Option Ringbuff → Ringbuff → Reply × Ringbuff
after_flush none r = (invalid, r)
after_flush (some r') r = (emptied, r')

abbrev pub call : Call → Ringbuff → Reply × Ringbuff
call (push bytes) r = let (s, r') = push_data r bytes in (pushed s, r')
call (pop len) r = let (out, r') = pop_data r len in (popped out, r')
call empty r = after_flush (flush r) r

abbrev pub run : List Call → Ringbuff → List Reply
run [] r = []
run (c ∷ cs) r = let (reply, r') = call c r in reply ∷ run cs r'

-- The same calls on a bounded queue.
abbrev pub queue_call : ℕ → Call → List ℕ → Reply × List ℕ
queue_call cap (push bytes) q = let (s, q') = Queue.push cap q bytes in (pushed s, q')
queue_call cap (pop len) q = let (out, q') = Queue.pop cap q len in (popped out, q')
queue_call cap empty q = (emptied, [])

abbrev pub queue_run : ℕ → List Call → List ℕ → List Reply
queue_run cap [] q = []
queue_run cap (c ∷ cs) q = let (reply, q') = queue_call cap c q in reply ∷ queue_run cap cs q'

flush_refines :
    (r : Ringbuff)
    → IsValid r
    → (r' : Ringbuff) × (flush r ≡ some r') × IsValid r' × (r'.size ≡ r.size) × (contents r' ≡ [])
unfolding flush
flush_refines r v = init_refines r.buffer r.size v.nonempty v.storage

-- One call on a valid ring replies as the queue does, and leaves a valid ring with its bytes.
call_refines :
    (c : Call) (r : Ringbuff)
    → IsValid r
    → IsValid (call c r).1
      × ((call c r).1.size ≡ r.size)
      × (((call c r).0, contents (call c r).1) ≡ queue_call (r.size - 1) c (contents r))
call_refines (push bytes) r v =
    let (valid, same, e) = push_data_refines r bytes v in
    (valid, same, ap (λ p. (pushed p.0, p.1)) e)
call_refines (pop len) r v =
    let (valid, same, e) = pop_data_refines r len v in (valid, same, ap (λ p. (popped p.0, p.1)) e)
call_refines empty r v =
    let (r', made, valid, same, nothing) = flush_refines r v in
    rw made (valid, same, rw nothing refl)

-- No sequence of calls tells a valid ring of `size` bytes from the bounded queue of the bytes that
-- it holds, with room for `size - 1`.
pub run_refines :
    (cs : List Call) (r : Ringbuff) → IsValid r → run cs r ≡ queue_run (r.size - 1) cs (contents r)
run_refines [] r v = refl
run_refines (c ∷ cs) r v =
    let (valid, same, e) = call_refines c r v in
    ap (λ l. (call c r).0 ∷ l)
      (run_refines cs (call c r).1 valid
        ∙ ap (λ n. queue_run (n - 1) cs (contents (call c r).1)) same)
    ∙ ap (λ p. p.0 ∷ queue_run (r.size - 1) cs p.1) e

-- A fresh ring of `size` bytes replies to any calls as an empty queue.
pub run-init :
    (cs : List Call) (buff : List ℕ) (size : ℕ)
    → 0 < size
    → size ≤ length buff
    → (r : Ringbuff) × (init buff size ≡ some r) × (run cs r ≡ queue_run (size - 1) cs [])
run-init cs buff size pos fits =
    let (r, made, valid, same, nothing) = init_refines buff size pos fits in
    (
      r,
      made,
      run_refines cs r valid
          ∙ (ap (λ n. queue_run (n - 1) cs (contents r)) same
              ∙ ap (queue_run (size - 1) cs) nothing),
    )
