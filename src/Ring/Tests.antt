-- ===== src/Ring/Tests.antt =====
-- A ring of four bytes.
use esp_qcloud.Prelude.{ℕ, ◌≡◌, refl, arith, List, [], ◌∷◌, some}
use esp_qcloud.Ring.{Ringbuff, init, ringbuff_ok, ringbuff_full}
use esp_qcloud.Ring.Run.{Call, push, pop, empty, pushed, popped, emptied, run, queue_run, run-init}
use esp_qcloud.Ring.Queue

abbrev some_calls : List Call
some_calls = push (1 ∷ 2 ∷ []) ∷ push (3 ∷ 4 ∷ []) ∷ pop 2 ∷ push (5 ∷ []) ∷ pop 4 ∷ empty ∷ []

abbrev memory : List ℕ
memory = 9 ∷ 9 ∷ 9 ∷ 9 ∷ []

run-init_example :
    (r : Ringbuff) × (init memory 4 ≡ some r) × (run some_calls r ≡ queue_run 3 some_calls [])
run-init_example = run-init some_calls memory 4 (omega arith) (omega arith)

queue_replies :
    queue_run 3 some_calls []
    ≡ pushed ringbuff_ok
      ∷ pushed ringbuff_full
      ∷ popped (some (1 ∷ 2 ∷ []))
      ∷ pushed ringbuff_ok
      ∷ popped (some (3 ∷ 5 ∷ []))
      ∷ emptied
      ∷ []
unfolding Queue.push Queue.pop
queue_replies = refl
