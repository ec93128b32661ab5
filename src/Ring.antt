-- ===== src/Ring.antt =====
-- The ring buffer of sdk_src/utils_ringbuff.c. A position is moved before its byte is written or
-- read, so a ring of `size` bytes holds `size - 1`.
pub mod Window
pub mod Queue
pub mod Refine
pub mod Run
mod Tests
use esp_qcloud.Prelude.{
  ℕ, zero, suc, ◌+◌, ◌-◌, ◌%◌, Bool, true, false, List, [], ◌∷◌, length, get_or, set, drop,
  replicate, ltb, leb, ◌==◌, ◌++◌, if◌then◌else◌, Option, none, some,
}

-- A byte is any number. The `full` flag is set by a push and reset by `init` and `flush` only.
pub record Ringbuff : Type 0 where
  pub size : ℕ
  pub readpoint : ℕ
  pub writepoint : ℕ
  pub buffer : List ℕ
  pub full : Bool

pub data Status : Type 0 where
  ringbuff_ok ringbuff_full ringbuff_too_short : Status

-- `memset` of the `size` bytes, which the memory must hold.
unfoldable pub init : List ℕ → ℕ → Option Ringbuff
init buff size =
    if ltb (length buff) size
    then none
    else some (record {
      size = size;
      readpoint = 0;
      writepoint = 0;
      buffer = replicate size 0 ++ drop size buff;
      full = false;
    })

unfoldable pub flush : Ringbuff → Option Ringbuff
flush r = init r.buffer r.size

-- `writepoint` after its step.
unfoldable pub step_write : Ringbuff → ℕ
step_write r = if ltb r.writepoint (r.size - 1) then r.writepoint + 1 else 0

-- One byte is pushed.
unfoldable pub put : Ringbuff → ℕ → Ringbuff
put r x = record r { writepoint = step_write r; buffer = set r.buffer (step_write r) x }

unfoldable pub push_loop : Ringbuff → List ℕ → Status × Ringbuff
push_loop r [] = (ringbuff_ok, r)
push_loop r (x ∷ xs) =
    let rest = push_loop (put r x) xs in
    if (r.writepoint + 1) % r.size == r.readpoint
    then (ringbuff_full, record r { full = true })
    else rest

-- `len` is the length of `pData`.
unfoldable pub push_data : Ringbuff → List ℕ → Status × Ringbuff
push_data r bytes = if ltb r.size (length bytes) then (ringbuff_too_short, r) else push_loop r bytes

unfoldable pub step_read : Ringbuff → ℕ
step_read r = if r.readpoint == r.size - 1 then 0 else r.readpoint + 1

-- The bytes that are stored in `pData`, whose number is the result.
unfoldable pub pop_loop : ℕ → Ringbuff → List ℕ × Ringbuff
pop_loop zero r = ([], r)
pop_loop (suc len) r =
    let (bytes, r') = pop_loop len (record r { readpoint = step_read r }) in
    if r.writepoint == r.readpoint then ([], r) else (get_or r.buffer (step_read r) 0 ∷ bytes, r')

unfoldable pub pop_data : Ringbuff → ℕ → Option (List ℕ) × Ringbuff
pop_data r len =
    let (bytes, r') = pop_loop len r in if ltb r.size len then (none, r) else (some bytes, r')
