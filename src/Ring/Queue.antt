-- ===== src/Ring/Queue.antt =====
-- A bounded queue: what the ring buffer is for its client.
use esp_qcloud.Prelude.{
  ℕ, ◌+◌, ◌-◌, List, ◌++◌, length, take, drop, ltb, leb, if◌then◌else◌, Option, none, some,
}
use esp_qcloud.Ring.{Status, ringbuff_ok, ringbuff_full, ringbuff_too_short}

-- As many bytes as fit are taken, and more than `cap + 1` at once are refused.
unfoldable pub push : ℕ → List ℕ → List ℕ → Status × List ℕ
push cap q bytes =
    if ltb (cap + 1) (length bytes)
    then (ringbuff_too_short, q)
    else if leb (length q + length bytes) cap
    then (ringbuff_ok, q ++ bytes)
    else (ringbuff_full, q ++ take (cap - length q) bytes)

-- The oldest bytes come out, at most as many as there are.
unfoldable pub pop : ℕ → List ℕ → ℕ → Option (List ℕ) × List ℕ
pop cap q len = if ltb (cap + 1) len then (none, q) else (some (take len q), drop len q)
