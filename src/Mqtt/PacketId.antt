-- ===== src/Mqtt/PacketId.antt =====
-- The client's packet ids: `get_next_packet_id` of sdk_src/mqtt_client_common.c.
use esp_qcloud.Prelude.{
  ℕ, zero, suc, ◌+◌, ◌-◌, ◌%◌, ◌^◌, ◌≤◌, ◌<◌, ◌≡◌, ◌≢◌, arith, ◌==◌, if◌then◌else◌,
}

abbrev pub max_packet_id : ℕ
max_packet_id = 65535

-- The new `next_packet_id`, which is also the result.
unfoldable pub get_next_packet_id : ℕ → ℕ
get_next_packet_id next_packet_id =
    if max_packet_id == next_packet_id then 1 else (next_packet_id + 1) % 2 ^ 16

-- The id after a number of calls.
unfoldable pub ids_on : ℕ → ℕ → ℕ
ids_on zero id = id
ids_on (suc k) id = ids_on k (get_next_packet_id id)

pub get_next_packet_id_lem :
    (id : ℕ)
    → 1 ≤ id
    → id ≤ max_packet_id
    → get_next_packet_id id ≡ (id - 1 + 1) % max_packet_id + 1
unfolding get_next_packet_id
get_next_packet_id_lem id lo hi = ground arith

ids_on_lem :
    (k id : ℕ) → 1 ≤ id → id ≤ max_packet_id → ids_on k id ≡ (id - 1 + k) % max_packet_id + 1
unfolding ids_on
ids_on_lem zero id lo hi = omega arith
ids_on_lem (suc k) id lo hi = omega (
  arith,
  get_next_packet_id_lem id lo hi,
  ids_on_lem k (get_next_packet_id id) (omega (arith, get_next_packet_id_lem id lo hi))
      (omega (arith, get_next_packet_id_lem id lo hi)),
)

-- From an id of 1 to 65535, every later id is in that range too, and any two ids that fewer than
-- 65535 calls separate are different.
pub ids_on_distinct :
    (id j k : ℕ)
    → 1 ≤ id
    → id ≤ max_packet_id
    → j < k
    → k < j + max_packet_id
    → (1 ≤ ids_on k id) × (ids_on k id ≤ max_packet_id) × (ids_on j id ≢ ids_on k id)
ids_on_distinct id j k lo hi hjk hk = omega (arith, ids_on_lem j id lo hi, ids_on_lem k id lo hi)
