-- ===== src/Mqtt/Repeat.antt =====
-- The ids of the QoS 1 and 2 messages received last (MQTT_RMDUP_MSG_ENABLED in
-- sdk_src/mqtt_client_common.c): a ring of 50 ids, which is 0 at first.
pub mod Window
use esp_qcloud.Prelude.{
  ℕ, zero, ◌+◌, ◌%◌, ◌^◌, Option, none, some, List, [], ◌∷◌, set, replicate, length, ltb, leb, ◌==◌,
  Bool, false, if◌then◌else◌,
}

abbrev pub max_repeat_buf_len : ℕ
max_repeat_buf_len = 50

pub record RepeatBuf : Type 0 where
  -- `sg_repeat_packet_id_buf`
  pub ids : List ℕ
  pub current_packet_id_cnt : ℕ

abbrev pub initial : RepeatBuf
initial = record { ids = replicate max_repeat_buf_len 0; current_packet_id_cnt = 0 }

-- `none` is -1.
unfoldable pub find_id : List ℕ → ℕ → Option ℕ
find_id [] packet_id = none
find_id (x ∷ xs) packet_id = if packet_id == x then some packet_id else find_id xs packet_id

unfoldable pub get_packet_id_in_repeat_buf : RepeatBuf → ℕ → Option ℕ
get_packet_id_in_repeat_buf b packet_id = find_id b.ids packet_id

-- The test `> 0` of the result.
is_positive : Option ℕ → Bool
is_positive none = false
is_positive (some id) = ltb 0 id

unfoldable pub add_packet_id_to_repeat_buf : RepeatBuf → ℕ → RepeatBuf
unfolding is_positive
add_packet_id_to_repeat_buf b packet_id =
    if is_positive (get_packet_id_in_repeat_buf b packet_id)
    then b
    else (let cnt = b.current_packet_id_cnt + 1 in
        record {
          ids = set b.ids b.current_packet_id_cnt packet_id;
          current_packet_id_cnt = if leb max_repeat_buf_len cnt then cnt % 50 else cnt;
        })

-- The counter stays where it is.
unfoldable pub reset_repeat_packet_id_buffer : RepeatBuf → RepeatBuf
reset_repeat_packet_id_buffer b = record b { ids = replicate max_repeat_buf_len 0 }
