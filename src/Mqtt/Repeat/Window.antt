-- ===== src/Mqtt/Repeat/Window.antt =====
-- How long an id is remembered.
use esp_qcloud.Prelude.{
  ℕ, zero, suc, ◌+◌, ◌-◌, ◌%◌, ◌≤◌, ◌<◌, ◌≡◌, refl, arith, none, some, List, [], ◌∷◌, length,
  length-set, get_or, get_or-set_self, get_or-set_ne,
}
use esp_qcloud.Mqtt.Repeat.{
  RepeatBuf, find_id, get_packet_id_in_repeat_buf, add_packet_id_to_repeat_buf, initial,
  reset_repeat_packet_id_buffer,
}

pub record IsValid (b : RepeatBuf) : Type 0 where
  pub full : length b.ids ≡ 50
  pub in_range : b.current_packet_id_cnt < 50

pub add-IsValid : (b : RepeatBuf) (id : ℕ) → IsValid b → IsValid (add_packet_id_to_repeat_buf b id)
unfolding add_packet_id_to_repeat_buf
add-IsValid b id v = ground (arith, length-set b.ids b.current_packet_id_cnt id)

find_id-get_or :
    (ids : List ℕ) (i id : ℕ) → i < length ids → get_or ids i 0 ≡ id → find_id ids id ≡ some id
unfolding find_id
find_id-get_or [] i id h e = absurd (omega arith)
find_id-get_or (x ∷ xs) zero id h e = ground arith
find_id-get_or (x ∷ xs) (suc i) id h e = ground (arith, find_id-get_or xs i id)

-- The calls of `_add_packet_id_to_repeat_buf` for these ids, in order.
abbrev pub add_all : RepeatBuf → List ℕ → RepeatBuf
add_all b [] = b
add_all b (id ∷ ids) = add_all (add_packet_id_to_repeat_buf b id) ids

-- The id stands in slot `i`, which the counter reaches after `left` writes at the earliest.
record Kept (b : RepeatBuf) (id i left : ℕ) : Type 0 where
  valid : IsValid b
  slot : i < 50
  holds : get_or b.ids i 0 ≡ id
  far : left ≤ (i + 50 - b.current_packet_id_cnt) % 50

add-Kept :
    (b : RepeatBuf) (id i left x : ℕ)
    → Kept b id i (suc left)
    → Kept (add_packet_id_to_repeat_buf b x) id i left
unfolding add_packet_id_to_repeat_buf
add-Kept b id i left x k =
    ground (arith, add-IsValid b x k.valid, get_or-set_ne b.ids b.current_packet_id_cnt i x 0)

add_all-Kept :
    (b : RepeatBuf) (id i : ℕ) (ids : List ℕ) (left : ℕ)
    → length ids ≤ left
    → Kept b id i left
    → Kept (add_all b ids) id i 0
add_all-Kept b id i [] left h k = record {
  valid = k.valid;
  slot = k.slot;
  holds = k.holds;
  far = omega arith;
}
add_all-Kept b id i (x ∷ xs) zero h k = absurd (omega arith)
add_all-Kept b id i (x ∷ xs) (suc left) h k =
    add_all-Kept (add_packet_id_to_repeat_buf b x) id i xs left (omega arith)
      (add-Kept b id i left x k)

add_new-Kept :
    (b : RepeatBuf) (id : ℕ)
    → IsValid b
    → get_packet_id_in_repeat_buf b id ≡ none
    → Kept (add_packet_id_to_repeat_buf b id) id b.current_packet_id_cnt 49
unfolding add_packet_id_to_repeat_buf
add_new-Kept b id v e = ground (
  arith,
  length-set b.ids b.current_packet_id_cnt id,
  get_or-set_self b.ids b.current_packet_id_cnt id 0,
)

-- An id that was not in the buffer is found after it has been added, and is still found after at
-- most 49 further ids, whichever they are, have been added.
pub get_packet_id-add_all :
    (b : RepeatBuf) (id : ℕ) (ids : List ℕ)
    → IsValid b
    → get_packet_id_in_repeat_buf b id ≡ none
    → length ids ≤ 49
    → get_packet_id_in_repeat_buf (add_all (add_packet_id_to_repeat_buf b id) ids) id ≡ some id
unfolding get_packet_id_in_repeat_buf
get_packet_id-add_all b id ids v e h =
    let k : Kept (add_all (add_packet_id_to_repeat_buf b id) ids) id b.current_packet_id_cnt 0 =
      add_all-Kept (add_packet_id_to_repeat_buf b id) id b.current_packet_id_cnt ids 49 h
        (add_new-Kept b id v e) in
    find_id-get_or (add_all (add_packet_id_to_repeat_buf b id) ids).ids b.current_packet_id_cnt id
      (omega arith) k.holds

IsValid-initial : IsValid initial
IsValid-initial = record { full = refl; in_range = omega arith }

pub reset-IsValid : (b : RepeatBuf) → IsValid b → IsValid (reset_repeat_packet_id_buffer b)
unfolding reset_repeat_packet_id_buffer
reset-IsValid b v = record { full = refl; in_range = v.in_range }
