-- ===== src/Ring/Refine.antt =====
-- A valid ring buffer behaves as the bounded queue of the bytes that it holds.
use esp_qcloud.Prelude.{
  ℕ, zero, suc, ◌-◌, ◌≤◌, ◌<◌, ◌≡◌, refl, ap, sym, ◌∙◌, arith, true, false, List, [], ◌∷◌, ◌++◌,
  length, take, drop, replicate, length-append, length-replicate, get_or, ltb, leb, ◌==◌,
  if◌then◌else◌, Bool-cases, inl, inr, some,
}
use mathlib.Core.List.{append_assoc, append-nil}
use esp_qcloud.Ring.{
  Ringbuff, Status, ringbuff_ok, ringbuff_full, init, put, push_loop, push_data, step_read,
  pop_loop, pop_data,
}
use esp_qcloud.Ring.Window.{
  IsValid, held, contents, length-window, put-IsValid, put_room, held_full, held_empty, held_bound,
  contents-read,
}
use esp_qcloud.Ring.Queue

take_none : (n : ℕ) → take {A = ℕ} n [] ≡ []
take_none zero = refl
take_none (suc n) = refl

take-cons : (n : ℕ) (x : ℕ) (xs : List ℕ) → 0 < n → take n (x ∷ xs) ≡ x ∷ take (n - 1) xs
take-cons zero x xs h = absurd (omega arith)
take-cons (suc n) x xs h = ap (λ k. x ∷ take k xs) (omega arith)

-- What the loop leaves.
record Pushed (r : Ringbuff) (bytes : List ℕ) (out : Status × Ringbuff) : Type 0 where
  valid : IsValid out.1
  status : out.0 ≡ (if leb (length bytes) (r.size - 1 - held r) then ringbuff_ok else ringbuff_full)
  bytes_in : contents out.1 ≡ contents r ++ take (r.size - 1 - held r) bytes
  same_size : out.1.size ≡ r.size

push_full :
    (r : Ringbuff) (x : ℕ) (xs : List ℕ)
    → IsValid r
    → (held r == r.size - 1) ≡ true
    → Pushed r (x ∷ xs) (ringbuff_full, record r { full = true })
push_full r x xs v y =
    let none_left : r.size - 1 - held r ≡ 0 = ground arith in
    record {
      valid = record {
        storage = v.storage;
        nonempty = v.nonempty;
        reads_in = v.reads_in;
        writes_in = v.writes_in;
      };
      status = rw none_left (ground arith);
      bytes_in = rw none_left (sym (append-nil (contents r)));
      same_size = refl;
    }

push_more :
    (r : Ringbuff) (x : ℕ) (xs : List ℕ) (out : Status × Ringbuff)
    → IsValid r
    → (held r == r.size - 1) ≡ false
    → Pushed (put r x) xs out
    → Pushed r (x ∷ xs) out
unfolding put
push_more r x xs out v n p =
    let (there, grown) = put_room r x v n in
    let bound = held_bound r v in
    record {
      valid = p.valid;
      status = ground (arith, p.status, grown, bound);
      bytes_in =
          p.bytes_in
          ∙ ap (λ l. l ++ take (r.size - 1 - held (put r x)) xs) there
          ∙ (append_assoc (contents r) (x ∷ []) (take (r.size - 1 - held (put r x)) xs)
              ∙ ap (λ l. contents r ++ l)
                  (sym (
                    take-cons (r.size - 1 - held r) x xs (ground (arith, bound))
                    ∙ ap (λ k. x ∷ take k xs) (omega (arith, grown)))));
      same_size = p.same_size;
    }

-- The loop takes the bytes that fit.
push_loop_lem : (bytes : List ℕ) (r : Ringbuff) → IsValid r → Pushed r bytes (push_loop r bytes)
unfolding push_loop
push_loop_lem [] r v = record {
  valid = v;
  status = ground arith;
  bytes_in = rw (take_none (r.size - 1 - held r)) (sym (append-nil (contents r)));
  same_size = refl;
}
push_loop_lem (x ∷ xs) r v = elim (Bool-cases (held r == r.size - 1)) [
  | inl y ↦ rw (held_full r v) (rw y (push_full r x xs v y))
  | inr n ↦ rw (held_full r v) (
      rw n (
        push_more r x xs (push_loop (put r x) xs) v n
          (push_loop_lem xs (put r x) (put-IsValid r x v))))
]

take_all : (n : ℕ) (xs : List ℕ) → length xs ≤ n → take n xs ≡ xs
take_all n [] h = take_none n
take_all zero (x ∷ xs) h = absurd (omega arith)
take_all (suc n) (x ∷ xs) h = ap (λ l. x ∷ l) (take_all n xs (omega arith))

-- A push of a valid ring returns the status of the queue's push, and leaves a valid ring with the
-- queue's bytes.
pub push_data_refines :
    (r : Ringbuff) (bytes : List ℕ)
    → IsValid r
    → let (s, r') = push_data r bytes in
      IsValid r'
      × (r'.size ≡ r.size)
      × ((s, contents r') ≡ Queue.push (r.size - 1) (contents r) bytes)
unfolding push_data Queue.push
push_data_refines r bytes v = elim (Bool-cases (ltb r.size (length bytes))) [
  | inl y ↦ rw y (v, refl, ground (arith, v.nonempty))
  | inr n ↦
      let p = push_loop_lem bytes r v in
      let held_length = length-window r.buffer r.size r.readpoint (held r) in
      rw n (
        p.valid,
        p.same_size,
        ground (
          arith,
          v.nonempty,
          p.status,
          p.bytes_in,
          held_length,
          held_bound r v,
          take_all (r.size - 1 - held r) bytes,
        ),
      )
]

-- What the loop of a pop gives and leaves.
record Popped (len : ℕ) (r : Ringbuff) (out : List ℕ × Ringbuff) : Type 0 where
  valid : IsValid out.1
  bytes_out : out.0 ≡ take len (contents r)
  bytes_left : contents out.1 ≡ drop len (contents r)
  same_size : out.1.size ≡ r.size

pop_loop_lem :
    (len : ℕ) (r : Ringbuff) (n : ℕ) → held r ≡ n → IsValid r → Popped len r (pop_loop len r)
unfolding pop_loop
pop_loop_lem zero r n e v = record {
  valid = v;
  bytes_out = refl;
  bytes_left = refl;
  same_size = refl;
}
pop_loop_lem (suc len) r zero e v =
    let empty : (r.writepoint == r.readpoint) ≡ true = ground (arith, held_empty r v) in
    rw empty (record { valid = v; bytes_out = rw e refl; bytes_left = rw e refl; same_size = refl })
pop_loop_lem (suc len) r (suc n) e v =
    let some_left : (r.writepoint == r.readpoint) ≡ false = ground (arith, held_empty r v) in
    let (valid, one_less, front) = contents-read r n v e in
    let p = pop_loop_lem len (record r { readpoint = step_read r }) n one_less valid in
    rw some_left (record {
      valid = p.valid;
      bytes_out = rw front (ap (λ l. get_or r.buffer (step_read r) 0 ∷ l) p.bytes_out);
      bytes_left = rw front p.bytes_left;
      same_size = p.same_size;
    })

-- A pop of a valid ring gives the bytes of the queue's pop, and leaves a valid ring with the rest.
pub pop_data_refines :
    (r : Ringbuff) (len : ℕ)
    → IsValid r
    → let (out, r') = pop_data r len in
      IsValid r'
      × (r'.size ≡ r.size)
      × ((out, contents r') ≡ Queue.pop (r.size - 1) (contents r) len)
unfolding pop_data Queue.pop
pop_data_refines r len v =
    let p = pop_loop_lem len r (held r) refl v in
    elim (Bool-cases (ltb r.size len)) [
      | inl y ↦ rw y (v, refl, ground (arith, v.nonempty))
      | inr n ↦ rw n (p.valid, p.same_size, ground (arith, v.nonempty, p.bytes_out, p.bytes_left))
    ]

-- A ring that is made in memory of `size` bytes or more is valid, and empty.
pub init_refines :
    (buff : List ℕ) (size : ℕ)
    → 0 < size
    → size ≤ length buff
    → (r : Ringbuff) × (init buff size ≡ some r) × IsValid r × (r.size ≡ size) × (contents r ≡ [])
unfolding init
init_refines buff size pos fits = (
  record {
    size = size;
    readpoint = 0;
    writepoint = 0;
    buffer = replicate size 0 ++ drop size buff;
    full = false;
  },
  ground arith,
  record {
    storage =
        omega (
          arith,
          length-append (replicate size 0) (drop size buff),
          length-replicate {A = ℕ} size 0,
        );
    nonempty = pos;
    reads_in = pos;
    writes_in = pos;
  },
  refl,
  refl,
)
