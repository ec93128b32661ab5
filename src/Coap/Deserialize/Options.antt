-- ===== src/Coap/Deserialize/Options.antt =====
-- Options that are written are read back.
use esp_qcloud.Prelude.{
  ℕ, zero, suc, ◌+◌, ◌-◌, ◌*◌, ◌/◌, ◌%◌, ◌^◌, ◌≤◌, ◌<◌, ◌≡◌, ◌⊎◌, inl, inr, refl, sym, arith, some,
  Bool, true, false, List, [], ◌∷◌, ◌++◌, All, length, take-length-append, drop-length-append,
  length-append, bit_or, ◌==◌, ok, >>=-ok, ok_injective,
}
use esp_qcloud.Prelude.Bits.{join_nibbles}
use mathlib.Core.List.{append_assoc, append-nil}
use esp_qcloud.Coap.Message.{CoapOption, coap_option_init}
use esp_qcloud.Coap.Message.Order.{IsSorted}
use esp_qcloud.Coap.Serialize.{
  delta, nibble, extension, option_bytes, format_op, serialize_options, copy,
}
use esp_qcloud.Coap.Deserialize.{
  byte_at, load16, read_field, last_num, add_last, deserialize_option, options_loop,
}

-- A field of an option, from its four bits and its extension.
read_field-extension :
    (n l : ℕ) (rest : List ℕ)
    → n < 65805
    → read_field (nibble n) (extension n ++ rest) (length (extension n) + l) ≡ ok (n, rest, l)
unfolding read_field nibble extension load16 byte_at
read_field-extension n l rest h = ground arith

nibble-lt : (n : ℕ) → nibble n < 15
unfolding nibble
nibble-lt n = ground arith

pub copy-append : (xs ys : List ℕ) → copy (length xs) (xs ++ ys) ≡ ok xs
unfolding copy
copy-append xs ys = ground (arith, take-length-append xs ys, length-append xs ys)

first_byte_parts :
    (d n : ℕ)
    → (bit_or (nibble d * 2 ^ 4) (nibble n) / 2 ^ 4 % 16 ≡ nibble d)
      × (bit_or (nibble d * 2 ^ 4) (nibble n) % 16 ≡ nibble n)
first_byte_parts d n =
    rw
      (join_nibbles (nibble d) (nibble n) (omega (arith, nibble-lt d)) (omega (arith, nibble-lt n)))
      (omega (arith, nibble-lt d, nibble-lt n), omega (arith, nibble-lt d, nibble-lt n))

-- The option that is made of a number below 2 ^ 16 and a value, when the allocator gives.
made :
    (malloc : ℕ → Bool) (num : ℕ) (val : List ℕ)
    → ((n : ℕ) → malloc n ≡ true)
    → num < 2 ^ 16
    → coap_option_init malloc num val ≡ some (record { option_num = num; val = val })
unfolding coap_option_init
made malloc num val mem h = rw (mem 16, mem (length val)) (ground arith)

-- The same bytes, without the parentheses of the option.
deserialize_option-flat :
    (malloc : ℕ → Bool) (ops : List CoapOption) (op : CoapOption) (d l : ℕ) (rest : List ℕ)
    → ((n : ℕ) → malloc n ≡ true)
    → last_num ops + d ≡ op.option_num
    → op.option_num < 2 ^ 16
    → length op.val < 65805
    → deserialize_option malloc ops
        (bit_or (nibble d * 2 ^ 4) (nibble (length op.val))
          ∷ (extension d ++ (extension (length op.val) ++ (op.val ++ rest))))
        (suc (length (extension d) + (length (extension (length op.val)) + (length op.val + l))))
      ≡ ok (
        ops ++ (op ∷ []),
        suc (length (extension d) + (length (extension (length op.val)) + length op.val)),
      )
unfolding deserialize_option byte_at add_last
deserialize_option-flat malloc ops op d l rest mem le num size =
    rw ((first_byte_parts d (length op.val)).0, (first_byte_parts d (length op.val)).1)
      (ground (
        arith,
        nibble-lt d,
        nibble-lt (length op.val),
        read_field-extension d (length (extension (length op.val)) + (length op.val + l))
            (extension (length op.val) ++ (op.val ++ rest)),
        read_field-extension (length op.val) (length op.val + l) (op.val ++ rest),
        copy-append op.val rest,
        made malloc op.option_num op.val mem num,
      ))

pub format_op-ok :
    (op : CoapOption) (prev_num len : ℕ) (bytes : List ℕ)
    → prev_num ≤ op.option_num
    → op.option_num < 2 ^ 16
    → format_op op prev_num len ≡ ok bytes
    → option_bytes op (op.option_num - prev_num) ≡ bytes
unfolding format_op delta
format_op-ok op prev_num len bytes le num e =
    let same : (op.option_num + 2 ^ 32 - prev_num) % 2 ^ 16 ≡ op.option_num - prev_num =
      omega arith in
    grind (arith, same)

deserialize_option-bytes :
    (malloc : ℕ → Bool) (ops : List CoapOption) (op : CoapOption) (l : ℕ) (rest : List ℕ)
    → ((n : ℕ) → malloc n ≡ true)
    → last_num ops ≤ op.option_num
    → op.option_num < 2 ^ 16
    → length op.val < 65805
    → deserialize_option malloc ops
        (option_bytes op (op.option_num - last_num ops) ++ rest)
        (length (option_bytes op (op.option_num - last_num ops)) + l)
      ≡ ok (ops ++ (op ∷ []), length (option_bytes op (op.option_num - last_num ops)))
unfolding option_bytes
deserialize_option-bytes malloc ops op l rest mem le num size =
    let d = op.option_num - last_num ops in
    let flat = deserialize_option-flat malloc ops op d l rest mem (omega arith) num size in
    let regroup : suc (length (extension d) + (length (extension (length op.val)) + length op.val))
          + l
        ≡ suc (length (extension d) + (length (extension (length op.val)) + (length op.val + l))) =
      omega arith in
    rw
      (
        append_assoc (extension d) (extension (length op.val) ++ op.val) rest,
        append_assoc (extension (length op.val)) op.val rest,
        length-append (extension d) (extension (length op.val) ++ op.val),
        length-append (extension (length op.val)) op.val,
        regroup,
      )
      flat

last_num-append :
    (ops : List CoapOption) (op : CoapOption) → last_num (ops ++ (op ∷ [])) ≡ op.option_num
unfolding last_num
last_num-append [] op = refl
last_num-append (o ∷ []) op = refl
last_num-append (o ∷ p ∷ os) op = last_num-append (p ∷ os) op

-- What the field of an option can say.
abbrev pub Fits : CoapOption → Type 0
Fits op = (op.option_num < 2 ^ 16) × (length op.val < 65805)

serialize_options-cons :
    (op : CoapOption) (ops : List CoapOption) (prev_num len : ℕ) (bytes : List ℕ)
    → prev_num ≤ op.option_num
    → op.option_num < 2 ^ 16
    → serialize_options (op ∷ ops) prev_num len ≡ ok bytes
    → (rest : List ℕ) × (left : ℕ) × (serialize_options ops op.option_num left ≡ ok rest)
      × (option_bytes op (op.option_num - prev_num) ++ rest ≡ bytes)
unfolding serialize_options
serialize_options-cons op ops prev_num len bytes le num e =
    let (own, made_own, e1) = >>=-ok _ _ bytes e in
    let (later, made_later, e2) = >>=-ok _ _ bytes e1 in
    (
      later,
      len - length own,
      made_later,
      rw (format_op-ok op prev_num len own le num made_own) (ok_injective e2),
    )

-- An option takes a byte at least.
pub length-serialize_options :
    (ops : List CoapOption) (prev_num len : ℕ) (bytes : List ℕ)
    → IsSorted prev_num ops
    → All Fits ops
    → serialize_options ops prev_num len ≡ ok bytes
    → length ops ≤ length bytes
unfolding option_bytes
length-serialize_options [] prev_num len bytes s fit e = omega arith
length-serialize_options (op ∷ ops) prev_num len bytes (le, s) (fit, fits) e =
    let (later, left, made_later, joined) =
      serialize_options-cons op ops prev_num len bytes le fit.0 e in
    let own = option_bytes op (op.option_num - prev_num) in
    let more = length-serialize_options ops op.option_num left later s fits made_later in
    rw (sym joined, length-append own later) (omega (arith, more))

options_loop-end :
    (malloc : ℕ → Bool) (done : List CoapOption) (fuel l parsed next : ℕ) (rest : List ℕ)
    → (next ≡ 0xff) ⊎ (l ≡ 0)
    → options_loop (suc fuel) malloc done (next ∷ rest) (0 + l) parsed ≡ ok (done ++ [], parsed + 0)
unfolding options_loop byte_at
options_loop-end malloc done fuel l parsed next rest (inl e) = ground (arith, append-nil done)
options_loop-end malloc done fuel l parsed next rest (inr e) = ground (arith, append-nil done)

-- The first byte of an option is not the payload's mark, and its length is not 0.
option_bytes-goes_on :
    (op : CoapOption) (d : ℕ) (rest : List ℕ)
    → (first : ℕ) × (byte_at 0 (option_bytes op d ++ rest) ≡ ok first)
      × ((first % 256 == 0xff) ≡ false)
      × ((l : ℕ) → (length (option_bytes op d) + l == 0) ≡ false)
unfolding option_bytes byte_at
option_bytes-goes_on op d rest =
    let first = bit_or (nibble d * 2 ^ 4) (nibble (length op.val)) in
    let low : first % 16 ≡ nibble (length op.val) = (first_byte_parts d (length op.val)).1 in
    (first, refl, ground (arith, low, nibble-lt (length op.val)), (λ l. ground arith))

round :
    (malloc : ℕ → Bool) (done : List CoapOption) (op : CoapOption) (fuel l parsed : ℕ)
    (rest : List ℕ)
    → ((n : ℕ) → malloc n ≡ true)
    → last_num done ≤ op.option_num
    → Fits op
    → options_loop
        (suc fuel)
        malloc
        done
        (option_bytes op (op.option_num - last_num done) ++ rest)
        (length (option_bytes op (op.option_num - last_num done)) + l)
        parsed
      ≡ options_loop fuel malloc
          (done ++ (op ∷ []))
          rest
          l
          (parsed + length (option_bytes op (op.option_num - last_num done)))
unfolding options_loop
round malloc done op fuel l parsed rest mem le (num, size) =
    let d = op.option_num - last_num done in
    let (first, at, go, more) = option_bytes-goes_on op d rest in
    let left : length (option_bytes op d) + l - length (option_bytes op d) ≡ l = omega arith in
    rw
      (
        at,
        go,
        more l,
        deserialize_option-bytes malloc done op l rest mem le num size,
        drop-length-append (option_bytes op d) rest,
        left,
      )
      refl

pub options_loop-serialize :
    (malloc : ℕ → Bool) (done ops : List CoapOption) (fuel len l parsed next : ℕ)
    (bytes rest : List ℕ)
    → ((n : ℕ) → malloc n ≡ true)
    → IsSorted (last_num done) ops
    → All Fits ops
    → serialize_options ops (last_num done) len ≡ ok bytes
    → length ops < fuel
    → (next ≡ 0xff) ⊎ (l ≡ 0)
    → options_loop fuel malloc done (bytes ++ next ∷ rest) (length bytes + l) parsed
      ≡ ok (done ++ ops, parsed + length bytes)
unfolding serialize_options
options_loop-serialize malloc done [] (suc fuel) len l parsed next bytes rest mem s fit e enough
      stop =
    rw (sym (ok_injective e)) (options_loop-end malloc done fuel l parsed next rest stop)
options_loop-serialize malloc done (op ∷ ops) (suc fuel) len l parsed next bytes rest mem (le, s)
      (fit, fits) e enough stop =
    let (later, left, made_later, joined) =
      serialize_options-cons op ops (last_num done) len bytes le fit.0 e in
    let own = option_bytes op (op.option_num - last_num done) in
    let again =
      options_loop-serialize malloc (done ++ (op ∷ [])) ops fuel left l (parsed + length own) next
        later rest mem (rw (last_num-append done op) s) fits
        (rw (last_num-append done op) made_later) (omega arith) stop in
    let regroup : length own + length later + l ≡ length own + (length later + l) = omega arith in
    let count : parsed + length own + length later ≡ parsed + (length own + length later) =
      omega arith in
    rw
      (
        sym joined,
        append_assoc own later (next ∷ rest),
        length-append own later,
        regroup,
        round malloc done op fuel (length later + l) parsed (later ++ next ∷ rest) mem le fit,
        again,
        append_assoc done (op ∷ []) ops,
        count,
      )
      refl
options_loop-serialize malloc done ops zero len l parsed next bytes rest mem s fit e enough stop =
    absurd (omega arith)
