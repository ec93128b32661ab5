-- ===== src/Hex/RoundTrip.antt =====
-- Hexadecimal text is read back, with the right length given.
use esp_qcloud.Prelude.{
  ℕ, zero, suc, ◌*◌, ◌/◌, ◌%◌, ◌≤◌, ◌<◌, ◌≡◌, refl, ap, arith, Bool, true, false, List, [], ◌∷◌,
  ◌++◌, All, length, bit_or, ◌==◌, if◌then◌else◌, Bool-cases, inl, inr, ok, fault, length-append,
}
use esp_qcloud.Prelude.Bits.{holds_below, join_nibbles, same_below-eq}
use esp_qcloud.Hex.{
  encode_map, hex_char, hexbuf_convert, hexval_of_char, hexstr_loop, hexstr_convert,
}

hexval-hex_char : (uppercase : Bool) (n : ℕ) → n < 16 → hexval_of_char (hex_char uppercase n) ≡ n
unfolding hexval_of_char hex_char encode_map holds_below
hexval-hex_char false = same_below-eq (λ n. hexval_of_char (hex_char false n)) (λ n. n) 16 refl
hexval-hex_char true = same_below-eq (λ n. hexval_of_char (hex_char true n)) (λ n. n) 16 refl

byte_read_back :
    (uppercase : Bool) (a : ℕ)
    → a < 256
    → bit_or
          (hexval_of_char (hex_char uppercase (a / 16 % 16)) * 16)
          (hexval_of_char (hex_char uppercase (a % 16)))
        % 256
      ≡ a
byte_read_back uppercase a h =
    let high = hexval-hex_char uppercase (a / 16 % 16) (omega arith) in
    let low = hexval-hex_char uppercase (a % 16) (omega arith) in
    let joined = join_nibbles (a / 16 % 16) (a % 16) (omega arith) (omega arith) in
    rw (high, low, joined) (omega arith)

-- The text of some bytes.
abbrev text : Bool → List ℕ → List ℕ
text uppercase [] = []
text uppercase (a ∷ bytes) =
    hex_char uppercase (a / 16 % 16) ∷ hex_char uppercase (a % 16) ∷ text uppercase bytes

hexbuf_convert-text :
    (uppercase : Bool) (bytes : List ℕ) (size : ℕ)
    → 2 * length bytes ≤ size
    → hexbuf_convert uppercase bytes size (length bytes) ≡ ok (text uppercase bytes)
unfolding hexbuf_convert
hexbuf_convert-text uppercase [] size room = refl
hexbuf_convert-text uppercase (a ∷ bytes) zero room = absurd (omega arith)
hexbuf_convert-text uppercase (a ∷ bytes) (suc zero) room = absurd (omega arith)
hexbuf_convert-text uppercase (a ∷ bytes) (suc (suc size)) room =
    rw (hexbuf_convert-text uppercase bytes size (omega arith)) refl

length-text : (uppercase : Bool) (bytes : List ℕ) → length (text uppercase bytes) ≡ 2 * length bytes
length-text uppercase [] = refl
length-text uppercase (a ∷ bytes) = let rest = length-text uppercase bytes in omega arith

hexstr_loop-text :
    (uppercase : Bool) (bytes : List ℕ) (size : ℕ)
    → All (λ a. a < 256) bytes
    → length bytes ≤ size
    → hexstr_loop (length bytes) (text uppercase bytes) size ≡ ok bytes
unfolding hexstr_loop
hexstr_loop-text uppercase [] size small room = refl
hexstr_loop-text uppercase (a ∷ bytes) zero small room = absurd (omega arith)
hexstr_loop-text uppercase (a ∷ bytes) (suc size) (first, small) room =
    rw (hexstr_loop-text uppercase bytes size small (omega arith))
      (ap (λ c. ok (c ∷ bytes)) (byte_read_back uppercase a first))

hexstr_loop_over :
    (rounds : ℕ) (hexstr : List ℕ) (size : ℕ)
    → length hexstr < 2 * rounds
    → hexstr_loop rounds hexstr size ≡ fault
unfolding hexstr_loop
hexstr_loop_over zero hexstr size short = absurd (omega arith)
hexstr_loop_over (suc rounds) [] size short = refl
hexstr_loop_over (suc rounds) (a ∷ []) size short = refl
hexstr_loop_over (suc rounds) (a ∷ b ∷ hexstr) zero short = refl
hexstr_loop_over (suc rounds) (a ∷ b ∷ hexstr) (suc size) short =
    rw (hexstr_loop_over rounds hexstr size (omega arith)) refl

-- Bytes, one at least, are turned into text of twice the length. With the number of the bytes given
-- as the length, that text is turned back into the bytes if their number is even, and nothing is
-- written if it is odd. With the length of the text given, the memory of the terminated text or of
-- the output is left, however large the output is.
pub hexstr-hexbuf_convert :
    (uppercase : Bool) (bytes : List ℕ) (size : ℕ)
    → All (λ a. a < 256) bytes
    → 1 ≤ length bytes
    → (out : List ℕ) × (hexbuf_convert uppercase bytes (2 * length bytes) (length bytes) ≡ ok out)
      × (length out ≡ 2 * length bytes)
      × (hexstr_convert out (length bytes) (length bytes)
          ≡ ok (if length bytes % 2 == 0 then bytes else []))
      × (hexstr_convert (out ++ (0 ∷ [])) size (length out) ≡ fault)
unfolding hexstr_convert
hexstr-hexbuf_convert uppercase bytes size small some_bytes =
    let out = text uppercase bytes in
    let n = length-text uppercase bytes in
    let over =
      hexstr_loop_over (length out) (out ++ (0 ∷ [])) size
        (omega (arith, n, length-append out (0 ∷ []))) in
    (
      out,
      hexbuf_convert-text uppercase bytes (2 * length bytes) (omega arith),
      n,
      elim (Bool-cases (length bytes % 2 == 0)) [
        | inl even ↦ rw even (hexstr_loop-text uppercase bytes (length bytes) small (omega arith))
        | inr odd ↦ rw odd refl
      ],
      ground (arith, over),
    )
