-- ===== src/Hex.antt =====
-- Bytes as hexadecimal text: LITE_hexbuf_convert and LITE_hexstr_convert of sdk_src/string_utils.c.
-- A text is the memory from its first character on; `size` is what the caller's output holds.
pub mod RoundTrip
mod Tests
use esp_qcloud.Prelude.{
  ℕ, zero, suc, ◌+◌, ◌-◌, ◌*◌, ◌/◌, ◌%◌, ◌≤◌, ◌<◌, ◌≡◌, refl, sym, ◌∙◌, ap, arith, Bool, true,
  false, List, [], ◌∷◌, ◌++◌, All, length, leb, ◌==◌, ◌&&◌, get_or, bit_or, if◌then◌else◌, Outcome,
  ok, err, fault, ◌>>=◌,
}

unfoldable pub encode_map : Bool → List ℕ
encode_map false =
    b'0' ∷ b'1' ∷ b'2' ∷ b'3' ∷ b'4' ∷ b'5' ∷ b'6' ∷ b'7' ∷ b'8' ∷ b'9' ∷ b'a' ∷ b'b' ∷ b'c' ∷ b'd'
    ∷ b'e' ∷ b'f' ∷ []
encode_map true =
    b'0' ∷ b'1' ∷ b'2' ∷ b'3' ∷ b'4' ∷ b'5' ∷ b'6' ∷ b'7' ∷ b'8' ∷ b'9' ∷ b'A' ∷ b'B' ∷ b'C' ∷ b'D'
    ∷ b'E' ∷ b'F' ∷ []

-- A nibble is below 16, so the table is read inside.
unfoldable pub hex_char : Bool → ℕ → ℕ
hex_char uppercase n = get_or (encode_map uppercase) n 0

-- The characters that are written to `out`, which gets no terminator.
unfoldable pub hexbuf_convert : Bool → List ℕ → ℕ → ℕ → Outcome (List ℕ)
hexbuf_convert uppercase digest size zero = ok []
hexbuf_convert uppercase [] size (suc in_len) = fault
hexbuf_convert uppercase (a ∷ digest) zero (suc in_len) = fault
hexbuf_convert uppercase (a ∷ digest) (suc zero) (suc in_len) = fault
hexbuf_convert uppercase (a ∷ digest) (suc (suc size)) (suc in_len) = do
  out ← hexbuf_convert uppercase digest size in_len
  ok (hex_char uppercase (a / 16 % 16) ∷ hex_char uppercase (a % 16) ∷ out)

unfoldable pub hexval_of_char : ℕ → ℕ
hexval_of_char hex =
    if leb b'0' hex && leb hex b'9'
    then hex - b'0'
    else if leb b'a' hex && leb hex b'f'
    then hex - b'a' + 10
    else if leb b'A' hex && leb hex b'F'
    then hex - b'A' + 10
    else 0

-- `rounds` turns of the loop: each reads two characters and writes one byte.
unfoldable pub hexstr_loop : ℕ → List ℕ → ℕ → Outcome (List ℕ)
hexstr_loop zero hexstr size = ok []
hexstr_loop (suc rounds) [] size = fault
hexstr_loop (suc rounds) (a ∷ []) size = fault
hexstr_loop (suc rounds) (a ∷ b ∷ hexstr) zero = fault
hexstr_loop (suc rounds) (a ∷ b ∷ hexstr) (suc size) = do
  out ← hexstr_loop rounds hexstr size
  ok (bit_or (hexval_of_char a * 16) (hexval_of_char b) % 256 ∷ out)

-- The bytes that are written to `out_buf`; none for an odd `in_len`.
unfoldable pub hexstr_convert : List ℕ → ℕ → ℕ → Outcome (List ℕ)
hexstr_convert hexstr size in_len =
    if in_len % 2 == 0 then hexstr_loop in_len hexstr size else ok []
