-- ===== src/Hex/Tests.antt =====
-- Two bytes to text and back, in both cases of letters.
use esp_qcloud.Prelude.{
  ℕ, ◌*◌, ◌≡◌, refl, arith, true, false, List, [], ◌∷◌, ◌++◌, length, ok, fault,
}
use esp_qcloud.Hex.{
  encode_map, hex_char, hexbuf_convert, hexval_of_char, hexstr_convert, hexstr_loop,
}
use esp_qcloud.Hex.RoundTrip.{hexstr-hexbuf_convert}

abbrev two_bytes : List ℕ
two_bytes = 0x1f ∷ 0xe0 ∷ []

upper_text : hexbuf_convert true two_bytes 4 2 ≡ ok (b'1' ∷ b'F' ∷ b'E' ∷ b'0' ∷ [])
unfolding hexbuf_convert hex_char encode_map
upper_text = refl

lower_text_read : hexstr_convert (b'1' ∷ b'f' ∷ b'e' ∷ b'0' ∷ []) 2 2 ≡ ok two_bytes
unfolding hexstr_convert hexstr_loop hexval_of_char
lower_text_read = refl

odd_length_ignored : hexstr_convert (b'1' ∷ b'f' ∷ []) 1 1 ≡ ok []
unfolding hexstr_convert hexstr_loop
odd_length_ignored = refl

hexstr-hexbuf_convert_example :
    (out : List ℕ) × (hexbuf_convert false two_bytes (2 * 2) 2 ≡ ok out)
    × (length out ≡ 2 * 2)
    × (hexstr_convert out 2 2 ≡ ok two_bytes)
    × (hexstr_convert (out ++ (0 ∷ [])) 64 (length out) ≡ fault)
hexstr-hexbuf_convert_example =
    hexstr-hexbuf_convert false two_bytes 64 (omega arith, (omega arith, tt)) (omega arith)
