-- ===== src/Examples/Base64.antt =====
-- lib/backend/base64.cpp: four bytes and their text.
use gathra_gateway.Prelude.{
  ◌≡◌, ◌≢◌, ◌↔◌, All, IsByte, refl, List, ℕ, [], ◌∷◌, some, true, false, arith,
}
use gathra_gateway.Base64.{
  base64_encode, base64_decode, encode_all, decode_all, decoded, decode_value, padded_value,
  decode_quad, quad_bytes, symbol, joined, text_equal,
}
use gathra_gateway.Base64.RoundTrip.{base64_decode-base64_encode}
use gathra_gateway.Base64.Exact.{base64_decode_iff}

-- "GATH"
abbrev word : List ℕ
word = 71 ∷ (65 ∷ (84 ∷ (72 ∷ [])))

-- "R0FUSA=="
abbrev text : List ℕ
text = 82 ∷ (48 ∷ (70 ∷ (85 ∷ (83 ∷ (65 ∷ (61 ∷ (61 ∷ [])))))))

encoded_word : base64_encode (some word) ≡ text
unfolding base64_encode encode_all symbol joined
encoded_word = refl

decoded_text : base64_decode (some text) ≡ (word, true)
unfolding base64_decode decode_all decoded base64_encode decode_value padded_value decode_quad
    quad_bytes encode_all symbol joined text_equal
decoded_text = refl

-- "R0FUSB==" has bits after the last byte.
not_canonical :
    base64_decode (some (82 ∷ (48 ∷ (70 ∷ (85 ∷ (83 ∷ (66 ∷ (61 ∷ (61 ∷ []))))))))) ≡ (word, false)
unfolding base64_decode decode_all decoded base64_encode decode_value padded_value decode_quad
    quad_bytes encode_all symbol joined text_equal
not_canonical = refl

base64_decode-base64_encode_example :
    base64_decode (some (base64_encode (some word))) ≡ (word, true)
base64_decode-base64_encode_example =
    base64_decode-base64_encode word (omega arith, (omega arith, (omega arith, (omega arith, tt))))
      (λ e. ground arith)

base64_decode_iff_example :
    (base64_decode (some text) ≡ (word, true))
    ↔ (All IsByte word × (word ≢ []) × (text ≡ base64_encode (some word)))
base64_decode_iff_example = base64_decode_iff text word
