-- ===== src/Base64/Exact.antt =====
-- lib/backend/base64.cpp: what is decoded is bytes, and only the text of these bytes.
use gathra_gateway.Prelude.{
  sym, ap, ℕ, ◌%◌, ◌^◌, ◌≡◌, ◌≢◌, ◌↔◌, ◌∙◌, subst, inl, inr, Bool, true, false, not, ◌||◌, List, [],
  ◌∷◌, Option, none, some, ℤ, arith, length, All, All-append, IsByte, ◌==◌, Bool-cases,
  if◌then◌else◌,
}
use gathra_gateway.Base64.{
  decode_value, padded_value, encode_all, base64_encode, quad_bytes, decode_quad, decode_all,
  is_empty, is_padding, appended, decoded, base64_decode,
}
use gathra_gateway.Base64.RoundTrip.{text_equal_sound, base64_decode-base64_encode}

-- What is decoded, if anything, is bytes.
abbrev AreBytes : Option (List ℕ) → Type 0
AreBytes none = Unit
AreBytes (some xs) = All IsByte xs

appended-AreBytes : (o p : Option (List ℕ)) → AreBytes o → AreBytes p → AreBytes (appended o p)
appended-AreBytes none p h k = tt
appended-AreBytes (some xs) none h k = tt
appended-AreBytes (some xs) (some ys) h k = All-append IsByte xs ys h k

quad_bytes-AreBytes : (value : ℕ) (c d : ℤ) → All IsByte (quad_bytes value c d)
unfolding quad_bytes
quad_bytes-AreBytes value c d =
    (omega arith, All-append IsByte _ _ (optional (is_padding c) _) (optional (is_padding d) _))
  where
    optional : (skipped : Bool) (n : ℕ) → All IsByte (if skipped then [] else n % 2 ^ 8 ∷ [])
    optional true n = tt
    optional false n = (omega arith, tt)

decode_quad-AreBytes : (final : Bool) (a b c d : ℤ) → AreBytes (decode_quad final a b c d)
unfolding decode_quad
decode_quad-AreBytes final a b c d = either _ _ (quad_bytes-AreBytes _ c d)
  where
    either :
        (refused : Bool) (xs : List ℕ)
        → All IsByte xs
        → AreBytes (if refused then none else some xs)
    either true xs h = tt
    either false xs h = h

decode_all-AreBytes : (text : List ℕ) → AreBytes (decode_all text)
unfolding decode_all
decode_all-AreBytes [] = tt
decode_all-AreBytes (a ∷ []) = tt
decode_all-AreBytes (a ∷ (b ∷ [])) = tt
decode_all-AreBytes (a ∷ (b ∷ (c ∷ []))) = tt
decode_all-AreBytes (a ∷ (b ∷ (c ∷ (d ∷ rest)))) =
    appended-AreBytes _ (decode_all rest)
      (decode_quad-AreBytes (is_empty rest) (decode_value a) (decode_value b) (padded_value c)
        (padded_value d))
      (decode_all-AreBytes rest)

decoded_lem :
    (text : List ℕ) (o : Option (List ℕ)) {output : List ℕ}
    → AreBytes o
    → decoded text o ≡ (output, true)
    → All IsByte output × (encode_all output ≡ text)
unfolding base64_encode decoded
decoded_lem text none {output = output} v h = absurd (ground arith)
decoded_lem text (some xs) {output = output} v h =
    let same : xs ≡ output = ap (λ (d : List ℕ × Bool). d.0) h in
    let equal = text_equal_sound (encode_all xs) text (ap (λ (d : List ℕ × Bool). d.1) h) in
    (subst (All IsByte) same v, ap encode_all (sym same) ∙ equal)

no_text :
    (text : List ℕ)
    → text ≡ encode_all []
    → (length text == 0 || not (length text % 4 == 0)) ≡ false
    → ⊥
unfolding encode_all
no_text [] e h = absurd (ground (arith, h))
no_text (c ∷ text) e h = absurd (ground (arith, e))

-- Decoding accepts a text with an output exactly where the output is bytes, at least one, and the text
-- is what they are encoded to.
pub base64_decode_iff :
    (text output : List ℕ)
    → (base64_decode (some text) ≡ (output, true))
      ↔ (All IsByte output × (output ≢ []) × (text ≡ base64_encode (some output)))
unfolding base64_decode base64_encode
base64_decode_iff text output = (
  elim (Bool-cases (length text == 0 || not (length text % 4 == 0))) [
    | inl e ↦ rw e (λ h. absurd (ground arith))
    | inr e ↦ rw e (λ h.
        let (bytes, encoded) = decoded_lem text (decode_all text) (decode_all-AreBytes text) h in
        (bytes, λ empty. no_text text (sym encoded ∙ ap encode_all empty) e, sym encoded))
  ],
  λ (bytes, some_bytes, e). rw e (base64_decode-base64_encode output bytes some_bytes),
)
