-- ===== src/Base64/RoundTrip.antt =====
-- lib/backend/base64.cpp: decoding what was encoded.
use gathra_gateway.Prelude.{
  sym, ap, ℕ, zero, suc, ◌+◌, ◌*◌, ◌/◌, ◌%◌, ◌^◌, ◌<◌, ◌≡◌, ◌≢◌, ◌∙◌, subst, refl, Bool, true,
  false, not, ◌&&◌, ◌||◌, List, [], ◌∷◌, Option, none, some, ℤ, pos, negsuc, arith, length, get_or,
  All, IsByte, ◌==◌, ℕ_discrete,
}
use gathra_gateway.Base64.{
  alphabet, decode_value, padded_value, symbol, joined, encode_all, base64_encode, quad_bytes,
  decode_quad, decode_all, is_empty, decoded, text_equal, base64_decode,
}

same : ℤ → ℕ → Bool
same (pos n) m = n == m
same (negsuc n) m = false

-- The first `n` symbols have their positions as values.
right : ℕ → Bool
unfolding same padded_value decode_value
right zero = true
right (suc n) =
    same (decode_value (get_or alphabet n 0)) n
    && (same (padded_value (get_or alphabet n 0)) n && right n)

right-alphabet : right 64 ≡ true
unfolding right same padded_value decode_value
right-alphabet = refl

same_sound : (z : ℤ) (n : ℕ) → same z n ≡ true → z ≡ pos n
unfolding same
same_sound (pos m) n h = ground arith
same_sound (negsuc m) n h = ground arith

and_both : (a b : Bool) → a && b ≡ true → (a ≡ true) × (b ≡ true)
and_both true b h = (refl, h)
and_both false b h = ground arith

right_sound :
    (n i : ℕ)
    → right n ≡ true
    → i < n
    → (decode_value (get_or alphabet i 0) ≡ pos i) × (padded_value (get_or alphabet i 0) ≡ pos i)
unfolding right
right_sound zero i h l = absurd (omega arith)
right_sound (suc n) i h l =
    let first = and_both (same (decode_value (get_or alphabet n 0)) n) _ h in
    let second = and_both (same (padded_value (get_or alphabet n 0)) n) (right n) first.1 in
    elim (ℕ_discrete i n) [
      | yes e ↦
          subst
            (λ (j : ℕ).
              (decode_value (get_or alphabet j 0) ≡ pos j)
              × (padded_value (get_or alphabet j 0) ≡ pos j))
            (sym e) (same_sound _ n first.0, same_sound _ n second.0)
      | no ne ↦ right_sound n i second.1 (omega arith)
    ]

value-symbol :
    (v p : ℕ)
    → (decode_value (symbol v p) ≡ pos (v / p % 64))
      × (padded_value (symbol v p) ≡ pos (v / p % 64))
unfolding symbol
value-symbol v p = right_sound 64 (v / p % 64) right-alphabet (omega arith)

text_equal_refl : (s : List ℕ) → text_equal s s ≡ true
unfolding text_equal
text_equal_refl [] = refl
text_equal_refl (x ∷ xs) = ground (arith, text_equal_refl xs)

pub text_equal_sound : (s t : List ℕ) → text_equal s t ≡ true → s ≡ t
unfolding text_equal
text_equal_sound [] [] h = refl
text_equal_sound [] (y ∷ t) h = ground arith
text_equal_sound (x ∷ s) [] h = ground arith
text_equal_sound (x ∷ s) (y ∷ t) h = ground (arith, text_equal_sound s t)

-- A full group of three bytes, whichever group it is.
decode_quad-joined :
    (final : Bool) (a b c : ℕ)
    → IsByte a
    → IsByte b
    → IsByte c
    → decode_quad final
        (pos (joined a b c / 2 ^ 18 % 64))
        (pos (joined a b c / 2 ^ 12 % 64))
        (pos (joined a b c / 2 ^ 6 % 64))
        (pos (joined a b c / 1 % 64))
      ≡ some (a ∷ (b ∷ (c ∷ [])))
unfolding decode_quad quad_bytes joined
decode_quad-joined true a b c ha hb hc = ground arith
decode_quad-joined false a b c ha hb hc = ground arith

decode_quad-two :
    (a b : ℕ)
    → IsByte a
    → IsByte b
    → decode_quad true
        (pos (joined a b 0 / 2 ^ 18 % 64))
        (pos (joined a b 0 / 2 ^ 12 % 64))
        (pos (joined a b 0 / 2 ^ 6 % 64))
        (negsuc 1)
      ≡ some (a ∷ (b ∷ []))
unfolding decode_quad quad_bytes joined
decode_quad-two a b ha hb = ground arith

decode_quad-one :
    (a : ℕ)
    → IsByte a
    → decode_quad true
        (pos (joined a 0 0 / 2 ^ 18 % 64))
        (pos (joined a 0 0 / 2 ^ 12 % 64))
        (negsuc 1)
        (negsuc 1)
      ≡ some (a ∷ [])
unfolding decode_quad quad_bytes joined
decode_quad-one a ha = ground arith

length-encode_all : (bytes : List ℕ) → length (encode_all bytes) ≡ (length bytes + 2) / 3 * 4
unfolding encode_all
length-encode_all [] = refl
length-encode_all (a ∷ []) = refl
length-encode_all (a ∷ (b ∷ [])) = refl
length-encode_all (a ∷ (b ∷ (c ∷ rest))) = omega (arith, length-encode_all rest)

decode_all-encode_all :
    (bytes : List ℕ) → All IsByte bytes → decode_all (encode_all bytes) ≡ some bytes
unfolding encode_all decode_all padded_value
decode_all-encode_all [] h = refl
decode_all-encode_all (a ∷ []) h =
    rw (value-symbol (joined a 0 0) (2 ^ 18)).0
      (rw (value-symbol (joined a 0 0) (2 ^ 12)).0 (rw (decode_quad-one a h.0) refl))
decode_all-encode_all (a ∷ (b ∷ [])) h = rw (value-symbol (joined a b 0) (2 ^ 18)).0 (
    rw (value-symbol (joined a b 0) (2 ^ 12)).0
      (rw (value-symbol (joined a b 0) (2 ^ 6)).1 (rw (decode_quad-two a b h.0 h.1.0) refl)))
decode_all-encode_all (a ∷ (b ∷ (c ∷ rest))) h = rw (value-symbol (joined a b c) (2 ^ 18)).0 (
    rw (value-symbol (joined a b c) (2 ^ 12)).0 (
      rw (value-symbol (joined a b c) (2 ^ 6)).1 (
        rw (value-symbol (joined a b c) 1).1 (
          rw (decode_quad-joined (is_empty (encode_all rest)) a b c h.0 h.1.0 h.1.1.0)
            (rw (decode_all-encode_all rest h.1.1.1) refl)))))

guard_lem : (n k : ℕ) → n ≡ k * 4 → 0 < k → (n == 0 || not (n % 4 == 0)) ≡ false
guard_lem n k e h = ground arith

-- Bytes, at least one, are decoded from the text that they are encoded to.
pub base64_decode-base64_encode :
    (bytes : List ℕ)
    → All IsByte bytes
    → bytes ≢ []
    → base64_decode (some (base64_encode (some bytes))) ≡ (bytes, true)
unfolding base64_decode base64_encode decoded
base64_decode-base64_encode [] h nonempty = absurd (nonempty refl)
base64_decode-base64_encode (b ∷ bytes) h nonempty =
    rw
      (guard_lem (length (encode_all (b ∷ bytes))) ((length (b ∷ bytes) + 2) / 3)
        (length-encode_all (b ∷ bytes)) (omega arith))
      (rw (decode_all-encode_all (b ∷ bytes) h)
        (rw (text_equal_refl (encode_all (b ∷ bytes))) refl))

-- What the last comparison shows.
decoded_lem :
    (text : List ℕ) (output : Option (List ℕ))
    → (decoded text output).1 ≡ true
    → (base64_encode (some (decoded text output).0) ≡ text)
      × (length text ≡ (length (decoded text output).0 + 2) / 3 * 4)
unfolding base64_encode decoded
decoded_lem text none h = absurd (ground arith)
decoded_lem text (some output) h =
    let e = text_equal_sound (encode_all output) text h in
    (e, ap (λ (t : List ℕ). length t) (sym e) ∙ length-encode_all output)
