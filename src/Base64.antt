-- ===== src/Base64.antt =====
-- lib/backend/base64.cpp: the bytes of a record as text. A text is the list of its characters' codes.
pub mod RoundTrip
pub mod Exact
use gathra_gateway.Prelude.{
  ℕ, ◌+◌, ◌-◌, ◌*◌, ◌/◌, ◌%◌, ◌^◌, Bool, true, false, not, ◌&&◌, ◌||◌, List, [], ◌∷◌, ◌++◌, Option,
  none, some, ℤ, pos, negsuc, is_negative, length, get_or, leb, ◌==◌, if◌then◌else◌,
}
use gathra_gateway.Text.{CString}

-- A to Z, a to z, 0 to 9, + and /
abbrev pub alphabet : List ℕ
alphabet =
    65
    ∷ (66
        ∷ (67
            ∷ (68
                ∷ (69
                    ∷ (70
                        ∷ (71
                            ∷ (72
                                ∷ (73
                                    ∷ (74
                                        ∷ (75
                                            ∷ (76
                                                ∷ (77
                                                    ∷ (78
                                                        ∷ (79
                                                            ∷ (80
                                                            ∷ (81
                                                            ∷ (82
                                                            ∷ (83
                                                            ∷ (84
                                                            ∷ (85
                                                            ∷ (86
                                                            ∷ (87
                                                            ∷ (88
                                                            ∷ (89
                                                            ∷ (90
                                                            ∷ (97
                                                            ∷ (98
                                                            ∷ (99
                                                            ∷ (100
                                                            ∷ (101
                                                            ∷ (102
                                                            ∷ (103
                                                            ∷ (104
                                                            ∷ (105
                                                            ∷ (106
                                                            ∷ (107
                                                            ∷ (108
                                                            ∷ (109
                                                            ∷ (110
                                                            ∷ (111
                                                            ∷ (112
                                                            ∷ (113
                                                            ∷ (114
                                                            ∷ (115
                                                            ∷ (116
                                                            ∷ (117
                                                            ∷ (118
                                                            ∷ (119
                                                            ∷ (120
                                                            ∷ (121
                                                            ∷ (122
                                                            ∷ (48
                                                            ∷ (49
                                                            ∷ (50
                                                            ∷ (51
                                                            ∷ (52
                                                            ∷ (53
                                                            ∷ (54
                                                            ∷ (55 ∷ (56 ∷ (57 ∷ (43 ∷ (47 ∷ []))))))
                                                            ))))))))))))))))))))))))))))))))))))))))
                                                            )))))))))))))))))

abbrev pub pad : ℕ
pad = 61

unfoldable pub decode_value : ℕ → ℤ
decode_value c =
    if leb 65 c && leb c 90
    then pos (c - 65)
    else if leb 97 c && leb c 122
    then pos (c - 97 + 26)
    else if leb 48 c && leb c 57
    then pos (c - 48 + 52)
    else if c == 43
    then pos 62
    else if c == 47
    then pos 63
    else negsuc 0

-- `input[i] == '=' ? -2 : decodeValue(input[i])`
unfoldable pub padded_value : ℕ → ℤ
unfolding decode_value
padded_value c = if c == pad then negsuc 1 else decode_value c

-- `kAlphabet[(value >> shift) & 0x3F]`, the shift as the power of two
unfoldable pub symbol : ℕ → ℕ → ℕ
symbol value power = get_or alphabet (value / power % 64) 0

unfoldable pub joined : ℕ → ℕ → ℕ → ℕ
joined a b c = a * 2 ^ 16 + b * 2 ^ 8 + c

unfoldable pub encode_all : List ℕ → List ℕ
unfolding symbol joined
encode_all [] = []
encode_all (a ∷ []) =
    symbol (joined a 0 0) (2 ^ 18) ∷ (symbol (joined a 0 0) (2 ^ 12) ∷ (pad ∷ (pad ∷ [])))
encode_all (a ∷ (b ∷ [])) =
    symbol (joined a b 0) (2 ^ 18)
    ∷ (symbol (joined a b 0) (2 ^ 12) ∷ (symbol (joined a b 0) (2 ^ 6) ∷ (pad ∷ [])))
encode_all (a ∷ (b ∷ (c ∷ rest))) =
    symbol (joined a b c) (2 ^ 18)
    ∷ (symbol (joined a b c) (2 ^ 12)
        ∷ (symbol (joined a b c) (2 ^ 6) ∷ (symbol (joined a b c) 1 ∷ encode_all rest)))

-- A null pointer has no bytes.
unfoldable pub base64_encode : Option (List ℕ) → List ℕ
unfolding encode_all
base64_encode none = []
base64_encode (some input) = encode_all input

abbrev pub is_invalid : ℤ → Bool
is_invalid (pos n) = false
is_invalid (negsuc n) = n == 0

abbrev pub is_padding : ℤ → Bool
is_padding (pos n) = false
is_padding (negsuc n) = n == 1

-- `c < 0 ? 0 : c`
abbrev pub bits : ℤ → ℕ
bits (pos n) = n
bits (negsuc n) = 0

abbrev pub byte_at : ℕ → ℕ → ℕ
byte_at value power = value / power % 2 ^ 8

unfoldable pub quad_bytes : ℕ → ℤ → ℤ → List ℕ
quad_bytes value c d =
    byte_at value (2 ^ 16)
    ∷ ((if is_padding c then [] else byte_at value (2 ^ 8) ∷ [])
        ++ (if is_padding d then [] else byte_at value 1 ∷ []))

-- One round of the loop; `final` is whether it is the last.
unfoldable pub decode_quad : Bool → ℤ → ℤ → ℤ → ℤ → Option (List ℕ)
unfolding quad_bytes
decode_quad final a b c d =
    if is_negative a
      || is_negative b
      || is_invalid c
      || is_invalid d
      || (not final && (is_padding c || is_padding d))
      || (is_padding c && not (is_padding d))
    then none
    else some (quad_bytes (bits a * 2 ^ 18 + bits b * 2 ^ 12 + bits c * 2 ^ 6 + bits d) c d)

abbrev pub is_empty : List ℕ → Bool
is_empty [] = true
is_empty (x ∷ xs) = false

abbrev pub appended : Option (List ℕ) → Option (List ℕ) → Option (List ℕ)
appended none ys = none
appended (some xs) none = none
appended (some xs) (some ys) = some (xs ++ ys)

-- The loop, for a length that is a multiple of four.
unfoldable pub decode_all : List ℕ → Option (List ℕ)
unfolding decode_value padded_value decode_quad
decode_all (a ∷ (b ∷ (c ∷ (d ∷ rest)))) =
    appended
      (decode_quad (is_empty rest) (decode_value a) (decode_value b) (padded_value c)
        (padded_value d))
      (decode_all rest)
decode_all _ = some []

unfoldable pub text_equal : List ℕ → List ℕ → Bool
text_equal [] [] = true
text_equal [] (y ∷ ys) = false
text_equal (x ∷ xs) [] = false
text_equal (x ∷ xs) (y ∷ ys) = x == y && text_equal xs ys

-- The output and the answer; a refused quad clears the output, the last comparison does not.
unfoldable pub decoded : List ℕ → Option (List ℕ) → List ℕ × Bool
unfolding base64_encode text_equal
decoded input none = ([], false)
decoded input (some output) = (output, text_equal (base64_encode (some output)) input)

unfoldable pub base64_decode : CString → List ℕ × Bool
unfolding decode_all decoded
base64_decode none = ([], false)
base64_decode (some input) =
    if length input == 0 || not (length input % 4 == 0)
    then ([], false)
    else decoded input (decode_all input)
