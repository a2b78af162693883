-- ===== src/Text.antt =====
-- C strings. A `char` array is the list of its bytes before the first NUL (all of them, if there is
-- none); a `const char*` is an option, `none` for a null pointer.
use Prim.Native.String.{String}
use Prim.Native.Char.{code}
use gathra_gateway.Prelude.{
  ℕ, zero, suc, ◌<◌, ◌≡◌, refl, Bool, true, false, ◌&&◌, ◌||◌, List, [], ◌∷◌, Option, none, some,
  arith, length, take, ltb, leb, ◌==◌, if◌then◌else◌,
}

abbrev pub CString : Type 0
CString = Option (List ℕ)

-- `strnlen(s, n)`
unfoldable pub strnlen : List ℕ → ℕ → ℕ
strnlen s n = if ltb (length s) n then length s else n

-- `strncpy(d, s, n)` into an array of zeros with more than `n` bytes.
abbrev pub strncpy : List ℕ → ℕ → List ℕ
strncpy s n = take n s

-- `strncmp(a, b, n) == 0`
unfoldable pub strncmp_eq : List ℕ → List ℕ → ℕ → Bool
strncmp_eq a b zero = true
strncmp_eq [] [] (suc n) = true
strncmp_eq [] (y ∷ b) (suc n) = false
strncmp_eq (x ∷ a) [] (suc n) = false
strncmp_eq (x ∷ a) (y ∷ b) (suc n) = x == y && strncmp_eq a b n

pub strncmp_eq_refl : (a : List ℕ) (n : ℕ) → strncmp_eq a a n ≡ true
unfolding strncmp_eq
strncmp_eq_refl a zero = refl
strncmp_eq_refl [] (suc n) = refl
strncmp_eq_refl (x ∷ a) (suc n) = ground (arith, strncmp_eq_refl a n)

-- Two texts that fit their arrays compare equal only if they are equal.
pub strncmp_eq_sound :
    (a b : List ℕ) (n : ℕ) → strncmp_eq a b n ≡ true → length a < n → length b < n → a ≡ b
unfolding strncmp_eq
strncmp_eq_sound a b zero e ha hb = absurd (omega arith)
strncmp_eq_sound [] [] (suc n) e ha hb = refl
strncmp_eq_sound [] (y ∷ b) (suc n) e ha hb = ground arith
strncmp_eq_sound (x ∷ a) [] (suc n) e ha hb = ground arith
strncmp_eq_sound (x ∷ a) (y ∷ b) (suc n) e ha hb = ground (arith, strncmp_eq_sound a b n)

-- The bytes of a literal, which is ASCII.
abbrev pub codes : String → List ℕ
codes String.[] = []
codes (String.◌∷◌ c s) = code c ∷ codes s

-- `strncmp(value, prefix, strlen(prefix)) == 0`
unfoldable pub starts_with : List ℕ → List ℕ → Bool
unfolding strncmp_eq
starts_with value prefix = strncmp_eq value prefix (length prefix)

-- `strchr(s, c) != nullptr`, for a character that is not NUL.
unfoldable pub has_char : ℕ → List ℕ → Bool
has_char c [] = false
has_char c (x ∷ s) = x == c || has_char c s

-- `memchr(s, c, n)`: what stands before the first such character, and what stands after it.
unfoldable pub split_char : ℕ → List ℕ → List ℕ × Option (List ℕ)
split_char c [] = ([], none)
split_char c (x ∷ s) =
    let (before, after) = split_char c s in if x == c then ([], some s) else (x ∷ before, after)

-- The string in an array of these bytes.
unfoldable pub c_string : List ℕ → List ℕ
c_string [] = []
c_string (c ∷ s) = if c == 0 then [] else c ∷ c_string s

-- The classes of characters of the C locale.
unfoldable pub iscntrl : ℕ → Bool
iscntrl c = ltb c 32 || c == 127

unfoldable pub isspace : ℕ → Bool
isspace c = (leb 9 c && leb c 13) || c == 32

unfoldable pub alphanumeric : ℕ → Bool
alphanumeric c =
    (leb b'A' c && leb c b'Z') || (leb b'a' c && leb c b'z') || (leb b'0' c && leb c b'9')
