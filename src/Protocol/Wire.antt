-- ===== src/Protocol/Wire.antt =====
-- lib/protocol/protocol.cpp: the classes `Writer` and `Reader`. A writer fills a buffer of fixed
-- capacity; a reader is the list of the bytes from its position on.
use native.Mathlib.Decide.{dec_le}
use gathra_gateway.Prelude.{
  sym, ◌∙◌, ℕ, ◌+◌, ◌*◌, ◌/◌, ◌%◌, ◌^◌, ◌≤◌, ◌<◌, ◌≡◌, refl, List, [], ◌∷◌, ◌++◌, append_assoc,
  Option, none, some, arith, fun_ext, length, length-append, take, drop, take-append, drop-append,
  ltb, leb, if◌then◌else◌,
}

pub record Writer : Type 0 where
  pub capacity : ℕ
  pub bytes : List ℕ

-- A chain of writes joined by `&&` stops at the first that fails.
abbrev pub W : Type 0
W = Writer → Option Writer

infixl 5 ◌>>◌
abbrev pub ◌>>◌ : W → W → W
◌>>◌ m k w = elim (m w) [ none ↦ none | some w' ↦ k w' ]

-- `return false`
abbrev pub refuse : W
refuse w = none

-- The bytes that were written, `written` many.
abbrev pub finish : Option Writer → Option (List ℕ)
finish none = none
finish (some w) = some w.bytes

-- The argument is converted to a `uint8_t`.
unfoldable pub put_u8 : ℕ → W
put_u8 v w =
    if leb w.capacity (length w.bytes)
    then none
    else some (record w { bytes = w.bytes ++ (v % 2 ^ 8 ∷ []) })

unfoldable pub put_u16 : ℕ → W
unfolding put_u8
put_u16 v = do put_u8 (v / 2 ^ 8); put_u8 v

unfoldable pub put_u32 : ℕ → W
unfolding put_u8
put_u32 v = do put_u8 (v / 2 ^ 24); put_u8 (v / 2 ^ 16); put_u8 (v / 2 ^ 8); put_u8 v

unfoldable pub put_bytes : List ℕ → W
put_bytes bs w =
    if ltb w.capacity (length w.bytes + length bs)
    then none
    else some (record w { bytes = w.bytes ++ bs })

abbrev pub R : Type 0 → Type 0
R A = List ℕ → Option (A × List ℕ)

infixl 5 ◌>>=◌
abbrev pub ◌>>=◌ : {A B : Type 0} → R A → (A → R B) → R B
◌>>=◌ m f s = elim (m s) [ none ↦ none | some (a, s') ↦ f a s' ]

abbrev pub ret : {A : Type 0} → A → R A
ret a s = some (a, s)

unfoldable pub get_u8 : R ℕ
get_u8 [] = none
get_u8 (b ∷ rest) = some (b, rest)

-- The bytes do not overlap, so `|` adds them.
unfoldable pub get_u16 : R ℕ
unfolding get_u8
get_u16 = do hi ← get_u8; lo ← get_u8; ret (hi * 2 ^ 8 + lo)

unfoldable pub get_u32 : R ℕ
unfolding get_u8
get_u32 = do
  b0 ← get_u8
  b1 ← get_u8
  b2 ← get_u8
  b3 ← get_u8
  ret (b0 * 2 ^ 24 + b1 * 2 ^ 16 + b2 * 2 ^ 8 + b3)

unfoldable pub get_bytes : ℕ → R (List ℕ)
get_bytes n s = if ltb (length s) n then none else some (take n s, drop n s)

-- What the writers put.
abbrev pub be8 : ℕ → List ℕ
be8 v = v % 2 ^ 8 ∷ []

abbrev pub be16 : ℕ → List ℕ
be16 v = v / 2 ^ 8 % 2 ^ 8 ∷ v % 2 ^ 8 ∷ []

abbrev pub be32 : ℕ → List ℕ
be32 v = v / 2 ^ 24 % 2 ^ 8 ∷ v / 2 ^ 16 % 2 ^ 8 ∷ v / 2 ^ 8 % 2 ^ 8 ∷ v % 2 ^ 8 ∷ []

-- A write that fits appends its bytes, and one that does not fails.
pub put_bytes_fits :
    (bs : List ℕ) (w : Writer)
    → length w.bytes + length bs ≤ w.capacity
    → put_bytes bs w ≡ some (record w { bytes = w.bytes ++ bs })
unfolding put_bytes
put_bytes_fits bs w h = ground arith

pub put_bytes_full :
    (bs : List ℕ) (w : Writer) → w.capacity < length w.bytes + length bs → put_bytes bs w ≡ none
unfolding put_bytes
put_bytes_full bs w h = ground arith

fits : (xs ys : List ℕ) (w : Writer) → (put_bytes xs >> put_bytes ys) w ≡ put_bytes (xs ++ ys) w
fits xs ys w = elim (dec_le (length w.bytes + length xs) w.capacity) [
  | yes h ↦ rw (put_bytes_fits xs w h, ◌>>◌) (second h)
  | no h ↦
      rw (put_bytes_full xs w (omega arith), ◌>>◌)
        (sym (put_bytes_full (xs ++ ys) w (omega (arith, length-append xs ys))))
]
  where
    second :
        length w.bytes + length xs ≤ w.capacity
        → put_bytes ys (record w { bytes = w.bytes ++ xs }) ≡ put_bytes (xs ++ ys) w
    second h = elim (dec_le (length w.bytes + length (xs ++ ys)) w.capacity) [
      | yes k ↦
          put_bytes_fits ys _ (omega (arith, length-append w.bytes xs, length-append xs ys))
          ∙ rw append_assoc (sym (put_bytes_fits (xs ++ ys) w k))
      | no k ↦
          put_bytes_full ys _ (omega (arith, length-append w.bytes xs, length-append xs ys))
          ∙ sym (put_bytes_full (xs ++ ys) w (omega arith))
    ]

pub put_bytes-put_bytes : (xs ys : List ℕ) → (put_bytes xs >> put_bytes ys) ≡ put_bytes (xs ++ ys)
put_bytes-put_bytes xs ys = fun_ext (fits xs ys)

pub >>_assoc : (a b c : W) → ((a >> b) >> c) ≡ (a >> (b >> c))
>>_assoc a b c = fun_ext λ w. ground arith

pub put_u8-put_bytes : (v : ℕ) → put_u8 v ≡ put_bytes (be8 v)
unfolding put_u8 put_bytes
put_u8-put_bytes v = fun_ext λ w. ground arith

pub put_u16-put_bytes : (v : ℕ) → put_u16 v ≡ put_bytes (be16 v)
unfolding put_u16
put_u16-put_bytes v = simp (put_u8-put_bytes, put_bytes-put_bytes)

pub put_u32-put_bytes : (v : ℕ) → put_u32 v ≡ put_bytes (be32 v)
unfolding put_u32
put_u32-put_bytes v = simp (put_u8-put_bytes, put_bytes-put_bytes)

pub ruleset writes = (put_u8-put_bytes, put_u16-put_bytes, put_u32-put_bytes, put_bytes-put_bytes)

-- A reader takes back what a writer put, whatever follows.
pub get_u8-be8 : (v : ℕ) (rest : List ℕ) → get_u8 (be8 v ++ rest) ≡ some (v % 2 ^ 8, rest)
unfolding get_u8
get_u8-be8 v rest = refl

pub get_u16-be16 : (v : ℕ) (rest : List ℕ) → get_u16 (be16 v ++ rest) ≡ some (v % 2 ^ 16, rest)
unfolding get_u16 get_u8
get_u16-be16 v rest = ground arith

pub get_u32-be32 : (v : ℕ) (rest : List ℕ) → get_u32 (be32 v ++ rest) ≡ some (v % 2 ^ 32, rest)
unfolding get_u32 get_u8
get_u32-be32 v rest = ground arith

pub get_bytes-append : (xs rest : List ℕ) → get_bytes (length xs) (xs ++ rest) ≡ some (xs, rest)
unfolding get_bytes
get_bytes-append xs rest =
    ground (arith, length-append xs rest, take-append xs rest, drop-append xs rest)

pub join8 : (v : ℕ) → v < 2 ^ 8 → v % 2 ^ 8 ≡ v
join8 v h = omega arith

pub join16 : (v : ℕ) → v < 2 ^ 16 → v / 2 ^ 8 % 2 ^ 8 * 2 ^ 8 + v % 2 ^ 8 ≡ v
join16 v h = omega arith

pub join32 :
    (v : ℕ)
    → v < 2 ^ 32
    → v / 2 ^ 24 % 2 ^ 8 * 2 ^ 24
        + v / 2 ^ 16 % 2 ^ 8 * 2 ^ 16
        + v / 2 ^ 8 % 2 ^ 8 * 2 ^ 8
        + v % 2 ^ 8
      ≡ v
join32 v h = omega arith
