-- ===== src/Queue/Names.antt =====
-- lib/queue/durable_queue_core.cpp: no two records share the name of their file.
use native.Mathlib.Nat.{div-div-eq-div-mul}
use native.Mathlib.Numerals.{unary_clauses}
use gathra_gateway.Prelude.{
  ℕ, zero, suc, ◌/◌, ◌%◌, ◌^◌, ◌<◌, ◌≡◌, ap, List, ◌++◌, arith, get_or, drop,
}
use gathra_gateway.Queue.Entries.{hex_digit, hex_digits, record_name}

hex_digit-injective : (a b : ℕ) → a < 16 → b < 16 → hex_digit a ≡ hex_digit b → a ≡ b
unfolding hex_digit
hex_digit-injective a b ha hb e = ground arith

div_pow : (a n : ℕ) → a / 16 ^ n / 16 ≡ a / 16 ^ suc n
div_pow a n = simp unary_clauses (div-div-eq-div-mul a (16 ^ n) 16)

next_digit :
    (a b n : ℕ)
    → a / 16 ^ suc n ≡ b / 16 ^ suc n
    → hex_digit (a / 16 ^ n % 16) ≡ hex_digit (b / 16 ^ n % 16)
    → a / 16 ^ n ≡ b / 16 ^ n
next_digit a b n h e = omega (
  arith,
  h,
  div_pow a n,
  div_pow b n,
  hex_digit-injective (a / 16 ^ n % 16) (b / 16 ^ n % 16) (omega arith) (omega arith) e,
)

same_digits :
    (a b n : ℕ) (rest : List ℕ)
    → a / 16 ^ n ≡ b / 16 ^ n
    → hex_digits n a ++ rest ≡ hex_digits n b ++ rest
    → a ≡ b
unfolding hex_digits
same_digits a b zero rest h e = omega (arith, h)
same_digits a b (suc n) rest h e =
    same_digits a b n rest (next_digit a b n h (ap (λ (l : List ℕ). get_or l 0 0) e))
      (ap (drop 1) e)

pub record_name-injective :
    (a b : ℕ) → a < 2 ^ 64 → b < 2 ^ 64 → record_name a ≡ record_name b → a ≡ b
unfolding record_name
record_name-injective a b ha hb e = same_digits a b 16 _ (omega arith) e
