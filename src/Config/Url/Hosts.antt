-- ===== src/Config/Url/Hosts.antt =====
-- lib/config/gateway_config.cpp: the two scanners against descriptions of what they accept.
use gathra_gateway.Prelude.{
  ℕ, ◌+◌, ◌-◌, ◌*◌, ◌≤◌, ◌≡◌, refl, inl, inr, Bool, true, false, not, ◌&&◌, ◌||◌, List, [], ◌∷◌,
  arith, ltb, leb, ◌==◌, if◌then◌else◌, Bool-cases,
}
use gathra_gateway.Text.{alphanumeric}
use gathra_gateway.Config.Url.{
  is_digit, port_from, decimal_port_valid, goes_on, host_from, dns_host_valid,
}

-- The number that decimal digits write after `n`, however large.
unfoldable pub decimal : ℕ → List ℕ → ℕ
decimal n [] = n
decimal n (c ∷ rest) = decimal (n * 10 + (c - b'0')) rest

unfoldable pub all_digits : List ℕ → Bool
unfolding is_digit
all_digits [] = true
all_digits (c ∷ rest) = is_digit c && all_digits rest

le-decimal : (n : ℕ) (s : List ℕ) → n ≤ decimal n s
unfolding decimal
le-decimal n [] = omega arith
le-decimal n (c ∷ rest) = omega (arith, le-decimal (n * 10 + (c - b'0')) rest)

is_digit-le : (c : ℕ) → is_digit c ≡ true → c ≤ b'9'
unfolding is_digit
is_digit-le c h = ground arith

port_from-decimal :
    (port : ℕ) (s : List ℕ)
    → port ≤ 65_535
    → port_from port s ≡ (all_digits s && (ltb 0 (decimal port s) && leb (decimal port s) 65_535))
unfolding port_from all_digits decimal
port_from-decimal port [] h = ground arith
port_from-decimal port (c ∷ rest) h = elim (Bool-cases (is_digit c)) [
  | inr e ↦ rw e refl
  | inl e ↦ ground (
    arith,
    e,
    is_digit-le c e,
    le-decimal (port * 10 + (c - b'0')) rest,
    port_from-decimal (port * 10 + (c - b'0')) rest,
  )
]

-- A port is accepted exactly where it is decimal digits, at least one, for a number from 1 to 65535;
-- however many digits there are, the 32-bit counter does not overflow.
pub decimal_port_valid-decimal :
    (port : List ℕ)
    → decimal_port_valid port
      ≡ (all_digits port && (ltb 0 (decimal 0 port) && leb (decimal 0 port) 65_535))
unfolding decimal_port_valid decimal all_digits
decimal_port_valid-decimal [] = refl
decimal_port_valid-decimal (c ∷ rest) = port_from-decimal 0 (c ∷ rest) (omega arith)

-- What stands before the first dot, and what stands between the others.
unfoldable pub words : List ℕ → List ℕ × List (List ℕ)
words [] = ([], [])
words (c ∷ rest) = let (w, ws) = words rest in if c == b'.' then ([], w ∷ ws) else (c ∷ w, ws)

-- The rest of a label is letters, digits and hyphens, and does not end in a hyphen.
unfoldable pub label_end : ℕ → List ℕ → Bool
label_end before [] = not (before == b'-')
label_end before (c ∷ rest) = (alphanumeric c || c == b'-') && label_end c rest

-- A label starts with a letter or a digit.
unfoldable pub is_label : List ℕ → Bool
unfolding label_end
is_label [] = false
is_label (c ∷ rest) = alphanumeric c && label_end c rest

unfoldable pub all_labels : List (List ℕ) → Bool
unfolding is_label
all_labels [] = true
all_labels (w ∷ ws) = is_label w && all_labels ws

hyphen_goes_on : (s : List ℕ) → goes_on s ≡ false → label_end b'-' (words s).0 ≡ false
unfolding label_end words
hyphen_goes_on [] h = refl
hyphen_goes_on (c ∷ rest) h = ground arith

alphanumeric-ne : (c : ℕ) → alphanumeric c ≡ true → ((c == b'-') ≡ false) × ((c == b'.') ≡ false)
unfolding alphanumeric
alphanumeric-ne c h = ground arith

hyphen-ne : (c : ℕ) → (c == b'-') ≡ true → ((c == b'.') ≡ false) × (c ≡ b'-')
hyphen-ne c h = ground arith

-- The scanner reads as the description does, from either state.
abbrev Agrees : ℕ → List ℕ → Type 0
Agrees before s =
    (host_from true before s ≡ (is_label (words s).0 && all_labels (words s).1))
    × (host_from false before s ≡ (label_end before (words s).0 && all_labels (words s).1))

module _ (before c : ℕ) (rest : List ℕ) (ih : Agrees c rest) where
  letter-Agrees : alphanumeric c ≡ true → Agrees before (c ∷ rest)
  unfolding host_from words is_label label_end all_labels
  letter-Agrees a =
      (ground (arith, ih.1, alphanumeric-ne c a), ground (arith, ih.1, alphanumeric-ne c a))

  hyphen-Agrees : alphanumeric c ≡ false → (c == b'-') ≡ true → Agrees before (c ∷ rest)
  unfolding host_from words is_label label_end all_labels
  hyphen-Agrees a h =
      (ground (arith, hyphen-ne c h), ground (arith, ih.1, hyphen-ne c h, hyphen_goes_on rest))

  other-Agrees : alphanumeric c ≡ false → (c == b'-') ≡ false → Agrees before (c ∷ rest)
  unfolding host_from words is_label label_end all_labels
  other-Agrees a h = (ground (arith, ih.0), ground (arith, ih.0))

host_from-words : (before : ℕ) (s : List ℕ) → Agrees before s
unfolding host_from words is_label label_end all_labels
host_from-words before [] = ground arith
host_from-words before (c ∷ rest) = elim (Bool-cases (alphanumeric c)) [
  | inl a ↦ letter-Agrees before c rest (host_from-words c rest) a
  | inr a ↦ elim (Bool-cases (c == b'-')) [
    | inl h ↦ hyphen-Agrees before c rest (host_from-words c rest) a h
    | inr h ↦ other-Agrees before c rest (host_from-words c rest) a h
  ]
]

-- A host name is accepted exactly where it is labels with dots between them, each a letter or a digit
-- and then letters, digits and hyphens that do not end in a hyphen.
pub dns_host_valid-words :
    (host : List ℕ) → dns_host_valid host ≡ (is_label (words host).0 && all_labels (words host).1)
unfolding dns_host_valid words is_label
dns_host_valid-words [] = refl
dns_host_valid-words (c ∷ rest) = (host_from-words 0 (c ∷ rest)).0
