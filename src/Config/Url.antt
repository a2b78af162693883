-- ===== src/Config/Url.antt =====
-- lib/config/gateway_config.cpp: the syntax of the backend's address. A range `[begin, end)` is a list;
-- no caller passes a null pointer.
pub mod Hosts
use gathra_gateway.Prelude.{
  ℕ, ◌+◌, ◌-◌, ◌*◌, ◌%◌, ◌^◌, Bool, true, false, not, ◌&&◌, ◌||◌, List, [], ◌∷◌, Option, none, some,
  length, drop, ltb, leb, ◌==◌, if◌then◌else◌,
}
use gathra_gateway.Build.{backend_url_capacity}
use gathra_gateway.Text.{
  CString, strnlen, strncmp_eq, codes, starts_with, has_char, split_char, iscntrl, isspace,
  alphanumeric,
}

unfoldable pub is_digit : ℕ → Bool
is_digit c = leb b'0' c && leb c b'9'

-- The loop, from the port that is read so far.
unfoldable pub port_from : ℕ → List ℕ → Bool
unfolding is_digit
port_from port [] = ltb 0 port
port_from port (c ∷ rest) =
    let port' = (port * 10 + (c - b'0')) % 2 ^ 32 in
    is_digit c && leb port' 65_535 && port_from port' rest

unfoldable pub decimal_port_valid : List ℕ → Bool
unfolding port_from
decimal_port_valid [] = false
decimal_port_valid (c ∷ rest) = port_from 0 (c ∷ rest)

-- `cursor + 1 < end && cursor[1] != '.'`
abbrev pub goes_on : List ℕ → Bool
goes_on [] = false
goes_on (c ∷ rest) = not (c == b'.')

-- The loop; `before` is `cursor[-1]`, which is read inside a label only.
unfoldable pub host_from : Bool → ℕ → List ℕ → Bool
host_from label_start before [] = not label_start && not (before == b'-')
host_from label_start before (c ∷ rest) =
    (alphanumeric c
      || (c == b'-' && not label_start && goes_on rest)
      || (c == b'.' && not label_start && not (before == b'-')))
    && host_from (if alphanumeric c then false else if c == b'-' then label_start else true) c rest

unfoldable pub dns_host_valid : List ℕ → Bool
unfolding host_from
dns_host_valid [] = false
dns_host_valid (c ∷ rest) = host_from true 0 (c ∷ rest)

unfoldable pub all_literal_bytes : List ℕ → Bool
all_literal_bytes [] = true
all_literal_bytes (c ∷ rest) =
    ((leb b'A' c && leb c b'F')
      || (leb b'a' c && leb c b'f')
      || (leb b'0' c && leb c b'9')
      || c == b':'
      || c == b'.')
    && all_literal_bytes rest

-- What follows the closing bracket.
abbrev pub port_suffix_valid : List ℕ → Bool
unfolding decimal_port_valid
port_suffix_valid [] = true
port_suffix_valid (c ∷ port) = c == b':' && decimal_port_valid port

abbrev pub bracketed_valid : List ℕ × Option (List ℕ) → Bool
unfolding all_literal_bytes
bracketed_valid (address, none) = false
bracketed_valid ([], some suffix) = false
bracketed_valid (c ∷ address, some suffix) =
    all_literal_bytes (c ∷ address) && port_suffix_valid suffix

abbrev pub host_port_valid : List ℕ × Option (List ℕ) → Bool
unfolding dns_host_valid decimal_port_valid
host_port_valid (host, none) = dns_host_valid host
host_port_valid (host, some port) = dns_host_valid host && decimal_port_valid port

unfoldable pub authority_valid : List ℕ → Bool
unfolding split_char bracketed_valid host_port_valid port_suffix_valid
authority_valid [] = false
authority_valid (c ∷ rest) =
    if c == b'['
    then bracketed_valid (split_char b']' rest)
    else host_port_valid (split_char b':' (c ∷ rest))

unfoldable pub contains_control_or_space : List ℕ → Bool
unfolding iscntrl isspace
contains_control_or_space [] = false
contains_control_or_space (c ∷ rest) = iscntrl c || isspace c || contains_control_or_space rest

-- `value[length - 1U]`
abbrev pub last_of : ℕ → List ℕ → ℕ
last_of before [] = before
last_of before (c ∷ rest) = last_of c rest

unfoldable pub bounded_c_string : List ℕ → ℕ → Bool
unfolding strnlen
bounded_c_string value capacity = ltb (strnlen value capacity) capacity

abbrev pub is_empty : List ℕ → Bool
is_empty [] = true
is_empty (c ∷ rest) = false

unfoldable pub backend_url_valid : CString → Bool
unfolding bounded_c_string starts_with has_char authority_valid contains_control_or_space split_char
backend_url_valid none = false
backend_url_valid (some url) =
    let http = starts_with url (codes "http://") in
    let https = starts_with url (codes "https://") in
    let authority = drop (if https then 8 else 7) url in
    if not (bounded_c_string url backend_url_capacity)
    then false
    else if ltb (length url) 10
    then false
    else if not http && not https
    then false
    else if is_empty authority
        || has_char b'@' authority
        || has_char b'?' authority
        || has_char b'#' authority
    then false
    else if not (authority_valid (split_char b'/' authority).0) || has_char b'\\' authority
    then false
    else not (contains_control_or_space url) && not (last_of 0 url == b'/')
