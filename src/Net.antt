-- ===== src/Net.antt =====
-- `str::parse::<std::net::IpAddr>` of Rust's standard library: which texts are addresses, and the
-- groups that they stand for.

use lumic.Prelude.{
  ℕ, zero, suc, ◌+◌, ◌-◌, ◌*◌, ◌≡◌, refl, Bool, true, false, not, ◌&&◌, ◌||◌, Option, none, some,
  List, [], ◌∷◌, ◌++◌, leb, ltb, nat_beq, length, first, if◌then◌else◌, String, codes,
  is_ascii_digit,
}

pub data IpAddr : Type 0 where
  v4 : (octets : List ℕ) → IpAddr
  v6 : (groups : List ℕ) → IpAddr

-- a reader takes what it reads off the front, and leaves the input alone where it fails
abbrev Reader : Type 0 → Type 0
Reader A = List ℕ → Option (A × List ℕ)

-- a digit to base 10 or 16
abbrev digit_value : ℕ → ℕ → Option ℕ
digit_value base c =
    if is_ascii_digit c
    then some (c - b'0')
    else if leb b'a' c && leb c b'f' && nat_beq base 16
    then some (c - 87)
    else if leb b'A' c && leb c b'F' && nat_beq base 16
    then some (c - 55)
    else none

-- the digits at the front: how many, their value, and the rest
read_digits : ℕ → ℕ → ℕ → List ℕ → ℕ × ℕ × List ℕ
read_digits base count value [] = (count, value, [])
read_digits base count value (c ∷ cs) = elim (digit_value base c) [
  | none ↦ (count, value, c ∷ cs)
  | some d ↦ read_digits base (count + 1) (value * base + d) cs
]

-- `read_number(base, Some(max_digits), allow_zero_prefix)` into a type of values up to `most`
read_number : ℕ → ℕ → Bool → ℕ → Reader ℕ
unfolding read_digits
read_number base max_digits allow_zero_prefix most cs =
    let (count, value, rest) = read_digits base 0 0 cs in
    let zero_prefix = first (λ c. nat_beq c b'0') cs && ltb 1 count in
    if nat_beq count 0
      || ltb max_digits count
      || (zero_prefix && not allow_zero_prefix)
      || ltb most value
    then none
    else some (value, rest)

read_char : ℕ → List ℕ → Option (List ℕ)
read_char c [] = none
read_char c (d ∷ cs) = if nat_beq c d then some cs else none

-- `read_separator`: the separator stands before every group but the first
read_separator : {A : Type 0} → ℕ → ℕ → Reader A → Reader A
unfolding read_char
read_separator sep zero read cs = read cs
read_separator sep (suc _) read cs = elim (read_char sep cs) [ none ↦ none | some rest ↦ read rest ]

read_octets : ℕ → ℕ → Reader (List ℕ)
unfolding read_separator read_number
read_octets zero index cs = some ([], cs)
read_octets (suc left) index cs = elim (read_separator b'.' index (read_number 10 3 false 255) cs) [
  | none ↦ none
  | some (octet, rest) ↦ elim (read_octets left (suc index) rest) [
    | none ↦ none
    | some (octets, end) ↦ some (octet ∷ octets, end)
  ]
]

-- two groups of an embedded IPv4 address
abbrev pairs : List ℕ → List ℕ
pairs (a ∷ b ∷ c ∷ d ∷ []) = (a * 256 + b) ∷ (c * 256 + d) ∷ []
pairs _ = []

-- `read_groups`, with `left` groups to fill: the groups read, and whether the last two of them were
-- written as an IPv4 address
read_groups : ℕ → ℕ → List ℕ → List ℕ × Bool × List ℕ
unfolding read_octets read_separator read_number
read_groups zero index cs = ([], false, cs)
read_groups (suc left) index cs =
    let embedded = if ltb 0 left then read_separator b':' index (read_octets 4 0) cs else none in
    elim embedded [
      | some (octets, rest) ↦ (pairs octets, true, rest)
      | none ↦ elim (read_separator b':' index (read_number 16 4 true 65535) cs) [
        | none ↦ ([], false, cs)
        | some (group, rest) ↦
            let (groups, ipv4, end) = read_groups left (suc index) rest in
            (group ∷ groups, ipv4, end)
      ]
    ]

zeros : ℕ → List ℕ
zeros zero = []
zeros (suc n) = 0 ∷ zeros n

read_v6_tail : List ℕ → List ℕ → Option (List ℕ × List ℕ)
unfolding read_groups zeros
read_v6_tail head cs =
    let (tail, _, rest) = read_groups (7 - length head) 0 cs in
    some (head ++ (zeros (8 - (length head + length tail)) ++ tail), rest)

read_v6 : Reader (List ℕ)
unfolding read_groups read_v6_tail read_char
read_v6 cs =
    let (head, ipv4, rest) = read_groups 8 0 cs in
    if nat_beq (length head) 8
    then some (head, rest)
    else if ipv4
    then none
    else elim (read_char b':' rest) [
      | none ↦ none
      | some rest₁ ↦ elim (read_char b':' rest₁) [
        | none ↦ none
        | some rest₂ ↦ read_v6_tail head rest₂
      ]
    ]

-- what is read must be the whole text
abbrev whole : {A : Type 0} → (A → IpAddr) → Option (A × List ℕ) → Option IpAddr
whole wrap none = none
whole wrap (some (a, [])) = some (wrap a)
whole wrap (some (a, _ ∷ _)) = none

-- an IPv4 address if one can be read, else an IPv6 address
unfoldable pub parse_ip : String → Option IpAddr
unfolding read_octets read_v6
parse_ip s = elim (read_octets 4 0 (codes s)) [
  | some found ↦ whole v4 (some found)
  | none ↦ whole v6 (read_v6 (codes s))
]

loopback : parse_ip "127.0.0.1" ≡ some (v4 (127 ∷ 0 ∷ 0 ∷ 1 ∷ []))
unfolding parse_ip
loopback = refl

loopback_v6 : parse_ip "::1" ≡ some (v6 (0 ∷ 0 ∷ 0 ∷ 0 ∷ 0 ∷ 0 ∷ 0 ∷ 1 ∷ []))
unfolding parse_ip
loopback_v6 = refl

mapped : parse_ip "::ffff:10.0.0.7" ≡ some (v6 (0 ∷ 0 ∷ 0 ∷ 0 ∷ 0 ∷ 65535 ∷ 2560 ∷ 7 ∷ []))
unfolding parse_ip
mapped = refl

not_addresses :
    (parse_ip "1.2.3" ≡ none)
    × (parse_ip "1.2.3.256" ≡ none)
    × (parse_ip "01.2.3.4" ≡ none)
    × (parse_ip "localhost" ≡ none)
    × (parse_ip "1::2::3" ≡ none)
unfolding parse_ip
not_addresses = (refl, refl, refl, refl, refl)
