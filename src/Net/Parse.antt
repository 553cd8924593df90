-- ===== src/Net/Parse.antt =====
-- `IpAddr::from_str`, `u8::from_str` and `str::split_once` of Rust's standard library, over the
-- bytes of a text: what `parse_cidr` calls.
use macos_wireguard_daemon.Prelude.{
  ℕ, zero, suc, ◌+◌, ◌-◌, ◌*◌, ◌^◌, Bool, true, false, not, ◌&&◌, Option, none, some, List, [], ◌∷◌,
  ◌++◌, Text, text, leb, ltb, Eq, ◌==◌, ℕ_eq, ℕ_discrete, if◌then◌else◌, is_none, length, is_empty,
  replicate, ◌/◌, ◌%◌, ◌≡◌, refl, ◌<◌, arith,
}
use macos_wireguard_daemon.Prelude.Options.{◌>>=◌, ◌>>◌, guard}

pub data IpAddr : Type 0 where
  v4 : ℕ → IpAddr
  v6 : ℕ → IpAddr

unfoldable pub IpAddr_dec : Discrete IpAddr
IpAddr_dec = hlevel ℕ_discrete

instance abbrev pub IpAddr_eq : Eq IpAddr
IpAddr_eq = record { dec = IpAddr_dec }

abbrev pub is_ipv4 : IpAddr → Bool
is_ipv4 (v4 bits) = true
is_ipv4 (v6 bits) = false

-- A parser takes a value off the front of the text, or leaves the text alone.
abbrev Parser : Type 0 → Type 0
Parser A = Text → Option (A × Text)

given : ℕ → Text → Option Text
given c [] = none
given c (d ∷ t) = if d == c then some t else none

-- `char::to_digit`
to_digit : ℕ → ℕ → Option ℕ
to_digit radix c =
    let value =
      if leb b'0' c && leb c b'9'
      then some (c - b'0')
      else if leb b'a' c && leb c b'f'
      then some (c - b'a' + 10)
      else if leb b'A' c && leb c b'F'
      then some (c - b'A' + 10)
      else none in
    do v ← value; guard (ltb v radix); some v

-- The digits at the front: how many, their value, and the rest.
digits : ℕ → ℕ → ℕ → Text → ℕ × ℕ × Text
digits radix count n [] = (count, n, [])
digits radix count n (c ∷ t) = elim (to_digit radix c) [
  | none ↦ (count, n, c ∷ t)
  | some d ↦ digits radix (suc count) (n * radix + d) t
]

-- `read_number(radix, Some(max_digits), allow_zero_prefix)` into a type of values below `bound`
read_number : ℕ → ℕ → Bool → ℕ → Parser ℕ
unfolding to_digit digits given
read_number radix max_digits allow_zero bound t = do
  let leading_zero = not (is_none (given b'0' t))
  let (count, n, rest) = digits radix 0 0 t
  guard (leb 1 count && leb count max_digits)
  guard (not (not allow_zero && leading_zero && ltb 1 count))
  guard (ltb n bound)
  some (n, rest)

-- The values of `n` more octets of an IPv4 address, as one number.
read_octets : ℕ → Bool → ℕ → Parser ℕ
unfolding read_number given
read_octets zero first acc t = some (acc, t)
read_octets (suc n) first acc t = elim (if first then some t else given b'.' t) [
  | none ↦ none
  | some t' ↦ elim (read_number 10 3 false 256 t') [
    | none ↦ none
    | some (octet, rest) ↦ read_octets n false (acc * 256 + octet) rest
  ]
]

read_ipv4 : Parser ℕ
unfolding read_octets
read_ipv4 t = read_octets 4 true 0 t

-- `read_groups` of the IPv6 parser: at most `n` groups of 16 bits, and whether they end in an
-- embedded IPv4 address, which takes two groups.
read_groups : ℕ → Bool → List ℕ → Text → List ℕ × Bool × Text
unfolding read_number read_ipv4 given
read_groups zero first groups t = (groups, false, t)
read_groups (suc n) first groups t =
    let here = if first then some t else given b':' t in
    let embedded = if ltb 0 n then (do t' ← here; read_ipv4 t') else none in
    elim embedded [
      | some (v, rest) ↦ (groups ++ v / 2 ^ 16 ∷ v % 2 ^ 16 ∷ [], true, rest)
      | none ↦ elim (do t' ← here; read_number 16 4 true (2 ^ 16) t') [
        | none ↦ (groups, false, t)
        | some (g, rest) ↦ read_groups n false (groups ++ g ∷ []) rest
      ]
    ]

abbrev of_groups : ℕ → List ℕ → ℕ
of_groups acc [] = acc
of_groups acc (g ∷ gs) = of_groups (acc * 2 ^ 16 + g) gs

read_ipv6 : Parser ℕ
unfolding read_groups given
read_ipv6 t =
    let (head, head_ipv4, rest) = read_groups 8 true [] t in
    if length head == 8 then some (of_groups 0 head, rest) else if head_ipv4 then none else do
      one ← given b':' rest
      two ← given b':' one
      let (tail, _, rest') = read_groups (7 - length head) true [] two
      some (of_groups 0 (head ++ replicate (8 - length head - length tail) 0 ++ tail), rest')

-- The address must be the whole text.
whole : Option (IpAddr × Text) → Option IpAddr
whole (some (ip, [])) = some ip
whole _ = none

unfoldable pub parse_ip : Text → Option IpAddr
unfolding whole read_ipv4 read_ipv6
parse_ip t = elim (read_ipv4 t) [
  | some (v, rest) ↦ whole (some (v4 v, rest))
  | none ↦ elim (read_ipv6 t) [ some (v, rest) ↦ whole (some (v6 v, rest)) | none ↦ none ]
]

abbrev after_sign : Text → Text
after_sign (c ∷ d ∷ t) = if c == b'+' then d ∷ t else c ∷ d ∷ t
after_sign t = t

-- `str::parse` into an unsigned type of values below `bound`
unfoldable pub parse_unsigned : ℕ → Text → Option ℕ
unfolding digits to_digit
parse_unsigned bound t = do
  let (count, n, rest) = digits 10 0 0 (after_sign t)
  guard (ltb 0 count && is_empty rest && ltb n bound)
  some n

guarded_lt :
    (a b : Bool) (n m bound : ℕ) → (guard (a && b && ltb n bound) >> some n) ≡ some m → m < bound
guarded_lt a b n m bound h = ground arith

pub parse_unsigned-lt : (bound n : ℕ) (t : Text) → parse_unsigned bound t ≡ some n → n < bound
unfolding parse_unsigned
parse_unsigned-lt bound n t h =
    let d = digits 10 0 0 (after_sign t) in guarded_lt (ltb 0 d.0) (is_empty d.2) d.1 n bound h

-- `from_str_radix` into an unsigned type of values below `bound`
unfoldable pub from_str_radix : ℕ → ℕ → Text → Option ℕ
unfolding digits to_digit
from_str_radix radix bound t = do
  let (count, n, rest) = digits radix 0 0 (after_sign t)
  guard (ltb 0 count && is_empty rest && ltb n bound)
  some n

-- `Ipv4Addr::from_str` and `Ipv6Addr::from_str`
unfoldable pub parse_ipv4 : Text → Option ℕ
unfolding parse_ip
parse_ipv4 t = elim (parse_ip t) [
  | none ↦ none
  | some ip ↦ elim ip [ v4 bits ↦ some bits | v6 _ ↦ none ]
]

unfoldable pub parse_ipv6 : Text → Option ℕ
unfolding parse_ip
parse_ipv6 t = elim (parse_ip t) [
  | none ↦ none
  | some ip ↦ elim ip [ v4 _ ↦ none | v6 bits ↦ some bits ]
]

-- The number behind a colon that ends a socket address.
port_of : Text → Option ℕ
unfolding given read_number
port_of t = do
  rest ← given b':' t
  (port, end) ← read_number 10 (length rest) true (2 ^ 16) rest
  guard (is_empty end)
  some port

-- The zone of an IPv6 socket address, if any, is passed over.
after_zone : Text → Option Text
unfolding given read_number
after_zone t = elim (given b'%' t) [
  | none ↦ some t
  | some zone ↦ elim (read_number 10 (length zone) true (2 ^ 32) zone) [
    | none ↦ none
    | some (_, rest) ↦ some rest
  ]
]

socket_v4 : Text → Option (IpAddr × ℕ)
unfolding read_ipv4 port_of
socket_v4 t = do (v, rest) ← read_ipv4 t; port ← port_of rest; some (v4 v, port)

-- `SocketAddr::from_str`
unfoldable pub parse_socket_addr : Text → Option (IpAddr × ℕ)
unfolding socket_v4 read_ipv6 given port_of after_zone
parse_socket_addr t = elim (socket_v4 t) [
  | some address ↦ some address
  | none ↦ do
    inside ← given b'[' t
    (v, rest) ← read_ipv6 inside
    unzoned ← after_zone rest
    closed ← given b']' unzoned
    port ← port_of closed
    some (v6 v, port)
]

-- `split_once(c)`
unfoldable pub split_once : ℕ → Text → Option (Text × Text)
split_once c [] = none
split_once c (d ∷ t) = elim (d == c) [
  | true ↦ some ([], t)
  | false ↦ elim (split_once c t) [ none ↦ none | some (before, after) ↦ some (d ∷ before, after) ]
]

ips :
    (parse_ip (text "10.2.0.1") ≡ some (v4 0x0a020001))
    × (parse_ip (text "10.2.0.01") ≡ none)
    × (parse_ip (text "::1") ≡ some (v6 1))
    × (parse_ip (text "8000::") ≡ some (v6 (2 ^ 127)))
    × (parse_ip (text "::ffff:1.2.3.4") ≡ some (v6 0xffff01020304))
    × (parse_ip (text "1:2:3:4:5:6:7:8:9") ≡ none)
unfolding parse_ip ℕ_discrete
ips = (refl, refl, refl, refl, refl, refl)
