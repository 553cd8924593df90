-- ===== src/Net/Show.antt =====
-- `IpAddr::to_string` of Rust's standard library.
use macos_wireguard_daemon.Prelude.{
  ℕ, zero, suc, ◌+◌, ◌-◌, ◌*◌, ◌/◌, ◌%◌, ◌^◌, List, [], ◌∷◌, ◌++◌, Text, text, ltb, ◌==◌, ℕ_eq,
  if◌then◌else◌, ◌≡◌, refl, ℕ_discrete, take, drop,
}
use macos_wireguard_daemon.Net.Parse.{IpAddr, v4, v6}

digit : ℕ → ℕ
digit d = if ltb d 10 then b'0' + d else b'a' + (d - 10)

-- The digits of a number below `radix ^ n`, without leading zeros.
unfoldable pub show_number : ℕ → ℕ → ℕ → Text
unfolding digit
show_number zero radix v = []
show_number (suc n) radix v =
    let high = show_number n radix (v / radix) in
    if ltb v radix then digit v ∷ [] else high ++ digit (v % radix) ∷ []

show_ipv4 : ℕ → Text
unfolding show_number
show_ipv4 v =
    let octet = λ (n : ℕ). show_number 3 10 (v / n % 256) in
    octet (2 ^ 24) ++ b'.' ∷ octet (2 ^ 16) ++ b'.' ∷ octet (2 ^ 8) ++ b'.' ∷ octet 1

-- The first `n` groups of 16 bits.
segments : ℕ → ℕ → List ℕ
segments zero v = []
segments (suc n) v = v / 2 ^ (16 * n) % 2 ^ 16 ∷ segments n v

-- A run of zero groups: where it starts, and its length.
abbrev Span : Type 0
Span = ℕ × ℕ

longest_zeroes : ℕ → Span → Span → List ℕ → Span
longest_zeroes i longest current [] = longest
longest_zeroes i longest current (s ∷ rest) =
    let extended : Span = (if current.1 == 0 then i else current.0, suc current.1) in
    if s == 0
    then longest_zeroes (suc i) (if ltb longest.1 extended.1 then extended else longest) extended
        rest
    else longest_zeroes (suc i) longest (0, 0) rest

-- `fmt_subslice`
show_groups : List ℕ → Text
unfolding show_number
show_groups [] = []
show_groups (g ∷ []) = show_number 4 16 g
show_groups (g ∷ h ∷ gs) = show_number 4 16 g ++ b':' ∷ show_groups (h ∷ gs)

show_ipv6 : ℕ → Text
unfolding show_ipv4 segments longest_zeroes show_groups
show_ipv6 v =
    let groups = segments 8 v in
    let (start, len) = longest_zeroes 0 (0, 0) (0, 0) groups in
    if v / 2 ^ 32 == 0xffff
    then text "::ffff:" ++ show_ipv4 (v % 2 ^ 32)
    else if ltb 1 len
    then show_groups (take start groups) ++ text "::" ++ show_groups (drop (start + len) groups)
    else show_groups groups

unfoldable pub show_ip : IpAddr → Text
unfolding show_ipv4 show_ipv6
show_ip (v4 v) = show_ipv4 v
show_ip (v6 v) = show_ipv6 v

shown :
    (show_ip (v4 0x0a020001) ≡ text "10.2.0.1")
    × (show_ip (v6 1) ≡ text "::1")
    × (show_ip (v6 (2 ^ 127)) ≡ text "8000::")
    × (show_ip (v6 0xffff01020304) ≡ text "::ffff:1.2.3.4")
    × (show_ip (v6 0x20010db8000000000001000000000001) ≡ text "2001:db8::1:0:0:1")
unfolding show_ip ℕ_discrete
shown = (refl, refl, refl, refl, refl)
