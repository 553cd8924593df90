-- ===== src/Net.antt =====
-- src/userspace_helper/macos/net.rs: network prefixes and their containment. `parse_cidr` returns
-- `none` for every error; the messages are left out.
pub mod Parse
pub mod Show
pub mod Blocks
pub mod Overlap
use Prim.Native.Nat.{bit_and}
use macos_wireguard_daemon.Prelude.{
  ℕ, ◌-◌, ◌*◌, ◌%◌, ◌^◌, Bool, false, ◌≡◌, refl, Option, some, Text, text, leb, ltb, Eq, ◌==◌, ℕ_eq,
  ℕ_discrete, if◌then◌else◌, none,
}
use macos_wireguard_daemon.Prelude.Options.{◌>>=◌}
use Parse.{IpAddr, v4, v6, IpAddr_eq, IpAddr_dec, parse_ip, parse_unsigned, split_once}

-- `u32::MAX << (32 - p)` and `u128::MAX << (128 - p)`: bits shifted past the width are lost.
abbrev pub net_mask : ℕ → ℕ → ℕ
net_mask w p = (2 ^ w - 1) * 2 ^ (w - p) % 2 ^ w

unfoldable pub masked : ℕ → ℕ → ℕ → ℕ
masked w prefix bits =
    if prefix == 0 then 0 else if leb w prefix then bits else bit_and bits (net_mask w prefix)

unfoldable pub macos_network_base : IpAddr → ℕ → IpAddr
macos_network_base (v4 bits) prefix = v4 (masked 32 prefix bits)
macos_network_base (v6 bits) prefix = v6 (masked 128 prefix bits)

-- An address with a prefix length.
abbrev pub Subnet : Type 0
Subnet = IpAddr × ℕ

unfoldable pub Subnet_dec : Discrete Subnet
Subnet_dec = hlevel ℕ_discrete

instance abbrev pub Subnet_eq : Eq Subnet
Subnet_eq = record { dec = Subnet_dec }

unfoldable pub macos_subnet_contains : Subnet → Subnet → Bool
macos_subnet_contains (v4 l, lp) (v4 r, rp) =
    if ltb rp lp then false else macos_network_base (v4 r) lp == macos_network_base (v4 l) lp
macos_subnet_contains (v6 l, lp) (v6 r, rp) =
    if ltb rp lp then false else macos_network_base (v6 r) lp == macos_network_base (v6 l) lp
macos_subnet_contains _ _ = false

unfoldable pub parse_cidr : Text → Option Subnet
parse_cidr value = do
  (ip_text, prefix_text) ← split_once b'/' value
  ip ← parse_ip ip_text
  prefix ← parse_unsigned 256 prefix_text
  some (ip, prefix)

base_test : macos_network_base (v4 0xc0a80105) 24 ≡ v4 0xc0a80100
unfolding macos_network_base masked ℕ_discrete
base_test = refl

cidr_test : parse_cidr (text "10.0.0.0/8") ≡ some (v4 0x0a000000, 8)
unfolding parse_cidr split_once parse_ip parse_unsigned ℕ_discrete
cidr_test = refl
