-- ===== src/Net/Overlap.antt =====
-- Two address blocks that share an address: one contains the other.
use macos_wireguard_daemon.Prelude.{
  ℕ, ◌^◌, ◌≤◌, ◌<◌, true, ◌||◌, ◌≡◌, refl, sym, ◌∙◌, ◌↔◌, inl, inr, arith, Bool-cases,
}
use native.Mathlib.Decide.{dec_le}
use macos_wireguard_daemon.Net.{masked, macos_network_base, Subnet, macos_subnet_contains}
use macos_wireguard_daemon.Net.Parse.{IpAddr, v4, v6}
use macos_wireguard_daemon.Net.Blocks.{
  IsAddress, InSubnet, IsMask, IsMask-32, IsMask-128, masked_mono, contains-v4, contains-v6,
}

-- An address of both blocks makes the one with the shorter prefix contain the other.
shared_high :
    (w : ℕ) (mask : IsMask w) (lp rp a l r : ℕ)
    → 0 < w
    → lp ≤ rp
    → a < 2 ^ w
    → r < 2 ^ w
    → masked w lp a ≡ masked w lp l
    → masked w rp a ≡ masked w rp r
    → masked w lp r ≡ masked w lp l
shared_high w mask lp rp a l r wide h ha hr el er =
    sym (masked_mono w mask wide lp rp a r h ha hr er) ∙ el

contains_shared :
    (l r : Subnet) (a : IpAddr)
    → IsAddress r.0
    → IsAddress a
    → l.1 ≤ r.1
    → InSubnet a l
    → InSubnet a r
    → macos_subnet_contains l r ≡ true
unfolding macos_network_base
contains_shared (v4 l, lp) (v4 r, rp) (v4 a) hr ha h el er =
    (contains-v4 l lp r rp).1
      (h, shared_high 32 IsMask-32 lp rp a l r (omega arith) h ha hr (cc) (cc))
contains_shared (v6 l, lp) (v6 r, rp) (v6 a) hr ha h el er =
    (contains-v6 l lp r rp).1
      (h, shared_high 128 IsMask-128 lp rp a l r (omega arith) h ha hr (cc) (cc))
contains_shared (v4 l, lp) (v6 r, rp) (v4 a) hr ha h el er = cc
contains_shared (v4 l, lp) (v6 r, rp) (v6 a) hr ha h el er = cc
contains_shared (v6 l, lp) (v4 r, rp) (v4 a) hr ha h el er = cc
contains_shared (v6 l, lp) (v4 r, rp) (v6 a) hr ha h el er = cc
contains_shared (v4 l, lp) (v4 r, rp) (v6 a) hr ha h el er = cc
contains_shared (v6 l, lp) (v6 r, rp) (v4 a) hr ha h el er = cc

shared_of_contains : (l r : Subnet) → macos_subnet_contains l r ≡ true → InSubnet r.0 l
unfolding macos_network_base macos_subnet_contains
shared_of_contains (v4 l, lp) (v4 r, rp) h = ground arith
shared_of_contains (v6 l, lp) (v6 r, rp) h = ground arith
shared_of_contains (v4 l, lp) (v6 r, rp) h = cc
shared_of_contains (v6 l, lp) (v4 r, rp) h = cc

-- An address of two blocks.
abbrev pub IsShared : Subnet → Subnet → IpAddr → Type 0
IsShared l r a = IsAddress a × InSubnet a l × InSubnet a r

pub overlap_iff :
    (l r : Subnet)
    → IsAddress l.0
    → IsAddress r.0
    → ((macos_subnet_contains l r || macos_subnet_contains r l) ≡ true)
      ↔ ((a : IpAddr) × IsShared l r a)
overlap_iff l r hl hr = (
  λ h. elim (Bool-cases (macos_subnet_contains l r)) [
    | inl q ↦ (r.0, (hr, shared_of_contains l r q, refl))
    | inr q ↦ (l.0, (hl, refl, shared_of_contains r l (ground (arith, q, h))))
  ],
  λ (a, (ha, el, er)). elim (dec_le l.1 r.1) [
    | yes k ↦ ground (arith, contains_shared l r a hr ha k el er)
    | no k ↦ ground (arith, contains_shared r l a hl ha (omega (arith, k)) er el)
  ],
)
