-- ===== src/Net/Blocks.antt =====
-- `macos_subnet_contains` as inclusion of address blocks.
use native.Mathlib.Nat.{
  one-le-pow, mul-div_cancel, div-div-eq-div-mul, pow-suc, div-lt_iff_lt-mul, div-eq_of_lt,
  div-mul-le_self,
}
use native.Mathlib.Decide.{dec_le}
use macos_wireguard_daemon.Prelude.{
  ℕ, zero, suc, ◌+◌, ◌-◌, ◌*◌, ◌/◌, ◌^◌, ◌≤◌, ◌<◌, Bool, true, false, if◌then◌else◌, ◌≡◌, refl, ap,
  sym, ◌↔◌, ◌∙◌, ◌==◌, ℕ_eq, ℕ_discrete, arith, ==_iff,
}
use macos_wireguard_daemon.Prelude.Bits.{bit_and-high}
use macos_wireguard_daemon.Net.{net_mask, masked, macos_network_base, Subnet, macos_subnet_contains}
use macos_wireguard_daemon.Net.Parse.{IpAddr, v4, v6, IpAddr_eq}

-- Every address has the width of its family.
abbrev pub IsAddress : IpAddr → Type 0
IsAddress (v4 bits) = bits < 2 ^ 32
IsAddress (v6 bits) = bits < 2 ^ 128

-- The addresses of a subnet: the family and the leading `prefix` bits agree.
abbrev pub InSubnet : IpAddr → Subnet → Type 0
InSubnet a (s, prefix) = macos_network_base a prefix ≡ macos_network_base s prefix

-- A test on every prefix length up to one, run as a program.
passes : (ℕ → Bool) → ℕ → Bool
passes test zero = test 0
passes test (suc p) = if test (suc p) then passes test p else false

passes_lem : (test : ℕ → Bool) (p q : ℕ) → q ≤ p → passes test p ≡ true → test q ≡ true
unfolding passes
passes_lem test zero q h k = let e : q ≡ 0 = omega arith in rw e k
passes_lem test (suc p) q h k = elim (ℕ_discrete q (suc p)) [
  | yes e ↦ rw e (ground (arith, k))
  | no n ↦ passes_lem test p q (omega (arith, n)) (ground (arith, k))
]

-- The shift leaves `p` ones above `w - p` zeros.
pub IsMask : ℕ → Type 0
IsMask w = (p : ℕ) → p ≤ w → net_mask w p ≡ (2 ^ p - 1) * 2 ^ (w - p)

pub IsMask-32 : IsMask 32
unfolding IsMask passes ℕ_discrete
IsMask-32 p h =
    (==_iff _ _).0 (passes_lem (λ q. net_mask 32 q == (2 ^ q - 1) * 2 ^ (32 - q)) 32 p h refl)

pub IsMask-128 : IsMask 128
unfolding IsMask passes ℕ_discrete
IsMask-128 p h =
    (==_iff _ _).0 (passes_lem (λ q. net_mask 128 q == (2 ^ q - 1) * 2 ^ (128 - q)) 128 p h refl)

pow-add : (a b : ℕ) → 2 ^ (a + b) ≡ 2 ^ a * 2 ^ b
pow-add a zero = let e : a + 0 ≡ a = omega arith in rw e (omega arith)
pow-add a (suc b) =
    let e : a + suc b ≡ suc (a + b) = omega arith in
    rw (e, pow-suc 2 (a + b), pow-add a b, pow-suc 2 b) (omega arith)

module _ (w : ℕ) (mask : IsMask w) (wide : 0 < w) where
  high-lt : (p bits : ℕ) → p ≤ w → bits < 2 ^ w → bits / 2 ^ (w - p) < 2 ^ p
  high-lt p bits h k =
      let e : p + (w - p) ≡ w = omega arith in
      (div-lt_iff_lt-mul (one-le-pow (w - p) 2 (omega arith))).1 (rw (← pow-add p (w - p), e) k)

  -- The base of an address keeps its leading bits.
  masked-eq : (p bits : ℕ) → bits < 2 ^ w → masked w p bits ≡ bits / 2 ^ (w - p) * 2 ^ (w - p)
  unfolding masked IsMask ℕ_discrete
  masked-eq zero bits h = let e : w - 0 ≡ w = omega arith in rw (e, div-eq_of_lt h) (omega arith)
  masked-eq (suc p) bits h = elim (dec_le (suc p) w) [
    | yes q ↦ ground (
      arith,
      mask (suc p) q,
      bit_and-high (suc p) (w - suc p) bits (high-lt (suc p) bits q h),
      all_bits (suc p) q,
    )
    | no q ↦ ground (arith, all_bits_above (suc p))
  ]
    where
      all_bits : (q : ℕ) → q ≤ w → w ≤ q → bits / 2 ^ (w - q) * 2 ^ (w - q) ≡ bits
      all_bits q h k = let e : w - q ≡ 0 = omega arith in rw e (omega arith)

      all_bits_above : (q : ℕ) → w < q → bits / 2 ^ (w - q) * 2 ^ (w - q) ≡ bits
      all_bits_above q h = let e : w - q ≡ 0 = omega arith in rw e (omega arith)

  masked-high :
      (p a s : ℕ)
      → a < 2 ^ w
      → s < 2 ^ w
      → masked w p a ≡ masked w p s
      → a / 2 ^ (w - p) ≡ s / 2 ^ (w - p)
  masked-high p a s ha hs e =
      sym (mul-div_cancel (a / 2 ^ (w - p)) (one-le-pow (w - p) 2 (omega arith)))
      ∙ ap (λ (t : ℕ). t / 2 ^ (w - p)) (sym (masked-eq p a ha) ∙ e ∙ masked-eq p s hs)
      ∙ mul-div_cancel (s / 2 ^ (w - p)) (one-le-pow (w - p) 2 (omega arith))

  -- Addresses that share a longer prefix share a shorter one.
  pub masked_mono :
      (l p a s : ℕ)
      → l ≤ p
      → a < 2 ^ w
      → s < 2 ^ w
      → masked w p a ≡ masked w p s
      → masked w l a ≡ masked w l s
  masked_mono l p a s h ha hs e =
      let split : w - l ≡ (w - p) + ((w - l) - (w - p)) = omega arith in
      let shorter : a / 2 ^ (w - l) ≡ s / 2 ^ (w - l) =
        rw
          (
            split,
            pow-add (w - p) ((w - l) - (w - p)),
            ← div-div-eq-div-mul a (2 ^ (w - p)) (2 ^ ((w - l) - (w - p))),
            ← div-div-eq-div-mul s (2 ^ (w - p)) (2 ^ ((w - l) - (w - p))),
            masked-high p a s ha hs e,
          )
          refl in
      rw (masked-eq l a ha, masked-eq l s hs, shorter)

pub contains-v4 :
    (l lp r rp : ℕ)
    → (macos_subnet_contains (v4 l, lp) (v4 r, rp) ≡ true)
      ↔ ((lp ≤ rp) × (masked 32 lp r ≡ masked 32 lp l))
unfolding macos_subnet_contains macos_network_base
contains-v4 l lp r rp = ground arith

inclusion-v4 :
    (l lp r rp : ℕ) (a : IpAddr)
    → l < 2 ^ 32
    → r < 2 ^ 32
    → (lp ≤ rp) × (masked 32 lp r ≡ masked 32 lp l)
    → IsAddress a
    → InSubnet a (v4 r, rp)
    → InSubnet a (v4 l, lp)
unfolding macos_network_base
inclusion-v4 l lp r rp (v4 a) hl hr h ha e =
    ground (arith, masked_mono 32 IsMask-32 (omega arith) lp rp a r h.0 ha hr)
inclusion-v4 l lp r rp (v6 a) hl hr h ha e = cc

pub contains-v6 :
    (l lp r rp : ℕ)
    → (macos_subnet_contains (v6 l, lp) (v6 r, rp) ≡ true)
      ↔ ((lp ≤ rp) × (masked 128 lp r ≡ masked 128 lp l))
unfolding macos_subnet_contains macos_network_base
contains-v6 l lp r rp = ground arith

inclusion-v6 :
    (l lp r rp : ℕ) (a : IpAddr)
    → l < 2 ^ 128
    → r < 2 ^ 128
    → (lp ≤ rp) × (masked 128 lp r ≡ masked 128 lp l)
    → IsAddress a
    → InSubnet a (v6 r, rp)
    → InSubnet a (v6 l, lp)
unfolding macos_network_base
inclusion-v6 l lp r rp (v6 a) hl hr h ha e =
    ground (arith, masked_mono 128 IsMask-128 (omega arith) lp rp a r h.0 ha hr)
inclusion-v6 l lp r rp (v4 a) hl hr h ha e = cc

-- A route is contained in a local subnet exactly when its prefix is at least as long and every
-- address of the route's block is an address of the local block.
pub macos_subnet_contains_iff :
    (local route : Subnet)
    → IsAddress local.0
    → IsAddress route.0
    → (macos_subnet_contains local route ≡ true)
      ↔ ((local.1 ≤ route.1) × ((a : IpAddr) → IsAddress a → InSubnet a route → InSubnet a local))
unfolding macos_subnet_contains macos_network_base
macos_subnet_contains_iff (v4 l, lp) (v4 r, rp) hl hr = (
  (λ e. let h = (contains-v4 l lp r rp).0 e in (h.0, λ a ha. inclusion-v4 l lp r rp a hl hr h ha)),
  λ h. (contains-v4 l lp r rp).1 (h.0, cc (h.1 (v4 r) hr refl)),
)
macos_subnet_contains_iff (v6 l, lp) (v6 r, rp) hl hr = (
  (λ e. let h = (contains-v6 l lp r rp).0 e in (h.0, λ a ha. inclusion-v6 l lp r rp a hl hr h ha)),
  λ h. (contains-v6 l lp r rp).1 (h.0, cc (h.1 (v6 r) hr refl)),
)
macos_subnet_contains_iff (v4 l, lp) (v6 r, rp) hl hr = ((λ e. cc), λ h. cc (h.1 (v6 r) hr refl))
macos_subnet_contains_iff (v6 l, lp) (v4 r, rp) hl hr = ((λ e. cc), λ h. cc (h.1 (v4 r) hr refl))

pub macos_network_base-IsAddress :
    (ip : IpAddr) (prefix : ℕ) → IsAddress ip → IsAddress (macos_network_base ip prefix)
unfolding macos_network_base
macos_network_base-IsAddress (v4 bits) prefix h = omega (
  arith,
  masked-eq 32 IsMask-32 (omega arith) prefix bits h,
  div-mul-le_self bits (2 ^ (32 - prefix)),
)
macos_network_base-IsAddress (v6 bits) prefix h = omega (
  arith,
  masked-eq 128 IsMask-128 (omega arith) prefix bits h,
  div-mul-le_self bits (2 ^ (128 - prefix)),
)
