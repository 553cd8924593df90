-- ===== src/Routes/Table/Install.antt =====
-- `add_macos_route` of src/userspace_helper/macos/route_table.rs, and who holds a prefix.
use macos_wireguard_daemon.Prelude.{
  ◌≡◌, ◌↔◌, refl, sym, inl, inr, Bool, true, false, not, ◌&&◌, ◌||◌, Option, none, some, List, [],
  ◌∷◌, Text, arith, All, Within, any, any-Within, within-All, is_some, Result, ok, Option-cases,
  Bool-cases, ◌==◌, ==_iff, List_eq, ℕ_eq,
}
use mathlib.Core.Path.{subst}
use macos_wireguard_daemon.Net.{macos_subnet_contains}
use macos_wireguard_daemon.Net.Parse.{IpAddr}
use macos_wireguard_daemon.Net.Blocks.{IsAddress}
use macos_wireguard_daemon.Net.Overlap.{IsShared, overlap_iff}
use macos_wireguard_daemon.Routes.{MacosRoute}
use macos_wireguard_daemon.Routes.System.{DeviceSubnet}
use macos_wireguard_daemon.Routes.Apply.{MacosRouteInstall, foreign}
use macos_wireguard_daemon.Routes.Table.{
  MacosRouteEntry, RouteTool, has_gateway, is_tunnel_owned, macos_route_entry_is_live, entry_of,
  is_live, macos_clear_route_entry, create_route, replace_entry, add_macos_route,
}

any-of_Within :
    {A : Type 0} (p : A → Bool) (xs : List A) (a : A) → Within a xs → p a ≡ true → any p xs ≡ true
unfolding any
any-of_Within p [] a m h = elim m [ ]
any-of_Within p (x ∷ xs) _ Within.first h = ground (arith, h)
any-of_Within p (x ∷ xs) a (Within.later m) h = ground (arith, any-of_Within p xs a m h)

-- A subnet on the interface that holds an entry, with an address that the entry also has.
pub record IsBacked (entry : MacosRouteEntry) (connected : List DeviceSubnet) (holder : Text)
    : Type 0 where
  pub device : DeviceSubnet
  pub listed : Within device connected
  pub holds : device.0 ≡ holder
  pub address : IpAddr
  pub shared : IsShared device.1 entry.destination address

-- A route through a gateway, one that names no interface, or one whose interface still has an
-- address in its prefix.
pub data IsLive (entry : MacosRouteEntry) (connected : List DeviceSubnet) : Type 0 where
  gateway : has_gateway entry ≡ true → IsLive entry connected
  unnamed : entry.interface ≡ none → IsLive entry connected
  backed :
      (holder : Text)
      → entry.interface ≡ some holder
      → IsBacked entry connected holder
      → IsLive entry connected

-- The test of one connected subnet.
abbrev backs : MacosRouteEntry → Text → DeviceSubnet → Bool
backs entry holder c =
    c.0 == holder
    && (macos_subnet_contains c.1 entry.destination || macos_subnet_contains entry.destination c.1)

module _ (entry : MacosRouteEntry) (connected : List DeviceSubnet)
    (he : IsAddress entry.destination.0)
    (hc : All (λ (c : DeviceSubnet). IsAddress (c.1).0) connected) where
  IsAddress-of : (c : DeviceSubnet) → Within c connected → IsAddress (c.1).0
  IsAddress-of c m = within-All (λ (d : DeviceSubnet). IsAddress (d.1).0) m hc

  IsBacked-of :
      (holder : Text) → any (backs entry holder) connected ≡ true → IsBacked entry connected holder
  IsBacked-of holder h =
      let (c, m, e) = any-Within (backs entry holder) connected h in
      let (a, s) =
        (overlap_iff c.1 entry.destination (IsAddress-of c m) he).0 (ground (arith, e)) in
      record {
        device = c;
        listed = m;
        holds = (==_iff c.0 holder).0 (ground (arith, e));
        address = a;
        shared = s;
      }

  any_of_IsBacked :
      (holder : Text) → IsBacked entry connected holder → any (backs entry holder) connected ≡ true
  any_of_IsBacked holder b = any-of_Within (backs entry holder) connected b.device b.listed (
      ground (
        arith,
        (==_iff (b.device).0 holder).1 b.holds,
        (overlap_iff (b.device).1 entry.destination (IsAddress-of b.device b.listed) he).1
            (b.address, b.shared),
      ))

  true_of_IsLive : IsLive entry connected → macos_route_entry_is_live entry connected ≡ true
  unfolding macos_route_entry_is_live
  true_of_IsLive (gateway g) = ground (arith, g)
  true_of_IsLive (unnamed n) = ground (arith, n)
  true_of_IsLive (backed holder n b) = ground (arith, n, any_of_IsBacked holder b)

  IsLive-of_true : macos_route_entry_is_live entry connected ≡ true → IsLive entry connected
  unfolding macos_route_entry_is_live
  IsLive-of_true h = elim (Bool-cases (has_gateway entry)) [
    | inl g ↦ gateway g
    | inr g ↦ elim (Option-cases entry.interface) [
      | inl n ↦ unnamed n
      | inr (holder, n) ↦ backed holder n (IsBacked-of holder (ground (arith, g, n, h)))
    ]
  ]

-- An entry of the routing table counts as live exactly when it goes through a gateway, names no
-- interface, or its interface has a connected subnet that shares an address with it. The condition is
-- that every address has the width of its family.
pub macos_route_entry_is_live_iff :
    (entry : MacosRouteEntry) (connected : List DeviceSubnet)
    → IsAddress entry.destination.0
    → All (λ (c : DeviceSubnet). IsAddress (c.1).0) connected
    → (macos_route_entry_is_live entry connected ≡ true) ↔ IsLive entry connected
macos_route_entry_is_live_iff entry connected he hc =
    (IsLive-of_true entry connected he hc, true_of_IsLive entry connected he hc)

-- Whether a route is bound to the tunnel's device, without a gateway.
abbrev pub is_bound : MacosRoute → Bool
is_bound route = is_some route.interface && not (is_some route.gateway)

module _ {W : Type 0} (tool : RouteTool W) where
  -- Someone other than a tunnel holds the route's own prefix.
  pub record IsHeld (route : MacosRoute) (w : W) : Type 0 where
    pub entry : MacosRouteEntry
    pub found : entry_of tool route w ≡ some entry
    pub physical : is_tunnel_owned entry ≡ false

  -- What an installation comes to: it yields to the holder of the prefix, or it runs the command that
  -- adds the route when, for a route bound to the tunnel, nobody else holds the prefix.
  pub data IsOutcome (route : MacosRoute) (result : Result Text MacosRouteInstall × W)
      : Type 0 where
    yields :
        result.0 ≡ ok foreign
        → is_bound route ≡ true
        → IsHeld route result.1
        → IsOutcome route result
    installs :
        (w : W)
        → (is_bound route ≡ true → ¬ IsHeld route w)
        → result ≡ create_route tool route w
        → IsOutcome route result

  unheld_lem :
      (route : MacosRoute) (w : W)
      → ((entry : MacosRouteEntry)
          → entry_of tool route w ≡ some entry
          → is_tunnel_owned entry ≡ true)
      → ¬ IsHeld route w
  unheld_lem route w h held = ground (arith, h held.entry held.found, held.physical)

  clear_lem :
      (route : MacosRoute) (ifscope : Option Text) (w : W)
      → let (remaining, w') = macos_clear_route_entry tool route ifscope w in
        ((entry : MacosRouteEntry) → remaining ≡ some entry → IsHeld route w')
        × (remaining ≡ none → ¬ IsHeld route w')
  unfolding macos_clear_route_entry
  clear_lem route ifscope w =
      let w' : W = (macos_clear_route_entry tool route ifscope w).1 in
      elim (Option-cases (entry_of tool route w')) [
        | inl n ↦ (
          λ entry h. ground (arith, n, h),
          λ h. unheld_lem route w' (λ entry e. ground (arith, n, e)),
        )
        | inr (found, n) ↦ (
          λ entry h. record { entry = found; found = n; physical = ground (arith, n, h) },
          λ h. unheld_lem route w' (λ entry e. ground (arith, n, h, e)),
        )
      ]

  replace_lem :
      (route : MacosRoute) (ifscope : Option Text) (w : W)
      → is_bound route ≡ true
      → IsOutcome route (replace_entry tool route ifscope w)
  unfolding replace_entry
  replace_lem route ifscope w b =
      let c = clear_lem route ifscope w in
      let w' : W = (macos_clear_route_entry tool route ifscope w).1 in
      elim (Option-cases (macos_clear_route_entry tool route ifscope w).0) [
        | inl n ↦ rw (n, replace_entry) (installs w' (λ _. c.1 n) refl)
        | inr (entry, n) ↦ rw (n, replace_entry) (yields refl b (c.0 entry n))
      ]

  -- Adding a route never displaces a holder that stands: a route bound to the tunnel whose prefix a
  -- live entry holds that is no tunnel's is left alone without any command, and whatever else happens,
  -- the answer `foreign` means that such a holder is in the table, while the route is only added when
  -- none is, or when the route goes through a gateway or names no interface.
  pub add_macos_route-IsOutcome :
      (route : MacosRoute) (w : W)
      → ((held : IsHeld route w)
          → is_bound route ≡ true
          → is_live tool route held.entry w ≡ true
          → add_macos_route tool route w ≡ (ok foreign, w))
        × IsOutcome route (add_macos_route tool route w)
  unfolding add_macos_route
  add_macos_route-IsOutcome route w = (
    λ held b l. ground (arith, held.found, held.physical, b, l),
    elim (Bool-cases (is_bound route)) [
      | inr b ↦ installs w (λ e. ground (arith, b, e)) (ground (arith, b))
      | inl b ↦ elim (Option-cases (entry_of tool route w)) [
        | inl n ↦
            installs w (λ _. unheld_lem route w (λ entry e. ground (arith, n, e)))
              (ground (arith, b, n))
        | inr (entry, n) ↦ elim (Bool-cases (is_tunnel_owned entry)) [
          | inl o ↦
              outcome_of (replace_entry tool route none w) (ground (arith, b, n, o))
                (replace_lem route none w b)
          | inr o ↦ elim (Bool-cases (is_live tool route entry w)) [
            | inl l ↦
                outcome_of (ok foreign, w) (ground (arith, b, n, o, l))
                  (yields refl b (record { entry = entry; found = n; physical = o }))
            | inr l ↦
                outcome_of (replace_entry tool route entry.interface w) (ground (arith, b, n, o, l))
                  (replace_lem route entry.interface w b)
          ]
        ]
      ]
    ],
  )
    where
      outcome_of :
          (r : Result Text MacosRouteInstall × W)
          → add_macos_route tool route w ≡ r
          → IsOutcome route r
          → IsOutcome route (add_macos_route tool route w)
      outcome_of r e o = subst (IsOutcome route) (sym e) o
