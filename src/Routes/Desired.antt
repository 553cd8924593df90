-- ===== src/Routes/Desired.antt =====
-- `macos_desired_routes` of src/userspace_helper/macos/routes.rs.
use macos_wireguard_daemon.Prelude.{
  ℕ, ◌≤◌, ◌≡◌, refl, ◌↔◌, ◌⊎◌, inl, inr, true, false, ◌&&◌, none, some, is_none, List, [], ◌∷◌,
  arith, All, contains, contains-append, find, find-none, find-eq-none, find_map, Bool-cases,
}
use macos_wireguard_daemon.Net.{
  Subnet, Subnet_eq, macos_network_base, macos_subnet_contains, parse_cidr,
}
use macos_wireguard_daemon.Net.Parse.{IpAddr, IpAddr_eq}
use macos_wireguard_daemon.Net.Blocks.{
  IsAddress, InSubnet, macos_subnet_contains_iff, macos_network_base-IsAddress,
}
use macos_wireguard_daemon.Links.Net.{IpNetOps}
use macos_wireguard_daemon.Links.{BypassLink, matches}
use macos_wireguard_daemon.Routes.{
  MacosRoute, MacosRoute_eq, MacosNetworkFingerprint, MacosReconcileInputs, is_tunnel_bound,
  macos_allowed_routes, macos_route_excluded_by_local_subnet, macos_route_excluded_by_link,
  link_exclusion, endpoint_pin, drop_excluded, macos_desired_routes,
}

module _ {N : Type 0} (net : IpNetOps N) where
  contains-drop_excluded :
      (subnets : List Subnet) (links : List (BypassLink N)) (routes : List MacosRoute)
      (r : MacosRoute)
      → contains (drop_excluded net subnets links routes) r ≡ (
          contains routes r
          && is_none (macos_route_excluded_by_local_subnet r subnets)
          && is_none (macos_route_excluded_by_link net r subnets links))
  unfolding contains drop_excluded
  contains-drop_excluded subnets links [] r = refl
  contains-drop_excluded subnets links (x ∷ routes) r =
      ground (arith, contains-drop_excluded subnets links routes r)

  pin_not_bound :
      (inputs : MacosReconcileInputs N) (fingerprint : MacosNetworkFingerprint) (r : MacosRoute)
      → is_tunnel_bound r ≡ true
      → contains (endpoint_pin net inputs fingerprint) r ≡ false
  unfolding contains endpoint_pin
  pin_not_bound inputs fingerprint r h = ground arith

  -- A tunnel-bound route is desired exactly when it is an AllowedIPs route and neither exclusion
  -- applies.
  contains-desired :
      (inputs : MacosReconcileInputs N) (fingerprint : MacosNetworkFingerprint) (r : MacosRoute)
      → is_tunnel_bound r ≡ true
      → contains (macos_desired_routes net inputs fingerprint) r ≡ (
          contains
            (macos_allowed_routes inputs.allowed_ips inputs.interface inputs.has_ipv4_address
              inputs.has_ipv6_address)
            r
          && is_none (macos_route_excluded_by_local_subnet r fingerprint.local_subnets)
          && is_none
              (macos_route_excluded_by_link net r fingerprint.local_subnets inputs.bypass_links))
  unfolding macos_desired_routes
  contains-desired inputs fingerprint r h =
      let allowed =
        macos_allowed_routes inputs.allowed_ips inputs.interface inputs.has_ipv4_address
          inputs.has_ipv6_address in
      ground (
        arith,
        contains-append (endpoint_pin net inputs fingerprint)
            (drop_excluded net fingerprint.local_subnets inputs.bypass_links allowed) r,
        pin_not_bound inputs fingerprint r h,
        contains-drop_excluded fingerprint.local_subnets inputs.bypass_links allowed r,
      )

  local_none :
      (r : MacosRoute) (subnets : List Subnet) (ip : IpAddr) (prefix : ℕ)
      → is_tunnel_bound r ≡ true
      → parse_cidr r.destination ≡ some (ip, prefix)
      → macos_route_excluded_by_local_subnet r subnets
        ≡ find (λ local. macos_subnet_contains local (macos_network_base ip prefix, prefix)) subnets
  unfolding macos_route_excluded_by_local_subnet
  local_none r subnets ip prefix h p = ground arith

  -- The tunnel never takes an attached LAN: for a desired tunnel-bound route with a parsed
  -- destination, no connected subnet with a prefix at most as long contains all addresses of the
  -- route's block.
  pub macos_desired_routes_spares_lan :
      (inputs : MacosReconcileInputs N) (fingerprint : MacosNetworkFingerprint) (r : MacosRoute)
      (ip : IpAddr) (prefix : ℕ) (local : Subnet)
      → contains (macos_desired_routes net inputs fingerprint) r ≡ true
      → is_tunnel_bound r ≡ true
      → parse_cidr r.destination ≡ some (ip, prefix)
      → contains fingerprint.local_subnets local ≡ true
      → IsAddress ip
      → IsAddress local.0
      → ¬ (
          (local.1 ≤ prefix)
          × ((a : IpAddr)
              → IsAddress a
              → InSubnet a (macos_network_base ip prefix, prefix)
              → InSubnet a local))
  macos_desired_routes_spares_lan inputs fingerprint r ip prefix local m b p l hi hl inside =
      let base : Subnet = (macos_network_base ip prefix, prefix) in
      let hit =
        (macos_subnet_contains_iff local base hl (macos_network_base-IsAddress ip prefix hi)).1
          inside in
      ground (
        arith,
        hit,
        contains-desired inputs fingerprint r b,
        local_none r fingerprint.local_subnets ip prefix b p,
        find-none (λ s. macos_subnet_contains s base) fingerprint.local_subnets local,
      )

  -- The link does not apply: it has no prefix that contains the destination, or no connected subnet
  -- contains its anchor.
  abbrev pub IsIdle : List Subnet → N → BypassLink N → Type 0
  IsIdle subnets destination link =
      (matches net link.bypass destination ≡ false)
      ⊎ ((local : Subnet)
          → contains subnets local ≡ true
          → macos_subnet_contains local (net.network link.anchor, net.prefix_len link.anchor)
            ≡ false)

  link_exclusion_iff :
      (subnets : List Subnet) (destination : N) (link : BypassLink N)
      → (link_exclusion net subnets destination link ≡ none) ↔ IsIdle subnets destination link
  unfolding link_exclusion
  link_exclusion_iff subnets destination link =
      let active = λ (local : Subnet).
        macos_subnet_contains local (net.network link.anchor, net.prefix_len link.anchor) in
      (
        (λ h. elim (Bool-cases (matches net link.bypass destination)) [
          | inr f ↦ inl f
          | inl t ↦ inr (λ local m. find-none active subnets local (ground arith) m)
        ]),
        λ h. elim h [
          | inl f ↦ ground arith
          | inr k ↦ ground (arith, find-eq-none active subnets k)
        ],
      )

  find_map_exclusion_iff :
      (subnets : List Subnet) (destination : N) (links : List (BypassLink N))
      → (find_map (link_exclusion net subnets destination) links ≡ none)
        ↔ All (IsIdle subnets destination) links
  unfolding find_map
  find_map_exclusion_iff subnets destination [] = ((λ h. tt), λ h. refl)
  find_map_exclusion_iff subnets destination (link ∷ links) =
      let here = link_exclusion_iff subnets destination link in
      let rest = find_map_exclusion_iff subnets destination links in
      ((λ h. ground (arith, here, rest)), λ h. ground (arith, here, rest))

  link_none :
      (r : MacosRoute) (subnets : List Subnet) (links : List (BypassLink N)) (ip : IpAddr)
      (prefix : ℕ) (destination : N)
      → is_tunnel_bound r ≡ true
      → parse_cidr r.destination ≡ some (ip, prefix)
      → net.new_net (macos_network_base ip prefix) prefix ≡ some destination
      → (macos_route_excluded_by_link net r subnets links ≡ none)
        ↔ All (IsIdle subnets destination) links
  unfolding macos_route_excluded_by_link
  link_none r subnets [] ip prefix destination b p d = ((λ h. tt), λ h. refl)
  link_none r subnets (link ∷ links) ip prefix destination b p d =
      let rest = find_map_exclusion_iff subnets destination (link ∷ links) in
      ((λ h. rest.0 (ground arith)), λ h. ground (arith, rest.1 h))

  -- A tunnel-bound route with a parsed destination is desired exactly when the AllowedIPs give it, no
  -- connected subnet contains its destination, and no bypass link applies to it: each link either
  -- has no prefix that contains the destination or has an anchor inside no connected subnet.
  pub macos_desired_routes_iff :
      (inputs : MacosReconcileInputs N) (fingerprint : MacosNetworkFingerprint) (r : MacosRoute)
      (ip : IpAddr) (prefix : ℕ) (destination : N)
      → is_tunnel_bound r ≡ true
      → parse_cidr r.destination ≡ some (ip, prefix)
      → net.new_net (macos_network_base ip prefix) prefix ≡ some destination
      → (contains (macos_desired_routes net inputs fingerprint) r ≡ true) ↔ (
          (contains
              (macos_allowed_routes inputs.allowed_ips inputs.interface inputs.has_ipv4_address
                inputs.has_ipv6_address)
              r
            ≡ true)
          × ((local : Subnet)
              → contains fingerprint.local_subnets local ≡ true
              → macos_subnet_contains local (macos_network_base ip prefix, prefix) ≡ false)
          × All (IsIdle fingerprint.local_subnets destination) inputs.bypass_links)
  macos_desired_routes_iff inputs fingerprint r ip prefix destination b p d =
      let subnets = fingerprint.local_subnets in
      let inside =
        λ (local : Subnet). macos_subnet_contains local (macos_network_base ip prefix, prefix) in
      let desired = contains-desired inputs fingerprint r b in
      let lan = local_none r subnets ip prefix b p in
      let links = link_none r subnets inputs.bypass_links ip prefix destination b p d in
      (
        (λ h. (
          ground (arith, desired),
          (λ local m. find-none inside subnets local (ground (arith, desired, lan)) m),
          links.0 (ground (arith, desired)),
        )),
        λ h. ground (arith, desired, lan, find-eq-none inside subnets h.1, links.1 h.2),
      )
