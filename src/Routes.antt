-- ===== src/Routes.antt =====
-- src/userspace_helper/macos/routes.rs: the routes a tunnel wants for a network environment.
pub mod System
pub mod Table
pub mod Desired
pub mod Apply
use macos_wireguard_daemon.Prelude.{
  ℕ, Bool, true, false, not, ◌&&◌, ◌||◌, Option, none, some, is_some, is_none, find_map, List, [],
  ◌∷◌, ◌++◌, Text, text, Eq, ◌==◌, ℕ_eq, List_eq, List_dec, ℕ_discrete, find, any, contains,
  if◌then◌else◌,
}
use macos_wireguard_daemon.Prelude.Options.{◌>>=◌}
use macos_wireguard_daemon.Net.{Subnet, macos_network_base, macos_subnet_contains, parse_cidr}
use macos_wireguard_daemon.Net.Parse.{IpAddr, v4, v6, IpAddr_eq}
use macos_wireguard_daemon.Net.Show.{show_ip}
use macos_wireguard_daemon.Links.Net.{IpNetOps}
use macos_wireguard_daemon.Links.{BypassLink, matches}

pub record MacosRoute : Type 0 where
  pub is_ipv6 : Bool
  pub destination : Text
  pub interface : Option Text
  pub gateway : Option Text

unfoldable pub MacosRoute_dec : Discrete MacosRoute
MacosRoute_dec = hlevel ℕ_discrete

instance abbrev pub MacosRoute_eq : Eq MacosRoute
MacosRoute_eq = record { dec = MacosRoute_dec }

pub record MacosNetworkFingerprint : Type 0 where
  pub local_subnets : List Subnet
  pub endpoint_gateway : Option Text

unfoldable pub Fingerprint_dec : Discrete MacosNetworkFingerprint
Fingerprint_dec = hlevel ℕ_discrete

instance abbrev pub Fingerprint_eq : Eq MacosNetworkFingerprint
Fingerprint_eq = record { dec = Fingerprint_dec }

-- The fields of `MacosReconcileInputs` that routing reads.
pub record MacosReconcileInputs (N : Type 0) : Type 0 where
  pub interface : Text
  pub endpoint : IpAddr
  pub endpoint_is_ipv6 : Bool
  pub endpoint_needs_pin : Bool
  pub allowed_ips : List Text
  pub has_ipv4_address : Bool
  pub has_ipv6_address : Bool
  pub bypass_links : List (BypassLink N)

-- A route into the tunnel: dev-bound, with no gateway.
abbrev pub tunnel_route : Bool → Text → Text → MacosRoute
tunnel_route is_ipv6 destination interface = record {
  is_ipv6 = is_ipv6;
  destination = destination;
  interface = some interface;
  gateway = none;
}

-- What one AllowedIPs entry contributes. A default route becomes its two halves.
unfoldable pub allowed_route : Text → Text → Bool → Bool → List MacosRoute
allowed_route allowed interface has_ipv4 has_ipv6 =
    if allowed == text "0.0.0.0/0"
    then (if not has_ipv4
        then []
        else tunnel_route false (text "0.0.0.0/1") interface
          ∷ tunnel_route false (text "128.0.0.0/1") interface
          ∷ [])
    else if allowed == text "::/0"
    then (if not has_ipv6
        then []
        else tunnel_route true (text "::/1") interface
          ∷ tunnel_route true (text "8000::/1") interface
          ∷ [])
    else if contains allowed b':' && not has_ipv6
    then []
    else if not (contains allowed b':') && not has_ipv4
    then []
    else tunnel_route (contains allowed b':') allowed interface ∷ []

unfoldable pub macos_allowed_routes : List Text → Text → Bool → Bool → List MacosRoute
unfolding allowed_route
macos_allowed_routes [] interface has_ipv4 has_ipv6 = []
macos_allowed_routes (allowed ∷ rest) interface has_ipv4 has_ipv6 =
    allowed_route allowed interface has_ipv4 has_ipv6
    ++ macos_allowed_routes rest interface has_ipv4 has_ipv6

-- Only tunnel-bound routes (interface, no gateway) can hijack a LAN.
abbrev pub is_tunnel_bound : MacosRoute → Bool
is_tunnel_bound route = not (is_none route.interface || is_some route.gateway)

unfoldable pub macos_route_excluded_by_local_subnet : MacosRoute → List Subnet → Option Subnet
macos_route_excluded_by_local_subnet route local_subnets =
    if not (is_tunnel_bound route) then none else do
      (ip, prefix) ← parse_cidr route.destination
      let destination : Subnet = (macos_network_base ip prefix, prefix)
      find (λ local. macos_subnet_contains local destination) local_subnets

-- Whether one parsed AllowedIPs entry covers the endpoint.
unfoldable pub covers : Option Subnet → IpAddr → Bool
covers (some (v4 net, prefix)) (v4 end) =
    macos_network_base (v4 end) prefix == macos_network_base (v4 net) prefix
covers (some (v6 net, prefix)) (v6 end) =
    macos_network_base (v6 end) prefix == macos_network_base (v6 net) prefix
covers _ endpoint = false

-- True when an AllowedIPs entry would route the endpoint into the tunnel.
unfoldable pub macos_allowed_ips_cover_endpoint : List Text → IpAddr → Bool
unfolding covers
macos_allowed_ips_cover_endpoint allowed_ips endpoint =
    any (λ allowed. covers (parse_cidr allowed) endpoint) allowed_ips

pub record MacosLinkExclusion (N : Type 0) : Type 0 where
  pub anchor : N
  pub subnet : Subnet

module _ {N : Type 0} (net : IpNetOps N) where
  -- The exclusion that one link makes, with the closure of `find_map`.
  unfoldable pub link_exclusion : List Subnet → N → BypassLink N → Option (MacosLinkExclusion N)
  link_exclusion local_subnets destination link =
      if not (matches net link.bypass destination) then none else do
        let anchor : Subnet = (net.network link.anchor, net.prefix_len link.anchor)
        subnet ← find (λ local. macos_subnet_contains local anchor) local_subnets
        some (record { anchor = link.anchor; subnet = subnet })

  unfoldable pub macos_route_excluded_by_link :
      MacosRoute → List Subnet → List (BypassLink N) → Option (MacosLinkExclusion N)
  unfolding link_exclusion
  macos_route_excluded_by_link route local_subnets [] = none
  macos_route_excluded_by_link route local_subnets (link ∷ links) =
      if not (is_tunnel_bound route) then none else do
        (ip, prefix) ← parse_cidr route.destination
        destination ← net.new_net (macos_network_base ip prefix) prefix
        find_map (link_exclusion local_subnets destination) (link ∷ links)

  -- The endpoint pin, where it is needed and a gateway is known.
  unfoldable pub endpoint_pin : MacosReconcileInputs N → MacosNetworkFingerprint → List MacosRoute
  endpoint_pin inputs fingerprint =
      if inputs.endpoint_needs_pin
      then elim fingerprint.endpoint_gateway [
        | none ↦ []
        | some gateway ↦
            record {
              is_ipv6 = inputs.endpoint_is_ipv6;
              destination = show_ip inputs.endpoint;
              interface = none;
              gateway = some gateway;
            }
            ∷ []
      ]
      else []

  -- Routes that neither a connected subnet nor an active link keeps off the tunnel.
  unfoldable pub drop_excluded :
      List Subnet → List (BypassLink N) → List MacosRoute → List MacosRoute
  drop_excluded local_subnets links [] = []
  drop_excluded local_subnets links (route ∷ rest) =
      let routes = drop_excluded local_subnets links rest in
      elim (macos_route_excluded_by_local_subnet route local_subnets) [
        | some _ ↦ routes
        | none ↦ elim (macos_route_excluded_by_link route local_subnets links) [
          | some _ ↦ routes
          | none ↦ route ∷ routes
        ]
      ]

  unfoldable pub macos_desired_routes :
      MacosReconcileInputs N → MacosNetworkFingerprint → List MacosRoute
  unfolding endpoint_pin drop_excluded macos_allowed_routes
  macos_desired_routes inputs fingerprint =
      endpoint_pin inputs fingerprint
      ++ drop_excluded fingerprint.local_subnets inputs.bypass_links (
          macos_allowed_routes inputs.allowed_ips inputs.interface inputs.has_ipv4_address
            inputs.has_ipv6_address)
