-- ===== src/Examples/Routing.antt =====
-- The theorems on routes, at a tunnel to a site and a table that is a list.
use macos_wireguard_daemon.Net.Show.{show_ip}
use macos_wireguard_daemon.Prelude.{
  ◌⊎◌, any, find, Bool-cases, inl, inr, List_dec, ℕ_discrete, ◌≡◌, ◌↔◌, ◌≤◌, refl, true, false, not,
  some, none, List, [], ◌∷◌, ◌++◌, text, All, retain, arith, ◌==◌, ==_iff, contains,
  contains-retain, ok, err,
}
use macos_wireguard_daemon.Net.{
  Subnet_dec, masked, Subnet, Subnet_eq, macos_network_base, macos_subnet_contains, parse_cidr,
}
use macos_wireguard_daemon.Net.Parse.{parse_unsigned, parse_ip, split_once, IpAddr, v4}
use macos_wireguard_daemon.Net.Blocks.{IsAddress, InSubnet}
use macos_wireguard_daemon.Routes.{
  macos_route_excluded_by_link, macos_route_excluded_by_local_subnet, MacosRoute_dec, MacosRoute,
  MacosRoute_eq, MacosNetworkFingerprint, MacosReconcileInputs, tunnel_route, macos_allowed_routes,
  macos_desired_routes,
}
use macos_wireguard_daemon.Routes.Desired.{
  IsIdle, macos_desired_routes_iff, macos_desired_routes_spares_lan,
}
use macos_wireguard_daemon.Routes.Apply.{
  delete_pending, MacosRoutingState, owned, RouteCalls, macos_apply_route_plan,
}
use macos_wireguard_daemon.Routes.Apply.Kernel.{IsTable, macos_apply_route_plan-IsCovered}
use macos_wireguard_daemon.Routes.Apply.Calls.{macos_apply_route_plan-calls}
use macos_wireguard_daemon.Routes.Apply.Retry.{macos_apply_route_plan-working}
use macos_wireguard_daemon.Routes.Apply.Reconcile.{
  RouteHost, macos_current_fingerprint, calls_under, macos_reconcile_routes,
}
use macos_wireguard_daemon.Routes.Apply.Settle.{macos_reconcile_routes-settles}
use macos_wireguard_daemon.Examples.Networks.{networks, lan}

abbrev inputs : MacosReconcileInputs Subnet
inputs = record {
  interface = text "utun4";
  endpoint = v4 0xcb007101;
  endpoint_is_ipv6 = false;
  endpoint_needs_pin = true;
  allowed_ips = text "10.0.0.0/8" ∷ text "192.168.1.0/24" ∷ [];
  has_ipv4_address = true;
  has_ipv6_address = false;
  bypass_links = [];
}

abbrev at_home : MacosNetworkFingerprint
at_home = record { local_subnets = lan ∷ []; endpoint_gateway = some (text "192.168.1.1") }

abbrev site_route : MacosRoute
site_route = tunnel_route false (text "10.0.0.0/8") (text "utun4")

abbrev old_route : MacosRoute
old_route = tunnel_route false (text "172.16.0.0/12") (text "utun4")

macos_desired_routes_iff_example :
    (contains (macos_desired_routes networks inputs at_home) site_route ≡ true) ↔ (
      (contains (macos_allowed_routes inputs.allowed_ips inputs.interface true false) site_route
        ≡ true)
      × ((local : Subnet)
          → contains (lan ∷ []) local ≡ true
          → macos_subnet_contains local (macos_network_base (v4 0x0a000000) 8, 8) ≡ false)
      × All (IsIdle networks (lan ∷ []) (v4 0x0a000000, 8)) [])
unfolding macos_network_base parse_cidr split_once ℕ_discrete parse_ip parse_unsigned masked
macos_desired_routes_iff_example =
    macos_desired_routes_iff networks inputs at_home site_route (v4 0x0a000000) 8 (v4 0x0a000000, 8)
      refl refl refl

macos_desired_routes_spares_lan_example : ¬ (
    (24 ≤ 8)
    × ((a : IpAddr)
        → IsAddress a
        → InSubnet a (macos_network_base (v4 0x0a000000) 8, 8)
        → InSubnet a lan))
unfolding macos_network_base contains macos_desired_routes MacosRoute_dec show_ip ℕ_discrete
    List_dec macos_route_excluded_by_local_subnet parse_cidr split_once parse_ip parse_unsigned find
    macos_subnet_contains macos_route_excluded_by_link Subnet_dec
macos_desired_routes_spares_lan_example =
    macos_desired_routes_spares_lan networks inputs at_home site_route (v4 0x0a000000) 8 lan refl
      refl refl refl (omega arith) (omega arith)

-- Calls on a table that is a list of routes, which all work.
abbrev working : RouteCalls (List MacosRoute)
working = record {
  del = λ r table. (ok tt, retain (λ x. not (x == r)) table);
  install = λ r table. (ok owned, table ++ r ∷ []);
  restore = λ r table. table;
}

-- Calls on such a table whose adds all fail.
abbrev failing : RouteCalls (List MacosRoute)
failing = record working { install = λ r table. (err (text "busy"), table) }

appended_lem :
    (r x : MacosRoute) (w : List MacosRoute)
    → contains (w ++ r ∷ []) x ≡ true
    → (contains w x ≡ true) ⊎ (x ≡ r)
unfolding contains
appended_lem r x [] h = inr (ground (arith, h, ==_iff r x))
appended_lem r x (a ∷ w) h = elim (Bool-cases (a == x)) [
  | inl q ↦ inl (ground (arith, q))
  | inr q ↦ elim (appended_lem r x w (ground (arith, h, q))) [
    | inl k ↦ inl (ground (arith, k))
    | inr k ↦ inr k
  ]
]

working-IsTable : IsTable working contains
working-IsTable = record {
  deleted = λ r x w d h. ground (arith, contains-retain (λ x. not (x == r)) w x, ==_iff x r);
  delete_failed = λ r x w d h. cc;
  installed = λ r x w d h. appended_lem r x w h;
  yielded = λ r x w d h. cc;
  install_failed = λ r x w d h. cc;
  restored = λ r x w h. h;
}

abbrev before : MacosRoutingState
before = record {
  routes_added = old_route ∷ [];
  fingerprint = record { local_subnets = []; endpoint_gateway = none };
  failing = [];
}

macos_apply_route_plan-IsCovered_example :
    let (applied, routing', w') =
      macos_apply_route_plan working before (site_route ∷ []) false (old_route ∷ []) in
    contains routing'.routes_added site_route ≡ true
unfolding contains macos_apply_route_plan MacosRoute_dec ℕ_discrete delete_pending any retain
macos_apply_route_plan-IsCovered_example =
    macos_apply_route_plan-IsCovered working contains working-IsTable before (site_route ∷ []) false
      (old_route ∷ []) (λ x h. h) site_route refl

macos_apply_route_plan-working_example :
    let (applied, routing', w') =
      macos_apply_route_plan working before (site_route ∷ []) false (old_route ∷ []) in
    ((x : MacosRoute) → contains routing'.routes_added x ≡ contains (site_route ∷ []) x)
    × (routing'.failing ≡ [])
macos_apply_route_plan-working_example =
    macos_apply_route_plan-working working
      (record { deletes = λ r w. refl; installs = λ r w. refl }) before (site_route ∷ [])
      (old_route ∷ [])

macos_apply_route_plan-calls_example :
    macos_apply_route_plan working before (old_route ∷ []) false (old_route ∷ [])
    ≡ macos_apply_route_plan failing before (old_route ∷ []) false (old_route ∷ [])
macos_apply_route_plan-calls_example =
    macos_apply_route_plan-calls working failing before (old_route ∷ []) false (old_route ∷ [])
      (λ r owned not_desired w. (refl, refl)) (λ r desired not_owned due w. cc)

abbrev home_host : RouteCalls (List MacosRoute) → RouteHost (List MacosRoute)
home_host calls = record {
  local_connected_subnets = λ interface table. lan ∷ [];
  default_gateway = λ is_ipv6 table. ok (some (text "192.168.1.1"));
  del = calls.del;
  install = calls.install;
  restore = λ subnets interface r table. table;
}

macos_reconcile_routes-settles_example :
    let (_, first, _) =
      macos_reconcile_routes networks (home_host failing) inputs before (old_route ∷ []) in
    let (_, second, _) = macos_reconcile_routes networks (home_host working) inputs first [] in
    ((x : MacosRoute)
      → contains second.routes_added x ≡ contains (macos_desired_routes networks inputs at_home) x)
    × (second.failing ≡ [])
unfolding calls_under macos_current_fingerprint
macos_reconcile_routes-settles_example =
    macos_reconcile_routes-settles networks (home_host failing) (home_host working) inputs before
      at_home (old_route ∷ []) [] (λ r w e. cc)
      (record { deletes = λ r w. refl; installs = λ r w. refl }) refl (λ e. cc) refl
