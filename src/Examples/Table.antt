-- ===== src/Examples/Table.antt =====
-- The theorems on the routing table, at a tool for one route and a LAN that holds its prefix.
use macos_wireguard_daemon.Prelude.{
  Option_dec, any, contains, ◌≡◌, ◌↔◌, inl, inr, refl, Bool, true, false, ◌&&◌, none, some, List,
  [], ◌∷◌, ◌++◌, Text, text, arith, ◌*◌, ◌^◌, ◌==◌, ==_iff, List_eq, ℕ_eq, if◌then◌else◌, Result,
  ok, err, Bool-cases, Option-cases, drop, List_dec, ℕ_discrete,
}
use macos_wireguard_daemon.Net.{macos_subnet_contains, masked, Subnet_dec, parse_cidr}
use macos_wireguard_daemon.Net.Parse.{IpAddr_dec, v4, v6}
use macos_wireguard_daemon.MacosDns.{Output}
use macos_wireguard_daemon.Routes.{MacosRoute, MacosRoute_eq, tunnel_route}
use macos_wireguard_daemon.Routes.System.{
  DeviceSubnet, parse_service_name_for_device, parse_macos_hex_netmask,
  parse_scutil_primary_interface, parse_ifconfig_inet6_subnet,
}
use macos_wireguard_daemon.Routes.Apply.{foreign}
use macos_wireguard_daemon.Routes.Apply.Kernel.{IsTable}
use macos_wireguard_daemon.Routes.Table.{
  MacosRouteEntry, RouteTool, add_args, restore_args, add_macos_route, is_live,
  macos_route_entry_is_live, table_calls,
}
use macos_wireguard_daemon.Routes.Table.Commands.{IsRoute, table_calls-IsTable}
use macos_wireguard_daemon.Routes.Table.Install.{
  IsLive, IsHeld, IsOutcome, is_bound, macos_route_entry_is_live_iff, add_macos_route-IsOutcome,
}

abbrev site_route : MacosRoute
site_route = tunnel_route false (text "10.0.0.0/8") (text "utun4")

abbrev done : Result Text Output
done = ok (record { success = true; stdout = []; stderr = [] })

-- The arguments behind the verb.
abbrev deletion : List Text
deletion = text "-inet" ∷ text "-net" ∷ text "10.0.0.0/8" ∷ []

abbrev addition : List Text
addition = text "-inet" ∷ text "10.0.0.0/8" ∷ text "-interface" ∷ text "utun4" ∷ []

-- The world is whether the route is in the table.
abbrev write : List Text → Bool → Result Text Output × Bool
write (q ∷ n ∷ verb ∷ rest) here =
    if verb == text "delete"
    then (if rest == deletion then (done, false) else (err (text "refused"), here))
    else if rest == addition
    then (done, true)
    else (err (text "refused"), here)
write _ here = (err (text "refused"), here)

abbrev reply : Text
reply =
    text "   route to: 10.0.0.0"
    ++ 10 ∷ text "destination: 10.0.0.0"
    ++ 10 ∷ text "       mask: 255.0.0.0"
    ++ 10 ∷ text "  interface: en0"
    ++ 10 ∷ []

abbrev tool : RouteTool Bool
tool = record {
  read = λ args here. ok (record { success = true; stdout = reply; stderr = [] });
  write = write;
  ifconfig = λ here. some (
      text "en0: flags=8863<UP,BROADCAST> mtu 1500"
      ++ 10 ∷ 9 ∷ text "inet 10.0.0.5 netmask 0xff000000"
      ++ 10 ∷ []);
}

abbrev holds : Bool → MacosRoute → Bool
holds here x = x == site_route && here

add_args_lem : (r : MacosRoute) → drop 3 (add_args r) ≡ addition → r ≡ site_route
add_args_lem r e = elim (Option-cases r.gateway) [
  | inr (g, q) ↦ elim (Option-cases r.interface) [
    | inl m ↦ ground (arith, q, m, e)
    | inr (i, m) ↦ ground (arith, q, m, e)
  ]
  | inl q ↦ elim (Option-cases r.interface) [
    | inl m ↦ ground (arith, q, m, e)
    | inr (i, m) ↦ ground (arith, q, m, e)
  ]
]

tool-IsRoute : IsRoute tool holds
unfolding List_dec ℕ_discrete
tool-IsRoute = record {
  deletes = λ r x w h. ground (arith, h);
  deleted = λ r w h. ground (arith, h);
  deletes_scoped = λ r x device w h. ground (arith, h);
  adds = λ r x w h. elim (Bool-cases (drop 3 (add_args r) == addition)) [
    | inl q ↦ inr (
        ground
          (arith, h, q, add_args_lem r, ==_iff x site_route, ==_iff (drop 3 (add_args r)) addition))
    | inr q ↦ inl (ground (arith, h, q))
  ];
  add_failed = λ r x w f h. ground (arith, h, f);
  restores = λ s device x w h. ground (arith, h, ==_iff (drop 3 (restore_args s device)) addition);
}

table_calls-IsTable_example : IsTable (table_calls tool [] (text "utun4")) holds
table_calls-IsTable_example = table_calls-IsTable tool holds tool-IsRoute [] (text "utun4")

add_macos_route-IsOutcome_example :
    ((held : IsHeld tool site_route false)
      → is_bound site_route ≡ true
      → is_live tool site_route held.entry false ≡ true
      → add_macos_route tool site_route false ≡ (ok foreign, false))
    × IsOutcome tool site_route (add_macos_route tool site_route false)
add_macos_route-IsOutcome_example = add_macos_route-IsOutcome tool site_route false

abbrev entry : MacosRouteEntry
entry = record {
  destination = (v4 0x0a000000, 8);
  interface = some (text "en0");
  gateway = none;
  mtu = none;
}

abbrev connected : List DeviceSubnet
connected = (text "en0", (v4 0x0a000000, 16)) ∷ []

macos_route_entry_is_live_iff_example :
    (macos_route_entry_is_live entry connected ≡ true) ↔ IsLive entry connected
macos_route_entry_is_live_iff_example =
    macos_route_entry_is_live_iff entry connected (omega arith) (omega arith, tt)

-- The LAN of `en0` holds the prefix, so the route is not added.
yields_test : add_macos_route tool site_route false ≡ (ok foreign, false)
unfolding add_macos_route contains ℕ_discrete parse_cidr List_dec Subnet_dec masked any
    macos_subnet_contains IpAddr_dec
yields_test = refl

service_order : Text
service_order =
    text "(1) Wi-Fi"
    ++ 10 ∷ text "(Hardware Port: Wi-Fi, Device: en0)"
    ++ 10 ∷ text "(2) Dock"
    ++ 10 ∷ text "(Hardware Port: Dock, Device: en5)"

service_test : parse_service_name_for_device service_order (text "en5") ≡ some (text "Dock")
unfolding parse_service_name_for_device service_order ℕ_discrete Option_dec List_dec
service_test = refl

mask_test : parse_macos_hex_netmask (text "0xffff8000") ≡ some 17
unfolding parse_macos_hex_netmask ℕ_discrete
mask_test = refl

primary_test :
    parse_scutil_primary_interface
      (text "<dictionary> {" ++ 10 ∷ text "  PrimaryInterface : en0" ++ 10 ∷ text "}")
    ≡ some (text "en0")
unfolding parse_scutil_primary_interface ℕ_discrete
primary_test = refl

ipv6_test :
    parse_ifconfig_inet6_subnet (text "2001:db8::5%en0 prefixlen 64 autoconf")
    ≡ some (v6 (0x20010db8 * 2 ^ 96), 64)
unfolding parse_ifconfig_inet6_subnet ℕ_discrete List_dec masked
ipv6_test = refl
