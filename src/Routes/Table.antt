-- ===== src/Routes/Table.antt =====
-- src/userspace_helper/macos/route_table.rs: the kernel's routing table through `route`, with the
-- helpers of src/userspace_helper/exec.rs that run commands.
--
-- The command is an argument: one function where it only reads, and one that acts on a world. The
-- texts of errors name the arguments as the source does. Log lines are left out.
pub mod Entry
pub mod Install
pub mod Commands
use macos_wireguard_daemon.Prelude.{
  join, ℕ, zero, suc, ◌^◌, Bool, true, false, not, ◌&&◌, ◌||◌, Option, none, some, is_some, List,
  [], ◌∷◌, ◌++◌, Text, text, ◌==◌, ℕ_eq, Bool_eq, List_eq, Option_eq, any, contains, is_empty,
  Result, ok, err, if◌then◌else◌, lines, trim, strip_prefix, starts_with, ends_with, contains_text,
  split_whitespace, find_map, ltb,
}
use macos_wireguard_daemon.Prelude.Options.{◌>>=◌}
use macos_wireguard_daemon.Net.{Subnet, Subnet_eq, macos_network_base, macos_subnet_contains}
use macos_wireguard_daemon.Net.Parse.{IpAddr, v4, v6, parse_ip, parse_unsigned}
use macos_wireguard_daemon.Net.Show.{show_ip, show_number}
use macos_wireguard_daemon.MacosDns.{Output}
use macos_wireguard_daemon.Routes.{MacosRoute, macos_route_excluded_by_local_subnet}
use macos_wireguard_daemon.Routes.Apply.{
  MacosRouteInstall, RouteCalls, owned, foreign, macos_route_destination,
}
use macos_wireguard_daemon.Routes.System.{
  DeviceSubnet, count_ones, macos_connected_subnets_by_device, macos_connected_subnet_device,
}
pub use macos_wireguard_daemon.Routes.Table.Entry.{
  MacosRouteEntry, Fields, has_gateway, is_tunnel_owned,
}
unfoldable pub use macos_wireguard_daemon.Routes.Table.Entry.{
  macos_route_entry_is_live, parse_macos_route_mask, parse_macos_route_get_interface, read_line,
  read_fields, parse_macos_route_get,
}

-- `route`, and the output of `ifconfig` where it succeeds.
pub record RouteTool (W : Type 0) : Type 0 where
  pub read : List Text → W → Result Text Output
  pub write : List Text → W → Result Text Output × W
  pub ifconfig : W → Option Text

abbrev is_v6 : IpAddr → Bool
is_v6 (v4 _) = false
is_v6 (v6 _) = true

abbrev pub target_kind : MacosRoute → Text
target_kind route =
    let host_prefix : Text = (if route.is_ipv6 then text "/128" else text "/32") in
    if is_some route.gateway
      || ends_with route.destination host_prefix
      || not (contains route.destination b'/')
    then text "-host"
    else text "-net"

abbrev family : Bool → Text
family is_ipv6 = if is_ipv6 then text "-inet6" else text "-inet"

-- What a lookup of this prefix asks `route` for.
unfoldable pub lookup_args : Subnet → List Text
unfolding show_ip show_number macos_network_base
lookup_args (ip, prefix) =
    let network = show_ip (macos_network_base ip prefix) in
    let base : Text =
      (if prefix == (if is_v6 ip then 128 else 32)
        then network
        else network ++ text "/" ++ show_number 3 10 prefix) in
    text "-n" ∷ text "get" ∷ ((if is_v6 ip then text "-inet6" ∷ [] else []) ++ base ∷ [])

abbrev pub delete_args : MacosRoute → List Text
delete_args route =
    text "-q"
    ∷ text "-n"
    ∷ text "delete"
    ∷ family route.is_ipv6
    ∷ target_kind route
    ∷ route.destination
    ∷ []

abbrev optional : Text → Option Text → List Text
optional flag none = []
optional flag (some value) = flag ∷ value ∷ []

abbrev pub add_args : MacosRoute → List Text
add_args route =
    text "-q"
    ∷ text "-n"
    ∷ text "add"
    ∷ family route.is_ipv6
    ∷ route.destination
    ∷ ((elim route.gateway [ none ↦ [] | some gateway ↦ gateway ∷ [] ])
        ++ optional (text "-interface") route.interface)

-- The command that puts a connected route back.
abbrev pub restore_args : Subnet → Text → List Text
restore_args (ip, prefix) device =
    text "-q"
    ∷ text "-n"
    ∷ text "add"
    ∷ family (is_v6 ip)
    ∷ text "-net"
    ∷ (show_ip ip ++ text "/" ++ show_number 3 10 prefix)
    ∷ text "-ifscope"
    ∷ device
    ∷ text "-interface"
    ∷ device
    ∷ []

module _ {W : Type 0} (tool : RouteTool W) where
  unfoldable pub macos_route_get_output : Subnet → W → Option Text
  unfolding lookup_args
  macos_route_get_output destination w = elim (tool.read (lookup_args destination) w) [
    | err _ ↦ none
    | ok output ↦ if output.success then some output.stdout else none
  ]

  unfoldable pub macos_route_lookup : Subnet → W → Option MacosRouteEntry
  unfolding macos_route_get_output parse_macos_route_get
  macos_route_lookup destination w = do
    output ← macos_route_get_output destination w
    parse_macos_route_get output (is_v6 destination.0)

  unfoldable pub macos_route_table_entry : Subnet → W → Option MacosRouteEntry
  unfolding macos_route_lookup
  macos_route_table_entry destination w = do
    entry ← macos_route_lookup destination w
    if entry.destination == destination then some entry else none

  unfoldable pub macos_route_egress_interface : Subnet → W → Option Text
  unfolding macos_route_get_output parse_macos_route_get_interface
  macos_route_egress_interface destination w = do
    output ← macos_route_get_output destination w
    parse_macos_route_get_interface output

  -- The exact entry for a route's own destination.
  unfoldable pub entry_of : MacosRoute → W → Option MacosRouteEntry
  unfolding macos_route_destination macos_route_table_entry
  entry_of route w = do
    destination ← macos_route_destination route
    macos_route_table_entry destination w

  -- `run_command_with_exists_ok("route", args)`, whose flag only a log line reads
  unfoldable pub run_exists_ok : List Text → W → Result Text Bool × W
  run_exists_ok args w =
      let (result, w') = tool.write args w in
      let command = text "route " ++ join (text " ") args ++ text " failed" in
      (
        elim result [
          | err e ↦ err e
          | ok output ↦
              if output.success
              then ok true
              else if contains_text output.stderr (text "File exists")
                  || contains_text output.stdout (text "File exists")
              then ok false
              else if is_empty (trim output.stderr)
              then err command
              else err (command ++ text ": " ++ trim output.stderr)
        ],
        w',
      )

  unfoldable pub macos_clear_route_entry : MacosRoute → Option Text → W → Option MacosRouteEntry × W
  unfolding entry_of
  macos_clear_route_entry route ifscope w =
      let w1 : W = (tool.write (delete_args route) w).1 in
      let w2 : W = (elim ifscope [
        | none ↦ w1
        | some device ↦ (tool.write (delete_args route ++ text "-ifscope" ∷ device ∷ []) w1).1
      ]) in
      (
        elim (entry_of route w2) [
          | none ↦ none
          | some entry ↦ if is_tunnel_owned entry then none else some entry
        ],
        w2,
      )

  -- Whether the holder of a prefix still stands: where `ifconfig` fails, it counts as live.
  unfoldable pub is_live : MacosRoute → MacosRouteEntry → W → Bool
  unfolding macos_connected_subnets_by_device macos_route_entry_is_live
  is_live route entry w =
      let tunnel : Text = (elim route.interface [ none ↦ [] | some interface ↦ interface ]) in
      elim (macos_connected_subnets_by_device (tool.ifconfig w) tunnel) [
        | none ↦ true
        | some connected ↦ macos_route_entry_is_live entry connected
      ]

  -- The installation itself.
  unfoldable pub create_route : MacosRoute → W → Result Text MacosRouteInstall × W
  unfolding run_exists_ok
  create_route route w =
      let (result, w') = run_exists_ok (add_args route) w in
      (elim result [ err e ↦ err e | ok _ ↦ ok owned ], w')

  -- Clear the prefix, and install the route unless someone else still holds it.
  unfoldable pub replace_entry : MacosRoute → Option Text → W → Result Text MacosRouteInstall × W
  unfolding macos_clear_route_entry create_route
  replace_entry route ifscope w =
      let (remaining, w') = macos_clear_route_entry route ifscope w in
      elim remaining [ some _ ↦ (ok foreign, w') | none ↦ create_route route w' ]

  unfoldable pub add_macos_route : MacosRoute → W → Result Text MacosRouteInstall × W
  unfolding entry_of is_live create_route replace_entry
  add_macos_route route w =
      if is_some route.interface && not (is_some route.gateway)
      then elim (entry_of route w) [
        | none ↦ create_route route w
        | some entry ↦
            if is_tunnel_owned entry
            then replace_entry route none w
            else if is_live route entry w
            then (ok foreign, w)
            else replace_entry route entry.interface w
      ]
      else create_route route w

  unfoldable pub macos_restore_shadowed_lan_route : MacosRoute → List Subnet → Text → W → W
  unfolding macos_route_excluded_by_local_subnet macos_route_table_entry show_ip show_number
      macos_connected_subnet_device run_exists_ok
  macos_restore_shadowed_lan_route route local_subnets tunnel_interface w =
      elim (macos_route_excluded_by_local_subnet route local_subnets) [
        | none ↦ w
        | some subnet ↦ elim (macos_route_table_entry subnet w) [
          | some _ ↦ w
          | none ↦ elim (macos_connected_subnet_device (tool.ifconfig w) subnet tunnel_interface) [
            | none ↦ w
            | some device ↦ (run_exists_ok (restore_args subnet device) w).1
          ]
        ]
      ]

  unfoldable pub del_macos_route : MacosRoute → W → Result Text (Unit {0}) × W
  del_macos_route route w =
      let (result, w') = tool.write (delete_args route) w in
      (
        elim result [
          | err e ↦ err e
          | ok output ↦
              if output.success
              then ok tt
              else if contains_text output.stderr (text "not in table")
                  || contains_text output.stdout (text "not in table")
              then ok tt
              else err (
                  text "route "
                  ++ join (text " ") (delete_args route)
                  ++ text " failed: "
                  ++ (if not (is_empty (trim output.stderr))
                      then trim output.stderr
                      else trim output.stdout))
        ],
        w',
      )

  -- The system calls that a pass over the routes is given.
  unfoldable pub table_calls : List Subnet → Text → RouteCalls W
  unfolding add_macos_route del_macos_route macos_restore_shadowed_lan_route
  table_calls local_subnets tunnel_interface = record {
    del = del_macos_route;
    install = add_macos_route;
    restore = λ route. macos_restore_shadowed_lan_route route local_subnets tunnel_interface;
  }
