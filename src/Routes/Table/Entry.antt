-- ===== src/Routes/Table/Entry.antt =====
-- src/userspace_helper/macos/route_table.rs: the entries that `route get` prints.
use macos_wireguard_daemon.Prelude.{
  ℕ, zero, suc, ◌^◌, Bool, true, false, not, ◌&&◌, ◌||◌, Option, none, some, is_some, List, [], ◌∷◌,
  Text, text, ◌==◌, ℕ_eq, Bool_eq, List_eq, Option_eq, any, is_empty, if◌then◌else◌, lines, trim,
  strip_prefix, starts_with, split_whitespace, find_map,
}
use macos_wireguard_daemon.Prelude.Options.{◌>>=◌}
use macos_wireguard_daemon.Net.{Subnet, Subnet_eq, macos_network_base, macos_subnet_contains}
use macos_wireguard_daemon.Net.Parse.{IpAddr, v4, v6, parse_ip, parse_unsigned}
use macos_wireguard_daemon.Routes.System.{DeviceSubnet, count_ones}

pub record MacosRouteEntry : Type 0 where
  pub destination : Subnet
  pub interface : Option Text
  pub gateway : Option Text
  pub mtu : Option ℕ

abbrev pub has_gateway : MacosRouteEntry → Bool
has_gateway entry = is_some entry.gateway

abbrev pub is_tunnel_owned : MacosRouteEntry → Bool
is_tunnel_owned entry =
    not (has_gateway entry)
    && (elim entry.interface [ none ↦ false | some device ↦ starts_with device (text "utun") ])

unfoldable pub macos_route_entry_is_live : MacosRouteEntry → List DeviceSubnet → Bool
macos_route_entry_is_live entry connected =
    if has_gateway entry then true else elim entry.interface [
      | none ↦ true
      | some holder ↦
          any
            (λ (c : DeviceSubnet).
              c.0 == holder
              && (macos_subnet_contains c.1 entry.destination
                  || macos_subnet_contains entry.destination c.1))
            connected
    ]

unfoldable pub parse_macos_route_mask : Text → Option ℕ
unfolding parse_ip
parse_macos_route_mask mask = elim (parse_ip mask) [
  | none ↦ none
  | some ip ↦ elim ip [ v4 bits ↦ some (count_ones 32 bits) | v6 bits ↦ some (count_ones 128 bits) ]
]

abbrev interface_of_line : Text → Option Text
interface_of_line line = strip_prefix (trim line) (text "interface:")

unfoldable pub parse_macos_route_get_interface : Text → Option Text
unfolding find_map
parse_macos_route_get_interface output = elim (find_map interface_of_line (lines output)) [
  | none ↦ none
  | some value ↦ if is_empty (trim value) then none else some (trim value)
]

-- The variables of the loop over the lines of `route get`.
pub record Fields : Type 0 where
  pub target : Option Text
  pub mask : Option Text
  pub gateway : Option Text
  pub interface : Option Text
  pub mtu : Option ℕ
  pub stats_mtu_column : Option ℕ

abbrev no_fields : Fields
no_fields = record {
  target = none;
  mask = none;
  gateway = none;
  interface = none;
  mtu = none;
  stats_mtu_column = none;
}

-- `nth(column)` and `position(|name| name == "mtu")`
abbrev nth : ℕ → List Text → Option Text
nth k [] = none
nth zero (a ∷ rest) = some a
nth (suc k) (a ∷ rest) = nth k rest

abbrev position : Text → List Text → Option ℕ
position name [] = none
position name (a ∷ rest) =
    let further = position name rest in
    if a == name then some zero else elim further [ none ↦ none | some k ↦ some (suc k) ]

abbrev mtu_of : ℕ → Text → Option ℕ
mtu_of column trimmed = do
  value ← nth column (split_whitespace trimmed)
  mtu ← parse_unsigned (2 ^ 32) value
  if mtu == 0 then none else some mtu

-- A line without a key: the statistics and their header.
abbrev read_statistics : Text → Fields → Fields
read_statistics trimmed f = elim f.stats_mtu_column [
  | some column ↦ record f { mtu = mtu_of column trimmed; stats_mtu_column = none }
  | none ↦
      if starts_with trimmed (text "recvpipe")
      then record f { stats_mtu_column = position (text "mtu") (split_whitespace trimmed) }
      else f
]

unfoldable pub read_line : Text → Fields → Fields
unfolding parse_unsigned
read_line trimmed f = elim (strip_prefix trimmed (text "destination:")) [
  | some value ↦ record f { target = some (trim value) }
  | none ↦ elim (strip_prefix trimmed (text "mask:")) [
    | some value ↦ record f { mask = some (trim value) }
    | none ↦ elim (strip_prefix trimmed (text "gateway:")) [
      | some value ↦ record f { gateway = some (trim value) }
      | none ↦ elim (strip_prefix trimmed (text "interface:")) [
        | some value ↦ record f { interface = some (trim value) }
        | none ↦ read_statistics trimmed f
      ]
    ]
  ]
]

unfoldable pub read_fields : List Text → Fields → Fields
unfolding read_line
read_fields [] f = f
read_fields (line ∷ rest) f = read_fields rest (read_line (trim line) f)

abbrev is_masked : Option Text → Bool
is_masked none = false
is_masked (some mask) = not (mask == text "default")

abbrev target_address : Text → Option Text → Bool → Option IpAddr
target_address value mask is_ipv6 =
    if value == text "default" && is_masked mask
    then some (if is_ipv6 then v6 0 else v4 0)
    else parse_ip value

abbrev mask_prefix : Option Text → Bool → Option ℕ
mask_prefix none is_ipv6 = some (if is_ipv6 then 128 else 32)
mask_prefix (some mask) is_ipv6 =
    if mask == text "default" then some 0 else parse_macos_route_mask mask

unfoldable pub parse_macos_route_get : Text → Bool → Option MacosRouteEntry
unfolding read_fields parse_macos_route_mask parse_ip macos_network_base
parse_macos_route_get output is_ipv6 = do
  let f = read_fields (lines output) no_fields
  value ← f.target
  ip ← target_address value f.mask is_ipv6
  prefix ← mask_prefix f.mask is_ipv6
  some (record {
    destination = (macos_network_base ip prefix, prefix);
    interface = f.interface;
    gateway = f.gateway;
    mtu = f.mtu;
  })
