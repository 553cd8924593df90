-- ===== src/Routes/System.antt =====
-- src/userspace_helper/macos/system.rs: what the helper reads of the network's state.
--
-- A command's standard output is an argument, and none where it failed.
use Prim.Native.Nat.{bit_and}
use macos_wireguard_daemon.Prelude.{
  ℕ, zero, suc, ◌+◌, ◌/◌, ◌%◌, ◌^◌, Bool, false, not, ◌&&◌, ◌||◌, Option, none, some, List, [], ◌∷◌,
  ◌++◌, Text, text, ◌==◌, ℕ_eq, List_eq, Option_eq, find, is_empty, if◌then◌else◌, lines, trim,
  is_white, strip_prefix, starts_with, contains_text, split_whitespace, text_after, text_before,
  trim_start_matches, trim_end_matches, find_map,
}
use macos_wireguard_daemon.Prelude.Options.{◌>>=◌}
use macos_wireguard_daemon.Net.{Subnet, Subnet_eq, macos_network_base}
use macos_wireguard_daemon.Net.Parse.{
  v4, v6, parse_ipv4, parse_ipv6, parse_unsigned, from_str_radix, split_once,
}

-- `count_ones` of an integer of that many bits.
abbrev pub count_ones : ℕ → ℕ → ℕ
count_ones zero v = 0
count_ones (suc k) v = v % 2 + count_ones k (v / 2)

abbrev non_empty : Text → Option Text
non_empty s = if is_empty s then none else some s

abbrev primary_of_line : Text → Option Text
primary_of_line line = do
  rest ← strip_prefix (trim line) (text "PrimaryInterface")
  non_empty (trim (trim_start_matches (λ c. c == b' ' || c == b':') rest))

unfoldable pub parse_scutil_primary_interface : Text → Option Text
unfolding find_map
parse_scutil_primary_interface output = find_map primary_of_line (lines output)

unfoldable pub parse_device_from_hw_line : Text → Option Text
parse_device_from_hw_line hw = do
  rest ← text_after hw (text "Device:")
  non_empty (trim (trim_end_matches (λ c. c == b')') (trim rest)))

-- The name that a service line gives, or the one before it.
abbrev name_after : Text → Option Text → Option Text
name_after trimmed current = elim (split_once b')' trimmed) [
  | none ↦ current
  | some (_, name) ↦ if is_empty (trim name) then current else some (trim name)
]

abbrev service_from : Text → Option Text → List Text → Option Text
service_from device current [] = none
service_from device current (line ∷ rest) =
    let trimmed = trim line in
    let same = service_from device current rest in
    let renamed = service_from device (name_after trimmed current) rest in
    elim (strip_prefix trimmed (text "(Hardware Port:")) [
      | some hw ↦ if parse_device_from_hw_line hw == some device then current else same
      | none ↦ if starts_with trimmed (text "(") then renamed else same
    ]

unfoldable pub parse_service_name_for_device : Text → Text → Option Text
unfolding parse_device_from_hw_line split_once
parse_service_name_for_device output device = service_from device none (lines output)

-- The field behind the first field of that name.
abbrev field_after : Text → List Text → Option Text
field_after name [] = none
field_after name (field ∷ []) = none
field_after name (field ∷ next ∷ rest) =
    let further = field_after name (next ∷ rest) in if field == name then some next else further

abbrev first_field : List Text → Option Text
first_field [] = none
first_field (field ∷ _) = some field

unfoldable pub parse_macos_hex_netmask : Text → Option ℕ
unfolding from_str_radix
parse_macos_hex_netmask mask = do
  hex ← elim (strip_prefix mask (text "0x")) [
    | some rest ↦ some rest
    | none ↦ strip_prefix mask (text "0X")
  ]
  v ← from_str_radix 16 (2 ^ 32) hex
  some (count_ones 32 v)

unfoldable pub parse_ifconfig_inet4_subnet : Text → Option Subnet
unfolding parse_ipv4 parse_macos_hex_netmask macos_network_base
parse_ifconfig_inet4_subnet rest = do
  let fields = split_whitespace rest
  address ← first_field fields
  ip ← parse_ipv4 address
  mask ← field_after (text "netmask") fields
  prefix ← parse_macos_hex_netmask mask
  some (macos_network_base (v4 ip) prefix, prefix)

unfoldable pub parse_ifconfig_inet6_subnet : Text → Option Subnet
unfolding parse_ipv6 parse_unsigned macos_network_base
parse_ifconfig_inet6_subnet rest = do
  let fields = split_whitespace rest
  address ← first_field fields
  ip ← parse_ipv6 (text_before b'%' address)
  length_text ←
      if ip == 1 || bit_and (ip / 2 ^ 112) 0xffc0 == 0xfe80
      then none
      else field_after (text "prefixlen") fields
  prefix ← parse_unsigned 256 length_text
  some (macos_network_base (v6 ip) prefix, prefix)

-- The device that a header line opens, if its addresses count.
unfoldable pub header_device : Text → Text → Option Text
unfolding split_once
header_device tunnel_interface line = do
  (name, rest) ← split_once b':' line
  let counts =
      not (trim name == tunnel_interface)
      && contains_text rest (text "UP")
      && not (contains_text rest (text "LOOPBACK"))
      && not (contains_text rest (text "POINTOPOINT"))
  if counts then some (trim name) else none

-- The subnet of an indented line.
unfoldable pub address_line : Text → Option Subnet
unfolding parse_ifconfig_inet4_subnet parse_ifconfig_inet6_subnet
address_line trimmed = elim (strip_prefix trimmed (text "inet ")) [
  | some rest ↦ parse_ifconfig_inet4_subnet rest
  | none ↦ elim (strip_prefix trimmed (text "inet6 ")) [
    | some rest ↦ parse_ifconfig_inet6_subnet rest
    | none ↦ none
  ]
]

abbrev is_indented : Text → Bool
is_indented [] = false
is_indented (c ∷ _) = is_white c

abbrev pub DeviceSubnet : Type 0
DeviceSubnet = Text × Subnet

-- The entry of an indented line under a device.
unfoldable pub device_entry : Option Text → Text → List DeviceSubnet
unfolding address_line
device_entry none line = []
device_entry (some device) line = elim (address_line (trim line)) [
  | none ↦ []
  | some subnet ↦ (device, subnet) ∷ []
]

-- The loop over the lines of `ifconfig`.
unfoldable pub connected_from : Text → Option Text → List Text → List DeviceSubnet
unfolding header_device device_entry
connected_from tunnel_interface device [] = []
connected_from tunnel_interface device (line ∷ rest) =
    let below = connected_from tunnel_interface device rest in
    let opened = connected_from tunnel_interface (header_device tunnel_interface line) rest in
    if is_indented line then device_entry device line ++ below else opened

unfoldable pub macos_connected_subnets_by_device : Option Text → Text → Option (List DeviceSubnet)
unfolding connected_from
macos_connected_subnets_by_device none tunnel_interface = none
macos_connected_subnets_by_device (some ifconfig) tunnel_interface =
    some (connected_from tunnel_interface none (lines ifconfig))

abbrev or_empty : Option (List DeviceSubnet) → List DeviceSubnet
or_empty none = []
or_empty (some subnets) = subnets

unfoldable pub macos_connected_subnet_device : Option Text → Subnet → Text → Option Text
unfolding macos_connected_subnets_by_device
macos_connected_subnet_device ifconfig subnet tunnel_interface =
    elim (find (λ (entry : DeviceSubnet). entry.1 == subnet)
      (or_empty (macos_connected_subnets_by_device ifconfig tunnel_interface))) [
        | none ↦ none
        | some entry ↦ some entry.0
      ]
