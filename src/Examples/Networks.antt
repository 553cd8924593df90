-- ===== src/Examples/Networks.antt =====
-- Concrete networks that the examples run on.
use macos_wireguard_daemon.Prelude.{ℕ, Option, some, none, leb, if◌then◌else◌}
use macos_wireguard_daemon.Net.{Subnet, macos_network_base, macos_subnet_contains}
use macos_wireguard_daemon.Net.Parse.{IpAddr, v4, v6}
use macos_wireguard_daemon.Links.Net.{IpNetOps}

-- A network, by its address and prefix length.
abbrev new_net : IpAddr → ℕ → Option Subnet
new_net (v4 bits) prefix = if leb prefix 32 then some (v4 bits, prefix) else none
new_net (v6 bits) prefix = if leb prefix 128 then some (v6 bits, prefix) else none

abbrev network : Subnet → IpAddr
network n = macos_network_base n.0 n.1

abbrev trunc : Subnet → Subnet
trunc n = (network n, n.1)

abbrev prefix_len : Subnet → ℕ
prefix_len n = n.1

abbrev addr : Subnet → IpAddr
addr n = n.0

abbrev pub networks : IpNetOps Subnet
networks = record {
  new_net = new_net;
  network = network;
  prefix_len = prefix_len;
  addr = addr;
  trunc = trunc;
  contains = macos_subnet_contains;
}

-- 10.0.0.0/8, 192.168.1.0/24, 192.168.0.0/16 and 0.0.0.0/0.
abbrev pub site : Subnet
site = (v4 0x0a000000, 8)

abbrev pub lan : Subnet
lan = (v4 0xc0a80100, 24)

abbrev pub office : Subnet
office = (v4 0xc0a80000, 16)
