-- ===== src/Examples/Identity.antt =====
-- The identity of a configuration, for two that differ only in the resolved endpoint.
use macos_wireguard_daemon.Prelude.{◌≡◌, ◌↔◌, none, some, [], ◌∷◌, text, arith}
use macos_wireguard_daemon.Net.{Subnet}
use macos_wireguard_daemon.Net.Parse.{v4}
use macos_wireguard_daemon.Config.{ConnectionConfig, ConnectionPeer, SocketAddr, fingerprint_bytes}
use macos_wireguard_daemon.Config.Identity.{IsEncodable, identity, fingerprint_bytes_iff}
use macos_wireguard_daemon.Examples.Networks.{networks, site}

abbrev peer_at : SocketAddr → ConnectionPeer Subnet
peer_at endpoint = record {
  public_key = 1 ∷ 2 ∷ [];
  preshared_key = none;
  allowed_ips = site ∷ [];
  endpoint = some endpoint;
  endpoint_literal = some (text "vpn:51820");
  persistent_keepalive = some 25;
}

abbrev config_at : SocketAddr → ConnectionConfig Subnet
config_at endpoint = record {
  private_key = 3 ∷ 4 ∷ [];
  addresses = site ∷ [];
  dns_servers = v4 0x0a000001 ∷ [];
  mtu = some 1420;
  pre_up = text "true" ∷ [];
  post_up = [];
  pre_down = [];
  post_down = [];
  peers = peer_at endpoint ∷ [];
}

abbrev old : ConnectionConfig Subnet
old = config_at (record { ip = v4 0xcb007101; port = 51820 })

abbrev moved : ConnectionConfig Subnet
moved = config_at (record { ip = v4 0xcb007102; port = 51820 })

old-IsEncodable : IsEncodable networks old
old-IsEncodable = ground arith

moved-IsEncodable : IsEncodable networks moved
moved-IsEncodable = ground arith

fingerprint_bytes_iff_example :
    (fingerprint_bytes networks old ≡ fingerprint_bytes networks moved)
    ↔ (identity networks old ≡ identity networks moved)
fingerprint_bytes_iff_example =
    fingerprint_bytes_iff networks old moved old-IsEncodable moved-IsEncodable
