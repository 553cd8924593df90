-- ===== src/Examples/Reparse.antt =====
-- A connection whose peer is named, added when the name resolves to one address and connected when it
-- resolves to another.
use macos_wireguard_daemon.Prelude.{
  any, find, contains, List_dec, retain, ℕ_discrete, ◌≡◌, refl, ℕ, ◌+◌, ◌^◌, none, some, List, [],
  ◌∷◌, Text, text, join, Result, ok,
}
use macos_wireguard_daemon.Net.{Subnet, Subnet_eq}
use macos_wireguard_daemon.Net.Parse.{v4}
use macos_wireguard_daemon.Config.{SocketAddr, ConnectionConfig, fingerprint}
use macos_wireguard_daemon.Config.Parser.Sections.{parse_connection_config}
use macos_wireguard_daemon.Config.Parser.Reparse.{with_resolver, IsSame}
use macos_wireguard_daemon.Daemon.Errors.{AppError}
use macos_wireguard_daemon.Daemon.Store.{
  interface_name_in_use, find_by_name, load_all_strict_in, StoredConnection, Store, load_in,
  interface_name,
}
use macos_wireguard_daemon.Daemon.Responses.{socket}
use macos_wireguard_daemon.Daemon.Dispatch.Add.{ConfTools, created}
use macos_wireguard_daemon.Daemon.Dispatch.Mtu.{conf_tools}
use macos_wireguard_daemon.Daemon.Dispatch.Requests.{PrivilegedRequest, add_connection, dispatch}
use macos_wireguard_daemon.Daemon.Dispatch.Invariants.{empty, requested}
use macos_wireguard_daemon.Daemon.Operations.{reparse_and_verify}
use macos_wireguard_daemon.Daemon.Operations.Implements.{reachable_verifies}
use macos_wireguard_daemon.Examples.Networks.{networks, site}
use macos_wireguard_daemon.Examples.Parsing.{tools, key}
use macos_wireguard_daemon.Examples.Directory.{host, texts, tunnel, request, fresh, link_eq}

abbrev named : Text
named = join (10 ∷ []) (
    text "[Interface]"
    ∷ text "PrivateKey = key"
    ∷ text "Address = site"
    ∷ text "[Peer]"
    ∷ text "PublicKey = key"
    ∷ text "AllowedIPs = site"
    ∷ text "Endpoint = vpn:51820"
    ∷ [])

-- The resolver's answers: every name has this address.
abbrev at : ℕ → Text → ℕ → Result AppError SocketAddr
at address name port = ok (record { ip = v4 address; port = port })

abbrev config_at : ℕ → ConnectionConfig Subnet
config_at address = record {
  private_key = key;
  addresses = site ∷ [];
  dns_servers = [];
  mtu = none;
  pre_up = [];
  post_up = [];
  pre_down = [];
  post_down = [];
  peers =
      record {
        public_key = key;
        preshared_key = none;
        allowed_ips = site ∷ [];
        endpoint = some (record { ip = v4 address; port = 51820 });
        endpoint_literal = some (text "vpn:51820");
        persistent_keepalive = none;
      }
      ∷ [];
}

abbrev sha256 : List ℕ → List ℕ
sha256 bytes = bytes

abbrev tools_of : (Text → ℕ → Result AppError SocketAddr) → ConfTools Subnet
tools_of answers = conf_tools texts (with_resolver tools answers) sha256

abbrev addition : PrivilegedRequest Subnet
addition = add_connection (record request { conf_text = named })

abbrev stored : Store Subnet
stored = (dispatch host networks (tools_of (at 1)) tunnel (socket 501) addition fresh).1

abbrev new_id : ℕ
new_id = 2 ^ 96 + 1

abbrev new_record : StoredConnection Subnet
new_record =
    created host (record request { conf_text = named }) (some 501) named (config_at 1)
      (fingerprint networks sha256 (config_at 1)) new_id (interface_name new_id) 200

parses :
    (address : ℕ)
    → parse_connection_config (with_resolver tools (at address)) named ≡ ok (config_at address)
unfolding parse_connection_config ℕ_discrete retain List_dec contains
parses address = refl

new_record_stored : load_in stored.entries new_id ≡ ok (some new_record)
unfolding load_in find dispatch conf_tools ℕ_discrete retain List_dec contains load_all_strict_in
    find_by_name interface_name_in_use any interface_name
new_record_stored = refl

reachable_verifies_example :
    (reparse_and_verify
        (parse_connection_config (with_resolver tools (at 2)))
        networks
        sha256
        new_record
      ≡ ok (config_at 2))
    × IsSame (config_at 1) (config_at 2)
unfolding created
reachable_verifies_example =
    reachable_verifies networks sha256 texts tools (at 2) stored new_id new_record (config_at 2)
      (requested fresh host (at 1) tunnel (socket 501) addition (empty fresh refl))
      new_record_stored (parses 2)
