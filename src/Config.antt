-- ===== src/Config.antt =====
-- src/wireguard/connection_config.rs: a parsed connection and its identity.
--
-- Keys are their bytes. The hash is an argument, and so are the `ipnet` crate's operations.
pub mod Encoding
pub mod Values
pub mod Identity
pub mod Parser
use macos_wireguard_daemon.Prelude.{
  ◌≡◌, ℕ, zero, suc, ◌+◌, ◌*◌, ◌/◌, ◌-◌, ◌%◌, ◌^◌, Bool, true, false, Option, none, some, List, [],
  ◌∷◌, ◌++◌, Text, text, length, ltb, if◌then◌else◌,
}
use macos_wireguard_daemon.Net.Parse.{IpAddr, v4, v6}
use macos_wireguard_daemon.Links.Net.{IpNetOps}

-- An address with a port.
pub record SocketAddr : Type 0 where
  pub ip : IpAddr
  pub port : ℕ

pub record ConnectionPeer (N : Type 0) : Type 0 where
  pub public_key : List ℕ
  pub preshared_key : Option (List ℕ)
  pub allowed_ips : List N
  pub endpoint : Option SocketAddr
  pub endpoint_literal : Option Text
  pub persistent_keepalive : Option ℕ

pub record ConnectionConfig (N : Type 0) : Type 0 where
  pub private_key : List ℕ
  pub addresses : List N
  pub dns_servers : List IpAddr
  pub mtu : Option ℕ
  pub pre_up : List Text
  pub post_up : List Text
  pub pre_down : List Text
  pub post_down : List Text
  pub peers : List (ConnectionPeer N)

-- `to_le_bytes` of an integer of that many bytes.
abbrev pub le_bytes : ℕ → ℕ → List ℕ
le_bytes zero value = []
le_bytes (suc k) value = value % 256 ∷ le_bytes k (value / 256)

-- The big-endian bytes of an integer, in front of others.
abbrev pub be_bytes : ℕ → ℕ → List ℕ → List ℕ
be_bytes zero value rest = rest
be_bytes (suc k) value rest = be_bytes k (value / 256) (value % 256 ∷ rest)

unfoldable pub push_u32 : List ℕ → ℕ → List ℕ
push_u32 buf value = buf ++ le_bytes 4 value

unfoldable pub push_option_u16 : List ℕ → Option ℕ → List ℕ
push_option_u16 buf (some v) = (buf ++ 1 ∷ []) ++ le_bytes 2 v
push_option_u16 buf none = buf ++ 0 ∷ []

-- `len() as u32` keeps the low 32 bits.
unfoldable pub push_bytes : List ℕ → List ℕ → List ℕ
unfolding push_u32
push_bytes buf bytes = push_u32 buf (length bytes % 2 ^ 32) ++ bytes

unfoldable pub push_ip : List ℕ → IpAddr → List ℕ
push_ip buf (v4 bits) = (buf ++ 4 ∷ []) ++ be_bytes 4 bits []
push_ip buf (v6 bits) = (buf ++ 6 ∷ []) ++ be_bytes 16 bits []

-- A `for` loop that pushes each element.
abbrev pub push_all {ℓ} : {A : Type ℓ} → (List ℕ → A → List ℕ) → List ℕ → List A → List ℕ
push_all push buf [] = buf
push_all push buf (a ∷ rest) = push_all push (push buf a) rest

unfoldable pub push_strings : List ℕ → List Text → List ℕ
unfolding push_u32 push_bytes
push_strings buf values = push_all push_bytes (push_u32 buf (length values % 2 ^ 32)) values

-- The flagged byte string of the two options of a peer.
unfoldable pub push_option_bytes : List ℕ → Option (List ℕ) → List ℕ
unfolding push_bytes
push_option_bytes buf (some bytes) = push_bytes (buf ++ 1 ∷ []) bytes
push_option_bytes buf none = buf ++ 0 ∷ []

-- A digit of `{:02x}`.
abbrev hex_digit : ℕ → ℕ
hex_digit d = if ltb d 10 then b'0' + d else b'a' + (d - 10)

abbrev pub hex_encode : List ℕ → Text
hex_encode [] = []
hex_encode (byte ∷ rest) = hex_digit (byte / 16) ∷ hex_digit (byte % 16) ∷ hex_encode rest

module _ {N : Type 0} (net : IpNetOps N) where
  unfoldable pub push_net : List ℕ → N → List ℕ
  unfolding push_ip
  push_net buf n = push_ip buf (net.addr n) ++ net.prefix_len n ∷ []

  unfoldable pub push_ipnets : List ℕ → List N → List ℕ
  unfolding push_u32 push_net
  push_ipnets buf nets = push_all push_net (push_u32 buf (length nets % 2 ^ 32)) nets

  unfoldable pub push_peer : List ℕ → ConnectionPeer N → List ℕ
  unfolding push_bytes push_option_bytes push_ipnets push_option_u16
  push_peer buf peer =
      push_option_u16
        (push_option_bytes
          (push_ipnets (push_option_bytes (push_bytes buf peer.public_key) peer.preshared_key)
            peer.allowed_ips)
          peer.endpoint_literal)
        peer.persistent_keepalive

  -- The bytes that `fingerprint` hashes.
  unfoldable pub fingerprint_bytes : ConnectionConfig N → List ℕ
  unfolding push_bytes push_ipnets push_u32 push_ip push_option_u16 push_strings push_peer
  fingerprint_bytes config =
      let keyed = push_bytes (text "wgd-connfp-v1") config.private_key in
      let addressed = push_ipnets keyed config.addresses in
      let resolved =
        push_all push_ip (push_u32 addressed (length config.dns_servers % 2 ^ 32))
          config.dns_servers in
      let sized = push_option_u16 resolved config.mtu in
      let hooked =
        push_strings
          (push_strings (push_strings (push_strings sized config.pre_up) config.post_up)
            config.pre_down)
          config.post_down in
      push_all push_peer (push_u32 hooked (length config.peers % 2 ^ 32)) config.peers

  unfoldable pub fingerprint : (List ℕ → List ℕ) → ConnectionConfig N → Text
  unfolding fingerprint_bytes
  fingerprint sha256 config = text "sha256:" ++ hex_encode (sha256 (fingerprint_bytes config))
