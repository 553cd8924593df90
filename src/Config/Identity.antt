-- ===== src/Config/Identity.antt =====
-- `fingerprint` of src/wireguard/connection_config.rs and the identity of a configuration.
use macos_wireguard_daemon.Prelude.{
  ◌≡◌, ◌↔◌, refl, sym, ap, ◌∙◌, ℕ, Option, List, [], ◌++◌, Text, text, map,
}
use macos_wireguard_daemon.Net.Parse.{IpAddr}
use macos_wireguard_daemon.Net.Blocks.{IsAddress}
use macos_wireguard_daemon.Links.Net.{IpNetOps}
use macos_wireguard_daemon.Config.{
  ConnectionPeer, ConnectionConfig, push_ip, push_strings, push_ipnets, push_peer,
  fingerprint_bytes,
}
use macos_wireguard_daemon.Config.Encoding.{
  IsReadable, then_push-IsReadable, IsCounted, counted-IsReadable, split_lem,
}
use macos_wireguard_daemon.Config.Values.{
  same, IsU16, IsShort, IsShortOption, push_option_u16-IsReadable, push_bytes-IsReadable,
  push_option_bytes-IsReadable, push_ip-IsReadable, push_strings-IsReadable, literal, IsNet,
  push_ipnets-IsReadable,
}

-- A push of some parts of a value.
module _ {A B P : Type 0} (part : A → P) (p : List ℕ → P → List ℕ) (f : P → B) (V : P → Type 0)
    (rp : IsReadable p f V) where
  part-IsReadable : IsReadable {A = A} (λ buf a. p buf (part a)) (λ a. f (part a)) (λ a. V (part a))
  part-IsReadable = record {
    appends = λ buf a s. rp.appends buf (part a) s;
    reads = λ a b s t v u e. rp.reads (part a) (part b) s t v u e;
    shows = λ buf a b e. rp.shows buf (part a) (part b) e;
  }

abbrev PeerIdentity : Type 0
PeerIdentity = (((List ℕ × Option (List ℕ)) × List (IpAddr × ℕ)) × Option Text) × Option ℕ

module _ {N : Type 0} (net : IpNetOps N) where
  -- A peer's keys, networks, endpoint as written, and keepalive; not the resolved endpoint.
  abbrev pub peer_identity : ConnectionPeer N → PeerIdentity
  peer_identity peer = (
    (
      ((peer.public_key, peer.preshared_key), map (literal net) peer.allowed_ips),
      peer.endpoint_literal,
    ),
    peer.persistent_keepalive,
  )

  abbrev pub IsPeer : ConnectionPeer N → Type 0
  IsPeer peer =
      (((IsShort peer.public_key × IsShortOption peer.preshared_key)
          × IsCounted (IsNet net) peer.allowed_ips)
        × IsShortOption peer.endpoint_literal)
      × IsU16 peer.persistent_keepalive

  push_peer-IsReadable : IsReadable (push_peer net) peer_identity IsPeer
  unfolding push_peer
  push_peer-IsReadable =
      let keys = then_push-IsReadable push_bytes-IsReadable push_option_bytes-IsReadable in
      let nets = then_push-IsReadable keys (push_ipnets-IsReadable net) in
      let ends = then_push-IsReadable nets push_option_bytes-IsReadable in
      let all = then_push-IsReadable ends push_option_u16-IsReadable in
      part-IsReadable
        (λ (peer : ConnectionPeer N). (
          (((peer.public_key, peer.preshared_key), peer.allowed_ips), peer.endpoint_literal),
          peer.persistent_keepalive,
        ))
        _ _ _ all

  -- All that a configuration means, in the order in which it is hashed.
  abbrev pub identity :
      ConnectionConfig N
      → (((((((List ℕ × List (IpAddr × ℕ)) × List IpAddr) × Option ℕ) × List Text) × List Text)
            × List Text)
          × List Text)
        × List PeerIdentity
  identity c = (
    (
      (
        (
          (
            (((c.private_key, map (literal net) c.addresses), map same c.dns_servers), c.mtu),
            map same c.pre_up,
          ),
          map same c.post_up,
        ),
        map same c.pre_down,
      ),
      map same c.post_down,
    ),
    map peer_identity c.peers,
  )

  abbrev parts :
      ConnectionConfig N
      → (((((((List ℕ × List N) × List IpAddr) × Option ℕ) × List Text) × List Text) × List Text)
          × List Text)
        × List (ConnectionPeer N)
  parts c = (
    (
      ((((((c.private_key, c.addresses), c.dns_servers), c.mtu), c.pre_up), c.post_up), c.pre_down),
      c.post_down,
    ),
    c.peers,
  )

  -- Every length fits in 32 bits, every 16-bit value in 16, and every address in its family.
  abbrev pub IsEncodable : ConnectionConfig N → Type 0
  IsEncodable c =
      ((((((((IsShort c.private_key × IsCounted (IsNet net) c.addresses)
                    × IsCounted IsAddress c.dns_servers)
                  × IsU16 c.mtu)
                × IsCounted IsShort c.pre_up)
              × IsCounted IsShort c.post_up)
            × IsCounted IsShort c.pre_down)
          × IsCounted IsShort c.post_down)
        × IsCounted IsPeer c.peers)

  -- Two configurations hash the same bytes exactly where their identities agree: no two different
  -- ones share them, and neither the resolved endpoints nor what `ipnet` knows of a network beyond its
  -- address and prefix length matter. The condition is that both can be encoded.
  pub fingerprint_bytes_iff :
      (c d : ConnectionConfig N)
      → IsEncodable c
      → IsEncodable d
      → (fingerprint_bytes net c ≡ fingerprint_bytes net d) ↔ (identity c ≡ identity d)
  unfolding fingerprint_bytes push_strings push_ipnets
  fingerprint_bytes_iff c d hc hd =
      let r2 = then_push-IsReadable push_bytes-IsReadable (push_ipnets-IsReadable net) in
      let r3 =
        then_push-IsReadable r2 (counted-IsReadable push_ip same IsAddress push_ip-IsReadable) in
      let r4 = then_push-IsReadable r3 push_option_u16-IsReadable in
      let r5 = then_push-IsReadable r4 push_strings-IsReadable in
      let r6 = then_push-IsReadable r5 push_strings-IsReadable in
      let r7 = then_push-IsReadable r6 push_strings-IsReadable in
      let r8 = then_push-IsReadable r7 push_strings-IsReadable in
      let r =
        then_push-IsReadable r8
          (counted-IsReadable (push_peer net) peer_identity IsPeer push_peer-IsReadable) in
      let tag = text "wgd-connfp-v1" in
      let pc = parts c in
      let pd = parts d in
      (
        λ e.
            (let both =
                sym (r.appends tag pc []) ∙ ap (λ (t : List ℕ). t ++ []) e ∙ r.appends tag pd [] in
              (r.reads pc pd [] [] hc hd (split_lem tag tag _ _ refl both).1).0),
        λ e. r.shows tag pc pd e,
      )
