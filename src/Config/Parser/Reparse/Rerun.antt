-- ===== src/Config/Parser/Reparse/Rerun.antt =====
-- Whole runs of `parse_connection_config` of src/wireguard/connection_config.rs with two resolvers, and
-- the fingerprints of what they give.
use macos_wireguard_daemon.Prelude.{
  ◌≡◌, refl, sym, ap, ◌∙◌, ℕ, none, List, [], ◌∷◌, map, Text, length, Result, ok, lines,
}
use macos_wireguard_daemon.Links.Net.{IpNetOps}
use macos_wireguard_daemon.Config.{
  SocketAddr, ConnectionPeer, ConnectionConfig, push_peer, push_all, fingerprint_bytes, fingerprint,
}
use macos_wireguard_daemon.Daemon.Errors.{AppError}
use macos_wireguard_daemon.Config.Parser.{ParserTools}
use macos_wireguard_daemon.Config.Parser.Sections.{
  ParseState, initial, leave_section, config_line, config_lines, finish, parse_connection_config,
}
use macos_wireguard_daemon.Config.Parser.Reparse.{
  Agrees, Agrees-ok, Agrees-bind, with_resolver, unresolved_peer, unresolved, IsSame, IsAlike, like,
}
use macos_wireguard_daemon.Config.Parser.Reparse.Alike.{
  leave_section-IsAlike, config_line-IsAlike, finish-IsSame,
}

module _ {N : Type 0} where
  module _ (tools : ParserTools N) (resolve : Text → ℕ → Result AppError SocketAddr) where
    config_lines-IsAlike :
        (ls : List Text) (s t : ParseState N)
        → IsAlike s t
        → Agrees IsAlike (config_lines tools ls s) (config_lines (with_resolver tools resolve) ls t)
    unfolding config_lines
    config_lines-IsAlike [] s t k = Agrees-ok IsAlike s t k
    config_lines-IsAlike (line ∷ rest) s t k =
        Agrees-bind IsAlike IsAlike (config_line tools line s)
          (config_line (with_resolver tools resolve) line t) _ _
          (rw k.same (config_line-IsAlike tools resolve k.endpoint k.peers s k.alike line))
          (λ a b l. config_lines-IsAlike rest a b l)

    -- Two runs on one text that both succeed give the same configuration, but for the addresses that
    -- the resolver gave.
    pub parse_connection_config-IsSame :
        (input : Text) (c d : ConnectionConfig N)
        → parse_connection_config tools input ≡ ok c
        → parse_connection_config (with_resolver tools resolve) input ≡ ok d
        → IsSame c d
    unfolding parse_connection_config
    parse_connection_config-IsSame input c d p q =
        let other = with_resolver tools resolve in
        let runs =
          Agrees-bind IsAlike IsSame (config_lines tools (lines input) (initial tools))
            (config_lines other (lines input) (initial other)) _ _
            (config_lines-IsAlike (lines input) (initial tools) (initial other) (like none [] refl))
            (λ s t k.
              Agrees-bind IsAlike IsSame (leave_section tools s) (leave_section other t)
                (finish tools) (finish other)
                (rw k.same (leave_section-IsAlike tools resolve k.endpoint k.peers s k.alike))
                (λ a b l. rw l.same (finish-IsSame tools resolve l.endpoint l.peers a l.alike))) in
        runs.value c d p q

  module _ (net : IpNetOps N) where
    push_unresolved :
        (buf : List ℕ) (peers : List (ConnectionPeer N))
        → push_all (push_peer net) buf (map unresolved_peer peers)
          ≡ push_all (push_peer net) buf peers
    unfolding push_peer
    push_unresolved buf [] = refl
    push_unresolved buf (p ∷ peers) = push_unresolved (push_peer net buf p) peers

    length_unresolved :
        (peers : List (ConnectionPeer N)) → length (map unresolved_peer peers) ≡ length peers
    length_unresolved [] = refl
    length_unresolved (p ∷ peers) = rw (length_unresolved peers) refl

    -- A fingerprint does not depend on the addresses that the resolver gave.
    fingerprint-unresolved :
        (sha256 : List ℕ → List ℕ) (c : ConnectionConfig N)
        → fingerprint net sha256 (unresolved c) ≡ fingerprint net sha256 c
    unfolding fingerprint fingerprint_bytes
    fingerprint-unresolved sha256 c =
        rw (length_unresolved c.peers) (rw (push_unresolved _ c.peers) refl)

    pub fingerprint-same :
        (sha256 : List ℕ → List ℕ) (c d : ConnectionConfig N)
        → IsSame c d
        → fingerprint net sha256 d ≡ fingerprint net sha256 c
    fingerprint-same sha256 c d e =
        sym (fingerprint-unresolved sha256 d)
        ∙ ap (fingerprint net sha256) e
        ∙ fingerprint-unresolved sha256 c
