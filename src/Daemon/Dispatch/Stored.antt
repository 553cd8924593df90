-- ===== src/Daemon/Dispatch/Stored.antt =====
-- The stored configurations of src/privileged/dispatch.rs, with the parser of
-- src/wireguard/connection_config.rs.
use macos_wireguard_daemon.Prelude.{ℕ, List, Eq}
use macos_wireguard_daemon.Links.Net.{IpNetOps}
use macos_wireguard_daemon.Links.{BypassLink}
use macos_wireguard_daemon.Links.Spec.{NetText}
use macos_wireguard_daemon.Config.Parser.{ParserTools}
use macos_wireguard_daemon.Config.Parser.Reading.{IsConfig}
use macos_wireguard_daemon.Config.Parser.WellFormed.{parse_connection_config-IsConfig}
use macos_wireguard_daemon.Daemon.Store.{Store}
use macos_wireguard_daemon.Daemon.Dispatch.Mtu.{conf_tools}
use macos_wireguard_daemon.Daemon.Dispatch.Invariants.{IsReachable}
use macos_wireguard_daemon.Daemon.Dispatch.Parsed.{Every, reachable-IsParsedBy}

module _ {N : Type 0} ⦃q : Eq N⦄ ⦃f : Eq (BypassLink N)⦄ (net : IpNetOps N) (texts : NetText N)
    (sha256 : List ℕ → List ℕ) where
  -- In a store that requests lead to from an empty one, with the daemon's own parser and whatever the
  -- resolver answers to each, every record has a configuration with a private key of 32 bytes, an
  -- address, an `MTU` of at least 576 or none, and peers, each with a key of 32 bytes and a network.
  pub reachable-IsConfig :
      (st : Store N)
      → IsReachable net (λ tools. conf_tools texts tools sha256) st
      → Every (λ c. IsConfig c.config) st.entries
  unfolding conf_tools
  reachable-IsConfig st r j c l =
      let (tools, parsed) =
        reachable-IsParsedBy net (λ (t : ParserTools N). conf_tools texts t sha256) st r j c l in
      parse_connection_config-IsConfig tools c.raw_conf c.config parsed.0
