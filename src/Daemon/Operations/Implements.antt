-- ===== src/Daemon/Operations/Implements.antt =====
-- src/privileged/connection_ops.rs as the tunnels of src/privileged/dispatch.rs, and the records that
-- the daemon stores at their connect.
use macos_wireguard_daemon.Prelude.{
  ◌≡◌, refl, sym, ◌∙◌, Text, ℕ, some, List, arith, Eq, ==_iff, ℕ_eq, List_eq, Result, ok,
}
use macos_wireguard_daemon.Links.Net.{IpNetOps}
use macos_wireguard_daemon.Links.{BypassLink}
use macos_wireguard_daemon.Config.{SocketAddr, ConnectionConfig, fingerprint}
use macos_wireguard_daemon.Daemon.Errors.{AppError}
use macos_wireguard_daemon.Daemon.Store.{StoredConnection, Store, load_in}
use macos_wireguard_daemon.Links.Spec.{NetText}
use macos_wireguard_daemon.Config.Parser.{ParserTools}
use macos_wireguard_daemon.Config.Parser.Sections.{parse_connection_config}
use macos_wireguard_daemon.Config.Parser.Reparse.{with_resolver, IsSame}
use macos_wireguard_daemon.Config.Parser.Reparse.Rerun.{
  parse_connection_config-IsSame, fingerprint-same,
}
use macos_wireguard_daemon.Daemon.Dispatch.Mtu.{conf_tools}
use macos_wireguard_daemon.Daemon.Dispatch.Tunnel.{TunnelOps}
use macos_wireguard_daemon.Daemon.Dispatch.Invariants.{IsReachable}
use macos_wireguard_daemon.Daemon.Dispatch.Parsed.{reachable-IsParsedBy}
use macos_wireguard_daemon.Daemon.Operations.{HelperStart, Machine, reparse_and_verify, disconnect}
use macos_wireguard_daemon.Daemon.Operations.Connect.{connect}
use macos_wireguard_daemon.Daemon.Operations.Keep.{IsKeeping, disconnect-Kept}
use macos_wireguard_daemon.Daemon.Operations.Start.{connect-Kept}

module _ {N : Type 0} where
  -- No call on the machine writes a record: the records are the daemon's own.
  pub record IsQuiet (machine : Machine N (Store N)) : Type 0 where
    pub keeps :
        (es : List (ℕ × Result AppError (StoredConnection N)))
        → IsKeeping machine (λ st. st.entries ≡ es)
    pub starts :
        (start : HelperStart N) (st : Store N)
        → (machine.gotatun_up start st).1.entries ≡ st.entries

  module _ ⦃q : Eq N⦄ (net : IpNetOps N) (sha256 : List ℕ → List ℕ) where
    -- The tunnels of such a machine; what a text parses to may differ from call to call.
    unfoldable pub tunnel_of :
        (Store N → Text → Result AppError (ConnectionConfig N))
        → (machine : Machine N (Store N)) → IsQuiet machine
        → TunnelOps N
    unfolding connect disconnect
    tunnel_of parse_in machine quiet = record {
      connect = λ id debug st. connect machine (parse_in st) net sha256 id debug st;
      disconnect = λ id st. disconnect machine (parse_in st) id st;
      connect-entries = λ id debug st.
          connect-Kept (parse_in st) net sha256 machine (λ st'. st'.entries ≡ st.entries)
            (quiet.keeps st.entries) (λ start st' s h. quiet.starts start st' ∙ h) id debug st refl;
      disconnect-entries = λ id st.
          (disconnect-Kept machine (λ st'. st'.entries ≡ st.entries) (quiet.keeps st.entries)
            (parse_in st) id st refl).value;
    }

    -- In a store that requests lead to from an empty one, with the daemon's own parser and whatever the
    -- resolver answered to each, no record is refused as stale when it is connected: with whatever the
    -- resolver answers then, if its text parses it has the fingerprint that is stored, and the
    -- configuration is the stored one but for the addresses that the resolver gave.
    pub reachable_verifies :
        ⦃f : Eq (BypassLink N)⦄
        → (texts : NetText N) (tools : ParserTools N)
          (resolve : Text → ℕ → Result AppError SocketAddr) (st : Store N) (id : ℕ)
          (c : StoredConnection N) (config : ConnectionConfig N)
        → IsReachable net (λ answers. conf_tools texts (with_resolver tools answers) sha256) st
        → load_in st.entries id ≡ ok (some c)
        → parse_connection_config (with_resolver tools resolve) c.raw_conf ≡ ok config
        → let parse = parse_connection_config (with_resolver tools resolve) in
          (reparse_and_verify parse net sha256 c ≡ ok config) × IsSame c.config config
    unfolding reparse_and_verify conf_tools
    reachable_verifies texts tools resolve st id c config r l p =
        let (answers, (parses, prints)) =
          reachable-IsParsedBy net
            (λ (a : Text → ℕ → Result AppError SocketAddr).
              conf_tools texts (with_resolver tools a) sha256)
            st r id c l in
        let alike =
          parse_connection_config-IsSame (with_resolver tools answers) resolve c.raw_conf c.config
            config parses p in
        let now : fingerprint net sha256 config ≡ c.fingerprint =
          fingerprint-same net sha256 c.config config alike ∙ sym prints in
        (ground (arith, p, now, ==_iff (fingerprint net sha256 config) c.fingerprint), alike)
