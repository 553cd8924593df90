-- ===== src/Dns/Reconcile/Ticks.antt =====
-- `macos_reconcile_dns`, `configure_macos_dns` and `restore_macos_dns_services` of
-- src/userspace_helper/macos/dns.rs, composed from the loops.
use macos_wireguard_daemon.Prelude.{
  ℕ, Bool, true, false, not, ◌&&◌, none, some, is_some, List, [], ◌∷◌, ◌++◌, map, Text, ◌==◌,
  is_empty, Result, ok, err, is_ok, if◌then◌else◌, ltb, length, ◌+◌,
}
use macos_wireguard_daemon.Net.{Subnet}
use macos_wireguard_daemon.MacosDns.{set_dns_servers, set_search_domains_empty}
use macos_wireguard_daemon.Dns.{
  MacosDnsFingerprint, MacosDnsFingerprint_eq, MacosDnsServiceState, MacosDnsState, dns_policy,
  DnsDecision, hold, targets, dns_decision, macos_dns_server_in_local_subnet, plan_dns_actions,
  dns_reconcile_forced,
}
use macos_wireguard_daemon.Dns.Reconcile.{
  shadow, active, DnsInputs, DnsHost, CleanupDns, macos_current_dns_fingerprint,
  capture_macos_dns_service, restore_macos_dns_service, persist_dns_custody, set_wanted,
  capture_all, release_all, drop_all, assert_all,
}

abbrev pub owned_of : MacosDnsState → List Text
owned_of dns = map (λ s. s.service) dns.services

-- `decision == DnsDecision::Hold`
abbrev pub is_hold : DnsDecision → Bool
is_hold hold = true
is_hold _ = false

abbrev pub reverse : List MacosDnsServiceState → List MacosDnsServiceState
reverse [] = []
reverse (s ∷ rest) = reverse rest ++ s ∷ []

module _ {C W : Type 0} (host : DnsHost C W) where
  -- The fingerprint to remember, once the loops are through.
  unfoldable pub fingerprint_after : ℕ → MacosDnsFingerprint → W → MacosDnsFingerprint
  fingerprint_after changed fingerprint w =
      if ltb 0 changed
      then elim (macos_current_dns_fingerprint host w) [ ok fresh ↦ fresh | err _ ↦ fingerprint ]
      else fingerprint

  -- The part of a reconcile behind its guards.
  unfoldable pub act_on :
      DnsInputs C → MacosDnsFingerprint → List Text → MacosDnsState → W → MacosDnsState × W
  unfolding plan_dns_actions capture_all release_all drop_all assert_all fingerprint_after
  act_on inputs fingerprint wanted dns w =
      let actions = plan_dns_actions inputs.dns_servers fingerprint (owned_of dns) wanted in
      let (taken, captured, capture_failed) =
        capture_all host inputs.dns_servers actions.capture dns.services 0 w in
      let (released, restored, w1) = release_all host actions.restore taken 0 w in
      let kept = drop_all actions.drop released in
      let w2 =
        if ltb 0 (captured + restored + length actions.drop)
        then persist_dns_custody host kept inputs w1
        else w1 in
      let (applied, w3) = assert_all host inputs.dns_servers capture_failed actions.apply 0 w2 in
      (
        record {
          services = kept;
          fingerprint = fingerprint_after (applied + restored) fingerprint w3;
        },
        w3,
      )

  -- `if let Some(key)`: tell the key's owner whether the key is wanted.
  unfoldable pub want_key : Bool → CleanupDns → W → Bool × CleanupDns × W
  unfolding set_wanted
  want_key wanted state w = elim state.dns_store_key [
    | none ↦ (false, state, w)
    | some key ↦
        let (changed, key', w') = set_wanted host key wanted w in
        (changed, record state { dns_store_key = some key' }, w')
  ]

  -- The part of a reconcile behind the snapshot.
  unfoldable pub reconcile_seen :
      DnsInputs C → MacosDnsFingerprint → Bool → CleanupDns → W → Bool × CleanupDns × W
  unfolding dns_decision act_on
  reconcile_seen inputs fingerprint collision state w =
      let decision = dns_decision dns_policy fingerprint collision in
      if is_hold decision
      then (false, state, w)
      else if fingerprint == state.dns.fingerprint
          && not (dns_reconcile_forced collision (owned_of state.dns) (targets decision))
      then (false, state, w)
      else (let (dns, w') = act_on inputs fingerprint (targets decision) state.dns w in
          (true, record state { dns = dns }, w'))

  unfoldable pub macos_reconcile_dns : DnsInputs C → CleanupDns → W → Bool × CleanupDns × W
  unfolding reconcile_seen want_key
  macos_reconcile_dns inputs state w =
      let local_subnets = host.local_connected_subnets inputs.interface w in
      let collision = is_some (macos_dns_server_in_local_subnet inputs.dns_servers local_subnets) in
      if is_empty inputs.dns_servers then (false, state, w) else elim inputs.dns_mode [
        | active ↦ want_key (not collision) state w
        | shadow ↦ elim (macos_current_dns_fingerprint host w) [
          | err _ ↦ (false, state, w)
          | ok fingerprint ↦
              (let (_, asked, w') = want_key (not collision) state w in
                reconcile_seen inputs fingerprint collision asked w')
        ]
      ]

  -- The loop at connect. What was saved before an error stays saved.
  unfoldable pub configure_services :
      DnsInputs C
      → List Text
      → List MacosDnsServiceState
      → W
      → Result Text (Unit {0}) × List MacosDnsServiceState × W
  configure_services inputs [] saved w = (ok tt, saved, w)
  configure_services inputs (service ∷ rest) saved w =
      elim (capture_macos_dns_service host service inputs.dns_servers w) [
        | err error ↦ (err error, saved, w)
        | ok captured ↦
            (let saved' = saved ++ captured ∷ [] in
              let (result, w') =
                set_dns_servers host.setup service inputs.dns_servers
                  (persist_dns_custody host saved' inputs w) in
              elim result [
                | err error ↦ (err error, saved', w')
                | ok _ ↦
                    (let (result', w'') = set_search_domains_empty host.setup service w' in
                      elim result' [
                        | err error ↦ (err error, saved', w'')
                        | ok _ ↦ configure_services inputs rest saved' w''
                      ])
              ])
      ]

  unfoldable pub configure_macos_dns :
      DnsInputs C
      → List Subnet
      → List MacosDnsServiceState
      → W
      → Result Text MacosDnsFingerprint × List MacosDnsServiceState × W
  unfolding configure_services
  configure_macos_dns inputs local_subnets saved w =
      if is_empty inputs.dns_servers
      then (ok (record { primary_service = none; services = []; observed = [] }), saved, w)
      else elim (macos_current_dns_fingerprint host w) [
        | err error ↦ (err error, saved, w)
        | ok fingerprint ↦
            (let collision =
                is_some (macos_dns_server_in_local_subnet inputs.dns_servers local_subnets) in
              let (result, saved', w') =
                configure_services inputs (targets (dns_decision dns_policy fingerprint collision))
                  saved w in
              (
                elim result [
                  | err error ↦ err error
                  | ok _ ↦ ok (elim (macos_current_dns_fingerprint host w') [
                    | ok fresh ↦ fresh
                    | err _ ↦ fingerprint
                  ])
                ],
                saved',
                w',
              ))
      ]

  -- The loop of the teardown: the services that failed.
  unfoldable pub restore_each : List MacosDnsServiceState → W → List MacosDnsServiceState × W
  restore_each [] w = ([], w)
  restore_each (service ∷ rest) w =
      let (result, w') = restore_macos_dns_service host service w in
      let (failed, w'') = restore_each rest w' in
      (if is_ok result then failed else service ∷ failed, w'')

  -- The services whose restore failed stand for the messages about them.
  unfoldable pub restore_macos_dns_services :
      List MacosDnsServiceState → DnsInputs C → W → List MacosDnsServiceState × W
  unfolding restore_each
  restore_macos_dns_services services inputs w =
      let (failed, w') = restore_each (reverse services) w in
      let w'' = persist_dns_custody host failed inputs w' in
      (failed, if ltb (length failed) (length services) then host.flush_resolver_cache w'' else w'')
