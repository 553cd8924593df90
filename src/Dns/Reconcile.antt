-- ===== src/Dns/Reconcile.antt =====
-- src/userspace_helper/macos/dns.rs: capturing, asserting and restoring the tunnel's DNS.
--
-- Log lines are left out, and with them the counters that only they read. The two tests on counters
-- are made on what the counters count.
pub mod Kept
pub mod Loops
pub mod Custody
pub mod Teardown
pub mod Ticks
pub mod Settings
use macos_wireguard_daemon.Prelude.{
  ◌≡◌, refl, ℕ, suc, Bool, true, false, not, ◌&&◌, ◌||◌, Option, none, some, is_none, List, [], ◌∷◌,
  ◌++◌, map, Text, Eq, ◌==◌, List_eq, Option_eq, ℕ_eq, any, find, contains, is_empty, retain,
  Result, ok, err, is_ok, if◌then◌else◌, ltb, text_leb, text, ◌+◌, Bool_eq, length,
}
use macos_wireguard_daemon.Prelude.Results.{◌>>=◌}
use macos_wireguard_daemon.Net.{Subnet}
use macos_wireguard_daemon.MacosDns.{
  NetworkSetup, list_network_services, get_dns_servers, get_search_domains, set_dns_servers,
  set_search_domains_empty, restore_service,
}
use macos_wireguard_daemon.Dns.{
  MacosDnsFingerprint, MacosDnsFingerprint_eq, MacosDnsServiceState, MacosDnsState, dns_policy,
  DnsDecision, apply, restore_all, hold, targets, dns_decision, macos_dns_server_in_local_subnet,
  plan_dns_actions, dns_reconcile_forced,
}

pub data StoreKeyMode : Type 0 where
  shadow active : StoreKeyMode

-- The fields of `MacosReconcileInputs` that DNS reads; `C` is the custody identity.
pub record DnsInputs (C : Type 0) : Type 0 where
  pub interface : Text
  pub dns_servers : List Text
  pub custody : Option C
  pub dns_mode : StoreKeyMode

-- What the helper asks of the host besides `networksetup`. The custody calls write files;
-- `send_want` sends the key's owner a command.
pub record DnsHost (C W : Type 0) : Type 0 where
  pub setup : NetworkSetup W
  pub primary_service : W → Option Text
  pub local_connected_subnets : Text → W → List Subnet
  pub remove_record : C → W → Result Text (Unit {0}) × W
  pub write_record : C → List Text → List MacosDnsServiceState → W → Result Text (Unit {0}) × W
  pub ensure_watch_sentinel : W → Result Text (Unit {0}) × W
  pub send_want : Bool → W → W
  pub flush_resolver_cache : W → W

-- The DNS part of `MacosCleanupState`. The store key is the state last asked of its owner.
pub record CleanupDns : Type 0 where
  pub dns : MacosDnsState
  pub dns_store_key : Option Bool

abbrev insert_sorted : Text → List Text → List Text
insert_sorted a [] = a ∷ []
insert_sorted a (b ∷ rest) =
    let further = insert_sorted a rest in if text_leb a b then a ∷ b ∷ rest else b ∷ further

-- `sort()`
abbrev pub sort : List Text → List Text
sort [] = []
sort (a ∷ rest) = insert_sorted a (sort rest)

-- `dedup()`, which drops the later of equal neighbours.
abbrev pub dedup : List Text → List Text
dedup [] = []
dedup (a ∷ []) = a ∷ []
dedup (a ∷ b ∷ rest) = let others = dedup (b ∷ rest) in if a == b then others else a ∷ others

abbrev pub forget : Text → List MacosDnsServiceState → List MacosDnsServiceState
forget svc services = retain (λ s. not (s.service == svc)) services

unfoldable pub drop_all : List Text → List MacosDnsServiceState → List MacosDnsServiceState
drop_all [] services = services
drop_all (svc ∷ rest) services = drop_all rest (forget svc services)

module _ {C W : Type 0} (host : DnsHost C W) where
  -- One service's DNS in a snapshot; a failed read counts as unset.
  unfoldable pub observe : W → Text → Text × Option (List Text)
  observe w svc = elim (get_dns_servers host.setup svc w) [
    | ok dns ↦ (svc, dns)
    | err _ ↦ (svc, none)
  ]

  unfoldable pub macos_current_dns_fingerprint : W → Result Text MacosDnsFingerprint
  unfolding observe
  macos_current_dns_fingerprint w = elim (list_network_services host.setup w) [
    | err _ ↦ err (text "listing macOS network services")
    | ok listed ↦
        if is_empty listed
        then err (text "networksetup -listallnetworkservices returned no services")
        else ok (record {
          primary_service = host.primary_service w;
          services = dedup (sort listed);
          observed = map (observe w) (dedup (sort listed));
        })
  ]

  -- A service's settings, to be restored later.
  unfoldable pub capture_macos_dns_service : Text → List Text → W → Result Text MacosDnsServiceState
  capture_macos_dns_service service tunnel_dns w = do
    dns ← get_dns_servers host.setup service w
    if dns == some tunnel_dns
        then ok (record { service = service; dns_servers = none; search_domains = none })
        else (do
          search ← get_search_domains host.setup service w
          ok (record { service = service; dns_servers = dns; search_domains = search }))

  unfoldable pub restore_macos_dns_service : MacosDnsServiceState → W → Result Text (Unit {0}) × W
  restore_macos_dns_service state =
      restore_service host.setup state.service state.dns_servers state.search_domains

  -- Best effort: a failure is only logged.
  unfoldable pub persist_dns_custody : List MacosDnsServiceState → DnsInputs C → W → W
  persist_dns_custody services inputs w = elim inputs.custody [
    | none ↦ w
    | some identity ↦
        if is_empty inputs.dns_servers
        then w
        else if is_empty services
        then (host.remove_record identity w).1
        else (let (result, w') = host.write_record identity inputs.dns_servers services w in
            elim result [ err _ ↦ w' | ok _ ↦ (host.ensure_watch_sentinel w').1 ])
  ]

  -- `DnsStoreKey::set_wanted`: whether this changed the request, the request, and the world.
  unfoldable pub set_wanted : Bool → Bool → W → Bool × Bool × W
  set_wanted key wanted w =
      if key == wanted then (false, wanted, w) else (true, wanted, host.send_want wanted w)

  -- The first loop of a reconcile: the owned services, how many were captured, and those whose
  -- capture failed.
  unfoldable pub capture_all :
      List Text
      → List Text
      → List MacosDnsServiceState
      → ℕ
      → W
      → List MacosDnsServiceState × ℕ × List Text
  unfolding capture_macos_dns_service
  capture_all tunnel_dns [] services captured w = (services, captured, [])
  capture_all tunnel_dns (svc ∷ rest) services captured w =
      elim (capture_macos_dns_service svc tunnel_dns w) [
        | ok saved ↦ capture_all tunnel_dns rest (services ++ saved ∷ []) (suc captured) w
        | err _ ↦
            let (after, count, failed) = capture_all tunnel_dns rest services captured w in
            (after, count, svc ∷ failed)
      ]

  -- One round of the second loop: the owned services, how many were restored, and the world.
  unfoldable pub release_one :
      Text → List MacosDnsServiceState → ℕ → W → List MacosDnsServiceState × ℕ × W
  unfolding restore_macos_dns_service
  release_one svc services restored w = elim (find (λ s. s.service == svc) services) [
    | none ↦ (forget svc services, restored, w)
    | some saved ↦
        (let (result, w') = restore_macos_dns_service saved w in
          if is_ok result
          then (forget svc services, suc restored, w')
          else (services, restored, w'))
  ]

  unfoldable pub release_all :
      List Text → List MacosDnsServiceState → ℕ → W → List MacosDnsServiceState × ℕ × W
  unfolding release_one
  release_all [] services restored w = (services, restored, w)
  release_all (svc ∷ rest) services restored w =
      let (services', restored', w') = release_one svc services restored w in
      release_all rest services' restored' w'

  -- One round of the last loop.
  unfoldable pub assert_one : List Text → List Text → Text → ℕ → W → ℕ × W
  assert_one tunnel_dns capture_failed svc applied w =
      if contains capture_failed svc
      then (applied, w)
      else (let (result, w') = set_dns_servers host.setup svc tunnel_dns w in
          if is_ok result
          then (let (result', w'') = set_search_domains_empty host.setup svc w' in
              if is_ok result' then (suc applied, w'') else (applied, w''))
          else (applied, w'))

  unfoldable pub assert_all : List Text → List Text → List Text → ℕ → W → ℕ × W
  unfolding assert_one
  assert_all tunnel_dns capture_failed [] applied w = (applied, w)
  assert_all tunnel_dns capture_failed (svc ∷ rest) applied w =
      let (applied', w') = assert_one tunnel_dns capture_failed svc applied w in
      assert_all tunnel_dns capture_failed rest applied' w'
