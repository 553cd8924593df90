-- ===== src/Dns.antt =====
-- The DNS decisions of src/userspace_helper/macos/dns_plan.rs, and the DNS types of
-- src/userspace_helper/macos/mod.rs.
pub mod Plan
pub mod Reconcile
use macos_wireguard_daemon.Prelude.{
  ℕ, Bool, true, false, not, ◌&&◌, ◌||◌, Option, none, some, is_some, find_map, List, [], ◌∷◌, ◌++◌,
  Text, Eq, ◌==◌, List_eq, Option_eq, ℕ_eq, ℕ_discrete, List_dec, Option_dec, any, find, contains,
  is_empty, retain, if◌then◌else◌,
}
use macos_wireguard_daemon.Prelude.Options.{◌>>=◌}
use macos_wireguard_daemon.Net.{Subnet, macos_subnet_contains}
use macos_wireguard_daemon.Net.Parse.{IpAddr, is_ipv4, parse_ip}

-- What a snapshot of the DNS environment sees.
pub record MacosDnsFingerprint : Type 0 where
  pub primary_service : Option Text
  pub services : List Text
  pub observed : List (Text × Option (List Text))

unfoldable pub MacosDnsFingerprint_dec : Discrete MacosDnsFingerprint
MacosDnsFingerprint_dec = hlevel ℕ_discrete

instance abbrev pub MacosDnsFingerprint_eq : Eq MacosDnsFingerprint
MacosDnsFingerprint_eq = record { dec = MacosDnsFingerprint_dec }

-- An owned service with its original settings.
pub record MacosDnsServiceState : Type 0 where
  pub service : Text
  pub dns_servers : Option (List Text)
  pub search_domains : Option (List Text)

pub record MacosDnsState : Type 0 where
  pub services : List MacosDnsServiceState
  pub fingerprint : MacosDnsFingerprint

pub data DnsPolicy : Type 0 where
  all_services primary_only : DnsPolicy

-- `DNS_POLICY`
abbrev pub dns_policy : DnsPolicy
dns_policy = primary_only

pub data DnsDecision : Type 0 where
  apply : List Text → DnsDecision
  restore_all hold : DnsDecision

-- The services to own after a decision.
abbrev pub targets : DnsDecision → List Text
targets (apply services) = services
targets restore_all = []
targets hold = []

unfoldable pub dns_decision : DnsPolicy → MacosDnsFingerprint → Bool → DnsDecision
dns_decision policy fp true = restore_all
dns_decision all_services fp false = apply fp.services
dns_decision primary_only fp false = elim fp.primary_service [
  | none ↦ hold
  | some primary ↦ if any (λ s. s == primary) fp.services then apply (primary ∷ []) else hold
]

-- What one configured server collides with: the closure of `find_map`.
unfoldable pub server_collision : List Subnet → Text → Option (IpAddr × Subnet)
server_collision local_subnets server = do
  ip ← parse_ip server
  let host : Subnet = (ip, (if is_ipv4 ip then 32 else 128))
  subnet ← find (λ local. macos_subnet_contains local host) local_subnets
  some (ip, subnet)

-- A configured server inside a connected subnet, with that subnet.
unfoldable pub macos_dns_server_in_local_subnet : List Text → List Subnet → Option (IpAddr × Subnet)
unfolding server_collision
macos_dns_server_in_local_subnet dns_servers local_subnets =
    find_map (server_collision local_subnets) dns_servers

pub record DnsActions : Type 0 where
  pub capture : List Text
  pub restore : List Text
  pub drop : List Text
  pub apply : List Text

-- The live DNS that the snapshot saw of a service.
unfoldable pub observed_of : MacosDnsFingerprint → Text → Option (List Text)
observed_of fp svc = do (_, dns) ← find (λ entry. entry.0 == svc) fp.observed; dns

unfoldable pub shows_tunnel : List Text → MacosDnsFingerprint → Text → Bool
unfolding observed_of
shows_tunnel tunnel_dns fp svc = observed_of fp svc == some tunnel_dns

-- One round of the loop over the targets.
unfoldable pub plan_target :
    List Text → MacosDnsFingerprint → List Text → Text → DnsActions → DnsActions
unfolding shows_tunnel
plan_target tunnel_dns fp owned svc actions =
    let matches_tunnel = shows_tunnel tunnel_dns fp svc in
    let captured =
      if not (any (λ s. s == svc) owned) then actions.capture ++ svc ∷ [] else actions.capture in
    record actions {
      capture = captured;
      apply = if not matches_tunnel then actions.apply ++ svc ∷ [] else actions.apply;
    }

unfoldable pub plan_targets :
    List Text → MacosDnsFingerprint → List Text → List Text → DnsActions → DnsActions
unfolding plan_target
plan_targets tunnel_dns fp owned [] actions = actions
plan_targets tunnel_dns fp owned (svc ∷ rest) actions =
    plan_targets tunnel_dns fp owned rest (plan_target tunnel_dns fp owned svc actions)

-- One round of the loop over the owned services.
unfoldable pub plan_release : MacosDnsFingerprint → List Text → Text → DnsActions → DnsActions
plan_release fp targets svc actions =
    if any (λ s. s == svc) targets
    then actions
    else if any (λ s. s == svc) fp.services
    then record actions { restore = actions.restore ++ svc ∷ [] }
    else record actions { drop = actions.drop ++ svc ∷ [] }

unfoldable pub plan_releases : MacosDnsFingerprint → List Text → List Text → DnsActions → DnsActions
unfolding plan_release
plan_releases fp targets [] actions = actions
plan_releases fp targets (svc ∷ rest) actions =
    plan_releases fp targets rest (plan_release fp targets svc actions)

unfoldable pub plan_dns_actions :
    List Text → MacosDnsFingerprint → List Text → List Text → DnsActions
unfolding plan_targets plan_releases
plan_dns_actions tunnel_dns fp owned targets = plan_releases fp targets owned (
    plan_targets tunnel_dns fp owned targets
      (record { capture = []; restore = []; drop = []; apply = [] }))

-- Whether to act although the fingerprint did not change.
unfoldable pub dns_reconcile_forced : Bool → List Text → List Text → Bool
dns_reconcile_forced collision_present owned targets =
    let must_pull_back = collision_present && not (is_empty owned) in
    let must_reassert = not collision_present && any (λ t. not (contains owned t)) targets in
    must_pull_back || must_reassert
