-- ===== src/Dns/Plan.antt =====
-- `plan_dns_actions` of src/userspace_helper/macos/dns_plan.rs.
use macos_wireguard_daemon.Prelude.{
  ◌≡◌, not, ◌&&◌, ◌||◌, List, [], ◌∷◌, Text, arith, List_eq, ℕ_eq, any-is, contains,
  contains-append,
}
use macos_wireguard_daemon.Dns.{
  MacosDnsFingerprint, DnsActions, shows_tunnel, plan_target, plan_targets, plan_release,
  plan_releases, plan_dns_actions,
}

plan_targets_lem :
    (tunnel_dns : List Text) (fp : MacosDnsFingerprint) (owned targets : List Text)
    (actions : DnsActions) (s : Text)
    → let after = plan_targets tunnel_dns fp owned targets actions in
      (contains after.capture s
        ≡ (contains actions.capture s || (contains targets s && not (contains owned s))))
      × (contains after.apply s ≡ (
          contains actions.apply s || (contains targets s && not (shows_tunnel tunnel_dns fp s))))
      × (after.restore ≡ actions.restore)
      × (after.drop ≡ actions.drop)
unfolding plan_targets plan_target contains
plan_targets_lem tunnel_dns fp owned [] actions s = ground arith
plan_targets_lem tunnel_dns fp owned (t ∷ targets) actions s = ground (
  arith,
  any-is t owned,
  contains-append actions.capture (t ∷ []) s,
  contains-append actions.apply (t ∷ []) s,
  plan_targets_lem tunnel_dns fp owned targets (plan_target tunnel_dns fp owned t actions) s,
)

plan_releases_lem :
    (fp : MacosDnsFingerprint) (targets owned : List Text) (actions : DnsActions) (s : Text)
    → let after = plan_releases fp targets owned actions in
      (contains after.restore s ≡ (
        contains actions.restore s
        || (contains owned s && not (contains targets s) && contains fp.services s)))
      × (contains after.drop s ≡ (
          contains actions.drop s
          || (contains owned s && not (contains targets s) && not (contains fp.services s))))
      × (after.capture ≡ actions.capture)
      × (after.apply ≡ actions.apply)
unfolding plan_releases plan_release contains
plan_releases_lem fp targets [] actions s = ground arith
plan_releases_lem fp targets (o ∷ owned) actions s = ground (
  arith,
  any-is o targets,
  any-is o fp.services,
  contains-append actions.restore (o ∷ []) s,
  contains-append actions.drop (o ∷ []) s,
  plan_releases_lem fp targets owned (plan_release fp targets o actions) s,
)

-- The plan captures the targets not yet owned, asserts the targets that do not show the tunnel's
-- DNS, restores the owned services that are no targets and still exist, and drops those that are
-- gone; each list holds nothing else.
pub plan_dns_actions_lem :
    (tunnel_dns : List Text) (fp : MacosDnsFingerprint) (owned targets : List Text) (s : Text)
    → let actions = plan_dns_actions tunnel_dns fp owned targets in
      (contains actions.capture s ≡ (contains targets s && not (contains owned s)))
      × (contains actions.apply s ≡ (contains targets s && not (shows_tunnel tunnel_dns fp s)))
      × (contains actions.restore s
          ≡ (contains owned s && not (contains targets s) && contains fp.services s))
      × (contains actions.drop s
          ≡ (contains owned s && not (contains targets s) && not (contains fp.services s)))
unfolding plan_dns_actions contains
plan_dns_actions_lem tunnel_dns fp owned targets s =
    let first =
      plan_targets tunnel_dns fp owned targets
        (record { capture = []; restore = []; drop = []; apply = [] }) in
    ground (
      arith,
      plan_targets_lem tunnel_dns fp owned targets
          (record { capture = []; restore = []; drop = []; apply = [] }) s,
      plan_releases_lem fp targets owned first s,
    )
