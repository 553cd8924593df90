-- ===== src/Dns/Reconcile/Custody.antt =====
-- A tick of `macos_reconcile_dns` of src/userspace_helper/macos/dns.rs, and a user's settings.
use macos_wireguard_daemon.Prelude.{
  ◌≡◌, ◌≢◌, refl, ◌+◌, Bool, true, not, some, is_some, List, [], ◌∷◌, Text, arith, List_eq, ℕ_eq,
  contains, find, length, ltb, ok, Option-cases, inl, inr, if◌then◌else◌, map,
}
use macos_wireguard_daemon.Dns.{
  MacosDnsFingerprint, MacosDnsFingerprint_eq, MacosDnsServiceState, MacosDnsState,
  plan_dns_actions, dns_policy, dns_decision, targets, macos_dns_server_in_local_subnet,
}
use macos_wireguard_daemon.Dns.Plan.{plan_dns_actions_lem}
use macos_wireguard_daemon.Dns.Reconcile.{
  DnsInputs, DnsHost, CleanupDns, macos_current_dns_fingerprint, persist_dns_custody, capture_all,
  release_all, drop_all, assert_all, set_wanted,
}
use macos_wireguard_daemon.Dns.Reconcile.Settings.{
  Settings, IsSettings, IsSettable, saved_of, original_of, original_lem,
}
use macos_wireguard_daemon.Dns.Reconcile.Kept.{persist-live}
use macos_wireguard_daemon.Dns.Reconcile.Loops.{
  capture_all_lem, release_all_lem, drop_all_lem, assert_all_lem,
}
use macos_wireguard_daemon.Dns.Reconcile.Ticks.{
  owned_of, act_on, want_key, reconcile_seen, macos_reconcile_dns,
}

-- Being owned, by the list of names and by the search.
owned_lem :
    (services : List MacosDnsServiceState) (s : Text)
    → contains (map (λ a. a.service) services) s ≡ is_some (saved_of services s)
unfolding contains saved_of find
owned_lem [] s = refl
owned_lem (a ∷ services) s = ground (arith, owned_lem services s)

module _ {C W : Type 0} (host : DnsHost C W) (live : W → Text → Settings)
    (settings : IsSettings host live) where
  act_on_lem :
      (inputs : DnsInputs C) (fp : MacosDnsFingerprint) (wanted : List Text) (dns : MacosDnsState)
      (w : W) (s : Text)
      → contains fp.services s ≡ true
      → IsSettable (original_of live dns.services w s)
      → (original_of live dns.services w s).0 ≢ some inputs.dns_servers
      → let (dns', w') = act_on host inputs fp wanted dns w in
        original_of live dns'.services w' s ≡ original_of live dns.services w s
  unfolding act_on
  act_on_lem inputs fp wanted dns w s listed settable free =
      let actions = plan_dns_actions inputs.dns_servers fp (owned_of dns) wanted in
      let plan = plan_dns_actions_lem inputs.dns_servers fp (owned_of dns) wanted s in
      let (taken, captured, failed) =
        capture_all host inputs.dns_servers actions.capture dns.services 0 w in
      let c =
        capture_all_lem host live settings inputs.dns_servers actions.capture dns.services 0 w s
          free in
      let (released, restored, w1) = release_all host actions.restore taken 0 w in
      let r = release_all_lem host live settings actions.restore taken 0 w s (rw c.0 settable) in
      let kept = drop_all actions.drop released in
      let d = drop_all_lem actions.drop released s (ground (arith, plan, listed)) in
      let w2 : W =
        (if ltb 0 (captured + restored + length actions.drop)
          then persist_dns_custody host kept inputs w1
          else w1) in
      let saved : live w2 s ≡ live w1 s =
        ground (arith, persist-live host live settings kept inputs w1 s) in
      elim (Option-cases (saved_of kept s)) [
        | inl n ↦
            let a =
              assert_all_lem host live settings inputs.dns_servers failed actions.apply 0 w2 s
                (λ m. ground (arith, n, d, c, r, plan, m, owned_lem dns.services s)) in
            ground (
              arith,
              n,
              d,
              c.0,
              r.0,
              a,
              saved,
              original_lem kept live
                  (assert_all host inputs.dns_servers failed actions.apply 0 w2).1 s,
              original_lem released live w1 s,
            )
        | inr (a, n) ↦ ground (
          arith,
          n,
          d,
          c.0,
          r.0,
          original_lem kept live (assert_all host inputs.dns_servers failed actions.apply 0 w2).1 s,
          original_lem released live w1 s,
        )
      ]

  want_key_lem :
      (wanted : Bool) (state : CleanupDns) (w : W) (s : Text)
      → let (changed, state', w') = want_key host wanted state w in
        (state'.dns ≡ state.dns) × (live w' s ≡ live w s)
  unfolding want_key set_wanted
  want_key_lem wanted state w s = elim (Option-cases state.dns_store_key) [
    | inl n ↦ ground (arith, n)
    | inr (key, n) ↦ ground (arith, n, settings.wants wanted s w)
  ]

  reconcile_seen_lem :
      (inputs : DnsInputs C) (fp : MacosDnsFingerprint) (collision : Bool) (state : CleanupDns)
      (w : W) (s : Text)
      → contains fp.services s ≡ true
      → IsSettable (original_of live state.dns.services w s)
      → (original_of live state.dns.services w s).0 ≢ some inputs.dns_servers
      → let (acted, state', w') = reconcile_seen host inputs fp collision state w in
        original_of live state'.dns.services w' s ≡ original_of live state.dns.services w s
  unfolding reconcile_seen
  reconcile_seen_lem inputs fp collision state w s listed settable free = ground (
    arith,
    act_on_lem inputs fp (targets (dns_decision dns_policy fp collision)) state.dns w s listed
        settable free,
  )

  -- A tick, whatever fails in it, keeps what teardown gives back to a service that its snapshot
  -- lists: the service's own settings while it is not owned, the saved ones while it is. The
  -- conditions are that these are not the tunnel's own DNS and are settings that can be set, and that
  -- `networksetup` acts on settings as documented.
  pub macos_reconcile_dns_keeps_original :
      (inputs : DnsInputs C) (fp : MacosDnsFingerprint) (state : CleanupDns) (w : W) (s : Text)
      → macos_current_dns_fingerprint host w ≡ ok fp
      → contains fp.services s ≡ true
      → IsSettable (original_of live state.dns.services w s)
      → (original_of live state.dns.services w s).0 ≢ some inputs.dns_servers
      → let (acted, state', w') = macos_reconcile_dns host inputs state w in
        original_of live state'.dns.services w' s ≡ original_of live state.dns.services w s
  unfolding macos_reconcile_dns
  macos_reconcile_dns_keeps_original inputs fp state w s seen listed settable free =
      let collision = is_some (
        macos_dns_server_in_local_subnet inputs.dns_servers
          (host.local_connected_subnets inputs.interface w)) in
      let (changed, asked, w') = want_key host (not collision) state w in
      let key = want_key_lem (not collision) state w s in
      let same : original_of live asked.dns.services w' s
          ≡ original_of live state.dns.services w s =
        rw key.0 (
          ground (
            arith,
            original_lem state.dns.services live w' s,
            original_lem state.dns.services live w s,
            key.1,
          )) in
      let tick =
        reconcile_seen_lem inputs fp collision asked w' s listed (rw same settable)
          (rw same free) in
      ground (arith, seen, same, tick)
