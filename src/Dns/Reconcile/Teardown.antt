-- ===== src/Dns/Reconcile/Teardown.antt =====
-- What `restore_macos_dns_services` and `configure_macos_dns` do to a user's settings.
use macos_wireguard_daemon.Prelude.{
  ◌≡◌, ◌≢◌, refl, ◌∙◌, false, ◌||◌, some, is_some, List, [], ◌∷◌, ◌++◌, Text, arith, ◌==◌, ==_iff,
  List_eq, ℕ_eq, find, is_ok, Result-cases, Bool-cases, inl, inr, if◌then◌else◌,
}
use macos_wireguard_daemon.Net.{Subnet}
use macos_wireguard_daemon.MacosDns.{set_dns_servers, set_search_domains_empty}
use macos_wireguard_daemon.Dns.{
  MacosDnsServiceState, targets, dns_decision, dns_policy, macos_dns_server_in_local_subnet,
}
use macos_wireguard_daemon.Dns.Reconcile.{
  DnsInputs, DnsHost, capture_macos_dns_service, restore_macos_dns_service, persist_dns_custody,
  macos_current_dns_fingerprint,
}
use macos_wireguard_daemon.Dns.Reconcile.Settings.{
  Settings, IsSettings, IsSettable, saved_of, original_of,
}
use macos_wireguard_daemon.Dns.Reconcile.Kept.{
  persist-live, restore-others, restore_lem, capture_one, set_dns-others, clear_search-others,
}
use macos_wireguard_daemon.Dns.Reconcile.Ticks.{
  restore_each, reverse, restore_macos_dns_services, configure_services, configure_macos_dns,
}

saved_of-append :
    (xs ys : List MacosDnsServiceState) (t : Text)
    → is_some (saved_of (xs ++ ys) t) ≡ (is_some (saved_of xs t) || is_some (saved_of ys t))
unfolding saved_of find
saved_of-append [] ys t = refl
saved_of-append (x ∷ xs) ys t = ground (arith, saved_of-append xs ys t)

module _ {C W : Type 0} (host : DnsHost C W) where
  restore_each-append :
      (xs ys : List MacosDnsServiceState) (w : W)
      → let (failed, w1) = restore_each host xs w in
        let (failed', w2) = restore_each host ys w1 in
        restore_each host (xs ++ ys) w ≡ (failed ++ failed', w2)
  unfolding restore_each
  restore_each-append [] ys w = refl
  restore_each-append (x ∷ xs) ys w =
      let (result, w') = restore_macos_dns_service host x w in
      ground (arith, restore_each-append xs ys w')

module _ {C W : Type 0} (host : DnsHost C W) (live : W → Text → Settings)
    (settings : IsSettings host live) where
  restore_each_lem :
      (services : List MacosDnsServiceState) (w : W) (t : Text)
      → IsSettable (original_of live services w t)
      → let (failed, w') = restore_each host (reverse services) w in
        is_some (saved_of failed t) ≡ false → live w' t ≡ original_of live services w t
  unfolding restore_each saved_of find original_of
  restore_each_lem [] w t h n = refl
  restore_each_lem (s ∷ rest) w t h n =
      let (failed, w1) = restore_each host (reverse rest) w in
      let both = restore_each-append host (reverse rest) (s ∷ []) w in
      let last : List MacosDnsServiceState =
        (if is_ok (restore_macos_dns_service host s w1).0 then [] else s ∷ []) in
      let clear : (is_some (saved_of failed t) || is_some (saved_of last t)) ≡ false =
        ground (arith, n, both, saved_of-append failed last t) in
      elim (Bool-cases (s.service == t)) [
        | inl q ↦
            ground
              (arith, q, h, both, clear, ==_iff s.service t, restore_lem host live settings s w1)
        | inr q ↦
            let same : original_of live (s ∷ rest) w t ≡ original_of live rest w t =
              ground (arith, q) in
            let h' : IsSettable (original_of live rest w t) = rw (← same) h in
            ground (
              arith,
              q,
              both,
              ==_iff s.service t,
              restore-others host live settings s t w1,
              restore_each_lem rest w t h' (ground (arith, clear)),
            )
      ]

  -- Teardown gives a service back its original settings, unless the service is among those that it
  -- reports as failed. The conditions are that the settings can be set and that `networksetup` acts on
  -- settings as documented.
  pub restore_macos_dns_services_lem :
      (services : List MacosDnsServiceState) (inputs : DnsInputs C) (w : W) (t : Text)
      → IsSettable (original_of live services w t)
      → is_some (saved_of (restore_macos_dns_services host services inputs w).0 t) ≡ false
      → live (restore_macos_dns_services host services inputs w).1 t ≡ original_of live services w t
  unfolding restore_macos_dns_services
  restore_macos_dns_services_lem services inputs w t h n =
      let (failed, w1) = restore_each host (reverse services) w in
      ground (
        arith,
        restore_each_lem services w t h n,
        persist-live host live settings failed inputs w1 t,
        settings.flushes t (persist_dns_custody host failed inputs w1),
      )

  -- Where a service is owned or untouched, its original settings are.
  moved_lem :
      (services : List MacosDnsServiceState) (w w' : W) (t : Text)
      → (is_some (saved_of services t) ≡ false → live w' t ≡ live w t)
      → original_of live services w' t ≡ original_of live services w t
  unfolding original_of
  moved_lem services w w' t h = ground (arith, h)

  configure_services_lem :
      (inputs : DnsInputs C) (todo : List Text) (saved : List MacosDnsServiceState) (w : W)
      (t : Text)
      → (original_of live saved w t).0 ≢ some inputs.dns_servers
      → let (result, saved', w') = configure_services host inputs todo saved w in
        original_of live saved' w' t ≡ original_of live saved w t
  unfolding configure_services
  configure_services_lem inputs [] saved w t h = refl
  configure_services_lem inputs (svc ∷ rest) saved w t h =
      elim (Result-cases (capture_macos_dns_service host svc inputs.dns_servers w)) [
        | inr (e, q) ↦ ground (arith, q)
        | inl (c, q) ↦
            let one = capture_one host live settings c inputs.dns_servers saved w svc t h q in
            let saved' = saved ++ c ∷ [] in
            let w1 = persist_dns_custody host saved' inputs w in
            let w2 : W = (set_dns_servers host.setup svc inputs.dns_servers w1).1 in
            let w3 : W = (set_search_domains_empty host.setup svc w2).1 in
            let p = persist-live host live settings saved' inputs w t in
            let d = set_dns-others host live settings svc t inputs.dns_servers w1 in
            let x = clear_search-others host live settings svc t w2 in
            let m2 : original_of live saved' w2 t ≡ original_of live saved w t =
              moved_lem saved' w w2 t (λ n. ground (arith, n, one, p, d, ==_iff svc t)) ∙ one.0 in
            let m3 : original_of live saved' w3 t ≡ original_of live saved w t =
              moved_lem saved' w w3 t (λ n. ground (arith, n, one, p, d, x, ==_iff svc t))
              ∙ one.0 in
            ground (arith, q, m2, m3, configure_services_lem inputs rest saved' w3 t (rw m3 h))
      ]

  -- Connecting keeps every service's original settings, and a failure part-way does too: what was
  -- changed by then is saved. The conditions are that they are not the tunnel's own DNS and that `networksetup`
  -- acts on settings as documented.
  pub configure_macos_dns_keeps_original :
      (inputs : DnsInputs C) (local_subnets : List Subnet) (saved : List MacosDnsServiceState)
      (w : W) (t : Text)
      → (original_of live saved w t).0 ≢ some inputs.dns_servers
      → let (result, saved', w') = configure_macos_dns host inputs local_subnets saved w in
        original_of live saved' w' t ≡ original_of live saved w t
  unfolding configure_macos_dns
  configure_macos_dns_keeps_original inputs local_subnets saved w t h =
      elim (Result-cases (macos_current_dns_fingerprint host w)) [
        | inl (fp, q) ↦
            let collision =
              is_some (macos_dns_server_in_local_subnet inputs.dns_servers local_subnets) in
            ground (
              arith,
              q,
              configure_services_lem inputs (targets (dns_decision dns_policy fp collision)) saved w
                  t h,
            )
        | inr (e, q) ↦ ground (arith, q)
      ]
