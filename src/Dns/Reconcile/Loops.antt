-- ===== src/Dns/Reconcile/Loops.antt =====
-- The four loops of `macos_reconcile_dns` in src/userspace_helper/macos/dns.rs, for one service that the snapshot lists.
use macos_wireguard_daemon.Prelude.{
  ◌≡◌, ◌≢◌, refl, sym, ap, ◌∙◌, ℕ, suc, true, false, ◌||◌, some, is_some, List, [], ◌∷◌, ◌++◌, Text,
  arith, ◌==◌, ==_iff, List_eq, Option_eq, ℕ_eq, find, contains, Result-cases, Option-cases, inl,
  inr,
}
use macos_wireguard_daemon.MacosDns.{set_dns_servers}
use macos_wireguard_daemon.Dns.{MacosDnsServiceState}
use macos_wireguard_daemon.Dns.Reconcile.{
  DnsHost, forget, capture_macos_dns_service, capture_all, release_one, release_all, drop_all,
  assert_one, assert_all,
}
use macos_wireguard_daemon.Dns.Reconcile.Settings.{
  Settings, IsSettings, IsSettable, saved_of, original_of, saved_of-forget,
}
use macos_wireguard_daemon.Dns.Reconcile.Kept.{
  set_dns-others, clear_search-others, restore-others, restore_lem, capture_one,
}

-- The service that a search for one finds bears its name.
saved_of_lem :
    (services : List MacosDnsServiceState) (s : Text) (saved : MacosDnsServiceState)
    → saved_of services s ≡ some saved
    → saved.service ≡ s
unfolding saved_of find
saved_of_lem [] s saved h = cc
saved_of_lem (a ∷ services) s saved h =
    ground (arith, h, ==_iff a.service s, saved_of_lem services s saved)

pub drop_all_lem :
    (todo : List Text) (services : List MacosDnsServiceState) (s : Text)
    → contains todo s ≡ false
    → saved_of (drop_all todo services) s ≡ saved_of services s
unfolding drop_all contains
drop_all_lem [] services s h = refl
drop_all_lem (svc ∷ rest) services s h =
    ground (arith, h, saved_of-forget svc services s, drop_all_lem rest (forget svc services) s)

module _ {C W : Type 0} (host : DnsHost C W) (live : W → Text → Settings)
    (settings : IsSettings host live) where
  pub capture_all_lem :
      (tunnel_dns todo : List Text) (services : List MacosDnsServiceState) (captured : ℕ) (w : W)
      (s : Text)
      → (original_of live services w s).0 ≢ some tunnel_dns
      → let (after, count, failed) = capture_all host tunnel_dns todo services captured w in
        (original_of live after w s ≡ original_of live services w s)
        × (is_some (saved_of services s) ≡ true → is_some (saved_of after s) ≡ true)
        × (contains todo s ≡ true → (is_some (saved_of after s) || contains failed s) ≡ true)
  unfolding capture_all contains
  capture_all_lem tunnel_dns [] services captured w s h = ground arith
  capture_all_lem tunnel_dns (svc ∷ rest) services captured w s h =
      elim (Result-cases (capture_macos_dns_service host svc tunnel_dns w)) [
        | inl (saved, q) ↦
            let one = capture_one host live settings saved tunnel_dns services w svc s h q in
            let next =
              capture_all_lem tunnel_dns rest (services ++ saved ∷ []) (suc captured) w s
                (λ e. h (sym (ap (λ (o : Settings). o.0) one.0) ∙ e)) in
            ground (arith, q, one, next)
        | inr (e, q) ↦ ground (arith, q, capture_all_lem tunnel_dns rest services captured w s h)
      ]

  release_one_lem :
      (svc : Text) (services : List MacosDnsServiceState) (restored : ℕ) (w : W) (s : Text)
      → IsSettable (original_of live services w s)
      → let (services', restored', w') = release_one host svc services restored w in
        (original_of live services' w' s ≡ original_of live services w s)
        × ((svc == s) ≡ false → is_some (saved_of services' s) ≡ is_some (saved_of services s))
  unfolding release_one original_of saved_of
  release_one_lem svc services restored w s h = elim (Option-cases (saved_of services svc)) [
    | inl n ↦ ground (arith, n, ==_iff svc s, saved_of-forget svc services s)
    | inr (saved, q) ↦
        let name = saved_of_lem services svc saved q in
        ground (
          arith,
          q,
          h,
          name,
          ==_iff svc s,
          saved_of-forget svc services s,
          restore-others host live settings saved s w,
          restore_lem host live settings saved w,
        )
  ]

  pub release_all_lem :
      (todo : List Text) (services : List MacosDnsServiceState) (restored : ℕ) (w : W) (s : Text)
      → IsSettable (original_of live services w s)
      → let (services', restored', w') = release_all host todo services restored w in
        (original_of live services' w' s ≡ original_of live services w s)
        × (contains todo s ≡ false → is_some (saved_of services' s) ≡ is_some (saved_of services s))
  unfolding release_all contains
  release_all_lem [] services restored w s h = (refl, λ m. refl)
  release_all_lem (svc ∷ rest) services restored w s h =
      let (services', restored', w') = release_one host svc services restored w in
      let one = release_one_lem svc services restored w s h in
      let next = release_all_lem rest services' restored' w' s (rw one.0 h) in
      ground (arith, one, next)

  assert_one_lem :
      (tunnel_dns capture_failed : List Text) (svc : Text) (applied : ℕ) (w : W) (s : Text)
      → (svc == s) ≡ false
      → live (assert_one host tunnel_dns capture_failed svc applied w).1 s ≡ live w s
  unfolding assert_one
  assert_one_lem tunnel_dns capture_failed svc applied w s h = ground (
    arith,
    h,
    ==_iff svc s,
    set_dns-others host live settings svc s tunnel_dns w,
    clear_search-others host live settings svc s (set_dns_servers host.setup svc tunnel_dns w).1,
  )

  -- A service that is neither owned nor spared is not asserted, so its own settings stay.
  pub assert_all_lem :
      (tunnel_dns capture_failed todo : List Text) (applied : ℕ) (w : W) (s : Text)
      → (contains todo s ≡ true → contains capture_failed s ≡ true)
      → live (assert_all host tunnel_dns capture_failed todo applied w).1 s ≡ live w s
  unfolding assert_all assert_one contains
  assert_all_lem tunnel_dns capture_failed [] applied w s h = refl
  assert_all_lem tunnel_dns capture_failed (svc ∷ rest) applied w s h =
      let (applied', w') = assert_one host tunnel_dns capture_failed svc applied w in
      let one : live w' s ≡ live w s =
        ground (arith, h, ==_iff svc s, assert_one_lem tunnel_dns capture_failed svc applied w s) in
      assert_all_lem tunnel_dns capture_failed rest applied' w' s (λ m. h (ground arith)) ∙ one
