-- ===== src/Dns/Reconcile/Kept.antt =====
-- The loops of src/userspace_helper/macos/dns.rs, and what teardown would give back to a service.
use macos_wireguard_daemon.Prelude.{
  ◌≡◌, ◌≢◌, ap, true, ◌||◌, Option, none, some, is_some, List, [], ◌∷◌, ◌++◌, Text, text, arith,
  ◌==◌, ==_iff, List_eq, Option_eq, ℕ_eq, ok, is_ok, Result-cases, Option-cases, inl, inr,
}
use macos_wireguard_daemon.MacosDns.{
  get_dns_servers, get_search_domains, run_networksetup, set_dns_servers, set_search_domains_empty,
  restore_dns, restore_search, restore_service,
}
use macos_wireguard_daemon.MacosDns.Others.{restore_service-others}
use macos_wireguard_daemon.Dns.{MacosDnsServiceState}
use macos_wireguard_daemon.Dns.Reconcile.{
  DnsInputs, DnsHost, capture_macos_dns_service, restore_macos_dns_service, persist_dns_custody,
}
use macos_wireguard_daemon.Dns.Reconcile.Settings.{
  Settings, IsSettings, IsSettable, saved_of, original_of, saved_of-snoc,
}

module _ {C W : Type 0} (host : DnsHost C W) (live : W → Text → Settings)
    (settings : IsSettings host live) where
  pub set_dns-others :
      (s t : Text) (v : List Text) (w : W)
      → s ≢ t
      → live (set_dns_servers host.setup s v w).1 t ≡ live w t
  unfolding set_dns_servers run_networksetup
  set_dns-others s t v w h = settings.others (text "-setdnsservers") s t v w h

  pub clear_search-others :
      (s t : Text) (w : W) → s ≢ t → live (set_search_domains_empty host.setup s w).1 t ≡ live w t
  unfolding set_search_domains_empty run_networksetup
  clear_search-others s t w h =
      settings.others (text "-setsearchdomains") s t (text "Empty" ∷ []) w h

  pub restore-others :
      (saved : MacosDnsServiceState) (t : Text) (w : W)
      → saved.service ≢ t
      → live (restore_macos_dns_service host saved w).1 t ≡ live w t
  unfolding restore_macos_dns_service
  restore-others saved t w h =
      restore_service-others host.setup live settings.others saved.service t saved.dns_servers
        saved.search_domains w h

  restore_dns_lem :
      (s : Text) (v : Option (List Text)) (w : W)
      → v ≢ some (text "Empty" ∷ [])
      → is_ok (restore_dns host.setup s v w).0 ≡ true
      → (live (restore_dns host.setup s v w).1 s).0 ≡ v
  unfolding restore_dns
  restore_dns_lem s none w h e = settings.clears_dns s w e
  restore_dns_lem s (some v) w h e = settings.sets_dns s v w (λ q. h (ap some q)) e

  restore_search_lem :
      (s : Text) (v : Option (List Text)) (w : W)
      → v ≢ some (text "Empty" ∷ [])
      → is_ok (restore_search host.setup s v w).0 ≡ true
      → live (restore_search host.setup s v w).1 s ≡ ((live w s).0, v)
  unfolding restore_search
  restore_search_lem s none w h e = settings.clears_search s w e
  restore_search_lem s (some v) w h e = settings.sets_search s v w (λ q. h (ap some q)) e

  -- A restore that succeeds puts the saved settings back.
  pub restore_lem :
      (saved : MacosDnsServiceState) (w : W)
      → IsSettable (saved.dns_servers, saved.search_domains)
      → is_ok (restore_macos_dns_service host saved w).0 ≡ true
      → live (restore_macos_dns_service host saved w).1 saved.service
        ≡ (saved.dns_servers, saved.search_domains)
  unfolding restore_macos_dns_service restore_service
  restore_lem saved w h e =
      let w' = (restore_dns host.setup saved.service saved.dns_servers w).1 in
      ground (
        arith,
        e,
        restore_dns_lem saved.service saved.dns_servers w h.0,
        restore_search_lem saved.service saved.search_domains w' h.1,
      )

  pub persist-live :
      (services : List MacosDnsServiceState) (inputs : DnsInputs C) (w : W) (t : Text)
      → live (persist_dns_custody host services inputs w) t ≡ live w t
  unfolding persist_dns_custody
  persist-live services inputs w t = elim (Option-cases inputs.custody) [
    | inl n ↦ ground (arith, n)
    | inr (c, n) ↦ ground (
      arith,
      n,
      settings.removes c t w,
      settings.records c inputs.dns_servers services t w,
      settings.watches t (host.write_record c inputs.dns_servers services w).1,
    )
  ]

  -- What a capture saves of a service that does not show the tunnel's DNS.
  pub capture_lem :
      (svc : Text) (tunnel_dns : List Text) (w : W) (saved : MacosDnsServiceState)
      → capture_macos_dns_service host svc tunnel_dns w ≡ ok saved
      → (saved.service ≡ svc)
        × ((live w svc).0 ≢ some tunnel_dns
            → (saved.dns_servers, saved.search_domains) ≡ live w svc)
  unfolding capture_macos_dns_service
  capture_lem svc tunnel_dns w saved h = elim (Result-cases (get_dns_servers host.setup svc w)) [
    | inl (v, q) ↦ elim (Result-cases (get_search_domains host.setup svc w)) [
      | inl (d, r) ↦ ground (
        arith,
        h,
        q,
        r,
        settings.reads_dns svc w v q,
        settings.reads_search svc w d r,
        ==_iff v (some tunnel_dns),
      )
      | inr (e, r) ↦
          ground (arith, h, q, r, settings.reads_dns svc w v q, ==_iff v (some tunnel_dns))
    ]
    | inr (e, q) ↦ ground (arith, h, q)
  ]

  -- One capture, for a service whose own settings are not the tunnel's.
  pub capture_one :
      (saved : MacosDnsServiceState) (tunnel_dns : List Text) (services : List MacosDnsServiceState)
      (w : W) (svc s : Text)
      → (original_of live services w s).0 ≢ some tunnel_dns
      → capture_macos_dns_service host svc tunnel_dns w ≡ ok saved
      → (original_of live (services ++ saved ∷ []) w s ≡ original_of live services w s)
        × (is_some (saved_of (services ++ saved ∷ []) s)
            ≡ (is_some (saved_of services s) || svc == s))
  unfolding original_of
  capture_one saved tunnel_dns services w svc s h e = ground (
    arith,
    h,
    saved_of-snoc services saved s,
    capture_lem svc tunnel_dns w saved e,
    ==_iff saved.service s,
    ==_iff svc s,
  )
