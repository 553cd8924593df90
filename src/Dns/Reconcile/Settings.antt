-- ===== src/Dns/Reconcile/Settings.antt =====
-- What the code relies on of `networksetup`, and what teardown would give back.
use macos_wireguard_daemon.Prelude.{
  ◌≡◌, ◌≢◌, refl, Bool, true, false, Option, none, some, List, [], ◌∷◌, ◌++◌, Text, text, arith,
  ◌==◌, ==_iff, List_eq, Option_eq, ℕ_eq, find, find-append, retain, ok, is_ok,
}
use macos_wireguard_daemon.MacosDns.{
  get_dns_servers, get_search_domains, set_dns_servers, set_dns_servers_empty, set_search_domains,
  set_search_domains_empty,
}
pub use macos_wireguard_daemon.MacosDns.Others.{Settings}
use macos_wireguard_daemon.Dns.{MacosDnsServiceState}
use macos_wireguard_daemon.Dns.Reconcile.{DnsHost, forget}

-- The documented behaviour of `networksetup`, for the settings that each service has in a world: its
-- answers are those settings, a command that succeeds sets its service, and no command touches
-- another service. The helper's other calls leave all settings alone.
pub record IsSettings {C W : Type 0} (host : DnsHost C W) (live : W → Text → Settings)
    : Type 0 where
  pub reads_dns :
      (s : Text) (w : W) (v : Option (List Text))
      → get_dns_servers host.setup s w ≡ ok v
      → v ≡ (live w s).0
  pub reads_search :
      (s : Text) (w : W) (v : Option (List Text))
      → get_search_domains host.setup s w ≡ ok v
      → v ≡ (live w s).1
  pub sets_dns :
      (s : Text) (v : List Text) (w : W)
      → v ≢ text "Empty" ∷ []
      → is_ok (set_dns_servers host.setup s v w).0 ≡ true
      → (live (set_dns_servers host.setup s v w).1 s).0 ≡ some v
  pub clears_dns :
      (s : Text) (w : W)
      → is_ok (set_dns_servers_empty host.setup s w).0 ≡ true
      → (live (set_dns_servers_empty host.setup s w).1 s).0 ≡ none
  pub sets_search :
      (s : Text) (v : List Text) (w : W)
      → v ≢ text "Empty" ∷ []
      → is_ok (set_search_domains host.setup s v w).0 ≡ true
      → live (set_search_domains host.setup s v w).1 s ≡ ((live w s).0, some v)
  pub clears_search :
      (s : Text) (w : W)
      → is_ok (set_search_domains_empty host.setup s w).0 ≡ true
      → live (set_search_domains_empty host.setup s w).1 s ≡ ((live w s).0, none)
  pub others :
      (flag s t : Text) (args : List Text) (w : W)
      → s ≢ t
      → live (host.setup.write (flag ∷ s ∷ args) w).1 t ≡ live w t
  pub removes : (c : C) (t : Text) (w : W) → live (host.remove_record c w).1 t ≡ live w t
  pub records :
      (c : C) (v : List Text) (k : List MacosDnsServiceState) (t : Text) (w : W)
      → live (host.write_record c v k w).1 t ≡ live w t
  pub watches : (t : Text) (w : W) → live (host.ensure_watch_sentinel w).1 t ≡ live w t
  pub wants : (b : Bool) (t : Text) (w : W) → live (host.send_want b w) t ≡ live w t
  pub flushes : (t : Text) (w : W) → live (host.flush_resolver_cache w) t ≡ live w t

unfoldable pub saved_of : List MacosDnsServiceState → Text → Option MacosDnsServiceState
saved_of services s = find (λ saved. saved.service == s) services

-- The settings that teardown gives a service back: the saved ones where it is owned, else its own.
unfoldable pub original_of :
    {W : Type 0} → (W → Text → Settings) → List MacosDnsServiceState → W → Text → Settings
original_of live services w s = elim (saved_of services s) [
  | none ↦ live w s
  | some saved ↦ (saved.dns_servers, saved.search_domains)
]

-- Settings that `networksetup` can be told: a list that reads "Empty" would be taken for none.
abbrev pub IsSettable : Settings → Type 0
IsSettable o = (o.0 ≢ some (text "Empty" ∷ [])) × (o.1 ≢ some (text "Empty" ∷ []))

pub saved_of-snoc :
    (services : List MacosDnsServiceState) (saved : MacosDnsServiceState) (s : Text)
    → saved_of (services ++ saved ∷ []) s ≡ elim (saved_of services s) [
      | none ↦ (elim (saved.service == s) [ true ↦ some saved | false ↦ none ])
      | some a ↦ some a
    ]
unfolding saved_of find
saved_of-snoc services saved s =
    ground (arith, find-append (λ saved. saved.service == s) services (saved ∷ []))

pub saved_of-forget :
    (svc : Text) (services : List MacosDnsServiceState) (s : Text)
    → saved_of (forget svc services) s
      ≡ elim (svc == s) [ true ↦ none | false ↦ saved_of services s ]
unfolding saved_of find retain
saved_of-forget svc [] s = ground arith
saved_of-forget svc (a ∷ services) s =
    ground (
      arith,
      ==_iff a.service svc,
      ==_iff a.service s,
      ==_iff svc s,
      saved_of-forget svc services s,
    )

-- `original_of` by its two cases.
pub original_lem :
    {W : Type 0} (services : List MacosDnsServiceState) (live : W → Text → Settings) (w : W)
    (s : Text)
    → original_of live services w s ≡ elim (saved_of services s) [
      | none ↦ live w s
      | some saved ↦ (saved.dns_servers, saved.search_domains)
    ]
unfolding original_of
original_lem services live w s = refl
