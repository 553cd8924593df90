-- ===== src/MacosDns/Others.antt =====
-- The commands of src/macos_dns.rs on one service, and the settings of the others.
use macos_wireguard_daemon.Prelude.{◌≡◌, ◌≢◌, Option, none, some, List, [], ◌∷◌, Text, text, arith}
use macos_wireguard_daemon.MacosDns.{
  NetworkSetup, run_networksetup, set_dns_servers, set_dns_servers_empty, set_search_domains,
  set_search_domains_empty, restore_dns, restore_search, restore_service,
}

-- A service's DNS servers and search domains; none where nothing is set.
abbrev pub Settings : Type 0
Settings = Option (List Text) × Option (List Text)

-- No command touches another service.
abbrev pub IsApart : {W : Type 0} → NetworkSetup W → (W → Text → Settings) → Type 0
IsApart setup live =
    (flag s t : Text) (args : List Text) (w : _)
    → s ≢ t
    → live (setup.write (flag ∷ s ∷ args) w).1 t ≡ live w t

module _ {W : Type 0} (setup : NetworkSetup W) (live : W → Text → Settings)
    (apart : IsApart setup live) where
  pub set_dns_empty-others :
      (s t : Text) (w : W) → s ≢ t → live (set_dns_servers_empty setup s w).1 t ≡ live w t
  unfolding set_dns_servers_empty run_networksetup
  set_dns_empty-others s t w h = apart (text "-setdnsservers") s t (text "Empty" ∷ []) w h

  restore_dns-others :
      (s t : Text) (v : Option (List Text)) (w : W)
      → s ≢ t
      → live (restore_dns setup s v w).1 t ≡ live w t
  unfolding restore_dns set_dns_servers set_dns_servers_empty run_networksetup
  restore_dns-others s t none w h = apart (text "-setdnsservers") s t (text "Empty" ∷ []) w h
  restore_dns-others s t (some v) w h = apart (text "-setdnsservers") s t v w h

  restore_search-others :
      (s t : Text) (v : Option (List Text)) (w : W)
      → s ≢ t
      → live (restore_search setup s v w).1 t ≡ live w t
  unfolding restore_search set_search_domains set_search_domains_empty run_networksetup
  restore_search-others s t none w h = apart (text "-setsearchdomains") s t (text "Empty" ∷ []) w h
  restore_search-others s t (some v) w h = apart (text "-setsearchdomains") s t v w h

  pub restore_service-others :
      (s t : Text) (dns search : Option (List Text)) (w : W)
      → s ≢ t
      → live (restore_service setup s dns search w).1 t ≡ live w t
  unfolding restore_service
  restore_service-others s t dns search w h = ground (
    arith,
    restore_dns-others s t dns w h,
    restore_search-others s t search (restore_dns setup s dns w).1 h,
  )
