-- ===== src/Examples/Custody.antt =====
-- The theorems on DNS, at the host with one service.
use macos_wireguard_daemon.MacosDns.{
  set_search_domains_empty, set_dns_servers_empty, restore_service, get_networksetup_values,
  get_dns_servers, list_network_services,
}
use macos_wireguard_daemon.Prelude.{
  find, any, List_dec, ℕ_discrete, ◌≡◌, ◌≢◌, refl, List, List_eq, ℕ_eq, true, false, ◌&&◌, not,
  none, some, [], ◌∷◌, Text, text, contains, ok,
}
use macos_wireguard_daemon.Dns.{
  MacosDnsFingerprint, MacosDnsServiceState, plan_dns_actions, shows_tunnel,
}
use macos_wireguard_daemon.Dns.Plan.{plan_dns_actions_lem}
use macos_wireguard_daemon.Dns.Reconcile.{
  restore_macos_dns_service, CleanupDns, DnsInputs, shadow, macos_current_dns_fingerprint,
}
use macos_wireguard_daemon.Dns.Reconcile.Settings.{IsSettable, original_of, saved_of}
use macos_wireguard_daemon.Dns.Reconcile.Ticks.{
  macos_reconcile_dns, configure_macos_dns, restore_macos_dns_services,
}
use macos_wireguard_daemon.Dns.Reconcile.Custody.{macos_reconcile_dns_keeps_original}
use macos_wireguard_daemon.Dns.Reconcile.Teardown.{
  restore_macos_dns_services_lem, configure_macos_dns_keeps_original,
}
use macos_wireguard_daemon.Examples.Resolver.{wifi, tunnel_dns, live, home, home-IsSettings}

abbrev inputs : DnsInputs Text
inputs = record {
  interface = text "utun4";
  dns_servers = tunnel_dns;
  custody = some (text "helper.1");
  dns_mode = shadow;
}

abbrev seen : MacosDnsFingerprint
seen = record { primary_service = some wifi; services = wifi ∷ []; observed = (wifi, none) ∷ [] }

abbrev nothing : MacosDnsFingerprint
nothing = record { primary_service = none; services = []; observed = [] }

abbrev state : CleanupDns
state = record { dns = record { services = []; fingerprint = nothing }; dns_store_key = some false }

unset : (v : List Text) → none ≢ some v
unset v e = cc

seen_lem : macos_current_dns_fingerprint home false ≡ ok seen
unfolding macos_current_dns_fingerprint list_network_services ℕ_discrete get_dns_servers
    get_networksetup_values List_dec any
seen_lem = refl

original_unset : original_of live [] false wifi ≡ (none, none)
unfolding original_of saved_of find List_dec ℕ_discrete
original_unset = refl

settable : IsSettable (original_of live [] false wifi)
settable = rw original_unset (unset (text "Empty" ∷ []), unset (text "Empty" ∷ []))

not_tunnel : (original_of live [] false wifi).0 ≢ some inputs.dns_servers
not_tunnel = rw original_unset (unset tunnel_dns)

macos_reconcile_dns_keeps_original_example :
    let (acted, state', w') = macos_reconcile_dns home inputs state false in
    original_of live state'.dns.services w' wifi ≡ original_of live [] false wifi
unfolding contains List_dec ℕ_discrete
macos_reconcile_dns_keeps_original_example =
    macos_reconcile_dns_keeps_original home live home-IsSettings inputs seen state false wifi
      seen_lem refl settable not_tunnel

abbrev saved : MacosDnsServiceState
saved = record { service = wifi; dns_servers = none; search_domains = none }

saved-IsSettable : IsSettable (original_of live (saved ∷ []) true wifi)
unfolding original_of saved_of find List_dec ℕ_discrete
saved-IsSettable = (unset (text "Empty" ∷ []), unset (text "Empty" ∷ []))

restore_macos_dns_services_lem_example :
    live (restore_macos_dns_services home (saved ∷ []) inputs true).1 wifi
    ≡ original_of live (saved ∷ []) true wifi
unfolding saved_of find restore_macos_dns_services restore_macos_dns_service restore_service
    set_dns_servers_empty List_dec ℕ_discrete set_search_domains_empty
restore_macos_dns_services_lem_example =
    restore_macos_dns_services_lem home live home-IsSettings (saved ∷ []) inputs true wifi
      saved-IsSettable refl

configure_macos_dns_keeps_original_example :
    let (result, saved', w') = configure_macos_dns home inputs [] [] false in
    original_of live saved' w' wifi ≡ original_of live [] false wifi
configure_macos_dns_keeps_original_example =
    configure_macos_dns_keeps_original home live home-IsSettings inputs [] [] false wifi not_tunnel

plan_dns_actions_lem_example :
    let actions = plan_dns_actions tunnel_dns seen [] (wifi ∷ []) in
    (contains actions.capture wifi ≡ (contains (wifi ∷ []) wifi && not (contains [] wifi)))
    × (contains actions.apply wifi
        ≡ (contains (wifi ∷ []) wifi && not (shows_tunnel tunnel_dns seen wifi)))
    × (contains actions.restore wifi
        ≡ (contains [] wifi && not (contains (wifi ∷ []) wifi) && contains seen.services wifi))
    × (contains actions.drop wifi ≡ (
        contains [] wifi && not (contains (wifi ∷ []) wifi) && not (contains seen.services wifi)))
plan_dns_actions_lem_example = plan_dns_actions_lem tunnel_dns seen [] (wifi ∷ []) wifi
