-- ===== src/Examples/Resolver.antt =====
-- A host with one network service, on which `networksetup` can set or clear the tunnel's DNS.
use macos_wireguard_daemon.Prelude.{
  retain, any, ◌≡◌, ◌≢◌, refl, Bool, true, false, ◌&&◌, Option, none, some, List, [], ◌∷◌, Text,
  text, ◌==◌, ==_iff, List_eq, List_dec, ℕ_eq, ℕ_discrete, arith, if◌then◌else◌, Result, ok, err,
  is_ok,
}
use macos_wireguard_daemon.MacosDns.{
  Output, get_dns_servers, get_search_domains, set_dns_servers, set_dns_servers_empty,
  set_search_domains, set_search_domains_empty, get_networksetup_values, networksetup_values,
  run_networksetup,
}
use macos_wireguard_daemon.Dns.Reconcile.{DnsHost}
use macos_wireguard_daemon.Dns.Reconcile.Settings.{Settings, IsSettings}

abbrev pub wifi : Text
wifi = text "Wi-Fi"

abbrev pub tunnel_dns : List Text
tunnel_dns = text "10.0.0.1" ∷ []

-- The service's settings; the world is whether the tunnel's DNS is set.
abbrev pub live : Bool → Text → Settings
live taken s = if s == wifi && taken then (some tunnel_dns, none) else (none, none)

abbrev answer : Text → Bool → Text
answer flag taken =
    if flag == text "-getdnsservers"
    then (if taken then text "10.0.0.1" else text "There aren't any DNS Servers set on Wi-Fi.")
    else text "There aren't any Search Domains set on Wi-Fi."

abbrev printed : Text → Result Text Output
printed stdout = ok (record { success = true; stdout = stdout; stderr = [] })

abbrev refused : Result Text Output
refused = err (text "not a recognized network service")

abbrev read : List Text → Bool → Result Text Output
read (flag ∷ []) taken = printed wifi
read (flag ∷ s ∷ []) taken = if s == wifi then printed (answer flag taken) else refused
read _ taken = refused

-- A command for the service, with one value.
abbrev set : Text → Text → Bool → Result Text Output × Bool
set flag v taken =
    if flag == text "-setdnsservers"
    then (if v == text "Empty"
        then (printed [], false)
        else if v == text "10.0.0.1"
        then (printed [], true)
        else (refused, taken))
    else if v == text "Empty"
    then (printed [], taken)
    else (refused, taken)

abbrev write : List Text → Bool → Result Text Output × Bool
write (flag ∷ s ∷ v ∷ []) taken = if s == wifi then set flag v taken else (refused, taken)
write _ taken = (refused, taken)

abbrev pub home : DnsHost Text Bool
home = record {
  setup = record { read = read; write = write };
  primary_service = λ taken. some wifi;
  local_connected_subnets = λ interface taken. [];
  remove_record = λ custody taken. (ok tt, taken);
  write_record = λ custody dns services taken. (ok tt, taken);
  ensure_watch_sentinel = λ taken. (ok tt, taken);
  send_want = λ wanted taken. taken;
  flush_resolver_cache = λ taken. taken;
}

dns_unset :
    networksetup_values home.setup (answer (text "-getdnsservers") false) (text "DNS Servers")
    ≡ none
unfolding networksetup_values any List_dec ℕ_discrete
dns_unset = refl

search_unset :
    (taken : Bool)
    → networksetup_values home.setup
        (answer (text "-getsearchdomains") taken)
        (text "Search Domains")
      ≡ none
unfolding networksetup_values List_dec ℕ_discrete any
search_unset taken = refl

dns_set :
    networksetup_values home.setup (answer (text "-getdnsservers") true) (text "DNS Servers")
    ≡ some tunnel_dns
unfolding networksetup_values any List_dec ℕ_discrete retain
dns_set = refl

reads_dns_lem :
    (s : Text) (taken : Bool) (v : Option (List Text))
    → get_dns_servers home.setup s taken ≡ ok v
    → v ≡ (live taken s).0
unfolding get_dns_servers get_networksetup_values
reads_dns_lem s true v e = ground (arith, e, dns_set)
reads_dns_lem s false v e = ground (arith, e, dns_unset)

reads_search_lem :
    (s : Text) (taken : Bool) (v : Option (List Text))
    → get_search_domains home.setup s taken ≡ ok v
    → v ≡ (live taken s).1
unfolding get_search_domains get_networksetup_values
reads_search_lem s taken v e = ground (arith, e, search_unset taken)

sets_dns_lem :
    (s : Text) (v : List Text) (taken : Bool)
    → v ≢ text "Empty" ∷ []
    → is_ok (set_dns_servers home.setup s v taken).0 ≡ true
    → (live (set_dns_servers home.setup s v taken).1 s).0 ≡ some v
unfolding set_dns_servers run_networksetup List_dec ℕ_discrete
sets_dns_lem s [] taken n k = cc
sets_dns_lem s (a ∷ b ∷ rest) taken n k = cc
sets_dns_lem s (a ∷ []) taken n k =
    ground (arith, n, k, ==_iff a (text "Empty"), ==_iff a (text "10.0.0.1"))

sets_search_lem :
    (s : Text) (v : List Text) (taken : Bool)
    → v ≢ text "Empty" ∷ []
    → is_ok (set_search_domains home.setup s v taken).0 ≡ true
    → live (set_search_domains home.setup s v taken).1 s ≡ ((live taken s).0, some v)
unfolding set_search_domains run_networksetup List_dec ℕ_discrete
sets_search_lem s [] taken n k = cc
sets_search_lem s (a ∷ b ∷ rest) taken n k = cc
sets_search_lem s (a ∷ []) taken n k = ground (arith, n, k, ==_iff a (text "Empty"))

clears_lem :
    (s : Text) (taken : Bool)
    → (is_ok (set_dns_servers_empty home.setup s taken).0 ≡ true
        → (live (set_dns_servers_empty home.setup s taken).1 s).0 ≡ none)
      × (is_ok (set_search_domains_empty home.setup s taken).0 ≡ true
          → live (set_search_domains_empty home.setup s taken).1 s ≡ ((live taken s).0, none))
unfolding set_dns_servers_empty set_search_domains_empty run_networksetup List_dec ℕ_discrete
clears_lem s taken = (λ k. ground (arith, k), λ k. ground (arith, k))

others_lem :
    (flag s t : Text) (args : List Text) (taken : Bool)
    → s ≢ t
    → live (home.setup.write (flag ∷ s ∷ args) taken).1 t ≡ live taken t
others_lem flag s t [] taken n = refl
others_lem flag s t (a ∷ b ∷ rest) taken n = refl
others_lem flag s t (a ∷ []) taken n = ground (arith, n, ==_iff s wifi, ==_iff t wifi)

pub home-IsSettings : IsSettings home live
home-IsSettings = record {
  reads_dns = reads_dns_lem;
  reads_search = reads_search_lem;
  sets_dns = sets_dns_lem;
  clears_dns = λ s w. (clears_lem s w).0;
  sets_search = sets_search_lem;
  clears_search = λ s w. (clears_lem s w).1;
  others = others_lem;
  removes = λ c t w. refl;
  records = λ c v k t w. refl;
  watches = λ t w. refl;
  wants = λ b t w. refl;
  flushes = λ t w. refl;
}
