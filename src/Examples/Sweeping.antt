-- ===== src/Examples/Sweeping.antt =====
-- The theorems on the sweep, at one record of a helper that died.
use macos_wireguard_daemon.Net.Parse.{IpAddr_dec, parse_ip}
use macos_wireguard_daemon.Prelude.{
  ℕ_discrete, List_dec, find, ◌≡◌, ◌∙◌, ◌⊎◌, refl, List, Text, Result, err, Option, any, ◌==◌,
  ==_refl, within-All, List_eq, ℕ_eq, arith, inl, inr, later, Bool, true, false, none, some, [],
  ◌∷◌, text, ok, contains, first, Within,
}
use macos_wireguard_daemon.MacosDns.{
  Output, dns_lists_equal, restore_service, restore_dns, restore_search, set_dns_servers,
  set_dns_servers_empty, set_search_domains, set_search_domains_empty, run_networksetup,
}
use macos_wireguard_daemon.Net.{Subnet}
use macos_wireguard_daemon.Sweep.{
  DnsCustodyService, RecordState, SweepHost, LiveDns, Pair_eq, live_of, plan_dns_sweep, execute,
}
use macos_wireguard_daemon.Sweep.Run.{sweep_seen}
use macos_wireguard_daemon.Sweep.Spares.{IsSweepWorld, IsOrphaned, sweep_seen_spares}
use macos_wireguard_daemon.Sweep.Execute.{
  IsCommand, restoring, clearing, cleaning, IsSettled, IsCustody,
}
use macos_wireguard_daemon.Sweep.Forgets.{execute-Kept}
use macos_wireguard_daemon.Examples.Resolver.{wifi, tunnel_dns, live, home, home-IsSettings}

abbrev host : SweepHost Subnet Bool
host = record {
  setup = home.setup;
  record_files = λ taken. ok [];
  helper_is_live = λ id interface process taken. false;
  quarantine = λ stem taken. taken;
  load_all = λ taken. ok [];
  remove_durable = λ path taken. (ok tt, taken);
  write_record = λ custody taken. (ok tt, taken);
  remove_runtime_files = λ interface taken. taken;
  flush_resolver_cache = λ taken. taken;
}

host-IsSweepWorld : IsSweepWorld host live
host-IsSweepWorld = record {
  reads_dns = home-IsSettings.reads_dns;
  apart = home-IsSettings.others;
  removes = λ path t w. refl;
  writes = λ c t w. refl;
  cleans = λ i t w. refl;
  flushes = λ t w. refl;
}

abbrev saved : DnsCustodyService
saved = record { service = wifi; original_dns_servers = none; original_search_domains = none }

abbrev dead : RecordState
dead = record {
  custody = record {
    version = 1;
    connection_id = 5;
    interface = text "wg-00000000";
    helper_pid = 77;
    helper_start = record { sec = 1; usec = 2 };
    tunnel_dns = tunnel_dns;
    services = saved ∷ [];
  };
  helper_live = false;
}

sweep_seen_spares_example :
    (live (sweep_seen host ((text "wg-00000000", dead) ∷ []) [] true).1 wifi ≡ live true wifi)
    ⊎ IsOrphaned (dead ∷ []) [] (live true wifi).0 wifi
sweep_seen_spares_example =
    sweep_seen_spares host live host-IsSweepWorld ((text "wg-00000000", dead) ∷ []) [] wifi true

abbrev shown : LiveDns
shown = (wifi, some tunnel_dns) ∷ []

-- The services that a command has set, and whether the record lists the service.
abbrev Log : Type 0
Log = List Text × Bool

-- A host that remembers them, and on which every command succeeds.
abbrev logged : List Text → Log → Result Text Output × Log
logged (flag ∷ s ∷ values) (log, held) =
    (ok (record { success = true; stdout = []; stderr = [] }), (s ∷ log, held))
logged _ w = (err (text "usage"), w)

abbrev lists_wifi : List DnsCustodyService → Bool
lists_wifi services = any (λ s. s.service == wifi) services

abbrev logging : SweepHost Subnet Log
logging = record {
  setup = record { read = λ args w. err (text "usage"); write = logged };
  record_files = λ w. ok [];
  helper_is_live = λ id interface process w. false;
  quarantine = λ stem w. w;
  load_all = λ w. ok [];
  remove_durable = λ path w. (ok tt, (w.0, false));
  write_record = λ custody w. (ok tt, (w.0, lists_wifi custody.services));
  remove_runtime_files = λ interface w. w;
  flush_resolver_cache = λ w. w;
}

abbrev WasSet : Text → Option (List Text) → Option (List Text) → Log → Type 0
WasSet s dns domains w = contains w.0 s ≡ true

-- The record lists the service until its settings are back.
abbrev HeldOrSet : Log → Type 0
HeldOrSet w = (w.1 ≡ true) ⊎ (contains w.0 wifi ≡ true)

abbrev states : List (Text × RecordState)
states = (text "wg-00000000", dead) ∷ []

-- A restoring runs two commands on the service, and a clearing one.
restored_world :
    (s : Text) (dns domains : Option (List Text)) (log : List Text) (held : Bool)
    → (restore_service logging.setup s dns domains (log, held)).1 ≡ (s ∷ s ∷ log, held)
unfolding restore_service restore_dns restore_search set_dns_servers set_dns_servers_empty
    set_search_domains set_search_domains_empty run_networksetup
restored_world s none none log held = refl
restored_world s none (some domains) log held = refl
restored_world s (some dns) none log held = refl
restored_world s (some dns) (some domains) log held = refl

cleared_world :
    (s : Text) (log : List Text) (held : Bool)
    → (set_dns_servers_empty logging.setup s (log, held)).1 ≡ (s ∷ log, held)
unfolding set_dns_servers_empty run_networksetup
cleared_world s log held = refl

set_lem :
    (s : Text) (dns domains : Option (List Text)) (log : List Text) (held : Bool)
    → WasSet s dns domains (restore_service logging.setup s dns domains (log, held)).1
unfolding contains
set_lem s dns domains log held =
    rw (restored_world s dns domains log held) (ground (arith, ==_refl s))

-- A command only adds to what was set, and leaves the record alone.
command_adds :
    (s : Text) (w w' : Log)
    → IsCommand logging w w'
    → ((contains w.0 s ≡ true) → contains w'.0 s ≡ true) × (w'.1 ≡ w.1)
unfolding contains
command_adds s (log, held) _ (restoring t dns domains _) =
    rw (restored_world t dns domains log held) (λ h. ground (arith, h), refl)
command_adds s (log, held) _ (clearing t _) =
    rw (cleared_world t log held) (λ h. ground (arith, h), refl)
command_adds s w _ (cleaning i _) = (λ h. h, refl)

shown_dns : live_of shown wifi ≡ some (some tunnel_dns)
unfolding live_of find List_dec ℕ_discrete
shown_dns = refl

same_dns : dns_lists_equal (some tunnel_dns) tunnel_dns ≡ true
unfolding dns_lists_equal ℕ_discrete parse_ip IpAddr_dec
same_dns = refl

lists_lem : (keep : List DnsCustodyService) → Within saved keep → lists_wifi keep ≡ true
unfolding any List_dec ℕ_discrete
lists_lem [] m = elim m [ ]
lists_lem (s ∷ rest) first = refl
lists_lem (s ∷ rest) (later m) = ground (arith, lists_lem rest m)

-- A settled service of the record was set, since the snapshot shows the tunnel's DNS.
settled_set : (w : Log) → IsSettled WasSet shown dead.custody saved w → contains w.0 wifi ≡ true
settled_set w (inl h) = h
settled_set w (inr (dns, q, e)) = absurd (ground (arith, shown_dns, same_dns, q, e))

only_dead : (path : Text) (state : RecordState) → Within (path, state) states → state ≡ dead
only_dead path state m = within-All (λ (entry : Text × RecordState). entry.1 ≡ dead) m (refl, tt)

removed :
    (state : RecordState) (w : Log)
    → state ≡ dead
    → ((s : DnsCustodyService)
        → Within s state.custody.services
        → IsSettled WasSet shown state.custody s w)
    → contains w.0 wifi ≡ true
removed state w e settled = settled_set w ((rw e at settled) saved first)

written :
    (state : RecordState) (keep : List DnsCustodyService) (w : Log)
    → state ≡ dead
    → ((s : DnsCustodyService)
        → Within s state.custody.services
        → Within s keep ⊎ IsSettled WasSet shown state.custody s w)
    → (lists_wifi keep ≡ true) ⊎ (contains w.0 wifi ≡ true)
written state keep w e settled = elim ((rw e at settled) saved first) [
  | inl k ↦ inl (lists_lem keep k)
  | inr h ↦ inr (settled_set w h)
]

logging-IsCustody : IsCustody logging states shown WasSet HeldOrSet
unfolding contains
logging-IsCustody = record {
  restored = λ s dns domains w h. set_lem s dns domains w.0 w.1;
  stays = λ s dns domains w w' call h. (command_adds s w w' call).0 h;
  stays_removed = λ s dns domains path w h. h;
  stays_written = λ s dns domains c w h. h;
  keeps = λ w w' call h. elim h [
    | inl k ↦ inl ((command_adds wifi w w' call).1 ∙ k)
    | inr k ↦ inr ((command_adds wifi w w' call).0 k)
  ];
  removes =
      λ path state w m alone settled h. inr (removed state w (only_dead path state m) settled);
  writes =
      λ path state keep w m alone settled h. written state keep w (only_dead path state m) settled;
}

execute-Kept_example :
    HeldOrSet (execute logging (plan_dns_sweep (dead ∷ []) shown []) states ([], true)).1
execute-Kept_example =
    execute-Kept logging states shown WasSet HeldOrSet logging-IsCustody [] ([], true) (inl refl)
