-- ===== src/Sweep.antt =====
-- src/privileged/dns_sweep.rs: restoring the DNS of helpers that died, with the record of
-- src/dns_custody.rs.
--
-- The directory of records, the processes that are alive and the runtime files belong to the host, as
-- does the lock that the sweep's callers hold; a file is named by its stem, and a record's JSON is
-- decoded by the host. Log lines are left out. A set of pairs is a list.
pub mod Plan
pub mod Run
pub mod Execute
pub mod Forgets
pub mod Spares
use macos_wireguard_daemon.Prelude.{
  ◌≡◌, ℕ, suc, ◌+◌, Bool, true, false, not, ◌&&◌, ◌||◌, Option, none, some, List, [], ◌∷◌, ◌++◌,
  map, Text, text, Eq, ◌==◌, List_eq, Option_eq, ℕ_eq, any, find, contains, is_empty, length,
  retain, Result, ok, err, if◌then◌else◌, ltb, text_leb,
}
use macos_wireguard_daemon.Prelude.Results.{◌>>=◌}
use macos_wireguard_daemon.Net.Show.{show_ip}
use macos_wireguard_daemon.Config.{ConnectionConfig}
use macos_wireguard_daemon.Daemon.Store.{StoredConnection}
use macos_wireguard_daemon.MacosDns.{
  NetworkSetup, dns_lists_equal, list_network_services, get_dns_servers, set_dns_servers_empty,
  restore_service,
}

pub record ProcessStart : Type 0 where
  pub sec : ℕ
  pub usec : ℕ

pub record DnsCustodyService : Type 0 where
  pub service : Text
  pub original_dns_servers : Option (List Text)
  pub original_search_domains : Option (List Text)

pub record DnsCustodyRecord : Type 0 where
  pub version : ℕ
  pub connection_id : ℕ
  pub interface : Text
  pub helper_pid : ℕ
  pub helper_start : ProcessStart
  pub tunnel_dns : List Text
  pub services : List DnsCustodyService

pub data RecordRead : Type 0 where
  decoded : DnsCustodyRecord → RecordRead
  unsupported_version : ℕ → RecordRead
  corrupt_record : Text → RecordRead

pub record RecordState : Type 0 where
  pub custody : DnsCustodyRecord
  pub helper_live : Bool

pub record StoredDns : Type 0 where
  pub servers : List Text
  pub tunnel_live : Bool

pub data Action : Type 0 where
  skip_live : Text → Action
  restore : Text → Text → Option (List Text) → Option (List Text) → Action
  service_changed : Text → Text → Action
  service_absent : Text → Text → Action
  clear_stray : Text → List Text → Action

-- A service with its live DNS.
abbrev pub LiveDns : Type 0
LiveDns = List (Text × Option (List Text))

unfoldable pub live_of : LiveDns → Text → Option (Option (List Text))
live_of live_dns service = elim (find (λ entry. entry.0 == service) live_dns) [
  | none ↦ none
  | some entry ↦ some entry.1
]

-- The action on one service of a dead helper's record.
unfoldable pub service_action : LiveDns → DnsCustodyRecord → DnsCustodyService → Action
unfolding live_of
service_action live_dns custody s = elim (live_of live_dns s.service) [
  | none ↦ service_absent custody.interface s.service
  | some live ↦
      if dns_lists_equal live custody.tunnel_dns
      then restore custody.interface s.service s.original_dns_servers s.original_search_domains
      else service_changed custody.interface s.service
]

unfoldable pub plan_record : LiveDns → RecordState → List Action
unfolding service_action
plan_record live_dns state =
    if state.helper_live
    then skip_live state.custody.interface ∷ []
    else map (service_action live_dns state.custody) state.custody.services

unfoldable pub plan_records : LiveDns → List RecordState → List Action
unfolding plan_record
plan_records live_dns [] = []
plan_records live_dns (state ∷ rest) = plan_record live_dns state ++ plan_records live_dns rest

-- The services of all records.
abbrev pub recorded_services : List RecordState → List Text
recorded_services [] = []
recorded_services (state ∷ rest) =
    map (λ s. s.service) state.custody.services ++ recorded_services rest

-- A stored connection with this DNS, whose helper is alive or not.
abbrev pub shows_stored : Bool → List StoredDns → List Text → Bool
shows_stored alive stored live =
    any
      (λ dns.
        (if alive then dns.tunnel_live else not dns.tunnel_live)
        && dns_lists_equal (some live) dns.servers)
      stored

unfoldable pub plan_stray : List Text → List StoredDns → Text × Option (List Text) → List Action
plan_stray recorded stored (service, none) = []
plan_stray recorded stored (service, some live) =
    if contains recorded service
    then []
    else if shows_stored false stored live && not (shows_stored true stored live)
    then clear_stray service live ∷ []
    else []

unfoldable pub plan_strays : List Text → List StoredDns → LiveDns → List Action
unfolding plan_stray
plan_strays recorded stored [] = []
plan_strays recorded stored (entry ∷ rest) =
    plan_stray recorded stored entry ++ plan_strays recorded stored rest

unfoldable pub plan_dns_sweep : List RecordState → LiveDns → List StoredDns → List Action
unfolding plan_records plan_strays
plan_dns_sweep records live_dns stored =
    plan_records live_dns records ++ plan_strays (recorded_services records) stored live_dns

pub data RecordStatus : Type 0 where
  live restorable deferred : RecordStatus

unfoldable pub classify_record : Bool → List DnsCustodyService → List Text → RecordStatus
classify_record helper_live services listed =
    if helper_live
    then live
    else if any (λ s. contains listed s.service) services
    then restorable
    else deferred

unfoldable pub sentinel_wanted : List RecordStatus → Bool
sentinel_wanted = any λ status. elim status [ live ↦ true | restorable ↦ true | deferred ↦ false ]

-- A pair of an interface and a service.
abbrev pub Pair : Type 0
Pair = Text × Text

unfoldable pub Pair_dec : Discrete Pair
Pair_dec = hlevel ℕ_eq.dec

instance abbrev pub Pair_eq : Eq Pair
Pair_eq = record { dec = Pair_dec }

pub record SweepSummary : Type 0 where
  pub restored : ℕ
  pub cleared : ℕ
  pub skipped_live : ℕ
  pub failed : ℕ
  pub died : List (ℕ × Text)
  pub restored_by : List (ℕ × Text × List Text)

abbrev pub no_summary : SweepSummary
no_summary = record {
  restored = 0;
  cleared = 0;
  skipped_live = 0;
  failed = 0;
  died = [];
  restored_by = [];
}

pub data Scope : Type 0 where
  all_records : Scope
  only : Text → Scope

-- What the sweep asks of the host. The calls on records are `state_file::remove_durable` on a
-- record's path and `dns_custody::write_record`.
pub record SweepHost (N W : Type 0) : Type 0 where
  pub setup : NetworkSetup W
  pub record_files : W → Result Text (List (Text × Result Text RecordRead))
  pub helper_is_live : ℕ → Text → Option (ℕ × ProcessStart) → W → Bool
  pub quarantine : Text → W → W
  pub load_all : W → Result Text (List (StoredConnection N))
  pub remove_durable : Text → W → Result Text (Unit {0}) × W
  pub write_record : DnsCustodyRecord → W → Result Text (Unit {0}) × W
  pub remove_runtime_files : Text → W → W
  pub flush_resolver_cache : W → W

-- What the loop over the actions has done.
pub record Progress : Type 0 where
  pub summary : SweepSummary
  pub pending : List Pair
  pub restored_services : List Pair

abbrev pub start : Progress
start = record { summary = no_summary; pending = []; restored_services = [] }

module _ {N W : Type 0} (host : SweepHost N W) where
  unfoldable pub execute_action : Action → Progress → W → Progress × W
  unfolding restore_service set_dns_servers_empty
  execute_action (skip_live interface) p w =
      (record p { summary = record p.summary { skipped_live = suc p.summary.skipped_live } }, w)
  execute_action (restore interface service servers search_domains) p w =
      let (result, w') = restore_service host.setup service servers search_domains w in
      (
        elim result [
          | ok _ ↦ record p {
            summary = record p.summary { restored = suc p.summary.restored };
            restored_services = p.restored_services ++ (interface, service) ∷ [];
          }
          | err _ ↦ record p {
            summary = record p.summary { failed = suc p.summary.failed };
            pending = (interface, service) ∷ p.pending;
          }
        ],
        w',
      )
  execute_action (service_changed interface service) p w = (p, w)
  execute_action (service_absent interface service) p w =
      (record p { pending = (interface, service) ∷ p.pending }, w)
  execute_action (clear_stray service servers) p w =
      let (result, w') = set_dns_servers_empty host.setup service w in
      (
        elim result [
          | ok _ ↦ record p { summary = record p.summary { cleared = suc p.summary.cleared } }
          | err _ ↦ record p { summary = record p.summary { failed = suc p.summary.failed } }
        ],
        w',
      )

  unfoldable pub execute_actions : List Action → Progress → W → Progress × W
  unfolding execute_action
  execute_actions [] p w = (p, w)
  execute_actions (action ∷ rest) p w =
      let (p', w') = execute_action action p w in execute_actions rest p' w'

  -- The services of a record that a sweep leaves in it.
  unfoldable pub kept_services : List Pair → DnsCustodyRecord → List DnsCustodyService
  kept_services pending custody =
      retain (λ s. contains pending (custody.interface, s.service)) custody.services

  unfoldable pub settle_file :
      Text → DnsCustodyRecord → List DnsCustodyService → W → Result Text (Unit {0}) × W
  settle_file path custody keep w =
      if is_empty keep
      then host.remove_durable path w
      else if not (length keep == length custody.services)
      then host.write_record (record custody { services = keep }) w
      else (ok tt, w)

  -- The runtime files go unless the helper is alive by then.
  unfoldable pub remove_if_dead : DnsCustodyRecord → W → W
  remove_if_dead custody w =
      if host.helper_is_live custody.connection_id custody.interface
        (some (custody.helper_pid, custody.helper_start)) w
      then w
      else host.remove_runtime_files custody.interface w

  unfoldable pub settle_record : Progress → Text × RecordState → SweepSummary → W → SweepSummary × W
  unfolding kept_services settle_file remove_if_dead
  settle_record p (path, state) summary w =
      let custody = state.custody in
      let restored : List Text =
        map (λ pair. pair.1) (retain (λ pair. pair.0 == custody.interface) p.restored_services) in
      let (settled, w1) = settle_file path custody (kept_services p.pending custody) w in
      if state.helper_live then (summary, w) else (
        record summary {
          restored_by =
              summary.restored_by
              ++ (if is_empty restored
                  then []
                  else (custody.connection_id, custody.interface, restored) ∷ []);
          failed = elim settled [ ok _ ↦ summary.failed | err _ ↦ suc summary.failed ];
          died = summary.died ++ (custody.connection_id, custody.interface) ∷ [];
        },
        remove_if_dead custody w1,
      )

  unfoldable pub settle_records :
      Progress → List (Text × RecordState) → SweepSummary → W → SweepSummary × W
  unfolding settle_record
  settle_records p [] summary w = (summary, w)
  settle_records p (state ∷ rest) summary w =
      let (summary', w') = settle_record p state summary w in settle_records p rest summary' w'

  unfoldable pub execute : List Action → List (Text × RecordState) → W → SweepSummary × W
  unfolding execute_actions settle_records
  execute actions states w =
      let (p, w') = execute_actions actions start w in settle_records p states p.summary w'
