-- ===== src/Sweep/Run.antt =====
-- `sweep_locked` of src/privileged/dns_sweep.rs, and what it reads.
use macos_wireguard_daemon.Prelude.{
  ◌+◌, Bool, true, not, ◌||◌, none, some, List, [], ◌∷◌, map, Text, text, ◌==◌, List_eq, ℕ_eq, any,
  is_empty, retain, ◌++◌, Result, ok, err, if◌then◌else◌, ltb, text_leb,
}
use macos_wireguard_daemon.Prelude.Results.{◌>>=◌}
use macos_wireguard_daemon.Net.Show.{show_ip}
use macos_wireguard_daemon.Daemon.Store.{StoredConnection}
use macos_wireguard_daemon.MacosDns.{list_network_services, get_dns_servers}
use macos_wireguard_daemon.Sweep.{
  RecordRead, decoded, unsupported_version, corrupt_record, RecordState, StoredDns, LiveDns, Scope,
  all_records, only, SweepHost, SweepSummary, plan_dns_sweep, execute,
}

abbrev insert_state : Text × RecordState → List (Text × RecordState) → List (Text × RecordState)
insert_state a [] = a ∷ []
insert_state a (b ∷ rest) =
    let further = insert_state a rest in
    if text_leb (a.1).custody.interface (b.1).custody.interface then a ∷ b ∷ rest else b ∷ further

-- `sort_by` on the interface, which keeps the order of equal ones.
abbrev pub sort_states : List (Text × RecordState) → List (Text × RecordState)
sort_states [] = []
sort_states (a ∷ rest) = insert_state a (sort_states rest)

abbrev in_scope : Scope → Text → Bool
in_scope all_records stem = true
in_scope (only interface) stem = stem == interface

module _ {N W : Type 0} (host : SweepHost N W) where
  -- One file: a state, or a file that is passed over or put aside.
  unfoldable pub read_state : Text × Result Text RecordRead → W → List (Text × RecordState) × W
  read_state (stem, read) w =
      let quarantined : List (Text × RecordState) × W = ([], host.quarantine stem w) in
      elim read [
        | err _ ↦ quarantined
        | ok outcome ↦ elim outcome [
          | corrupt_record _ ↦ quarantined
          | unsupported_version _ ↦ ([], w)
          | decoded custody ↦
              if custody.interface == stem
              then (
                (
                  stem,
                  record {
                    custody = custody;
                    helper_live =
                        host.helper_is_live custody.connection_id custody.interface
                          (some (custody.helper_pid, custody.helper_start)) w;
                  },
                )
                    ∷ [],
                w,
              )
              else quarantined
        ]
      ]

  unfoldable pub read_states :
      Scope → List (Text × Result Text RecordRead) → W → List (Text × RecordState) × W
  unfolding read_state
  read_states scope [] w = ([], w)
  read_states scope (file ∷ rest) w =
      let (found, w1) : List (Text × RecordState) × W =
        if in_scope scope file.0 then read_state file w else ([], w) in
      let (others, w2) = read_states scope rest w1 in (found ++ others, w2)

  unfoldable pub read_record_states : Scope → W → Result Text (List (Text × RecordState)) × W
  unfolding read_states
  read_record_states scope w = elim (host.record_files w) [
    | err e ↦ (err e, w)
    | ok files ↦ (let (states, w') = read_states scope files w in (ok states, w'))
  ]

  unfoldable pub stored_dns_lists : W → List StoredDns
  unfolding show_ip
  stored_dns_lists w = elim (host.load_all w) [
    | err _ ↦ []
    | ok connections ↦
        map
          (λ (conn : StoredConnection N). record {
            servers = map show_ip conn.config.dns_servers;
            tunnel_live = host.helper_is_live conn.id conn.interface none w;
          })
          (retain (λ (conn : StoredConnection N). not (is_empty conn.config.dns_servers))
            connections)
  ]

  -- The loop of `snapshot_live_dns`.
  unfoldable pub read_live : List Text → W → Result Text LiveDns
  unfolding get_dns_servers
  read_live [] w = ok []
  read_live (service ∷ rest) w =
      let others = read_live rest w in
      do dns ← get_dns_servers host.setup service w; live ← others; ok ((service, dns) ∷ live)

  unfoldable pub snapshot_live_dns : W → Result Text LiveDns
  unfolding list_network_services read_live
  snapshot_live_dns w = do
    services ← list_network_services host.setup w
    if is_empty services
        then err (text "networksetup -listallnetworkservices returned no services")
        else read_live services w

  -- Whether the sweep has to know the live DNS.
  abbrev pub needs_snapshot : List (Text × RecordState) → List StoredDns → Bool
  needs_snapshot states stored =
      any (λ state. not (state.1).helper_live) states || any (λ dns. not dns.tunnel_live) stored

  -- The sweep behind its snapshot.
  unfoldable pub sweep_shown :
      List (Text × RecordState)
      → List StoredDns
      → Result Text LiveDns
      → W
      → Result Text SweepSummary × W
  unfolding plan_dns_sweep execute
  sweep_shown states stored (err e) w = (err e, w)
  sweep_shown states stored (ok live_dns) w =
      let actions = plan_dns_sweep (map (λ state. state.1) states) live_dns stored in
      let (summary, w') = execute host actions states w in
      (
        ok summary,
        if ltb 0 (summary.restored + summary.cleared) then host.flush_resolver_cache w' else w',
      )

  unfoldable pub sweep_seen :
      List (Text × RecordState) → List StoredDns → W → Result Text SweepSummary × W
  unfolding snapshot_live_dns sweep_shown
  sweep_seen states stored w =
      sweep_shown states stored
        (if needs_snapshot states stored then snapshot_live_dns w else ok []) w

  unfoldable pub sweep_locked : Scope → W → Result Text SweepSummary × W
  unfolding read_record_states stored_dns_lists sweep_seen
  sweep_locked scope w =
      let (read, w1) = read_record_states scope w in
      let stored : List StoredDns = (elim scope [
        | all_records ↦ stored_dns_lists w1
        | only _ ↦ []
      ]) in
      elim read [ err e ↦ (err e, w1) | ok found ↦ sweep_seen (sort_states found) stored w1 ]
