-- ===== src/Sweep/Execute.antt =====
-- The loop over the actions in `execute` of src/privileged/dns_sweep.rs, with the commands that it runs.
use macos_wireguard_daemon.Prelude.{
  ◌≡◌, ◌⊎◌, refl, true, false, Option, some, List, [], ◌∷◌, Text, ==_refl, List_eq, ℕ_eq, arith,
  Within, first, later, Within-left, Within-right, Within-map, contains, is_empty, ok,
}
use macos_wireguard_daemon.MacosDns.{dns_lists_equal, restore_service, set_dns_servers_empty}
use macos_wireguard_daemon.Sweep.{
  DnsCustodyService, DnsCustodyRecord, RecordState, StoredDns, Action, skip_live, restore,
  service_changed, service_absent, clear_stray, LiveDns, live_of, recorded_services, plan_record,
  plan_records, plan_strays, plan_dns_sweep, service_action, Pair, Pair_eq, SweepHost, Progress,
  execute_action, execute_actions,
}

planned_in :
    (state : RecordState) (s : DnsCustodyService) (live_dns : LiveDns) (records : List RecordState)
    → Within state records
    → state.helper_live ≡ false
    → Within s state.custody.services
    → Within (service_action live_dns state.custody s) (plan_records live_dns records)
unfolding plan_records plan_record
planned_in state s live_dns [] k dead m = elim k [ ]
planned_in state s live_dns (r ∷ rest) first dead m =
    Within-left (plan_record live_dns r) (plan_records live_dns rest)
      (rw (dead, plan_record) (Within-map (service_action live_dns r.custody) r.custody.services m))
planned_in state s live_dns (r ∷ rest) (later k) dead m =
    Within-right (plan_record live_dns r) (plan_records live_dns rest)
      (planned_in state s live_dns rest k dead m)

-- Every service of a dead helper's record has its action in the plan.
pub planned :
    (state : RecordState) (s : DnsCustodyService) (records : List RecordState) (live_dns : LiveDns)
    (stored : List StoredDns)
    → Within state records
    → state.helper_live ≡ false
    → Within s state.custody.services
    → Within (service_action live_dns state.custody s) (plan_dns_sweep records live_dns stored)
unfolding plan_dns_sweep
planned state s records live_dns stored k dead m =
    Within-left (plan_records live_dns records)
      (plan_strays (recorded_services records) stored live_dns)
      (planned_in state s live_dns records k dead m)

-- A call that neither removes nor writes a record.
pub data IsCommand {N W : Type 0} (host : SweepHost N W) : W → W → Type 0 where
  restoring :
      (service : Text) (dns domains : Option (List Text)) (w : W)
      → IsCommand host w (restore_service host.setup service dns domains w).1
  clearing :
      (service : Text) (w : W) → IsCommand host w (set_dns_servers_empty host.setup service w).1
  cleaning : (interface : Text) (w : W) → IsCommand host w (host.remove_runtime_files interface w)

-- A service of a record is settled: its recorded settings have been restored, or the snapshot shows DNS
-- on it that is not the tunnel's.
abbrev pub IsSettled :
    {W : Type 0}
    → (Text → Option (List Text) → Option (List Text) → W → Type 0)
    → LiveDns
    → DnsCustodyRecord
    → DnsCustodyService
    → W
    → Type 0
IsSettled Restored live_dns c s w =
    Restored s.service s.original_dns_servers s.original_search_domains w
    ⊎ ((dns : Option (List Text)) × (live_of live_dns s.service ≡ some dns)
        × (dns_lists_equal dns c.tunnel_dns ≡ false))

-- `Restored` holds of a service and its settings from a command on that has put them back and has
-- succeeded. `Kept` survives every command, and the removal or the writing of a dead helper's record
-- that drops settled services only.
pub record IsCustody {N W : Type 0} (host : SweepHost N W) (states : List (Text × RecordState))
    (live_dns : LiveDns) (Restored : Text → Option (List Text) → Option (List Text) → W → Type 0)
    (Kept : W → Type 0) : Type 0 where
  pub restored :
      (service : Text) (dns domains : Option (List Text)) (w : W)
      → (restore_service host.setup service dns domains w).0 ≡ ok tt
      → Restored service dns domains (restore_service host.setup service dns domains w).1
  pub stays :
      (service : Text) (dns domains : Option (List Text)) (w w' : W)
      → IsCommand host w w'
      → Restored service dns domains w
      → Restored service dns domains w'
  pub stays_removed :
      (service : Text) (dns domains : Option (List Text)) (path : Text) (w : W)
      → Restored service dns domains w
      → Restored service dns domains (host.remove_durable path w).1
  pub stays_written :
      (service : Text) (dns domains : Option (List Text)) (c : DnsCustodyRecord) (w : W)
      → Restored service dns domains w
      → Restored service dns domains (host.write_record c w).1
  pub keeps : (w w' : W) → IsCommand host w w' → Kept w → Kept w'
  pub removes :
      (path : Text) (state : RecordState) (w : W)
      → Within (path, state) states
      → state.helper_live ≡ false
      → ((s : DnsCustodyService)
          → Within s state.custody.services
          → IsSettled Restored live_dns state.custody s w)
      → Kept w
      → Kept (host.remove_durable path w).1
  pub writes :
      (path : Text) (state : RecordState) (keep : List DnsCustodyService) (w : W)
      → Within (path, state) states
      → state.helper_live ≡ false
      → ((s : DnsCustodyService)
          → Within s state.custody.services
          → Within s keep ⊎ IsSettled Restored live_dns state.custody s w)
      → Kept w
      → Kept (host.write_record (record state.custody { services = keep }) w).1

pub is_empty-Within :
    {a : DnsCustodyService} (xs : List DnsCustodyService) → Within a xs → is_empty xs ≡ false
is_empty-Within [] m = elim m [ ]
is_empty-Within (x ∷ xs) m = refl

module _ {N W : Type 0} (host : SweepHost N W) where
  -- An action does not take a pending pair back.
  pub execute_action-keeps :
      (a : Action) (p : Progress) (x : Pair) (w : W)
      → contains p.pending x ≡ true
      → contains (execute_action host a p w).0.pending x ≡ true
  unfolding execute_action contains
  execute_action-keeps (skip_live i) p x w h = h
  execute_action-keeps (restore i s dns domains) p x w h = ground (arith, h)
  execute_action-keeps (service_changed i s) p x w h = h
  execute_action-keeps (service_absent i s) p x w h = ground (arith, h)
  execute_action-keeps (clear_stray s servers) p x w h = ground (arith, h)

  pub execute_actions-keeps :
      (actions : List Action) (p : Progress) (x : Pair) (w : W)
      → contains p.pending x ≡ true
      → contains (execute_actions host actions p w).0.pending x ≡ true
  unfolding execute_actions
  execute_actions-keeps [] p x w h = h
  execute_actions-keeps (a ∷ rest) p x w h =
      let (p', w') = execute_action host a p w in
      execute_actions-keeps rest p' x w' (execute_action-keeps a p x w h)

  absent_noted :
      (i s : Text) (p : Progress) (w : W)
      → contains (execute_action host (service_absent i s) p w).0.pending (i, s) ≡ true
  unfolding execute_action contains
  absent_noted i s p w = ground (arith, ==_refl {A = Pair} (i, s))

  pub absent_pending :
      (actions : List Action) (i s : Text) (p : Progress) (w : W)
      → Within (service_absent i s) actions
      → contains (execute_actions host actions p w).0.pending (i, s) ≡ true
  unfolding execute_actions
  absent_pending [] i s p w m = elim m [ ]
  absent_pending (a ∷ rest) i s p w first =
      let (p', w') = execute_action host a p w in
      execute_actions-keeps rest p' (i, s) w' (absent_noted i s p w)
  absent_pending (a ∷ rest) i s p w (later m) =
      let (p', w') = execute_action host a p w in absent_pending rest i s p' w' m

  -- What every command keeps, the loop over the actions keeps.
  action_lem :
      (P : W → Type 0)
      → ((w w' : W) → IsCommand host w w' → P w → P w')
      → (a : Action) (p : Progress) (w : W) → P w
      → P (execute_action host a p w).1
  unfolding execute_action
  action_lem P keeps (skip_live i) p w h = h
  action_lem P keeps (restore i s dns domains) p w h =
      keeps w (restore_service host.setup s dns domains w).1 (restoring s dns domains w) h
  action_lem P keeps (service_changed i s) p w h = h
  action_lem P keeps (service_absent i s) p w h = h
  action_lem P keeps (clear_stray s servers) p w h =
      keeps w (set_dns_servers_empty host.setup s w).1 (clearing s w) h

  pub actions_lem :
      (P : W → Type 0)
      → ((w w' : W) → IsCommand host w w' → P w → P w')
      → (actions : List Action) (p : Progress) (w : W) → P w
      → P (execute_actions host actions p w).1
  unfolding execute_actions
  actions_lem P keeps [] p w h = h
  actions_lem P keeps (a ∷ rest) p w h =
      let (p', w') = execute_action host a p w in
      actions_lem P keeps rest p' w' (action_lem P keeps a p w h)
