-- ===== src/Sweep/Spares.antt =====
-- `sweep_locked` of src/privileged/dns_sweep.rs, and the settings that it leaves alone.
use macos_wireguard_daemon.Prelude.{
  ◌≡◌, refl, sym, ◌∙◌, ◌⊎◌, Bool, true, false, Option, some, List, [], ◌∷◌, map, Text, ◌==◌, ==_iff,
  List_eq, ℕ_eq, arith, All, Within, within-All, any-Within, any, find, is_empty, contains,
  Bool-cases, Result-cases, inl, inr, Result, ok, err,
}
use macos_wireguard_daemon.MacosDns.{dns_lists_equal, list_network_services, get_dns_servers}
use macos_wireguard_daemon.MacosDns.Others.{
  Settings, IsApart, set_dns_empty-others, restore_service-others,
}
use macos_wireguard_daemon.Sweep.{
  DnsCustodyService, DnsCustodyRecord, RecordState, StoredDns, Action, skip_live, restore,
  service_changed, service_absent, clear_stray, LiveDns, live_of, recorded_services, shows_stored,
  plan_dns_sweep, SweepHost, SweepSummary, start, Progress, execute_action, execute_actions,
  settle_file, remove_if_dead, settle_record, settle_records, execute, kept_services,
}
use macos_wireguard_daemon.Sweep.Plan.{
  IsJustified, lives, restores, changed, absent, strays, plan_dns_sweep-IsJustified,
}
use macos_wireguard_daemon.Sweep.Run.{
  read_live, snapshot_live_dns, needs_snapshot, sweep_shown, sweep_seen,
}

-- The documented behaviour of what the sweep calls, for the settings that each service has in a
-- world: reading the DNS gives those settings, no `networksetup` command touches another service, and
-- neither files nor the resolver's cache are settings.
pub record IsSweepWorld {N W : Type 0} (host : SweepHost N W) (live : W → Text → Settings)
    : Type 0 where
  pub reads_dns :
      (s : Text) (w : W) (v : Option (List Text))
      → get_dns_servers host.setup s w ≡ ok v
      → v ≡ (live w s).0
  pub apart : IsApart host.setup live
  pub removes : (path t : Text) (w : W) → live (host.remove_durable path w).1 t ≡ live w t
  pub writes :
      (c : DnsCustodyRecord) (t : Text) (w : W) → live (host.write_record c w).1 t ≡ live w t
  pub cleans : (i t : Text) (w : W) → live (host.remove_runtime_files i w) t ≡ live w t
  pub flushes : (t : Text) (w : W) → live (host.flush_resolver_cache w) t ≡ live w t

-- Whether an action runs a command on a service.
abbrev touches : Text → Action → Bool
touches t (restore interface service servers search_domains) = service == t
touches t (clear_stray service servers) = service == t
touches t _ = false

-- The grounds on which a sweep may change a service's settings: a dead helper's record lists it and
-- it shows that tunnel's DNS, or no record lists it and it shows the DNS of a stored connection that is
-- down and of none that is up.
pub data IsOrphaned (records : List RecordState) (stored : List StoredDns)
    (dns : Option (List Text)) (t : Text) : Type 0 where
  recorded :
      (state : RecordState) (s : DnsCustodyService)
      → Within state records
      → state.helper_live ≡ false
      → Within s state.custody.services
      → s.service ≡ t
      → dns_lists_equal dns state.custody.tunnel_dns ≡ true
      → IsOrphaned records stored dns t
  stray :
      (servers : List Text)
      → dns ≡ some servers
      → contains (recorded_services records) t ≡ false
      → shows_stored false stored servers ≡ true
      → shows_stored true stored servers ≡ false
      → IsOrphaned records stored dns t

module _ {N W : Type 0} (host : SweepHost N W) (live : W → Text → Settings)
    (world : IsSweepWorld host live) where
  execute_action-others :
      (action : Action) (p : Progress) (t : Text) (w : W)
      → touches t action ≡ false
      → live (execute_action host action p w).1 t ≡ live w t
  unfolding execute_action
  execute_action-others (skip_live i) p t w h = refl
  execute_action-others (restore i s dns search) p t w h =
      restore_service-others host.setup live world.apart s t dns search w
        (λ e. ground (arith, h, ==_iff s t, e))
  execute_action-others (service_changed i s) p t w h = refl
  execute_action-others (service_absent i s) p t w h = refl
  execute_action-others (clear_stray s servers) p t w h =
      set_dns_empty-others host.setup live world.apart s t w (λ e. ground (arith, h, ==_iff s t, e))

  execute_actions-others :
      (actions : List Action) (p : Progress) (t : Text) (w : W)
      → any (touches t) actions ≡ false
      → live (execute_actions host actions p w).1 t ≡ live w t
  unfolding execute_actions any
  execute_actions-others [] p t w h = refl
  execute_actions-others (a ∷ rest) p t w h =
      let (p', w') = execute_action host a p w in
      execute_actions-others rest p' t w' (ground (arith, h))
      ∙ execute_action-others a p t w (ground (arith, h))

  settle_file-live :
      (path : Text) (c : DnsCustodyRecord) (keep : List DnsCustodyService) (t : Text) (w : W)
      → live (settle_file host path c keep w).1 t ≡ live w t
  unfolding settle_file
  settle_file-live path c keep t w =
      ground (arith, world.removes path t w, world.writes (record c { services = keep }) t w)

  settle_record-live :
      (p : Progress) (state : Text × RecordState) (summary : SweepSummary) (t : Text) (w : W)
      → live (settle_record host p state summary w).1 t ≡ live w t
  unfolding settle_record remove_if_dead
  settle_record-live p (path, state) summary t w =
      let c = state.custody in
      let keep = kept_services host p.pending c in
      let w1 : W = (settle_file host path c keep w).1 in
      ground (arith, settle_file-live path c keep t w, world.cleans c.interface t w1)

  settle_records-live :
      (p : Progress) (states : List (Text × RecordState)) (summary : SweepSummary) (t : Text)
      (w : W)
      → live (settle_records host p states summary w).1 t ≡ live w t
  unfolding settle_records
  settle_records-live p [] summary t w = refl
  settle_records-live p (state ∷ rest) summary t w =
      let (summary', w') = settle_record host p state summary w in
      settle_records-live p rest summary' t w' ∙ settle_record-live p state summary t w

  -- Every answer of the snapshot is the service's DNS.
  IsSeen : W → LiveDns → Type 0
  IsSeen w = All (λ entry. entry.1 ≡ (live w entry.0).0)

  live_of-seen :
      (live_dns : LiveDns) (t : Text) (dns : Option (List Text)) (w : W)
      → IsSeen w live_dns
      → live_of live_dns t ≡ some dns
      → dns ≡ (live w t).0
  unfolding live_of find IsSeen
  live_of-seen [] t dns w seen h = cc
  live_of-seen (entry ∷ rest) t dns w seen h =
      ground (arith, ==_iff entry.0 t, seen.0, live_of-seen rest t dns w seen.1)

  -- The same of a result.
  IsSeenResult : W → Result Text LiveDns → Type 0
  IsSeenResult w (ok live_dns) = IsSeen w live_dns
  IsSeenResult w (err e) = Unit

  read_live-seen : (services : List Text) (w : W) → IsSeenResult w (read_live host services w)
  unfolding read_live IsSeenResult IsSeen
  read_live-seen [] w = tt
  read_live-seen (s ∷ rest) w = elim (Result-cases (get_dns_servers host.setup s w)) [
    | inr (e, q) ↦ rw (q, read_live) tt
    | inl (dns, q) ↦ elim (Result-cases (read_live host rest w)) [
      | inr (e, r) ↦ rw (q, r, read_live) tt
      | inl (l, r) ↦
          let others = rw r at (read_live-seen rest w) in
          rw (q, r, read_live) (world.reads_dns s w dns q, others)
    ]
  ]

  snapshot-seen : (w : W) → IsSeenResult w (snapshot_live_dns host w)
  unfolding snapshot_live_dns IsSeenResult
  snapshot-seen w = elim (Result-cases (list_network_services host.setup w)) [
    | inr (e, q) ↦ rw (q, snapshot_live_dns) tt
    | inl (services, q) ↦ elim (Bool-cases (is_empty services)) [
      | inl n ↦ rw (q, n, snapshot_live_dns) tt
      | inr n ↦ rw (q, n, snapshot_live_dns) (read_live-seen services w)
    ]
  ]

  touched_lem :
      (records : List RecordState) (live_dns : LiveDns) (stored : List StoredDns) (t : Text) (w : W)
      (a : Action)
      → IsSeen w live_dns
      → IsJustified records live_dns stored a
      → touches t a ≡ true
      → IsOrphaned records stored (live w t).0 t
  unfolding IsSeen
  touched_lem records live_dns stored t w _ seen (lives state m h) e = cc
  touched_lem records live_dns stored t w _ seen (restores state s dns m dead k q h) e =
      let same : s.service ≡ t = (==_iff s.service t).0 e in
      let shown = live_of-seen live_dns t dns w seen (rw (← same) q) in
      recorded state s m dead k same (rw (← shown) h)
  touched_lem records live_dns stored t w _ seen (changed state s dns m dead k q h) e = cc
  touched_lem records live_dns stored t w _ seen (absent state s m dead k q) e = cc
  touched_lem records live_dns stored t w _ seen (strays s dns m n d a) e =
      let same : s ≡ t = (==_iff s t).0 e in
      let shown =
        within-All (λ (entry : Text × Option (List Text)). entry.1 ≡ (live w entry.0).0) m seen in
      stray dns (rw (← same) (sym shown)) (rw (← same) n) d a

  execute_plan_lem :
      (states : List (Text × RecordState)) (live_dns : LiveDns) (stored : List StoredDns) (t : Text)
      (w : W)
      → IsSeen w live_dns
      → let records = map (λ (state : Text × RecordState). state.1) states in
        (live (execute host (plan_dns_sweep records live_dns stored) states w).1 t ≡ live w t)
        ⊎ IsOrphaned records stored (live w t).0 t
  unfolding execute
  execute_plan_lem states live_dns stored t w seen =
      let records : List RecordState = map (λ (state : Text × RecordState). state.1) states in
      let plan = plan_dns_sweep records live_dns stored in
      let (p, w') = execute_actions host plan start w in
      elim (Bool-cases (any (touches t) plan)) [
        | inl q ↦
            let (a, m, e) = any-Within (touches t) plan q in
            inr (
              touched_lem records live_dns stored t w a seen
                (within-All (IsJustified records live_dns stored) m
                  (plan_dns_sweep-IsJustified records live_dns stored))
                e)
        | inr q ↦
            inl (
              settle_records-live p states p.summary t w' ∙ execute_actions-others plan start t w q)
      ]

  sweep_shown_lem :
      (states : List (Text × RecordState)) (stored : List StoredDns) (r : Result Text LiveDns)
      (t : Text) (w : W)
      → IsSeenResult w r
      → (live (sweep_shown host states stored r w).1 t ≡ live w t)
        ⊎ IsOrphaned (map (λ (state : Text × RecordState). state.1) states) stored (live w t).0 t
  unfolding sweep_shown IsSeenResult
  sweep_shown_lem states stored (err e) t w seen = inl refl
  sweep_shown_lem states stored (ok live_dns) t w seen =
      let actions =
        plan_dns_sweep (map (λ (state : Text × RecordState). state.1) states) live_dns stored in
      let w' : W = (execute host actions states w).1 in
      elim (execute_plan_lem states live_dns stored t w seen) [
        | inr o ↦ inr o
        | inl same ↦ inl (ground (arith, same, world.flushes t w'))
      ]

  -- A sweep changes a service's settings only on grounds: when it begins, the service shows the DNS of
  -- the tunnel of a dead helper whose record lists it, or no record lists it and it shows the DNS of a
  -- stored connection that is down and of none that is up. In particular what only live helpers have
  -- recorded stays as it is, and so does what a user has set since. The condition is that
  -- `networksetup` acts on settings as documented, and nothing else that the sweep calls does.
  pub sweep_seen_spares :
      (states : List (Text × RecordState)) (stored : List StoredDns) (t : Text) (w : W)
      → (live (sweep_seen host states stored w).1 t ≡ live w t)
        ⊎ IsOrphaned (map (λ (state : Text × RecordState). state.1) states) stored (live w t).0 t
  unfolding sweep_seen IsSeenResult IsSeen
  sweep_seen_spares states stored t w = elim (Bool-cases (needs_snapshot host states stored)) [
    | inl q ↦ rw q (sweep_shown_lem states stored (snapshot_live_dns host w) t w (snapshot-seen w))
    | inr q ↦ rw q (sweep_shown_lem states stored (ok []) t w tt)
  ]
