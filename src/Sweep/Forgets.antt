-- ===== src/Sweep/Forgets.antt =====
-- The removals and the writings of records at the end of `execute` of src/privileged/dns_sweep.rs.
use macos_wireguard_daemon.Prelude.{
  ◌≡◌, ◌⊎◌, true, false, Option, some, List, [], ◌∷◌, map, Text, ◌==◌, ==_refl, List_eq, ℕ_eq,
  arith, Within, first, later, Within-retain, Within-map, contains, is_empty, length, Bool-cases,
  Option-cases, Result-cases, inl, inr,
}
use macos_wireguard_daemon.MacosDns.{dns_lists_equal, restore_service}
use macos_wireguard_daemon.Sweep.{
  DnsCustodyService, DnsCustodyRecord, RecordState, StoredDns, Action, restore, LiveDns, live_of,
  plan_dns_sweep, service_action, Pair, Pair_eq, SweepHost, SweepSummary, Progress, start,
  execute_action, execute_actions, kept_services, settle_file, remove_if_dead, settle_record,
  settle_records, execute,
}
use macos_wireguard_daemon.Sweep.Execute.{
  planned, IsCommand, cleaning, IsSettled, IsCustody, is_empty-Within, execute_actions-keeps,
  absent_pending, actions_lem,
}

module _ {N W : Type 0} (host : SweepHost N W) (states : List (Text × RecordState))
    (live_dns : LiveDns) (Restored : Text → Option (List Text) → Option (List Text) → W → Type 0)
    (Kept : W → Type 0) (custody : IsCustody host states live_dns Restored Kept) where
  restore_noted :
      (i s : Text) (dns domains : Option (List Text)) (p : Progress) (w : W)
      → let (p', w') = execute_action host (restore i s dns domains) p w in
        (contains p'.pending (i, s) ≡ true) ⊎ Restored s dns domains w'
  unfolding execute_action contains
  restore_noted i s dns domains p w =
      elim (Result-cases (restore_service host.setup s dns domains w).0) [
        | inl (u, q) ↦ inr (custody.restored s dns domains w q)
        | inr (e, q) ↦ inl (ground (arith, q, ==_refl {A = Pair} (i, s)))
      ]

  restored_or_pending :
      (actions : List Action) (i s : Text) (dns domains : Option (List Text)) (p : Progress) (w : W)
      → Within (restore i s dns domains) actions
      → let (p', w') = execute_actions host actions p w in
        (contains p'.pending (i, s) ≡ true) ⊎ Restored s dns domains w'
  unfolding execute_actions
  restored_or_pending [] i s dns domains p w m = elim m [ ]
  restored_or_pending (a ∷ rest) i s dns domains p w first =
      let (p', w') = execute_action host a p w in
      elim (restore_noted i s dns domains p w) [
        | inl q ↦ inl (execute_actions-keeps host rest p' (i, s) w' q)
        | inr q ↦
            inr
              (actions_lem host (Restored s dns domains) (custody.stays s dns domains) rest p' w' q)
      ]
  restored_or_pending (a ∷ rest) i s dns domains p w (later m) =
      let (p', w') = execute_action host a p w in restored_or_pending rest i s dns domains p' w' m

  -- Every service of a dead helper's record is pending or settled.
  AllNoted : Progress → W → Type 0
  AllNoted p w =
      (path : Text) (state : RecordState) (s : DnsCustodyService)
      → Within (path, state) states
      → state.helper_live ≡ false
      → Within s state.custody.services
      → (contains p.pending (state.custody.interface, s.service) ≡ true)
        ⊎ IsSettled Restored live_dns state.custody s w

  executed_lem :
      (stored : List StoredDns) (w : W)
      → let records = map (λ (state : Text × RecordState). state.1) states in
        let (p, w') = execute_actions host (plan_dns_sweep records live_dns stored) start w in
        AllNoted p w'
  unfolding AllNoted service_action
  executed_lem stored w path state s m dead k =
      let records : List RecordState = map (λ (state : Text × RecordState). state.1) states in
      let actions = plan_dns_sweep records live_dns stored in
      let i = state.custody.interface in
      let action =
        planned state s records live_dns stored
          (Within-map (λ (state : Text × RecordState). state.1) states m) dead k in
      elim (Option-cases (live_of live_dns s.service)) [
        | inl n ↦
            inl (absent_pending host actions i s.service start w (rw (n, service_action) at action))
        | inr (dns, q) ↦ elim (Bool-cases (dns_lists_equal dns state.custody.tunnel_dns)) [
          | inr e ↦ inr (inr (dns, q, e))
          | inl e ↦
              elim (restored_or_pending actions i s.service s.original_dns_servers
                s.original_search_domains start w (rw (q, service_action, e) at action)) [
                  | inl h ↦ inl h
                  | inr h ↦ inr (inl h)
                ]
        ]
      ]

  over_call :
      (c : DnsCustodyRecord) (s : DnsCustodyService) (w w' : W)
      → (Restored s.service s.original_dns_servers s.original_search_domains w
          → Restored s.service s.original_dns_servers s.original_search_domains w')
      → IsSettled Restored live_dns c s w
      → IsSettled Restored live_dns c s w'
  over_call c s w w' f (inl h) = inl (f h)
  over_call c s w w' f (inr h) = inr h

  -- What is noted stays noted over a call that does not undo a restoration.
  noted_stays :
      (p : Progress) (w w' : W)
      → ((service : Text) (dns domains : Option (List Text))
          → Restored service dns domains w
          → Restored service dns domains w')
      → AllNoted p w
      → AllNoted p w'
  unfolding AllNoted
  noted_stays p w w' f noted path state s m dead k = elim (noted path state s m dead k) [
    | inl q ↦ inl q
    | inr q ↦ inr (
        over_call state.custody s w w'
          (f s.service s.original_dns_servers s.original_search_domains) q)
  ]

  IsNoted : Progress → W → Type 0
  IsNoted p w = Kept w × AllNoted p w

  settle_file_lem :
      (p : Progress) (path : Text) (state : RecordState) (w : W)
      → Within (path, state) states
      → state.helper_live ≡ false
      → IsNoted p w
      → IsNoted p
          (settle_file host path state.custody (kept_services host p.pending state.custody) w).1
  unfolding settle_file kept_services IsNoted AllNoted
  settle_file_lem p path state w m dead h =
      let c = state.custody in
      let keep = kept_services host p.pending c in
      let staying =
        (λ (s : DnsCustodyService) (k : Within s c.services)
            (q : contains p.pending (c.interface, s.service) ≡ true).
          Within-retain (λ (d : DnsCustodyService). contains p.pending (c.interface, d.service))
            c.services k q) in
      elim (Bool-cases (is_empty keep)) [
        | inl e ↦
            rw (e, settle_file)
              (
                custody.removes path state w m dead
                    (λ s k. elim (h.1 path state s m dead k) [
                      | inr q ↦ q
                      | inl q ↦ absurd (ground (arith, e, is_empty-Within keep (staying s k q)))
                    ])
                    h.0,
                noted_stays p w (host.remove_durable path w).1
                    (λ service dns domains. custody.stays_removed service dns domains path w) h.1,
              )
        | inr e ↦ elim (Bool-cases (length keep == length c.services)) [
          | inl l ↦ rw (e, l, settle_file) h
          | inr l ↦
              rw (e, l, settle_file)
                (
                  custody.writes path state keep w m dead
                      (λ s k. elim (h.1 path state s m dead k) [
                        | inr q ↦ inr q
                        | inl q ↦ inl (staying s k q)
                      ])
                      h.0,
                  noted_stays p w (host.write_record (record c { services = keep }) w).1
                      (λ service dns domains.
                        custody.stays_written service dns domains (record c { services = keep }) w)
                      h.1,
                )
        ]
      ]

  command_lem : (p : Progress) (w w' : W) → IsCommand host w w' → IsNoted p w → IsNoted p w'
  unfolding IsNoted
  command_lem p w w' call h = (
    custody.keeps w w' call h.0,
    noted_stays p w w' (λ service dns domains. custody.stays service dns domains w w' call) h.1,
  )

  settle_record_lem :
      (p : Progress) (state : Text × RecordState) (summary : SweepSummary) (w : W)
      → Within state states
      → IsNoted p w
      → IsNoted p (settle_record host p state summary w).1
  unfolding settle_record remove_if_dead
  settle_record_lem p (path, state) summary w m h = elim (Bool-cases state.helper_live) [
    | inl l ↦ rw (l, settle_record) h
    | inr l ↦
        let c = state.custody in
        let w1 : W = (settle_file host path c (kept_services host p.pending c) w).1 in
        let settled : IsNoted p w1 = settle_file_lem p path state w m l h in
        let live =
          host.helper_is_live c.connection_id c.interface (some (c.helper_pid, c.helper_start))
            w1 in
        elim (Bool-cases live) [
          | inl a ↦ rw (l, settle_record, remove_if_dead, a) settled
          | inr a ↦
              rw (l, settle_record, remove_if_dead, a)
                (command_lem p w1 (host.remove_runtime_files c.interface w1)
                  (cleaning c.interface w1) settled)
        ]
  ]

  settle_records_lem :
      (p : Progress) (rest : List (Text × RecordState)) (summary : SweepSummary) (w : W)
      → ((state : Text × RecordState) → Within state rest → Within state states)
      → IsNoted p w
      → IsNoted p (settle_records host p rest summary w).1
  unfolding settle_records
  settle_records_lem p [] summary w m h = h
  settle_records_lem p (state ∷ rest) summary w m h =
      let (summary', w') = settle_record host p state summary w in
      settle_records_lem p rest summary' w' (λ s k. m s (later k))
        (settle_record_lem p state summary w (m state first) h)

  -- A sweep removes or writes the record of a dead helper only where each service that it drops from it
  -- is settled: whatever fails, it keeps every property of the world that the other commands keep and
  -- that such a removal and such a writing keep.
  pub execute-Kept :
      (stored : List StoredDns) (w : W)
      → Kept w
      → let records = map (λ (state : Text × RecordState). state.1) states in
        Kept (execute host (plan_dns_sweep records live_dns stored) states w).1
  unfolding execute IsNoted
  execute-Kept stored w h =
      let records : List RecordState = map (λ (state : Text × RecordState). state.1) states in
      let actions = plan_dns_sweep records live_dns stored in
      let (p, w') = execute_actions host actions start w in
      (settle_records_lem p states p.summary w' (λ s k. k)
        (actions_lem host Kept custody.keeps actions start w h, executed_lem stored w)).0
