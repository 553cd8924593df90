-- ===== src/Sweep/Plan.antt =====
-- `plan_dns_sweep` of src/privileged/dns_sweep.rs: what each of its actions rests on.
use macos_wireguard_daemon.Prelude.{
  ◌≡◌, true, false, Option, none, some, List, [], ◌∷◌, Text, List_eq, ℕ_eq, All, All-append,
  All-map, Within, first, later, contains, Bool-cases, Option-cases, inl, inr,
}
use macos_wireguard_daemon.MacosDns.{dns_lists_equal}
use macos_wireguard_daemon.Sweep.{
  DnsCustodyService, RecordState, StoredDns, Action, skip_live, restore, service_changed,
  service_absent, clear_stray, LiveDns, live_of, service_action, plan_record, plan_records,
  recorded_services, shows_stored, plan_stray, plan_strays, plan_dns_sweep,
}

module _ (records : List RecordState) (live_dns : LiveDns) (stored : List StoredDns) where
  -- What the plan may do, and on which grounds.
  pub data IsJustified : Action → Type 0 where
    lives :
        (state : RecordState)
        → Within state records
        → state.helper_live ≡ true
        → IsJustified (skip_live state.custody.interface)
    restores :
        (state : RecordState) (s : DnsCustodyService) (dns : Option (List Text))
        → Within state records
        → state.helper_live ≡ false
        → Within s state.custody.services
        → live_of live_dns s.service ≡ some dns
        → dns_lists_equal dns state.custody.tunnel_dns ≡ true
        → IsJustified (
            restore state.custody.interface s.service s.original_dns_servers
              s.original_search_domains)
    changed :
        (state : RecordState) (s : DnsCustodyService) (dns : Option (List Text))
        → Within state records
        → state.helper_live ≡ false
        → Within s state.custody.services
        → live_of live_dns s.service ≡ some dns
        → dns_lists_equal dns state.custody.tunnel_dns ≡ false
        → IsJustified (service_changed state.custody.interface s.service)
    absent :
        (state : RecordState) (s : DnsCustodyService)
        → Within state records
        → state.helper_live ≡ false
        → Within s state.custody.services
        → live_of live_dns s.service ≡ none
        → IsJustified (service_absent state.custody.interface s.service)
    strays :
        (service : Text) (dns : List Text)
        → Within (service, some dns) live_dns
        → contains (recorded_services records) service ≡ false
        → shows_stored false stored dns ≡ true
        → shows_stored true stored dns ≡ false
        → IsJustified (clear_stray service dns)

  service_action-IsJustified :
      (state : RecordState) (s : DnsCustodyService)
      → Within state records
      → state.helper_live ≡ false
      → Within s state.custody.services
      → IsJustified (service_action live_dns state.custody s)
  unfolding service_action
  service_action-IsJustified state s m dead k = elim (Option-cases (live_of live_dns s.service)) [
    | inl n ↦ rw (n, service_action) (absent state s m dead k n)
    | inr (dns, q) ↦ elim (Bool-cases (dns_lists_equal dns state.custody.tunnel_dns)) [
      | inl e ↦ rw (q, service_action, e) (restores state s dns m dead k q e)
      | inr e ↦ rw (q, service_action, e) (changed state s dns m dead k q e)
    ]
  ]

  plan_record-IsJustified :
      (state : RecordState) → Within state records → All IsJustified (plan_record live_dns state)
  unfolding plan_record
  plan_record-IsJustified state m = elim (Bool-cases state.helper_live) [
    | inl q ↦ rw q (lives state m q, tt)
    | inr q ↦ rw q (
        All-map IsJustified (service_action live_dns state.custody) state.custody.services
          (λ s k. service_action-IsJustified state s m q k))
  ]

  plan_records-IsJustified :
      (part : List RecordState)
      → ((state : RecordState) → Within state part → Within state records)
      → All IsJustified (plan_records live_dns part)
  unfolding plan_records
  plan_records-IsJustified [] h = tt
  plan_records-IsJustified (state ∷ rest) h =
      All-append IsJustified (plan_record live_dns state) (plan_records live_dns rest)
        (plan_record-IsJustified state (h state first))
        (plan_records-IsJustified rest (λ s m. h s (later m)))

  plan_stray-IsJustified :
      (entry : Text × Option (List Text))
      → Within entry live_dns
      → All IsJustified (plan_stray (recorded_services records) stored entry)
  unfolding plan_stray
  plan_stray-IsJustified (service, none) m = tt
  plan_stray-IsJustified (service, some dns) m =
      elim (Bool-cases (contains (recorded_services records) service)) [
        | inl q ↦ rw q tt
        | inr q ↦ elim (Bool-cases (shows_stored false stored dns)) [
          | inr d ↦ rw (q, d) tt
          | inl d ↦ elim (Bool-cases (shows_stored true stored dns)) [
            | inl a ↦ rw (q, d, a) tt
            | inr a ↦ rw (q, d, a) (strays service dns m q d a, tt)
          ]
        ]
      ]

  plan_strays-IsJustified :
      (part : LiveDns)
      → ((entry : Text × Option (List Text)) → Within entry part → Within entry live_dns)
      → All IsJustified (plan_strays (recorded_services records) stored part)
  unfolding plan_strays
  plan_strays-IsJustified [] h = tt
  plan_strays-IsJustified (entry ∷ rest) h =
      All-append IsJustified (plan_stray (recorded_services records) stored entry)
        (plan_strays (recorded_services records) stored rest)
        (plan_stray-IsJustified entry (h entry first))
        (plan_strays-IsJustified rest (λ e m. h e (later m)))

  pub plan_dns_sweep-IsJustified : All IsJustified (plan_dns_sweep records live_dns stored)
  unfolding plan_dns_sweep
  plan_dns_sweep-IsJustified =
      All-append IsJustified (plan_records live_dns records)
        (plan_strays (recorded_services records) stored live_dns)
        (plan_records-IsJustified records (λ s m. m)) (plan_strays-IsJustified live_dns (λ e m. m))
