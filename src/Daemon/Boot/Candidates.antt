-- ===== src/Daemon/Boot/Candidates.antt =====
-- Which records the reconciliation at boot connects.
use macos_wireguard_daemon.Prelude.{
  ◌≡◌, ◌≢◌, refl, Within, first, later, ℕ, Bool, true, false, Option, none, some, List, [], ◌∷◌,
  Text, All, arith, ==_iff, ℕ_eq, List_eq, retain, ok, Result-cases, Option-cases, Bool-cases, inl,
  inr,
}
use macos_wireguard_daemon.Daemon.Store.{
  automatic, ConnectionStartMode_eq, StoredConnection, Store, Host, load, load_all_in, is_active,
  lock,
}
use macos_wireguard_daemon.Daemon.Dispatch.Tunnel.{TunnelOps}
use macos_wireguard_daemon.Daemon.Boot.{
  is_candidate, boot_reconcile_candidates, reconcile_locked, reconcile_connect, reconcile_each,
  reconcile_boot_once, mark_reconciled_this_boot, already_reconciled_this_boot, reconcile_boot,
}

-- The id is that of a record which the listing of this store shows as global, automatic, not
-- disconnected by the user and not up.
pub record IsListed {N : Type 0} (listing : Store N) (id : ℕ) : Type 0 where
  pub listed : StoredConnection N
  pub within : Within listed (load_all_in listing.entries)
  pub same : listed.id ≡ id
  pub global : listed.global ≡ true
  pub automatic_start : listed.start_mode ≡ automatic
  pub wanted : listed.user_disconnected ≡ false
  pub down : is_active listing id ≢ ok true

module _ {N : Type 0} where
  -- The record, as it now is, was not disconnected by the user.
  abbrev pub IsWanted : Store N → ℕ → Type 0
  IsWanted st id = (c : StoredConnection N) → load st id ≡ ok (some c) → c.user_disconnected ≡ false

  candidates-IsListed :
      (st : Store N) (conns : List (StoredConnection N))
      → ((c : StoredConnection N) → Within c conns → Within c (load_all_in st.entries))
      → All (IsListed st) (boot_reconcile_candidates st conns)
  unfolding boot_reconcile_candidates retain is_candidate
  candidates-IsListed st [] m = tt
  candidates-IsListed st (c ∷ rest) m = elim (Bool-cases (is_candidate st c)) [
    | inr q ↦ rw q (candidates-IsListed st rest (λ d k. m d (later k)))
    | inl q ↦ rw q (
      record {
        listed = c;
        within = m c first;
        same = refl;
        global = ground (arith, q);
        automatic_start = ground (arith, q, ==_iff c.start_mode automatic);
        wanted = ground (arith, q);
        down = λ up. ground (arith, q, up);
      },
      candidates-IsListed st rest (λ d k. m d (later k)),
    )
  ]

  module _ (host : Host) (tunnel : TunnelOps N) (I : Store N → Type 0)
      (locks : (st : Store N) → I st → I (lock host st).1)
      (connects : (listing : Store N) (id : ℕ) (st : Store N)
        → I listing
        → IsListed listing id
        → IsWanted st id
        → I st
        → I (tunnel.connect id false st).1) where
    locked_lem :
        (listing : Store N) (id : ℕ) (st : Store N)
        → I listing
        → IsListed listing id
        → I st
        → I (reconcile_locked host tunnel id st).1
    unfolding reconcile_locked
    locked_lem listing id st g s h = elim (Result-cases (load st id)) [
      | inr (error, q) ↦ rw (q, reconcile_locked) h
      | inl (found, q) ↦ elim (Option-cases found) [
        | inl n ↦
            rw (q, n, reconcile_locked)
              (connects listing id st g s (λ c l. absurd (ground (arith, q, n, l))) h)
        | inr (c, n) ↦ elim (Bool-cases c.user_disconnected) [
          | inl d ↦ rw (q, n, d, reconcile_locked) h
          | inr d ↦
              rw (q, n, d, reconcile_locked)
                (connects listing id st g s (λ c' l. ground (arith, q, n, l, d)) h)
        ]
      ]
    ]

    connect_lem :
        (listing : Store N) (id : ℕ) (st : Store N)
        → I listing
        → IsListed listing id
        → I st
        → I (reconcile_connect host tunnel id st).1
    unfolding reconcile_connect
    connect_lem listing id st g s h = elim (Result-cases (lock host st).0) [
      | inr (error, q) ↦ rw (q, reconcile_connect) (locks st h)
      | inl (a, q) ↦
          rw (q, reconcile_connect) (locked_lem listing id (lock host st).1 g s (locks st h))
    ]

    each_lem :
        (listing : Store N) (ids : List ℕ) (all_succeeded : Bool) (st : Store N)
        → I listing
        → All (IsListed listing) ids
        → I st
        → I (reconcile_each host tunnel ids all_succeeded st).1
    unfolding reconcile_each
    each_lem listing [] all_succeeded st g s h = h
    each_lem listing (id ∷ rest) all_succeeded st g s h =
        each_lem listing rest _ (reconcile_connect host tunnel id st).1 g s.1
          (connect_lem listing id st g s.0 h)

    once_lem : (st : Store N) → I st → I (reconcile_boot_once host tunnel st).1
    unfolding reconcile_boot_once
    once_lem st h = elim (Result-cases (lock host st).0) [
      | inr (error, q) ↦ rw (q, reconcile_boot_once) (locks st h)
      | inl (a, q) ↦
          let st1 = (lock host st).1 in
          rw (q, reconcile_boot_once)
            (each_lem st1 (boot_reconcile_candidates st1 (load_all_in st1.entries)) true st1
              (locks st h) (candidates-IsListed st1 (load_all_in st1.entries) (λ c m. m))
              (locks st h))
    ]

    -- The reconciliation at boot connects only records that its listing shows as global, automatic, not
    -- disconnected by the user and not up, and that are not disconnected by the user either when it
    -- holds their lock: it keeps every property of the store that such a connect keeps where the
    -- listing had it, on the condition that the calls which only fail or not keep it too.
    pub reconcile_boot-connects :
        (boot_id : Option Text) (marker : Option Text) (st : Store N)
        → I st
        → I (reconcile_boot host tunnel boot_id (marker, st)).1
    unfolding reconcile_boot mark_reconciled_this_boot
    reconcile_boot-connects none marker st h = once_lem st h
    reconcile_boot-connects (some boot_id) marker st h =
        elim (Bool-cases (already_reconciled_this_boot boot_id marker)) [
          | inl m ↦ rw (m, reconcile_boot) h
          | inr m ↦ elim (Bool-cases (reconcile_boot_once host tunnel st).0) [
            | inl d ↦ rw (m, d, reconcile_boot) (locks _ (once_lem st h))
            | inr d ↦ rw (m, d, reconcile_boot) (once_lem st h)
          ]
        ]
