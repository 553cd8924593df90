-- ===== src/Daemon/Boot.antt =====
-- The reconciliation at boot of src/privileged/connection_store.rs. The boot's id is an argument, and
-- listing the records and writing the marker are calls of the host that only fail or not.
pub mod Candidates
use macos_wireguard_daemon.Prelude.{
  ◌≡◌, ℕ, Bool, true, false, not, ◌&&◌, Option, none, some, List, [], ◌∷◌, map, Text, Eq, ◌==◌,
  ℕ_eq, List_eq, retain, Result, ok, err, is_ok, trim, if◌then◌else◌,
}
use macos_wireguard_daemon.Daemon.Errors.{AppError}
use macos_wireguard_daemon.Daemon.Store.{
  automatic, ConnectionStartMode_eq, StoredConnection, Store, Host, load, load_all_in, is_active,
  lock,
}
use macos_wireguard_daemon.Daemon.Dispatch.Tunnel.{TunnelOps}

abbrev pub already_reconciled_this_boot : Text → Option Text → Bool
already_reconciled_this_boot boot_id none = false
already_reconciled_this_boot boot_id (some contents) = trim contents == boot_id

-- The marker's text and the store.
abbrev pub BootState : Type 0 → Type 0
BootState N = Option Text × Store N

module _ {N : Type 0} where
  -- Whether a record is to be connected at boot.
  unfoldable pub is_candidate : Store N → StoredConnection N → Bool
  unfolding is_active
  is_candidate st c =
      c.global
      && c.start_mode == automatic
      && not c.user_disconnected
      && not (elim (is_active st c.id) [ ok active ↦ active | err _ ↦ false ])

  unfoldable pub boot_reconcile_candidates : Store N → List (StoredConnection N) → List ℕ
  unfolding is_candidate
  boot_reconcile_candidates st connections = map (λ c. c.id) (retain (is_candidate st) connections)

  module _ (host : Host) (tunnel : TunnelOps N) where
    -- The part with the record's lock held.
    unfoldable pub reconcile_locked : ℕ → Store N → Result AppError (Unit {0}) × Store N
    reconcile_locked id st = elim (load st id) [
      | err e ↦ (err e, st)
      | ok found ↦ elim found [
        | none ↦ tunnel.connect id false st
        | some stored ↦ if stored.user_disconnected then (ok tt, st) else tunnel.connect id false st
      ]
    ]

    unfoldable pub reconcile_connect : ℕ → Store N → Result AppError (Unit {0}) × Store N
    unfolding lock reconcile_locked
    reconcile_connect id st =
        let (result, st') = lock host st in
        elim result [ err e ↦ (err e, st') | ok _ ↦ reconcile_locked id st' ]

    -- The loop over the candidates, and whether all of them were connected.
    unfoldable pub reconcile_each : List ℕ → Bool → Store N → Bool × Store N
    unfolding reconcile_connect
    reconcile_each [] all_succeeded st = (all_succeeded, st)
    reconcile_each (id ∷ rest) all_succeeded st =
        let (result, st') = reconcile_connect id st in
        reconcile_each rest (if is_ok result then all_succeeded else false) st'

    unfoldable pub reconcile_boot_once : Store N → Bool × Store N
    unfolding lock boot_reconcile_candidates load_all_in reconcile_each
    reconcile_boot_once st =
        let (listed, st1) = lock host st in
        elim listed [
          | err _ ↦ (false, st1)
          | ok _ ↦ reconcile_each (boot_reconcile_candidates st1 (load_all_in st1.entries)) true st1
        ]

    unfoldable pub mark_reconciled_this_boot : Text → BootState N → BootState N
    unfolding lock
    mark_reconciled_this_boot boot_id (marker, st) =
        let (written, st') = lock host st in (if is_ok written then some boot_id else marker, st')

    unfoldable pub reconcile_boot : Option Text → BootState N → BootState N
    unfolding reconcile_boot_once mark_reconciled_this_boot
    reconcile_boot none (marker, st) = (marker, (reconcile_boot_once st).1)
    reconcile_boot (some boot_id) (marker, st) =
        if already_reconciled_this_boot boot_id marker
        then (marker, st)
        else let (done, st') = reconcile_boot_once st in
          if done then mark_reconciled_this_boot boot_id (marker, st') else (marker, st')
