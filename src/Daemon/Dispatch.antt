-- ===== src/Daemon/Dispatch.antt =====
-- src/privileged/dispatch.rs: the requests that set or remove a connection, and the steps that all
-- requests are made of.
--
-- Log lines and notifications are left out. The configuration parser, the rewriting of an `MTU` line
-- and the hash are arguments of the requests that add and refresh a connection.
pub mod Requests
pub mod Auth
pub mod Edits
pub mod Effects
pub mod Invariants
pub mod Parsed
pub mod Intent
pub mod Add
pub mod Tunnel
pub mod Refresh
pub mod Reads
pub mod Mtu
pub mod Stored
use macos_wireguard_daemon.Prelude.{
  ◌≡◌, ℕ, zero, suc, Bool, true, false, not, ◌&&◌, ◌||◌, Option, none, some, is_some, List, [], ◌∷◌,
  ◌++◌, Text, text, Eq, ◌==◌, ℕ_eq, Bool_eq, List_eq, Option_eq, Result, ok, err, is_ok,
  if◌then◌else◌,
}
use macos_wireguard_daemon.Links.Net.{IpNetOps}
use macos_wireguard_daemon.Links.{BypassLink, LinkError, validate_links_strict}
use macos_wireguard_daemon.Config.{ConnectionConfig}
use macos_wireguard_daemon.Daemon.Errors.{
  AppError, json, io, auth, auth_required, wireguard, busy, not_found, other, Message, Piece, plain,
  quoted, display,
}
use macos_wireguard_daemon.Daemon.Store.{
  ConnectionStartMode, manual, automatic, ConnectionStartMode_eq, StoredConnection, Store, Host,
  load, load_in, lock, save, remove, is_active, find_by_identity, find_by_name, find_by_interface,
  allocate_unique_interface, allowed_ips, show_id,
}
use macos_wireguard_daemon.Daemon.Responses.{
  PeerOrigin, socket, stdio, uid, is_root, attributed_owner_uid, PrivilegedResponse, unit,
  connection_id, failed, invalid_link, refusal, not_found_response, auth_denied, auth_needed,
  error_response, lock_error_response, authorize_access, legacy_interface_access_denied,
}

pub data ConnectReason : Type 0 where
  user reconciliation : ConnectReason

pub data DisconnectReason : Type 0 where
  by_user session_teardown : DisconnectReason

module _ {N : Type 0} where
  -- The match on a loaded record.
  unfoldable pub loaded :
      Store N
      → ℕ
      → (StoredConnection N → PrivilegedResponse N × Store N)
      → PrivilegedResponse N × Store N
  unfolding load_in error_response
  loaded st id k = elim (load st id) [
    | err e ↦ (error_response e, st)
    | ok found ↦ elim found [ none ↦ (not_found_response, st) | some stored ↦ k stored ]
  ]

  unfoldable pub authorized :
      Store N
      → StoredConnection N
      → PeerOrigin
      → PrivilegedResponse N × Store N
      → PrivilegedResponse N × Store N
  unfolding authorize_access
  authorized st stored origin rest = elim (authorize_access stored origin) [
    | some denial ↦ (denial, st)
    | none ↦ rest
  ]

  abbrev pub is_elevation : StoredConnection N → ConnectionStartMode → Bool
  is_elevation stored start_mode =
      stored.global && stored.start_mode == manual && start_mode == automatic

  module _ (host : Host) where
    unfoldable pub require_admin_auth :
        Option (List ℕ) → Text → Result (PrivilegedResponse N) (Unit {0})
    require_admin_auth none cause = err (auth_needed cause)
    require_admin_auth (some form) cause = elim (host.verify_external_form form) [
      | ok _ ↦ ok tt
      | err e ↦ err (auth_denied (refusal e))
    ]

    -- The match on a lock.
    unfoldable pub locked :
        Store N → (Store N → PrivilegedResponse N × Store N) → PrivilegedResponse N × Store N
    unfolding lock
    locked st k =
        let (result, st') = lock host st in
        elim result [ ok _ ↦ k st' | err e ↦ (lock_error_response e, st') ]

    unfoldable pub admitted :
        Store N
        → Bool
        → Option (List ℕ)
        → Text
        → PrivilegedResponse N × Store N
        → PrivilegedResponse N × Store N
    unfolding require_admin_auth
    admitted st needed form cause rest =
        if needed
        then elim (require_admin_auth form cause) [ err response ↦ (response, st) | ok _ ↦ rest ]
        else rest

    unfoldable pub updated :
        StoredConnection N → PrivilegedResponse N → Store N → PrivilegedResponse N × Store N
    unfolding save
    updated stored response st =
        let (result, st') = save host stored st in
        (elim result [ ok _ ↦ response | err e ↦ error_response e ], st')

    -- What follows the checks of a mode change.
    unfoldable pub set_mode :
        ConnectionStartMode → StoredConnection N → Store N → PrivilegedResponse N × Store N
    unfolding updated
    set_mode start_mode stored st1 =
        if stored.start_mode == start_mode
        then (unit, st1)
        else updated
            (record stored {
              start_mode = start_mode;
              user_disconnected =
                  if start_mode == automatic then false else stored.user_disconnected;
              updated_at = host.now_unix st1.calls;
            })
            unit st1

    -- The mode change of a loaded record.
    unfoldable pub mode_of_loaded :
        PeerOrigin
        → ConnectionStartMode
        → Option (List ℕ)
        → Store N
        → StoredConnection N
        → PrivilegedResponse N × Store N
    unfolding authorized admitted set_mode
    mode_of_loaded origin start_mode form st1 stored = authorized st1 stored origin (
        admitted st1 (is_elevation stored start_mode) form
          (text
            "enabling automatic startup of a global connection and its hooks as root at every boot")
          (set_mode start_mode stored st1))

    unfoldable pub handle_set_connection_mode :
        PeerOrigin
        → ℕ
        → ConnectionStartMode
        → Option (List ℕ)
        → Store N
        → PrivilegedResponse N × Store N
    unfolding locked loaded mode_of_loaded
    handle_set_connection_mode origin id start_mode form st =
        locked st λ st1. loaded st1 id (mode_of_loaded origin start_mode form st1)

    unfoldable pub set_dns : Bool → StoredConnection N → Store N → PrivilegedResponse N × Store N
    unfolding updated
    set_dns enabled stored st1 =
        if stored.dns_dynamic_store == enabled
        then (unit, st1)
        else updated
            (record stored { dns_dynamic_store = enabled; updated_at = host.now_unix st1.calls })
            unit st1

    unfoldable pub handle_set_connection_dns_dynamic_store :
        PeerOrigin → ℕ → Bool → Store N → PrivilegedResponse N × Store N
    unfolding locked loaded authorized set_dns
    handle_set_connection_dns_dynamic_store origin id enabled st =
        locked st
          λ st1. loaded st1 id λ stored. authorized st1 stored origin (set_dns enabled stored st1)

    -- The removal, once the record's lock is held.
    unfoldable pub remove_locked : ℕ → Option (List ℕ) → Store N → PrivilegedResponse N × Store N
    unfolding is_active admitted remove
    remove_locked id form st2 = elim (is_active st2 id) [
      | err e ↦ (error_response e, st2)
      | ok active ↦
          if active
          then (
            failed (text "Busy")
                (plain (text "connection is active; disconnect it before removing") ∷ []),
            st2,
          )
          else admitted st2 true form
              (text
                "removing a stored connection configuration from the privileged connection store")
              (let (result, st') = remove host id st2 in
                (elim result [ ok _ ↦ unit | err e ↦ error_response e ], st'))
    ]

    unfoldable pub handle_remove_connection :
        PeerOrigin → ℕ → Option (List ℕ) → Store N → PrivilegedResponse N × Store N
    unfolding locked loaded authorized remove_locked
    handle_remove_connection origin id form st = locked st λ st1.
        loaded st1 id λ stored. authorized st1 stored origin (locked st1 (remove_locked id form))

    unfoldable pub set_links :
        ⦃e : Eq N⦄
        → ⦃f : Eq (BypassLink N)⦄ → IpNetOps N
        → List (BypassLink N)
        → StoredConnection N
        → Store N
        → PrivilegedResponse N × Store N
    unfolding updated
    set_links net links stored st1 = elim (validate_links_strict net links (allowed_ips stored)) [
      | err error ↦ (invalid_link error, st1)
      | ok valid ↦
          if stored.bypass_links == valid
          then (unit, st1)
          else updated
              (record stored { bypass_links = valid; updated_at = host.now_unix st1.calls }) unit
              st1
    ]

    unfoldable pub handle_set_connection_bypass_links :
        ⦃e : Eq N⦄
        → ⦃f : Eq (BypassLink N)⦄ → IpNetOps N
        → PeerOrigin
        → ℕ
        → List (BypassLink N)
        → Store N
        → PrivilegedResponse N × Store N
    unfolding locked loaded authorized set_links
    handle_set_connection_bypass_links net origin id links st =
        locked st λ st1.
          loaded st1 id λ stored. authorized st1 stored origin (set_links net links stored st1)

    -- Whether a connect may go on, with the record as it then is.
    unfoldable pub resolve_connect_intent :
        ℕ → ConnectReason → Store N → Result AppError Bool × Store N
    unfolding save
    resolve_connect_intent id reason st = elim (load st id) [
      | err e ↦ (err e, st)
      | ok found ↦ elim found [
        | none ↦ (ok true, st)
        | some stored ↦ elim reason [
          | user ↦
              if stored.user_disconnected
              then (let (result, st') =
                    save host (record stored { user_disconnected = false }) st in
                  (elim result [ ok _ ↦ ok true | err e ↦ err e ], st'))
              else (ok true, st)
          | reconciliation ↦ (ok (not stored.user_disconnected), st)
        ]
      ]
    ]

    unfoldable pub mark_user_disconnected :
        ℕ → DisconnectReason → Store N → Result AppError (Unit {0}) × Store N
    unfolding save
    mark_user_disconnected id session_teardown st = (ok tt, st)
    mark_user_disconnected id by_user st = elim (load st id) [
      | err e ↦ (err e, st)
      | ok found ↦ elim found [
        | none ↦ (ok tt, st)
        | some stored ↦
            if not stored.user_disconnected
            then save host (record stored { user_disconnected = true }) st
            else (ok tt, st)
      ]
    ]
