-- ===== src/Daemon/Dispatch/Add.antt =====
-- `handle_add_connection` and `reconcile_existing_add` of src/privileged/dispatch.rs.
pub mod Effect
use macos_wireguard_daemon.Prelude.{
  ◌≡◌, ℕ, Bool, true, false, not, ◌&&◌, ◌||◌, Option, none, some, is_some, List, [], ◌∷◌, ◌++◌,
  Text, text, Eq, ◌==◌, ℕ_eq, Bool_eq, List_eq, Option_eq, Result, ok, err, if◌then◌else◌,
}
use macos_wireguard_daemon.Links.Net.{IpNetOps}
use macos_wireguard_daemon.Links.Spec.{NetText}
use macos_wireguard_daemon.Config.{ConnectionConfig, fingerprint}
use macos_wireguard_daemon.Daemon.Errors.{AppError, plain, quoted}
use macos_wireguard_daemon.Daemon.Store.{
  ConnectionStartMode, manual, automatic, ConnectionStartMode_eq, StoredConnection, Store, Host,
  lock, save, find_by_identity, find_by_name, allocate_unique_interface, show_id,
}
use macos_wireguard_daemon.Daemon.Responses.{
  PeerOrigin, is_root, attributed_owner_uid, PrivilegedResponse, connection_id, failed, auth_denied,
  error_response,
}
use macos_wireguard_daemon.Daemon.Dispatch.{require_admin_auth, locked, admitted, updated}

-- The fields of `AddConnection`.
pub record AddRequest : Type 0 where
  pub conf_text : Text
  pub global : Bool
  pub start_mode : ConnectionStartMode
  pub name : Option Text
  pub mtu_override : Option ℕ
  pub force : Bool
  pub source_path : Option Text
  pub auth_external_form : Option (List ℕ)

-- The texts of networks, `parse_connection_config`, `apply_mtu_override_to_conf_text` and the hash.
pub record ConfTools (N : Type 0) : Type 0 where
  pub texts : NetText N
  pub parse : Text → Result AppError (ConnectionConfig N)
  pub with_mtu : Text → ℕ → Text
  pub sha256 : List ℕ → List ℕ

module _ {N : Type 0} where
  abbrev pub name_in_use : Text → ℕ → PrivilegedResponse N
  name_in_use name id = failed (text "NameInUse") (
      plain (text "a connection named ")
      ∷ quoted name
      ∷ plain (text " already exists (")
      ∷ plain (show_id id)
      ∷ plain (text "); remove it first, or resubmit allowing the name to be replaced")
      ∷ [])

  -- The refusal of a name that another record has, unless forced. The last argument is the record
  -- itself, where it exists already.
  unfoldable pub name_conflict :
      Bool → Option Text → Bool → Option ℕ → Option ℕ → Store N → Option (PrivilegedResponse N)
  name_conflict true name global owner_uid self st = none
  name_conflict false none global owner_uid self st = none
  name_conflict false (some name) global owner_uid self st =
      elim (find_by_name st name global owner_uid) [
        | err e ↦ some (error_response e)
        | ok found ↦ elim found [
          | none ↦ none
          | some existing ↦
              if some existing.id == self then none else some (name_in_use name existing.id)
        ]
      ]

  module _ (host : Host) where
    -- The record that a resubmission asks for.
    unfoldable pub reconciled : StoredConnection N → AddRequest → ℕ → StoredConnection N
    reconciled existing request now =
        let name_changed = is_some request.name && not (request.name == existing.name) in
        let source_changed =
          is_some request.source_path && not (request.source_path == existing.source_path) in
        let mode_changed = not (request.start_mode == existing.start_mode) in
        record existing {
          name = if name_changed then request.name else existing.name;
          source_path = if source_changed then request.source_path else existing.source_path;
          start_mode = request.start_mode;
          user_disconnected =
              if mode_changed && request.start_mode == automatic
              then false
              else existing.user_disconnected;
          updated_at = now;
        }

    -- The write of a resubmission, with the record's lock held.
    unfoldable pub write_reconciled :
        StoredConnection N → AddRequest → Store N → PrivilegedResponse N × Store N
    unfolding reconciled updated
    write_reconciled existing request st1 =
        updated host (reconciled existing request (host.now_unix st1.calls))
          (connection_id existing.id) st1

    abbrev pub elevates : StoredConnection N → AddRequest → Bool
    elevates existing request =
        not (request.start_mode == existing.start_mode)
        && existing.global
        && existing.start_mode == manual
        && request.start_mode == automatic

    unfoldable pub reconcile_existing_add :
        StoredConnection N → AddRequest → Store N → PrivilegedResponse N × Store N
    unfolding name_conflict locked write_reconciled admitted
    reconcile_existing_add existing request st =
        let name_changed = is_some request.name && not (request.name == existing.name) in
        let mode_changed = not (request.start_mode == existing.start_mode) in
        let source_changed =
          is_some request.source_path && not (request.source_path == existing.source_path) in
        let conflict =
          if name_changed
          then name_conflict request.force request.name existing.global existing.owner_uid
              (some existing.id) st
          else none in
        if not name_changed && not mode_changed && not source_changed
        then (connection_id existing.id, st)
        else elim conflict [
          | some response ↦ (response, st)
          | none ↦
              admitted host st (elevates existing request) request.auth_external_form
                (text
                  "enabling automatic startup of a global connection and its hooks as root at every boot")
                (locked host st (write_reconciled existing request))
        ]

    -- The record of a new connection.
    unfoldable pub created :
        AddRequest → Option ℕ → Text → ConnectionConfig N → Text → ℕ → Text → ℕ → StoredConnection N
    created request owner_uid conf_text config print id interface now = record {
      id = id;
      fingerprint = print;
      global = request.global;
      owner_uid = owner_uid;
      start_mode = request.start_mode;
      name = request.name;
      config = config;
      raw_conf = conf_text;
      interface = interface;
      created_at = now;
      updated_at = now;
      user_disconnected = false;
      source_path = request.source_path;
      mtu_override = request.mtu_override;
      dns_dynamic_store = false;
      bypass_links = [];
    }

    -- The part of an add behind its checks.
    unfoldable pub store_new :
        AddRequest
        → Option ℕ
        → Text
        → ConnectionConfig N
        → Text
        → Store N
        → PrivilegedResponse N × Store N
    unfolding allocate_unique_interface created updated
    store_new request owner_uid conf_text config print st =
        let (result, st') = allocate_unique_interface host st in
        elim result [
          | err e ↦ (error_response e, st')
          | ok allocated ↦
              updated host
                (created request owner_uid conf_text config print allocated.0 allocated.1
                  (host.now_unix st'.calls))
                (connection_id allocated.0) st'
        ]

    -- The part of an add for a configuration that no record has.
    unfoldable pub add_new :
        AddRequest
        → Option ℕ
        → Text
        → ConnectionConfig N
        → Text
        → Store N
        → PrivilegedResponse N × Store N
    unfolding name_conflict admitted store_new
    add_new request owner_uid conf_text config print st =
        elim (name_conflict request.force request.name request.global owner_uid none st) [
          | some response ↦ (response, st)
          | none ↦
              admitted host st true request.auth_external_form
                (text
                  "storing a new or changed connection configuration that may contain hooks executed as root")
                (store_new request owner_uid conf_text config print st)
        ]

    -- The part of an add with the index lock held.
    unfoldable pub add_parsed :
        AddRequest
        → Option ℕ
        → Text
        → ConnectionConfig N
        → Text
        → Store N
        → PrivilegedResponse N × Store N
    unfolding find_by_identity reconcile_existing_add add_new
    add_parsed request owner_uid conf_text config print st1 =
        elim (find_by_identity st1 print request.global owner_uid) [
          | err e ↦ (error_response e, st1)
          | ok found ↦ elim found [
            | some existing ↦ reconcile_existing_add existing request st1
            | none ↦ add_new request owner_uid conf_text config print st1
          ]
        ]

    unfoldable pub handle_add_connection :
        IpNetOps N
        → ConfTools N
        → PeerOrigin
        → AddRequest
        → Store N
        → PrivilegedResponse N × Store N
    unfolding fingerprint locked add_parsed
    handle_add_connection net tools origin request st =
        let owner_uid = if request.global then none else some (attributed_owner_uid origin) in
        let conf_text : Text = elim request.mtu_override [
          | some mtu ↦ tools.with_mtu request.conf_text mtu
          | none ↦ request.conf_text
        ] in
        if request.global && not (is_root origin)
        then (auth_denied (plain (text "adding a global connection requires root") ∷ []), st)
        else elim (tools.parse conf_text) [
          | err e ↦ (error_response e, st)
          | ok config ↦
              locked host st (
                add_parsed request owner_uid conf_text config (fingerprint net tools.sha256 config))
        ]
