-- ===== src/Daemon/Dispatch/Requests.antt =====
-- `dispatch` of src/privileged/dispatch.rs on the requests that may change the store, and the effects
-- that such a request may have.
use macos_wireguard_daemon.Prelude.{
  ◌≡◌, ◌≢◌, ℕ, Bool, true, false, Option, none, some, List, Eq, Result, ok, is_ok,
}
use macos_wireguard_daemon.Links.Net.{IpNetOps}
use macos_wireguard_daemon.Links.{BypassLink}
use macos_wireguard_daemon.Config.{fingerprint}
use macos_wireguard_daemon.Daemon.Errors.{AppError}
use macos_wireguard_daemon.Daemon.Store.{
  ConnectionStartMode, manual, automatic, StoredConnection, Store, Host, load_in, is_identity, put,
  without,
}
use macos_wireguard_daemon.Daemon.Store.Records.{IsPlaced}
use macos_wireguard_daemon.Daemon.Responses.{PeerOrigin, PrivilegedResponse, authorize_access}
use macos_wireguard_daemon.Daemon.Dispatch.{
  handle_set_connection_mode, handle_set_connection_dns_dynamic_store, handle_remove_connection,
  handle_set_connection_bypass_links, ConnectReason, DisconnectReason,
}
use macos_wireguard_daemon.Daemon.Dispatch.Add.{AddRequest, ConfTools, handle_add_connection}
use macos_wireguard_daemon.Daemon.Dispatch.Refresh.{RefreshRequest, handle_refresh_connection}
use macos_wireguard_daemon.Daemon.Dispatch.Tunnel.{
  TunnelOps, handle_connect_connection, handle_disconnect_connection, handle_reconnect_connection,
}

pub data PrivilegedRequest (N : Type 0) : Type 0 where
  add_connection : AddRequest → PrivilegedRequest N
  remove_connection : ℕ → Option (List ℕ) → PrivilegedRequest N
  set_connection_mode : ℕ → ConnectionStartMode → Option (List ℕ) → PrivilegedRequest N
  set_connection_dns_dynamic_store : ℕ → Bool → PrivilegedRequest N
  set_connection_bypass_links : ℕ → List (BypassLink N) → PrivilegedRequest N
  refresh_connection : ℕ → RefreshRequest → PrivilegedRequest N
  connect_connection : ℕ → Bool → ConnectReason → PrivilegedRequest N
  disconnect_connection : ℕ → DisconnectReason → PrivilegedRequest N
  reconnect_connection : ℕ → PrivilegedRequest N

abbrev pub Entries : Type 0 → Type 0
Entries N = List (ℕ × Result AppError (StoredConnection N))

-- An administrator has authenticated.
abbrev pub IsAdmin : Host → Option (List ℕ) → Type 0
IsAdmin host form =
    (bytes : List ℕ) × (form ≡ some bytes) × (is_ok (host.verify_external_form bytes) ≡ true)

module _ {N : Type 0} where
  -- The authorization that comes with a request.
  abbrev pub form_of : PrivilegedRequest N → Option (List ℕ)
  form_of (add_connection request) = request.auth_external_form
  form_of (remove_connection _ form) = form
  form_of (set_connection_mode _ _ form) = form
  form_of (refresh_connection _ request) = request.auth_external_form
  form_of _ = none

  unfoldable pub dispatch :
      ⦃e : Eq N⦄
      → ⦃f : Eq (BypassLink N)⦄ → Host
      → IpNetOps N
      → ConfTools N
      → TunnelOps N
      → PeerOrigin
      → PrivilegedRequest N
      → Store N
      → PrivilegedResponse N × Store N
  unfolding handle_add_connection handle_remove_connection handle_set_connection_mode
      handle_set_connection_dns_dynamic_store handle_set_connection_bypass_links
      handle_refresh_connection handle_connect_connection handle_disconnect_connection
      handle_reconnect_connection
  dispatch host net tools tunnel origin (add_connection request) st =
      handle_add_connection host net tools origin request st
  dispatch host net tools tunnel origin (remove_connection id form) st =
      handle_remove_connection host origin id form st
  dispatch host net tools tunnel origin (set_connection_mode id mode form) st =
      handle_set_connection_mode host origin id mode form st
  dispatch host net tools tunnel origin (set_connection_dns_dynamic_store id enabled) st =
      handle_set_connection_dns_dynamic_store host origin id enabled st
  dispatch host net tools tunnel origin (set_connection_bypass_links id links) st =
      handle_set_connection_bypass_links host net origin id links st
  dispatch host net tools tunnel origin (refresh_connection id request) st =
      handle_refresh_connection host tunnel net tools origin id request st
  dispatch host net tools tunnel origin (connect_connection id debug reason) st =
      handle_connect_connection host tunnel origin id debug reason st
  dispatch host net tools tunnel origin (disconnect_connection id reason) st =
      handle_disconnect_connection host tunnel origin id reason st
  dispatch host net tools tunnel origin (reconnect_connection id) st =
      handle_reconnect_connection host tunnel origin id st

  -- The second record is the first with other settings: what it runs, whose it is and where it lives
  -- did not change.
  pub record IsEdit (c d : StoredConnection N) : Type 0 where
    pub id : d.id ≡ c.id
    pub fingerprint : d.fingerprint ≡ c.fingerprint
    pub global : d.global ≡ c.global
    pub owner : d.owner_uid ≡ c.owner_uid
    pub config : d.config ≡ c.config
    pub raw_conf : d.raw_conf ≡ c.raw_conf
    pub interface : d.interface ≡ c.interface

  -- The start of a global connection at every boot is switched on.
  abbrev pub IsElevation : StoredConnection N → StoredConnection N → Type 0
  IsElevation c d = (c.global ≡ true) × (c.start_mode ≡ manual) × (d.start_mode ≡ automatic)

  -- The second record is the first with another configuration: whose it is and where it lives did not
  -- change.
  pub record IsReplacement (c d : StoredConnection N) : Type 0 where
    pub id : d.id ≡ c.id
    pub global : d.global ≡ c.global
    pub owner : d.owner_uid ≡ c.owner_uid
    pub interface : d.interface ≡ c.interface
    pub start_mode : d.start_mode ≡ c.start_mode

  -- The record's configuration is what its text parses to, and its fingerprint is that
  -- configuration's.
  abbrev pub IsParsedBy : IpNetOps N → ConfTools N → StoredConnection N → Type 0
  IsParsedBy net tools c =
      (tools.parse c.raw_conf ≡ ok c.config)
      × (c.fingerprint ≡ fingerprint net tools.sha256 c.config)

  -- What a request of this peer with this authorization may do to the records.
  pub data IsEffect (IsParsed : StoredConnection N → Type 0) (host : Host) (origin : PeerOrigin)
      (form : Option (List ℕ)) (before after : Entries N) : Type 0 where
    kept : after ≡ before → IsEffect IsParsed host origin form before after
    edited :
        (c d : StoredConnection N)
        → load_in before c.id ≡ ok (some c)
        → authorize_access c origin ≡ none
        → IsEdit c d
        → (IsElevation c d → IsAdmin host form)
        → after ≡ put c.id d before
        → IsEffect IsParsed host origin form before after
    added :
        (c : StoredConnection N)
        → IsAdmin host form
        → authorize_access c origin ≡ none
        → IsPlaced c
        → IsParsed c
        → ((j : ℕ) (d : StoredConnection N)
            → load_in before j ≡ ok (some d)
            → (is_identity c.fingerprint c.global c.owner_uid d ≡ false)
              × (d.interface ≢ c.interface))
        → after ≡ put c.id c before
        → IsEffect IsParsed host origin form before after
    replaced :
        (c d : StoredConnection N)
        → load_in before c.id ≡ ok (some c)
        → authorize_access c origin ≡ none
        → IsAdmin host form
        → IsReplacement c d
        → IsParsed d
        → ((j : ℕ) (e : StoredConnection N)
            → load_in before j ≡ ok (some e)
            → is_identity d.fingerprint c.global c.owner_uid e ≡ false)
        → after ≡ put c.id d before
        → IsEffect IsParsed host origin form before after
    deleted :
        (c : StoredConnection N)
        → load_in before c.id ≡ ok (some c)
        → authorize_access c origin ≡ none
        → IsAdmin host form
        → after ≡ without c.id before
        → IsEffect IsParsed host origin form before after
