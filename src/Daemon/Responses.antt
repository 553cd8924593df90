-- ===== src/Daemon/Responses.antt =====
-- src/privileged/dispatch.rs: the peers of the daemon, its responses, and the peers' access to records.
use macos_wireguard_daemon.Prelude.{
  ℕ, Bool, true, ◌||◌, Option, none, some, List, [], ◌∷◌, Text, text, ◌==◌, ℕ_eq, Bool_eq, List_eq,
  Option_eq, if◌then◌else◌,
}
use macos_wireguard_daemon.Links.{LinkError}
use macos_wireguard_daemon.Daemon.Errors.{AppError, io, auth, wireguard, Message, plain, display}
use macos_wireguard_daemon.Daemon.Store.{
  ConnectionStartMode_eq, StoredConnection, Store, find_by_interface,
}

-- The peer's uid, or the stdio transport, with the uid that `SUDO_UID` names there.
pub data PeerOrigin : Type 0 where
  socket : ℕ → PeerOrigin
  stdio : Option ℕ → PeerOrigin

abbrev pub uid : PeerOrigin → ℕ
uid (socket u) = u
uid (stdio _) = 0

abbrev pub is_root : PeerOrigin → Bool
is_root origin = uid origin == 0

abbrev pub attributed_owner_uid : PeerOrigin → ℕ
attributed_owner_uid (socket u) = u
attributed_owner_uid (stdio none) = 0
attributed_owner_uid (stdio (some u)) = u

-- What a refresh did. The texts of the dropped links are messages.
pub record RefreshOutcome : Type 0 where
  pub changed : Bool
  pub reconnected : Bool
  pub links_removed : List Message

-- The responses of these requests. An invalid link is reported by the text of its error.
pub data PrivilegedResponse (N : Type 0) : Type 0 where
  unit : PrivilegedResponse N
  bool : Bool → PrivilegedResponse N
  refreshed : RefreshOutcome → PrivilegedResponse N
  connection_id : ℕ → PrivilegedResponse N
  failed : Text → Message → PrivilegedResponse N
  invalid_link : LinkError N → PrivilegedResponse N

-- The message of a refused authorization.
abbrev pub refusal : AppError → Message
refusal (auth message) = message
refusal e = display e

module _ {N : Type 0} where
  abbrev pub not_found_response : PrivilegedResponse N
  not_found_response = failed (text "NotFound") (plain (text "connection not found") ∷ [])

  abbrev pub auth_denied : Message → PrivilegedResponse N
  auth_denied message = failed (text "Auth") message

  abbrev pub auth_needed : Text → PrivilegedResponse N
  auth_needed cause =
      failed (text "AuthRequired")
        (plain (text "admin authentication required: ") ∷ plain cause ∷ [])

  unfoldable pub error_response : AppError → PrivilegedResponse N
  error_response (auth message) = auth_denied message
  error_response (wireguard message) = failed (text "WireGuard") message
  error_response e = failed (text "Other") (display e)

  unfoldable pub lock_error_response : AppError → PrivilegedResponse N
  unfolding error_response
  lock_error_response (io true message) = failed (text "Busy") (
      plain (text "another operation on this connection is in progress; retry once it finishes")
      ∷ [])
  lock_error_response e = error_response e

  -- A denial, or none.
  unfoldable pub authorize_access : StoredConnection N → PeerOrigin → Option (PrivilegedResponse N)
  authorize_access stored origin =
      let authorized =
        if stored.global
        then is_root origin
        else is_root origin || some (uid origin) == stored.owner_uid in
      if authorized
      then none
      else some (auth_denied (plain (text "not authorized for this connection") ∷ []))

  unfoldable pub legacy_interface_access_denied :
      Store N → Text → PeerOrigin → Option (PrivilegedResponse N)
  unfolding find_by_interface authorize_access
  legacy_interface_access_denied st interface origin = elim (find_by_interface st interface) [
    | some stored ↦ authorize_access stored origin
    | none ↦ none
  ]
