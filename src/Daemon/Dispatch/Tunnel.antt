-- ===== src/Daemon/Dispatch/Tunnel.antt =====
-- The connect, disconnect and reconnect requests of src/privileged/dispatch.rs, each with its worker
-- thread's body. Bringing a tunnel up and down, which src/privileged/connection_ops.rs does, is an
-- interface.
pub mod Effect
use macos_wireguard_daemon.Prelude.{
  ◌≡◌, ℕ, Bool, true, false, Option, none, some, List, [], ◌∷◌, ◌++◌, text, Result, ok, err,
  if◌then◌else◌,
}
use macos_wireguard_daemon.Daemon.Errors.{AppError, Message, plain, display}
use macos_wireguard_daemon.Daemon.Store.{StoredConnection, Store, Host, active_debug}
use macos_wireguard_daemon.Daemon.Responses.{
  PeerOrigin, PrivilegedResponse, unit, bool, failed, error_response,
}
use macos_wireguard_daemon.Daemon.Dispatch.{
  ConnectReason, DisconnectReason, locked, loaded, authorized, resolve_connect_intent,
  mark_user_disconnected,
}

-- `connect` and `disconnect` start and stop a helper. They change the markers of what is up, and no
-- record.
pub record TunnelOps (N : Type 0) : Type 0 where
  pub connect : ℕ → Bool → Store N → Result AppError (Unit {0}) × Store N
  pub disconnect : ℕ → Store N → Result AppError (Unit {0}) × Store N
  pub connect-entries :
      (id : ℕ) (debug : Bool) (st : Store N) → (connect id debug st).1.entries ≡ st.entries
  pub disconnect-entries : (id : ℕ) (st : Store N) → (disconnect id st).1.entries ≡ st.entries

abbrev pub not_disconnected : Message
not_disconnected =
    plain (text "could not disconnect before reconnecting; the connection may still be up: ") ∷ []

abbrev pub not_reconnected : Message
not_reconnected =
    plain (text "disconnected, but connecting again failed (the connection is down): ") ∷ []

module _ {N : Type 0} where
  -- The response to what a call answers.
  abbrev pub answered : Result AppError (Unit {0}) × Store N → PrivilegedResponse N × Store N
  answered (result, st) = (elim result [ ok _ ↦ unit | err e ↦ error_response e ], st)

  -- A call whose failure the response explains, and what follows it.
  unfoldable pub explained :
      Message
      → Result AppError (Unit {0}) × Store N
      → (Store N → PrivilegedResponse N × Store N)
      → PrivilegedResponse N × Store N
  explained message (result, st) k = elim result [
    | ok _ ↦ k st
    | err e ↦ (failed (text "Other") (message ++ display e), st)
  ]

  module _ (host : Host) (tunnel : TunnelOps N) where
    unfoldable pub connect_locked :
        ℕ → Bool → ConnectReason → Store N → PrivilegedResponse N × Store N
    unfolding resolve_connect_intent error_response
    connect_locked id debug reason st1 =
        let (intent, st2) = resolve_connect_intent host id reason st1 in
        elim intent [
          | err e ↦ (error_response e, st2)
          | ok proceed ↦ if proceed then answered (tunnel.connect id debug st2) else (unit, st2)
        ]

    unfoldable pub handle_connect_connection :
        PeerOrigin → ℕ → Bool → ConnectReason → Store N → PrivilegedResponse N × Store N
    unfolding loaded authorized locked connect_locked
    handle_connect_connection origin id debug reason st =
        loaded st id
          λ stored. authorized st stored origin (locked host st (connect_locked id debug reason))

    unfoldable pub disconnect_locked :
        ℕ → DisconnectReason → Store N → PrivilegedResponse N × Store N
    unfolding mark_user_disconnected error_response
    disconnect_locked id reason st1 =
        let (marked, st2) = mark_user_disconnected host id reason st1 in
        elim marked [ err e ↦ (error_response e, st2) | ok _ ↦ answered (tunnel.disconnect id st2) ]

    unfoldable pub handle_disconnect_connection :
        PeerOrigin → ℕ → DisconnectReason → Store N → PrivilegedResponse N × Store N
    unfolding loaded authorized locked disconnect_locked
    handle_disconnect_connection origin id reason st =
        loaded st id
          λ stored. authorized st stored origin (locked host st (disconnect_locked id reason))

    -- The second half of a reconnect.
    unfoldable pub reconnect_down : ℕ → Bool → Store N → PrivilegedResponse N × Store N
    unfolding explained
    reconnect_down id debug_enabled st1 =
        explained not_reconnected (tunnel.connect id debug_enabled st1) λ st2. (bool true, st2)

    -- The part of a reconnect for a connection that is up.
    unfoldable pub reconnect_up : ℕ → Bool → Store N → PrivilegedResponse N × Store N
    unfolding explained reconnect_down
    reconnect_up id debug_enabled st =
        explained not_disconnected (tunnel.disconnect id st) (reconnect_down id debug_enabled)

    unfoldable pub reconnect_connection : ℕ → Store N → PrivilegedResponse N × Store N
    unfolding active_debug error_response reconnect_up
    reconnect_connection id st = elim (active_debug st id) [
      | err e ↦ (error_response e, st)
      | ok found ↦ elim found [
        | none ↦ (bool false, st)
        | some debug_enabled ↦ reconnect_up id debug_enabled st
      ]
    ]

    unfoldable pub handle_reconnect_connection :
        PeerOrigin → ℕ → Store N → PrivilegedResponse N × Store N
    unfolding loaded authorized locked reconnect_connection
    handle_reconnect_connection origin id st =
        loaded st id
          λ stored. authorized st stored origin (locked host st (reconnect_connection id))
