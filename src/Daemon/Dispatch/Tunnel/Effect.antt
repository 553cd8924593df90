-- ===== src/Daemon/Dispatch/Tunnel/Effect.antt =====
-- The effects of the requests that connect, disconnect and reconnect.
use macos_wireguard_daemon.Prelude.{
  ◌≡◌, refl, sym, ap, ◌∙◌, ℕ, Bool, true, false, not, Option, none, some, List, arith, ok, Result,
  Result-cases, Option-cases, Bool-cases, inl, inr,
}
use macos_wireguard_daemon.Daemon.Errors.{AppError, Message}
use macos_wireguard_daemon.Daemon.Store.{
  StoredConnection, Store, Host, load, load_in, save, put, active_debug,
}
use macos_wireguard_daemon.Daemon.Responses.{PeerOrigin, PrivilegedResponse, bool, authorize_access}
use macos_wireguard_daemon.Daemon.Dispatch.{
  loaded, authorized, locked, ConnectReason, user, reconciliation, DisconnectReason, by_user,
  session_teardown, resolve_connect_intent, mark_user_disconnected,
}
use macos_wireguard_daemon.Daemon.Dispatch.Requests.{Entries, IsEffect, kept, edited}
use macos_wireguard_daemon.Daemon.Dispatch.Auth.{
  settings-IsEdit, HasEffect, locked_effect, loaded_effect, authorized_effect,
}
use macos_wireguard_daemon.Daemon.Dispatch.Tunnel.{
  TunnelOps, explained, connect_locked, disconnect_locked, reconnect_up, reconnect_down,
  not_disconnected, not_reconnected, reconnect_connection, handle_connect_connection,
  handle_disconnect_connection, handle_reconnect_connection,
}

module _ {N : Type 0} (IsParsed : StoredConnection N → Type 0) (host : Host)
    (origin : PeerOrigin) where
  -- The intent of a record is one of its settings.
  intent_effect :
      (form : Option (List ℕ)) (es after : Entries N) (c : StoredConnection N) (flag : Bool)
      → load_in es c.id ≡ ok (some c)
      → authorize_access c origin ≡ none
      → after ≡ put c.id (record c { user_disconnected = flag }) es
      → IsEffect IsParsed host origin form es after
  intent_effect form es after c flag l a e =
      edited c (record c { user_disconnected = flag }) l a (settings-IsEdit c _ _ _ _ _ _ _)
        (λ up. absurd (ground (arith, up))) e

  resolve_effect :
      (es : Entries N) (id : ℕ) (reason : ConnectReason) (st : Store N) (c : StoredConnection N)
      → st.entries ≡ es
      → load_in es c.id ≡ ok (some c)
      → c.id ≡ id
      → authorize_access c origin ≡ none
      → IsEffect IsParsed host origin none es (resolve_connect_intent host id reason st).1.entries
  unfolding resolve_connect_intent save
  resolve_effect es id reconciliation st c e l i a = kept (ground (arith, e, l, i))
  resolve_effect es id user st c e l i a =
      let l' : load st id ≡ ok (some c) =
        ap (λ (es' : Entries N). load_in es' id) e ∙ ap (load_in es) (sym i) ∙ l in
      elim (Bool-cases c.user_disconnected) [
        | inr u ↦ rw (l', resolve_connect_intent, u) (kept e)
        | inl u ↦ elim (Option-cases (host.fault st.calls)) [
          | inr (error, f) ↦ rw (l', resolve_connect_intent, u, f, save) (kept e)
          | inl f ↦
              rw (l', resolve_connect_intent, u, f, save)
                (intent_effect none es _ c false l a (rw e refl))
        ]
      ]

  mark_effect :
      (es : Entries N) (id : ℕ) (reason : DisconnectReason) (st : Store N) (c : StoredConnection N)
      → st.entries ≡ es
      → load_in es c.id ≡ ok (some c)
      → c.id ≡ id
      → authorize_access c origin ≡ none
      → IsEffect IsParsed host origin none es (mark_user_disconnected host id reason st).1.entries
  unfolding mark_user_disconnected save
  mark_effect es id session_teardown st c e l i a = kept e
  mark_effect es id by_user st c e l i a =
      let l' : load st id ≡ ok (some c) =
        ap (λ (es' : Entries N). load_in es' id) e ∙ ap (load_in es) (sym i) ∙ l in
      elim (Bool-cases (not c.user_disconnected)) [
        | inr u ↦ rw (l', mark_user_disconnected, u) (kept e)
        | inl u ↦ elim (Option-cases (host.fault st.calls)) [
          | inr (error, f) ↦ rw (l', mark_user_disconnected, u, f, save) (kept e)
          | inl f ↦
              rw (l', mark_user_disconnected, u, f, save)
                (intent_effect none es _ c true l a (rw e refl))
        ]
      ]

  -- A call that leaves the records as they are, and what follows it.
  pub explained_effect :
      (form : Option (List ℕ)) (es : Entries N) (message : Message)
      (r : Result AppError (Unit {0}) × Store N) (k : Store N → PrivilegedResponse N × Store N)
      → IsEffect IsParsed host origin form es r.1.entries
      → HasEffect IsParsed host origin form es (k r.1)
      → HasEffect IsParsed host origin form es (explained message r k)
  unfolding explained
  explained_effect form es message r k e h = elim (Result-cases r.0) [
    | inr (error, q) ↦ rw (q, explained) (record { effect = e })
    | inl (_, q) ↦ rw (q, explained) h
  ]

  -- A request whose work is done by a worker, with the record's lock.
  worker_effect :
      (id : ℕ) (st : Store N) (body : Store N → PrivilegedResponse N × Store N)
      → ((c : StoredConnection N) (st1 : Store N)
          → st1.entries ≡ st.entries
          → load_in st.entries c.id ≡ ok (some c)
          → c.id ≡ id
          → authorize_access c origin ≡ none
          → HasEffect IsParsed host origin none st.entries (body st1))
      → HasEffect IsParsed host origin none st.entries
          (loaded st id λ c. authorized st c origin (locked host st body))
  worker_effect id st body h =
      let es = st.entries in
      loaded_effect IsParsed host origin none es st id
        (λ c. authorized st c origin (locked host st body)) refl
        λ c i l.
          authorized_effect IsParsed host origin none es st c (locked host st body) refl
            λ a. locked_effect IsParsed host origin none es st body refl λ st1 e. h c st1 e l i a

  module _ (tunnel : TunnelOps N) where
    connect_locked_effect :
        (es : Entries N) (id : ℕ) (debug : Bool) (reason : ConnectReason) (st : Store N)
        (c : StoredConnection N)
        → st.entries ≡ es
        → load_in es c.id ≡ ok (some c)
        → c.id ≡ id
        → authorize_access c origin ≡ none
        → HasEffect IsParsed host origin none es (connect_locked host tunnel id debug reason st)
    unfolding connect_locked
    connect_locked_effect es id debug reason st c e l i a =
        let intent = resolve_effect es id reason st c e l i a in
        let st2 = (resolve_connect_intent host id reason st).1 in
        elim (Result-cases (resolve_connect_intent host id reason st).0) [
          | inr (error, q) ↦ rw (q, connect_locked) (record { effect = intent })
          | inl (proceed, q) ↦ elim (Bool-cases proceed) [
            | inr n ↦ rw (q, connect_locked, n) (record { effect = intent })
            | inl n ↦
                rw (q, connect_locked, n)
                  (record { effect = rw (tunnel.connect-entries id debug st2) intent })
          ]
        ]

    pub connect_effect :
        (id : ℕ) (debug : Bool) (reason : ConnectReason) (st : Store N)
        → HasEffect IsParsed host origin none st.entries
            (handle_connect_connection host tunnel origin id debug reason st)
    unfolding handle_connect_connection
    connect_effect id debug reason st =
        worker_effect id st (connect_locked host tunnel id debug reason)
          (λ c st1 e l i a. connect_locked_effect st.entries id debug reason st1 c e l i a)

    disconnect_locked_effect :
        (es : Entries N) (id : ℕ) (reason : DisconnectReason) (st : Store N)
        (c : StoredConnection N)
        → st.entries ≡ es
        → load_in es c.id ≡ ok (some c)
        → c.id ≡ id
        → authorize_access c origin ≡ none
        → HasEffect IsParsed host origin none es (disconnect_locked host tunnel id reason st)
    unfolding disconnect_locked
    disconnect_locked_effect es id reason st c e l i a =
        let mark = mark_effect es id reason st c e l i a in
        let st2 = (mark_user_disconnected host id reason st).1 in
        elim (Result-cases (mark_user_disconnected host id reason st).0) [
          | inr (error, q) ↦ rw (q, disconnect_locked) (record { effect = mark })
          | inl (_, q) ↦
              rw (q, disconnect_locked)
                (record { effect = rw (tunnel.disconnect-entries id st2) mark })
        ]

    pub disconnect_effect :
        (id : ℕ) (reason : DisconnectReason) (st : Store N)
        → HasEffect IsParsed host origin none st.entries
            (handle_disconnect_connection host tunnel origin id reason st)
    unfolding handle_disconnect_connection
    disconnect_effect id reason st =
        worker_effect id st (disconnect_locked host tunnel id reason)
          (λ c st1 e l i a. disconnect_locked_effect st.entries id reason st1 c e l i a)

    reconnect_locked_effect :
        (es : Entries N) (id : ℕ) (st : Store N)
        → st.entries ≡ es
        → HasEffect IsParsed host origin none es (reconnect_connection host tunnel id st)
    unfolding reconnect_connection reconnect_up reconnect_down
    reconnect_locked_effect es id st e = elim (Result-cases (active_debug st id)) [
      | inr (error, q) ↦ rw (q, reconnect_connection) (record { effect = kept e })
      | inl (found, q) ↦ elim (Option-cases found) [
        | inl n ↦ rw (q, n, reconnect_connection) (record { effect = kept e })
        | inr (debug, n) ↦
            let down = tunnel.disconnect-entries id st ∙ e in
            let st1 = (tunnel.disconnect id st).1 in
            let up = tunnel.connect-entries id debug st1 ∙ down in
            rw (q, n, reconnect_connection)
              (explained_effect none es not_disconnected (tunnel.disconnect id st)
                (reconnect_down host tunnel id debug) (kept down)
                (explained_effect none es not_reconnected (tunnel.connect id debug st1)
                  (λ st2. (bool true, st2)) (kept up) (record { effect = kept up })))
      ]
    ]

    pub reconnect_effect :
        (id : ℕ) (st : Store N)
        → HasEffect IsParsed host origin none st.entries
            (handle_reconnect_connection host tunnel origin id st)
    unfolding handle_reconnect_connection
    reconnect_effect id st =
        worker_effect id st (reconnect_connection host tunnel id)
          (λ c st1 e l i a. reconnect_locked_effect st.entries id st1 e)
