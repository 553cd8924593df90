-- ===== src/Daemon/Dispatch/Refresh.antt =====
-- `handle_refresh_connection` and `refresh_connection` of src/privileged/dispatch.rs.
pub mod Effect
use macos_wireguard_daemon.Prelude.{
  ℕ, Bool, true, false, not, ◌&&◌, Option, none, some, is_some, List, [], ◌∷◌, ◌++◌, Text, text, Eq,
  ◌==◌, ℕ_eq, List_eq, Option_eq, is_empty, map, Result, ok, err, if◌then◌else◌,
}
use macos_wireguard_daemon.Links.Net.{IpNetOps}
use macos_wireguard_daemon.Links.{BypassLink, Removed, Pruned}
use macos_wireguard_daemon.Links.Prune.{prune_links}
use macos_wireguard_daemon.Links.Spec.{show_removed}
use macos_wireguard_daemon.Config.{ConnectionConfig, fingerprint}
use macos_wireguard_daemon.Daemon.Errors.{AppError, Message, plain, quoted}
use macos_wireguard_daemon.Daemon.Store.{
  StoredConnection, Store, Host, save, find_by_identity, active_debug, allowed_ips, show_id,
}
use macos_wireguard_daemon.Daemon.Responses.{
  PeerOrigin, PrivilegedResponse, refreshed, RefreshOutcome, failed, error_response,
}
use macos_wireguard_daemon.Daemon.Dispatch.{locked, loaded, authorized, admitted, updated}
use macos_wireguard_daemon.Daemon.Dispatch.Add.{ConfTools}
use macos_wireguard_daemon.Daemon.Dispatch.Tunnel.{TunnelOps, explained}

-- The fields of `RefreshConnection`.
pub record RefreshRequest : Type 0 where
  pub conf_text : Text
  pub source_path : Option Text
  pub auth_external_form : Option (List ℕ)

-- `ConnectionId::label`
abbrev pub label : ℕ → Option Text → Text
label id none = show_id id
label id (some name) = show_id id ++ text "::" ++ name

abbrev pub join_messages : List Message → Message
join_messages [] = []
join_messages (m ∷ []) = m
join_messages (m ∷ n ∷ rest) = m ++ plain (text "; ") ∷ join_messages (n ∷ rest)

-- What a failed reconnect says of the links that were dropped.
abbrev pub dropped : List Message → Message
dropped links_removed =
    if is_empty links_removed
    then []
    else plain (text " (links dropped: ") ∷ join_messages links_removed ++ plain (text ")") ∷ []

abbrev pub refresh_incomplete : List Message → Message
refresh_incomplete links_removed =
    plain (text "the connection record was updated") ∷ dropped links_removed
    ++ plain (text ", but reconnecting failed (the connection is down): ") ∷ []

abbrev pub not_refreshed : Message
not_refreshed =
    plain (text "could not disconnect before refreshing; the stored configuration is unchanged: ")
    ∷ []

module _ {N : Type 0} where
  abbrev pub duplicate : ℕ → Option Text → PrivilegedResponse N
  duplicate id name = failed (text "Duplicate") (
      plain (text "the refreshed configuration is identical to existing connection ")
      ∷ plain (label id name)
      ∷ plain (text "; refusing to create a duplicate")
      ∷ [])

  -- The record with the new configuration.
  abbrev pub replacement :
      StoredConnection N
      → RefreshRequest
      → Text
      → ConnectionConfig N
      → Text
      → List (BypassLink N)
      → ℕ
      → StoredConnection N
  replacement stored request conf_text parsed print links now = record stored {
    fingerprint = print;
    config = parsed;
    raw_conf = conf_text;
    source_path = if is_some request.source_path then request.source_path else stored.source_path;
    bypass_links = links;
    updated_at = now;
  }

  module _ (host : Host) (tunnel : TunnelOps N) where
    -- The configuration is the stored one: at most its path is new.
    unfoldable pub refresh_same :
        RefreshRequest → StoredConnection N → Store N → PrivilegedResponse N × Store N
    unfolding updated
    refresh_same request stored st =
        let same : PrivilegedResponse N =
          refreshed (record { changed = false; reconnected = false; links_removed = [] }) in
        if is_some request.source_path && not (request.source_path == stored.source_path)
        then updated host
            (record stored {
              source_path = request.source_path;
              updated_at = host.now_unix st.calls;
            })
            same st
        else (same, st)

    unfoldable pub refresh_reconnect :
        ℕ → Option Bool → List Message → Store N → PrivilegedResponse N × Store N
    unfolding explained
    refresh_reconnect id none links_removed st = (
      refreshed (record { changed = true; reconnected = false; links_removed = links_removed }),
      st,
    )
    refresh_reconnect id (some debug) links_removed st =
        explained (refresh_incomplete links_removed) (tunnel.connect id debug st) λ st'. (
          refreshed (record { changed = true; reconnected = true; links_removed = links_removed }),
          st',
        )

    module _ ⦃e : Eq N⦄ (net : IpNetOps N) (tools : ConfTools N) where
      -- The write of the new record, and what follows it.
      unfoldable pub refresh_write :
          ℕ
          → RefreshRequest
          → Text
          → ConnectionConfig N
          → Text
          → StoredConnection N
          → Option Bool
          → Store N
          → PrivilegedResponse N × Store N
      unfolding save prune_links show_removed refresh_reconnect error_response
      refresh_write id request conf_text parsed print stored active st =
          let pruned : Pruned N =
            prune_links net stored.bypass_links (allowed_ips (record stored { config = parsed })) in
          let (result, st') =
            save host
              (replacement stored request conf_text parsed print pruned.links
                (host.now_unix st.calls))
              st in
          elim result [
            | err e ↦ (error_response e, st')
            | ok _ ↦ refresh_reconnect id active (map (show_removed tools.texts) pruned.removed) st'
          ]

      -- The part behind the checks.
      unfoldable pub refresh_changed :
          ℕ
          → RefreshRequest
          → Text
          → ConnectionConfig N
          → Text
          → StoredConnection N
          → Store N
          → PrivilegedResponse N × Store N
      unfolding active_debug explained refresh_write error_response
      refresh_changed id request conf_text parsed print stored st = elim (active_debug st id) [
        | err e ↦ (error_response e, st)
        | ok active ↦ elim active [
          | none ↦ refresh_write id request conf_text parsed print stored none st
          | some debug ↦
              explained not_refreshed (tunnel.disconnect id st)
                (refresh_write id request conf_text parsed print stored (some debug))
        ]
      ]

      -- The part with the authorization.
      unfoldable pub refresh_unique :
          ℕ
          → RefreshRequest
          → Text
          → ConnectionConfig N
          → Text
          → StoredConnection N
          → Store N
          → PrivilegedResponse N × Store N
      unfolding admitted refresh_changed
      refresh_unique id request conf_text parsed print stored st =
          admitted host st true request.auth_external_form
            (text
              "replacing a stored connection configuration that may contain hooks executed as root")
            (refresh_changed id request conf_text parsed print stored st)

      unfoldable pub refresh_parsed :
          ℕ
          → RefreshRequest
          → Text
          → ConnectionConfig N
          → Text
          → StoredConnection N
          → Store N
          → PrivilegedResponse N × Store N
      unfolding refresh_same find_by_identity refresh_unique error_response
      refresh_parsed id request conf_text parsed print stored st =
          if print == stored.fingerprint
          then refresh_same request stored st
          else elim (find_by_identity st print stored.global stored.owner_uid) [
            | err e ↦ (error_response e, st)
            | ok found ↦ elim found [
              | none ↦ refresh_unique id request conf_text parsed print stored st
              | some other ↦
                  if not (other.id == id)
                  then (duplicate other.id other.name, st)
                  else refresh_unique id request conf_text parsed print stored st
            ]
          ]

      unfoldable pub refresh_loaded :
          ℕ → RefreshRequest → Store N → StoredConnection N → PrivilegedResponse N × Store N
      unfolding fingerprint refresh_parsed error_response
      refresh_loaded id request st stored =
          let conf_text : Text = elim stored.mtu_override [
            | some mtu ↦ tools.with_mtu request.conf_text mtu
            | none ↦ request.conf_text
          ] in
          elim (tools.parse conf_text) [
            | err e ↦ (error_response e, st)
            | ok parsed ↦
                refresh_parsed id request conf_text parsed (fingerprint net tools.sha256 parsed)
                  stored st
          ]

      unfoldable pub refresh_connection :
          ℕ → RefreshRequest → Store N → PrivilegedResponse N × Store N
      unfolding locked loaded refresh_loaded
      refresh_connection id request st =
          locked host st λ st1. locked host st1 λ st2. loaded st2 id (refresh_loaded id request st2)

      unfoldable pub handle_refresh_connection :
          PeerOrigin → ℕ → RefreshRequest → Store N → PrivilegedResponse N × Store N
      unfolding loaded authorized refresh_connection
      handle_refresh_connection origin id request st =
          loaded st id λ stored. authorized st stored origin (refresh_connection id request st)
