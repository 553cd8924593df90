-- ===== src/Daemon/Dispatch/Refresh/Effect.antt =====
-- The effect of a request that refreshes a connection.
use macos_wireguard_daemon.Prelude.{
  ◌≡◌, refl, sym, ap, ◌∙◌, ℕ, Bool, true, false, not, ◌&&◌, Option, none, some, is_some, List, Text,
  arith, Eq, ◌==◌, ==_iff, ℕ_eq, Bool_eq, List_eq, Option_eq, find, ok, Result-cases, Option-cases,
  Bool-cases, inl, inr, map,
}
use macos_wireguard_daemon.Links.Net.{IpNetOps}
use macos_wireguard_daemon.Links.{Pruned}
use macos_wireguard_daemon.Links.Prune.{prune_links}
use macos_wireguard_daemon.Links.Spec.{show_removed}
use macos_wireguard_daemon.Config.{ConnectionConfig, fingerprint}
use macos_wireguard_daemon.Daemon.Errors.{AppError, Message}
use macos_wireguard_daemon.Daemon.Store.{
  StoredConnection, Store, Host, load_in, load_all_strict_in, save, put, is_identity,
  find_by_identity, active_debug, allowed_ips,
}
use macos_wireguard_daemon.Daemon.Store.Records.{IsDirectory, strict_none, strict_some}
use macos_wireguard_daemon.Daemon.Responses.{PeerOrigin, refreshed, authorize_access}
use macos_wireguard_daemon.Daemon.Dispatch.{locked, loaded}
use macos_wireguard_daemon.Daemon.Dispatch.Requests.{
  Entries, IsAdmin, IsEffect, IsParsedBy, kept, replaced,
}
use macos_wireguard_daemon.Daemon.Dispatch.Auth.{
  settings-IsEdit, HasEffect, locked_effect, loaded_effect, authorized_effect, admitted_effect,
  updated_effect,
}
use macos_wireguard_daemon.Daemon.Dispatch.Add.{ConfTools}
use macos_wireguard_daemon.Daemon.Dispatch.Tunnel.{TunnelOps}
use macos_wireguard_daemon.Daemon.Dispatch.Tunnel.Effect.{explained_effect}
use macos_wireguard_daemon.Daemon.Dispatch.Refresh.{
  RefreshRequest, not_refreshed, refresh_incomplete, replacement, refresh_same, refresh_reconnect,
  refresh_write, refresh_changed, refresh_unique, refresh_parsed, refresh_loaded,
  refresh_connection, handle_refresh_connection,
}

save-entries :
    {N : Type 0} (host : Host) (d : StoredConnection N) (st : Store N)
    → host.fault st.calls ≡ none
    → (save host d st).1.entries ≡ put d.id d st.entries
unfolding save
save-entries host d st f = rw (f, save) refl

save-failed :
    {N : Type 0} (host : Host) (d : StoredConnection N) (st : Store N) (error : AppError)
    → host.fault st.calls ≡ some error
    → (save host d st).1.entries ≡ st.entries
unfolding save
save-failed host d st error f = rw (f, save) refl

module _ {N : Type 0} (IsParsed : StoredConnection N → Type 0) (host : Host) (origin : PeerOrigin)
    (tunnel : TunnelOps N) where
  refresh_same_effect :
      (request : RefreshRequest) (es : Entries N) (st : Store N) (c : StoredConnection N)
      → st.entries ≡ es
      → load_in es c.id ≡ ok (some c)
      → authorize_access c origin ≡ none
      → HasEffect IsParsed host origin request.auth_external_form es
          (refresh_same host tunnel request c st)
  unfolding refresh_same
  refresh_same_effect request es st c e l a =
      elim (Bool-cases
        (is_some request.source_path && not (request.source_path == c.source_path))) [
          | inr q ↦ rw (q, refresh_same) (record { effect = kept e })
          | inl q ↦
              rw (q, refresh_same)
                (updated_effect IsParsed host origin request.auth_external_form es st c _ _ e l a
                  (settings-IsEdit c _ _ _ _ _ _ _) (λ up. absurd (ground (arith, up))))
        ]

  -- What follows the write keeps its effect.
  refresh_reconnect_effect :
      (form : Option (List ℕ)) (es : Entries N) (id : ℕ) (active : Option Bool)
      (links_removed : List Message) (st : Store N)
      → HasEffect IsParsed host origin form es (
        refreshed (record { changed = true; reconnected = false; links_removed = links_removed }),
        st,
      )
      → HasEffect IsParsed host origin form es
          (refresh_reconnect host tunnel id active links_removed st)
  unfolding refresh_reconnect
  refresh_reconnect_effect form es id none links_removed st h = h
  refresh_reconnect_effect form es id (some debug) links_removed st h =
      let up : IsEffect IsParsed host origin form es (tunnel.connect id debug st).1.entries =
        rw (tunnel.connect-entries id debug st) h.effect in
      explained_effect IsParsed host origin form es (refresh_incomplete links_removed)
        (tunnel.connect id debug st)
        (λ st'. (
          refreshed (record { changed = true; reconnected = true; links_removed = links_removed }),
          st',
        ))
        up (record { effect = up })

  module _ ⦃q : Eq N⦄ (net : IpNetOps N) (tools : ConfTools N)
      (parses : (c : StoredConnection N) → IsParsedBy net tools c → IsParsed c) where
    module _ (request : RefreshRequest) (conf_text : Text) (parsed : ConnectionConfig N)
        (print : Text) (es : Entries N) (c : StoredConnection N) (l : load_in es c.id ≡ ok (some c))
        (a : authorize_access c origin ≡ none)
        (good : IsParsedBy net tools
          (record c { fingerprint = print; config = parsed; raw_conf = conf_text })) where
      refresh_write_effect :
          (active : Option Bool) (st : Store N)
          → st.entries ≡ es
          → IsAdmin host request.auth_external_form
          → ((j : ℕ) (d : StoredConnection N)
              → load_in es j ≡ ok (some d)
              → is_identity print c.global c.owner_uid d ≡ false)
          → HasEffect IsParsed host origin request.auth_external_form es
              (refresh_write host tunnel net tools c.id request conf_text parsed print c active st)
      unfolding refresh_write save
      refresh_write_effect active st e admin fresh =
          let pruned : Pruned N =
            prune_links net c.bypass_links (allowed_ips (record c { config = parsed })) in
          let d =
            replacement c request conf_text parsed print pruned.links (host.now_unix st.calls) in
          elim (Option-cases (host.fault st.calls)) [
            | inr (error, f) ↦
                rw (f, refresh_write, save)
                  (record { effect = kept (save-failed host d st error f ∙ e) })
            | inl f ↦
                rw (f, refresh_write, save)
                  (refresh_reconnect_effect request.auth_external_form es c.id active
                    (map (show_removed tools.texts) pruned.removed) _
                    (record {
                      effect =
                          replaced c d l a admin
                            (record {
                              id = refl;
                              global = refl;
                              owner = refl;
                              interface = refl;
                              start_mode = refl;
                            })
                            (parses d good) fresh (save-entries host d st f ∙ ap (put c.id d) e);
                    }))
          ]

      refresh_changed_effect :
          (st : Store N)
          → st.entries ≡ es
          → IsAdmin host request.auth_external_form
          → ((j : ℕ) (d : StoredConnection N)
              → load_in es j ≡ ok (some d)
              → is_identity print c.global c.owner_uid d ≡ false)
          → HasEffect IsParsed host origin request.auth_external_form es
              (refresh_changed host tunnel net tools c.id request conf_text parsed print c st)
      unfolding refresh_changed
      refresh_changed_effect st e admin fresh = elim (Result-cases (active_debug st c.id)) [
        | inr (error, n) ↦ rw (n, refresh_changed) (record { effect = kept e })
        | inl (active, n) ↦ elim (Option-cases active) [
          | inl m ↦ rw (n, m, refresh_changed) (refresh_write_effect none st e admin fresh)
          | inr (debug, m) ↦
              let down = tunnel.disconnect-entries c.id st ∙ e in
              rw (n, m, refresh_changed)
                (explained_effect IsParsed host origin request.auth_external_form es not_refreshed
                  (tunnel.disconnect c.id st)
                  (refresh_write host tunnel net tools c.id request conf_text parsed print c
                    (some debug))
                  (kept down)
                  (refresh_write_effect (some debug) (tunnel.disconnect c.id st).1 down admin
                    fresh))
        ]
      ]

      refresh_unique_effect :
          (st : Store N)
          → st.entries ≡ es
          → ((j : ℕ) (d : StoredConnection N)
              → load_in es j ≡ ok (some d)
              → is_identity print c.global c.owner_uid d ≡ false)
          → HasEffect IsParsed host origin request.auth_external_form es
              (refresh_unique host tunnel net tools c.id request conf_text parsed print c st)
      unfolding refresh_unique
      refresh_unique_effect st e fresh =
          admitted_effect IsParsed host origin request.auth_external_form es st true _
            (refresh_changed host tunnel net tools c.id request conf_text parsed print c st) e
            λ admin. refresh_changed_effect st e (admin refl) fresh

      refresh_parsed_effect :
          (st : Store N)
          → st.entries ≡ es
          → IsDirectory es
          → HasEffect IsParsed host origin request.auth_external_form es
              (refresh_parsed host tunnel net tools c.id request conf_text parsed print c st)
      unfolding refresh_parsed find_by_identity
      refresh_parsed_effect st e d =
          let p = is_identity print c.global c.owner_uid in
          elim (Bool-cases (print == c.fingerprint)) [
            | inl s ↦ rw (s, refresh_parsed) (refresh_same_effect request es st c e l a)
            | inr s ↦ elim (Result-cases (load_all_strict_in st.entries)) [
              | inr (error, m) ↦
                  rw (s, m, refresh_parsed, find_by_identity) (record { effect = kept e })
              | inl (conns, m) ↦
                  let m' : load_all_strict_in es ≡ ok conns =
                    ap (λ (es' : Entries N). load_all_strict_in es') (sym e) ∙ m in
                  elim (Option-cases (find p conns)) [
                    | inl n ↦
                        rw (s, m, n, refresh_parsed, find_by_identity)
                          (refresh_unique_effect st e (λ j b k. strict_none p es conns j b m' n k))
                    | inr (other, n) ↦
                        let found = strict_some p es conns other d m' n in
                        elim (Bool-cases (not (other.id == c.id))) [
                          | inl o ↦
                              rw (s, m, n, o, refresh_parsed, find_by_identity)
                                (record { effect = kept e })
                          | inr o ↦ absurd (
                              ground (
                                arith,
                                s,
                                o,
                                l,
                                found,
                                ==_iff other.id c.id,
                                ==_iff print c.fingerprint,
                              ))
                        ]
                  ]
            ]
          ]

    refresh_loaded_effect :
        (request : RefreshRequest) (es : Entries N) (st : Store N) (c : StoredConnection N)
        → st.entries ≡ es
        → load_in es c.id ≡ ok (some c)
        → authorize_access c origin ≡ none
        → IsDirectory es
        → HasEffect IsParsed host origin request.auth_external_form es
            (refresh_loaded host tunnel net tools c.id request st c)
    unfolding refresh_loaded
    refresh_loaded_effect request es st c e l a d =
        let conf_text : Text = elim c.mtu_override [
          | some mtu ↦ tools.with_mtu request.conf_text mtu
          | none ↦ request.conf_text
        ] in
        elim (Result-cases (tools.parse conf_text)) [
          | inr (error, m) ↦ rw (m, refresh_loaded) (record { effect = kept e })
          | inl (parsed, m) ↦
              rw (m, refresh_loaded)
                (refresh_parsed_effect request conf_text parsed
                  (fingerprint net tools.sha256 parsed) es c l a (m, refl) st e d)
        ]

    pub refresh_effect :
        (id : ℕ) (request : RefreshRequest) (st : Store N)
        → IsDirectory st.entries
        → HasEffect IsParsed host origin request.auth_external_form st.entries
            (handle_refresh_connection host tunnel net tools origin id request st)
    unfolding handle_refresh_connection refresh_connection
    refresh_effect id request st d =
        let es = st.entries in
        let form = request.auth_external_form in
        loaded_effect IsParsed host origin form es st id _ refl λ c i l.
          authorized_effect IsParsed host origin form es st c
            (refresh_connection host tunnel net tools id request st) refl
            λ a.
              locked_effect IsParsed host origin form es st
                (λ st1.
                  locked host st1
                    λ st2. loaded st2 id (refresh_loaded host tunnel net tools id request st2))
                refl
                λ st1 e1.
                  locked_effect IsParsed host origin form es st1
                    (λ st2. loaded st2 id (refresh_loaded host tunnel net tools id request st2)) e1
                    λ st2 e2.
                      loaded_effect IsParsed host origin form es st2 id
                        (refresh_loaded host tunnel net tools id request st2) e2
                        λ c' i' l'.
                          let same : c ≡ c' = ground (arith, l, ap (load_in es) (i' ∙ sym i), l') in
                          rw (sym i') (
                            refresh_loaded_effect request es st2 c' e2 l'
                              (ap (λ x. authorize_access x origin) (sym same) ∙ a) d)
