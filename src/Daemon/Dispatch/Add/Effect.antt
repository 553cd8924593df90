-- ===== src/Daemon/Dispatch/Add/Effect.antt =====
-- The effect of a request that adds a connection.
use macos_wireguard_daemon.Prelude.{
  ◌≡◌, refl, sym, ap, ◌∙◌, ℕ, Bool, true, false, not, ◌&&◌, Option, none, some, is_some, Text,
  arith, ◌==◌, ==_iff, ℕ_eq, Bool_eq, List_eq, Option_eq, find, ok, Result-cases, Option-cases,
  Bool-cases, inl, inr, if◌then◌else◌,
}
use macos_wireguard_daemon.Links.Net.{IpNetOps}
use macos_wireguard_daemon.Config.{ConnectionConfig, fingerprint}
use macos_wireguard_daemon.Daemon.Store.{
  ConnectionStartMode_eq, StoredConnection, Store, Host, load_in, load_all_strict_in, save,
  is_identity, find_by_identity, allocate, allocate_unique_interface,
}
use macos_wireguard_daemon.Daemon.Store.Allocate.{allocate_lem}
use macos_wireguard_daemon.Daemon.Store.Records.{IsDirectory, strict_none, strict_some}
use macos_wireguard_daemon.Daemon.Responses.{
  PeerOrigin, socket, stdio, is_root, attributed_owner_uid, PrivilegedResponse, authorize_access,
}
use macos_wireguard_daemon.Daemon.Dispatch.{locked, updated}
use macos_wireguard_daemon.Daemon.Dispatch.Requests.{Entries, IsAdmin, IsParsedBy, kept, added}
use macos_wireguard_daemon.Daemon.Dispatch.Auth.{
  settings-IsEdit, HasEffect, locked_effect, admitted_effect, updated_effect,
}
use macos_wireguard_daemon.Daemon.Dispatch.Add.{
  AddRequest, ConfTools, name_conflict, reconciled, write_reconciled, elevates,
  reconcile_existing_add, created, add_parsed, store_new, add_new, handle_add_connection,
}

module _ {N : Type 0} (IsParsed : StoredConnection N → Type 0) where
  module _ (host : Host) where
    owned_lem :
        (origin : PeerOrigin) (c : StoredConnection N)
        → c.global ≡ false
        → c.owner_uid ≡ some (attributed_owner_uid origin)
        → authorize_access c origin ≡ none
    unfolding authorize_access
    owned_lem (socket u) c g o = ground (arith, g, o, ==_iff (some u) c.owner_uid)
    owned_lem (stdio s) c g o = ground (arith, g)

    module _ (origin : PeerOrigin) where
      -- The peer may use what it adds.
      owner_lem :
          (c : StoredConnection N) (global : Bool)
          → (global && not (is_root origin)) ≡ false
          → c.global ≡ global
          → c.owner_uid ≡ (if global then none else some (attributed_owner_uid origin))
          → authorize_access c origin ≡ none
      unfolding authorize_access
      owner_lem c true h g o = ground (arith, h, g)
      owner_lem c false h g o = owned_lem origin c g o

      store_new_effect :
          (request : AddRequest) (owner : Option ℕ) (conf_text : Text) (config : ConnectionConfig N)
          (print : Text) (es : Entries N) (st : Store N)
          → st.entries ≡ es
          → IsAdmin host request.auth_external_form
          → owner ≡ (if request.global then none else some (attributed_owner_uid origin))
          → (request.global && not (is_root origin)) ≡ false
          → ((j : ℕ) (d : StoredConnection N)
              → load_in es j ≡ ok (some d)
              → is_identity print request.global owner d ≡ false)
          → ((id : ℕ) (interface : Text) (now : ℕ)
              → IsParsed (created host request owner conf_text config print id interface now))
          → HasEffect IsParsed host origin request.auth_external_form es
              (store_new host request owner conf_text config print st)
      unfolding store_new allocate_unique_interface updated save created
      store_new_effect request owner conf_text config print es st e admin o root fresh good =
          let got = allocate_lem host 8 st in
          let st1 : Store N = (allocate host 8 st).1 in
          let e1 : st1.entries ≡ es = got.0 ∙ e in
          elim (Result-cases (allocate host 8 st).0) [
            | inr (error, q) ↦ rw (q, store_new) (record { effect = kept e1 })
            | inl (a, q) ↦ elim (Option-cases (host.fault st1.calls)) [
              | inr (error, f) ↦ rw (q, f, store_new, updated, save) (record { effect = kept e1 })
              | inl f ↦
                  let name = got.1 a.0 a.1 q in
                  let c =
                    created host request owner conf_text config print a.0 a.1
                      (host.now_unix st1.calls) in
                  rw (q, f, store_new, updated, save)
                    (record {
                      effect =
                          added c admin (owner_lem c request.global root refl o) name.0
                            (good a.0 a.1 (host.now_unix st1.calls))
                            (λ j d l. (
                              fresh j d l,
                              λ same. ground (
                                arith,
                                same,
                                name.1 j d (ap (λ (es' : Entries N). load_in es' j) e ∙ l),
                                ==_iff d.interface a.1,
                              ),
                            ))
                            (rw e1 refl);
                    })
            ]
          ]

      add_new_effect :
          (request : AddRequest) (owner : Option ℕ) (conf_text : Text) (config : ConnectionConfig N)
          (print : Text) (es : Entries N) (st : Store N)
          → st.entries ≡ es
          → owner ≡ (if request.global then none else some (attributed_owner_uid origin))
          → (request.global && not (is_root origin)) ≡ false
          → ((j : ℕ) (d : StoredConnection N)
              → load_in es j ≡ ok (some d)
              → is_identity print request.global owner d ≡ false)
          → ((id : ℕ) (interface : Text) (now : ℕ)
              → IsParsed (created host request owner conf_text config print id interface now))
          → HasEffect IsParsed host origin request.auth_external_form es
              (add_new host request owner conf_text config print st)
      unfolding add_new
      add_new_effect request owner conf_text config print es st e o root fresh good =
          let form = request.auth_external_form in
          elim (Option-cases
            (name_conflict request.force request.name request.global owner none st)) [
              | inr (response, n) ↦ rw (n, add_new) (record { effect = kept e })
              | inl n ↦
                  rw (n, add_new)
                    (admitted_effect IsParsed host origin form es st true _
                      (store_new host request owner conf_text config print st) e
                      (λ admin.
                        store_new_effect request owner conf_text config print es st e (admin refl) o
                          root fresh good))
            ]

      write_reconciled_effect :
          (existing : StoredConnection N) (request : AddRequest) (es : Entries N) (st : Store N)
          → st.entries ≡ es
          → load_in es existing.id ≡ ok (some existing)
          → authorize_access existing origin ≡ none
          → (elevates host existing request ≡ true → IsAdmin host request.auth_external_form)
          → HasEffect IsParsed host origin request.auth_external_form es
              (write_reconciled host existing request st)
      unfolding write_reconciled reconciled
      write_reconciled_effect existing request es st e l a admin =
          updated_effect IsParsed host origin request.auth_external_form es st existing _ _ e l a
            (settings-IsEdit existing _ _ _ _ _ _ _) (λ up. admin (ground (arith, up)))

      reconcile_effect :
          (existing : StoredConnection N) (request : AddRequest) (es : Entries N) (st : Store N)
          → st.entries ≡ es
          → load_in es existing.id ≡ ok (some existing)
          → authorize_access existing origin ≡ none
          → HasEffect IsParsed host origin request.auth_external_form es
              (reconcile_existing_add host existing request st)
      unfolding reconcile_existing_add
      reconcile_effect existing request es st e l a =
          let form = request.auth_external_form in
          let name_changed = is_some request.name && not (request.name == existing.name) in
          let mode_changed = not (request.start_mode == existing.start_mode) in
          let source_changed =
            is_some request.source_path && not (request.source_path == existing.source_path) in
          let conflict : Option (PrivilegedResponse N) =
            (if name_changed
              then name_conflict request.force request.name existing.global existing.owner_uid
                  (some existing.id) st
              else none) in
          elim (Bool-cases (not name_changed && not mode_changed && not source_changed)) [
            | inl u ↦ rw (u, reconcile_existing_add) (record { effect = kept e })
            | inr u ↦ elim (Option-cases conflict) [
              | inr (response, n) ↦ rw (u, n, reconcile_existing_add) (record { effect = kept e })
              | inl n ↦
                  rw (u, n, reconcile_existing_add)
                    (admitted_effect IsParsed host origin form es st
                      (elevates host existing request) _
                      (locked host st (write_reconciled host existing request)) e
                      λ admin.
                        locked_effect IsParsed host origin form es st
                          (write_reconciled host existing request) e
                          λ st1 e1. write_reconciled_effect existing request es st1 e1 l a admin)
            ]
          ]

      add_parsed_effect :
          (request : AddRequest) (owner : Option ℕ) (conf_text : Text) (config : ConnectionConfig N)
          (print : Text) (es : Entries N) (st : Store N)
          → st.entries ≡ es
          → IsDirectory es
          → owner ≡ (if request.global then none else some (attributed_owner_uid origin))
          → (request.global && not (is_root origin)) ≡ false
          → ((id : ℕ) (interface : Text) (now : ℕ)
              → IsParsed (created host request owner conf_text config print id interface now))
          → HasEffect IsParsed host origin request.auth_external_form es
              (add_parsed host request owner conf_text config print st)
      unfolding add_parsed find_by_identity
      add_parsed_effect request owner conf_text config print es st e d o root good =
          let p = is_identity print request.global owner in
          elim (Result-cases (load_all_strict_in st.entries)) [
            | inr (error, q) ↦ rw (q, add_parsed, find_by_identity) (record { effect = kept e })
            | inl (conns, q) ↦
                let q' : load_all_strict_in es ≡ ok conns =
                  ap (λ (es' : Entries N). load_all_strict_in es') (sym e) ∙ q in
                elim (Option-cases (find p conns)) [
                  | inl n ↦
                      rw (q, n, add_parsed, find_by_identity)
                        (add_new_effect request owner conf_text config print es st e o root
                          (λ j c l. strict_none p es conns j c q' n l) good)
                  | inr (c, n) ↦
                      let found = strict_some p es conns c d q' n in
                      let own =
                        owner_lem c request.global root (ground (arith, found.0))
                          (ground (arith, found.0) ∙ o) in
                      rw (q, n, add_parsed, find_by_identity)
                        (reconcile_effect c request es st e found.1 own)
                ]
          ]

      pub add_effect :
          (net : IpNetOps N) (tools : ConfTools N)
          → ((c : StoredConnection N) → IsParsedBy net tools c → IsParsed c)
          → (request : AddRequest) (st : Store N) → IsDirectory st.entries
          → HasEffect IsParsed host origin request.auth_external_form st.entries
              (handle_add_connection host net tools origin request st)
      unfolding handle_add_connection
      add_effect net tools parses request st d =
          let es = st.entries in
          let owner : Option ℕ =
            (if request.global then none else some (attributed_owner_uid origin)) in
          let conf_text : Text = elim request.mtu_override [
            | some mtu ↦ tools.with_mtu request.conf_text mtu
            | none ↦ request.conf_text
          ] in
          elim (Bool-cases (request.global && not (is_root origin))) [
            | inl r ↦ rw (r, handle_add_connection) (record { effect = kept refl })
            | inr r ↦ elim (Result-cases (tools.parse conf_text)) [
              | inr (error, q) ↦ rw (r, q, handle_add_connection) (record { effect = kept refl })
              | inl (config, q) ↦
                  rw (r, q, handle_add_connection)
                    (let print = fingerprint net tools.sha256 config in
                      locked_effect IsParsed host origin request.auth_external_form es st
                        (add_parsed host request owner conf_text config print) refl
                        λ st1 e.
                          add_parsed_effect request owner conf_text config print es st1 e d refl r
                            (λ id interface now. parses _ (q, refl)))
            ]
          ]
