-- ===== src/Daemon/Dispatch/Edits.antt =====
-- The effect of each request on one existing record.
use macos_wireguard_daemon.Prelude.{
  ◌≡◌, refl, ◌∙◌, ℕ, Bool, true, Option, none, some, List, text, arith, Eq, ◌==◌, ℕ_eq, Bool_eq,
  List_eq, Option_eq, ok, Result-cases, Bool-cases, inl, inr,
}
use macos_wireguard_daemon.Links.Net.{IpNetOps}
use macos_wireguard_daemon.Links.{BypassLink, validate_links_strict}
use macos_wireguard_daemon.Daemon.Store.{
  ConnectionStartMode, manual, automatic, ConnectionStartMode_eq, StoredConnection, Store, Host,
  load_in, is_active, allowed_ips,
}
use macos_wireguard_daemon.Daemon.Responses.{PeerOrigin, authorize_access}
use macos_wireguard_daemon.Daemon.Dispatch.{
  locked, loaded, authorized, admitted, set_mode, set_dns, set_links, remove_locked, mode_of_loaded,
  is_elevation, handle_set_connection_mode, handle_set_connection_dns_dynamic_store,
  handle_remove_connection, handle_set_connection_bypass_links,
}
use macos_wireguard_daemon.Daemon.Dispatch.Requests.{Entries, IsAdmin, kept, deleted}
use macos_wireguard_daemon.Daemon.Dispatch.Auth.{
  settings-IsEdit, remove_lem, HasEffect, locked_effect, loaded_effect, authorized_effect,
  admitted_effect, updated_effect,
}

module _ {N : Type 0} (IsParsed : StoredConnection N → Type 0) (host : Host)
    (origin : PeerOrigin) where
  set_mode_effect :
      (mode : ConnectionStartMode) (form : Option (List ℕ)) (es : Entries N) (st : Store N)
      (c : StoredConnection N)
      → st.entries ≡ es
      → load_in es c.id ≡ ok (some c)
      → authorize_access c origin ≡ none
      → ((c.global ≡ true) × (c.start_mode ≡ manual) × (mode ≡ automatic) → IsAdmin host form)
      → HasEffect IsParsed host origin form es (set_mode host mode c st)
  unfolding set_mode
  set_mode_effect mode form es st c e l a admin = elim (Bool-cases (c.start_mode == mode)) [
    | inl m ↦ rw (m, set_mode) (record { effect = kept e })
    | inr m ↦
        rw (m, set_mode)
          (updated_effect IsParsed host origin form es st c _ _ e l a
            (settings-IsEdit c _ _ _ _ _ _ _) admin)
  ]

  pub mode_effect :
      (id : ℕ) (mode : ConnectionStartMode) (form : Option (List ℕ)) (st : Store N)
      → HasEffect IsParsed host origin form st.entries
          (handle_set_connection_mode host origin id mode form st)
  unfolding handle_set_connection_mode mode_of_loaded
  mode_effect id mode form st =
      let es = st.entries in
      locked_effect IsParsed host origin form es st
        (λ st1. loaded st1 id (mode_of_loaded host origin mode form st1)) refl
        λ st1 e.
          loaded_effect IsParsed host origin form es st1 id
            (mode_of_loaded host origin mode form st1) e
            λ c i l.
              let cause =
                text
                  "enabling automatic startup of a global connection and its hooks as root at every boot" in
              let set = set_mode host mode c st1 in
              authorized_effect IsParsed host origin form es st1 c
                (admitted host st1 (is_elevation c mode) form cause set) e
                λ a.
                  admitted_effect IsParsed host origin form es st1 (is_elevation c mode) cause set e
                    λ admin.
                      set_mode_effect mode form es st1 c e l a (λ up. admin (ground (arith, up)))

  set_dns_effect :
      (enabled : Bool) (es : Entries N) (st : Store N) (c : StoredConnection N)
      → st.entries ≡ es
      → load_in es c.id ≡ ok (some c)
      → authorize_access c origin ≡ none
      → HasEffect IsParsed host origin none es (set_dns host enabled c st)
  unfolding set_dns
  set_dns_effect enabled es st c e l a = elim (Bool-cases (c.dns_dynamic_store == enabled)) [
    | inl m ↦ rw (m, set_dns) (record { effect = kept e })
    | inr m ↦
        rw (m, set_dns)
          (updated_effect IsParsed host origin none es st c _ _ e l a
            (settings-IsEdit c _ _ _ _ _ _ _) (λ up. absurd (ground (arith, up))))
  ]

  pub dns_effect :
      (id : ℕ) (enabled : Bool) (st : Store N)
      → HasEffect IsParsed host origin none st.entries
          (handle_set_connection_dns_dynamic_store host origin id enabled st)
  unfolding handle_set_connection_dns_dynamic_store
  dns_effect id enabled st =
      let es = st.entries in
      locked_effect IsParsed host origin none es st
        (λ st1. loaded st1 id λ c. authorized st1 c origin (set_dns host enabled c st1)) refl
        λ st1 e.
          loaded_effect IsParsed host origin none es st1 id
            (λ c. authorized st1 c origin (set_dns host enabled c st1)) e
            λ c i l.
              authorized_effect IsParsed host origin none es st1 c (set_dns host enabled c st1) e
                λ a. set_dns_effect enabled es st1 c e l a

  set_links_effect :
      ⦃q : Eq N⦄
      → ⦃f : Eq (BypassLink N)⦄
      → (net : IpNetOps N) (links : List (BypassLink N)) (es : Entries N) (st : Store N)
        (c : StoredConnection N)
      → st.entries ≡ es
      → load_in es c.id ≡ ok (some c)
      → authorize_access c origin ≡ none
      → HasEffect IsParsed host origin none es (set_links host net links c st)
  unfolding set_links
  set_links_effect net links es st c e l a =
      elim (Result-cases (validate_links_strict net links (allowed_ips c))) [
        | inr (error, v) ↦ rw (v, set_links) (record { effect = kept e })
        | inl (valid, v) ↦ elim (Bool-cases (c.bypass_links == valid)) [
          | inl m ↦ rw (v, m, set_links) (record { effect = kept e })
          | inr m ↦
              rw (v, m, set_links)
                (updated_effect IsParsed host origin none es st c _ _ e l a
                  (settings-IsEdit c _ _ _ _ _ _ _) (λ up. absurd (ground (arith, up))))
        ]
      ]

  pub links_effect :
      ⦃q : Eq N⦄
      → ⦃f : Eq (BypassLink N)⦄
      → (net : IpNetOps N) (id : ℕ) (links : List (BypassLink N)) (st : Store N)
      → HasEffect IsParsed host origin none st.entries
          (handle_set_connection_bypass_links host net origin id links st)
  unfolding handle_set_connection_bypass_links
  links_effect net id links st =
      let es = st.entries in
      locked_effect IsParsed host origin none es st
        (λ st1. loaded st1 id λ c. authorized st1 c origin (set_links host net links c st1)) refl
        λ st1 e.
          loaded_effect IsParsed host origin none es st1 id
            (λ c. authorized st1 c origin (set_links host net links c st1)) e
            λ c i l.
              authorized_effect IsParsed host origin none es st1 c (set_links host net links c st1)
                e λ a. set_links_effect net links es st1 c e l a

  remove_locked_effect :
      (id : ℕ) (form : Option (List ℕ)) (es : Entries N) (st : Store N) (c : StoredConnection N)
      → st.entries ≡ es
      → load_in es c.id ≡ ok (some c)
      → c.id ≡ id
      → authorize_access c origin ≡ none
      → HasEffect IsParsed host origin form es (remove_locked host id form st)
  unfolding remove_locked
  remove_locked_effect id form es st c e l i a = elim (Result-cases (is_active st id)) [
    | inr (error, q) ↦ rw (q, remove_locked) (record { effect = kept e })
    | inl (active, q) ↦ elim (Bool-cases active) [
      | inl n ↦ rw (q, n, remove_locked) (record { effect = kept e })
      | inr n ↦
          rw (q, n, remove_locked)
            (admitted_effect IsParsed host origin form es st true _ _ e (λ admin.
              elim (remove_lem host id st) [
                | inl k ↦ record { effect = kept (k ∙ e) }
                | inr k ↦ record { effect = deleted c l a (admin refl) (k ∙ rw (i, e) refl) }
              ]))
    ]
  ]

  pub remove_effect :
      (id : ℕ) (form : Option (List ℕ)) (st : Store N)
      → HasEffect IsParsed host origin form st.entries
          (handle_remove_connection host origin id form st)
  unfolding handle_remove_connection
  remove_effect id form st =
      let es = st.entries in
      locked_effect IsParsed host origin form es st
        (λ st1.
          loaded st1 id λ c. authorized st1 c origin (locked host st1 (remove_locked host id form)))
        refl
        λ st1 e.
          loaded_effect IsParsed host origin form es st1 id
            (λ c. authorized st1 c origin (locked host st1 (remove_locked host id form))) e
            λ c i l.
              authorized_effect IsParsed host origin form es st1 c
                (locked host st1 (remove_locked host id form)) e
                λ a.
                  locked_effect IsParsed host origin form es st1 (remove_locked host id form) e
                    λ st2 e2. remove_locked_effect id form es st2 c e2 l i a
