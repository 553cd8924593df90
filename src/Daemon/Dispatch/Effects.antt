-- ===== src/Daemon/Dispatch/Effects.antt =====
-- `dispatch` of src/privileged/dispatch.rs and the stored connections.
use macos_wireguard_daemon.Prelude.{
  ◌≡◌, ◌≢◌, refl, sym, ap, ◌∙◌, ℕ, Option, none, some, List, arith, Eq, ◌==◌, ==_iff, ℕ_eq, Bool_eq,
  List_eq, Option_eq, ok, Bool-cases, inl, inr, if◌then◌else◌,
}
use mathlib.Core.Path.{subst}
use macos_wireguard_daemon.Links.Net.{IpNetOps}
use macos_wireguard_daemon.Links.{BypassLink}
use macos_wireguard_daemon.Daemon.Store.{
  StoredConnection, Store, Host, from_disk_checked, load_in, put, interface_name,
}
use macos_wireguard_daemon.Daemon.Store.Records.{
  IsDirectory, IsPlaced, load_in-some, load_in-put, load_in-without,
}
use macos_wireguard_daemon.Daemon.Responses.{PeerOrigin, authorize_access}
use macos_wireguard_daemon.Daemon.Dispatch.Add.{ConfTools}
use macos_wireguard_daemon.Daemon.Dispatch.Requests.{
  PrivilegedRequest, add_connection, remove_connection, set_connection_mode,
  set_connection_dns_dynamic_store, set_connection_bypass_links, form_of, dispatch, Entries,
  IsAdmin, IsEdit, IsElevation, IsEffect, kept, edited, added, deleted, replaced, IsReplacement,
  IsParsedBy, refresh_connection, connect_connection, disconnect_connection, reconnect_connection,
}
use macos_wireguard_daemon.Daemon.Dispatch.Edits.{
  mode_effect, dns_effect, links_effect, remove_effect,
}
use macos_wireguard_daemon.Daemon.Dispatch.Add.Effect.{add_effect}
use macos_wireguard_daemon.Daemon.Dispatch.Tunnel.{TunnelOps}
use macos_wireguard_daemon.Daemon.Dispatch.Tunnel.Effect.{
  connect_effect, disconnect_effect, reconnect_effect,
}
use macos_wireguard_daemon.Daemon.Dispatch.Refresh.Effect.{refresh_effect}

module _ {N : Type 0} where
  pub lookup_put :
      (id : ℕ) (d : StoredConnection N) (es : Entries N) (j : ℕ)
      → d.id ≡ id
      → IsPlaced d
      → load_in (put id d es) j ≡ (if id == j then ok (some d) else load_in es j)
  unfolding from_disk_checked
  lookup_put id d es j i p =
      ground (
        arith,
        load_in-put id d es j,
        i,
        p,
        ==_iff d.id id,
        ==_iff d.interface (interface_name d.id),
      )

  -- An edit of a placed record is placed.
  pub edit-IsPlaced : (c d : StoredConnection N) → IsPlaced c → IsEdit c d → IsPlaced d
  edit-IsPlaced c d p e = e.interface ∙ p ∙ ap interface_name (sym e.id)

  pub replacement-IsPlaced :
      (c d : StoredConnection N) → IsPlaced c → IsReplacement c d → IsPlaced d
  replacement-IsPlaced c d p r = r.interface ∙ p ∙ ap interface_name (sym r.id)

  -- Every request that may change the store, whatever fails in it, has one of these effects: it keeps
  -- the records; or it edits the settings of one that its peer may use, switching a global connection's
  -- start at boot on only with an administrator's authorization; or, with one, it adds a record for the
  -- peer whose identity and interface no other has; or, with one, it gives a record that the peer may
  -- use another configuration, whose identity no record has; or, with one, it deletes a record that the
  -- peer may use. The condition is that no two files of the store have one name.
  pub dispatch-IsEffect :
      ⦃q : Eq N⦄
      → ⦃f : Eq (BypassLink N)⦄
      → (host : Host) (net : IpNetOps N) (tools : ConfTools N) (tunnel : TunnelOps N)
        (origin : PeerOrigin) (request : PrivilegedRequest N) (st : Store N)
      → IsDirectory st.entries
      → IsEffect
          (IsParsedBy net tools)
          host
          origin
          (form_of request)
          st.entries
          (dispatch host net tools tunnel origin request st).1.entries
  unfolding dispatch
  dispatch-IsEffect host net tools tunnel origin (add_connection request) st d =
      (add_effect (IsParsedBy net tools) host origin net tools (λ c g. g) request st d).effect
  dispatch-IsEffect host net tools tunnel origin (remove_connection id form) st d =
      (remove_effect (IsParsedBy net tools) host origin id form st).effect
  dispatch-IsEffect host net tools tunnel origin (set_connection_mode id mode form) st d =
      (mode_effect (IsParsedBy net tools) host origin id mode form st).effect
  dispatch-IsEffect host net tools tunnel origin (set_connection_dns_dynamic_store id enabled) st
        d =
      (dns_effect (IsParsedBy net tools) host origin id enabled st).effect
  dispatch-IsEffect host net tools tunnel origin (set_connection_bypass_links id links) st d =
      (links_effect (IsParsedBy net tools) host origin net id links st).effect
  dispatch-IsEffect host net tools tunnel origin (refresh_connection id request) st d =
      (refresh_effect (IsParsedBy net tools) host origin tunnel net tools (λ c g. g) id request st
        d).effect
  dispatch-IsEffect host net tools tunnel origin (connect_connection id debug reason) st d =
      (connect_effect (IsParsedBy net tools) host origin tunnel id debug reason st).effect
  dispatch-IsEffect host net tools tunnel origin (disconnect_connection id reason) st d =
      (disconnect_effect (IsParsedBy net tools) host origin tunnel id reason st).effect
  dispatch-IsEffect host net tools tunnel origin (reconnect_connection id) st d =
      (reconnect_effect (IsParsedBy net tools) host origin tunnel id st).effect

  effect_protects :
      (P : StoredConnection N → Type 0) (host : Host) (origin : PeerOrigin) (form : Option (List ℕ))
      (before after : Entries N) (j : ℕ) (c : StoredConnection N)
      → IsEffect P host origin form before after
      → load_in before j ≡ ok (some c)
      → authorize_access c origin ≢ none
      → load_in after j ≡ ok (some c)
  effect_protects P host origin form before after j c (kept e) l a =
      ap (λ (es : Entries N). load_in es j) e ∙ l
  effect_protects P host origin form before after j c (edited d d' k b ed up e) l a =
      let own = load_in-some before d.id d k in
      ap (λ (es : Entries N). load_in es j) e
      ∙ ground (
        arith,
        lookup_put d.id d' before j ed.id (edit-IsPlaced d d' own.1 ed),
        ==_iff d.id j,
        k,
        l,
        a,
        b,
      )
  effect_protects P host origin form before after j c (added d admin b p good fresh e) l a =
      let own = load_in-some before j c l in
      ap (λ (es : Entries N). load_in es j) e
      ∙ ground (arith, lookup_put d.id d before j refl p, ==_iff d.id j, own, l, p, (fresh j c l).1)
  effect_protects P host origin form before after j c (replaced d d' k b admin r good fresh e) l a =
      let own = load_in-some before d.id d k in
      ap (λ (es : Entries N). load_in es j) e
      ∙ ground (
        arith,
        lookup_put d.id d' before j r.id (replacement-IsPlaced d d' own.1 r),
        ==_iff d.id j,
        k,
        l,
        a,
        b,
      )
  effect_protects P host origin form before after j c (deleted d k b admin e) l a =
      ap (λ (es : Entries N). load_in es j) e
      ∙ ground (arith, load_in-without d.id before j, ==_iff d.id j, k, l, a, b)

  -- No request changes or removes a record that its peer may not use. The condition is that no two
  -- files of the store have one name.
  pub dispatch_protects :
      ⦃q : Eq N⦄
      → ⦃f : Eq (BypassLink N)⦄
      → (host : Host) (net : IpNetOps N) (tools : ConfTools N) (tunnel : TunnelOps N)
        (origin : PeerOrigin) (request : PrivilegedRequest N) (st : Store N) (j : ℕ)
        (c : StoredConnection N)
      → IsDirectory st.entries
      → load_in st.entries j ≡ ok (some c)
      → authorize_access c origin ≢ none
      → load_in (dispatch host net tools tunnel origin request st).1.entries j ≡ ok (some c)
  dispatch_protects host net tools tunnel origin request st j c d l a =
      effect_protects (IsParsedBy net tools) host origin (form_of request) st.entries
        (dispatch host net tools tunnel origin request st).1.entries j c
        (dispatch-IsEffect host net tools tunnel origin request st d) l a

  unchanged : (c : StoredConnection N) → IsEdit c c
  unchanged c = record {
    id = refl;
    fingerprint = refl;
    global = refl;
    owner = refl;
    config = refl;
    raw_conf = refl;
    interface = refl;
  }

  -- A record is still there and runs the same, and it was not set to start at every boot.
  abbrev pub IsHarmless : Entries N → ℕ → StoredConnection N → Type 0
  IsHarmless after j c =
      (d : StoredConnection N) × (load_in after j ≡ ok (some d)) × IsEdit c d × ¬ IsElevation c d

  not_elevated : (c : StoredConnection N) → ¬ IsElevation c c
  not_elevated c e = ground (arith, e)

  effect-IsHarmless :
      (P : StoredConnection N → Type 0) (host : Host) (origin : PeerOrigin) (form : Option (List ℕ))
      (before after : Entries N) (j : ℕ) (c : StoredConnection N)
      → IsEffect P host origin form before after
      → ¬ IsAdmin host form
      → load_in before j ≡ ok (some c)
      → IsHarmless after j c
  effect-IsHarmless P host origin form before after j c (kept e) n l =
      (c, ap (λ (es : Entries N). load_in es j) e ∙ l, unchanged c, not_elevated c)
  effect-IsHarmless P host origin form before after j c (added d admin b p good fresh e) n l =
      absurd (n admin)
  effect-IsHarmless P host origin form before after j c (replaced d d' k b admin r good fresh e) n
        l =
      absurd (n admin)
  effect-IsHarmless P host origin form before after j c (deleted d k b admin e) n l =
      absurd (n admin)
  effect-IsHarmless P host origin form before after j c (edited d d' k b ed up e) n l =
      let own = load_in-some before d.id d k in
      let look = lookup_put d.id d' before j ed.id (edit-IsPlaced d d' own.1 ed) in
      let moved = ap (λ (es : Entries N). load_in es j) e in
      elim (Bool-cases (d.id == j)) [
        | inr q ↦ (c, moved ∙ ground (arith, look, q, l), unchanged c, not_elevated c)
        | inl q ↦
            let same : d ≡ c =
              ground (arith, ap (load_in before) (sym ((==_iff d.id j).0 q)) ∙ k, l) in
            (
              d',
              moved ∙ ground (arith, look, q),
              subst (λ x. IsEdit x d') same ed,
              λ elevation. n (up (subst (λ x. IsElevation x d') (sym same) elevation)),
            )
      ]

  -- Without an administrator's authorization no request removes a record, changes what one runs, moves one to another owner, or sets a global one to start at every boot. The condition is that no
  -- two files of the store have one name.
  pub dispatch_needs_admin :
      ⦃q : Eq N⦄
      → ⦃f : Eq (BypassLink N)⦄
      → (host : Host) (net : IpNetOps N) (tools : ConfTools N) (tunnel : TunnelOps N)
        (origin : PeerOrigin) (request : PrivilegedRequest N) (st : Store N) (j : ℕ)
        (c : StoredConnection N)
      → IsDirectory st.entries
      → ¬ IsAdmin host (form_of request)
      → load_in st.entries j ≡ ok (some c)
      → IsHarmless (dispatch host net tools tunnel origin request st).1.entries j c
  dispatch_needs_admin host net tools tunnel origin request st j c d n l =
      effect-IsHarmless (IsParsedBy net tools) host origin (form_of request) st.entries
        (dispatch host net tools tunnel origin request st).1.entries j c
        (dispatch-IsEffect host net tools tunnel origin request st d) n l
