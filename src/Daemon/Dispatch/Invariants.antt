-- ===== src/Daemon/Dispatch/Invariants.antt =====
-- Sequences of requests to src/privileged/dispatch.rs.
use macos_wireguard_daemon.Prelude.{
  ◌≡◌, ◌⊎◌, refl, sym, ap, ◌∙◌, ℕ, true, Option, some, List, [], arith, Eq, ◌==◌, ==_iff, ℕ_eq,
  Bool_eq, List_eq, Option_eq, ok, find, Bool-cases, inl, inr, if◌then◌else◌,
}
use macos_wireguard_daemon.Links.Net.{IpNetOps}
use macos_wireguard_daemon.Links.{BypassLink}
use macos_wireguard_daemon.Daemon.Store.{StoredConnection, Store, Host, load_in, is_identity, put}
use macos_wireguard_daemon.Daemon.Store.Records.{
  IsDirectory, load_in-some, load_in-without, put-IsDirectory, without-IsDirectory,
}
use macos_wireguard_daemon.Daemon.Responses.{PeerOrigin}
use macos_wireguard_daemon.Daemon.Dispatch.Add.{ConfTools}
use macos_wireguard_daemon.Daemon.Dispatch.Tunnel.{TunnelOps}
use macos_wireguard_daemon.Daemon.Dispatch.Requests.{
  PrivilegedRequest, form_of, dispatch, Entries, IsEdit, IsEffect, kept, edited, added, deleted,
  replaced, IsReplacement, IsParsedBy,
}
use macos_wireguard_daemon.Daemon.Dispatch.Effects.{
  lookup_put, edit-IsPlaced, replacement-IsPlaced, dispatch-IsEffect,
}

module _ {N : Type 0} where
  -- No two records have the same identity: the same configuration in the same owner's namespace.
  abbrev pub IsUnique : Entries N → Type 0
  IsUnique es =
      (i j : ℕ) (a b : StoredConnection N)
      → load_in es i ≡ ok (some a)
      → load_in es j ≡ ok (some b)
      → is_identity a.fingerprint a.global a.owner_uid b ≡ true
      → i ≡ j

  -- Where a record comes from that an edit leaves.
  before_edit :
      (before : Entries N) (c d : StoredConnection N) (i : ℕ) (a : StoredConnection N)
      → load_in before c.id ≡ ok (some c)
      → IsEdit c d
      → load_in (put c.id d before) i ≡ ok (some a)
      → (a0 : StoredConnection N) × (load_in before i ≡ ok (some a0))
        × (a0.fingerprint ≡ a.fingerprint)
        × (a0.global ≡ a.global)
        × (a0.owner_uid ≡ a.owner_uid)
  before_edit before c d i a k ed l =
      let own = load_in-some before c.id c k in
      let look = lookup_put c.id d before i ed.id (edit-IsPlaced c d own.1 ed) in
      elim (Bool-cases (c.id == i)) [
        | inr n ↦ (a, ground (arith, look, n, l), refl, refl, refl)
        | inl n ↦ (
          c,
          ap (load_in before) (sym ((==_iff c.id i).0 n)) ∙ k,
          ground (arith, look, n, l, ed.fingerprint),
          ground (arith, look, n, l, ed.global),
          ground (arith, look, n, l, ed.owner),
        )
      ]

  -- Where a record comes from that a replacement leaves.
  before_replacement :
      (before : Entries N) (c d : StoredConnection N) (i : ℕ) (a : StoredConnection N)
      → load_in before c.id ≡ ok (some c)
      → IsReplacement c d
      → load_in (put c.id d before) i ≡ ok (some a)
      → ((c.id ≡ i) × (a ≡ d)) ⊎ (load_in before i ≡ ok (some a))
  before_replacement before c d i a k r l =
      let own = load_in-some before c.id c k in
      let look = lookup_put c.id d before i r.id (replacement-IsPlaced c d own.1 r) in
      elim (Bool-cases (c.id == i)) [
        | inl n ↦ inl ((==_iff c.id i).0 n, ground (arith, look, n, l))
        | inr n ↦ inr (ground (arith, look, n, l))
      ]

  added_unique :
      (before : Entries N) (c : StoredConnection N) (i : ℕ) (a : StoredConnection N)
      → load_in (put c.id c before) i ≡ (if c.id == i then ok (some c) else load_in before i)
      → load_in (put c.id c before) i ≡ ok (some a)
      → ((c.id ≡ i) × (a ≡ c)) ⊎ (load_in before i ≡ ok (some a))
  added_unique before c i a look l = elim (Bool-cases (c.id == i)) [
    | inl n ↦ inl ((==_iff c.id i).0 n, ground (arith, look, n, l))
    | inr n ↦ inr (ground (arith, look, n, l))
  ]

  effect-IsUnique :
      (P : StoredConnection N → Type 0) (host : Host) (origin : PeerOrigin) (form : Option (List ℕ))
      (before after : Entries N)
      → IsEffect P host origin form before after
      → IsDirectory before × IsUnique before
      → IsDirectory after × IsUnique after
  effect-IsUnique P host origin form before after (kept e) u = rw e u
  effect-IsUnique P host origin form before after (edited c d k b ed up e) u = rw e (
    put-IsDirectory c.id d before u.0,
    λ i j a b la lb same.
        let (a0, ma, af, ag, ao) = before_edit before c d i a k ed la in
        let (b0, mb, bf, bg, bo) = before_edit before c d j b k ed lb in
        u.1 i j a0 b0 ma mb (ground (arith, af, ag, ao, bf, bg, bo, same)),
  )
  effect-IsUnique P host origin form before after (deleted c k b admin e) u = rw e (
    without-IsDirectory c.id before u.0,
    λ i j a b la lb same.
        u.1 i j a b (ground (arith, load_in-without c.id before i, la))
          (ground (arith, load_in-without c.id before j, lb)) same,
  )
  effect-IsUnique P host origin form before after (added c admin b p good fresh e) u = rw e (
    put-IsDirectory c.id c before u.0,
    λ i j a b la lb same. elim (added_unique before c i a (lookup_put c.id c before i refl p) la) [
      | inl (ci, ac) ↦ elim (added_unique before c j b (lookup_put c.id c before j refl p) lb) [
        | inl (cj, bc) ↦ sym ci ∙ cj
        | inr old ↦ absurd (ground (arith, ac, same, (fresh j b old).0))
      ]
      | inr old ↦ elim (added_unique before c j b (lookup_put c.id c before j refl p) lb) [
        | inl (cj, bc) ↦ absurd (ground (arith, bc, same, (fresh i a old).0))
        | inr other ↦ u.1 i j a b old other same
      ]
    ],
  )
  effect-IsUnique P host origin form before after (replaced c d k b admin r good fresh e) u = rw e (
    put-IsDirectory c.id d before u.0,
    λ i j a b la lb same. elim (before_replacement before c d i a k r la) [
      | inl (ci, ac) ↦ elim (before_replacement before c d j b k r lb) [
        | inl (cj, bc) ↦ sym ci ∙ cj
        | inr old ↦ absurd (ground (arith, ac, same, r.global, r.owner, fresh j b old))
      ]
      | inr old ↦ elim (before_replacement before c d j b k r lb) [
        | inl (cj, bc) ↦ absurd (ground (arith, bc, same, r.global, r.owner, fresh i a old))
        | inr other ↦ u.1 i j a b old other same
      ]
    ],
  )

  none_lem : IsUnique []
  unfolding load_in find
  none_lem i j a b l k same = cc

  -- The stores that requests lead to, each from any peer, with whatever the host then does, with tools
  -- of its own out of a family, so that the resolver may answer otherwise each time, and with tunnels of
  -- its own; and with any change of the rest of the store between them.
  pub data IsReachable ⦃q : Eq N⦄ ⦃f : Eq (BypassLink N)⦄ {T : Type 0} (net : IpNetOps N)
      (tools_of : T → ConfTools N) : Store N → Type 0 where
    empty : (st : Store N) → st.entries ≡ [] → IsReachable net tools_of st
    requested :
        (st : Store N) (host : Host) (t : T) (tunnel : TunnelOps N) (origin : PeerOrigin)
        (request : PrivilegedRequest N)
        → IsReachable net tools_of st
        → IsReachable net tools_of (dispatch host net (tools_of t) tunnel origin request st).1
    elsewhere :
        (st st' : Store N)
        → IsReachable net tools_of st
        → st'.entries ≡ st.entries
        → IsReachable net tools_of st'

  -- In a store that requests lead to from an empty one, no two files have one
  -- name and no two records one identity.
  pub reachable-IsUnique :
      ⦃q : Eq N⦄
      → ⦃f : Eq (BypassLink N)⦄
      → {T : Type 0} (net : IpNetOps N) (tools_of : T → ConfTools N) (st : Store N)
      → IsReachable net tools_of st
      → IsDirectory st.entries × IsUnique st.entries
  reachable-IsUnique net tools_of _ (empty st e) = rw e (tt, none_lem)
  reachable-IsUnique net tools_of _ (requested st host t tunnel origin request r) =
      let before = reachable-IsUnique net tools_of st r in
      effect-IsUnique (IsParsedBy net (tools_of t)) host origin (form_of request) st.entries
        (dispatch host net (tools_of t) tunnel origin request st).1.entries
        (dispatch-IsEffect host net (tools_of t) tunnel origin request st before.0) before
  reachable-IsUnique net tools_of _ (elsewhere st st' r e) =
      rw e (reachable-IsUnique net tools_of st r)
