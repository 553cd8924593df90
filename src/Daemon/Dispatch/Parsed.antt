-- ===== src/Daemon/Dispatch/Parsed.antt =====
-- What a record's text says and what it runs, over sequences of requests to
-- src/privileged/dispatch.rs.
use macos_wireguard_daemon.Prelude.{
  ◌≡◌, refl, sym, ap, ◌∙◌, ℕ, Option, some, List, arith, Eq, ◌==◌, ==_iff, ℕ_eq, ok, find,
  Bool-cases, inl, inr,
}
use mathlib.Core.Path.{subst}
use macos_wireguard_daemon.Links.Net.{IpNetOps}
use macos_wireguard_daemon.Links.{BypassLink}
use macos_wireguard_daemon.Config.{fingerprint}
use macos_wireguard_daemon.Daemon.Store.{StoredConnection, Store, Host, load_in, put}
use macos_wireguard_daemon.Daemon.Store.Records.{IsPlaced, load_in-some, load_in-without}
use macos_wireguard_daemon.Daemon.Responses.{PeerOrigin}
use macos_wireguard_daemon.Daemon.Dispatch.Add.{ConfTools}
use macos_wireguard_daemon.Daemon.Dispatch.Requests.{
  form_of, dispatch, Entries, IsEdit, IsParsedBy, IsEffect, kept, edited, added, replaced, deleted,
}
use macos_wireguard_daemon.Daemon.Dispatch.Effects.{
  lookup_put, edit-IsPlaced, replacement-IsPlaced, dispatch-IsEffect,
}
use macos_wireguard_daemon.Daemon.Dispatch.Invariants.{
  IsReachable, empty, requested, elsewhere, reachable-IsUnique,
}

module _ {N : Type 0} where
  -- Every record that loads is one of these.
  abbrev pub Every : (StoredConnection N → Type 0) → Entries N → Type 0
  Every P es = (j : ℕ) (c : StoredConnection N) → load_in es j ≡ ok (some c) → P c

  put-Every :
      (P : StoredConnection N → Type 0) (es : Entries N) (id : ℕ) (d : StoredConnection N)
      → d.id ≡ id
      → IsPlaced d
      → P d
      → Every P es
      → Every P (put id d es)
  put-Every P es id d i p h every j c l =
      let look = lookup_put id d es j i p in
      elim (Bool-cases (id == j)) [
        | inl n ↦ let same : d ≡ c = ground (arith, look, n, l) in subst P same h
        | inr n ↦ every j c (ground (arith, look, n, l))
      ]

  effect-Every :
      (Q P : StoredConnection N → Type 0) (host : Host) (origin : PeerOrigin)
      (form : Option (List ℕ)) (before after : Entries N)
      → ((c d : StoredConnection N) → IsEdit c d → P c → P d)
      → ((c : StoredConnection N) → Q c → P c)
      → IsEffect Q host origin form before after
      → Every P before
      → Every P after
  effect-Every Q P host origin form before after edits news (kept e) every = rw e every
  effect-Every Q P host origin form before after edits news (edited c d k b ed up e) every =
      let own = load_in-some before c.id c k in
      rw e (
        put-Every P before c.id d ed.id (edit-IsPlaced c d own.1 ed) (edits c d ed (every c.id c k))
          every)
  effect-Every Q P host origin form before after edits news (added c admin b p good fresh e) every =
      rw e (put-Every P before c.id c refl p (news c good) every)
  effect-Every Q P host origin form before after edits news (replaced c d k b admin r good fresh e)
        every =
      let own = load_in-some before c.id c k in
      rw e (put-Every P before c.id d r.id (replacement-IsPlaced c d own.1 r) (news d good) every)
  effect-Every Q P host origin form before after edits news (deleted c k b admin e) every =
      rw e λ j d l. every j d (ground (arith, load_in-without c.id before j, ==_iff c.id j, l))

  edit-IsParsedBy :
      (net : IpNetOps N) (tools : ConfTools N) (c d : StoredConnection N)
      → IsEdit c d
      → IsParsedBy net tools c
      → IsParsedBy net tools d
  edit-IsParsedBy net tools c d ed p = (
    ap tools.parse ed.raw_conf ∙ p.0 ∙ ap ok (sym ed.config),
    ed.fingerprint ∙ p.1 ∙ ap (fingerprint net tools.sha256) (sym ed.config),
  )

  -- In a store that requests lead to from an empty one, each with its own tools, the configuration of
  -- every record is what its stored text parsed to with the tools of some request, and its fingerprint
  -- is that configuration's.
  pub reachable-IsParsedBy :
      ⦃q : Eq N⦄
      → ⦃f : Eq (BypassLink N)⦄
      → {T : Type 0} (net : IpNetOps N) (tools_of : T → ConfTools N) (st : Store N)
      → IsReachable net tools_of st
      → Every (λ c. (t : T) × IsParsedBy net (tools_of t) c) st.entries
  unfolding load_in find
  reachable-IsParsedBy net tools_of _ (empty st e) = rw e λ j c l. absurd (ground (arith, l))
  reachable-IsParsedBy {T = T} net tools_of _ (requested st host t tunnel origin request r) =
      effect-Every (IsParsedBy net (tools_of t)) (λ c. (u : T) × IsParsedBy net (tools_of u) c) host
        origin (form_of request) st.entries
        (dispatch host net (tools_of t) tunnel origin request st).1.entries
        (λ c d ed p. (p.0, edit-IsParsedBy net (tools_of p.0) c d ed p.1)) (λ c p. (t, p))
        (dispatch-IsEffect host net (tools_of t) tunnel origin request st
          (reachable-IsUnique net tools_of st r).0)
        (reachable-IsParsedBy net tools_of st r)
  reachable-IsParsedBy net tools_of _ (elsewhere st st' r e) =
      rw e (reachable-IsParsedBy net tools_of st r)
