-- ===== src/Daemon/Dispatch/Intent.antt =====
-- A user's disconnect and the connects that follow it: `mark_user_disconnected` and
-- `resolve_connect_intent` of src/privileged/dispatch.rs.
use macos_wireguard_daemon.Prelude.{
  ◌≡◌, refl, ℕ, true, false, some, arith, ==_iff, ℕ_eq, List_eq, ok,
}
use macos_wireguard_daemon.Daemon.Store.{StoredConnection, Store, Host, load_in, save}
use macos_wireguard_daemon.Daemon.Store.Records.{load_in-some}
use macos_wireguard_daemon.Daemon.Dispatch.{
  user, reconciliation, by_user, resolve_connect_intent, mark_user_disconnected,
}
use macos_wireguard_daemon.Daemon.Dispatch.Effects.{lookup_put}

module _ {N : Type 0} (host : Host) where
  -- Once a user's disconnect is recorded, an automatic connect of that connection backs off and leaves
  -- the store as it is, in every later store in which the record is still the one that was written,
  -- whatever else of the store and the host has changed.
  pub mark_user_disconnected_holds :
      (later_host : Host) (id : ℕ) (c : StoredConnection N) (st later : Store N)
      → load_in st.entries id ≡ ok (some c)
      → (mark_user_disconnected host id by_user st).0 ≡ ok tt
      → load_in later.entries id ≡ load_in (mark_user_disconnected host id by_user st).1.entries id
      → resolve_connect_intent later_host id reconciliation later ≡ (ok false, later)
  unfolding mark_user_disconnected resolve_connect_intent save
  mark_user_disconnected_holds later_host id c st later l m k =
      let own = load_in-some st.entries id c l in
      let d : StoredConnection N = record c { user_disconnected = true } in
      ground (arith, l, m, k, own, lookup_put d.id d st.entries id refl own.1, ==_iff c.id id)

  -- A connect by the user that is let through also lets the automatic ones through that follow it.
  pub resolve_connect_intent_clears :
      (id : ℕ) (c : StoredConnection N) (st : Store N)
      → load_in st.entries id ≡ ok (some c)
      → (resolve_connect_intent host id user st).0 ≡ ok true
      → let (_, cleared) = resolve_connect_intent host id user st in
        resolve_connect_intent host id reconciliation cleared ≡ (ok true, cleared)
  unfolding resolve_connect_intent save
  resolve_connect_intent_clears id c st l m =
      let own = load_in-some st.entries id c l in
      let d : StoredConnection N = record c { user_disconnected = false } in
      ground (arith, l, m, own, lookup_put d.id d st.entries id refl own.1, ==_iff c.id id)
