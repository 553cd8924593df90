-- ===== src/Daemon/Operations/Keep.antt =====
-- What `connect` and `disconnect` of src/privileged/connection_ops.rs leave as it is.
use macos_wireguard_daemon.Prelude.{
  ◌≡◌, refl, ℕ, suc, List, [], ◌∷◌, Text, text, Eq, ℕ_eq, List_eq, All, map, Result, ok, err, leb,
  Result-cases, Option-cases, Bool-cases, inl, inr,
}
use macos_wireguard_daemon.Links.Net.{IpNetOps}
use macos_wireguard_daemon.Links.{
  BypassLink, canonical_link, check_link, check_links, check_links_from, split_report,
  validate_links, max_links,
}
use macos_wireguard_daemon.Links.Check.{IsValidLink, check_link_iff}
use macos_wireguard_daemon.Config.{ConnectionConfig}
use macos_wireguard_daemon.Daemon.Errors.{AppError}
use macos_wireguard_daemon.Daemon.Store.{StoredConnection, allowed_ips}
use macos_wireguard_daemon.Daemon.Operations.{
  ActiveMarker, Answer, Machine, next, run_hook, run_hooks, run_hooks_best_effort, take_down,
  clear_dead_helper_leftovers, disconnect_stored, disconnect,
}

-- The links that a validation lets through.
module _ {N : Type 0} ⦃e : Eq N⦄ (net : IpNetOps N) where
  report-AllValid :
      (i : ℕ) (links : List (BypassLink N)) (allowed : List N)
      → All
          (λ l. IsValidLink net l allowed)
          (split_report net (check_links_from net i links allowed)).valid
  unfolding check_links_from split_report
  report-AllValid i [] allowed = tt
  report-AllValid i (link ∷ rest) allowed =
      let canonical = canonical_link net link in
      elim (Bool-cases (leb max_links i)) [
        | inl m ↦ rw m (report-AllValid (suc i) rest allowed)
        | inr m ↦ elim (Result-cases (check_link net canonical allowed)) [
          | inr (error, q) ↦ rw (m, q) (report-AllValid (suc i) rest allowed)
          | inl (_, q) ↦
              rw (m, q)
                ((check_link_iff net canonical allowed).0 q, report-AllValid (suc i) rest allowed)
        ]
      ]

  pub valid-AllValid :
      (links : List (BypassLink N)) (allowed_ips : List N)
      → All
          (λ l. IsValidLink net l (map net.trunc allowed_ips))
          (validate_links net links allowed_ips).valid
  unfolding validate_links check_links
  valid-AllValid links allowed_ips = report-AllValid 0 links (map net.trunc allowed_ips)

-- An answer whose world has a property.
pub record Kept {A W : Type 0} (I : W → Type 0) (r : Answer W A) : Type 0 where
  pub value : I r.1

module _ {A B W : Type 0} (I : W → Type 0) where
  pub next-Kept :
      (r : Answer W A) (k : A → W → Answer W B)
      → Kept I r
      → ((a : A) (w : W) → r.0 ≡ ok a → I w → Kept I (k a w))
      → Kept I (next r k)
  unfolding next
  next-Kept (ok a, w) k h f = f a w refl h.value
  next-Kept (err e, w) k h f = record { value = h.value }

module _ {N W : Type 0} (machine : Machine N W) (I : W → Type 0) where
  -- The calls that do not start a helper keep the property.
  pub record IsKeeping : Type 0 where
    pub lock_network : (w : W) → I w → I (machine.lock_network w).1
    pub ensure_dns_custody_dir : (w : W) → I w → I (machine.ensure_dns_custody_dir w).1
    pub sweep : (interface : Text) (w : W) → I w → I (machine.sweep interface w)
    pub remove_if_dead : (interface : Text) (w : W) → I w → I (machine.remove_if_dead interface w)
    pub create_sentinel : (w : W) → I w → I (machine.create_sentinel w)
    pub settle : (w : W) → I w → I (machine.settle w)
    pub shell : (cmd : Text) (w : W) → I w → I (machine.shell cmd w).1
    pub gotatun_down : (interface : Text) (w : W) → I w → I (machine.gotatun_down interface w).1
    pub save_active :
        (id : ℕ) (marker : ActiveMarker) (w : W) → I w → I (machine.save_active id marker w).1
    pub clear_active : (id : ℕ) (w : W) → I w → I (machine.clear_active id w).1

  module _ (keeps : IsKeeping) where
    run_hook-Kept :
        (cmd interface label : Text) (w : W) → I w → Kept I (run_hook machine cmd interface label w)
    unfolding run_hook
    run_hook-Kept cmd interface label w h = record { value = keeps.shell _ w h }

    pub run_hooks-Kept :
        (cmds : List Text) (interface label : Text) (w : W)
        → I w
        → Kept I (run_hooks machine cmds interface label w)
    unfolding run_hooks
    run_hooks-Kept [] interface label w h = record { value = h }
    run_hooks-Kept (cmd ∷ rest) interface label w h =
        next-Kept I (run_hook machine cmd interface label w) _
          (run_hook-Kept cmd interface label w h)
          (λ a w' q k. run_hooks-Kept rest interface label w' k)

    best_effort-Kept :
        (cmds : List Text) (interface label : Text) (w : W)
        → I w
        → I (run_hooks_best_effort machine cmds interface label w)
    unfolding run_hooks_best_effort
    best_effort-Kept [] interface label w h = h
    best_effort-Kept (cmd ∷ rest) interface label w h =
        best_effort-Kept rest interface label _ (run_hook-Kept cmd interface label w h).value

    pub take_down-Kept : (interface : Text) (w : W) → I w → Kept I (take_down machine interface w)
    unfolding take_down
    take_down-Kept interface w h =
        next-Kept I (machine.lock_network w) _ (record { value = keeps.lock_network w h })
          (λ a w' q k. record { value = keeps.gotatun_down interface w' k })

    pub leftovers-Kept :
        (interface : Text) (w : W) → I w → Kept I (clear_dead_helper_leftovers machine interface w)
    unfolding clear_dead_helper_leftovers
    leftovers-Kept interface w h =
        next-Kept I (machine.lock_network w) _ (record { value = keeps.lock_network w h })
          λ a w1 q k.
            elim (Bool-cases (machine.has_record interface (machine.sweep interface w1))) [
              | inl r ↦ rw r (record { value = keeps.sweep interface w1 k })
              | inr r ↦ rw r (record {
                value =
                    keeps.remove_if_dead interface (machine.sweep interface w1)
                      (keeps.sweep interface w1 k);
              })
            ]

    module _ (parse : Text → Result AppError (ConnectionConfig N)) where
      disconnect_stored-Kept :
          (id : ℕ) (stored : StoredConnection N) (w : W)
          → I w
          → Kept I (disconnect_stored machine parse id stored w)
      unfolding disconnect_stored
      disconnect_stored-Kept id stored w h = elim (Result-cases (parse stored.raw_conf)) [
        | inr (error, q) ↦
            rw (q, disconnect_stored)
              (next-Kept I (take_down machine stored.interface w) _
                (take_down-Kept stored.interface w h)
                (λ a w' r k. record { value = keeps.clear_active id w' k }))
        | inl (reparsed, q) ↦
            let down =
              run_hooks_best_effort machine reparsed.pre_down stored.interface (text "PreDown") w in
            rw (q, disconnect_stored)
              (next-Kept I (take_down machine stored.interface down) _
                (take_down-Kept stored.interface down
                  (best_effort-Kept reparsed.pre_down stored.interface (text "PreDown") w h))
                λ a w' r k. record {
                  value =
                      keeps.clear_active id _ (
                        best_effort-Kept reparsed.post_down stored.interface (text "PostDown") w'
                          k);
                })
      ]

      pub disconnect-Kept : (id : ℕ) (w : W) → I w → Kept I (disconnect machine parse id w)
      unfolding disconnect
      disconnect-Kept id w h =
          next-Kept I (machine.load id w, w) _ (record { value = h })
            λ found w' q k. elim (Option-cases found) [
              | inl n ↦ rw n (record { value = k })
              | inr (stored, n) ↦ rw n (disconnect_stored-Kept id stored w' k)
            ]
