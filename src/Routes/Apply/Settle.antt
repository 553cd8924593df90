-- ===== src/Routes/Apply/Settle.antt =====
-- Two ticks of `macos_reconcile_routes` on one network.
use macos_wireguard_daemon.Prelude.{
  ◌≡◌, ◌≢◌, sym, refl, true, false, List, [], ◌∷◌, arith, ◌==◌, ==_iff, is_empty, any, contains, ok,
  Bool-cases, inl, inr,
}
use macos_wireguard_daemon.Links.Net.{IpNetOps}
use macos_wireguard_daemon.Routes.{
  MacosRoute, MacosRoute_eq, MacosNetworkFingerprint, Fingerprint_eq, MacosReconcileInputs,
  macos_desired_routes,
}
use macos_wireguard_daemon.Routes.Apply.{
  MacosRoutingState, MacosRouteFailure, add, failed_before, delete_pending,
}
use macos_wireguard_daemon.Routes.Apply.Failures.{full_pass_lem}
use macos_wireguard_daemon.Routes.Apply.Retry.{IsWorking, NeverYields, retry_lem, is_accounted}
use macos_wireguard_daemon.Routes.Apply.Reconcile.{
  RouteHost, keep_previous, macos_current_fingerprint, calls_under, reconcile_towards,
  macos_reconcile_routes,
}

is_empty_lem : (failures : List MacosRouteFailure) → is_empty failures ≡ true → failures ≡ []
is_empty_lem [] e = refl
is_empty_lem (f ∷ failures) e = cc

no_failure_lem :
    (failures : List MacosRouteFailure) (x : MacosRoute)
    → is_empty failures ≡ true
    → (failed_before failures x add ≡ false) × (delete_pending failures x ≡ false)
unfolding failed_before delete_pending any
no_failure_lem [] x e = (refl, refl)
no_failure_lem (f ∷ failures) x e = cc

module _ {W N : Type 0} (net : IpNetOps N) where
  tick_lem :
      (host : RouteHost W) (inputs : MacosReconcileInputs N) (routing : MacosRoutingState)
      (fp : MacosNetworkFingerprint) (w : W)
      → macos_current_fingerprint net host inputs
          (keep_previous routing.fingerprint.endpoint_gateway)
          w
        ≡ ok fp
      → macos_reconcile_routes net host inputs routing w
        ≡ reconcile_towards net host inputs routing fp w
  unfolding macos_reconcile_routes
  tick_lem host inputs routing fp w e = rw (e, macos_reconcile_routes) refl

  -- The tick of a changed network.
  changed_lem :
      (host : RouteHost W) (inputs : MacosReconcileInputs N) (routing : MacosRoutingState)
      (fp : MacosNetworkFingerprint) (w : W)
      → NeverYields (calls_under net host inputs fp)
      → fp ≢ routing.fingerprint
      → let (acted, routing', w') = reconcile_towards net host inputs routing fp w in
        (routing'.fingerprint ≡ fp)
        × ((x : MacosRoute)
            → (contains (macos_desired_routes net inputs fp) x ≡ true
                → is_accounted routing'.routes_added routing'.failing x ≡ true)
              × (contains routing'.routes_added x ≡ true
                  → is_empty routing'.failing ≡ true
                  → contains (macos_desired_routes net inputs fp) x ≡ true))
  unfolding reconcile_towards
  changed_lem host inputs routing fp w y h = elim (Bool-cases (fp == routing.fingerprint)) [
    | inl e ↦ absurd (h ((==_iff fp routing.fingerprint).0 e))
    | inr e ↦ rw e (
      refl,
      full_pass_lem (calls_under net host inputs fp) y routing (macos_desired_routes net inputs fp)
          w,
    )
  ]

  -- The tick of an unchanged network.
  unchanged_lem :
      (host : RouteHost W) (inputs : MacosReconcileInputs N) (routing : MacosRoutingState)
      (fp : MacosNetworkFingerprint) (w : W)
      → IsWorking (calls_under net host inputs fp)
      → routing.fingerprint ≡ fp
      → ((x : MacosRoute)
          → (contains (macos_desired_routes net inputs fp) x ≡ true
              → is_accounted routing.routes_added routing.failing x ≡ true)
            × (contains routing.routes_added x ≡ true
                → is_empty routing.failing ≡ true
                → contains (macos_desired_routes net inputs fp) x ≡ true))
      → let (acted, routing', w') = reconcile_towards net host inputs routing fp w in
        ((x : MacosRoute)
          → contains routing'.routes_added x ≡ contains (macos_desired_routes net inputs fp) x)
        × (routing'.failing ≡ [])
  unfolding reconcile_towards
  unchanged_lem host inputs routing fp w k e h =
      let same = (==_iff fp routing.fingerprint).1 (sym e) in
      let after =
        retry_lem (calls_under net host inputs fp) k routing (macos_desired_routes net inputs fp)
          w in
      elim (Bool-cases (is_empty routing.failing)) [
        | inl z ↦
            rw (same, z)
              (
                λ x. ground (arith, h x, no_failure_lem routing.failing x z),
                is_empty_lem routing.failing z,
              )
        | inr z ↦ rw (same, z) (λ x. ground (arith, h x, after.0 x), after.1)
      ]

  -- However the calls of the first tick on a changed network fail, as long as no add yields to a
  -- physical interface, a later tick on the same network whose calls all work leaves the tunnel
  -- owning the desired routes and no others, with no failure left.
  pub macos_reconcile_routes-settles :
      (host later : RouteHost W) (inputs : MacosReconcileInputs N) (routing : MacosRoutingState)
      (fp : MacosNetworkFingerprint) (w w' : W)
      → NeverYields (calls_under net host inputs fp)
      → IsWorking (calls_under net later inputs fp)
      → macos_current_fingerprint net host inputs
          (keep_previous routing.fingerprint.endpoint_gateway)
          w
        ≡ ok fp
      → fp ≢ routing.fingerprint
      → macos_current_fingerprint net later inputs (keep_previous fp.endpoint_gateway) w' ≡ ok fp
      → let (_, first, _) = macos_reconcile_routes net host inputs routing w in
        let (_, second, _) = macos_reconcile_routes net later inputs first w' in
        ((x : MacosRoute)
          → contains second.routes_added x ≡ contains (macos_desired_routes net inputs fp) x)
        × (second.failing ≡ [])
  macos_reconcile_routes-settles host later inputs routing fp w w' y k e h f =
      let changed = changed_lem host inputs routing fp w y h in
      let first : MacosRoutingState = (reconcile_towards net host inputs routing fp w).1 in
      let f' : macos_current_fingerprint net later inputs
            (keep_previous first.fingerprint.endpoint_gateway) w'
          ≡ ok fp =
        rw changed.0 f in
      rw (tick_lem host inputs routing fp w e, tick_lem later inputs first fp w' f')
        (unchanged_lem later inputs first fp w' k changed.0 changed.1)
