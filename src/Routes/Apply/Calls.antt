-- ===== src/Routes/Apply/Calls.antt =====
-- The system calls of `macos_apply_route_plan` in src/userspace_helper/macos/routes.rs.
use macos_wireguard_daemon.Prelude.{
  ◌≡◌, refl, Bool, true, false, not, ◌||◌, List, [], ◌∷◌, Result-cases, Bool-cases, inl, inr, arith,
  ==_refl, contains,
}
use macos_wireguard_daemon.Routes.{MacosRoute, MacosRoute_eq}
use macos_wireguard_daemon.Routes.Apply.{
  MacosRouteFailure, MacosRoutingState, add, Pass, start, RouteCalls, remove_route, remove_routes,
  add_route, add_routes, skips, failed_before, delete_pending, macos_apply_route_plan,
}

skips_lem :
    (previous : List MacosRouteFailure) (current : List MacosRoute) (retry_only : Bool)
    (r : MacosRoute) (p : Pass)
    → skips previous current retry_only p r ≡ false
    → (contains current r ≡ false)
      × ((not retry_only || failed_before previous r add || delete_pending previous r) ≡ true)
unfolding skips
skips_lem previous current retry_only r p s = ground arith

module _ {W : Type 0} (calls other : RouteCalls W) where
  -- The calls agree on deleting this route, and on the repair that follows.
  abbrev pub AgreesOnDelete : MacosRoute → Type 0
  AgreesOnDelete r =
      (w : W) → (calls.del r w ≡ other.del r w) × (calls.restore r w ≡ other.restore r w)

  abbrev pub AgreesOnAdd : MacosRoute → Type 0
  AgreesOnAdd r = (w : W) → calls.install r w ≡ other.install r w

  remove_route-calls :
      (desired : List MacosRoute) (r : MacosRoute) (p : Pass) (w : W)
      → (contains desired r ≡ false → AgreesOnDelete r)
      → remove_route calls desired r p w ≡ remove_route other desired r p w
  unfolding remove_route
  remove_route-calls desired r p w h = elim (Bool-cases (contains desired r)) [
    | inl d ↦ rw (d, remove_route) refl
    | inr d ↦ elim (Result-cases (other.del r w).0) [
      | inl (_, q) ↦ ground (arith, d, q, (h d w).0, (h d (other.del r w).1).1)
      | inr (_, q) ↦ ground (arith, d, q, (h d w).0)
    ]
  ]

  remove_routes-calls :
      (desired current : List MacosRoute) (p : Pass) (w : W)
      → ((r : MacosRoute)
          → contains current r ≡ true
          → contains desired r ≡ false
          → AgreesOnDelete r)
      → remove_routes calls desired current p w ≡ remove_routes other desired current p w
  unfolding remove_routes contains
  remove_routes-calls desired [] p w h = refl
  remove_routes-calls desired (r ∷ rest) p w h =
      let (p', w') = remove_route other desired r p w in
      rw (remove_route-calls desired r p w (λ d. h r (ground (arith, ==_refl r)) d))
        (remove_routes-calls desired rest p' w' (λ x m d. h x (ground arith) d))

  -- On a retry, only an add that failed, or one that waits for a failed delete.
  abbrev pub is_due : List MacosRouteFailure → Bool → MacosRoute → Bool
  is_due previous retry_only r =
      not retry_only || failed_before previous r add || delete_pending previous r

  add_route-calls :
      (previous : List MacosRouteFailure) (current : List MacosRoute) (retry_only : Bool)
      (r : MacosRoute) (p : Pass) (w : W)
      → (contains current r ≡ false → is_due previous retry_only r ≡ true → AgreesOnAdd r)
      → add_route calls previous current retry_only r p w
        ≡ add_route other previous current retry_only r p w
  unfolding add_route
  add_route-calls previous current retry_only r p w h =
      elim (Bool-cases (skips previous current retry_only p r)) [
        | inl s ↦ rw (s, add_route) refl
        | inr s ↦ ground (
          arith,
          s,
          h (skips_lem previous current retry_only r p s).0
              (skips_lem previous current retry_only r p s).1 w,
        )
      ]

  add_routes-calls :
      (previous : List MacosRouteFailure) (current : List MacosRoute) (retry_only : Bool)
      (desired : List MacosRoute) (p : Pass) (w : W)
      → ((r : MacosRoute)
          → contains desired r ≡ true
          → contains current r ≡ false
          → is_due previous retry_only r ≡ true
          → AgreesOnAdd r)
      → add_routes calls previous current retry_only desired p w
        ≡ add_routes other previous current retry_only desired p w
  unfolding add_routes contains
  add_routes-calls previous current retry_only [] p w h = refl
  add_routes-calls previous current retry_only (r ∷ rest) p w h =
      let (p', w') = add_route other previous current retry_only r p w in
      rw
        (add_route-calls previous current retry_only r p w
          (λ c d. h r (ground (arith, ==_refl r)) c d))
        (add_routes-calls previous current retry_only rest p' w'
          (λ x m c d. h x (ground arith) c d))

  -- A pass deletes only owned routes that are not desired, repairs only after those, and adds only
  -- desired routes that are not owned; a retry adds only those whose add failed or whose destination
  -- had a failed delete. Calls that agree on these give the same pass, whatever they do elsewhere.
  pub macos_apply_route_plan-calls :
      (routing : MacosRoutingState) (desired : List MacosRoute) (retry_only : Bool) (w : W)
      → ((r : MacosRoute)
          → contains routing.routes_added r ≡ true
          → contains desired r ≡ false
          → AgreesOnDelete r)
      → ((r : MacosRoute)
          → contains desired r ≡ true
          → contains routing.routes_added r ≡ false
          → is_due routing.failing retry_only r ≡ true
          → AgreesOnAdd r)
      → macos_apply_route_plan calls routing desired retry_only w
        ≡ macos_apply_route_plan other routing desired retry_only w
  unfolding macos_apply_route_plan
  macos_apply_route_plan-calls routing desired retry_only w d a =
      let (p, w') = remove_routes other desired routing.routes_added start w in
      rw
        (
          macos_apply_route_plan,
          remove_routes-calls desired routing.routes_added start w d,
          add_routes-calls routing.failing routing.routes_added retry_only desired p w' a,
        )
        refl
