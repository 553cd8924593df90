-- ===== src/Routes/Apply/Retry.antt =====
-- `macos_apply_route_plan` of src/userspace_helper/macos/routes.rs: full passes and retries.
use macos_wireguard_daemon.Prelude.{
  ◌≡◌, refl, ◌≢◌, Bool, true, false, not, ◌&&◌, ◌||◌, List, [], ◌∷◌, arith, any, contains,
  contains-append, ok, none,
}
use macos_wireguard_daemon.Routes.{MacosRoute, MacosRoute_eq}
use macos_wireguard_daemon.Routes.Apply.{
  MacosRouteFailure, MacosRoutingState, owned, foreign, add, Pass, start, RouteCalls, remove_route,
  remove_routes, add_route, add_routes, skips, failed_before, delete_pending,
  macos_apply_route_plan, MacosRouteOperation_eq,
}

no_pending :
    (failures : List MacosRouteFailure) (r : MacosRoute)
    → failures ≡ []
    → delete_pending failures r ≡ false
unfolding delete_pending any
no_pending failures r f = rw f refl

-- What one pass leaves of a desired route: it is installed, or a failure stands for it.
abbrev pub is_accounted : List MacosRoute → List MacosRouteFailure → MacosRoute → Bool
is_accounted installed failures x =
    contains installed x || failed_before failures x add || delete_pending failures x

module _ {W : Type 0} (calls : RouteCalls W) where
  -- Every delete succeeds, and every add makes its route the tunnel's.
  pub record IsWorking : Type 0 where
    pub deletes : (r : MacosRoute) (w : W) → (calls.del r w).0 ≡ ok tt
    pub installs : (r : MacosRoute) (w : W) → (calls.install r w).0 ≡ ok owned

  -- No physical interface holds a prefix that the tunnel wants.
  abbrev pub NeverYields : Type 0
  NeverYields = (r : MacosRoute) (w : W) → (calls.install r w).0 ≢ ok foreign

  remove_routes_lem :
      IsWorking
      → (desired current : List MacosRoute) (p : Pass) (w : W) (x : MacosRoute)
      → let (p', w') = remove_routes calls desired current p w in
        (contains p'.installed x
          ≡ (contains p.installed x || (contains current x && contains desired x)))
        × (p'.failing ≡ p.failing)
  unfolding remove_routes remove_route contains
  remove_routes_lem h desired [] p w x = ground arith
  remove_routes_lem h desired (r ∷ rest) p w x =
      let (p', w') = remove_route calls desired r p w in
      ground (
        arith,
        h.deletes r w,
        contains-append p.installed (r ∷ []) x,
        remove_routes_lem h desired rest p' w' x,
      )

  -- The desired routes that a pass leaves alone when no delete is pending in it.
  abbrev passes_by : List MacosRouteFailure → List MacosRoute → Bool → MacosRoute → Bool
  passes_by previous current retry_only x =
      contains current x
      || (retry_only && not (failed_before previous x add) && not (delete_pending previous x))

  add_routes_lem :
      IsWorking
      → (previous : List MacosRouteFailure) (current : List MacosRoute) (retry_only : Bool)
        (desired : List MacosRoute) (p : Pass) (w : W) (x : MacosRoute)
      → p.failing ≡ []
      → let (p', w') = add_routes calls previous current retry_only desired p w in
        (contains p'.installed x ≡ (
          contains p.installed x
          || (contains desired x && not (passes_by previous current retry_only x))))
        × (p'.failing ≡ [])
  unfolding add_routes add_route skips contains
  add_routes_lem h previous current retry_only [] p w x e = ground arith
  add_routes_lem h previous current retry_only (r ∷ rest) p w x e =
      let (p', w') = add_route calls previous current retry_only r p w in
      ground (
        arith,
        h.installs r w,
        contains-append p.installed (r ∷ []) x,
        no_pending p.failing r e,
        add_routes_lem h previous current retry_only rest p' w' x,
      )

  -- With calls that work, one full pass owns the desired routes and no others.
  pub macos_apply_route_plan-working :
      IsWorking
      → (routing : MacosRoutingState) (desired : List MacosRoute) (w : W)
      → let (applied, routing', w') = macos_apply_route_plan calls routing desired false w in
        ((x : MacosRoute) → contains routing'.routes_added x ≡ contains desired x)
        × (routing'.failing ≡ [])
  unfolding macos_apply_route_plan contains
  macos_apply_route_plan-working h routing desired w =
      let (p, w') = remove_routes calls desired routing.routes_added start w in
      let removed = remove_routes_lem h desired routing.routes_added start w in
      let added = λ (x : MacosRoute).
        add_routes_lem h routing.failing routing.routes_added false desired p w' x (removed x).1 in
      (
        λ x. ground (arith, removed x, added x),
        (added (record { is_ipv6 = false; destination = []; interface = none; gateway = none })).1,
      )

  -- With calls that work, a retry adds the routes whose add failed or that waited for a delete.
  pub retry_lem :
      IsWorking
      → (routing : MacosRoutingState) (desired : List MacosRoute) (w : W)
      → let (applied, routing', w') = macos_apply_route_plan calls routing desired true w in
        ((x : MacosRoute)
          → contains routing'.routes_added x ≡ (
              contains desired x
              && (contains routing.routes_added x
                  || failed_before routing.failing x add
                  || delete_pending routing.failing x)))
        × (routing'.failing ≡ [])
  unfolding macos_apply_route_plan contains
  retry_lem h routing desired w =
      let (p, w') = remove_routes calls desired routing.routes_added start w in
      let removed = remove_routes_lem h desired routing.routes_added start w in
      let added = λ (x : MacosRoute).
        add_routes_lem h routing.failing routing.routes_added true desired p w' x (removed x).1 in
      (
        λ x. ground (arith, removed x, added x),
        (added (record { is_ipv6 = false; destination = []; interface = none; gateway = none })).1,
      )
