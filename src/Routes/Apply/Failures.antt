-- ===== src/Routes/Apply/Failures.antt =====
-- `macos_apply_route_plan` of src/userspace_helper/macos/routes.rs: what a pass records of its failures.
use macos_wireguard_daemon.Prelude.{
  ◌≡◌, refl, true, false, ◌&&◌, ◌||◌, List, [], ◌∷◌, ◌++◌, arith, ◌==◌, any, ==_iff, is_empty,
  contains, contains-append, ok, Text, Result, err,
}
use macos_wireguard_daemon.Routes.{MacosRoute, MacosRoute_eq}
use macos_wireguard_daemon.Routes.Apply.{
  MacosRouteFailure, MacosRoutingState, MacosRouteOperation, add, delete, Pass, start, RouteCalls,
  remove_route, remove_routes, add_route, add_routes, skips, failed_before, delete_pending,
  macos_apply_route_plan, MacosRouteOperation_eq, same_route_destination,
}
use macos_wireguard_daemon.Routes.Apply.Retry.{NeverYields, is_accounted}

-- One more failure, for the two searches.
failed_before-snoc :
    (failures : List MacosRouteFailure) (r x : MacosRoute) (operation : MacosRouteOperation)
    (e : Text)
    → failed_before (failures ++ record { route = r; operation = operation; error = e } ∷ []) x add
      ≡ (failed_before failures x add || (r == x && operation == add))
unfolding failed_before any
failed_before-snoc [] r x operation e = ground arith
failed_before-snoc (f ∷ failures) r x operation e =
    ground (arith, failed_before-snoc failures r x operation e)

delete_pending-snoc :
    (failures : List MacosRouteFailure) (r x : MacosRoute) (operation : MacosRouteOperation)
    (e : Text)
    → delete_pending (failures ++ record { route = r; operation = operation; error = e } ∷ []) x
      ≡ (delete_pending failures x || (operation == delete && same_route_destination r x))
unfolding delete_pending any
delete_pending-snoc [] r x operation e = ground arith
delete_pending-snoc (f ∷ failures) r x operation e =
    ground (arith, delete_pending-snoc failures r x operation e)

-- The error that a call would have a pass record.
abbrev error_of {ℓ} : {A : Type ℓ} → Result Text A → Text
error_of (ok _) = []
error_of (err e) = e

is_empty-snoc :
    (failures : List MacosRouteFailure) (f : MacosRouteFailure)
    → is_empty (failures ++ f ∷ []) ≡ false
is_empty-snoc [] f = refl
is_empty-snoc (g ∷ failures) f = refl

module _ {W : Type 0} (calls : RouteCalls W) where
  remove_routes-keeps :
      (desired current : List MacosRoute) (p : Pass) (w : W) (x : MacosRoute)
      → contains desired x ≡ true
      → (contains p.installed x || contains current x) ≡ true
      → let (p', w') = remove_routes calls desired current p w in contains p'.installed x ≡ true
  unfolding remove_routes remove_route contains
  remove_routes-keeps desired [] p w x d m = ground arith
  remove_routes-keeps desired (r ∷ rest) p w x d m =
      let (p', w') = remove_route calls desired r p w in
      remove_routes-keeps desired rest p' w' x d
        (ground (arith, contains-append p.installed (r ∷ []) x))

  add_route-accounted :
      NeverYields calls
      → (previous : List MacosRouteFailure) (current : List MacosRoute) (r : MacosRoute) (p : Pass)
        (w : W) (x : MacosRoute)
      → (contains current x ≡ true → contains p.installed x ≡ true)
      → (is_accounted p.installed p.failing x || r == x) ≡ true
      → let (p', w') = add_route calls previous current false r p w in
        is_accounted p'.installed p'.failing x ≡ true
  unfolding add_route skips contains
  add_route-accounted h previous current r p w x k m =
      let e = error_of (calls.install r w).0 in
      ground (
        arith,
        k,
        h r w,
        contains-append p.installed (r ∷ []) x,
        failed_before-snoc p.failing r x add e,
        delete_pending-snoc p.failing r x add e,
      )

  add_route-installed :
      (previous : List MacosRouteFailure) (current : List MacosRoute) (r : MacosRoute) (p : Pass)
      (w : W) (x : MacosRoute)
      → contains p.installed x ≡ true
      → let (p', w') = add_route calls previous current false r p w in
        contains p'.installed x ≡ true
  unfolding add_route contains
  add_route-installed previous current r p w x m =
      ground (arith, contains-append p.installed (r ∷ []) x)

  add_routes-accounted :
      NeverYields calls
      → (previous : List MacosRouteFailure) (current desired : List MacosRoute) (p : Pass) (w : W)
        (x : MacosRoute)
      → (contains current x ≡ true → contains p.installed x ≡ true)
      → (is_accounted p.installed p.failing x || contains desired x) ≡ true
      → let (p', w') = add_routes calls previous current false desired p w in
        is_accounted p'.installed p'.failing x ≡ true
  unfolding add_routes contains
  add_routes-accounted h previous current [] p w x k m = ground arith
  add_routes-accounted h previous current (r ∷ rest) p w x k m =
      let (p', w') = add_route calls previous current false r p w in
      let k' : contains current x ≡ true → contains p'.installed x ≡ true =
        λ c. add_route-installed previous current r p w x (k c) in
      add_routes-accounted h previous current rest p' w' x k'
        (ground (arith, add_route-accounted h previous current r p w x k))

  remove_routes-undesired :
      (desired current : List MacosRoute) (p : Pass) (w : W) (x : MacosRoute)
      → (contains p.installed x ≡ true → is_empty p.failing ≡ true → contains desired x ≡ true)
      → let (p', w') = remove_routes calls desired current p w in
        contains p'.installed x ≡ true → is_empty p'.failing ≡ true → contains desired x ≡ true
  unfolding remove_routes remove_route contains
  remove_routes-undesired desired [] p w x h = h
  remove_routes-undesired desired (r ∷ rest) p w x h =
      let (p', w') = remove_route calls desired r p w in
      remove_routes-undesired desired rest p' w' x (λ m z. ground (
        arith,
        h,
        ==_iff r x,
        contains-append p.installed (r ∷ []) x,
        is_empty-snoc p.failing
            (record { route = r; operation = delete; error = error_of (calls.del r w).0 }),
      ))

  add_routes-undesired :
      (previous : List MacosRouteFailure) (current desired todo : List MacosRoute) (p : Pass)
      (w : W) (x : MacosRoute)
      → (contains p.installed x ≡ true → is_empty p.failing ≡ true → contains desired x ≡ true)
      → (contains todo x ≡ true → contains desired x ≡ true)
      → let (p', w') = add_routes calls previous current false todo p w in
        contains p'.installed x ≡ true → is_empty p'.failing ≡ true → contains desired x ≡ true
  unfolding add_routes add_route contains
  add_routes-undesired previous current desired [] p w x h t = h
  add_routes-undesired previous current desired (r ∷ rest) p w x h t =
      let (p', w') = add_route calls previous current false r p w in
      add_routes-undesired previous current desired rest p' w' x
        (λ m z. ground (
          arith,
          h,
          t,
          contains-append p.installed (r ∷ []) x,
          is_empty-snoc p.failing
              (record { route = r; operation = add; error = error_of (calls.install r w).0 }),
        ))
        (λ m. ground (arith, t))

  -- A full pass leaves every desired route accounted for, and owns no other without a failure.
  pub full_pass_lem :
      NeverYields calls
      → (routing : MacosRoutingState) (desired : List MacosRoute) (w : W) (x : MacosRoute)
      → let (applied, routing', w') = macos_apply_route_plan calls routing desired false w in
        (contains desired x ≡ true → is_accounted routing'.routes_added routing'.failing x ≡ true)
        × (contains routing'.routes_added x ≡ true
            → is_empty routing'.failing ≡ true
            → contains desired x ≡ true)
  unfolding macos_apply_route_plan contains
  full_pass_lem h routing desired w x =
      let (p, w') = remove_routes calls desired routing.routes_added start w in
      (
        λ d.
            add_routes-accounted h routing.failing routing.routes_added desired p w' x
              (λ c. remove_routes-keeps desired routing.routes_added start w x d c) (ground arith),
        add_routes-undesired routing.failing routing.routes_added desired desired p w' x
            (remove_routes-undesired desired routing.routes_added start w x (λ m. ground arith))
            (λ d. d),
      )
