-- ===== src/Routes/Apply/Kernel.antt =====
-- `macos_apply_route_plan` of src/userspace_helper/macos/routes.rs against the kernel's routing table.
use macos_wireguard_daemon.Prelude.{
  ◌≡◌, ◌≢◌, ◌⊎◌, Bool, true, false, ◌||◌, List, [], ◌∷◌, arith, contains, contains-append, ok,
  is_ok,
}
use macos_wireguard_daemon.Routes.{MacosRoute, MacosRoute_eq}
use macos_wireguard_daemon.Routes.Apply.{
  MacosRouteFailure, MacosRoutingState, owned, foreign, Pass, start, RouteCalls, remove_route,
  remove_routes, add_route, add_routes, macos_apply_route_plan,
}

-- What the code relies on of `route add` and `route delete`, for a table that holds the routes which
-- the tunnel put there: a delete that succeeds removes its route, an add that succeeds puts in its
-- own route, and nothing else brings a route of the tunnel into the table.
pub record IsTable {W : Type 0} (calls : RouteCalls W) (holds : W → MacosRoute → Bool)
    : Type 0 where
  pub deleted :
      (r x : MacosRoute) (w : W)
      → (calls.del r w).0 ≡ ok tt
      → holds (calls.del r w).1 x ≡ true
      → (holds w x ≡ true) × (x ≢ r)
  pub delete_failed :
      (r x : MacosRoute) (w : W)
      → is_ok (calls.del r w).0 ≡ false
      → holds (calls.del r w).1 x ≡ true
      → holds w x ≡ true
  pub installed :
      (r x : MacosRoute) (w : W)
      → (calls.install r w).0 ≡ ok owned
      → holds (calls.install r w).1 x ≡ true
      → (holds w x ≡ true) ⊎ (x ≡ r)
  pub yielded :
      (r x : MacosRoute) (w : W)
      → (calls.install r w).0 ≡ ok foreign
      → holds (calls.install r w).1 x ≡ true
      → holds w x ≡ true
  pub install_failed :
      (r x : MacosRoute) (w : W)
      → is_ok (calls.install r w).0 ≡ false
      → holds (calls.install r w).1 x ≡ true
      → holds w x ≡ true
  pub restored : (r x : MacosRoute) (w : W) → holds (calls.restore r w) x ≡ true → holds w x ≡ true

module _ {W : Type 0} (calls : RouteCalls W) (holds : W → MacosRoute → Bool)
    (table : IsTable calls holds) where
  -- Every route of the tunnel in the table is in the list.
  abbrev pub IsCovered : W → List MacosRoute → Type 0
  IsCovered w routes = (x : MacosRoute) → holds w x ≡ true → contains routes x ≡ true

  remove_route-covered :
      (desired rest : List MacosRoute) (route : MacosRoute) (p : Pass) (w : W)
      → ((x : MacosRoute)
          → holds w x ≡ true
          → (contains p.installed x || contains (route ∷ rest) x) ≡ true)
      → let (p', w') = remove_route calls desired route p w in
        (x : MacosRoute) → holds w' x ≡ true → (contains p'.installed x || contains rest x) ≡ true
  unfolding remove_route contains
  remove_route-covered desired rest route p w h x m = ground (
    arith,
    h x,
    contains-append p.installed (route ∷ []) x,
    table.deleted route x w,
    table.delete_failed route x w,
    table.restored route x (calls.del route w).1,
  )

  remove_routes-IsCovered :
      (desired current : List MacosRoute) (p : Pass) (w : W)
      → ((x : MacosRoute)
          → holds w x ≡ true
          → (contains p.installed x || contains current x) ≡ true)
      → let (p', w') = remove_routes calls desired current p w in IsCovered w' p'.installed
  unfolding remove_routes contains
  remove_routes-IsCovered desired [] p w h = λ x m. ground (arith, h x)
  remove_routes-IsCovered desired (route ∷ rest) p w h =
      let (p', w') = remove_route calls desired route p w in
      remove_routes-IsCovered desired rest p' w' (remove_route-covered desired rest route p w h)

  add_route-IsCovered :
      (previous : List MacosRouteFailure) (current : List MacosRoute) (retry_only : Bool)
      (route : MacosRoute) (p : Pass) (w : W)
      → IsCovered w p.installed
      → let (p', w') = add_route calls previous current retry_only route p w in
        IsCovered w' p'.installed
  unfolding add_route contains
  add_route-IsCovered previous current retry_only route p w h x m = ground (
    arith,
    h x,
    contains-append p.installed (route ∷ []) x,
    table.installed route x w,
    table.yielded route x w,
    table.install_failed route x w,
  )

  add_routes-IsCovered :
      (previous : List MacosRouteFailure) (current : List MacosRoute) (retry_only : Bool)
      (desired : List MacosRoute) (p : Pass) (w : W)
      → IsCovered w p.installed
      → let (p', w') = add_routes calls previous current retry_only desired p w in
        IsCovered w' p'.installed
  unfolding add_routes
  add_routes-IsCovered previous current retry_only [] p w h = h
  add_routes-IsCovered previous current retry_only (route ∷ rest) p w h =
      let (p', w') = add_route calls previous current retry_only route p w in
      add_routes-IsCovered previous current retry_only rest p' w'
        (add_route-IsCovered previous current retry_only route p w h)

  -- No pass forgets a route: if the owned list covers the tunnel's routes in the kernel table before,
  -- it does after, whichever deletes and adds fail. The condition is that the calls act on the table
  -- as documented.
  pub macos_apply_route_plan-IsCovered :
      (routing : MacosRoutingState) (desired : List MacosRoute) (retry_only : Bool) (w : W)
      → IsCovered w routing.routes_added
      → let (applied, routing', w') = macos_apply_route_plan calls routing desired retry_only w in
        IsCovered w' routing'.routes_added
  unfolding macos_apply_route_plan contains
  macos_apply_route_plan-IsCovered routing desired retry_only w h =
      let (p, w') = remove_routes calls desired routing.routes_added start w in
      add_routes-IsCovered routing.failing routing.routes_added retry_only desired p w'
        (remove_routes-IsCovered desired routing.routes_added start w (λ x m. ground (arith, h x)))
