-- ===== src/Routes/Apply.antt =====
-- `macos_apply_route_plan` and `macos_reconcile_routes` of src/userspace_helper/macos/routes.rs.
--
-- The system calls are arguments, as in the source: they act on a world `W`. Log lines are left out;
-- `note_retry_succeeded` only logs, and of `record_failure` the returned record remains.
pub mod Kernel
pub mod Calls
pub mod Retry
pub mod Failures
pub mod Reconcile
pub mod Settle
use macos_wireguard_daemon.Prelude.{
  ℕ, suc, Bool, true, false, not, ◌&&◌, ◌||◌, Option, none, some, List, [], ◌∷◌, ◌++◌, Text, Eq,
  ◌==◌, List_eq, ℕ_eq, Bool_eq, any, contains, Result, ok, err, if◌then◌else◌,
}
use macos_wireguard_daemon.Net.{Subnet, Subnet_eq, macos_network_base, parse_cidr}
use macos_wireguard_daemon.Net.Parse.{IpAddr, v4, v6, parse_ip}
use macos_wireguard_daemon.Routes.{MacosRoute, MacosRoute_eq, MacosNetworkFingerprint}

pub data MacosRouteInstall : Type 0 where
  owned foreign : MacosRouteInstall

pub data MacosRouteOperation : Type 0 where
  add delete : MacosRouteOperation

unfoldable pub MacosRouteOperation_dec : Discrete MacosRouteOperation
MacosRouteOperation_dec = hlevel

instance abbrev pub MacosRouteOperation_eq : Eq MacosRouteOperation
MacosRouteOperation_eq = record { dec = MacosRouteOperation_dec }

pub record MacosRouteFailure : Type 0 where
  pub route : MacosRoute
  pub operation : MacosRouteOperation
  pub error : Text

pub record MacosRoutingState : Type 0 where
  pub routes_added : List MacosRoute
  pub fingerprint : MacosNetworkFingerprint
  pub failing : List MacosRouteFailure

pub record RouteApplied : Type 0 where
  pub added : ℕ
  pub removed : ℕ
  pub errors : ℕ

-- The injected system calls.
pub record RouteCalls (W : Type 0) : Type 0 where
  pub del : MacosRoute → W → Result Text (Unit {0}) × W
  pub install : MacosRoute → W → Result Text MacosRouteInstall × W
  pub restore : MacosRoute → W → W

-- A destination without a prefix is a host.
abbrev host_subnet : Option IpAddr → Option Subnet
host_subnet none = none
host_subnet (some (v4 bits)) = some (v4 bits, 32)
host_subnet (some (v6 bits)) = some (v6 bits, 128)

-- The destination of a route as a network base and prefix length.
unfoldable pub macos_route_destination : MacosRoute → Option Subnet
macos_route_destination route =
    let parsed =
      if contains route.destination b'/'
      then parse_cidr route.destination
      else host_subnet (parse_ip route.destination) in
    elim parsed [ none ↦ none | some (ip, prefix) ↦ some (macos_network_base ip prefix, prefix) ]

-- The kernel key of a route, independent of its gateway or interface.
unfoldable pub same_route_destination : MacosRoute → MacosRoute → Bool
same_route_destination left right =
    let verbatim = left.is_ipv6 == right.is_ipv6 && left.destination == right.destination in
    elim (macos_route_destination left) [
      | none ↦ verbatim
      | some l ↦ elim (macos_route_destination right) [ none ↦ verbatim | some r ↦ l == r ]
    ]

-- A recorded failure of this operation on this very route.
unfoldable pub failed_before : List MacosRouteFailure → MacosRoute → MacosRouteOperation → Bool
failed_before previous route operation =
    any (λ failure. failure.route == route && failure.operation == operation) previous

-- A recorded failed delete of a route with the same destination.
unfoldable pub delete_pending : List MacosRouteFailure → MacosRoute → Bool
delete_pending failures route =
    any (λ failure. failure.operation == delete && same_route_destination failure.route route)
      failures

-- The variables of one pass.
pub record Pass : Type 0 where
  pub installed : List MacosRoute
  pub failing : List MacosRouteFailure
  pub applied : RouteApplied

abbrev pub start : Pass
start = record {
  installed = [];
  failing = [];
  applied = record { added = 0; removed = 0; errors = 0 };
}

abbrev pub keep : MacosRoute → Pass → Pass
keep route p = record p { installed = p.installed ++ route ∷ [] }

abbrev pub count_removed : Pass → Pass
count_removed p = record p { applied = record p.applied { removed = suc p.applied.removed } }

abbrev pub count_added : Pass → Pass
count_added p = record p { applied = record p.applied { added = suc p.applied.added } }

abbrev pub fail : MacosRoute → MacosRouteOperation → Text → Pass → Pass
fail route operation error p = record p {
  failing = p.failing ++ record { route = route; operation = operation; error = error } ∷ [];
  applied = record p.applied { errors = suc p.applied.errors };
}

-- The tests under which the second loop passes a desired route by.
unfoldable pub skips : List MacosRouteFailure → List MacosRoute → Bool → Pass → MacosRoute → Bool
skips previous current retry_only p route =
    contains current route
    || delete_pending p.failing route
    || (retry_only && not (failed_before previous route add) && not (delete_pending previous route))

module _ {W : Type 0} (calls : RouteCalls W) where
  -- One round of the first loop, for an owned route.
  unfoldable pub remove_route : List MacosRoute → MacosRoute → Pass → W → Pass × W
  remove_route desired route p w =
      if contains desired route
      then (keep route p, w)
      else (let (result, w') = calls.del route w in
          elim result [
            | ok _ ↦ (count_removed p, calls.restore route w')
            | err error ↦ (fail route delete error (keep route p), w')
          ])

  unfoldable pub remove_routes : List MacosRoute → List MacosRoute → Pass → W → Pass × W
  unfolding remove_route
  remove_routes desired [] p w = (p, w)
  remove_routes desired (route ∷ rest) p w =
      let (p', w') = remove_route desired route p w in remove_routes desired rest p' w'

  -- One round of the second loop, for a desired route.
  unfoldable pub add_route :
      List MacosRouteFailure → List MacosRoute → Bool → MacosRoute → Pass → W → Pass × W
  unfolding skips
  add_route previous current retry_only route p w =
      if skips previous current retry_only p route
      then (p, w)
      else (let (result, w') = calls.install route w in
          elim result [
            | ok outcome ↦ (elim outcome [ owned ↦ keep route (count_added p) | foreign ↦ p ], w')
            | err error ↦ (fail route add error p, w')
          ])

  unfoldable pub add_routes :
      List MacosRouteFailure → List MacosRoute → Bool → List MacosRoute → Pass → W → Pass × W
  unfolding add_route
  add_routes previous current retry_only [] p w = (p, w)
  add_routes previous current retry_only (route ∷ rest) p w =
      let (p', w') = add_route previous current retry_only route p w in
      add_routes previous current retry_only rest p' w'

  unfoldable pub macos_apply_route_plan :
      MacosRoutingState → List MacosRoute → Bool → W → RouteApplied × MacosRoutingState × W
  unfolding remove_routes add_routes
  macos_apply_route_plan routing desired retry_only w =
      let (p, w') = remove_routes desired routing.routes_added start w in
      let (q, w'') = add_routes routing.failing routing.routes_added retry_only desired p w' in
      (q.applied, record routing { routes_added = q.installed; failing = q.failing }, w'')
