-- ===== src/Routes/Apply/Reconcile.antt =====
-- `macos_current_fingerprint` and `macos_reconcile_routes` of src/userspace_helper/macos/routes.rs.
--
-- The host's answers are a record of functions of the world; reading does not change it. Log lines
-- are left out, and an error is its outermost message.
use macos_wireguard_daemon.Prelude.{
  Bool, false, ◌&&◌, not, Option, none, some, List, ◌++◌, Text, text, ◌==◌, is_empty, Result, ok,
  err, if◌then◌else◌, ◌+◌, ℕ_eq,
}
use macos_wireguard_daemon.Prelude.Results.{◌>>=◌}
use macos_wireguard_daemon.Net.{Subnet}
use macos_wireguard_daemon.Net.Show.{show_ip}
use macos_wireguard_daemon.Links.Net.{IpNetOps}
use macos_wireguard_daemon.Routes.{
  MacosRoute, MacosRoute_eq, MacosNetworkFingerprint, Fingerprint_eq, MacosReconcileInputs,
  macos_desired_routes,
}
use macos_wireguard_daemon.Routes.Apply.{
  MacosRouteInstall, MacosRoutingState, RouteCalls, macos_apply_route_plan,
}

pub data GatewayFallback : Type 0 where
  require : GatewayFallback
  keep_previous : Option Text → GatewayFallback

-- What the host answers, and the system calls. `restore` is `macos_restore_shadowed_lan_route`.
pub record RouteHost (W : Type 0) : Type 0 where
  pub local_connected_subnets : Text → W → List Subnet
  pub default_gateway : Bool → W → Result Text (Option Text)
  pub del : MacosRoute → W → Result Text (Unit {0}) × W
  pub install : MacosRoute → W → Result Text MacosRouteInstall × W
  pub restore : List Subnet → Text → MacosRoute → W → W

module _ {W N : Type 0} (net : IpNetOps N) (host : RouteHost W) where
  -- The endpoint's gateway, by the outcome of the lookup.
  unfoldable pub gateway_or :
      MacosReconcileInputs N
      → GatewayFallback
      → Result Text (Option Text)
      → Result Text (Option Text)
  gateway_or inputs fallback (ok (some gateway)) = ok (some gateway)
  gateway_or inputs require (ok none) = err (
      text "no default gateway available to pin endpoint "
      ++ show_ip inputs.endpoint
      ++ text " out of the tunnel")
  gateway_or inputs (keep_previous previous) (ok none) = ok previous
  gateway_or inputs require (err error) = err (
      text "failed to resolve default gateway to pin endpoint "
      ++ show_ip inputs.endpoint
      ++ text " out of the tunnel")
  gateway_or inputs (keep_previous previous) (err error) = ok previous

  unfoldable pub macos_current_fingerprint :
      MacosReconcileInputs N → GatewayFallback → W → Result Text MacosNetworkFingerprint
  unfolding gateway_or
  macos_current_fingerprint inputs fallback w =
      let local_subnets = host.local_connected_subnets inputs.interface w in
      do
        gateway ←
            if inputs.endpoint_needs_pin
            then gateway_or inputs fallback (host.default_gateway inputs.endpoint_is_ipv6 w)
            else ok none
        ok (record { local_subnets = local_subnets; endpoint_gateway = gateway })

  -- The calls of a pass under this fingerprint.
  unfoldable pub calls_under : MacosReconcileInputs N → MacosNetworkFingerprint → RouteCalls W
  calls_under inputs fingerprint = record {
    del = host.del;
    install = host.install;
    restore = host.restore fingerprint.local_subnets inputs.interface;
  }

  -- One pass towards the routes of a fingerprint, and the answer of the tick.
  unfoldable pub reconcile_towards :
      MacosReconcileInputs N
      → MacosRoutingState
      → MacosNetworkFingerprint
      → W
      → Bool × MacosRoutingState × W
  unfolding macos_desired_routes macos_apply_route_plan calls_under
  reconcile_towards inputs routing fingerprint w =
      let retry = fingerprint == routing.fingerprint in
      if retry && is_empty routing.failing
      then (false, routing, w)
      else (let (applied, routing', w') =
            macos_apply_route_plan (calls_under inputs fingerprint) routing
              (macos_desired_routes net inputs fingerprint) retry w in
          (
            not (retry && (applied.added + applied.removed == 0)),
            record routing' { fingerprint = fingerprint },
            w',
          ))

  unfoldable pub macos_reconcile_routes :
      MacosReconcileInputs N → MacosRoutingState → W → Bool × MacosRoutingState × W
  unfolding macos_current_fingerprint reconcile_towards
  macos_reconcile_routes inputs routing w =
      elim (macos_current_fingerprint inputs (keep_previous routing.fingerprint.endpoint_gateway)
        w) [
          | err error ↦ (false, routing, w)
          | ok fingerprint ↦ reconcile_towards inputs routing fingerprint w
        ]
