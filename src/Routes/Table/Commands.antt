-- ===== src/Routes/Table/Commands.antt =====
-- The commands of src/userspace_helper/macos/route_table.rs as the system calls of a pass.
use macos_wireguard_daemon.Prelude.{
  ◌≡◌, ◌≢◌, ◌⊎◌, inl, inr, Bool, true, false, not, ◌&&◌, ◌||◌, Option, none, some, List, [], ◌∷◌,
  ◌++◌, Text, text, arith, is_some, Result, ok, err, Result-cases, Option-cases, Bool-cases,
  contains_text,
}
use macos_wireguard_daemon.Net.{Subnet}
use macos_wireguard_daemon.MacosDns.{Output}
use macos_wireguard_daemon.Routes.{MacosRoute, macos_route_excluded_by_local_subnet}
use macos_wireguard_daemon.Routes.System.{macos_connected_subnet_device}
use macos_wireguard_daemon.Routes.Apply.{MacosRouteInstall, owned}
use macos_wireguard_daemon.Routes.Apply.Kernel.{IsTable}
use macos_wireguard_daemon.Routes.Table.{
  RouteTool, entry_of, delete_args, add_args, restore_args, run_exists_ok, macos_clear_route_entry,
  create_route, replace_entry, add_macos_route, del_macos_route, macos_route_table_entry,
  macos_restore_shadowed_lan_route, table_calls,
}

-- Whether a command has succeeded.
abbrev succeeds : Result Text Output → Bool
succeeds (ok output) = output.success
succeeds (err e) = false

-- A delete that has removed its route, or did not find it.
abbrev is_gone : Result Text Output → Bool
is_gone (ok output) =
    output.success
    || contains_text output.stderr (text "not in table")
    || contains_text output.stdout (text "not in table")
is_gone (err e) = false

-- The documented behaviour of `route`, for a table that holds the routes which the tunnel put there:
-- a delete puts nothing in, and the route is gone where it succeeds or is not in the table; an add
-- puts in its own route at most, and only where it succeeds; putting a LAN's route back is no route of
-- the tunnel.
pub record IsRoute {W : Type 0} (tool : RouteTool W) (holds : W → MacosRoute → Bool) : Type 0 where
  pub deletes :
      (r x : MacosRoute) (w : W)
      → holds (tool.write (delete_args r) w).1 x ≡ true
      → holds w x ≡ true
  pub deleted :
      (r : MacosRoute) (w : W)
      → is_gone (tool.write (delete_args r) w).0 ≡ true
      → holds (tool.write (delete_args r) w).1 r ≡ false
  pub deletes_scoped :
      (r x : MacosRoute) (device : Text) (w : W)
      → holds (tool.write (delete_args r ++ text "-ifscope" ∷ device ∷ []) w).1 x ≡ true
      → holds w x ≡ true
  pub adds :
      (r x : MacosRoute) (w : W)
      → holds (tool.write (add_args r) w).1 x ≡ true
      → (holds w x ≡ true) ⊎ (x ≡ r)
  pub add_failed :
      (r x : MacosRoute) (w : W)
      → succeeds (tool.write (add_args r) w).0 ≡ false
      → holds (tool.write (add_args r) w).1 x ≡ true
      → holds w x ≡ true
  pub restores :
      (s : Subnet) (device : Text) (x : MacosRoute) (w : W)
      → holds (tool.write (restore_args s device) w).1 x ≡ true
      → holds w x ≡ true

module _ {W : Type 0} (tool : RouteTool W) (holds : W → MacosRoute → Bool)
    (route : IsRoute tool holds) where
  del_lem :
      (r x : MacosRoute) (w : W)
      → holds (del_macos_route tool r w).1 x ≡ true
      → (holds w x ≡ true) × ((del_macos_route tool r w).0 ≡ ok tt → x ≢ r)
  unfolding del_macos_route
  del_lem r x w h = elim (Result-cases (tool.write (delete_args r) w).0) [
    | inl (output, q) ↦
        (route.deletes r x w h, λ e same. ground (arith, q, route.deleted r w, h, same, e))
    | inr (e, q) ↦ (route.deletes r x w h, λ k same. ground (arith, q, k))
  ]

  clear_lem :
      (r x : MacosRoute) (ifscope : Option Text) (w : W)
      → holds (macos_clear_route_entry tool r ifscope w).1 x ≡ true
      → holds w x ≡ true
  unfolding macos_clear_route_entry
  clear_lem r x none w h = route.deletes r x w h
  clear_lem r x (some device) w h =
      route.deletes r x w (route.deletes_scoped r x device (tool.write (delete_args r) w).1 h)

  -- What an installation may put into the table, by its result.
  abbrev IsInstalled : MacosRoute → MacosRoute → W → Result Text MacosRouteInstall × W → Type 0
  IsInstalled r x w (result, w') =
      holds w' x ≡ true → (holds w x ≡ true) ⊎ ((x ≡ r) × (result ≡ ok owned))

  create_lem : (r x : MacosRoute) (w : W) → IsInstalled r x w (create_route tool r w)
  unfolding create_route run_exists_ok
  create_lem r x w h = elim (Result-cases (tool.write (add_args r) w).0) [
    | inr (e, q) ↦ inl (route.add_failed r x w (ground (arith, q)) h)
    | inl (output, q) ↦ elim (Bool-cases output.success) [
      | inr f ↦ inl (route.add_failed r x w (ground (arith, q, f)) h)
      | inl s ↦ elim (route.adds r x w h) [ inl k ↦ inl k | inr e ↦ inr (e, ground (arith, q, s)) ]
    ]
  ]

  replace_lem :
      (r x : MacosRoute) (ifscope : Option Text) (w : W)
      → IsInstalled r x w (replace_entry tool r ifscope w)
  unfolding replace_entry
  replace_lem r x ifscope w h =
      let w' : W = (macos_clear_route_entry tool r ifscope w).1 in
      elim (Option-cases (macos_clear_route_entry tool r ifscope w).0) [
        | inl n ↦ ground (arith, n, clear_lem r x ifscope w, create_lem r x w', h)
        | inr (entry, n) ↦ ground (arith, n, clear_lem r x ifscope w, h)
      ]

  add_lem : (r x : MacosRoute) (w : W) → IsInstalled r x w (add_macos_route tool r w)
  unfolding add_macos_route
  add_lem r x w h = elim (Bool-cases (is_some r.interface && not (is_some r.gateway))) [
    | inr q ↦ ground (arith, q, create_lem r x w, h)
    | inl q ↦ elim (Option-cases (entry_of tool r w)) [
      | inl n ↦ ground (arith, q, n, create_lem r x w, h)
      | inr (entry, n) ↦
          ground (arith, q, n, replace_lem r x none w, replace_lem r x entry.interface w, h)
    ]
  ]

  restore_lem :
      (r x : MacosRoute) (local_subnets : List Subnet) (interface : Text) (w : W)
      → holds (macos_restore_shadowed_lan_route tool r local_subnets interface w) x ≡ true
      → holds w x ≡ true
  unfolding macos_restore_shadowed_lan_route run_exists_ok
  restore_lem r x local_subnets interface w h =
      elim (Option-cases (macos_route_excluded_by_local_subnet r local_subnets)) [
        | inl n ↦ ground (arith, n, h)
        | inr (subnet, n) ↦ elim (Option-cases (macos_route_table_entry tool subnet w)) [
          | inr (entry, m) ↦ ground (arith, n, m, h)
          | inl m ↦
              elim (Option-cases
                (macos_connected_subnet_device (tool.ifconfig w) subnet interface)) [
                  | inl d ↦ ground (arith, n, m, d, h)
                  | inr (device, d) ↦ ground (arith, n, m, d, route.restores subnet device x w, h)
                ]
        ]
      ]

  -- The helper's own commands are the system calls that a pass over the routes relies on: a delete
  -- that reports success has removed its route, an installation brings in its own route at most and
  -- only where it reports that the tunnel owns it, and the repair of a LAN's route brings in none. The
  -- condition is that `route` behaves as documented.
  pub table_calls-IsTable :
      (local_subnets : List Subnet) (interface : Text)
      → IsTable (table_calls tool local_subnets interface) holds
  unfolding table_calls
  table_calls-IsTable local_subnets interface = record {
    deleted = λ r x w e h. (let d = del_lem r x w h in (d.0, d.1 e));
    delete_failed = λ r x w e h. (del_lem r x w h).0;
    installed = λ r x w e h. elim (add_lem r x w h) [ inl k ↦ inl k | inr k ↦ inr k.0 ];
    yielded = λ r x w e h. ground (arith, add_lem r x w h, e);
    install_failed = λ r x w e h. ground (arith, add_lem r x w h, e);
    restored = λ r x w h. restore_lem r x local_subnets interface w h;
  }
