-- ===== src/Daemon/Operations/Connect.antt =====
-- `connect` of src/privileged/connection_ops.rs.
use macos_wireguard_daemon.Prelude.{
  ℕ, Bool, false, not, ◌&&◌, none, some, List, [], ◌∷◌, ◌++◌, Text, text, Eq, ◌==◌, ℕ_eq, List_eq,
  is_empty, length, Result, ok, err, if◌then◌else◌,
}
use macos_wireguard_daemon.Net.Show.{show_number}
use macos_wireguard_daemon.Links.Net.{IpNetOps}
use macos_wireguard_daemon.Links.{validate_links}
use macos_wireguard_daemon.Config.{ConnectionConfig}
use macos_wireguard_daemon.Daemon.Errors.{AppError, io, wireguard, other, plain, display}
use macos_wireguard_daemon.Daemon.Store.{StoredConnection, allowed_ips}
use macos_wireguard_daemon.Daemon.Operations.{
  HelperStart, Answer, Machine, next, socket_path, conflict, run_hooks, take_down,
  clear_dead_helper_leftovers, reparse_and_verify,
}

module _ {N W : Type 0} ⦃e : Eq N⦄ (machine : Machine N W)
    (parse : Text → Result AppError (ConnectionConfig N)) (net : IpNetOps N)
    (sha256 : List ℕ → List ℕ) where
  abbrev pub helper_start : ℕ → Bool → StoredConnection N → HelperStart N
  helper_start id debug stored = record {
    id = id;
    interface = stored.interface;
    raw_conf = stored.raw_conf;
    dns_dynamic_store = stored.dns_dynamic_store;
    bypass_links = (validate_links net stored.bypass_links (allowed_ips stored)).valid;
    debug = debug;
  }

  -- The start of the helper under the network lock.
  unfoldable pub start_helper :
      ℕ → Bool → StoredConnection N → ConnectionConfig N → W → Answer W (Unit {0})
  unfolding next validate_links
  start_helper id debug stored reparsed w = next (machine.lock_network w) λ _ w1.
      next (machine.ensure_dns_custody_dir w1) λ _ w2.
        let swept = machine.sweep stored.interface w2 in
        let marked =
          if is_empty reparsed.dns_servers then swept else machine.create_sentinel swept in
        let (up, w3) = machine.gotatun_up (helper_start id debug stored) marked in
        (up, machine.settle w3)

  -- A failed `PostUp` takes the tunnel down again.
  unfoldable pub roll_back : Text → AppError → W → Answer W (Unit {0})
  unfolding take_down
  roll_back interface error w =
      let (result, w') = take_down machine interface w in
      elim result [
        | ok _ ↦ (err error, w')
        | err rollback_error ↦ (
          err (
              wireguard (
                plain (text "PostUp failed: ") ∷ display error
                ++ plain (text "; rollback also failed: ") ∷ display rollback_error)),
          w',
        )
      ]

  -- The marker of a helper that came up.
  unfoldable pub mark_active : ℕ → Bool → StoredConnection N → W → Answer W (Unit {0})
  unfolding next
  mark_active id debug stored w =
      next (machine.metadata (socket_path stored.interface) w, w)
        λ found w'. elim found [
          | none ↦ (err (io false (plain (text "No such file or directory (os error 2)") ∷ [])), w')
          | some stamp ↦
              machine.save_active id
                (record {
                  fingerprint = stored.fingerprint;
                  interface = stored.interface;
                  socket = socket_path stored.interface;
                  stamp = stamp;
                  connected_at = machine.now_unix w';
                  debug = debug;
                })
                w'
        ]

  unfoldable pub run_post_up :
      ℕ → Bool → StoredConnection N → ConnectionConfig N → W → Answer W (Unit {0})
  unfolding run_hooks roll_back mark_active
  run_post_up id debug stored reparsed w =
      let (result, w') = run_hooks machine reparsed.post_up stored.interface (text "PostUp") w in
      elim result [
        | err error ↦ roll_back stored.interface error w'
        | ok _ ↦ mark_active id debug stored w'
      ]

  -- The part of a connect with no helper in the way.
  unfoldable pub connect_fresh :
      ℕ → Bool → StoredConnection N → ConnectionConfig N → W → Answer W (Unit {0})
  unfolding next run_hooks start_helper run_post_up
  connect_fresh id debug stored reparsed w =
      next (machine.try_exists (socket_path stored.interface) w, w)
        λ there w1.
          if there
          then (err conflict, w1)
          else next (run_hooks machine reparsed.pre_up stored.interface (text "PreUp") w1) λ _ w2.
            next (start_helper id debug stored reparsed w2)
              λ _ w3. run_post_up id debug stored reparsed w3

  -- The part of a connect that looks at the marker.
  unfoldable pub connect_marked :
      ℕ → Bool → StoredConnection N → ConnectionConfig N → W → Answer W (Unit {0})
  unfolding next connect_fresh
  connect_marked id debug stored reparsed w =
      next (machine.load_active id w, w)
        λ active w1. elim active [
          | none ↦ connect_fresh id debug stored reparsed w1
          | some marker ↦
              next (machine.metadata marker.socket w1, w1)
                λ found w2. elim found [
                  | none ↦ connect_fresh id debug stored reparsed w2
                  | some stamp ↦
                      if stamp.device == marker.stamp.device
                        && stamp.inode == marker.stamp.inode
                        && stamp.changed_sec == marker.stamp.changed_sec
                        && stamp.changed_nsec == marker.stamp.changed_nsec
                        && marker.fingerprint == stored.fingerprint
                      then (ok tt, w2)
                      else (err conflict, w2)
                ]
        ]

  unfoldable pub connect_verified :
      ℕ → Bool → StoredConnection N → ConnectionConfig N → W → Answer W (Unit {0})
  unfolding next clear_dead_helper_leftovers connect_marked show_number
  connect_verified id debug stored reparsed w =
      if not (length reparsed.peers == 1)
      then (
        err (
            wireguard (
              plain (text "connect requires exactly one [Peer] section, found ")
              ∷ plain (show_number 20 10 (length reparsed.peers))
              ∷ [])),
        w,
      )
      else next (machine.try_exists (socket_path stored.interface) w, w)
          λ there w1.
            next
              (if there
                then clear_dead_helper_leftovers machine stored.interface w1
                else (ok tt, w1))
              λ _ w2. connect_marked id debug stored reparsed w2

  unfoldable pub connect : ℕ → Bool → W → Answer W (Unit {0})
  unfolding next reparse_and_verify connect_verified
  connect id debug w =
      next (machine.load id w, w)
        λ found w1. elim found [
          | none ↦ (err (other (plain (text "connection not found") ∷ [])), w1)
          | some stored ↦
              next (reparse_and_verify parse net sha256 stored, w1)
                λ reparsed w2. connect_verified id debug stored reparsed w2
        ]
