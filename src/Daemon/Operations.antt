-- ===== src/Daemon/Operations.antt =====
-- src/privileged/connection_ops.rs: connecting and disconnecting one stored connection.
--
-- The machine is a world of any type, and what the source calls on it is an argument: a call takes a
-- world and returns an answer and a world. A marker's times are numbers that are only compared.
pub mod Connect
pub mod Keep
pub mod Start
pub mod Implements
use macos_wireguard_daemon.Prelude.{
  ◌≡◌, ℕ, Bool, true, false, not, ◌&&◌, Option, none, some, List, [], ◌∷◌, ◌++◌, Text, text, Eq,
  ◌==◌, ℕ_eq, List_eq, is_empty, length, Result, ok, err, if◌then◌else◌,
}
use macos_wireguard_daemon.Net.Show.{show_number}
use macos_wireguard_daemon.Links.Net.{IpNetOps}
use macos_wireguard_daemon.Links.{BypassLink, validate_links}
use macos_wireguard_daemon.Config.{ConnectionConfig, fingerprint}
use macos_wireguard_daemon.Daemon.Errors.{AppError, io, wireguard, other, Message, plain, display}
use macos_wireguard_daemon.Daemon.Store.{StoredConnection, allowed_ips}

-- What identifies a socket on disk: its device, its inode and when it changed.
pub record Stamp : Type 0 where
  pub device : ℕ
  pub inode : ℕ
  pub changed_sec : ℕ
  pub changed_nsec : ℕ

-- The marker of a connection that is up.
pub record ActiveMarker : Type 0 where
  pub fingerprint : Text
  pub interface : Text
  pub socket : Text
  pub stamp : Stamp
  pub connected_at : ℕ
  pub debug : Bool

-- How a command of the shell ended: it could not be found, it did not start, or it exited with this
-- success and status.
pub data ShellOutcome : Type 0 where
  unavailable : AppError → ShellOutcome
  not_started : Message → ShellOutcome
  exited : Bool → Message → ShellOutcome

-- What a helper is started with.
pub record HelperStart (N : Type 0) : Type 0 where
  pub id : ℕ
  pub interface : Text
  pub raw_conf : Text
  pub dns_dynamic_store : Bool
  pub bypass_links : List (BypassLink N)
  pub debug : Bool

-- An answer that may be an error, and the world after it.
abbrev pub Answer : Type 0 → Type 0 → Type 0
Answer W A = Result AppError A × W

-- The calls on the machine. `sweep`, `create_sentinel`, `settle` and `remove_if_dead` report no
-- error that the source looks at.
pub record Machine (N W : Type 0) : Type 0 where
  pub load : ℕ → W → Result AppError (Option (StoredConnection N))
  pub load_active : ℕ → W → Result AppError (Option ActiveMarker)
  pub try_exists : Text → W → Result AppError Bool
  pub metadata : Text → W → Result AppError (Option Stamp)
  pub has_record : Text → W → Bool
  pub now_unix : W → ℕ
  pub lock_network : W → Answer W (Unit {0})
  pub ensure_dns_custody_dir : W → Answer W (Unit {0})
  pub sweep : Text → W → W
  pub remove_if_dead : Text → W → W
  pub create_sentinel : W → W
  pub settle : W → W
  pub shell : Text → W → ShellOutcome × W
  pub gotatun_up : HelperStart N → W → Answer W (Unit {0})
  pub gotatun_down : Text → W → Answer W (Unit {0})
  pub save_active : ℕ → ActiveMarker → W → Answer W (Unit {0})
  pub clear_active : ℕ → W → Answer W (Unit {0})

-- What follows an answer, unless it is an error.
unfoldable pub next : {A B W : Type 0} → Answer W A → (A → W → Answer W B) → Answer W B
next (ok a, w) k = k a w
next (err e, w) k = (err e, w)

abbrev pub socket_path : Text → Text
socket_path interface = text "/var/run/wireguard/" ++ interface ++ text ".sock"

abbrev pub conflict : AppError
conflict = wireguard (
    plain (
      text
        "this connection's interface is already in an unverified state; disconnect it before reconnecting")
    ∷ [])

abbrev pub stale_error : AppError
stale_error = wireguard (
    plain (
      text
        "stored connection is stale (its raw configuration no longer matches its recorded identity); remove and re-add it")
    ∷ [])

-- `%i` is the interface.
unfoldable pub substitute_interface : Text → Text → Text
substitute_interface [] interface = []
substitute_interface (c ∷ []) interface = c ∷ []
substitute_interface (c ∷ d ∷ s) interface =
    let behind = substitute_interface s interface in
    let further = substitute_interface (d ∷ s) interface in
    if c == b'%' && d == b'i' then interface ++ behind else c ∷ further

-- What the end of a hook's command says of the hook.
unfoldable pub hook_result : Text → Text → ShellOutcome → Result AppError (Unit {0})
hook_result substituted label (unavailable e) = err e
hook_result substituted label (not_started e) =
    err (other (plain label ∷ plain (text " hook failed to start: ") ∷ e))
hook_result substituted label (exited true status) = ok tt
hook_result substituted label (exited false status) = err (
    wireguard (
      plain label ∷ plain (text " hook exited ") ∷ status
      ++ plain (text ": ") ∷ plain substituted ∷ []))

module _ {N : Type 0} (parse : Text → Result AppError (ConnectionConfig N)) (net : IpNetOps N)
    (sha256 : List ℕ → List ℕ) where
  unfoldable pub reparse_and_verify : StoredConnection N → Result AppError (ConnectionConfig N)
  unfolding fingerprint
  reparse_and_verify stored = elim (parse stored.raw_conf) [
    | err e ↦ err e
    | ok reparsed ↦
        if fingerprint net sha256 reparsed == stored.fingerprint
        then ok reparsed
        else err stale_error
  ]

module _ {N W : Type 0} (machine : Machine N W) where
  unfoldable pub run_hook : Text → Text → Text → W → Answer W (Unit {0})
  unfolding substitute_interface hook_result
  run_hook cmd interface label w =
      let substituted = substitute_interface cmd interface in
      let (outcome, w') = machine.shell substituted w in (hook_result substituted label outcome, w')

  unfoldable pub run_hooks : List Text → Text → Text → W → Answer W (Unit {0})
  unfolding run_hook next
  run_hooks [] interface label w = (ok tt, w)
  run_hooks (cmd ∷ rest) interface label w =
      next (run_hook cmd interface label w) λ _ w'. run_hooks rest interface label w'

  unfoldable pub run_hooks_best_effort : List Text → Text → Text → W → W
  unfolding run_hook
  run_hooks_best_effort [] interface label w = w
  run_hooks_best_effort (cmd ∷ rest) interface label w =
      run_hooks_best_effort rest interface label (run_hook cmd interface label w).1

  -- The teardown under the network lock.
  unfoldable pub take_down : Text → W → Answer W (Unit {0})
  unfolding next
  take_down interface w = next (machine.lock_network w) λ _ w'. machine.gotatun_down interface w'

  unfoldable pub clear_dead_helper_leftovers : Text → W → Answer W (Unit {0})
  unfolding next
  clear_dead_helper_leftovers interface w = next (machine.lock_network w) λ _ w1.
      let w2 = machine.sweep interface w1 in
      (ok tt, if machine.has_record interface w2 then w2 else machine.remove_if_dead interface w2)

  module _ (parse : Text → Result AppError (ConnectionConfig N)) where
    -- What a disconnect does with the hooks of a configuration that parses, and without them.
    unfoldable pub disconnect_stored : ℕ → StoredConnection N → W → Answer W (Unit {0})
    unfolding run_hooks_best_effort take_down next
    disconnect_stored id stored w = elim (parse stored.raw_conf) [
      | ok reparsed ↦
          next
            (take_down stored.interface
              (run_hooks_best_effort reparsed.pre_down stored.interface (text "PreDown") w))
            λ _ w'.
              machine.clear_active id
                (run_hooks_best_effort reparsed.post_down stored.interface (text "PostDown") w')
      | err _ ↦ next (take_down stored.interface w) λ _ w'. machine.clear_active id w'
    ]

    unfoldable pub disconnect : ℕ → W → Answer W (Unit {0})
    unfolding disconnect_stored next
    disconnect id w =
        next (machine.load id w, w)
          λ found w'. elim found [
            | none ↦ (err (other (plain (text "connection not found") ∷ [])), w')
            | some stored ↦ disconnect_stored id stored w'
          ]
