-- ===== src/Daemon/Store.antt =====
-- src/privileged/connection_store.rs: the stored connections and the operations on them.
--
-- The store is what the files hold, in the order in which the directory lists them; a file that cannot
-- be read or does not decode is its error. An error names a file by its id. The host decides which locks and writes fail, the clock and the random ids,
-- each by the number of host calls made so far. A lock is held from its call to the end of the
-- request, as in the source; requests are taken one at a time.
pub mod Records
pub mod Allocate
use macos_wireguard_daemon.Prelude.{
  ◌≡◌, ℕ, zero, suc, ◌+◌, ◌/◌, ◌^◌, Bool, true, false, not, ◌&&◌, ◌||◌, Option, none, some, is_some,
  List, [], ◌∷◌, ◌++◌, Text, text, take, drop, Eq, ◌==◌, ℕ_eq, Bool_eq, List_eq, Option_eq, any,
  find, Result, ok, err, if◌then◌else◌,
}
use macos_wireguard_daemon.Prelude.Results.{◌>>=◌}
use macos_wireguard_daemon.Links.{BypassLink}
use macos_wireguard_daemon.Config.{ConnectionConfig, ConnectionPeer, be_bytes, hex_encode}
use macos_wireguard_daemon.Daemon.Errors.{
  AppError, Message, Piece, plain, quoted, wireguard, other, display,
}

pub data ConnectionStartMode : Type 0 where
  manual automatic : ConnectionStartMode

unfoldable pub ConnectionStartMode_dec : Discrete ConnectionStartMode
ConnectionStartMode_dec = hlevel

instance abbrev pub ConnectionStartMode_eq : Eq ConnectionStartMode
ConnectionStartMode_eq = record { dec = ConnectionStartMode_dec }

pub record StoredConnection (N : Type 0) : Type 0 where
  pub id : ℕ
  pub fingerprint : Text
  pub global : Bool
  pub owner_uid : Option ℕ
  pub start_mode : ConnectionStartMode
  pub name : Option Text
  pub config : ConnectionConfig N
  pub raw_conf : Text
  pub interface : Text
  pub created_at : ℕ
  pub updated_at : ℕ
  pub user_disconnected : Bool
  pub source_path : Option Text
  pub mtu_override : Option ℕ
  pub dns_dynamic_store : Bool
  pub bypass_links : List (BypassLink N)

-- The marker of a connection that is up: whether its socket exists, and the debug flag.
pub record ActiveConnectionState : Type 0 where
  pub socket_exists : Bool
  pub debug : Bool

pub record Store (N : Type 0) : Type 0 where
  pub entries : List (ℕ × Result AppError (StoredConnection N))
  pub active : List (ℕ × Result AppError ActiveConnectionState)
  pub calls : ℕ

pub record Host : Type 0 where
  pub fault : ℕ → Option AppError
  pub now_unix : ℕ → ℕ
  pub new_id : ℕ → ℕ
  pub verify_external_form : List ℕ → Result AppError (Unit {0})

-- The first eight hex digits of the 128-bit id.
unfoldable pub interface_name : ℕ → Text
interface_name id = text "wg-" ++ hex_encode (be_bytes 4 (id / 2 ^ 96) [])

-- A UUID, hyphenated.
abbrev pub show_id : ℕ → Text
show_id id =
    let hex = hex_encode (be_bytes 16 id []) in
    take 8 hex
    ++ text "-"
    ++ take 4 (drop 8 hex)
    ++ text "-"
    ++ take 4 (drop 12 hex)
    ++ text "-"
    ++ take 4 (drop 16 hex)
    ++ text "-"
    ++ drop 20 hex

abbrev pub corrupt : Text → Text → AppError
corrupt what value = wireguard (
    plain (text "corrupt stored connection: invalid ")
    ∷ plain what
    ∷ plain (text " ")
    ∷ quoted value
    ∷ [])

module _ {N : Type 0} where
  abbrev pub allowed_ips_of : List (ConnectionPeer N) → List N
  allowed_ips_of [] = []
  allowed_ips_of (peer ∷ rest) = peer.allowed_ips ++ allowed_ips_of rest

  -- `StoredConnection::allowed_ips`
  abbrev pub allowed_ips : StoredConnection N → List N
  allowed_ips conn = allowed_ips_of conn.config.peers

  unfoldable pub from_disk_checked :
      ℕ → Result AppError (StoredConnection N) → Result AppError (StoredConnection N)
  from_disk_checked id (err e) = err e
  from_disk_checked id (ok disk) =
      if not (disk.id == id)
      then err
          (corrupt (text "id") (show_id disk.id ++ text " (expected " ++ show_id id ++ text ")"))
      else if not (disk.interface == interface_name disk.id)
      then err (corrupt (text "interface") disk.interface)
      else ok disk

  unfoldable pub load_in :
      List (ℕ × Result AppError (StoredConnection N))
      → ℕ
      → Result AppError (Option (StoredConnection N))
  unfolding from_disk_checked
  load_in entries id = elim (find (λ entry. entry.0 == id) entries) [
    | none ↦ ok none
    | some entry ↦ elim (from_disk_checked id entry.1) [ ok conn ↦ ok (some conn) | err e ↦ err e ]
  ]

  abbrev pub load : Store N → ℕ → Result AppError (Option (StoredConnection N))
  load st id = load_in st.entries id

  -- The records that decode, for listings.
  unfoldable pub load_all_in :
      List (ℕ × Result AppError (StoredConnection N)) → List (StoredConnection N)
  unfolding from_disk_checked
  load_all_in [] = []
  load_all_in (entry ∷ rest) =
      let others = load_all_in rest in
      elim (from_disk_checked entry.0 entry.1) [ ok conn ↦ conn ∷ others | err _ ↦ others ]

  -- All records, or the first error.
  unfoldable pub load_all_strict_in :
      List (ℕ × Result AppError (StoredConnection N)) → Result AppError (List (StoredConnection N))
  unfolding from_disk_checked
  load_all_strict_in [] = ok []
  load_all_strict_in (entry ∷ rest) =
      let others = load_all_strict_in rest in
      elim (from_disk_checked entry.0 entry.1) [
        | err e ↦ err (
            other (
              plain (text "cannot verify connection-store uniqueness: ")
              ∷ plain (show_id entry.0)
              ∷ plain (text " is unreadable: ")
              ∷ display e))
        | ok conn ↦ elim others [ ok conns ↦ ok (conn ∷ conns) | err e ↦ err e ]
      ]

  -- Whether a record has this identity, and whether it bears this name in this namespace.
  abbrev pub is_identity : Text → Bool → Option ℕ → StoredConnection N → Bool
  is_identity fingerprint global owner_uid conn =
      conn.fingerprint == fingerprint && conn.global == global && conn.owner_uid == owner_uid

  abbrev pub is_named : Text → Bool → Option ℕ → StoredConnection N → Bool
  is_named name global owner_uid conn =
      conn.name == some name && conn.global == global && conn.owner_uid == owner_uid

  unfoldable pub find_by_identity :
      Store N → Text → Bool → Option ℕ → Result AppError (Option (StoredConnection N))
  find_by_identity st fingerprint global owner_uid = do
    conns ← load_all_strict_in st.entries
    ok (find (is_identity fingerprint global owner_uid) conns)

  unfoldable pub find_by_name :
      Store N → Text → Bool → Option ℕ → Result AppError (Option (StoredConnection N))
  find_by_name st name global owner_uid = do
    conns ← load_all_strict_in st.entries
    ok (find (is_named name global owner_uid) conns)

  unfoldable pub find_by_interface : Store N → Text → Option (StoredConnection N)
  find_by_interface st interface =
      find (λ conn. conn.interface == interface) (load_all_in st.entries)

  unfoldable pub interface_name_in_use : Store N → Text → Result AppError Bool
  interface_name_in_use st interface = do
    conns ← load_all_strict_in st.entries
    ok (any (λ conn. conn.interface == interface) conns)

  unfoldable pub active_debug : Store N → ℕ → Result AppError (Option Bool)
  active_debug st id = elim (find (λ entry. entry.0 == id) st.active) [
    | none ↦ ok none
    | some entry ↦ elim entry.1 [
      | err e ↦ err e
      | ok marker ↦ ok (if marker.socket_exists then some marker.debug else none)
    ]
  ]

  unfoldable pub is_active : Store N → ℕ → Result AppError Bool
  unfolding active_debug
  is_active st id = do debug ← active_debug st id; ok (is_some debug)

  abbrev pub called : Store N → Store N
  called st = record st { calls = suc st.calls }

  abbrev pub put :
      ℕ
      → StoredConnection N
      → List (ℕ × Result AppError (StoredConnection N))
      → List (ℕ × Result AppError (StoredConnection N))
  put id conn [] = (id, ok conn) ∷ []
  put id conn (entry ∷ rest) =
      let others = put id conn rest in
      if entry.0 == id then (id, ok conn) ∷ rest else entry ∷ others

  abbrev pub without :
      ℕ
      → List (ℕ × Result AppError (StoredConnection N))
      → List (ℕ × Result AppError (StoredConnection N))
  without id [] = []
  without id (entry ∷ rest) =
      let others = without id rest in if entry.0 == id then others else entry ∷ others

  module _ (host : Host) where
    -- A lock, or any other call of the host that only fails or not.
    unfoldable pub lock : Store N → Result AppError (Unit {0}) × Store N
    lock st = elim (host.fault st.calls) [ none ↦ (ok tt, called st) | some e ↦ (err e, called st) ]

    -- `create` and `update`: an atomic write, so a failed one changes nothing.
    unfoldable pub save : StoredConnection N → Store N → Result AppError (Unit {0}) × Store N
    save conn st = elim (host.fault st.calls) [
      | none ↦ (ok tt, record (called st) { entries = put conn.id conn st.entries })
      | some e ↦ (err e, called st)
    ]

    unfoldable pub remove : ℕ → Store N → Result AppError (Unit {0}) × Store N
    remove id st = elim (host.fault st.calls) [
      | none ↦ (ok tt, record (called st) { entries = without id st.entries })
      | some e ↦ (err e, called st)
    ]

    -- The loop of `allocate_unique_interface`.
    unfoldable pub allocate : ℕ → Store N → Result AppError (ℕ × Text) × Store N
    allocate zero st = (
      err (other (plain (text "failed to allocate a unique connection interface name") ∷ [])),
      st,
    )
    allocate (suc attempts) st =
        let id = host.new_id st.calls in
        let again = allocate attempts (called st) in
        elim (interface_name_in_use st (interface_name id)) [
          | err e ↦ (err e, called st)
          | ok used ↦ if used then again else (ok (id, interface_name id), called st)
        ]

    unfoldable pub allocate_unique_interface : Store N → Result AppError (ℕ × Text) × Store N
    unfolding allocate
    allocate_unique_interface st = allocate 8 st
