-- ===== src/Daemon/Dispatch/Reads.antt =====
-- The requests of src/privileged/dispatch.rs that show connections, with the summaries of
-- src/privileged_api.rs.
pub mod Disclosure
use macos_wireguard_daemon.Prelude.{
  ℕ, Bool, true, false, not, ◌&&◌, Option, none, some, is_some, List, [], ◌∷◌, map, Text, text, Eq,
  ◌==◌, ℕ_eq, Bool_eq, List_eq, Option_eq, retain, Result, ok, err, if◌then◌else◌,
}
use macos_wireguard_daemon.Net.Parse.{IpAddr}
use macos_wireguard_daemon.Net.Show.{show_ip}
use macos_wireguard_daemon.Links.Net.{IpNetOps}
use macos_wireguard_daemon.Links.{BypassLink, LinkError, check_links}
use macos_wireguard_daemon.Links.Spec.{NetText, show_link_error}
use macos_wireguard_daemon.Config.{ConnectionPeer}
use macos_wireguard_daemon.Daemon.Errors.{AppError, Message, plain}
use macos_wireguard_daemon.Daemon.Store.{
  ConnectionStartMode, StoredConnection, Store, load, load_all_in, is_active, allowed_ips,
}
use macos_wireguard_daemon.Daemon.Responses.{
  PeerOrigin, uid, is_root, PrivilegedResponse, failed, not_found_response, auth_denied,
  error_response, authorize_access,
}

pub data ConnectionScope : Type 0 where
  mine global_only all_connections : ConnectionScope

pub record BypassLinkSummary (N : Type 0) : Type 0 where
  pub link : BypassLink N
  pub invalid : Option Message

pub record PeerSummary : Type 0 where
  pub public_key : Text
  pub allowed_ips : List Text
  pub endpoint : Option Text
  pub has_preshared_key : Bool

pub record ConnectionSummary (N : Type 0) : Type 0 where
  pub id : ℕ
  pub global : Bool
  pub owner_uid : Option ℕ
  pub start_mode : ConnectionStartMode
  pub name : Option Text
  pub interface : Text
  pub connected : Bool
  pub user_disconnected : Bool
  pub addresses : List Text
  pub dns_servers : List Text
  pub mtu : Option ℕ
  pub peers : List PeerSummary
  pub fingerprint : Option Text
  pub source_path : Option Text
  pub dns_dynamic_store : Bool
  pub bypass_links : List (BypassLinkSummary N)
  pub created_at : ℕ
  pub updated_at : ℕ

-- The answer to a request that shows connections: a refusal, one connection, or a list.
pub data ReadResponse (N : Type 0) : Type 0 where
  refused : PrivilegedResponse N → ReadResponse N
  connection : ConnectionSummary N → ReadResponse N
  connection_list : List (ConnectionSummary N) → ReadResponse N

pub data ReadRequest : Type 0 where
  list_connections : ConnectionScope → ReadRequest
  get_connection : ℕ → ReadRequest

abbrev pub is_all : ConnectionScope → Bool
is_all mine = false
is_all global_only = false
is_all all_connections = true

module _ {N : Type 0} where
  -- `is_active(id).unwrap_or(false)`
  unfoldable pub connected_now : Store N → ℕ → Bool
  unfolding is_active
  connected_now st id = elim (is_active st id) [ ok active ↦ active | err _ ↦ false ]

  abbrev pub in_scope : PeerOrigin → ConnectionScope → StoredConnection N → Bool
  in_scope origin mine conn = conn.owner_uid == some (uid origin)
  in_scope origin global_only conn = conn.global
  in_scope origin all_connections conn = true

module _ {N : Type 0} ⦃e : Eq N⦄ (net : IpNetOps N) (texts : NetText N)
    (encode_base64 : List ℕ → Text) where
  abbrev pub summary_of_verdict :
      BypassLink N × Result (LinkError N) (Unit {0}) → BypassLinkSummary N
  summary_of_verdict (link, verdict) = record {
    link = link;
    invalid = elim verdict [ ok _ ↦ none | err error ↦ some (show_link_error texts error) ];
  }

  unfoldable pub bypass_link_summaries : StoredConnection N → List (BypassLinkSummary N)
  unfolding check_links show_link_error
  bypass_link_summaries conn =
      map summary_of_verdict (check_links net conn.bypass_links (allowed_ips conn))

  abbrev pub summarize_peer : ConnectionPeer N → PeerSummary
  summarize_peer peer = record {
    public_key = encode_base64 peer.public_key;
    allowed_ips = map texts.show_net peer.allowed_ips;
    endpoint = peer.endpoint_literal;
    has_preshared_key = is_some peer.preshared_key;
  }

  unfoldable pub summarize : StoredConnection N → Bool → Bool → ConnectionSummary N
  unfolding bypass_link_summaries show_ip
  summarize conn connected include_fingerprint = record {
    id = conn.id;
    global = conn.global;
    owner_uid = conn.owner_uid;
    start_mode = conn.start_mode;
    name = conn.name;
    interface = conn.interface;
    connected = connected;
    user_disconnected = conn.user_disconnected;
    addresses = map texts.show_net conn.config.addresses;
    dns_servers = map show_ip conn.config.dns_servers;
    mtu = conn.config.mtu;
    peers = map summarize_peer conn.config.peers;
    fingerprint = if include_fingerprint then some conn.fingerprint else none;
    source_path = if include_fingerprint then conn.source_path else none;
    dns_dynamic_store = conn.dns_dynamic_store;
    bypass_links = bypass_link_summaries conn;
    created_at = conn.created_at;
    updated_at = conn.updated_at;
  }

  unfoldable pub handle_list_connections : PeerOrigin → ConnectionScope → Store N → ReadResponse N
  unfolding load_all_in summarize connected_now
  handle_list_connections origin scope st =
      if is_all scope && not (is_root origin)
      then refused (auth_denied (plain (text "listing all connections requires root") ∷ []))
      else connection_list (
          map (λ conn. summarize conn (connected_now st conn.id) false)
            (retain (in_scope origin scope) (load_all_in st.entries)))

  unfoldable pub handle_get_connection : PeerOrigin → ℕ → Store N → ReadResponse N
  unfolding authorize_access summarize connected_now error_response
  handle_get_connection origin id st = elim (load st id) [
    | err error ↦ refused (error_response error)
    | ok found ↦ elim found [
      | none ↦ refused not_found_response
      | some stored ↦ elim (authorize_access stored origin) [
        | some denial ↦ refused denial
        | none ↦ connection (summarize stored (connected_now st id) true)
      ]
    ]
  ]

  unfoldable pub dispatch_read : PeerOrigin → ReadRequest → Store N → ReadResponse N
  unfolding handle_list_connections handle_get_connection
  dispatch_read origin (list_connections scope) st = handle_list_connections origin scope st
  dispatch_read origin (get_connection id) st = handle_get_connection origin id st
