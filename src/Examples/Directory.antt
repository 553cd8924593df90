-- ===== src/Examples/Directory.antt =====
-- The theorems on the daemon's store, at one with a single connection.
use macos_wireguard_daemon.Prelude.{
  any, List_dec, find, ◌≡◌, ◌≢◌, ◌+◌, ◌^◌, refl, true, false, none, some, [], ◌∷◌, text, Eq, ok,
  ℕ_discrete, Option_dec,
}
use macos_wireguard_daemon.Net.{Subnet, Subnet_eq}
use macos_wireguard_daemon.Net.Parse.{v4}
use macos_wireguard_daemon.Links.{BypassLink}
use macos_wireguard_daemon.Config.{ConnectionConfig}
use macos_wireguard_daemon.Daemon.Store.{
  StoredConnection, Store, Host, manual, interface_name, load_in,
}
use macos_wireguard_daemon.Daemon.Store.Records.{IsDirectory}
use macos_wireguard_daemon.Daemon.Responses.{socket, authorize_access}
use macos_wireguard_daemon.Daemon.Dispatch.{
  user, reconciliation, by_user, mark_user_disconnected, resolve_connect_intent,
}
use macos_wireguard_daemon.Daemon.Dispatch.Add.{ConfTools, AddRequest}
use macos_wireguard_daemon.Links.Spec.{NetText}
use macos_wireguard_daemon.Daemon.Dispatch.Tunnel.{TunnelOps}
use macos_wireguard_daemon.Daemon.Dispatch.Requests.{
  PrivilegedRequest, add_connection, remove_connection, dispatch, IsAdmin, IsEffect, IsParsedBy,
}
use macos_wireguard_daemon.Daemon.Dispatch.Effects.{
  IsHarmless, dispatch-IsEffect, dispatch_needs_admin, dispatch_protects,
}
use macos_wireguard_daemon.Daemon.Dispatch.Invariants.{
  IsUnique, empty, requested, reachable-IsUnique,
}
use macos_wireguard_daemon.Daemon.Dispatch.Parsed.{Every, reachable-IsParsedBy}
use macos_wireguard_daemon.Daemon.Dispatch.Intent.{
  mark_user_disconnected_holds, resolve_connect_intent_clears,
}
use macos_wireguard_daemon.Examples.Networks.{networks, site}

unfoldable pub Link_dec : Discrete (BypassLink Subnet)
Link_dec = hlevel ℕ_discrete

instance abbrev pub link_eq : Eq (BypassLink Subnet)
link_eq = record { dec = Link_dec }

abbrev pub config : ConnectionConfig Subnet
config = record {
  private_key = 3 ∷ 4 ∷ [];
  addresses = site ∷ [];
  dns_servers = v4 0x0a000001 ∷ [];
  mtu = none;
  pre_up = [];
  post_up = [];
  pre_down = [];
  post_down = [];
  peers = [];
}

-- A connection of user 501.
abbrev pub home : StoredConnection Subnet
home = record {
  id = 5;
  fingerprint = text "f5";
  global = false;
  owner_uid = some 501;
  start_mode = manual;
  name = some (text "home");
  config = config;
  raw_conf = text "[Interface]";
  interface = text "wg-00000000";
  created_at = 100;
  updated_at = 100;
  user_disconnected = false;
  source_path = none;
  mtu_override = none;
  dns_dynamic_store = false;
  bypass_links = [];
}

abbrev pub store : Store Subnet
store = record { entries = (5, ok home) ∷ []; active = []; calls = 0 }

-- A host on which nothing fails, and that accepts every authorization.
abbrev pub host : Host
host = record {
  fault = λ call. none;
  now_unix = λ call. 200;
  new_id = λ call. 2 ^ 96 + call;
  verify_external_form = λ form. ok tt;
}

abbrev pub texts : NetText Subnet
texts = record { show_net = λ n. text "net"; parse_net = λ s. some site }

-- Tunnels that come up and go down at once.
abbrev pub tunnel : TunnelOps Subnet
tunnel = record {
  connect = λ id debug st. (
    ok tt,
    record st { active = (id, ok (record { socket_exists = true; debug = debug })) ∷ st.active },
  );
  disconnect = λ id st. (ok tt, record st { active = [] });
  connect-entries = λ id debug st. refl;
  disconnect-entries = λ id st. refl;
}

abbrev pub tools : ConfTools Subnet
tools = record {
  texts = texts;
  parse = λ conf. ok config;
  with_mtu = λ conf mtu. conf;
  sha256 = λ bytes. bytes;
}

home-stored : load_in store.entries 5 ≡ ok (some home)
unfolding load_in find ℕ_discrete List_dec interface_name
home-stored = refl

dispatch-IsEffect_example :
    IsEffect
      (IsParsedBy networks tools)
      host
      (socket 501)
      (some (1 ∷ []))
      store.entries
      (dispatch host networks tools tunnel
        (socket 501)
        (remove_connection 5 (some (1 ∷ [])))
        store).1.entries
unfolding any
dispatch-IsEffect_example =
    dispatch-IsEffect host networks tools tunnel (socket 501) (remove_connection 5 (some (1 ∷ [])))
      store (refl, tt)

not-IsAdmin : ¬ IsAdmin host none
not-IsAdmin (bytes, e, v) = cc

dispatch_needs_admin_example :
    IsHarmless
      (dispatch host networks tools tunnel (socket 501) (remove_connection 5 none) store).1.entries
      5
      home
unfolding any
dispatch_needs_admin_example =
    dispatch_needs_admin host networks tools tunnel (socket 501) (remove_connection 5 none) store 5
      home (refl, tt) not-IsAdmin home-stored

other_refused : authorize_access home (socket 502) ≢ none
unfolding authorize_access ℕ_discrete Option_dec
other_refused e = cc

dispatch_protects_example :
    load_in
      (dispatch host networks tools tunnel
        (socket 502)
        (remove_connection 5 (some (1 ∷ [])))
        store).1.entries
      5
    ≡ ok (some home)
unfolding any
dispatch_protects_example =
    dispatch_protects host networks tools tunnel (socket 502) (remove_connection 5 (some (1 ∷ [])))
      store 5 home (refl, tt) home-stored other_refused

abbrev pub request : AddRequest
request = record {
  conf_text = text "[Interface]";
  global = false;
  start_mode = manual;
  name = some (text "office");
  mtu_override = none;
  force = false;
  source_path = none;
  auth_external_form = some (1 ∷ []);
}

abbrev pub addition : PrivilegedRequest Subnet
addition = add_connection request

abbrev pub fresh : Store Subnet
fresh = record { entries = []; active = []; calls = 0 }

-- The same tools for every request.
abbrev tools_of : Unit {0} → ConfTools Subnet
tools_of t = tools

reachable-IsUnique_example :
    let after = (dispatch host networks tools tunnel (socket 501) addition fresh).1 in
    IsDirectory after.entries × IsUnique after.entries
reachable-IsUnique_example =
    reachable-IsUnique networks tools_of
      (dispatch host networks tools tunnel (socket 501) addition fresh).1
      (requested fresh host tt tunnel (socket 501) addition (empty fresh refl))

-- Another connection has come up since.
abbrev later : Store Subnet
later = record (mark_user_disconnected host 5 by_user store).1 {
  active = (6, ok (record { socket_exists = true; debug = false })) ∷ [];
  calls = 9;
}

mark_user_disconnected_holds_example :
    resolve_connect_intent host 5 reconciliation later ≡ (ok false, later)
unfolding mark_user_disconnected load_in find ℕ_discrete List_dec interface_name
mark_user_disconnected_holds_example =
    mark_user_disconnected_holds host host 5 home store later home-stored refl refl

resolve_connect_intent_clears_example :
    let (_, cleared) = resolve_connect_intent host 5 user store in
    resolve_connect_intent host 5 reconciliation cleared ≡ (ok true, cleared)
unfolding resolve_connect_intent load_in find ℕ_discrete List_dec interface_name
resolve_connect_intent_clears_example =
    resolve_connect_intent_clears host 5 home store home-stored refl

abbrev added : Store Subnet
added = (dispatch host networks tools tunnel (socket 501) addition fresh).1

reachable-IsParsedBy_example :
    Every (λ c. (t : Unit {0}) × IsParsedBy networks (tools_of t) c) added.entries
reachable-IsParsedBy_example =
    reachable-IsParsedBy networks tools_of added
      (requested fresh host tt tunnel (socket 501) addition (empty fresh refl))
