-- ===== src/Examples/Stored.antt =====
-- A connection added with the daemon's own parser, what is shown of one, and the rewriting of an `MTU`.
use macos_wireguard_daemon.Prelude.{List_dec, ℕ_discrete, ◌≡◌, refl, ℕ, List, [], ◌∷◌, ◌++◌, text}
use macos_wireguard_daemon.Net.{Subnet, Subnet_eq}
use macos_wireguard_daemon.Config.Parser.Reading.{IsConfig}
use macos_wireguard_daemon.Daemon.Store.{Store}
use macos_wireguard_daemon.Daemon.Responses.{socket}
use macos_wireguard_daemon.Daemon.Dispatch.Requests.{PrivilegedRequest, add_connection, dispatch}
use macos_wireguard_daemon.Daemon.Dispatch.Add.{ConfTools}
use macos_wireguard_daemon.Daemon.Dispatch.Invariants.{empty, requested}
use macos_wireguard_daemon.Daemon.Dispatch.Parsed.{Every}
use macos_wireguard_daemon.Daemon.Dispatch.Mtu.{conf_tools, apply_mtu_override_to_conf_text}
use macos_wireguard_daemon.Daemon.Dispatch.Stored.{reachable-IsConfig}
use macos_wireguard_daemon.Daemon.Dispatch.Reads.{mine, list_connections}
use macos_wireguard_daemon.Daemon.Dispatch.Reads.Disclosure.{IsAnswer, dispatch_read-IsDisclosed}
use macos_wireguard_daemon.Examples.Networks.{networks}
use macos_wireguard_daemon.Examples.Parsing.{tools, input}
use macos_wireguard_daemon.Examples.Directory.{host, texts, store, tunnel, request, fresh, link_eq}

abbrev sha256 : List ℕ → List ℕ
sha256 bytes = bytes

abbrev own_tools : ConfTools Subnet
own_tools = conf_tools texts tools sha256

abbrev add_input : PrivilegedRequest Subnet
add_input = add_connection (record request { conf_text = input })

abbrev with_input : Store Subnet
with_input = (dispatch host networks own_tools tunnel (socket 501) add_input fresh).1

reachable-IsConfig_example : Every (λ c. IsConfig c.config) with_input.entries
reachable-IsConfig_example =
    reachable-IsConfig networks texts sha256 with_input
      (requested fresh host tools tunnel (socket 501) add_input (empty fresh refl))

dispatch_read-IsDisclosed_example :
    IsAnswer networks texts (λ bytes. bytes) (socket 501) (list_connections mine) store
dispatch_read-IsDisclosed_example =
    dispatch_read-IsDisclosed networks texts (λ bytes. bytes) (socket 501) (list_connections mine)
      store

mtu_inserted :
    apply_mtu_override_to_conf_text (text "[Interface]") 1280
    ≡ text "[Interface]" ++ 10 ∷ text "MTU = 1280" ++ 10 ∷ []
unfolding apply_mtu_override_to_conf_text ℕ_discrete List_dec
mtu_inserted = refl

-- A header with white space in it, which the parser takes, gets no `MTU`.
mtu_dropped :
    apply_mtu_override_to_conf_text (text "[ Interface ]") 1280 ≡ text "[ Interface ]" ++ 10 ∷ []
unfolding apply_mtu_override_to_conf_text ℕ_discrete List_dec
mtu_dropped = refl
