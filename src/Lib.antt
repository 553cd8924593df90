-- ===== src/Lib.antt =====
-- The privileged daemon and the userspace helper of a WireGuard client for macOS.
--
-- The daemon (src/privileged) keeps connections in a store and takes requests on them over a socket. A
-- helper process for each connection that is up (src/userspace_helper) owns the tunnel's routes and DNS
-- settings: it asks for them at connect, reconciles them on every tick with the network that it sees,
-- and gives them back at teardown. Bypass links (src/bypass_links.rs) are stored with a connection and
-- keep AllowedIPs prefixes off the tunnel while the machine is inside a connected LAN; the daemon
-- checks them when they are set, and the helper's route plan applies them.
--
-- The files:
--   Prelude        Boolean tests, lists, options, results, bits and text, with their lemmas
--   Net            src/userspace_helper/macos/net.rs: prefixes and containment
--   Links          src/bypass_links.rs: validation, pruning and merging of bypass links
--   Links/Spec     the command line's syntax, completion and error texts, in the same source file
--   Routes         src/userspace_helper/macos/routes.rs: the desired routes
--   Routes/Apply   the pass over the system calls and the tick, in the same source file
--   Routes/System  src/userspace_helper/macos/system.rs: reading the network's state
--   Routes/Table   src/userspace_helper/macos/route_table.rs: the kernel's routing table by `route`
--   MacosDns       src/macos_dns.rs: the commands of `networksetup`
--   Dns            src/userspace_helper/macos/dns_plan.rs: the DNS plan
--   Dns/Reconcile  src/userspace_helper/macos/dns.rs: capture, tick, connect and teardown
--   Sweep          src/privileged/dns_sweep.rs: restoring the DNS of helpers that died
--   Api            src/privileged_api.rs: the checks that a request passes
--   Config         src/wireguard/connection_config.rs: the types and the bytes that are hashed
--   Config/Parser  the configuration parser, in the same source file
--   Daemon/Responses  src/privileged/dispatch.rs: peers, responses and the access to records
--   Daemon/Store   src/privileged/connection_store.rs: the records, their lookups and their writes
--   Daemon/Dispatch  src/privileged/dispatch.rs: the requests that add, refresh, remove, set, list
--                  and show connections, and those that connect and disconnect them
--   Daemon/Operations  src/privileged/connection_ops.rs: connecting and disconnecting one connection
--   Daemon/Boot    src/privileged/connection_store.rs: the reconciliation at boot
--   Examples       the theorems at concrete networks, hosts and stores
--
-- Definitions keep the names of the functions and types that they translate. A part of a function that
-- a proof speaks of on its own, such as one round of a loop, is a definition with a name of its own.
--
-- What the source calls outside itself is an argument. `IpNetOps` is the crate `ipnet`; `RouteHost`
-- and `RouteCalls` are the route commands; `NetworkSetup` and `DnsHost` are `networksetup` and the
-- custody record; `RouteTool` is `route` and `ifconfig`; `SweepHost` has the records' files;
-- `ParserTools` is base64, the parser of networks and the resolver, and `NetText` the texts of
-- networks; `ConfTools` is the configuration parser, the rewriting of an MTU line and the hash, as
-- the daemon's requests use them, and `conf_tools` fills it with the parser and the rewriting of the
-- source; the daemon's `Host` has the clock, the random ids, the check of an authorization, and the
-- locks and writes that fail. The commands act on a world of any type: one takes a world and returns
-- an answer and a world. A theorem that relies on what a command does says so in a record of
-- hypotheses (`IsRoute`, `IsTable`, `IsSettings`, `IsSweepWorld`, `IsCustody`), and the examples give
-- worlds in which these hold.
--
-- The resolver of a `ParserTools` stands for its answers during one run of the parser, a timeout among
-- them. A sequence of requests takes its tools anew for each request, so that a name may resolve
-- otherwise from one to the next, and a request parses one text.
--
-- The daemon's store is what its files hold, in the order of the directory, and a file that does not
-- decode is its error. `Host` decides by the number of host calls so far which of them fails.
-- Bringing a tunnel up and down is the interface `TunnelOps`, whose laws say that it writes no
-- record; `tunnel_of` fills it with the daemon's own `connect` and `disconnect`, over a `Machine`
-- that makes the calls on processes, sockets and files, with a parser whose answers may differ from
-- call to call. Requests are taken one at a time, as by the
-- daemon's loop; a lock that a connect's or a disconnect's worker holds is a lock call that fails.
--
-- Text is the list of its bytes, and white space is that of ASCII, but for the check that a text is
-- not blank. A message is a list of pieces. Log lines are left out, and so are values that only they
-- read. Machine integers keep their width where it is observed: addresses are below 2^32 and 2^128,
-- and lengths are hashed modulo 2^32. The loops are recursion on lists; the allocation of an
-- interface name takes at most 8 rounds, as in the source.
--
-- Not modelled: processes and sockets, the requests on leases, interfaces and custody records, the
-- watch over helpers' exits, the session agent and the disk encoding. The command line, status and
-- diagnosis are input and output.
pub mod Prelude
pub mod Net
pub mod Links
pub mod Routes
pub mod Config
pub mod Daemon
pub mod MacosDns
pub mod Dns
pub mod Sweep
pub mod Api
pub mod Examples
