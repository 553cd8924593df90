-- ===== src/Config/Parser/Sections.antt =====
-- The sections and directives of `parse_connection_config` of
-- src/wireguard/connection_config.rs.
use macos_wireguard_daemon.Prelude.{
  ℕ, ◌^◌, not, Option, none, some, List, [], ◌∷◌, ◌++◌, Text, text, ◌==◌, ℕ_eq, List_eq, contains,
  is_empty, retain, Result, ok, if◌then◌else◌, lines, trim, is_white, starts_with, strip_prefix,
  text_before,
}
use macos_wireguard_daemon.Prelude.Results.{◌>>=◌}
use macos_wireguard_daemon.Net.Parse.{IpAddr, parse_unsigned, split_once}
use macos_wireguard_daemon.Config.{SocketAddr, ConnectionPeer, ConnectionConfig}
use macos_wireguard_daemon.Daemon.Errors.{AppError, plain, quoted}
use macos_wireguard_daemon.Config.Parser.{
  ParserTools, to_ascii_lowercase, bad, parse_mtu, split_csv, decode_key32, parse_endpoint,
  push_nets, push_dns,
}

pub data Section : Type 0 where
  nothing interface peer : Section

-- The variables of the loop over the lines. Those of the current peer are flushed into `peers`.
pub record ParseState (N : Type 0) : Type 0 where
  pub section : Section
  pub private_key : Option (List ℕ)
  pub addresses : List N
  pub dns_servers : List IpAddr
  pub mtu : Option ℕ
  pub pre_up : List Text
  pub post_up : List Text
  pub pre_down : List Text
  pub post_down : List Text
  pub peers : List (ConnectionPeer N)
  pub peer_public_key : Option (List ℕ)
  pub peer_preshared_key : Option (List ℕ)
  pub peer_allowed_ips : List N
  pub peer_endpoint : Option SocketAddr
  pub peer_endpoint_literal : Option Text
  pub peer_keepalive : Option ℕ

abbrev known_interface_keys : List Text
known_interface_keys =
    text "privatekey"
    ∷ text "address"
    ∷ text "dns"
    ∷ text "mtu"
    ∷ text "preup"
    ∷ text "postup"
    ∷ text "predown"
    ∷ text "postdown"
    ∷ text "listenport"
    ∷ text "fwmark"
    ∷ text "table"
    ∷ text "saveconfig"
    ∷ []

abbrev known_peer_keys : List Text
known_peer_keys =
    text "publickey"
    ∷ text "presharedkey"
    ∷ text "allowedips"
    ∷ text "endpoint"
    ∷ text "persistentkeepalive"
    ∷ []

-- The name of a section header, without white space, brackets and case.
abbrev without_bracket : Text → Option Text
without_bracket [] = none
without_bracket (c ∷ []) = if c == b']' then some [] else none
without_bracket (c ∷ d ∷ s) =
    let rest = without_bracket (d ∷ s) in elim rest [ none ↦ none | some t ↦ some (c ∷ t) ]

unfoldable pub section_name : Text → Option Text
section_name line = elim (strip_prefix (retain (λ c. not (is_white c)) line) (text "[")) [
  | none ↦ none
  | some inner ↦ elim (without_bracket inner) [
    | none ↦ none
    | some name ↦ some (to_ascii_lowercase name)
  ]
]

module _ {N : Type 0} (tools : ParserTools N) where
  abbrev pub initial : ParseState N
  initial = record {
    section = nothing;
    private_key = none;
    addresses = [];
    dns_servers = [];
    mtu = none;
    pre_up = [];
    post_up = [];
    pre_down = [];
    post_down = [];
    peers = [];
    peer_public_key = none;
    peer_preshared_key = none;
    peer_allowed_ips = [];
    peer_endpoint = none;
    peer_endpoint_literal = none;
    peer_keepalive = none;
  }

  unfoldable pub flush_peer : ParseState N → Result AppError (ParseState N)
  flush_peer st = elim st.peer_public_key [
    | none ↦ bad (plain (text "peer section missing PublicKey") ∷ [])
    | some public_key ↦
        if is_empty st.peer_allowed_ips
        then bad (plain (text "peer section missing AllowedIPs") ∷ [])
        else ok (record st {
          peers =
              st.peers
              ++ record {
                public_key = public_key;
                preshared_key = st.peer_preshared_key;
                allowed_ips = st.peer_allowed_ips;
                endpoint = st.peer_endpoint;
                endpoint_literal = st.peer_endpoint_literal;
                persistent_keepalive = st.peer_keepalive;
              }
                ∷ [];
          peer_public_key = none;
          peer_preshared_key = none;
          peer_allowed_ips = [];
          peer_endpoint = none;
          peer_endpoint_literal = none;
          peer_keepalive = none;
        })
  ]

  -- The flush at the end of a section, which only a peer's needs.
  unfoldable pub leave_section : ParseState N → Result AppError (ParseState N)
  unfolding flush_peer
  leave_section st = elim st.section [ peer ↦ flush_peer st | _ ↦ ok st ]

  unfoldable pub change_section : Section → ParseState N → Result AppError (ParseState N)
  unfolding leave_section
  change_section section st = do left ← leave_section st; ok (record left { section = section })

  unfoldable pub enter_section : Text → Text → ParseState N → Result AppError (ParseState N)
  unfolding section_name change_section
  enter_section raw_line line st = elim (section_name line) [
    | none ↦ unrecognized
    | some name ↦
        if name == text "interface"
        then change_section interface st
        else if name == text "peer"
        then change_section peer st
        else unrecognized
  ]
    where
      unrecognized : Result AppError (ParseState N)
      unrecognized = bad (
          plain (text "unrecognized section header ")
          ∷ quoted raw_line
          ∷ plain (text " (expected [Interface] or [Peer])")
          ∷ [])

  unfoldable pub interface_directive :
      Text → Text → Text → ParseState N → Result AppError (ParseState N)
  unfolding decode_key32 push_nets split_csv push_dns parse_mtu
  interface_directive key key_lower value st =
      if not (contains known_interface_keys key_lower)
      then bad (plain (text "unrecognized [Interface] directive ") ∷ quoted key ∷ [])
      else if key_lower == text "privatekey"
      then (do
        private_key ← decode_key32 tools (text "PrivateKey") value
        ok (record st { private_key = some private_key }))
      else if key_lower == text "address"
      then (do
        addresses ← push_nets tools st.addresses (split_csv value)
        ok (record st { addresses = addresses }))
      else if key_lower == text "dns"
      then (do
        dns_servers ← push_dns st.dns_servers (split_csv value)
        ok (record st { dns_servers = dns_servers }))
      else if key_lower == text "mtu"
      then (do mtu ← parse_mtu value; ok (record st { mtu = some mtu }))
      else if key_lower == text "preup"
      then ok (record st { pre_up = st.pre_up ++ value ∷ [] })
      else if key_lower == text "postup"
      then ok (record st { post_up = st.post_up ++ value ∷ [] })
      else if key_lower == text "predown"
      then ok (record st { pre_down = st.pre_down ++ value ∷ [] })
      else if key_lower == text "postdown"
      then ok (record st { post_down = st.post_down ++ value ∷ [] })
      else ok st

  unfoldable pub keepalive_directive : Text → ParseState N → Result AppError (ParseState N)
  unfolding parse_unsigned
  keepalive_directive value st = elim (parse_unsigned (2 ^ 16) value) [
    | none ↦ bad (plain (text "invalid PersistentKeepalive ") ∷ quoted value ∷ [])
    | some keepalive ↦ ok (record st { peer_keepalive = some keepalive })
  ]

  unfoldable pub peer_directive : Text → Text → Text → ParseState N → Result AppError (ParseState N)
  unfolding decode_key32 push_nets split_csv parse_endpoint keepalive_directive
  peer_directive key key_lower value st =
      if not (contains known_peer_keys key_lower)
      then bad (plain (text "unrecognized [Peer] directive ") ∷ quoted key ∷ [])
      else if key_lower == text "publickey"
      then (do
        public_key ← decode_key32 tools (text "PublicKey") value
        ok (record st { peer_public_key = some public_key }))
      else if key_lower == text "presharedkey"
      then (do
        preshared_key ← decode_key32 tools (text "PresharedKey") value
        ok (record st { peer_preshared_key = some preshared_key }))
      else if key_lower == text "allowedips"
      then (do
        allowed_ips ← push_nets tools st.peer_allowed_ips (split_csv value)
        ok (record st { peer_allowed_ips = allowed_ips }))
      else if key_lower == text "endpoint"
      then (do
        endpoint ← parse_endpoint tools value
        ok (record st { peer_endpoint = some endpoint; peer_endpoint_literal = some value }))
      else keepalive_directive value st

  unfoldable pub directive : Text → Text → ParseState N → Result AppError (ParseState N)
  unfolding interface_directive peer_directive
  directive key value st = elim st.section [
    | interface ↦ interface_directive key (to_ascii_lowercase key) value st
    | peer ↦ peer_directive key (to_ascii_lowercase key) value st
    | nothing ↦ bad (
        plain (text "directive ")
        ∷ quoted key
        ∷ plain (text " appears before any [Interface]/[Peer] section")
        ∷ [])
  ]

  -- A line `Key = Value`.
  unfoldable pub assignment : Text → Text → ParseState N → Result AppError (ParseState N)
  unfolding split_once directive
  assignment raw_line line st = elim (split_once b'=' line) [
    | none ↦ bad (plain (text "malformed line (expected `Key = Value`): ") ∷ quoted raw_line ∷ [])
    | some (key, value) ↦
        if is_empty (trim value) then ok st else directive (trim key) (trim value) st
  ]

  unfoldable pub config_line : Text → ParseState N → Result AppError (ParseState N)
  unfolding enter_section assignment
  config_line raw_line st =
      let line = trim (text_before b'#' raw_line) in
      if is_empty line
      then ok st
      else if starts_with line (text "[")
      then enter_section raw_line line st
      else assignment raw_line line st

  unfoldable pub config_lines : List Text → ParseState N → Result AppError (ParseState N)
  unfolding config_line
  config_lines [] st = ok st
  config_lines (line ∷ rest) st = do next ← config_line line st; config_lines rest next

  -- What the end of the text requires.
  unfoldable pub finish : ParseState N → Result AppError (ConnectionConfig N)
  finish st = elim st.private_key [
    | none ↦ bad (plain (text "missing PrivateKey in [Interface]") ∷ [])
    | some private_key ↦
        if is_empty st.addresses
        then bad (plain (text "missing Address in [Interface]") ∷ [])
        else if is_empty st.peers
        then bad (plain (text "no [Peer] sections found") ∷ [])
        else ok (record {
          private_key = private_key;
          addresses = st.addresses;
          dns_servers = st.dns_servers;
          mtu = st.mtu;
          pre_up = st.pre_up;
          post_up = st.post_up;
          pre_down = st.pre_down;
          post_down = st.post_down;
          peers = st.peers;
        })
  ]

  unfoldable pub parse_connection_config : Text → Result AppError (ConnectionConfig N)
  unfolding config_lines leave_section finish
  parse_connection_config input = do
    st ← config_lines (lines input) initial
    left ← leave_section st
    finish left
