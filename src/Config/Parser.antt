-- ===== src/Config/Parser.antt =====
-- `parse_connection_config` of src/wireguard/connection_config.rs, with src/wireguard/config.rs.
--
-- Base64, the network type and the resolver are arguments: the resolver is asked for a host and a
-- port, and its timeout and errors are its answers. They are the answers during one run of the parser;
-- another run has tools of its own. The zone of an IPv6 socket address is read and
-- left out of it.
pub mod Sections
pub mod Reading
pub mod WellFormed
pub mod Reparse
use macos_wireguard_daemon.Prelude.{
  split, rsplit_once, ℕ, zero, suc, ◌+◌, ◌^◌, Bool, true, false, not, ◌&&◌, ◌||◌, Option, none,
  some, List, [], ◌∷◌, ◌++◌, map, Text, text, Eq, ◌==◌, ℕ_eq, List_eq, any, contains, is_empty,
  length, leb, ltb, retain, Result, ok, err, if◌then◌else◌, lines, trim, is_white, starts_with,
  strip_prefix, text_before, trim_start_matches, trim_end_matches,
}
use macos_wireguard_daemon.Prelude.Results.{◌>>=◌, ◌>>◌}
use macos_wireguard_daemon.Net.Parse.{
  IpAddr, v4, v6, parse_ip, parse_unsigned, split_once, parse_socket_addr,
}
use macos_wireguard_daemon.Net.Show.{show_number}
use macos_wireguard_daemon.Config.{SocketAddr, ConnectionPeer, ConnectionConfig}
use macos_wireguard_daemon.Daemon.Errors.{AppError, wireguard, Message, plain, quoted}

-- What the parser calls outside the source.
pub record ParserTools (N : Type 0) : Type 0 where
  pub decode_base64 : Text → Result Text (List ℕ)
  pub parse_net : Text → Option N
  -- What the system resolver answers during one run, its timeout included.
  pub resolve : Text → ℕ → Result AppError SocketAddr

-- `to_ascii_lowercase`
abbrev pub to_ascii_lowercase : Text → Text
to_ascii_lowercase = map (λ c. if leb b'A' c && leb c b'Z' then c + 32 else c)

abbrev pub bad {ℓ} : {A : Type ℓ} → Message → Result AppError A
bad message = err (wireguard message)

unfoldable pub validate_mtu : ℕ → Result AppError (Unit {0})
unfolding show_number
validate_mtu mtu =
    if ltb mtu 576
    then bad (
        plain (text "invalid MTU ")
        ∷ plain (show_number 5 10 mtu)
        ∷ plain (text " (must be >= 576)")
        ∷ [])
    else ok tt

unfoldable pub parse_mtu : Text → Result AppError ℕ
unfolding parse_unsigned validate_mtu
parse_mtu value = elim (parse_unsigned (2 ^ 16) value) [
  | none ↦
      bad (plain (text "invalid MTU ") ∷ quoted value ∷ plain (text " (expected an integer)") ∷ [])
  | some mtu ↦ elim (validate_mtu mtu) [ err e ↦ err e | ok _ ↦ ok mtu ]
]

unfoldable pub split_csv : Text → List Text
split_csv value = retain (λ entry. not (is_empty entry)) (map trim (split b',' value))

abbrev is_bracket : ℕ → Bool
is_bracket c = c == b'[' || c == b']'

module _ {N : Type 0} (tools : ParserTools N) where
  unfoldable pub parse_ipnet : Text → Result AppError N
  parse_ipnet value = elim (tools.parse_net value) [
    | none ↦ bad (plain (text "invalid address/CIDR ") ∷ quoted value ∷ [])
    | some net ↦ ok net
  ]

  unfoldable pub decode_key32 : Text → Text → Result AppError (List ℕ)
  decode_key32 field value = elim (tools.decode_base64 value) [
    | err e ↦
        bad (plain (text "failed to decode ") ∷ plain field ∷ plain (text ": ") ∷ plain e ∷ [])
    | ok decoded ↦
        if not (length decoded == 32)
        then bad (plain field ∷ plain (text " must decode to 32 bytes") ∷ [])
        else ok decoded
  ]

  unfoldable pub parse_endpoint : Text → Result AppError SocketAddr
  unfolding parse_socket_addr parse_unsigned parse_ip
  parse_endpoint value = elim (parse_socket_addr value) [
    | some (ip, port) ↦ ok (record { ip = ip; port = port })
    | none ↦ elim (rsplit_once b':' value) [
      | none ↦ bad (plain (text "invalid endpoint ") ∷ quoted value ∷ [])
      | some (host, port_text) ↦ elim (parse_unsigned (2 ^ 16) port_text) [
        | none ↦ bad (plain (text "invalid endpoint port in ") ∷ quoted value ∷ [])
        | some port ↦
            let name = trim_end_matches is_bracket (trim_start_matches is_bracket host) in
            elim (parse_ip name) [
              | some ip ↦ ok (record { ip = ip; port = port })
              | none ↦ tools.resolve name port
            ]
      ]
    ]
  ]

  -- The networks of a list, after those that are there already.
  unfoldable pub push_nets : List N → List Text → Result AppError (List N)
  unfolding parse_ipnet
  push_nets nets [] = ok nets
  push_nets nets (entry ∷ rest) = do net ← parse_ipnet entry; push_nets (nets ++ net ∷ []) rest

-- The same for addresses of DNS servers.
unfoldable pub push_dns : List IpAddr → List Text → Result AppError (List IpAddr)
unfolding parse_ip
push_dns servers [] = ok servers
push_dns servers (entry ∷ rest) = elim (parse_ip entry) [
  | none ↦ bad (plain (text "invalid DNS entry ") ∷ quoted entry ∷ [])
  | some ip ↦ push_dns (servers ++ ip ∷ []) rest
]
