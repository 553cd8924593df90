-- ===== src/Config/Parser/Reparse/Alike.antt =====
-- The steps of `parse_connection_config` of src/wireguard/connection_config.rs with two resolvers.
use macos_wireguard_daemon.Prelude.{
  ◌≡◌, refl, ℕ, ◌^◌, Option, none, some, List, [], ◌∷◌, ◌++◌, map, Text, text, ◌==◌, ℕ_eq, List_eq,
  is_empty, Result, ok, Option-cases, Bool-cases, Result-cases, inl, inr, starts_with, trim,
  text_before,
}
use macos_wireguard_daemon.Net.Parse.{parse_unsigned, split_once}
use macos_wireguard_daemon.Config.{SocketAddr, ConnectionPeer}
use macos_wireguard_daemon.Daemon.Errors.{AppError}
use macos_wireguard_daemon.Config.Parser.{
  ParserTools, to_ascii_lowercase, parse_mtu, split_csv, decode_key32, parse_endpoint, parse_ipnet,
  push_nets, push_dns,
}
use macos_wireguard_daemon.Config.Parser.Sections.{
  Section, interface, peer, ParseState, section_name, flush_peer, leave_section, change_section,
  enter_section, interface_directive, keepalive_directive, peer_directive, directive, assignment,
  config_line, finish,
}
use macos_wireguard_daemon.Config.Parser.Reading.{section_cases}
use macos_wireguard_daemon.Config.Parser.Reparse.{
  Agrees, Agrees-ok, Agrees-left, Agrees-right, Agrees-if, Agrees-bind, Agrees-same, Agrees-free,
  with_resolver, unresolved_peer, IsSame, IsAlike, append_alike, like,
}

module _ {N : Type 0} (tools : ParserTools N)
    (resolve : Text → ℕ → Result AppError SocketAddr) where
  push_nets-same :
      (nets : List N) (entries : List Text)
      → push_nets (with_resolver tools resolve) nets entries ≡ push_nets tools nets entries
  unfolding push_nets parse_ipnet
  push_nets-same nets [] = refl
  push_nets-same nets (entry ∷ rest) = elim (Result-cases (parse_ipnet tools entry)) [
    | inl (net, q) ↦ rw (q, push_nets) (push_nets-same (nets ++ net ∷ []) rest)
    | inr (e, q) ↦ rw (q, push_nets) refl
  ]

  module _ (e : Option SocketAddr) (ps : List (ConnectionPeer N)) (st : ParseState N)
      (h : map unresolved_peer ps ≡ map unresolved_peer st.peers) where
    abbrev other : ParserTools N
    other = with_resolver tools resolve

    abbrev twin : ParseState N
    twin = record st { peer_endpoint = e; peers = ps }

    settled :
        (s : ParseState N)
        → map unresolved_peer ps ≡ map unresolved_peer s.peers
        → Agrees IsAlike (ok s) (ok (record s { peer_endpoint = e; peers = ps }))
    settled s k = Agrees-ok IsAlike s (record s { peer_endpoint = e; peers = ps }) (like e ps k)

    flush_peer-IsAlike : Agrees IsAlike (flush_peer tools st) (flush_peer other twin)
    unfolding flush_peer
    flush_peer-IsAlike = elim (Option-cases st.peer_public_key) [
      | inl n ↦ rw (n, flush_peer) (Agrees-left IsAlike _ _)
      | inr (k, n) ↦ elim (Bool-cases (is_empty st.peer_allowed_ips)) [
        | inl q ↦ rw (n, flush_peer, q) (Agrees-left IsAlike _ _)
        | inr q ↦
            rw (n, flush_peer, q)
              (Agrees-ok IsAlike _ _ (like none _ (append_alike ps st.peers _ _ h refl)))
      ]
    ]

    pub leave_section-IsAlike : Agrees IsAlike (leave_section tools st) (leave_section other twin)
    unfolding leave_section
    leave_section-IsAlike = elim (section_cases st.section) [
      | inl q ↦ rw (q, leave_section) flush_peer-IsAlike
      | inr q ↦ elim q [
        | inl n ↦ rw (n, leave_section) (Agrees-ok IsAlike _ _ (like e ps h))
        | inr n ↦ rw (n, leave_section) (Agrees-ok IsAlike _ _ (like e ps h))
      ]
    ]

    change_section-IsAlike :
        (section : Section)
        → Agrees IsAlike (change_section tools section st) (change_section other section twin)
    unfolding change_section
    change_section-IsAlike section =
        Agrees-bind IsAlike IsAlike (leave_section tools st) (leave_section other twin) _ _
          leave_section-IsAlike
          (λ a b k. rw k.same (
            Agrees-ok IsAlike (record a { section = section })
              (record a { section = section; peer_endpoint = k.endpoint; peers = k.peers })
              (like k.endpoint k.peers k.alike)))

    enter_section-IsAlike :
        (raw_line line : Text)
        → Agrees IsAlike
            (enter_section tools raw_line line st)
            (enter_section other raw_line line twin)
    unfolding enter_section
    enter_section-IsAlike raw_line line = elim (Option-cases (section_name line)) [
      | inl n ↦ rw (n, enter_section) (Agrees-left IsAlike _ _)
      | inr (name, n) ↦
          rw (n, enter_section)
            (Agrees-if IsAlike (name == text "interface") _ _ _ _ (change_section-IsAlike interface)
              (Agrees-if IsAlike (name == text "peer") _ _ _ _ (change_section-IsAlike peer)
                (Agrees-left IsAlike _ _)))
    ]

    interface_directive-IsAlike :
        (key key_lower value : Text)
        → Agrees IsAlike
            (interface_directive tools key key_lower value st)
            (interface_directive other key key_lower value twin)
    unfolding interface_directive decode_key32
    interface_directive-IsAlike key key_lower value =
        Agrees-if IsAlike _ _ _ _ _ (Agrees-left IsAlike _ _) (
          Agrees-if IsAlike _ _ _ _ _
            (Agrees-same IsAlike (decode_key32 tools (text "PrivateKey") value)
              (decode_key32 other (text "PrivateKey") value) _ _ refl
              (λ k. Agrees-ok IsAlike _ _ (like e ps h)))
            (Agrees-if IsAlike _ _ _ _ _
              (Agrees-same IsAlike (push_nets tools st.addresses (split_csv value))
                (push_nets other st.addresses (split_csv value)) _ _
                (push_nets-same st.addresses (split_csv value))
                (λ nets. Agrees-ok IsAlike _ _ (like e ps h)))
              (Agrees-if IsAlike _ _ _ _ _
                (Agrees-same IsAlike (push_dns st.dns_servers (split_csv value))
                  (push_dns st.dns_servers (split_csv value)) _ _ refl
                  (λ servers. Agrees-ok IsAlike _ _ (like e ps h)))
                (Agrees-if IsAlike _ _ _ _ _
                  (Agrees-same IsAlike (parse_mtu value) (parse_mtu value) _ _ refl
                    (λ mtu. Agrees-ok IsAlike _ _ (like e ps h)))
                  (Agrees-if IsAlike (key_lower == text "preup") _ _ _ _
                    (settled (record st { pre_up = st.pre_up ++ value ∷ [] }) h)
                    (Agrees-if IsAlike (key_lower == text "postup") _ _ _ _
                      (settled (record st { post_up = st.post_up ++ value ∷ [] }) h)
                      (Agrees-if IsAlike (key_lower == text "predown") _ _ _ _
                        (settled (record st { pre_down = st.pre_down ++ value ∷ [] }) h)
                        (Agrees-if IsAlike (key_lower == text "postdown") _ _ _ _
                          (settled (record st { post_down = st.post_down ++ value ∷ [] }) h)
                          (settled st h)))))))))

    keepalive_directive-IsAlike :
        (value : Text)
        → Agrees IsAlike (keepalive_directive tools value st) (keepalive_directive other value twin)
    unfolding keepalive_directive
    keepalive_directive-IsAlike value = elim (Option-cases (parse_unsigned (2 ^ 16) value)) [
      | inl n ↦ rw (n, keepalive_directive) (Agrees-left IsAlike _ _)
      | inr (v, n) ↦ rw (n, keepalive_directive) (Agrees-ok IsAlike _ _ (like e ps h))
    ]

    peer_directive-IsAlike :
        (key key_lower value : Text)
        → Agrees IsAlike
            (peer_directive tools key key_lower value st)
            (peer_directive other key key_lower value twin)
    unfolding peer_directive decode_key32
    peer_directive-IsAlike key key_lower value =
        Agrees-if IsAlike _ _ _ _ _ (Agrees-left IsAlike _ _) (
          Agrees-if IsAlike _ _ _ _ _
            (Agrees-same IsAlike (decode_key32 tools (text "PublicKey") value)
              (decode_key32 other (text "PublicKey") value) _ _ refl
              (λ k. Agrees-ok IsAlike _ _ (like e ps h)))
            (Agrees-if IsAlike _ _ _ _ _
              (Agrees-same IsAlike (decode_key32 tools (text "PresharedKey") value)
                (decode_key32 other (text "PresharedKey") value) _ _ refl
                (λ k. Agrees-ok IsAlike _ _ (like e ps h)))
              (Agrees-if IsAlike _ _ _ _ _
                (Agrees-same IsAlike (push_nets tools st.peer_allowed_ips (split_csv value))
                  (push_nets other st.peer_allowed_ips (split_csv value)) _ _
                  (push_nets-same st.peer_allowed_ips (split_csv value))
                  (λ nets. Agrees-ok IsAlike _ _ (like e ps h)))
                (Agrees-if IsAlike _ _ _ _ _
                  (Agrees-free IsAlike (parse_endpoint tools value) (parse_endpoint other value) _ _
                    (λ a b. Agrees-ok IsAlike _ _ (like (some b) ps h)))
                  (keepalive_directive-IsAlike value)))))

    directive-IsAlike :
        (key value : Text)
        → Agrees IsAlike (directive tools key value st) (directive other key value twin)
    unfolding directive
    directive-IsAlike key value = elim (section_cases st.section) [
      | inl q ↦ rw (q, directive) (peer_directive-IsAlike key (to_ascii_lowercase key) value)
      | inr q ↦ elim q [
        | inl n ↦ rw (n, directive) (interface_directive-IsAlike key (to_ascii_lowercase key) value)
        | inr n ↦ rw (n, directive) (Agrees-left IsAlike _ _)
      ]
    ]

    assignment-IsAlike :
        (raw_line line : Text)
        → Agrees IsAlike (assignment tools raw_line line st) (assignment other raw_line line twin)
    unfolding assignment
    assignment-IsAlike raw_line line = elim (Option-cases (split_once b'=' line)) [
      | inl n ↦ rw (n, assignment) (Agrees-left IsAlike _ _)
      | inr (entry, n) ↦
          rw (n, assignment)
            (Agrees-if IsAlike (is_empty (trim entry.1)) _ _ _ _ (settled st h)
              (directive-IsAlike (trim entry.0) (trim entry.1)))
    ]

    pub config_line-IsAlike :
        (raw_line : Text)
        → Agrees IsAlike (config_line tools raw_line st) (config_line other raw_line twin)
    unfolding config_line
    config_line-IsAlike raw_line =
        let line = trim (text_before b'#' raw_line) in
        Agrees-if IsAlike (is_empty line) _ _ _ _ (settled st h) (
          Agrees-if IsAlike (starts_with line (text "[")) _ _ _ _
            (enter_section-IsAlike raw_line line) (assignment-IsAlike raw_line line))

    pub finish-IsSame : Agrees IsSame (finish tools st) (finish other twin)
    unfolding finish
    finish-IsSame = elim (Option-cases st.private_key) [
      | inl n ↦ rw (n, finish) (Agrees-left IsSame _ _)
      | inr (k, n) ↦ elim (Bool-cases (is_empty st.addresses)) [
        | inl a ↦ rw (n, finish, a) (Agrees-left IsSame _ _)
        | inr a ↦ elim (Bool-cases (is_empty st.peers)) [
          | inl p ↦ rw (n, finish, a, p) (Agrees-left IsSame _ _)
          | inr p ↦ elim (Bool-cases (is_empty ps)) [
            | inl o ↦ rw (n, finish, a, p, o) (Agrees-right IsSame _ _)
            | inr o ↦ rw (n, finish, a, p, o) (Agrees-ok IsSame _ _ (rw h refl))
          ]
        ]
      ]
    ]
