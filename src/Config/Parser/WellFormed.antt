-- ===== src/Config/Parser/WellFormed.antt =====
-- What `parse_connection_config` of src/wireguard/connection_config.rs lets through.
use macos_wireguard_daemon.Prelude.{
  ◌≡◌, refl, ◌^◌, some, List, [], ◌∷◌, ◌++◌, Text, text, ℕ_eq, List_eq, is_empty, Result, ok, err,
  Option-cases, Bool-cases, inl, inr, starts_with, trim, lines, text_before,
}
use macos_wireguard_daemon.Prelude.Results.{◌>>=◌, Holds, Holds-ok, Holds-err, Holds-if, Holds-bind}
use macos_wireguard_daemon.Net.Parse.{parse_unsigned, parse_unsigned-lt, split_once}
use macos_wireguard_daemon.Config.{ConnectionConfig}
use macos_wireguard_daemon.Daemon.Errors.{AppError}
use macos_wireguard_daemon.Config.Parser.{
  ParserTools, to_ascii_lowercase, parse_mtu, split_csv, decode_key32, parse_endpoint, push_nets,
  push_dns,
}
use macos_wireguard_daemon.Config.Parser.Sections.{
  ParseState, initial, leave_section, interface_directive, keepalive_directive, peer_directive,
  directive, assignment, config_line, config_lines, finish, parse_connection_config,
}
use macos_wireguard_daemon.Config.Parser.Reading.{
  IsKey, IsMtu, IsConfig, IsReading, decode_key32-IsKey, parse_mtu-IsMtu, section_cases,
  leave_section-IsReading, enter_section-IsReading,
}

module _ {N : Type 0} where
  module _ (tools : ParserTools N) where
    -- A value that needs no condition.
    Holds-free :
        {A : Type 0} (m : Result AppError A) (f : A → Result AppError (ParseState N))
        → ((a : A) → Holds IsReading (f a))
        → Holds IsReading (m >>= f)
    Holds-free (ok a) f h = h a
    Holds-free (err e) f h = Holds-err _ _

    interface_directive-IsReading :
        (key key_lower value : Text) (st : ParseState N)
        → IsReading st
        → Holds IsReading (interface_directive tools key key_lower value st)
    unfolding interface_directive
    interface_directive-IsReading key key_lower value st h =
        Holds-if IsReading _ _ _ (Holds-err _ _) (
          Holds-if IsReading _ _ _
            (Holds-bind IsKey IsReading (decode_key32 tools (text "PrivateKey") value)
              (λ k. ok (record st { private_key = some k }))
              (decode_key32-IsKey tools (text "PrivateKey") value)
              (λ k e. Holds-ok _ _ (e, h.1, h.2, h.3)))
            (Holds-if IsReading _ _ _
              (Holds-free (push_nets tools st.addresses (split_csv value)) _
                (λ nets. Holds-ok _ _ h))
              (Holds-if IsReading _ _ _
                (Holds-free (push_dns st.dns_servers (split_csv value)) _
                  (λ servers. Holds-ok _ _ h))
                (Holds-if IsReading _ _ _
                  (Holds-bind IsMtu IsReading (parse_mtu value)
                    (λ mtu. ok (record st { mtu = some mtu })) (parse_mtu-IsMtu value)
                    (λ mtu e. Holds-ok _ _ (h.0, e, h.2, h.3)))
                  (Holds-if IsReading _ _ _
                    (Holds-ok _ (record st { pre_up = st.pre_up ++ value ∷ [] }) h)
                    (Holds-if IsReading _ _ _
                      (Holds-ok _ (record st { post_up = st.post_up ++ value ∷ [] }) h)
                      (Holds-if IsReading _ _ _
                        (Holds-ok _ (record st { pre_down = st.pre_down ++ value ∷ [] }) h)
                        (Holds-if IsReading _ _ _
                          (Holds-ok _ (record st { post_down = st.post_down ++ value ∷ [] }) h)
                          (Holds-ok _ st h)))))))))

    keepalive-IsReading :
        (value : Text) (st : ParseState N)
        → IsReading st
        → Holds IsReading (keepalive_directive tools value st)
    unfolding keepalive_directive
    keepalive-IsReading value st h = elim (Option-cases (parse_unsigned (2 ^ 16) value)) [
      | inl n ↦ rw (n, keepalive_directive) (Holds-err _ _)
      | inr (v, n) ↦
          rw (n, keepalive_directive)
            (Holds-ok _ _ (
              h.0,
              h.1,
              h.2,
              record {
                is_key = h.3.is_key;
                is_shared = h.3.is_shared;
                is_endpoint = h.3.is_endpoint;
                is_keepalive = parse_unsigned-lt (2 ^ 16) v value n;
              },
            ))
    ]

    peer_directive-IsReading :
        (key key_lower value : Text) (st : ParseState N)
        → IsReading st
        → Holds IsReading (peer_directive tools key key_lower value st)
    unfolding peer_directive
    peer_directive-IsReading key key_lower value st h = Holds-if IsReading _ _ _ (Holds-err _ _) (
        Holds-if IsReading _ _ _
          (Holds-bind IsKey IsReading (decode_key32 tools (text "PublicKey") value)
            (λ k. ok (record st { peer_public_key = some k }))
            (decode_key32-IsKey tools (text "PublicKey") value)
            (λ k e. Holds-ok _ _ (
              h.0,
              h.1,
              h.2,
              record {
                is_key = e;
                is_shared = h.3.is_shared;
                is_endpoint = h.3.is_endpoint;
                is_keepalive = h.3.is_keepalive;
              },
            )))
          (Holds-if IsReading _ _ _
            (Holds-bind IsKey IsReading (decode_key32 tools (text "PresharedKey") value)
              (λ k. ok (record st { peer_preshared_key = some k }))
              (decode_key32-IsKey tools (text "PresharedKey") value)
              (λ k e. Holds-ok _ _ (
                h.0,
                h.1,
                h.2,
                record {
                  is_key = h.3.is_key;
                  is_shared = e;
                  is_endpoint = h.3.is_endpoint;
                  is_keepalive = h.3.is_keepalive;
                },
              )))
            (Holds-if IsReading _ _ _
              (Holds-free (push_nets tools st.peer_allowed_ips (split_csv value)) _
                (λ nets. Holds-ok _ _ h))
              (Holds-if IsReading _ _ _
                (Holds-free (parse_endpoint tools value)
                  (λ e.
                    ok (record st { peer_endpoint = some e; peer_endpoint_literal = some value }))
                  (λ endpoint. Holds-ok _ _ (
                    h.0,
                    h.1,
                    h.2,
                    record {
                      is_key = h.3.is_key;
                      is_shared = h.3.is_shared;
                      is_endpoint = refl;
                      is_keepalive = h.3.is_keepalive;
                    },
                  )))
                (keepalive-IsReading value st h)))))

    directive-IsReading :
        (key value : Text) (st : ParseState N)
        → IsReading st
        → Holds IsReading (directive tools key value st)
    unfolding directive
    directive-IsReading key value st h = elim (section_cases st.section) [
      | inl q ↦ rw (q, directive) (peer_directive-IsReading key (to_ascii_lowercase key) value st h)
      | inr q ↦ elim q [
        | inl e ↦
            rw (e, directive)
              (interface_directive-IsReading key (to_ascii_lowercase key) value st h)
        | inr e ↦ rw (e, directive) (Holds-err _ _)
      ]
    ]

    assignment-IsReading :
        (raw_line line : Text) (st : ParseState N)
        → IsReading st
        → Holds IsReading (assignment tools raw_line line st)
    unfolding assignment
    assignment-IsReading raw_line line st h = elim (Option-cases (split_once b'=' line)) [
      | inl n ↦ rw (n, assignment) (Holds-err _ _)
      | inr (entry, n) ↦
          rw (n, assignment)
            (Holds-if IsReading (is_empty (trim entry.1)) _ _ (Holds-ok _ _ h)
              (directive-IsReading (trim entry.0) (trim entry.1) st h))
    ]

    config_line-IsReading :
        (raw_line : Text) (st : ParseState N)
        → IsReading st
        → Holds IsReading (config_line tools raw_line st)
    unfolding config_line
    config_line-IsReading raw_line st h =
        let line = trim (text_before b'#' raw_line) in
        Holds-if IsReading (is_empty line) _ _ (Holds-ok _ _ h) (
          Holds-if IsReading (starts_with line (text "[")) _ _
            (enter_section-IsReading tools raw_line line st h)
            (assignment-IsReading raw_line line st h))

    config_lines-IsReading :
        (ls : List Text) (st : ParseState N)
        → IsReading st
        → Holds IsReading (config_lines tools ls st)
    unfolding config_lines
    config_lines-IsReading [] st h = Holds-ok _ _ h
    config_lines-IsReading (line ∷ rest) st h =
        Holds-bind IsReading IsReading (config_line tools line st) _
          (config_line-IsReading line st h) (λ next k. config_lines-IsReading rest next k)

    finish-IsConfig : (st : ParseState N) → IsReading st → Holds IsConfig (finish tools st)
    unfolding finish
    finish-IsConfig st h = elim (Option-cases st.private_key) [
      | inl n ↦ rw (n, finish) (Holds-err _ _)
      | inr (k, n) ↦ elim (Bool-cases (is_empty st.addresses)) [
        | inl a ↦ rw (n, finish, a) (Holds-err _ _)
        | inr a ↦ elim (Bool-cases (is_empty st.peers)) [
          | inl p ↦ rw (n, finish, a, p) (Holds-err _ _)
          | inr p ↦
              rw (n, finish, a, p)
                (Holds-ok _ _
                  (record { key = rw n at h.0; addressed = a; mtu = h.1; peered = p; peers = h.2 }))
        ]
      ]
    ]

    -- A text that parses has a private key of 32 bytes, at least one address and at least one peer,
    -- its `MTU`, if any, is at least 576 and fits in 16 bits, and each peer has a key of 32 bytes, a
    -- preshared key of 32 bytes or none, at least one network, an endpoint exactly where its text is
    -- kept, and a keepalive, if any, of 16 bits.
    pub parse_connection_config-IsConfig :
        (input : Text) (c : ConnectionConfig N)
        → parse_connection_config tools input ≡ ok c
        → IsConfig c
    unfolding parse_connection_config
    parse_connection_config-IsConfig input c h =
        (Holds-bind IsReading IsConfig (config_lines tools (lines input) (initial tools)) _
            (config_lines-IsReading (lines input) (initial tools) (
              tt,
              tt,
              tt,
              record { is_key = tt; is_shared = tt; is_endpoint = refl; is_keepalive = tt },
            ))
            (λ st k.
              Holds-bind IsReading IsConfig (leave_section tools st) _
                (leave_section-IsReading tools st k) (λ left l. finish-IsConfig left l))).value
          c h
