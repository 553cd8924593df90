-- ===== src/Config/Parser/Reading.antt =====
-- What the loop of `parse_connection_config` of src/wireguard/connection_config.rs keeps at the sections.
use macos_wireguard_daemon.Prelude.{
  ◌≡◌, ◌⊎◌, refl, ℕ, ◌≤◌, ◌<◌, ◌^◌, false, Option, none, some, is_some, List, Text, text, ◌==◌,
  ==_iff, ℕ_eq, List_eq, is_empty, length, ltb, All, All-append, arith, Result-cases, Option-cases,
  Bool-cases, inl, inr,
}
use macos_wireguard_daemon.Prelude.Results.{Holds, Holds-ok, Holds-err, Holds-if, Holds-bind}
use macos_wireguard_daemon.Net.Parse.{parse_unsigned, parse_unsigned-lt}
use macos_wireguard_daemon.Config.{SocketAddr, ConnectionPeer, ConnectionConfig}
use macos_wireguard_daemon.Config.Parser.{ParserTools, parse_mtu, validate_mtu, decode_key32}
use macos_wireguard_daemon.Config.Parser.Sections.{
  Section, nothing, interface, peer, ParseState, section_name, flush_peer, leave_section,
  change_section, enter_section,
}

abbrev pub IsKey : List ℕ → Type 0
IsKey k = length k ≡ 32

abbrev pub IsKeyOption : Option (List ℕ) → Type 0
IsKeyOption none = Unit
IsKeyOption (some k) = IsKey k

-- At least 576, and 16 bits.
abbrev pub IsMtu : ℕ → Type 0
IsMtu mtu = (576 ≤ mtu) × (mtu < 2 ^ 16)

abbrev pub IsMtuOption : Option ℕ → Type 0
IsMtuOption none = Unit
IsMtuOption (some mtu) = IsMtu mtu

abbrev pub IsKeepalive : Option ℕ → Type 0
IsKeepalive none = Unit
IsKeepalive (some v) = v < 2 ^ 16

pub decode_key32-IsKey :
    {N : Type 0} (tools : ParserTools N) (field value : Text)
    → Holds IsKey (decode_key32 tools field value)
unfolding decode_key32
decode_key32-IsKey tools field value = elim (Result-cases (tools.decode_base64 value)) [
  | inr (e, q) ↦ rw (q, decode_key32) (Holds-err _ _)
  | inl (k, q) ↦ elim (Bool-cases (length k == 32)) [
    | inl n ↦ rw (q, decode_key32, n) (Holds-ok _ k ((==_iff (length k) 32).0 n))
    | inr n ↦ rw (q, decode_key32, n) (Holds-err _ _)
  ]
]

pub parse_mtu-IsMtu : (value : Text) → Holds IsMtu (parse_mtu value)
unfolding parse_mtu validate_mtu
parse_mtu-IsMtu value = elim (Option-cases (parse_unsigned (2 ^ 16) value)) [
  | inl n ↦ rw (n, parse_mtu) (Holds-err _ _)
  | inr (mtu, n) ↦ elim (Bool-cases (ltb mtu 576)) [
    | inl q ↦ rw (n, parse_mtu, validate_mtu, q) (Holds-err _ _)
    | inr q ↦
        rw (n, parse_mtu, validate_mtu, q)
          (Holds-ok _ mtu (ground (arith, q), parse_unsigned-lt (2 ^ 16) mtu value n))
  ]
]

pub section_cases : (s : Section) → (s ≡ peer) ⊎ ((s ≡ interface) ⊎ (s ≡ nothing))
section_cases nothing = inr (inr refl)
section_cases interface = inr (inl refl)
section_cases peer = inl refl

-- The peer being read, by its values.
pub record IsCurrent (key shared : Option (List ℕ)) (endpoint : Option SocketAddr)
    (literal : Option Text) (keepalive : Option ℕ) : Type 0 where
  pub is_key : IsKeyOption key
  pub is_shared : IsKeyOption shared
  pub is_endpoint : is_some endpoint ≡ is_some literal
  pub is_keepalive : IsKeepalive keepalive

module _ {N : Type 0} where
  -- A peer has keys of 32 bytes, at least one network, an endpoint exactly where it has the text of
  -- one, and a keepalive of 16 bits.
  pub record IsPeer (p : ConnectionPeer N) : Type 0 where
    pub key : IsKey p.public_key
    pub shared : IsKeyOption p.preshared_key
    pub allowed : is_empty p.allowed_ips ≡ false
    pub endpoint : is_some p.endpoint ≡ is_some p.endpoint_literal
    pub keepalive : IsKeepalive p.persistent_keepalive

  -- The same of a configuration: its key, at least one address and one peer, its `MTU`, its peers.
  pub record IsConfig (c : ConnectionConfig N) : Type 0 where
    pub key : IsKey c.private_key
    pub addressed : is_empty c.addresses ≡ false
    pub mtu : IsMtuOption c.mtu
    pub peered : is_empty c.peers ≡ false
    pub peers : All IsPeer c.peers

  abbrev pub IsPeerRead : ParseState N → Type 0
  IsPeerRead st =
      IsCurrent st.peer_public_key st.peer_preshared_key st.peer_endpoint st.peer_endpoint_literal
        st.peer_keepalive

  abbrev pub IsReading : ParseState N → Type 0
  IsReading st =
      IsKeyOption st.private_key × IsMtuOption st.mtu × All IsPeer st.peers × IsPeerRead st

  module _ (tools : ParserTools N) where
    flush_peer-IsReading :
        (st : ParseState N) → IsReading st → Holds IsReading (flush_peer tools st)
    unfolding flush_peer
    flush_peer-IsReading st h = elim (Option-cases st.peer_public_key) [
      | inl n ↦ rw (n, flush_peer) (Holds-err _ _)
      | inr (k, n) ↦ elim (Bool-cases (is_empty st.peer_allowed_ips)) [
        | inl e ↦ rw (n, flush_peer, e) (Holds-err _ _)
        | inr e ↦
            rw (n, flush_peer, e)
              (Holds-ok _ _ (
                h.0,
                h.1,
                All-append IsPeer st.peers _ h.2 (
                  record {
                    key = rw n at h.3.is_key;
                    shared = h.3.is_shared;
                    allowed = e;
                    endpoint = h.3.is_endpoint;
                    keepalive = h.3.is_keepalive;
                  },
                  tt,
                ),
                record { is_key = tt; is_shared = tt; is_endpoint = refl; is_keepalive = tt },
              ))
      ]
    ]

    pub leave_section-IsReading :
        (st : ParseState N) → IsReading st → Holds IsReading (leave_section tools st)
    unfolding leave_section
    leave_section-IsReading st h = elim (section_cases st.section) [
      | inl q ↦ rw (q, leave_section) (flush_peer-IsReading st h)
      | inr q ↦ elim q [
        | inl e ↦ rw (e, leave_section) (Holds-ok _ _ h)
        | inr e ↦ rw (e, leave_section) (Holds-ok _ _ h)
      ]
    ]

    change_section-IsReading :
        (section : Section) (st : ParseState N)
        → IsReading st
        → Holds IsReading (change_section tools section st)
    unfolding change_section
    change_section-IsReading section st h =
        Holds-bind IsReading IsReading (leave_section tools st) _ (leave_section-IsReading st h)
          (λ left k. Holds-ok _ _ k)

    pub enter_section-IsReading :
        (raw_line line : Text) (st : ParseState N)
        → IsReading st
        → Holds IsReading (enter_section tools raw_line line st)
    unfolding enter_section
    enter_section-IsReading raw_line line st h = elim (Option-cases (section_name line)) [
      | inl n ↦ rw (n, enter_section) (Holds-err _ _)
      | inr (name, n) ↦
          rw (n, enter_section)
            (Holds-if IsReading (name == text "interface") _ _
              (change_section-IsReading interface st h)
              (Holds-if IsReading (name == text "peer") _ _ (change_section-IsReading peer st h)
                (Holds-err _ _)))
    ]
