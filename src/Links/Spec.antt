-- ===== src/Links/Spec.antt =====
-- The texts of src/bypass_links.rs: the command line's syntax for a link, its completion, and the
-- messages of errors. Printing and parsing a network are arguments, from the crate `ipnet`.
pub mod RoundTrip
use macos_wireguard_daemon.Prelude.{
  Bool, true, false, not, ◌&&◌, ◌||◌, Option, none, some, is_some, List, [], ◌∷◌, ◌++◌, map, Text,
  text, ℕ_eq, List_eq, Eq, ◌==◌, contains, is_empty, is_ok, retain, ltb, Result, ok, err,
  if◌then◌else◌, trim, split, rsplit_once, join, starts_with,
}
use macos_wireguard_daemon.Prelude.Results.{◌>>=◌}
use macos_wireguard_daemon.Net.Parse.{split_once}
use macos_wireguard_daemon.Daemon.Errors.{Message, plain, quoted}
use macos_wireguard_daemon.Links.Net.{IpNetOps}
use macos_wireguard_daemon.Links.{
  BypassLink, LinkError, syntax, cidr, empty, too_many_links, too_many_prefixes,
  anchor_not_in_allowed_ips, same_as_anchor, not_in_allowed_ips, inside_broader_entry, full_tunnel,
  Removed, prefixes, new, check_anchor, check_prefix,
}

-- `Display` and `FromStr` of a network.
pub record NetText (N : Type 0) : Type 0 where
  pub show_net : N → Text
  pub parse_net : Text → Option N

-- A network whose host bits were set, and what it was cleared to.
pub record HostBitsCleared (N : Type 0) : Type 0 where
  pub given : N
  pub canonical : N

module _ {N : Type 0} (texts : NetText N) where
  unfoldable pub spec : BypassLink N → Text
  spec link =
      texts.show_net link.anchor
      ++ text "="
      ++ join (text ",") (map texts.show_net (prefixes link.bypass))

  unfoldable pub reason : LinkError N → Message
  reason (syntax spec) =
      plain (text "invalid link ")
      ∷ quoted spec
      ∷ plain (
          text
            ": expected <anchor>=<prefix>[,<prefix>...], for example 10.66.77.0/24=192.168.188.1/32")
      ∷ []
  reason (cidr spec value) =
      plain (text "invalid CIDR ")
      ∷ quoted value
      ∷ plain (text " in link ")
      ∷ quoted spec
      ∷ plain (text " (a single host is written with /32 or /128)")
      ∷ []
  reason too_many_links = plain (text "too many links (at most 32)") ∷ []
  reason (empty anchor) = plain (text "no bypass prefix") ∷ []
  reason (too_many_prefixes anchor) = plain (text "too many bypass prefixes (at most 64)") ∷ []
  reason (anchor_not_in_allowed_ips anchor) =
      plain (text "the anchor ")
      ∷ plain (texts.show_net anchor)
      ∷ plain (
          text
            " is not an AllowedIPs entry; it must be a network the VPN config routes, the LAN the LAN exclusion already takes off the tunnel")
      ∷ []
  reason (same_as_anchor anchor prefix) =
      plain (text "bypass prefix ")
      ∷ plain (texts.show_net prefix)
      ∷ plain (
          text
            " is the anchor itself, which is already kept off the tunnel while the Mac is attached to it")
      ∷ []
  reason (not_in_allowed_ips anchor prefix) =
      plain (texts.show_net prefix)
      ∷ plain (text " is not an AllowedIPs entry, so there is no tunnel route to remove")
      ∷ []
  reason (inside_broader_entry anchor prefix covering) =
      plain (texts.show_net prefix)
      ∷ plain (text " lies inside the broader AllowedIPs entry ")
      ∷ plain (texts.show_net covering)
      ∷ plain
          (text "; taking its own route away does not help, the covering route still captures it")
      ∷ []
  reason (full_tunnel anchor prefix default family) =
      plain (text "AllowedIPs contains ")
      ∷ plain (texts.show_net default)
      ∷ plain (text ", so every ")
      ∷ plain family
      ∷ plain (text " address goes through the tunnel and ")
      ∷ plain (texts.show_net prefix)
      ∷ plain (text " cannot be taken off it")
      ∷ []

  -- `LinkError::anchor`
  unfoldable pub error_anchor : LinkError N → Option N
  error_anchor (syntax _) = none
  error_anchor (cidr _ _) = none
  error_anchor too_many_links = none
  error_anchor (empty anchor) = some anchor
  error_anchor (too_many_prefixes anchor) = some anchor
  error_anchor (anchor_not_in_allowed_ips anchor) = some anchor
  error_anchor (same_as_anchor anchor _) = some anchor
  error_anchor (not_in_allowed_ips anchor _) = some anchor
  error_anchor (inside_broader_entry anchor _ _) = some anchor
  error_anchor (full_tunnel anchor _ _ _) = some anchor

  -- `Display` of an error and of a removed part of a link.
  unfoldable pub show_link_error : LinkError N → Message
  unfolding reason error_anchor
  show_link_error error = elim (error_anchor error) [
    | none ↦ reason error
    | some anchor ↦
        plain (text "link ") ∷ plain (texts.show_net anchor) ∷ plain (text ": ") ∷ reason error
  ]

  unfoldable pub show_removed : Removed N → Message
  unfolding reason
  show_removed removed = elim removed.prefix [
    | some prefix ↦
        plain (text "link ")
        ∷ plain (texts.show_net removed.anchor)
        ∷ plain (text ": dropped prefix ")
        ∷ plain (texts.show_net prefix)
        ∷ plain (text ": ")
        ∷ reason removed.reason
    | none ↦
        plain (text "link ")
        ∷ plain (texts.show_net removed.anchor)
        ∷ plain (text ": dropped: ")
        ∷ reason removed.reason
  ]

  module _ ⦃e : Eq N⦄ (net : IpNetOps N) where
    -- The closure `parse`, with the list that it pushes to.
    unfoldable pub parse_value :
        Text → Text → List (HostBitsCleared N) → Result (LinkError N) (N × List (HostBitsCleared N))
    parse_value spec value cleared = elim (texts.parse_net (trim value)) [
      | none ↦ err (cidr spec (trim value))
      | some given ↦
          let canonical = net.trunc given in
          ok (
            canonical,
            if canonical == given
                then cleared
                else cleared ++ record { given = given; canonical = canonical } ∷ [],
          )
    ]

    -- The loop over the prefixes.
    unfoldable pub parse_values :
        Text
        → List Text
        → List N
        → List (HostBitsCleared N)
        → Result (LinkError N) (List N × List (HostBitsCleared N))
    unfolding parse_value
    parse_values spec [] bypass cleared = ok (bypass, cleared)
    parse_values spec (value ∷ rest) bypass cleared = do
      (prefix, cleared') ← parse_value spec value cleared
      parse_values spec rest (if contains bypass prefix then bypass else bypass ++ prefix ∷ [])
          cleared'

    -- The two halves of the text, at its first `=`.
    unfoldable pub parse_halves :
        Text → Text → Text → Result (LinkError N) (BypassLink N × List (HostBitsCleared N))
    unfolding parse_value parse_values
    parse_halves spec anchor listed = do
      (anchor_net, cleared) ← parse_value spec anchor []
      (bypass, cleared') ←
          parse_values spec (retain (λ value. not (is_empty (trim value))) (split b',' listed)) []
            cleared
      if is_empty bypass then err (syntax spec) else ok (new anchor_net bypass, cleared')

    unfoldable pub parse_link_spec :
        Text → Result (LinkError N) (BypassLink N × List (HostBitsCleared N))
    unfolding split_once parse_halves
    parse_link_spec spec = elim (split_once b'=' spec) [
      | none ↦ err (syntax spec)
      | some (anchor, listed) ↦ parse_halves spec anchor listed
    ]

    -- The entries that can be completed: canonical, each once, and no default route.
    unfoldable pub entries_of : List N → List N → List N
    entries_of entries [] = entries
    entries_of entries (entry ∷ rest) =
        entries_of
          (if ltb 0 (net.prefix_len entry) && not (contains entries entry)
            then entries ++ entry ∷ []
            else entries)
          rest

    unfoldable pub link_completions : Text → List N → List Text
    unfolding entries_of split_once check_anchor check_prefix
    link_completions current allowed_ips =
        let canonical = map net.trunc allowed_ips in
        let entries = entries_of [] canonical in
        elim (split_once b'=' current) [
          | none ↦
              retain (λ candidate. starts_with candidate current)
                (map (λ entry. texts.show_net entry ++ text "=") entries)
          | some (anchor, rest) ↦
              let done : Option Text = (elim (rsplit_once b',' rest) [
                | none ↦ none
                | some (d, _) ↦ some d
              ]) in
              let listed : List Text = (elim done [ none ↦ [] | some d ↦ split b',' d ]) in
              let lead : Text = (elim done [
                | none ↦ anchor ++ text "="
                | some d ↦ anchor ++ text "=" ++ d ++ text ","
              ]) in
              elim (texts.parse_net anchor) [
                | none ↦ []
                | some given ↦
                    if not (is_ok (check_anchor (net.trunc given) canonical))
                    then []
                    else retain (λ candidate. starts_with candidate current)
                        (map (λ entry. lead ++ texts.show_net entry)
                          (retain
                            (λ entry.
                              not (contains listed (texts.show_net entry))
                              && is_ok (check_prefix net (net.trunc given) entry canonical))
                            entries))
              ]
        ]
