-- ===== src/Examples/Linking.antt =====
-- The theorems on networks and bypass links, at concrete ones.
use macos_wireguard_daemon.Prelude.{
  ◌≡◌, refl, ◌↔◌, ◌≤◌, true, ◌||◌, List, [], ◌∷◌, map, All, find, retain, arith, contains, length,
  ok, ℕ_discrete,
}
use macos_wireguard_daemon.Net.{
  Subnet, Subnet_eq, Subnet_dec, macos_network_base, masked, macos_subnet_contains,
}
use macos_wireguard_daemon.Net.Parse.{IpAddr, IpAddr_dec}
use macos_wireguard_daemon.Net.Blocks.{IsAddress, InSubnet, macos_subnet_contains_iff}
use macos_wireguard_daemon.Links.{
  BypassLink, new, max_links, check_prefix, check_link, check_anchor, check_prefixes,
  validate_links_strict, canonical_link,
}
use macos_wireguard_daemon.Links.Check.{
  IsBypassable, IsValidLink, AllValid, IsSupported, check_prefix_iff, check_link_iff,
  validate_links_strict_iff,
}
use macos_wireguard_daemon.Links.Prune.{
  prune_links, prune_links-IsSupported, prune_links_keeps_valid,
}
use macos_wireguard_daemon.Links.Merge.{mentions, merge_links, merge_links-union}
use macos_wireguard_daemon.Examples.Networks.{networks, site, lan, office}

macos_subnet_contains_iff_example :
    (macos_subnet_contains office lan ≡ true)
    ↔ ((16 ≤ 24) × ((a : IpAddr) → IsAddress a → InSubnet a lan → InSubnet a office))
macos_subnet_contains_iff_example = macos_subnet_contains_iff office lan (omega arith) (omega arith)

abbrev allowed : List Subnet
allowed = site ∷ office ∷ []

abbrev link : BypassLink Subnet
link = new site (office ∷ [])

check_prefix_iff_example :
    (check_prefix networks site office allowed ≡ ok tt) ↔ IsBypassable networks site office allowed
check_prefix_iff_example = check_prefix_iff networks site office allowed

check_link_iff_example :
    (check_link networks link allowed ≡ ok tt) ↔ IsValidLink networks link allowed
check_link_iff_example = check_link_iff networks link allowed

validate_links_strict_iff_example :
    (validate_links_strict networks (link ∷ []) allowed ≡ ok (link ∷ [])) ↔ (
      (length (link ∷ []) ≤ max_links)
      × AllValid networks (link ∷ []) (map networks.trunc allowed)
      × (link ∷ [] ≡ map (canonical_link networks) (link ∷ [])))
validate_links_strict_iff_example =
    validate_links_strict_iff networks (link ∷ []) (link ∷ []) allowed

prune_links-IsSupported_example :
    All
      (λ l. IsSupported networks l (map networks.trunc (lan ∷ site ∷ [])))
      (prune_links networks (link ∷ []) (lan ∷ site ∷ [])).links
prune_links-IsSupported_example = prune_links-IsSupported networks (link ∷ []) (lan ∷ site ∷ [])

merge_links-union_example :
    mentions site lan (merge_links networks (link ∷ []) (new site (lan ∷ []) ∷ [])) ≡ (
      mentions site lan (map (canonical_link networks) (link ∷ []))
      || mentions site lan (map (canonical_link networks) (new site (lan ∷ []) ∷ [])))
merge_links-union_example =
    merge_links-union networks site lan (link ∷ []) (new site (lan ∷ []) ∷ [])

-- The link is valid, since the validation answers that it is.
link-AllValid : AllValid networks (link ∷ []) (map networks.trunc allowed)
unfolding validate_links_strict check_prefix check_link masked macos_subnet_contains
    macos_network_base ℕ_discrete canonical_link contains check_anchor Subnet_dec check_prefixes
    find retain IpAddr_dec
link-AllValid = ((validate_links_strict_iff networks (link ∷ []) (link ∷ []) allowed).0 refl).1

prune_links_keeps_valid_example :
    prune_links networks (link ∷ []) allowed
    ≡ record { links = map (canonical_link networks) (link ∷ []); removed = [] }
prune_links_keeps_valid_example = prune_links_keeps_valid networks (link ∷ []) allowed link-AllValid
