-- ===== src/Links.antt =====
-- src/bypass_links.rs: LAN bypass links, their validation, pruning and merging.
--
-- `IpNet` comes from the crate `ipnet`: the type, its equality and its operations are parameters.
pub mod Net
pub mod Check
pub mod Prune
pub mod Merge
pub mod Spec
use macos_wireguard_daemon.Prelude.{
  ℕ, suc, zero, ◌+◌, Bool, true, false, ◌&&◌, Option, none, some, List, [], ◌∷◌, ◌++◌, map, Text,
  text, ltb, leb, Eq, ◌==◌, ℕ_eq, Bool_eq, if◌then◌else◌, find, retain, any, contains, length,
  is_empty, Result, ok, err,
}
use macos_wireguard_daemon.Prelude.Results.{◌>>=◌, ◌>>◌}
use macos_wireguard_daemon.Net.Parse.{is_ipv4}
use Net.{IpNetOps}

abbrev pub max_links : ℕ
max_links = 32

abbrev pub max_prefixes_per_link : ℕ
max_prefixes_per_link = 64

pub data BypassTargets (N : Type 0) : Type 0 where
  prefixes_of : List N → BypassTargets N

pub record BypassLink (N : Type 0) : Type 0 where
  pub anchor : N
  pub bypass : BypassTargets N

pub data LinkError (N : Type 0) : Type 0 where
  syntax : Text → LinkError N
  cidr : Text → Text → LinkError N
  empty : N → LinkError N
  too_many_links : LinkError N
  too_many_prefixes : N → LinkError N
  anchor_not_in_allowed_ips : N → LinkError N
  same_as_anchor : N → N → LinkError N
  not_in_allowed_ips : N → N → LinkError N
  inside_broader_entry : N → N → N → LinkError N
  full_tunnel : N → N → N → Text → LinkError N

pub record LinkReport (N : Type 0) : Type 0 where
  pub valid : List (BypassLink N)
  pub invalid : List (BypassLink N × LinkError N)

pub record Removed (N : Type 0) : Type 0 where
  pub anchor : N
  pub prefix : Option N
  pub reason : LinkError N

pub record Pruned (N : Type 0) : Type 0 where
  pub links : List (BypassLink N)
  pub removed : List (Removed N)

module _ {N : Type 0} where
  abbrev pub prefixes : BypassTargets N → List N
  prefixes (prefixes_of ps) = ps

  -- `BypassLink::new`
  abbrev pub new : N → List N → BypassLink N
  new anchor bypass = record { anchor = anchor; bypass = prefixes_of bypass }

module _ {N : Type 0} (net : IpNetOps N) where
  -- `BypassTargets::matches`
  unfoldable pub matches : BypassTargets N → N → Bool
  matches (prefixes_of ps) destination = any (λ prefix. net.contains prefix destination) ps

module _ {N : Type 0} ⦃e : Eq N⦄ where
  unfoldable pub check_anchor : N → List N → Result (LinkError N) (Unit {0})
  check_anchor anchor allowed =
      if contains allowed anchor then ok tt else err (anchor_not_in_allowed_ips anchor)

  -- Canonical prefixes, each listed once, in the order of their first occurrence.
  unfoldable pub push_new : List N → List N → List N
  push_new bypass [] = bypass
  push_new bypass (prefix ∷ rest) =
      push_new (if contains bypass prefix then bypass else bypass ++ prefix ∷ []) rest

module _ {N : Type 0} ⦃e : Eq N⦄ (net : IpNetOps N) where
  unfoldable pub canonical_link : BypassLink N → BypassLink N
  unfolding push_new
  canonical_link link =
      new (net.trunc link.anchor) (push_new [] (map net.trunc (prefixes link.bypass)))

  abbrev pub same_family : N → N → Bool
  same_family prefix entry = is_ipv4 (net.addr entry) == is_ipv4 (net.addr prefix)

  -- The first entry of the prefix's family with length 0.
  abbrev pub default_of : N → List N → Option N
  default_of prefix allowed =
      find (λ entry. net.prefix_len entry == 0) (retain (same_family prefix) allowed)

  -- The first strictly shorter entry of the prefix's family that contains it.
  abbrev pub covering_of : N → List N → Option N
  covering_of prefix allowed =
      find
        (λ entry. ltb (net.prefix_len entry) (net.prefix_len prefix) && net.contains entry prefix)
        (retain (same_family prefix) allowed)

  abbrev family_name : N → Text
  family_name prefix = if is_ipv4 (net.addr prefix) then text "IPv4" else text "IPv6"

  unfoldable pub check_prefix : N → N → List N → Result (LinkError N) (Unit {0})
  check_prefix anchor prefix allowed =
      if prefix == anchor
      then err (same_as_anchor anchor prefix)
      else elim (default_of prefix allowed) [
        | some default ↦ err (full_tunnel anchor prefix default (family_name prefix))
        | none ↦ elim (covering_of prefix allowed) [
          | some covering ↦ err (inside_broader_entry anchor prefix covering)
          | none ↦ if contains allowed prefix then ok tt else err (not_in_allowed_ips anchor prefix)
        ]
      ]

  unfoldable pub check_prefixes : N → List N → List N → Result (LinkError N) (Unit {0})
  check_prefixes anchor [] allowed = ok tt
  check_prefixes anchor (prefix ∷ rest) allowed =
      check_prefix anchor prefix allowed >> check_prefixes anchor rest allowed

  unfoldable pub check_link : BypassLink N → List N → Result (LinkError N) (Unit {0})
  check_link link allowed =
      let ps = prefixes link.bypass in
      if is_empty ps
      then err (empty link.anchor)
      else if ltb max_prefixes_per_link (length ps)
      then err (too_many_prefixes link.anchor)
      else (check_anchor link.anchor allowed >> check_prefixes link.anchor ps allowed)

  unfoldable pub check_links_from :
      ℕ → List (BypassLink N) → List N → List (BypassLink N × Result (LinkError N) (Unit {0}))
  check_links_from index [] allowed = []
  check_links_from index (link ∷ rest) allowed =
      let canonical = canonical_link link in
      (canonical, if leb max_links index then err too_many_links else check_link canonical allowed)
      ∷ check_links_from (suc index) rest allowed

  unfoldable pub check_links :
      List (BypassLink N) → List N → List (BypassLink N × Result (LinkError N) (Unit {0}))
  unfolding check_links_from
  check_links links allowed_ips = check_links_from 0 links (map net.trunc allowed_ips)

  -- The split of `validate_links`.
  unfoldable pub split_report : List (BypassLink N × Result (LinkError N) (Unit {0})) → LinkReport N
  split_report [] = record { valid = []; invalid = [] }
  split_report ((link, verdict) ∷ rest) =
      let report = split_report rest in
      elim verdict [
        | ok _ ↦ record report { valid = link ∷ report.valid }
        | err error ↦ record report { invalid = (link, error) ∷ report.invalid }
      ]

  unfoldable pub validate_links : List (BypassLink N) → List N → LinkReport N
  unfolding check_links split_report
  validate_links links allowed_ips = split_report (check_links links allowed_ips)

  unfoldable pub validate_links_strict :
      List (BypassLink N) → List N → Result (LinkError N) (List (BypassLink N))
  unfolding validate_links
  validate_links_strict links allowed_ips =
      let report = validate_links links allowed_ips in
      elim report.invalid [ (_, error) ∷ _ ↦ err error | [] ↦ ok report.valid ]
