-- ===== src/Links/Check.antt =====
-- `check_prefix`, `check_link` and `validate_links` of src/bypass_links.rs against what a valid link
-- is.
use macos_wireguard_daemon.Prelude.{
  ℕ, suc, ◌≤◌, ◌<◌, ◌-◌, ◌≡◌, refl, ◌↔◌, ◌≢◌, true, List, [], ◌∷◌, map, arith, Eq, ℕ_eq, Bool_eq,
  contains, contains-retain, find-none, find-eq-none, none, length, ok,
}
use macos_wireguard_daemon.Links.Net.{IpNetOps}
use macos_wireguard_daemon.Links.{
  BypassLink, prefixes, check_anchor, check_prefix, check_prefixes, check_link, same_family,
  default_of, covering_of, max_prefixes_per_link, max_links, split_report, validate_links,
  validate_links_strict, check_links, check_links_from, canonical_link,
}

module _ {N : Type 0} ⦃e : Eq N⦄ (net : IpNetOps N) where
  -- No AllowedIPs entry of the prefix's family keeps capturing it once its own route is gone.
  abbrev pub IsUncovered : N → List N → Type 0
  IsUncovered prefix allowed =
      (entry : N)
      → contains allowed entry ≡ true
      → same_family net prefix entry ≡ true
      → (net.prefix_len entry ≢ 0)
        × ¬ ((net.prefix_len entry < net.prefix_len prefix) × (net.contains entry prefix ≡ true))

  pub record IsBypassable (anchor prefix : N) (allowed : List N) : Type 0 where
    pub not_anchor : prefix ≢ anchor
    pub listed : contains allowed prefix ≡ true
    pub uncovered : IsUncovered prefix allowed

  IsUncovered-of_searches :
      (prefix : N) (allowed : List N)
      → default_of net prefix allowed ≡ none
      → covering_of net prefix allowed ≡ none
      → IsUncovered prefix allowed
  IsUncovered-of_searches prefix allowed d c entry m f =
      let m' = contains-retain (same_family net prefix) allowed entry in
      ground (arith, m', find-none _ _ entry d, find-none _ _ entry c)

  searches_of_uncovered :
      (prefix : N) (allowed : List N)
      → IsUncovered prefix allowed
      → (default_of net prefix allowed ≡ none) × (covering_of net prefix allowed ≡ none)
  searches_of_uncovered prefix allowed h = (
    find-eq-none _ _ (λ entry m.
        ground (arith, contains-retain (same_family net prefix) allowed entry, h entry)),
    find-eq-none _ _ (λ entry m.
        ground (arith, contains-retain (same_family net prefix) allowed entry, h entry)),
  )

  -- A prefix is accepted exactly when it is not the anchor, is an AllowedIPs entry, and no entry of
  -- its family is a default route or a strictly shorter entry that contains it.
  pub check_prefix_iff :
      (anchor prefix : N) (allowed : List N)
      → (check_prefix net anchor prefix allowed ≡ ok tt) ↔ IsBypassable anchor prefix allowed
  unfolding check_prefix
  check_prefix_iff anchor prefix allowed = (
    (λ h. record {
      not_anchor = ground arith;
      listed = ground arith;
      uncovered = IsUncovered-of_searches prefix allowed (ground arith) (ground arith);
    }),
    λ h. ground (arith, searches_of_uncovered prefix allowed h.uncovered),
  )

  -- The AllowedIPs support the link.
  pub record IsSupported (link : BypassLink N) (allowed : List N) : Type 0 where
    pub not_empty : prefixes link.bypass ≢ []
    pub anchored : contains allowed link.anchor ≡ true
    pub bypassable :
        (prefix : N)
        → contains (prefixes link.bypass) prefix ≡ true
        → IsBypassable link.anchor prefix allowed

  pub record IsValidLink (link : BypassLink N) (allowed : List N) : Type 0 where
    pub supported : IsSupported link allowed
    pub few : length (prefixes link.bypass) ≤ max_prefixes_per_link

  check_prefixes-ok :
      (anchor : N) (ps allowed : List N)
      → check_prefixes net anchor ps allowed ≡ ok tt
      → (prefix : N) → contains ps prefix ≡ true
      → IsBypassable anchor prefix allowed
  unfolding check_prefixes contains
  check_prefixes-ok anchor [] allowed h prefix m = cc
  check_prefixes-ok anchor (p ∷ ps) allowed h prefix m = elim (e.dec p prefix) [
    | yes q ↦ rw (← q) ((check_prefix_iff anchor p allowed).0 (ground arith))
    | no q ↦ check_prefixes-ok anchor ps allowed (ground arith) prefix (ground arith)
  ]

  ok_of-bypassable :
      (anchor : N) (ps allowed : List N)
      → ((prefix : N) → contains ps prefix ≡ true → IsBypassable anchor prefix allowed)
      → check_prefixes net anchor ps allowed ≡ ok tt
  unfolding check_prefixes contains
  ok_of-bypassable anchor [] allowed h = refl
  ok_of-bypassable anchor (p ∷ ps) allowed h =
      rw ((check_prefix_iff anchor p allowed).1 (h p (ground arith)))
        (ok_of-bypassable anchor ps allowed (λ q m. h q (ground arith)))

  -- A link is accepted exactly when its anchor is an AllowedIPs entry and it has between 1 and 64
  -- prefixes, all of them bypassable.
  pub check_link_iff :
      (link : BypassLink N) (allowed : List N)
      → (check_link net link allowed ≡ ok tt) ↔ IsValidLink link allowed
  unfolding check_link check_anchor
  check_link_iff link allowed = (
    (λ h. record {
      supported = record {
        not_empty = λ q. ground arith;
        anchored = ground arith;
        bypassable = check_prefixes-ok link.anchor (prefixes link.bypass) allowed (ground arith);
      };
      few = ground arith;
    }),
    λ h.
        ground (
          arith,
          ok_of-bypassable link.anchor (prefixes link.bypass) allowed h.supported.bypassable,
        ),
  )

  -- Every link of the list is valid once it is canonical.
  abbrev pub AllValid : List (BypassLink N) → List N → Type 0
  AllValid [] allowed = Unit
  AllValid (link ∷ rest) allowed =
      IsValidLink (canonical_link net link) allowed × AllValid rest allowed

  report_lem :
      (index : ℕ) (links : List (BypassLink N)) (allowed : List N)
      → let report = split_report net (check_links_from net index links allowed) in
        report.invalid ≡ []
        → (length links ≤ max_links - index)
          × AllValid links allowed
          × (report.valid ≡ map (canonical_link net) links)
  unfolding split_report check_links_from
  report_lem index [] allowed h = (omega arith, tt, refl)
  report_lem index (link ∷ rest) allowed h =
      ground (
        arith,
        report_lem (suc index) rest allowed,
        check_link_iff (canonical_link net link) allowed,
      )

  report_of-valid :
      (index : ℕ) (links : List (BypassLink N)) (allowed : List N)
      → length links ≤ max_links - index
      → AllValid links allowed
      → split_report net (check_links_from net index links allowed)
        ≡ record { valid = map (canonical_link net) links; invalid = [] }
  unfolding split_report check_links_from
  report_of-valid index [] allowed h v = refl
  report_of-valid index (link ∷ rest) allowed h v = ground (
    arith,
    report_of-valid (suc index) rest allowed,
    check_link_iff (canonical_link net link) allowed,
  )

  -- `connection config` stores links exactly when there are at most 32 and each is valid against the
  -- canonical AllowedIPs; it stores all of them in canonical form.
  pub validate_links_strict_iff :
      (links out : List (BypassLink N)) (allowed_ips : List N)
      → (validate_links_strict net links allowed_ips ≡ ok out) ↔ (
          (length links ≤ max_links)
          × AllValid links (map net.trunc allowed_ips)
          × (out ≡ map (canonical_link net) links))
  unfolding validate_links_strict validate_links check_links
  validate_links_strict_iff links out allowed_ips = (
    (λ h. ground (arith, report_lem 0 links (map net.trunc allowed_ips))),
    λ h. ground (arith, report_of-valid 0 links (map net.trunc allowed_ips)),
  )
