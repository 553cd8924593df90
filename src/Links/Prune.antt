-- ===== src/Links/Prune.antt =====
-- `prune_links` of src/bypass_links.rs.
use macos_wireguard_daemon.Prelude.{
  ◌≡◌, refl, ◌↔◌, true, List, [], ◌∷◌, ◌++◌, map, arith, Eq, All, contains, is_empty, some, none,
  ok, err, inl, inr, Bool-cases, All-append, if◌then◌else◌,
}
use macos_wireguard_daemon.Links.Net.{IpNetOps}
use macos_wireguard_daemon.Links.{
  BypassLink, LinkError, Removed, Pruned, new, prefixes, check_anchor, check_prefix, canonical_link,
  empty,
}
use macos_wireguard_daemon.Links.Check.{IsBypassable, IsSupported, AllValid, check_prefix_iff}

module _ {N : Type 0} ⦃e : Eq N⦄ (net : IpNetOps N) where
  -- The inner loop: the prefixes kept, and those removed with the reason.
  unfoldable pub prune_prefixes : N → List N → List N → List N × List (Removed N)
  prune_prefixes anchor allowed [] = ([], [])
  prune_prefixes anchor allowed (prefix ∷ rest) =
      let (kept, removed) = prune_prefixes anchor allowed rest in
      elim (check_prefix net anchor prefix allowed) [
        | ok _ ↦ (prefix ∷ kept, removed)
        | err reason ↦
            (kept, record { anchor = anchor; prefix = some prefix; reason = reason } ∷ removed)
      ]

  whole_link : N → LinkError N → Removed N
  whole_link anchor reason = record { anchor = anchor; prefix = none; reason = reason }

  -- One round of the loop over the canonical links.
  unfoldable pub prune_link : BypassLink N → List N → Pruned N
  unfolding prune_prefixes whole_link
  prune_link link allowed = elim (check_anchor link.anchor allowed) [
    | err reason ↦ record { links = []; removed = whole_link link.anchor reason ∷ [] }
    | ok _ ↦
        let (kept, removed) = prune_prefixes link.anchor allowed (prefixes link.bypass) in
        if is_empty kept
        then record {
          links = [];
          removed = removed ++ whole_link link.anchor (empty link.anchor) ∷ [];
        }
        else record { links = new link.anchor kept ∷ []; removed = removed }
  ]

  unfoldable pub prune_canonical : List (BypassLink N) → List N → Pruned N
  prune_canonical [] allowed = record { links = []; removed = [] }
  prune_canonical (link ∷ links) allowed =
      let first = prune_link (canonical_link net link) allowed in
      let rest = prune_canonical links allowed in
      record { links = first.links ++ rest.links; removed = first.removed ++ rest.removed }

  unfoldable pub prune_links : List (BypassLink N) → List N → Pruned N
  unfolding prune_canonical
  prune_links links allowed_ips = prune_canonical links (map net.trunc allowed_ips)

  -- Exactly the bypassable prefixes are kept.
  kept_iff :
      (anchor : N) (allowed ps : List N) (prefix : N)
      → (contains (prune_prefixes anchor allowed ps).0 prefix ≡ true)
        ↔ ((contains ps prefix ≡ true) × IsBypassable net anchor prefix allowed)
  unfolding contains prune_prefixes
  kept_iff anchor allowed [] prefix = ((λ h. cc), λ h. cc)
  kept_iff anchor allowed (p ∷ ps) prefix = elim (e.dec p prefix) [
    | yes q ↦ rw (← q) (
        let here = check_prefix_iff net anchor p allowed in
        let rest = kept_iff anchor allowed ps p in
        ((λ h. ground (arith, here, rest)), λ h. ground (arith, here, rest)))
    | no q ↦
        let here = check_prefix_iff net anchor p allowed in
        let rest = kept_iff anchor allowed ps prefix in
        ((λ h. ground (arith, here, rest)), λ h. ground (arith, here, rest))
  ]

  prune_link-IsSupported :
      (link : BypassLink N) (allowed : List N)
      → All (λ l. IsSupported net l allowed) (prune_link link allowed).links
  unfolding prune_link check_anchor
  prune_link-IsSupported link allowed = elim (Bool-cases (contains allowed link.anchor)) [
    | inr q ↦ rw (q, prune_link) tt
    | inl q ↦ elim (Bool-cases (is_empty kept)) [
      | inl none_left ↦ rw (q, prune_link, none_left) tt
      | inr some_left ↦
          rw (q, prune_link, some_left)
            (
              record {
                not_empty = λ z. ground arith;
                anchored = q;
                bypassable = λ p m. ((kept_iff link.anchor allowed ps p).0 m).1;
              },
              tt,
            )
    ]
  ]
    where
      ps : List N
      ps = prefixes link.bypass

      kept : List N
      kept = (prune_prefixes link.anchor allowed ps).0

  prune_canonical-IsSupported :
      (links : List (BypassLink N)) (allowed : List N)
      → All (λ l. IsSupported net l allowed) (prune_canonical links allowed).links
  unfolding prune_canonical
  prune_canonical-IsSupported [] allowed = tt
  prune_canonical-IsSupported (link ∷ links) allowed =
      All-append _ (prune_link (canonical_link net link) allowed).links _
        (prune_link-IsSupported (canonical_link net link) allowed)
        (prune_canonical-IsSupported links allowed)

  -- Every link that pruning leaves is supported by the new AllowedIPs: it has a prefix, its anchor
  -- is an entry, and each of its prefixes is bypassable.
  pub prune_links-IsSupported :
      (links : List (BypassLink N)) (allowed_ips : List N)
      → All
          (λ l. IsSupported net l (map net.trunc allowed_ips))
          (prune_links links allowed_ips).links
  unfolding prune_links
  prune_links-IsSupported links allowed_ips =
      prune_canonical-IsSupported links (map net.trunc allowed_ips)

  keep_all :
      (anchor : N) (allowed ps : List N)
      → ((p : N) → contains ps p ≡ true → IsBypassable net anchor p allowed)
      → prune_prefixes anchor allowed ps ≡ (ps, [])
  unfolding prune_prefixes contains
  keep_all anchor allowed [] h = refl
  keep_all anchor allowed (p ∷ ps) h =
      let here = (check_prefix_iff net anchor p allowed).1 (h p (ground arith)) in
      let rest = keep_all anchor allowed ps (λ q m. h q (ground arith)) in
      ground (arith, here, rest)

  prune_link-valid :
      (link : BypassLink N) (allowed : List N)
      → IsSupported net link allowed
      → prune_link link allowed ≡ record { links = link ∷ []; removed = [] }
  unfolding prune_link check_anchor
  prune_link-valid link allowed h =
      ground (arith, keep_all link.anchor allowed (prefixes link.bypass) h.bypassable)

  keep_valid :
      (links : List (BypassLink N)) (allowed : List N)
      → AllValid net links allowed
      → prune_canonical links allowed
        ≡ record { links = map (canonical_link net) links; removed = [] }
  unfolding prune_canonical
  keep_valid [] allowed h = refl
  keep_valid (link ∷ links) allowed h = ground (
    arith,
    prune_link-valid (canonical_link net link) allowed h.0.supported,
    keep_valid links allowed h.1,
  )

  -- Links that are all valid lose nothing.
  pub prune_links_keeps_valid :
      (links : List (BypassLink N)) (allowed_ips : List N)
      → AllValid net links (map net.trunc allowed_ips)
      → prune_links links allowed_ips
        ≡ record { links = map (canonical_link net) links; removed = [] }
  unfolding prune_links
  prune_links_keeps_valid links allowed_ips h = keep_valid links (map net.trunc allowed_ips) h
