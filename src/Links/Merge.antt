-- ===== src/Links/Merge.antt =====
-- `merge_links` of src/bypass_links.rs and the prefixes that the links have at each anchor.
use macos_wireguard_daemon.Prelude.{
  ◌≡◌, Bool, ◌&&◌, ◌||◌, List, [], ◌∷◌, ◌++◌, map, arith, Eq, ◌==◌, ==_iff, contains,
  contains-append, any, if◌then◌else◌,
}
use macos_wireguard_daemon.Links.Net.{IpNetOps}
use macos_wireguard_daemon.Links.{BypassLink, new, prefixes, push_new, canonical_link}

module _ {N : Type 0} ⦃e : Eq N⦄ where
  -- One round of the loop: the first link with the anchor takes the prefixes that it lacks; a link
  -- for a new anchor goes at the end.
  unfoldable pub merge_one : List (BypassLink N) → BypassLink N → List (BypassLink N)
  unfolding push_new
  merge_one [] link = link ∷ []
  merge_one (known ∷ rest) link =
      if known.anchor == link.anchor
      then new known.anchor (push_new (prefixes known.bypass) (prefixes link.bypass)) ∷ rest
      else known ∷ merge_one rest link

  unfoldable pub merge_canonical : List (BypassLink N) → List (BypassLink N) → List (BypassLink N)
  unfolding merge_one
  merge_canonical merged [] = merged
  merge_canonical merged (link ∷ added) = merge_canonical (merge_one merged link) added

  -- Some link has this anchor and this prefix.
  unfoldable pub mentions : N → N → List (BypassLink N) → Bool
  mentions anchor prefix =
      any (λ link. link.anchor == anchor && contains (prefixes link.bypass) prefix)

  pub contains-push_new :
      (bypass ps : List N) (p : N)
      → contains (push_new bypass ps) p ≡ (contains bypass p || contains ps p)
  unfolding push_new contains
  contains-push_new bypass [] p = ground arith
  contains-push_new bypass (q ∷ ps) p = ground (
    arith,
    contains-push_new (if contains bypass q then bypass else bypass ++ q ∷ []) ps p,
    contains-append bypass (q ∷ []) p,
  )

  merge_one_lem :
      (anchor prefix : N) (merged : List (BypassLink N)) (link : BypassLink N)
      → mentions anchor prefix (merge_one merged link)
        ≡ (mentions anchor prefix merged || mentions anchor prefix (link ∷ []))
  unfolding merge_one mentions any
  merge_one_lem anchor prefix [] link = ground arith
  merge_one_lem anchor prefix (known ∷ rest) link = ground (
    arith,
    merge_one_lem anchor prefix rest link,
    contains-push_new (prefixes known.bypass) (prefixes link.bypass) prefix,
    ==_iff known.anchor link.anchor,
  )

  merge_canonical_lem :
      (anchor prefix : N) (merged added : List (BypassLink N))
      → mentions anchor prefix (merge_canonical merged added)
        ≡ (mentions anchor prefix merged || mentions anchor prefix added)
  unfolding merge_canonical mentions any
  merge_canonical_lem anchor prefix merged [] = ground arith
  merge_canonical_lem anchor prefix merged (link ∷ added) = ground (
    arith,
    merge_canonical_lem anchor prefix (merge_one merged link) added,
    merge_one_lem anchor prefix merged link,
  )

module _ {N : Type 0} ⦃e : Eq N⦄ (net : IpNetOps N) where
  unfoldable pub merge_links : List (BypassLink N) → List (BypassLink N) → List (BypassLink N)
  unfolding merge_canonical canonical_link
  merge_links stored added =
      merge_canonical (map (canonical_link net) stored) (map (canonical_link net) added)

  -- After a merge, some link has a prefix at an anchor exactly when a stored link or an added link
  -- has it there, each in its canonical form.
  pub merge_links-union :
      (anchor prefix : N) (stored added : List (BypassLink N))
      → mentions anchor prefix (merge_links stored added) ≡ (
          mentions anchor prefix (map (canonical_link net) stored)
          || mentions anchor prefix (map (canonical_link net) added))
  unfolding merge_links
  merge_links-union anchor prefix stored added =
      merge_canonical_lem anchor prefix (map (canonical_link net) stored)
        (map (canonical_link net) added)
