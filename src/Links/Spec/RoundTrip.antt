-- ===== src/Links/Spec/RoundTrip.antt =====
-- Printing a link and parsing it again, for src/bypass_links.rs.
use macos_wireguard_daemon.Prelude.{
  ◌≡◌, refl, sym, ap, ◌∙◌, false, not, some, List, [], ◌∷◌, ◌++◌, map, Text, text, ℕ, ℕ_eq, List_eq,
  Eq, ◌==◌, ==_iff, contains, contains-append, is_empty, All, retain, ok, arith, trim, split,
  first_piece, join,
}
use mathlib.Core.List.{append-nil, append_assoc}
use macos_wireguard_daemon.Net.Parse.{split_once}
use macos_wireguard_daemon.Links.Net.{IpNetOps}
use macos_wireguard_daemon.Links.{new}
use macos_wireguard_daemon.Links.Spec.{
  NetText, HostBitsCleared, spec, parse_value, parse_values, parse_halves, parse_link_spec,
}

-- What the crate's texts are like: they parse back, and hold no white space, no `=` and no comma.
pub record IsNetText {N : Type 0} (texts : NetText N) : Type 0 where
  pub parses : (n : N) → texts.parse_net (texts.show_net n) ≡ some n
  pub trimmed : (n : N) → trim (texts.show_net n) ≡ texts.show_net n
  pub written : (n : N) → is_empty (texts.show_net n) ≡ false
  pub no_equals : (n : N) → contains (texts.show_net n) b'=' ≡ false
  pub no_comma : (n : N) → contains (texts.show_net n) b',' ≡ false

split_once-append :
    (c : ℕ) (s t : Text) → contains s c ≡ false → split_once c (s ++ c ∷ t) ≡ some (s, t)
unfolding split_once contains
split_once-append c [] t h = ground (arith, ==_iff c c)
split_once-append c (d ∷ s) t h = ground (arith, h, split_once-append c s t, ==_iff d c)

first_piece-alone : (c : ℕ) (s : Text) → contains s c ≡ false → first_piece c s ≡ (s, [])
unfolding contains
first_piece-alone c [] h = refl
first_piece-alone c (d ∷ s) h = ground (arith, h, first_piece-alone c s, ==_iff d c)

first_piece-append :
    (c : ℕ) (s t : Text) → contains s c ≡ false → first_piece c (s ++ c ∷ t) ≡ (s, split c t)
unfolding contains
first_piece-append c [] t h = ground (arith, ==_iff c c)
first_piece-append c (d ∷ s) t h = ground (arith, h, first_piece-append c s t, ==_iff d c)

split-append : (c : ℕ) (s t : Text) → contains s c ≡ false → split c (s ++ c ∷ t) ≡ s ∷ split c t
split-append c s t h = ap (λ (r : Text × List Text). r.0 ∷ r.1) (first_piece-append c s t h)

module _ {N : Type 0} (texts : NetText N) (is_text : IsNetText texts) where
  join-map :
      (p q : N) (ps : List N)
      → join (text ",") (map texts.show_net (p ∷ q ∷ ps))
        ≡ texts.show_net p ++ b',' ∷ join (text ",") (map texts.show_net (q ∷ ps))
  join-map p q ps =
      append_assoc (texts.show_net p) (text ",") (join (text ",") (map texts.show_net (q ∷ ps)))

  -- A list of printed networks, split at its commas.
  split-join :
      (p : N) (ps : List N)
      → split b',' (join (text ",") (map texts.show_net (p ∷ ps))) ≡ map texts.show_net (p ∷ ps)
  split-join p [] = ground (arith, first_piece-alone b',' (texts.show_net p) (is_text.no_comma p))
  split-join p (q ∷ ps) =
      ap (split b',') (join-map p q ps)
      ∙ split-append b',' (texts.show_net p) (join (text ",") (map texts.show_net (q ∷ ps)))
          (is_text.no_comma p)
      ∙ ap (λ (r : List Text). texts.show_net p ∷ r) (split-join q ps)

  retain-written :
      (ps : List N)
      → retain (λ value. not (is_empty (trim value))) (map texts.show_net ps)
        ≡ map texts.show_net ps
  unfolding retain
  retain-written [] = refl
  retain-written (p ∷ ps) = ground (arith, is_text.trimmed p, is_text.written p, retain-written ps)

  module _ ⦃e : Eq N⦄ (net : IpNetOps N) where
    -- No two are equal.
    abbrev pub IsDistinct : List N → Type 0
    IsDistinct [] = Unit
    IsDistinct (p ∷ ps) = All (λ q. (p == q) ≡ false) ps × IsDistinct ps

    abbrev pub IsTruncated : List N → Type 0
    IsTruncated = All (λ p. net.trunc p ≡ p)

    parse_value_lem :
        (s : Text) (p : N) (cleared : List (HostBitsCleared N))
        → net.trunc p ≡ p
        → parse_value texts net s (texts.show_net p) cleared ≡ ok (p, cleared)
    unfolding parse_value
    parse_value_lem s p cleared h =
        ground (arith, h, is_text.trimmed p, is_text.parses p, ==_iff (net.trunc p) p)

    fresh_lem :
        (bypass : List N) (p : N) (ps : List N)
        → All (λ q. contains bypass q ≡ false) ps
        → All (λ q. (p == q) ≡ false) ps
        → All (λ q. contains (bypass ++ p ∷ []) q ≡ false) ps
    unfolding contains
    fresh_lem bypass p [] h k = tt
    fresh_lem bypass p (q ∷ ps) h k =
        (ground (arith, h.0, k.0, contains-append bypass (p ∷ []) q), fresh_lem bypass p ps h.1 k.1)

    parse_values_lem :
        (s : Text) (ps bypass : List N) (cleared : List (HostBitsCleared N))
        → IsTruncated ps
        → IsDistinct ps
        → All (λ q. contains bypass q ≡ false) ps
        → parse_values texts net s (map texts.show_net ps) bypass cleared
          ≡ ok (bypass ++ ps, cleared)
    unfolding parse_values
    parse_values_lem s [] bypass cleared h d f =
        ap (λ (l : List N). ok (l, cleared)) (sym (append-nil bypass))
    parse_values_lem s (p ∷ ps) bypass cleared h d f = ground (
      arith,
      parse_value_lem s p cleared h.0,
      f.0,
      parse_values_lem s ps (bypass ++ p ∷ []) cleared h.1 d.1 (fresh_lem bypass p ps f.1 d.0),
      append_assoc bypass (p ∷ []) ps,
    )

    empty-fresh : (ps : List N) → All (λ q. contains [] q ≡ false) ps
    unfolding contains
    empty-fresh [] = tt
    empty-fresh (p ∷ ps) = (refl, empty-fresh ps)

    parse_halves_lem :
        (s : Text) (anchor p : N) (ps : List N)
        → net.trunc anchor ≡ anchor
        → IsTruncated (p ∷ ps)
        → IsDistinct (p ∷ ps)
        → parse_halves texts net s
            (texts.show_net anchor)
            (join (text ",") (map texts.show_net (p ∷ ps)))
          ≡ ok (new anchor (p ∷ ps), [])
    unfolding parse_halves
    parse_halves_lem s anchor p ps ha h d =
        rw
          (
            parse_halves,
            parse_value_lem s anchor [] ha,
            split-join p ps,
            retain-written (p ∷ ps),
            parse_values_lem s (p ∷ ps) [] [] h d (empty-fresh (p ∷ ps)),
          )
          refl

    spec_lem :
        (anchor p : N) (ps : List N)
        → spec texts (new anchor (p ∷ ps))
          ≡ texts.show_net anchor ++ b'=' ∷ join (text ",") (map texts.show_net (p ∷ ps))
    unfolding spec
    spec_lem anchor p ps =
        append_assoc (texts.show_net anchor) (text "=")
          (join (text ",") (map texts.show_net (p ∷ ps)))

    split_once-spec :
        (anchor p : N) (ps : List N)
        → split_once b'=' (spec texts (new anchor (p ∷ ps)))
          ≡ some (texts.show_net anchor, join (text ",") (map texts.show_net (p ∷ ps)))
    split_once-spec anchor p ps =
        ap (split_once b'=') (spec_lem anchor p ps)
        ∙ split_once-append b'=' (texts.show_net anchor)
            (join (text ",") (map texts.show_net (p ∷ ps))) (is_text.no_equals anchor)

    parse_link_spec-some :
        (s anchor listed : Text)
        → split_once b'=' s ≡ some (anchor, listed)
        → parse_link_spec texts net s ≡ parse_halves texts net s anchor listed
    unfolding parse_link_spec
    parse_link_spec-some s anchor listed h = rw (h, parse_link_spec) refl

    -- What is printed of a canonical link with a prefix parses to that link, and no host bits are
    -- reported. The conditions are that a network's text parses back and holds no white space, `=` or
    -- comma, that the anchor and the prefixes have no host bits set, and that no prefix is listed
    -- twice.
    pub parse_link_spec-spec :
        (anchor p : N) (ps : List N)
        → net.trunc anchor ≡ anchor
        → IsTruncated (p ∷ ps)
        → IsDistinct (p ∷ ps)
        → parse_link_spec texts net (spec texts (new anchor (p ∷ ps)))
          ≡ ok (new anchor (p ∷ ps), [])
    parse_link_spec-spec anchor p ps ha h d =
        parse_link_spec-some _ _ _ (split_once-spec anchor p ps)
        ∙ parse_halves_lem (spec texts (new anchor (p ∷ ps))) anchor p ps ha h d
