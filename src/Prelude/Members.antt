-- ===== src/Prelude/Members.antt =====
-- Membership, searches and filters.
use mathlib.Core.Path.{◌≡◌, refl}
use mathlib.Core.Bool.{Bool, true, false, ◌&&◌, ◌||◌}
use mathlib.Core.Option.{Option, none, some}
use mathlib.Core.List.{List, [], ◌∷◌, ◌++◌, map}
use native.Mathlib.Omega.{arith}
use macos_wireguard_daemon.Prelude.Tests.{Eq, ◌==◌, ==_refl, Option-cases, Bool-cases}
use macos_wireguard_daemon.Prelude.Options.{find_map}
use mathlib.Core.Logic.{inl, inr}
use macos_wireguard_daemon.Prelude.Lists.{All, find, any, retain, contains}

module _ {ℓ} {A : Type ℓ} ⦃e : Eq A⦄ where
  pub contains-append :
      (xs ys : List A) (a : A) → contains (xs ++ ys) a ≡ (contains xs a || contains ys a)
  unfolding contains
  contains-append [] ys a = refl
  contains-append (x ∷ xs) ys a = ground (arith, contains-append xs ys a)

  pub contains-retain :
      (p : A → Bool) (xs : List A) (a : A) → contains (retain p xs) a ≡ (contains xs a && p a)
  unfolding contains retain
  contains-retain p [] a = refl
  contains-retain p (x ∷ xs) a = ground (arith, contains-retain p xs a)

  pub contains-cons_self : (a : A) (xs : List A) → contains (a ∷ xs) a ≡ true
  unfolding contains
  contains-cons_self a xs = ground (arith, ==_refl a)

  -- A search that finds nothing has tested every member.
  pub find-none :
      (p : A → Bool) (xs : List A) (a : A) → find p xs ≡ none → contains xs a ≡ true → p a ≡ false
  unfolding find contains
  find-none p [] a h m = cc
  find-none p (x ∷ xs) a h m = ground (arith, find-none p xs a)

  pub find-some :
      (p : A → Bool) (xs : List A) (a : A)
      → find p xs ≡ some a
      → (p a ≡ true) × (contains xs a ≡ true)
  unfolding find contains
  find-some p [] a h = cc
  find-some p (x ∷ xs) a h = ground (arith, find-some p xs a)

  pub find-eq-none :
      (p : A → Bool) (xs : List A)
      → ((a : A) → contains xs a ≡ true → p a ≡ false)
      → find p xs ≡ none
  unfolding find contains
  find-eq-none p [] h = refl
  find-eq-none p (x ∷ xs) h =
      ground (arith, h x, ==_refl x, find-eq-none p xs (λ a m. h a (ground arith)))

  pub any-true :
      (p : A → Bool) (xs : List A) (a : A) → contains xs a ≡ true → p a ≡ true → any p xs ≡ true
  unfolding any contains
  any-true p [] a m h = cc
  any-true p (x ∷ xs) a m h = ground (arith, any-true p xs a)

  pub any-false :
      (p : A → Bool) (xs : List A) (a : A) → any p xs ≡ false → contains xs a ≡ true → p a ≡ false
  unfolding any contains
  any-false p [] a h m = cc
  any-false p (x ∷ xs) a h m = ground (arith, any-false p xs a)

pub All-append {ℓ κ} :
    {A : Type ℓ} (P : A → Type κ) (xs ys : List A) → All P xs → All P ys → All P (xs ++ ys)
All-append P [] ys h k = k
All-append P (x ∷ xs) ys h k = (h.0, All-append P xs ys h.1 k)

pub any-append {ℓ} :
    {A : Type ℓ} (p : A → Bool) (xs ys : List A) → any p (xs ++ ys) ≡ (any p xs || any p ys)
unfolding any
any-append p [] ys = refl
any-append p (x ∷ xs) ys = ground (arith, any-append p xs ys)

-- The closure that tests for one element is membership.
pub any-is {ℓ} :
    {A : Type ℓ} ⦃e : Eq A⦄ → (a : A) (xs : List A) → any (λ x. x == a) xs ≡ contains xs a
unfolding any contains
any-is a [] = refl
any-is a (x ∷ xs) = ground (arith, any-is a xs)

-- A search by `find_map` finds nothing where no member gives a value.
pub find_map-none {ℓ κ} :
    {A : Type ℓ} {B : Type κ} ⦃e : Eq A⦄
    → (f : A → Option B) (xs : List A) (a : A) → find_map f xs ≡ none
    → contains xs a ≡ true
    → f a ≡ none
unfolding find_map contains
find_map-none f [] a h m = cc
find_map-none f (x ∷ xs) a h m = ground (arith, find_map-none f xs a)

-- What a search by `find_map` finds comes from a member.
pub find_map-some {ℓ κ} :
    {A : Type ℓ} {B : Type κ} ⦃e : Eq A⦄
    → (f : A → Option B) (xs : List A) (b : B) → find_map f xs ≡ some b
    → (a : A) × (contains xs a ≡ true) × (f a ≡ some b)
unfolding find_map contains
find_map-some f [] b h = cc
find_map-some f (x ∷ xs) b h = elim (Option-cases (f x)) [
  | inl n ↦
      let (a, m, q) = find_map-some f xs b (rw (n, find_map) at h) in (a, ground (arith, m), q)
  | inr (c, q) ↦ (x, ground (arith, ==_refl x), ground (arith, q, h))
]

module _ {ℓ} {A : Type ℓ} where
  pub find-append :
      (p : A → Bool) (xs ys : List A)
      → find p (xs ++ ys) ≡ elim (find p xs) [ none ↦ find p ys | some a ↦ some a ]
  unfolding find
  find-append p [] ys = refl
  find-append p (x ∷ xs) ys = ground (arith, find-append p xs ys)

-- Being an element, for types whose values the program does not compare.
pub data Within {ℓ} {A : Type ℓ} (a : A) : List A → Type ℓ where
  first : {xs : List A} → Within a (a ∷ xs)
  later : {x : A} {xs : List A} → Within a xs → Within a (x ∷ xs)

module _ {ℓ κ} {A : Type ℓ} (P : A → Type κ) where
  pub All-Within : (xs : List A) → ((a : A) → Within a xs → P a) → All P xs
  All-Within [] h = tt
  All-Within (x ∷ xs) h = (h x first, All-Within xs (λ a m. h a (later m)))

  pub All-map {μ} :
      {B : Type μ} (f : B → A) (bs : List B) → ((b : B) → Within b bs → P (f b)) → All P (map f bs)
  All-map f [] h = tt
  All-map f (b ∷ bs) h = (h b first, All-map f bs (λ c m. h c (later m)))

  pub within-All : {a : A} {xs : List A} → Within a xs → All P xs → P a
  within-All first h = h.0
  within-All (later m) h = within-All m h.1

pub any-Within {ℓ} :
    {A : Type ℓ} (p : A → Bool) (xs : List A)
    → any p xs ≡ true
    → (a : A) × Within a xs × (p a ≡ true)
unfolding any
any-Within p [] h = cc
any-Within p (x ∷ xs) h = elim (Bool-cases (p x)) [
  | inl q ↦ (x, first, q)
  | inr q ↦ let (a, m, k) = any-Within p xs (ground (arith, q)) in (a, later m, k)
]

module _ {ℓ} {A : Type ℓ} where
  pub Within-left : {a : A} (xs ys : List A) → Within a xs → Within a (xs ++ ys)
  Within-left [] ys m = elim m [ ]
  Within-left (x ∷ xs) ys first = first
  Within-left (x ∷ xs) ys (later m) = later (Within-left xs ys m)

  pub Within-right : {a : A} (xs ys : List A) → Within a ys → Within a (xs ++ ys)
  Within-right [] ys m = m
  Within-right (x ∷ xs) ys m = later (Within-right xs ys m)

  pub Within-retain :
      {a : A} (p : A → Bool) (xs : List A) → Within a xs → p a ≡ true → Within a (retain p xs)
  unfolding retain
  Within-retain p [] m h = elim m [ ]
  Within-retain p (x ∷ xs) first h = rw h first
  Within-retain p (x ∷ xs) (later m) h = elim (Bool-cases (p x)) [
    | inl q ↦ rw q (later (Within-retain p xs m h))
    | inr q ↦ rw q (Within-retain p xs m h)
  ]

pub Within-map {ℓ κ} :
    {A : Type ℓ} {B : Type κ} (f : A → B) {a : A} (xs : List A)
    → Within a xs
    → Within (f a) (map f xs)
Within-map f [] m = elim m [ ]
Within-map f (x ∷ xs) first = first
Within-map f (x ∷ xs) (later m) = later (Within-map f xs m)
