-- ===== src/Prelude/Results.antt =====
-- Rust's `Result` and its `?`.
use mathlib.Core.Path.{◌≡◌, refl, subst}
use mathlib.Core.Logic.{◌⊎◌, inl, inr}
use mathlib.Core.Bool.{Bool, true, false}
use macos_wireguard_daemon.Prelude.Tests.{if◌then◌else◌}

pub data Result {ℓ κ} (E : Type ℓ) (A : Type κ) : Type (ℓ ⊔ κ) where
  ok : A → Result E A
  err : E → Result E A

infixl 5 ◌>>=◌ ◌>>◌
abbrev pub ◌>>=◌ {ℓ κ} : {E A : Type ℓ} {B : Type κ} → Result E A → (A → Result E B) → Result E B
ok a >>= f = f a
err e >>= f = err e

abbrev pub ◌>>◌ {ℓ κ} : {E A : Type ℓ} {B : Type κ} → Result E A → Result E B → Result E B
m >> k = m >>= λ _. k

module _ {ℓ κ} {E : Type ℓ} {A : Type κ} where
  abbrev pub is_ok : Result E A → Bool
  is_ok (ok a) = true
  is_ok (err e) = false

  pub Result-cases : (r : Result E A) → ((a : A) × (r ≡ ok a)) ⊎ ((e : E) × (r ≡ err e))
  Result-cases (ok a) = inl (a, refl)
  Result-cases (err e) = inr (e, refl)

-- What a result holds where it is not an error.
pub record Holds {ℓ κ μ} {E : Type ℓ} {A : Type κ} (P : A → Type μ) (r : Result E A)
    : Type (ℓ ⊔ κ ⊔ μ) where
  pub value : (a : A) → r ≡ ok a → P a

module _ {ℓ κ} {E A : Type ℓ} (P : A → Type κ) where
  pub Holds-ok : (a : A) → P a → Holds {E = E} P (ok a)
  Holds-ok a h = record { value = λ b e. (let same : a ≡ b = cc in subst P same h) }

  pub Holds-err : (e : E) → Holds P (err e)
  Holds-err e = record { value = λ b q. cc }

  -- An `if` of two results.
  pub Holds-if :
      (b : Bool) (x y : Result E A) → Holds P x → Holds P y → Holds P (if b then x else y)
  Holds-if true x y h k = h
  Holds-if false x y h k = k

module _ {ℓ κ} {E A B : Type ℓ} (P : A → Type κ) (Q : B → Type κ) where
  pub Holds-bind :
      (m : Result E A) (f : A → Result E B)
      → Holds P m
      → ((a : A) → P a → Holds Q (f a))
      → Holds Q (m >>= f)
  Holds-bind (ok a) f h k = k a (h.value a refl)
  Holds-bind (err e) f h k = Holds-err Q e
