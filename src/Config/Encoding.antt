-- ===== src/Config/Encoding.antt =====
-- Buffers that values are pushed onto, for src/wireguard/connection_config.rs.
use macos_wireguard_daemon.Prelude.{
  ◌≡◌, refl, sym, ap, ◌∙◌, ℕ, zero, suc, ◌/◌, ◌%◌, ◌^◌, ◌<◌, List, [], ◌∷◌, ◌++◌, map, length, All,
  arith,
}
use native.Mathlib.Nat.{pow-suc}
use macos_wireguard_daemon.Config.{le_bytes, be_bytes, push_u32, push_all}

pub ++_assoc {ℓ} : {A : Type ℓ} → (xs ys zs : List A) → (xs ++ ys) ++ zs ≡ xs ++ (ys ++ zs)
++_assoc [] ys zs = refl
++_assoc (x ∷ xs) ys zs = ap (λ (t : List _). x ∷ t) (++_assoc xs ys zs)

pub cons_lem {ℓ} : {A : Type ℓ} (x y : A) (xs ys : List A) → x ∷ xs ≡ y ∷ ys → (x ≡ y) × (xs ≡ ys)
cons_lem x y xs ys e = ground arith

-- `push` puts its bytes behind what is there; what it put there can be read off the front again up to
-- the view `f`, for the values that satisfy `V`; and it depends on that view alone.
pub record IsReadable {A B : Type 0} (push : List ℕ → A → List ℕ) (f : A → B) (V : A → Type 0)
    : Type 0 where
  pub appends : (buf : List ℕ) (a : A) (s : List ℕ) → push buf a ++ s ≡ buf ++ (push [] a ++ s)
  pub reads :
      (a b : A) (s t : List ℕ) → V a → V b → push [] a ++ s ≡ push [] b ++ t → (f a ≡ f b) × (s ≡ t)
  pub shows : (buf : List ℕ) (a b : A) → f a ≡ f b → push buf a ≡ push buf b

-- One push after another.
abbrev pub then_push :
    {A B : Type 0} → (List ℕ → A → List ℕ) → (List ℕ → B → List ℕ) → List ℕ → A × B → List ℕ
then_push p q buf ab = q (p buf ab.0) ab.1

module _ {A B C D : Type 0} {p : List ℕ → A → List ℕ} {q : List ℕ → B → List ℕ} {f : A → C}
    {g : B → D} {V : A → Type 0} {U : B → Type 0} (rp : IsReadable p f V)
    (rq : IsReadable q g U) where
  front : (ab : A × B) (s : List ℕ) → q (p [] ab.0) ab.1 ++ s ≡ p [] ab.0 ++ (q [] ab.1 ++ s)
  front ab s = rq.appends (p [] ab.0) ab.1 s

  pub then_push-IsReadable :
      IsReadable {A = A × B} {B = C × D} (then_push p q) (λ x. (f x.0, g x.1)) (λ x. V x.0 × U x.1)
  then_push-IsReadable = record {
    appends = λ buf ab s.
        rq.appends (p buf ab.0) ab.1 s
        ∙ rp.appends buf ab.0 (q [] ab.1 ++ s)
        ∙ ap (λ (t : List ℕ). buf ++ t) (sym (front ab s));
    reads = λ x y s t v u e.
        let first =
          rp.reads x.0 y.0 (q [] x.1 ++ s) (q [] y.1 ++ t) v.0 u.0
            (sym (front x s) ∙ e ∙ front y t) in
        let second = rq.reads x.1 y.1 s t v.1 u.1 first.1 in (ap2 first.0 second.0, second.1);
    shows = λ buf x y e.
        ap (λ (b : List ℕ). q b x.1) (rp.shows buf x.0 y.0 (ap (λ (t : C × D). t.0) e))
        ∙ rq.shows (p buf y.0) x.1 y.1 (ap (λ (t : C × D). t.1) e);
  }
    where
      ap2 : {c c' : C} {d d' : D} → c ≡ c' → d ≡ d' → Path (C × D) (c, d) (c', d')
      ap2 e h = rw (e, h) refl

module _ {A B : Type 0} (p : List ℕ → A → List ℕ) (f : A → B) (V : A → Type 0)
    (rp : IsReadable p f V) where
  all-appends :
      (buf : List ℕ) (xs : List A) (s : List ℕ)
      → push_all p buf xs ++ s ≡ buf ++ (push_all p [] xs ++ s)
  all-appends buf [] s = refl
  all-appends buf (x ∷ xs) s =
      all-appends (p buf x) xs s
      ∙ rp.appends buf x (push_all p [] xs ++ s)
      ∙ ap (λ (t : List ℕ). buf ++ t) (sym (all-appends (p [] x) xs s))

  All-reads :
      (xs ys : List A) (s t : List ℕ)
      → length xs ≡ length ys
      → All V xs
      → All V ys
      → push_all p [] xs ++ s ≡ push_all p [] ys ++ t
      → (map f xs ≡ map f ys) × (s ≡ t)
  All-reads [] [] s t n v u e = (refl, e)
  All-reads [] (y ∷ ys) s t n v u e = absurd (omega arith)
  All-reads (x ∷ xs) [] s t n v u e = absurd (omega arith)
  All-reads (x ∷ xs) (y ∷ ys) s t n v u e =
      let first =
        rp.reads x y (push_all p [] xs ++ s) (push_all p [] ys ++ t) v.0 u.0
          (sym (all-appends (p [] x) xs s) ∙ e ∙ all-appends (p [] y) ys t) in
      let rest = All-reads xs ys s t (omega arith) v.1 u.1 first.1 in
      (rw (first.0, rest.0) refl, rest.1)

module _ {A B : Type 0} (p : List ℕ → A → List ℕ) (f : A → B) (V : A → Type 0)
    (rp : IsReadable p f V) where
  all-shows :
      (buf : List ℕ) (xs ys : List A)
      → map f xs ≡ map f ys
      → (length xs ≡ length ys) × (push_all p buf xs ≡ push_all p buf ys)
  all-shows buf [] [] e = (refl, refl)
  all-shows buf [] (y ∷ ys) e = absurd (ground (arith, e))
  all-shows buf (x ∷ xs) [] e = absurd (ground (arith, e))
  all-shows buf (x ∷ xs) (y ∷ ys) e =
      let c = cons_lem (f x) (f y) (map f xs) (map f ys) e in
      let rest = all-shows (p buf y) xs ys c.1 in
      (omega (arith, rest.0), ap (λ (b : List ℕ). push_all p b xs) (rp.shows buf x y c.0) ∙ rest.1)

shrink : (m k : ℕ) → m < 256 ^ suc k → m / 256 < 256 ^ k
shrink m k h = omega (arith, pow-suc 256 k)

-- A number of bytes, the low ones first.
pub le_bytes-reads :
    (k m n : ℕ) (s t : List ℕ)
    → m < 256 ^ k
    → n < 256 ^ k
    → le_bytes k m ++ s ≡ le_bytes k n ++ t
    → (m ≡ n) × (s ≡ t)
le_bytes-reads zero m n s t h g e = (omega arith, e)
le_bytes-reads (suc k) m n s t h g e =
    let low =
      cons_lem (m % 256) (n % 256) (le_bytes k (m / 256) ++ s) (le_bytes k (n / 256) ++ t) e in
    let high = le_bytes-reads k (m / 256) (n / 256) s t (shrink m k h) (shrink n k g) low.1 in
    (omega (arith, low.0, high.0), high.1)

-- The high ones first.
pub be_bytes-reads :
    (k m n : ℕ) (s t : List ℕ)
    → m < 256 ^ k
    → n < 256 ^ k
    → be_bytes k m s ≡ be_bytes k n t
    → (m ≡ n) × (s ≡ t)
be_bytes-reads zero m n s t h g e = (omega arith, e)
be_bytes-reads (suc k) m n s t h g e =
    let split =
      be_bytes-reads k (m / 256) (n / 256) (m % 256 ∷ s) (n % 256 ∷ t) (shrink m k h) (shrink n k g)
        e in
    let low = cons_lem (m % 256) (n % 256) s t split.1 in (omega (arith, low.0, split.0), low.1)

pub split_lem {ℓ} :
    {A : Type ℓ} (xs ys s t : List A)
    → length xs ≡ length ys
    → xs ++ s ≡ ys ++ t
    → (xs ≡ ys) × (s ≡ t)
split_lem [] [] s t n e = (refl, e)
split_lem [] (y ∷ ys) s t n e = absurd (omega arith)
split_lem (x ∷ xs) [] s t n e = absurd (omega arith)
split_lem (x ∷ xs) (y ∷ ys) s t n e =
    let first = cons_lem x y (xs ++ s) (ys ++ t) e in
    let rest = split_lem xs ys s t (omega arith) first.1 in (rw (first.0, rest.0) refl, rest.1)

-- A push by appending.
module _ {A B : Type 0} (p : List ℕ → A → List ℕ) (code : A → List ℕ) (f : A → B) (V : A → Type 0)
    (puts : (buf : List ℕ) (a : A) → p buf a ≡ buf ++ code a)
    (back : (a b : A) (s t : List ℕ)
      → V a
      → V b
      → code a ++ s ≡ code b ++ t
      → (f a ≡ f b) × (s ≡ t))
    (plain : (a b : A) → f a ≡ f b → code a ≡ code b) where
  pub appended-IsReadable : IsReadable p f V
  appended-IsReadable = record {
    appends = λ buf a s.
        ap (λ (t : List ℕ). t ++ s) (puts buf a)
        ∙ ++_assoc buf (code a) s
        ∙ ap (λ (t : List ℕ). buf ++ (t ++ s)) (sym (puts [] a));
    reads = λ a b s t v u e. back a b s t v u (
        ap (λ (r : List ℕ). r ++ s) (sym (puts [] a))
        ∙ e
        ∙ ap (λ (r : List ℕ). r ++ t) (puts [] b));
    shows =
        λ buf a b e. puts buf a ∙ ap (λ (t : List ℕ). buf ++ t) (plain a b e) ∙ sym (puts buf b);
  }

pub ++_nil {ℓ} : {A : Type ℓ} → (xs : List A) → xs ++ [] ≡ xs
++_nil [] = refl
++_nil (x ∷ xs) = ap (λ (t : List _). x ∷ t) (++_nil xs)

-- A list behind its length.
abbrev pub counted : {A : Type 0} → (List ℕ → A → List ℕ) → List ℕ → List A → List ℕ
counted p buf xs = push_all p (push_u32 buf (length xs % 2 ^ 32)) xs

abbrev pub IsCounted : {A : Type 0} → (A → Type 0) → List A → Type 0
IsCounted V xs = (length xs < 2 ^ 32) × All V xs

module _ {A B : Type 0} (p : List ℕ → A → List ℕ) (f : A → B) (V : A → Type 0)
    (rp : IsReadable p f V) where
  counted-code :
      (buf : List ℕ) (xs : List A)
      → counted p buf xs ≡ buf ++ (le_bytes 4 (length xs % 2 ^ 32) ++ push_all p [] xs)
  unfolding push_u32
  counted-code buf xs =
      let n = le_bytes 4 (length xs % 2 ^ 32) in
      sym (++_nil (push_all p (buf ++ n) xs))
      ∙ all-appends p f V rp (buf ++ n) xs []
      ∙ ap (λ (t : List ℕ). (buf ++ n) ++ t) (++_nil (push_all p [] xs))
      ∙ ++_assoc buf n (push_all p [] xs)

  counted-reads :
      (xs ys : List A) (s t : List ℕ)
      → IsCounted V xs
      → IsCounted V ys
      → (le_bytes 4 (length xs % 2 ^ 32) ++ push_all p [] xs) ++ s
        ≡ (le_bytes 4 (length ys % 2 ^ 32) ++ push_all p [] ys) ++ t
      → (map f xs ≡ map f ys) × (s ≡ t)
  counted-reads xs ys s t v u e =
      let n = length xs % 2 ^ 32 in
      let m = length ys % 2 ^ 32 in
      let size =
        le_bytes-reads 4 n m (push_all p [] xs ++ s) (push_all p [] ys ++ t) (omega arith)
          (omega arith)
          (sym (++_assoc (le_bytes 4 n) (push_all p [] xs) s)
            ∙ e
            ∙ ++_assoc (le_bytes 4 m) (push_all p [] ys) t) in
      All-reads p f V rp xs ys s t (omega (arith, size.0, v.0, u.0)) v.1 u.1 size.1

  pub counted-IsReadable : IsReadable (counted p) (map f) (IsCounted V)
  counted-IsReadable =
      appended-IsReadable (counted p) (λ xs. le_bytes 4 (length xs % 2 ^ 32) ++ push_all p [] xs)
        (map f) (IsCounted V) counted-code counted-reads
        (λ xs ys e. let same = all-shows p f V rp [] xs ys e in rw (same.0, same.1) refl)
