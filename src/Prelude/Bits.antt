-- ===== src/Prelude/Bits.antt =====
-- `bit_and` with a mask of high bits, as arithmetic.
use Prim.Native.Nat.{
  ℕ, zero, suc, ◌+◌, ◌-◌, ◌*◌, ◌/◌, ◌%◌, ◌^◌, ◌≤◌, ◌<◌, min, bit_and, digits, bit_and-bitwise,
}
use mathlib.Core.Path.{◌≡◌, refl, sym, ap, ◌∙◌}
use native.Mathlib.Nat.{pow-suc, pow-succ', one-le-pow, div-div-eq-div-mul}
use native.Mathlib.Omega.{arith}

-- The recursion that `bit_and` stands for.
abbrev and_from : ℕ → ℕ → ℕ → ℕ
and_from fuel a b = digits (λ y. 0) min fuel a b

and_from-zero : (b fuel : ℕ) → and_from fuel 0 b ≡ 0
and_from-zero b zero = refl
and_from-zero b (suc fuel) = refl

-- Any fuel that reaches the first number gives the same digits.
and_from_any : (a b less more : ℕ) → a ≤ less → less ≤ more → and_from more a b ≡ and_from less a b
and_from_any zero b less more h k = and_from-zero b more ∙ sym (and_from-zero b less)
and_from_any (suc a) b zero more h k = absurd (omega arith)
and_from_any (suc a) b (suc less) zero h k = absurd (omega arith)
and_from_any (suc a) b (suc less) (suc more) h k =
    ap (λ (rest : ℕ). rest * 2 + min (suc a % 2) (b % 2))
      (and_from_any (suc a / 2) (b / 2) less more (omega arith) (omega arith))

bit_and_halves : (a b : ℕ) → bit_and a b ≡ bit_and (a / 2) (b / 2) * 2 + min (a % 2) (b % 2)
bit_and_halves zero b = omega (arith, bit_and-bitwise zero (b / 2), bit_and-bitwise zero b)
bit_and_halves (suc a) b =
    let whole = bit_and-bitwise (suc a) b in
    let half = bit_and-bitwise (suc a / 2) (b / 2) in
    let same = and_from_any (suc a / 2) (b / 2) (suc a / 2) a (omega arith) (omega arith) in
    omega (arith, whole, half, same)

-- `2 ^ n - 1` keeps every number below `2 ^ n`.
bit_and-ones : (n a : ℕ) → a < 2 ^ n → bit_and a (2 ^ n - 1) ≡ a
bit_and-ones zero a h = let e : a ≡ 0 = omega arith in rw e (bit_and-bitwise 0 0)
bit_and-ones (suc n) a h =
    let half : (2 ^ suc n - 1) / 2 ≡ 2 ^ n - 1 = omega (arith, pow-suc 2 n, one-le-pow n 2) in
    let ih : bit_and (a / 2) (2 ^ n - 1) ≡ a / 2 =
      bit_and-ones n (a / 2) (omega (arith, pow-suc 2 n)) in
    let step : bit_and a (2 ^ suc n - 1)
        ≡ bit_and (a / 2) (2 ^ n - 1) * 2 + min (a % 2) ((2 ^ suc n - 1) % 2) =
      rw (← half) (bit_and_halves a (2 ^ suc n - 1)) in
    omega (arith, step, ih, pow-suc 2 n, one-le-pow n 2)

double : (m k : ℕ) → m * 2 ^ suc k ≡ m * 2 ^ k * 2
double m k = omega (arith, ap (λ (t : ℕ). m * t) (pow-suc 2 k))

pub div-pow-suc : (a k : ℕ) → a / 2 ^ suc k ≡ a / 2 / 2 ^ k
div-pow-suc a k = rw (pow-succ' 2 k) (sym (div-div-eq-div-mul a 2 (2 ^ k)))

-- A mask with `k` low zeros clears the `k` low digits first.
bit_and-shift : (k a m : ℕ) → bit_and a (m * 2 ^ k) ≡ bit_and (a / 2 ^ k) m * 2 ^ k
bit_and-shift zero a m =
    let e : a / 2 ^ 0 ≡ a = omega arith in
    let f : m * 2 ^ 0 ≡ m = omega arith in rw (e, f) (omega arith)
bit_and-shift (suc k) a m =
    let half : m * 2 ^ suc k / 2 ≡ m * 2 ^ k = omega (arith, double m k) in
    let step = bit_and_halves a (m * 2 ^ suc k) in
    rw (div-pow-suc a k, double (bit_and (a / 2 / 2 ^ k) m) k, ← bit_and-shift k (a / 2) m)
      (omega (arith, rw half at step, double m k))

-- The high `n` of `n + k` digits: what `x & (MAX << k)` keeps.
pub bit_and-high :
    (n k a : ℕ) → a / 2 ^ k < 2 ^ n → bit_and a ((2 ^ n - 1) * 2 ^ k) ≡ a / 2 ^ k * 2 ^ k
bit_and-high n k a h = rw (bit_and-shift, bit_and-ones n (a / 2 ^ k) h)
