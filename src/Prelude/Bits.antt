-- ===== src/Prelude/Bits.antt =====
-- Masks on a byte, and `(hi << 8) | lo`, as plain arithmetic.
use Prim.Native.Nat.{
  ℕ, zero, suc, ◌+◌, ◌*◌, ◌/◌, ◌%◌, ◌^◌, ◌≤◌, ◌<◌, max, bit_and, bit_or, digits, bit_or-bitwise,
}
use mathlib.Core.Path.{◌≡◌, refl, ap}
use mathlib.Core.Bool.{Bool, true, ◌&&◌}
use mathlib.Core.List.{List, [], ◌∷◌}
use native.Mathlib.Omega.{arith}
use native.Mathlib.Nat.{pow-suc}
use ambrosia.Prelude.Tests.{◌==◌, ==_iff}

abbrev pub IsByte : ℕ → Type 0
IsByte b = b < 256

-- Every element of a buffer is a byte.
abbrev pub AreBytes : List ℕ → Type 0
AreBytes [] = Unit {0}
AreBytes (b ∷ bs) = IsByte b × AreBytes bs

-- Checks a property of each number below a bound by evaluation.
every : ℕ → (ℕ → Bool) → Bool
every zero p = true
every (suc n) p = p n && every n p

every_lem : (n : ℕ) (p : ℕ → Bool) (x : ℕ) → every n p ≡ true → x < n → p x ≡ true
unfolding every
every_lem zero p x h lt = absurd (omega arith)
every_lem (suc n) p x h lt = ground (arith, every_lem n p x)

-- The two functions agree on all bytes.
agree : (f g : ℕ → ℕ) → every 256 (λ x. f x == g x) ≡ true → (x : ℕ) → IsByte x → f x ≡ g x
agree f g h x lt = (==_iff _ _).0 (every_lem 256 (λ x. f x == g x) x h lt)

pub bit_and_0x3f : (b : ℕ) → IsByte b → bit_and b 0x3f ≡ b % 64
unfolding every
bit_and_0x3f = agree (λ b. bit_and b 0x3f) (λ b. b % 64) refl

pub bit_and_0xc0 : (b : ℕ) → IsByte b → bit_and b 0xc0 ≡ b / 64 * 64
unfolding every
bit_and_0xc0 = agree (λ b. bit_and b 0xc0) (λ b. b / 64 * 64) refl

-- The disjunction by digits, with more fuel than the first number has.
abbrev or_digits : ℕ → ℕ → ℕ → ℕ
or_digits n a b = digits (λ b. b) max n a b

or_digits_enough : (n m a b : ℕ) → a ≤ n → a ≤ m → or_digits n a b ≡ or_digits m a b
or_digits_enough zero zero a b p q = refl
or_digits_enough zero (suc m) zero b p q = refl
or_digits_enough zero (suc m) (suc a) b p q = absurd (omega arith)
or_digits_enough (suc n) zero zero b p q = refl
or_digits_enough (suc n) zero (suc a) b p q = absurd (omega arith)
or_digits_enough (suc n) (suc m) zero b p q = refl
or_digits_enough (suc n) (suc m) (suc a) b p q =
    omega (arith, or_digits_enough n m (suc a / 2) (b / 2) (omega arith) (omega arith))

zero-bit_or : (b : ℕ) → bit_or 0 b ≡ b
zero-bit_or b = bit_or-bitwise 0 b

bit_or_halves : (a b : ℕ) → bit_or a b ≡ bit_or (a / 2) (b / 2) * 2 + max (a % 2) (b % 2)
bit_or_halves zero b = omega (arith, zero-bit_or b, zero-bit_or (b / 2))
bit_or_halves (suc a) b = omega (
  arith,
  bit_or-bitwise (suc a) b,
  bit_or-bitwise (suc a / 2) (b / 2),
  or_digits_enough a (suc a / 2) (suc a / 2) (b / 2) (omega arith) (omega arith),
)

bit_or-zero_below : (n a : ℕ) → a ≤ n → bit_or a 0 ≡ a
bit_or-zero_below n zero h = refl
bit_or-zero_below zero (suc a) h = absurd (omega arith)
bit_or-zero_below (suc n) (suc a) h =
    omega (arith, bit_or_halves (suc a) 0, bit_or-zero_below n (suc a / 2) (omega arith))

double_shift : (q k : ℕ) → q * 2 ^ suc k ≡ q * 2 ^ k * 2
double_shift q k = omega (arith, ap (λ (t : ℕ). q * t) (pow-suc 2 k))

-- `(q << k) | r` is a sum when `r` has at most `k` bits.
pub bit_or-disjoint : (k q r : ℕ) → r < 2 ^ k → bit_or (q * 2 ^ k) r ≡ q * 2 ^ k + r
bit_or-disjoint zero q zero h = ground (arith, bit_or-zero_below (q * 1) (q * 1))
bit_or-disjoint zero q (suc r) h = absurd (omega arith)
bit_or-disjoint (suc k) q r h = ground (
  arith,
  double_shift q k,
  bit_or_halves (q * 2 ^ suc k) r,
  bit_or-disjoint k q (r / 2) (omega (arith, pow-suc 2 k)),
)
