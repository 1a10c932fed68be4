-- ===== src/Base/Bits.antt =====
-- Masks, disjoint fields and `^` on numbers, as arithmetic, from the lowest digit up.
use Prim.Native.Nat.{
  ℕ, zero, suc, ◌+◌, ◌*◌, ◌/◌, ◌%◌, ◌^◌, ◌-◌, ◌≤◌, ◌<◌, min, max, bit_and, bit_or, digits, bitwise,
  bit_and-bitwise, bit_or-bitwise,
}
use mathlib.Core.Bool.{Bool, true, ◌&&◌}
use mathlib.Core.Path.{◌≡◌, refl, ap, ◌∙◌}
use native.Mathlib.Nat.{pow-suc, one-le-pow}
use native.Mathlib.Omega.{arith}

-- One unit of fuel more than the digits of `a` need changes nothing.
spare_digit :
    (z : ℕ → ℕ) (f : ℕ → ℕ → ℕ) (fuel a b : ℕ)
    → a ≤ fuel
    → digits z f (suc fuel) a b ≡ digits z f fuel a b
spare_digit z f zero zero b h = refl
spare_digit z f (suc fuel) zero b h = refl
spare_digit z f zero (suc a) b h = absurd (omega arith)
spare_digit z f (suc fuel) (suc a) b h =
    rw (spare_digit z f fuel (suc a / 2) (b / 2) (omega arith)) refl

spare_digits :
    (z : ℕ → ℕ) (f : ℕ → ℕ → ℕ) (extra a b : ℕ) → digits z f (extra + a) a b ≡ bitwise z f a b
spare_digits z f zero a b = ap (λ n. digits z f n a b) {x = 0 + a} {y = a} (omega arith)
spare_digits z f (suc extra) a b =
    ap (λ n. digits z f n a b) {x = suc extra + a} {y = suc (extra + a)} (omega arith)
    ∙ (spare_digit z f (extra + a) a b (omega arith) ∙ spare_digits z f extra a b)

lowest_digit :
    (z : ℕ → ℕ) (f : ℕ → ℕ → ℕ) (a b : ℕ)
    → bitwise z f (suc a) b ≡ f (suc a % 2) (b % 2) + 2 * bitwise z f (suc a / 2) (b / 2)
lowest_digit z f a b =
    let fuel : a - suc a / 2 + suc a / 2 ≡ a = omega arith in
    let enough = spare_digits z f (a - suc a / 2) (suc a / 2) (b / 2) in
    omega (arith, ap (λ n. digits z f n (suc a / 2) (b / 2)) fuel, enough)

bit_or-halves : (b a : ℕ) → bit_or a b ≡ max (a % 2) (b % 2) + 2 * bit_or (a / 2) (b / 2)
bit_or-halves b zero = simp bit_or-bitwise (omega arith)
bit_or-halves b (suc n) = simp bit_or-bitwise (lowest_digit (λ y. y) max n b)

bit_and-halves : (b a : ℕ) → bit_and a b ≡ min (a % 2) (b % 2) + 2 * bit_and (a / 2) (b / 2)
bit_and-halves b zero = simp bit_and-bitwise (omega arith)
bit_and-halves b (suc n) = simp bit_and-bitwise (lowest_digit (λ y. 0) min n b)

bit_or-zero_below : (bound a : ℕ) → a ≤ bound → bit_or a 0 ≡ a
bit_or-zero_below bound zero h = refl
bit_or-zero_below zero (suc a) h = absurd (omega arith)
bit_or-zero_below (suc bound) (suc a) h =
    omega (arith, bit_or-halves 0 (suc a), bit_or-zero_below bound (suc a / 2) (omega arith))

bit_or_comm_below : (bound a b : ℕ) → a ≤ bound → b ≤ bound → bit_or a b ≡ bit_or b a
bit_or_comm_below zero zero zero h k = refl
bit_or_comm_below zero (suc a) b h k = absurd (omega arith)
bit_or_comm_below zero zero (suc b) h k = absurd (omega arith)
bit_or_comm_below (suc bound) a b h k = omega (
  arith,
  bit_or-halves b a,
  bit_or-halves a b,
  bit_or_comm_below bound (a / 2) (b / 2) (omega arith) (omega arith),
)

pub bit_or_comm : (a b : ℕ) → bit_or a b ≡ bit_or b a
bit_or_comm a b = bit_or_comm_below (a + b) a b (omega arith) (omega arith)

twice_shifted : (q k : ℕ) → q * 2 ^ suc k ≡ 2 * (q * 2 ^ k)
twice_shifted q k = omega (arith, ap (λ (t : ℕ). q * t) (pow-suc 2 k))

-- `q << k | r` is a sum where `r` has at most `k` bits.
pub bit_or-shifted : (k q r : ℕ) → r < 2 ^ k → bit_or (q * 2 ^ k) r ≡ q * 2 ^ k + r
bit_or-shifted zero q r h = ground (arith, bit_or-zero_below q q (omega arith))
bit_or-shifted (suc k) q r h = ground (
  arith,
  bit_or-halves r (q * 2 ^ suc k),
  twice_shifted q k,
  bit_or-shifted k q (r / 2) (omega arith),
)

bit_and-zero_below : (bound a : ℕ) → a ≤ bound → bit_and a 0 ≡ 0
bit_and-zero_below bound zero h = refl
bit_and-zero_below zero (suc a) h = absurd (omega arith)
bit_and-zero_below (suc bound) (suc a) h =
    omega (arith, bit_and-halves 0 (suc a), bit_and-zero_below bound (suc a / 2) (omega arith))

low_field : (k q r : ℕ) → r < 2 ^ k → bit_and (q * 2 ^ k + r) (2 ^ k - 1) ≡ r
low_field zero q r h =
    bit_and-zero_below (q * 2 ^ 0 + r) (q * 2 ^ 0 + r) (omega arith) ∙ omega arith
low_field (suc k) q r h = ground (
  arith,
  bit_and-halves (2 ^ suc k - 1) (q * 2 ^ suc k + r),
  twice_shifted q k,
  pow-suc 2 k,
  low_field k q (r / 2) (omega arith),
)

-- `& (1<<k - 1)` is the remainder by `2 ^ k`.
pub bit_and-ones : (k a : ℕ) → bit_and a (2 ^ k - 1) ≡ a % 2 ^ k
bit_and-ones k a = ground (arith, one-le-pow k 2 (omega arith), low_field k (a / 2 ^ k) (a % 2 ^ k))

-- A test of every number below a bound, for facts about single bytes.
unfoldable pub holds_below : ℕ → (ℕ → Bool) → Bool
holds_below zero p = true
holds_below (suc n) p = p n && holds_below n p

pub holds_below_sound : (n : ℕ) (p : ℕ → Bool) (x : ℕ) → holds_below n p ≡ true → x < n → p x ≡ true
unfolding holds_below
holds_below_sound zero p x h lt = absurd (omega arith)
holds_below_sound (suc n) p x h lt = ground (arith, holds_below_sound n p x)
