-- ===== src/Common/Bits.antt =====
-- Laws of the bitwise operations at every width, from the recursion on binary digits that the
-- native operations stand for.
use Prim.Native.Nat.{ℕ, zero, suc, ◌+◌, ◌*◌, ◌/◌, ◌%◌, ◌^◌, ◌≤◌, ◌<◌, min, max}
use Prim.Native.Nat.{bit_and, bit_or, bit_xor, digits, differ}
use Prim.Native.Nat.{bit_and-bitwise, bit_or-bitwise, bit_xor-bitwise}
use mathlib.Core.Path.{◌≡◌, refl, sym, ap, ap₂, ◌∙◌}
use native.Mathlib.Nat.{
  pow-suc, one-le-pow, mod-lt, mod-eq_of_lt, mod-add-div, mul-add-mod_self_left,
}
use native.Mathlib.Omega.{arith}

module _ (z : ℕ → ℕ) (f : ℕ → ℕ → ℕ) where
  -- Any count of rounds that reaches the number gives the same digits.
  rounds_enough : (n m a b : ℕ) → a ≤ n → a ≤ m → digits z f n a b ≡ digits z f m a b
  rounds_enough zero zero a b p q = refl
  rounds_enough zero (suc m) zero b p q = refl
  rounds_enough zero (suc m) (suc a) b p q = absurd (omega arith)
  rounds_enough (suc n) zero zero b p q = refl
  rounds_enough (suc n) zero (suc a) b p q = absurd (omega arith)
  rounds_enough (suc n) (suc m) zero b p q = refl
  rounds_enough (suc n) (suc m) (suc a) b p q =
      ap (λ (t : ℕ). t * 2 + f (suc a % 2) (b % 2))
        (rounds_enough n m (suc a / 2) (b / 2) (omega arith) (omega arith))

  lowest_digit :
      (a b : ℕ)
      → digits z f (suc a) (suc a) b
        ≡ digits z f (suc a / 2) (suc a / 2) (b / 2) * 2 + f (suc a % 2) (b % 2)
  lowest_digit a b =
      ap (λ (t : ℕ). t * 2 + f (suc a % 2) (b % 2))
        (rounds_enough a (suc a / 2) (suc a / 2) (b / 2) (omega arith) (omega arith))

pub bit_and_step : (a b : ℕ) → bit_and a b ≡ bit_and (a / 2) (b / 2) * 2 + min (a % 2) (b % 2)
bit_and_step zero b = omega (arith, bit_and-bitwise zero b, bit_and-bitwise zero (b / 2))
bit_and_step (suc a) b = simp (bit_and-bitwise) (lowest_digit (λ _. 0) min a b)

pub bit_or_step : (a b : ℕ) → bit_or a b ≡ bit_or (a / 2) (b / 2) * 2 + max (a % 2) (b % 2)
bit_or_step zero b = omega (arith, bit_or-bitwise zero b, bit_or-bitwise zero (b / 2))
bit_or_step (suc a) b = simp (bit_or-bitwise) (lowest_digit (λ y. y) max a b)

-- Two digits differ when their sum is odd.
differ_lem : (a b : ℕ) → a < 2 → b < 2 → differ a b ≡ (a + b) % 2
differ_lem zero zero p q = refl
differ_lem zero (suc zero) p q = refl
differ_lem (suc zero) zero p q = refl
differ_lem (suc zero) (suc zero) p q = refl
differ_lem zero (suc (suc b)) p q = absurd (omega arith)
differ_lem (suc zero) (suc (suc b)) p q = absurd (omega arith)
differ_lem (suc (suc a)) b p q = absurd (omega arith)

pub bit_xor_step : (a b : ℕ) → bit_xor a b ≡ bit_xor (a / 2) (b / 2) * 2 + (a % 2 + b % 2) % 2
bit_xor_step zero b = omega (arith, bit_xor-bitwise zero b, bit_xor-bitwise zero (b / 2))
bit_xor_step (suc a) b = omega (
  arith,
  bit_xor-bitwise (suc a) b,
  bit_xor-bitwise (suc a / 2) (b / 2),
  lowest_digit (λ y. y) differ a b,
  differ_lem (suc a % 2) (b % 2) (omega arith) (omega arith),
)

-- The digit of weight 2 ^ k.
abbrev pub test_bit : ℕ → ℕ → ℕ
test_bit x zero = x % 2
test_bit x (suc k) = test_bit (x / 2) k

pub test_bit-bit_or : (k a b : ℕ) → test_bit (bit_or a b) k ≡ max (test_bit a k) (test_bit b k)
test_bit-bit_or zero a b = omega (arith, bit_or_step a b)
test_bit-bit_or (suc k) a b =
    let e : bit_or a b / 2 ≡ bit_or (a / 2) (b / 2) = omega (arith, bit_or_step a b) in
    rw e (test_bit-bit_or k (a / 2) (b / 2))

pub test_bit-bit_and : (k a b : ℕ) → test_bit (bit_and a b) k ≡ min (test_bit a k) (test_bit b k)
test_bit-bit_and zero a b = omega (arith, bit_and_step a b)
test_bit-bit_and (suc k) a b =
    let e : bit_and a b / 2 ≡ bit_and (a / 2) (b / 2) = omega (arith, bit_and_step a b) in
    rw e (test_bit-bit_and k (a / 2) (b / 2))

pub test_bit-lt : (k a : ℕ) → test_bit a k < 2
test_bit-lt zero a = omega arith
test_bit-lt (suc k) a = test_bit-lt k (a / 2)

bit_and-zero_bound : (n a : ℕ) → a ≤ n → bit_and a 0 ≡ 0
bit_and-zero_bound zero a h =
    omega (arith, bit_and-bitwise 0 0, ap (λ (t : ℕ). bit_and t 0) {x = a} {y = 0} (omega arith))
bit_and-zero_bound (suc n) a h =
    omega (arith, bit_and_step a 0, bit_and-zero_bound n (a / 2) (omega arith))

pub bit_and-zero : (a : ℕ) → bit_and a 0 ≡ 0
bit_and-zero a = bit_and-zero_bound a a (omega arith)

-- `&` with a single flag.
pub bit_and_flag : (k a : ℕ) → bit_and a (2 ^ k) ≡ test_bit a k * 2 ^ k
bit_and_flag zero a = omega (arith, bit_and_step a 1, bit_and-zero (a / 2))
bit_and_flag (suc k) a =
    let h : 2 ^ suc k / 2 ≡ 2 ^ k = omega (arith, pow-suc 2 k) in
    let s = bit_and_step a (2 ^ suc k) in
    let s' = rw h at s in
    omega (
      arith,
      s',
      bit_and_flag k (a / 2),
      pow-suc 2 k,
      ap (λ (t : ℕ). test_bit (a / 2) k * t) (pow-suc 2 k),
    )

at_zero : (f : ℕ → ℕ → ℕ) {a b : ℕ} → a < 1 → b < 1 → f a b ≡ f 0 0
at_zero f p q = ap₂ f (omega arith) (omega arith)

pub bit_or-lt : (k a b : ℕ) → a < 2 ^ k → b < 2 ^ k → bit_or a b < 2 ^ k
bit_or-lt zero a b p q = omega (arith, bit_or-bitwise 0 0, at_zero bit_or p q)
bit_or-lt (suc k) a b p q = omega (
  arith,
  bit_or_step a b,
  pow-suc 2 k,
  bit_or-lt k (a / 2) (b / 2) (omega (arith, pow-suc 2 k)) (omega (arith, pow-suc 2 k)),
)

pub bit_xor-lt : (k a b : ℕ) → a < 2 ^ k → b < 2 ^ k → bit_xor a b < 2 ^ k
bit_xor-lt zero a b p q = omega (arith, bit_xor-bitwise 0 0, at_zero bit_xor p q)
bit_xor-lt (suc k) a b p q = omega (
  arith,
  bit_xor_step a b,
  pow-suc 2 k,
  bit_xor-lt k (a / 2) (b / 2) (omega (arith, pow-suc 2 k)) (omega (arith, pow-suc 2 k)),
)

xor_xor_bound : (n a b : ℕ) → a ≤ n → b ≤ n → bit_xor (bit_xor a b) b ≡ a
xor_xor_bound zero a b p q =
    at_zero (λ x y. bit_xor (bit_xor x y) y) (omega arith) (omega arith) ∙ (omega arith)
xor_xor_bound (suc n) a b p q =
    let e : bit_xor a b / 2 ≡ bit_xor (a / 2) (b / 2) = omega (arith, bit_xor_step a b) in
    let s = bit_xor_step (bit_xor a b) b in
    let s' = rw e at s in
    omega (arith, s', bit_xor_step a b, xor_xor_bound n (a / 2) (b / 2) (omega arith) (omega arith))

-- A second exclusive or with the same value undoes the first.
pub xor_xor : (a b : ℕ) → bit_xor (bit_xor a b) b ≡ a
xor_xor a b = xor_xor_bound (a + b) a b (omega arith) (omega arith)

mod_double : (p a : ℕ) → 0 < p → a % (2 * p) ≡ a / 2 % p * 2 + a % 2
mod_double p a h =
    let r = a / 2 % p * 2 + a % 2 in
    let small : r < 2 * p = omega (arith, mod-lt (a / 2) h) in
    let whole : a ≡ 2 * p * (a / 2 / p) + r = omega (arith, mod-add-div (a / 2) p) in
    ap (λ (t : ℕ). t % (2 * p)) whole
    ∙ mul-add-mod_self_left (2 * p) (a / 2 / p) r
    ∙ mod-eq_of_lt small

-- `&` with k low ones.
pub bit_and_mask : (k a m : ℕ) → m + 1 ≡ 2 ^ k → bit_and a m ≡ a % 2 ^ k
bit_and_mask zero a m h =
    ap (bit_and a) {x = m} {y = 0} (omega arith) ∙ bit_and-zero a ∙ (omega arith)
bit_and_mask (suc k) a m h =
    let two : 2 ^ suc k ≡ 2 * 2 ^ k = omega (arith, pow-suc 2 k) in
    let pos = one-le-pow k 2 (omega arith) in
    let ih = bit_and_mask k (a / 2) (m / 2) (omega (arith, two)) in
    let low : bit_and a m ≡ a / 2 % 2 ^ k * 2 + a % 2 = omega (arith, bit_and_step a m, two) in
    rw two (low ∙ sym (mod_double (2 ^ k) a pos))

-- `|` of a number below 2 ^ k and a multiple of 2 ^ k is their sum.
pub bit_or_fields : (k r q : ℕ) → r < 2 ^ k → bit_or r (q * 2 ^ k) ≡ r + q * 2 ^ k
bit_or_fields zero r q h =
    ap (λ (t : ℕ). bit_or t (q * 1)) {x = r} {y = 0} (omega arith)
    ∙ bit_or-bitwise 0 (q * 1)
    ∙ (omega arith)
bit_or_fields (suc k) r q h =
    let even : q * 2 ^ suc k ≡ 2 * (q * 2 ^ k) =
      omega (arith, ap (λ (t : ℕ). q * t) (pow-suc 2 k)) in
    let s = bit_or_step r (q * 2 ^ suc k) in
    let half : q * 2 ^ suc k / 2 ≡ q * 2 ^ k = omega (arith, even) in
    let s' = rw half at s in
    omega (arith, s', even, bit_or_fields k (r / 2) q (omega (arith, pow-suc 2 k)))
