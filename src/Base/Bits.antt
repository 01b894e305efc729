-- ===== src/Base/Bits.antt =====
-- Machine words: masks of the low bits as remainders.
use Prim.Native.Nat.{
  ℕ, zero, suc, ◌+◌, ◌-◌, ◌*◌, ◌/◌, ◌%◌, ◌^◌, ◌≤◌, ◌<◌, min, bit_and, digits, bit_and-bitwise,
}
use mathlib.Core.Path.{◌≡◌, ◌∙◌}
use native.Mathlib.Nat.{pow-suc, div-add-mod, mod-lt}
use native.Mathlib.Omega.{arith}

-- The modulus of `uint64_t` and `size_t`.
abbrev pub word : ℕ
word = 2 ^ 64

pub pow_two_pos : (k : ℕ) → 0 < 2 ^ k
pow_two_pos zero = omega arith
pow_two_pos (suc k) = omega (arith, pow-suc 2 k, pow_two_pos k)

mod_unique : (q n r a : ℕ) → a ≡ n * q + r → r < n → a % n ≡ r
mod_unique q n r a e h = grind arith

-- The remainder by an even modulus, one binary digit at a time.
mod_double : (a m : ℕ) → 0 < m → a % (m * 2) ≡ (a / 2) % m * 2 + a % 2
mod_double a m h =
    mod_unique (a / 2 / m) (m * 2) _ a (grind (arith, div-add-mod (a / 2) m))
      (omega (arith, mod-lt (a / 2) h))

-- `uint64_t` and `size_t` sums and differences.
abbrev pub add64 : ℕ → ℕ → ℕ
add64 a b = (a + b) % word

abbrev pub sub64 : ℕ → ℕ → ℕ
sub64 a b = (a + word - b) % word

abbrev pub mul64 : ℕ → ℕ → ℕ
mul64 a b = (a * b) % word

halves : (k : ℕ) → ((2 ^ suc k - 1) / 2 ≡ 2 ^ k - 1) × ((2 ^ suc k - 1) % 2 ≡ 1)
halves k = (omega (arith, pow-suc 2 k, pow_two_pos k), omega (arith, pow-suc 2 k, pow_two_pos k))

-- The digits of a masked number, as many as `n` tells.
abbrev masked_by : ℕ → ℕ → ℕ → ℕ
masked_by n k a = digits (λ _. zero) min n a (2 ^ k - 1)

masked_by-mod : (n k a : ℕ) → a ≤ n → masked_by n k a ≡ a % 2 ^ k
masked_by-mod zero k zero le = omega (arith, pow_two_pos k)
masked_by-mod (suc n) k zero le = omega (arith, pow_two_pos k)
masked_by-mod zero k (suc a) le = absurd (omega arith)
masked_by-mod (suc n) zero (suc a) le = omega (arith, masked_by-mod n 0 (suc a / 2) (omega arith))
masked_by-mod (suc n) (suc k) (suc a) le =
    let (half, odd) = halves k in
    let rest = masked_by-mod n k (suc a / 2) (omega arith) in
    rw (half, odd, rest, pow-suc 2 k) (omega (arith, mod_double (suc a) (2 ^ k) (pow_two_pos k)))

-- `x & (2^k - 1)` is the remainder by `2^k`.
pub bit_and-mask : (k a : ℕ) → bit_and a (2 ^ k - 1) ≡ a % 2 ^ k
bit_and-mask k a = bit_and-bitwise a (2 ^ k - 1) ∙ masked_by-mod a k a (omega arith)

pub pow_two_add : (a b : ℕ) → 2 ^ (a + b) ≡ 2 ^ a * 2 ^ b
pow_two_add a zero = rw (let z : a + 0 ≡ a = omega arith in z) (omega arith)
pow_two_add a (suc b) =
    let z : a + suc b ≡ suc (a + b) = omega arith in
    rw (z, pow-suc 2 (a + b), pow-suc 2 b, pow_two_add a b) (grind arith)
