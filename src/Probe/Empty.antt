-- ===== src/Probe/Empty.antt =====
-- The empty table with linear probing, and tables of twice the size.
use native.Mathlib.Nat.{pow-suc}
use qwen3_8_flash_next.Base.{
  ℕ, zero, suc, ◌+◌, ◌*◌, ◌^◌, ◌≤◌, ◌<◌, ◌≡◌, refl, ap, arith, none, ℕ_discrete,
}
use qwen3_8_flash_next.Probe.Find.{IsProbed, used_from}
use qwen3_8_flash_next.Probe.Walk.{IsPow}

pub double-IsPow : {n : ℕ} → IsPow n → n ≤ 2 ^ 60 → IsPow (n * 2)
double-IsPow {n} p le = record {
  exponent = suc p.exponent;
  fits = elim (ℕ_discrete p.exponent 64) [
    | yes e ↦ absurd (let big = ap (λ k. 2 ^ k) e in omega (arith, big, p.power))
    | no ne ↦ omega (arith, p.fits)
  ];
  power = omega (arith, p.power, pow-suc 2 p.exponent);
}

pub used-empty {ℓ} : (E : Type ℓ) (i n : ℕ) → used_from {E = E} (λ _. none) i n ≡ 0
used-empty E i zero = refl
used-empty E i (suc n) = omega (arith, used-empty E (i + 1) n)

pub empty-IsProbed {ℓ} :
    {E : Type ℓ} (h : E → ℕ) (n : ℕ) → IsPow n → 0 < n → IsProbed h (λ _. none) n
empty-IsProbed {E} h n size pos = record {
  size = size;
  room = rw (used-empty E 0 n) pos;
  reach = λ p e lt at. absurd (cc at);
}
