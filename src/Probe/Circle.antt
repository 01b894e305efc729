-- ===== src/Probe/Circle.antt =====
-- Distances on the circle of slots, in coordinates that start at one slot `z`.
use native.Mathlib.Nat.{
  mod-lt, mod-add-mod, add-mod-mod, add-mod_right, mod-eq_of_lt, mod-eq-sub-mod,
  mul-add-mod_self_left,
}
use qwen3_8_flash_next.Base.{
  ℕ, zero, suc, ◌+◌, ◌-◌, ◌*◌, ◌%◌, ◌^◌, ◌≤◌, ◌<◌, true, false, ◌≡◌, sym, ap, ◌∙◌, arith, inl, inr,
  ◌⊎◌, dec_lt, pow_two_add, word,
}
use qwen3_8_flash_next.Probe.Walk.{IsPow, IsPow-pos, masked-eq-mod}
use qwen3_8_flash_next.Probe.{circular, can_move}

-- One turn at most.
pub mod-cases : (x n : ℕ) → x < n + n → ((x % n ≡ x) × (x < n)) ⊎ ((x % n + n ≡ x) × (n ≤ x))
mod-cases x n lt = elim (dec_lt x n) [
  | yes p ↦ inl (mod-eq_of_lt p, p)
  | no p ↦
      let q : n ≤ x = omega arith in
      inr (omega (arith, mod-eq-sub-mod q, mod-eq_of_lt {n = x - n} {m = n} (omega arith)), q)
]

pub mod-cancel : (n a b c : ℕ) → a < n → b < n → c < n → (a + b) % n ≡ (a + c) % n → b ≡ c
mod-cancel n a b c ha hb hc e =
    go (mod-cases (a + b) n (omega arith)) (mod-cases (a + c) n (omega arith))
  where
    go :
        (((a + b) % n ≡ a + b) × (a + b < n)) ⊎ (((a + b) % n + n ≡ a + b) × (n ≤ a + b))
        → (((a + c) % n ≡ a + c) × (a + c < n)) ⊎ (((a + c) % n + n ≡ a + c) × (n ≤ a + c))
        → b ≡ c
    go (inl h) (inl k) = omega arith
    go (inl h) (inr k) = omega arith
    go (inr h) (inl k) = omega arith
    go (inr h) (inr k) = omega arith

-- Places of one circle are told apart by their coordinates.
pub mod-injective : (n z a b : ℕ) → a < n → b < n → (z + a) % n ≡ (z + b) % n → a ≡ b
mod-injective n z a b ha hb e =
    mod-cancel n (z % n) a b (mod-lt z (omega arith)) ha hb
      (mod-add-mod z n a ∙ e ∙ sym (mod-add-mod z n b))

IsPow-divides : {n : ℕ} → IsPow n → (q : ℕ) × (word ≡ n * q)
IsPow-divides p = (
  2 ^ (64 - p.exponent),
  ap (λ k. 2 ^ k) (let z : 64 ≡ p.exponent + (64 - p.exponent) = omega (arith, p.fits) in z)
      ∙ pow_two_add p.exponent (64 - p.exponent)
      ∙ ap (λ t. t * 2 ^ (64 - p.exponent)) (sym p.power),
)

below_word : (n q : ℕ) → word ≡ n * q → 0 < n → word ≡ n * (q - 1) + n
below_word n zero e h = absurd (omega arith)
below_word n (suc q) e h = let z : suc q - 1 ≡ q = omega arith in rw z (omega (arith, e))

ahead : (n a x : ℕ) → a ≤ x → x < n → (x + n - a) % n ≡ x - a
ahead n a x le lt =
    let z : x + n - a ≡ x - a + n = omega arith in
    rw z (add-mod_right (x - a) n ∙ mod-eq_of_lt (omega arith))

behind : (n a x : ℕ) → x < a → a < n → (x + n - a) % n ≡ x + n - a
behind n a x lt ha = mod-eq_of_lt (omega arith)

-- The circular distance is the way from `a` forward to `b`.
pub circular-eq : {n : ℕ} (a b : ℕ) → IsPow n → a < n → b < n → circular n a b ≡ (b + n - a) % n
circular-eq {n} a b p ha hb =
    let (q, dv) = IsPow-divides p in
    let split = below_word n q dv (IsPow-pos p) in
    masked-eq-mod ((b + word - a) % word) p ∙ elim (dec_lt b a) [
      | yes lt ↦
          let flat : (b + word - a) % word ≡ n * (q - 1) + (b + n - a) =
            mod-eq_of_lt {n = b + word - a} {m = word} (omega arith) ∙ omega (arith, split) in
          rw flat (mul-add-mod_self_left n (q - 1) (b + n - a))
      | no ge ↦
          let flat : (b + word - a) % word ≡ b - a = omega (arith, split) in
          rw flat
            (mod-eq_of_lt {n = b - a} {m = n} (omega arith) ∙ sym (ahead n a b (omega arith) hb))
    ]

-- In coordinates from `z`.
pub circular-shift :
    {n : ℕ} (z a b : ℕ)
    → IsPow n
    → a < n
    → b < n
    → circular n ((z + a) % n) ((z + b) % n) ≡ (b + n - a) % n
circular-shift {n} z a b p ha hb =
    circular-eq ((z + a) % n) ((z + b) % n) p (mod-lt (z + a) pos) (mod-lt (z + b) pos)
    ∙ mod-cancel n ((z + a) % n) _ _ (mod-lt (z + a) pos) (mod-lt _ pos) (mod-lt _ pos) (
        add-mod-mod _ _ n
        ∙ left
        ∙ sym (add-mod-mod _ _ n ∙ mod-add-mod (z + a) n (b + n - a) ∙ right))
  where
    pos : 0 < n
    pos = IsPow-pos p

    left : ((z + a) % n + ((z + b) % n + n - (z + a) % n)) % n ≡ (z + b) % n
    left =
        let e : (z + a) % n + ((z + b) % n + n - (z + a) % n) ≡ (z + b) % n + n =
          omega (arith, mod-lt (z + a) pos) in
        rw e (add-mod_right ((z + b) % n) n ∙ mod-eq_of_lt (mod-lt (z + b) pos))

    right : (z + a + (b + n - a)) % n ≡ (z + b) % n
    right = let e : z + a + (b + n - a) ≡ z + b + n = omega arith in rw e (add-mod_right (z + b) n)

-- An entry at coordinate `b` with home at `h` may move to `a` exactly when `h` is not behind `a`.
pub can_move_lem :
    {n : ℕ} (z a b h : ℕ)
    → IsPow n
    → a < b
    → b < n
    → h ≤ b
    → ((h ≤ a) × (can_move n ((z + a) % n) ((z + b) % n) ((z + h) % n) ≡ true))
      ⊎ ((a < h) × (can_move n ((z + a) % n) ((z + b) % n) ((z + h) % n) ≡ false))
unfolding can_move
can_move_lem {n} z a b h p hab hbn hhb =
    rw
      (
        circular-shift z a b p (omega arith) hbn,
        circular-shift z a h p (omega arith) (omega arith),
        ahead n a b (omega arith) hbn,
      )
      (elim (dec_lt h a) [
        | yes lt ↦ inl (omega arith, rw (behind n a h lt (omega arith)) (ground arith))
        | no ge ↦ rw (ahead n a h (omega arith) (omega arith)) (elim (dec_lt a h) [
          | yes lt ↦ inr (lt, ground arith)
          | no le ↦ inl (omega arith, ground arith)
        ])
      ])
