-- ===== src/Ngram/Prime.antt =====
-- `is_prime` of c/src/ngram.c decides primality.
use native.Mathlib.Nat.{
  div-add-mod', mul-mod_left, mul-mod_right, mul_assoc, mul_comm, zero-mul, one-mul,
  mul-le-mul_left, lt_of_mul-lt-mul_left, mul-le-mul,
}
use qwen3_8_flash_next.Base.{
  ℕ, zero, suc, ◌+◌, ◌-◌, ◌*◌, ◌/◌, ◌%◌, ◌^◌, ◌≤◌, ◌<◌, ◌≡◌, ◌≢◌, refl, sym, ap, ◌∙◌, arith, Bool,
  true, false, Option, some, ◌==◌, ==_iff, ltb, leb, inl, inr, ◌↔◌, ℕ_discrete, Bool-cases, dec_lt,
}
use qwen3_8_flash_next.Ngram.{is_prime, no_factor}

abbrev pub Prime : ℕ → Type 0
Prime v = (2 ≤ v) × ((d : ℕ) → 2 ≤ d → d < v → v % d ≢ 0)

-- No divisor from 2 up to `d`.
abbrev Clear : ℕ → ℕ → Type 0
Clear d v = (e : ℕ) → 2 ≤ e → e < d → v % e ≢ 0

-- The other factor.
cofactor : (v e : ℕ) → v % e ≡ 0 → v ≡ (v / e) * e
cofactor v e h = omega (arith, div-add-mod' v e)

even_multiple : (v e : ℕ) → v % e ≡ 0 → e % 2 ≡ 0 → v % 2 ≡ 0
even_multiple v e h even =
    let half : v ≡ (v / e * (e / 2)) * 2 =
      cofactor v e h
      ∙ ap (λ w. v / e * w) (cofactor e 2 even)
      ∙ sym (mul_assoc (v / e) (e / 2) 2) in
    ap (λ w. w % 2) half ∙ mul-mod_left (v / e * (e / 2)) 2

square_lt : (v e d : ℕ) → v % e ≡ 0 → d ≤ e → v < d * d → 0 < d → v / e < d
square_lt v e d h le lt pos =
    lt_of_mul-lt-mul_left d
      (omega (arith, cofactor v e h, mul-le-mul_left (v / e) le, mul_comm d (v / e)))

Clear-step : (d v : ℕ) → v % 2 ≡ 1 → d % 2 ≡ 1 → v % d ≢ 0 → Clear d v → Clear (d + 2) v
Clear-step d v odd odd_d not_d c e two lt h = elim (ℕ_discrete e d) [
  | yes same ↦ not_d (rw same at h)
  | no ne ↦ elim (dec_lt e d) [
    | yes small ↦ c e two small h
    | no big ↦
        let even : e % 2 ≡ 0 = omega arith in let v_even = even_multiple v e h even in omega arith
  ]
]

factor_two : (c v e : ℕ) → v ≡ c * e → 2 ≤ v → e < v → 2 ≤ c
factor_two zero v e h two lt = absurd (omega (arith, zero-mul e))
factor_two (suc zero) v e h two lt = absurd (omega (arith, one-mul e))
factor_two (suc (suc c)) v e h two lt = omega arith

Clear-Prime : (d v : ℕ) → 2 ≤ v → 0 < d → v < d * d → Clear d v → Prime v
Clear-Prime d v two pos lt c = (two, no_divisor)
  where
    no_divisor : (e : ℕ) → 2 ≤ e → e < v → v % e ≢ 0
    no_divisor e two_e less h = elim (dec_lt e d) [
      | yes small ↦ c e two_e small h
      | no big ↦
          c (v / e) (factor_two (v / e) v e (cofactor v e h) two less)
            (square_lt v e d h (omega arith) lt pos)
            (ap (λ w. w % (v / e)) (cofactor v e h) ∙ mul-mod_right (v / e) e)
    ]

-- The decision that a run has made.
abbrev pub Decides : ℕ → Option Bool → Type 0
Decides v r = (b : Bool) × (r ≡ some b) × ((b ≡ true) ↔ Prime v)

not-Prime : (v d : ℕ) → 2 ≤ d → d < v → v % d ≡ 0 → (false ≡ true) ↔ Prime v
not-Prime v d two lt h = (λ e. absurd (cc e), λ p. absurd (p.1 d two lt h))

square_small : (v d : ℕ) → 3 ≤ d → d * d ≤ v → d < v
square_small v d big le = omega (arith, mul-le-mul_left {m = 3} {n = d} d big)

no_overflow : (d v : ℕ) → 3 ≤ d → (d - 2) * (d - 2) ≤ v → v < 2 ^ 62 → leb (2 ^ 63) (d * d) ≡ false
no_overflow d v big square small = elim (dec_lt d (2 ^ 31 + 2)) [
  | yes lt ↦
      let le : d ≤ 2 ^ 31 + 1 = omega (arith, lt) in
      let prod : d * d ≤ (2 ^ 31 + 1) * (2 ^ 31 + 1) = mul-le-mul le le in ground (arith, prod)
  | no large ↦
      let ge : 2 ^ 31 ≤ d - 2 = omega (arith, large) in
      let prod : 2 ^ 31 * 2 ^ 31 ≤ (d - 2) * (d - 2) = mul-le-mul ge ge in
      absurd (omega (arith, prod, square, small))
]

no_factor-Decides :
    (fuel d v : ℕ)
    → 3 ≤ v
    → v % 2 ≡ 1
    → 3 ≤ d
    → d % 2 ≡ 1
    → (d - 2) * (d - 2) ≤ v
    → Clear d v
    → v + 1 < fuel + d
    → v < 2 ^ 62
    → Decides v (no_factor fuel d v)
unfolding no_factor
no_factor-Decides zero d v three odd big odd_d square c enough small =
    absurd
      (let prod : v * 3 ≤ (d - 2) * (d - 2) = mul-le-mul (omega arith) (omega arith) in omega arith)
no_factor-Decides (suc fuel) d v three odd big odd_d square c enough small =
    let exact : leb (2 ^ 63) (d * d) ≡ false = no_overflow d v big square small in
    elim (Bool-cases (leb (d * d) v)) [
      | inr done ↦
          rw (exact, done)
            (
              true,
              refl,
              ((λ _. Clear-Prime d v (omega arith) (omega arith) (ground arith) c), λ _. refl),
            )
      | inl more ↦ elim (Bool-cases (v % d == 0)) [
        | inl yes_d ↦
            rw (exact, more, yes_d)
              (
                false,
                refl,
                not-Prime v d (omega arith) (square_small v d big (ground arith))
                    ((==_iff (v % d) 0).0 yes_d),
              )
        | inr no_d ↦
            rw (exact, more, no_d)
              (no_factor-Decides fuel (d + 2) v three odd (omega arith) (omega arith)
                (rw (let e : d + 2 - 2 ≡ d = omega arith in e) (ground arith))
                (Clear-step d v odd odd_d (ground arith) c) (omega arith) small)
      ]
    ]

even_Decides : (v : ℕ) → 2 ≤ v → v % 2 ≡ 0 → Decides v (some (v == 2))
even_Decides v two even = elim (ℕ_discrete v 2) [
  | yes same ↦ rw same (true, refl, ((λ _. (omega arith, λ d lo hi _. omega arith)), λ _. refl))
  | no ne ↦ (false, ap some (not_two ne), not-Prime v 2 (omega arith) (omega arith) even)
]
  where
    not_two : v ≢ 2 → (v == 2) ≡ false
    not_two ne = ground arith

-- On every number below 2 ^ 62 is_prime ends without an overflow of d * d, and it is true exactly
-- on the primes: the numbers from 2 on that no number from 2 on below them divides.
pub is_prime-Decides : (v : ℕ) → v < 2 ^ 62 → Decides v (is_prime v)
unfolding is_prime
is_prime-Decides v below = elim (Bool-cases (ltb v 2)) [
  | inl small ↦ rw small (false, refl, (λ e. absurd (cc e), λ p. absurd (ground arith)))
  | inr big ↦ elim (Bool-cases (v % 2 == 0)) [
    | inl even ↦ rw (big, even) (even_Decides v (ground arith) (ground arith))
    | inr odd ↦
        rw (big, odd)
          (no_factor-Decides v 3 v (ground arith) (ground arith) (omega arith) refl (ground arith)
            (λ e two lt h. let h' = rw (let s : e ≡ 2 = omega arith in s) at h in ground arith)
            (omega arith) below)
  ]
]
