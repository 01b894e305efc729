-- ===== src/Probe/Walk.antt =====
-- What a probe has passed when it stops, and the invariant of a probed table.
use native.Mathlib.Nat.{mod-lt, mod-add-mod, add-mod_right, mod-eq_of_lt}
use qwen3_8_flash_next.Base.{
  ℕ, zero, suc, ◌+◌, ◌-◌, ◌%◌, ◌^◌, ◌≤◌, ◌<◌, Bool, true, false, Option, none, some, ◌≡◌, sym, ap,
  ◌∙◌, arith, bit_and-mask, pow_two_pos, Option-cases, Bool-cases, inl, inr, ◌⊎◌, leb,
}
use qwen3_8_flash_next.Probe.{Slots, masked, next, probe}

-- The number of slots is a power of two that `size_t` can divide by.
pub record IsPow (n : ℕ) : Type 0 where
  pub exponent : ℕ
  pub fits : exponent ≤ 64
  pub power : n ≡ 2 ^ exponent

pub IsPow-pos : {n : ℕ} → IsPow n → 0 < n
IsPow-pos p = omega (arith, p.power, pow_two_pos p.exponent)

pub masked-eq-mod : {n : ℕ} (x : ℕ) → IsPow n → masked n x ≡ x % n
masked-eq-mod x p = rw p.power (bit_and-mask p.exponent x)

pub next-mod : {n : ℕ} (x : ℕ) → IsPow n → next n (x % n) ≡ (x + 1) % n
next-mod {n} x p = masked-eq-mod (x % n + 1) p ∙ mod-add-mod x n 1

-- A distance below `n` leads from any place to any slot.
pub reaches : (n h z : ℕ) → z < n → (d : ℕ) × (d < n) × ((h + d) % n ≡ z)
reaches n h z lt = elim (Bool-cases (leb (h % n) z)) [
  | inl le ↦ (
    z - h % n,
    omega arith,
    sym (mod-add-mod h n (z - h % n))
        ∙ rw (let e : h % n + (z - h % n) ≡ z = ground arith in e) (mod-eq_of_lt lt),
  )
  | inr gt ↦ (
    z + n - h % n,
    ground arith,
    sym (mod-add-mod h n (z + n - h % n))
        ∙ rw (let e : h % n + (z + n - h % n) ≡ z + n = omega (arith, mod-lt h pos) in e)
            (add-mod_right z n ∙ mod-eq_of_lt lt),
  )
]
  where
    pos : 0 < n
    pos = omega arith

module _ {ℓ} {E : Type ℓ} where
  -- The `d` slots from `h` on are in use, and the search stops at none of them.
  abbrev pub Passes : (E → Bool) → Slots E → ℕ → ℕ → ℕ → Type ℓ
  Passes stop s n h d = (k : ℕ) → k < d → (e : E) × (s ((h + k) % n) ≡ some e) × (stop e ≡ false)

  abbrev pub StopsAt : (E → Bool) → Option E → Type 0
  StopsAt stop none = Unit
  StopsAt stop (some e) = stop e ≡ true

  pub record Walk (stop : E → Bool) (fuel : ℕ) (s : Slots E) (n h : ℕ) : Type ℓ where
    pub steps : ℕ
    pub within : steps < fuel
    pub result : probe stop fuel s n (h % n) ≡ some ((h + steps) % n)
    pub passed : Passes stop s n h steps
    pub stopped : StopsAt stop (s ((h + steps) % n))

  Passes-suc :
      (stop : E → Bool) (s : Slots E) (n h d : ℕ) (e : E)
      → s (h % n) ≡ some e
      → stop e ≡ false
      → Passes stop s n (h + 1) d
      → Passes stop s n h (suc d)
  Passes-suc stop s n h d e at no_stop rest zero lt =
      (e, rw (let z : h + zero ≡ h = omega arith in z) at, no_stop)
  Passes-suc stop s n h d e at no_stop rest (suc k) lt =
      rw (let z : h + suc k ≡ h + 1 + k = omega arith in z) (rest k (omega arith))

  probe_free :
      (stop : E → Bool) (fuel : ℕ) (s : Slots E) (n i : ℕ)
      → s i ≡ none
      → probe stop (suc fuel) s n i ≡ some i
  unfolding probe
  probe_free stop fuel s n i free = rw (free, probe)

  probe_hit :
      (stop : E → Bool) (fuel : ℕ) (s : Slots E) (n i : ℕ) (e : E)
      → s i ≡ some e
      → stop e ≡ true
      → probe stop (suc fuel) s n i ≡ some i
  unfolding probe
  probe_hit stop fuel s n i e at found = rw (at, probe, found)

  probe_miss :
      (stop : E → Bool) (fuel : ℕ) (s : Slots E) (n i : ℕ) (e : E)
      → s i ≡ some e
      → stop e ≡ false
      → probe stop (suc fuel) s n i ≡ probe stop fuel s n (next n i)
  unfolding probe
  probe_miss stop fuel s n i e at other = rw (at, probe, other)

  -- A probe stops at the first slot that is free or holds what it looks for, or passes as many
  -- slots as it has fuel.
  pub probe-Walk :
      (stop : E → Bool) (fuel : ℕ) (s : Slots E) (n h : ℕ)
      → IsPow n
      → Walk stop fuel s n h ⊎ Passes stop s n h fuel
  unfolding probe
  probe-Walk stop zero s n h p = inr (λ k lt. elim lt [ ])
  probe-Walk stop (suc fuel) s n h p = elim (Option-cases (s (h % n))) [
    | inl free ↦ inl (stop_here (probe_free stop fuel s n (h % n) free) (rw free tt))
    | inr (e, at) ↦ elim (Bool-cases (stop e)) [
      | inl found ↦ inl (stop_here (probe_hit stop fuel s n (h % n) e at found) (rw at found))
      | inr other ↦ elim (probe-Walk stop fuel s n (h + 1) p) [
        | inl w ↦ inl (record {
          steps = suc w.steps;
          within = omega (arith, w.within);
          result =
              probe_miss stop fuel s n (h % n) e at other
              ∙ rw (next-mod h p, w.result) (ap (λ x. some (x % n)) (shift w.steps));
          passed = Passes-suc stop s n h w.steps e at other w.passed;
          stopped = rw (← shift w.steps) w.stopped;
        })
        | inr all ↦ inr (Passes-suc stop s n h fuel e at other all)
      ]
    ]
  ]
    where
      shift : (k : ℕ) → h + 1 + k ≡ h + suc k
      shift k = omega arith

      zeroth : h + 0 ≡ h
      zeroth = omega arith

      stop_here :
          probe stop (suc fuel) s n (h % n) ≡ some (h % n)
          → StopsAt stop (s (h % n))
          → Walk stop (suc fuel) s n h
      stop_here r st = record {
        steps = 0;
        within = omega arith;
        result = rw zeroth r;
        passed = λ k lt. elim lt [ ];
        stopped = rw zeroth st;
      }
