-- ===== src/Ngram/Tests.antt =====
-- Runs of the n-gram code on small numbers.
use qwen3_8_flash_next.Base.{
  ℕ, zero, suc, ◌+◌, ◌≤◌, ◌<◌, ◌≡◌, refl, arith, some, List, [], ◌∷◌, get_or,
}
use qwen3_8_flash_next.Ngram.Ids.{IsGeo, IsTable, Filled, Elsewhere, indices-Filled}
use qwen3_8_flash_next.Ngram.Prime.{Decides, is_prime-Decides}
use qwen3_8_flash_next.Ngram.{
  Geo, Computed, computed, geo_compute, is_prime, nth_prime_after, indices,
}

abbrev pairs : Geo
pairs = record {
  ngram_size = 3;
  heads_per_ngram = 1;
  ngram_heads = 2;
  vocab_size = 100;
  eos_token_id = 2;
  sizes = 11 ∷ 13 ∷ [];
  offsets = 0 ∷ 11 ∷ [];
  total_rows = 24;
  multipliers = 1 ∷ 3 ∷ 9 ∷ [];
}

abbrev tokens : List ℕ
tokens = 5 ∷ 2 ∷ 7 ∷ []

abbrev blank : ℕ → ℕ
blank p = 0

abbrev first_seven : (ℕ → ℕ) → List ℕ
first_seven out = out 0 ∷ out 1 ∷ out 2 ∷ out 3 ∷ out 4 ∷ out 5 ∷ out 6 ∷ []

-- The tokens 5, 2 (the eos token) and 7, mixed with the multipliers 1, 3 and 9.
three_rows : first_seven (indices pairs tokens blank) ≡ 3 ∷ 15 ∷ 2 ∷ 16 ∷ 1 ∷ 17 ∷ 0 ∷ []
unfolding indices
three_rows = refl

seventh : nth_prime_after 20 10 3 ≡ some 17
unfolding nth_prime_after
seventh = refl

is_prime-Decides_example : Decides 91 (is_prime 91)
is_prime-Decides_example = is_prime-Decides 91 (omega arith)

pairs-IsGeo : IsGeo pairs
pairs-IsGeo = record {
  heads_are = refl;
  few_heads = omega arith;
  tables = tables;
  apart = apart;
  within = within;
  all_multipliers = refl;
}
  where
    tables : (k : ℕ) → k < 2 → IsTable pairs k
    tables zero lt = (omega arith, omega arith)
    tables (suc zero) lt = (omega arith, omega arith)
    tables (suc (suc k)) lt = absurd (omega arith)

    apart :
        (j k : ℕ)
        → j < k
        → k < 2
        → get_or pairs.offsets j 0 + get_or pairs.sizes j 0 ≤ get_or pairs.offsets k 0
    apart j zero lt le = absurd (omega arith)
    apart zero (suc zero) lt le = omega arith
    apart (suc j) (suc zero) lt le = absurd (omega arith)
    apart j (suc (suc k)) lt le = absurd (omega arith)

    within : (k : ℕ) → k < 2 → get_or pairs.offsets k 0 + get_or pairs.sizes k 0 ≤ 24
    within zero lt = omega arith
    within (suc zero) lt = omega arith
    within (suc (suc k)) lt = absurd (omega arith)

indices-Filled_example :
    Filled pairs pairs-IsGeo 0 3 (indices pairs tokens blank)
    × Elsewhere pairs pairs-IsGeo 0 3 blank (indices pairs tokens blank)
indices-Filled_example = indices-Filled pairs pairs-IsGeo tokens blank

abbrev lone : Geo
lone = record pairs { sizes = []; offsets = []; multipliers = [] }

abbrev total_of : Computed → ℕ
total_of (computed g) = g.total_rows
total_of _ = 0

two_tables : total_of (geo_compute 20 lone 11 7 0) ≡ 24
unfolding geo_compute
two_tables = refl
