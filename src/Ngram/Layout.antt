-- ===== src/Ngram/Layout.antt =====
-- `ngram_geo_compute` of c/src/ngram.c: the tables that it lays out.
use qwen3_8_flash_next.Base.{
  ℕ, ◌+◌, ◌-◌, ◌*◌, ◌%◌, ◌^◌, ◌≤◌, ◌<◌, ◌≡◌, Option, none, some, List, [], ◌∷◌, length, get_or,
  word, All,
}
use qwen3_8_flash_next.Ngram.Ids.{IsGeo}
use qwen3_8_flash_next.Ngram.{
  Geo, sizes_from, half_range, multipliers_from, Computed, aborted, overflowed, unfinished,
  computed,
}

abbrev sum : List ℕ → ℕ
sum [] = 0
sum (size ∷ sizes) = size + sum sizes

-- The tables from an offset on lie one behind the other.
pub record Laid (sizes offsets : List ℕ) (o total : ℕ) : Type 0 where
  pub total_is : total ≡ o + sum sizes
  pub above : (k : ℕ) → k < length sizes → o ≤ get_or offsets k 0
  pub apart :
      (j k : ℕ)
      → j < k
      → k < length sizes
      → get_or offsets j 0 + get_or sizes j 0 ≤ get_or offsets k 0
  pub within : (k : ℕ) → k < length sizes → get_or offsets k 0 + get_or sizes k 0 ≤ total

abbrev Lays : List ℕ → ℕ → Option (List ℕ × ℕ) → Type 0
Lays sizes o none = 2 ^ 63 ≤ o + sum sizes
Lays sizes o (some (offsets, total)) = Laid sizes offsets o total × (total < 2 ^ 63)

-- A number from 2 on, if there is one.
abbrev IsLarge : Option ℕ → Type 0
IsLarge none = Unit
IsLarge (some q) = 2 ≤ q

-- So many sizes, from 2 on.
abbrev Sizes : ℕ → Option (List ℕ) → Type 0
Sizes n none = Unit
Sizes n (some sizes) = (length sizes ≡ n) × All (λ size. 2 ≤ size) sizes

module _ (fuel : ℕ) (g : Geo) (base seed layer : ℕ) where
  abbrev pub wanted_heads : ℕ
  wanted_heads = (g.ngram_size - 1) * g.heads_per_ngram

  -- The sizes that the searches for primes give.
  abbrev wanted_sizes : Option (List ℕ)
  wanted_sizes = sizes_from fuel base wanted_heads (layer * wanted_heads + 0 + 1)

  -- What `ngram_geo_compute` ends with.
  abbrev pub Computes : Computed → Type 0
  Computes aborted = 16 < wanted_heads
  Computes overflowed =
      (wanted_heads ≤ 16) × (sizes : List ℕ) × (wanted_sizes ≡ some sizes) × (2 ^ 63 ≤ sum sizes)
  Computes unfinished = (wanted_heads ≤ 16) × (wanted_sizes ≡ none)
  Computes (computed g') =
      (wanted_heads ≤ 16) × (wanted_sizes ≡ some g'.sizes) × IsGeo g' × (g'.total_rows < 2 ^ 63)

  abbrev with_layout : List ℕ → Option (List ℕ × ℕ) → Computed
  with_layout sizes none = overflowed
  with_layout sizes (some (offsets, total)) = computed (record g {
    ngram_heads = wanted_heads;
    sizes = sizes;
    offsets = offsets;
    total_rows = total;
    multipliers = multipliers_from (seed % word) (half_range g.vocab_size) g.ngram_size 0;
  })
