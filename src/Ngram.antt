-- ===== src/Ngram.antt =====
-- c/src/ngram.c: the geometry of the n-gram embedding tables and the rows that a sequence of
-- tokens reads. An `int64_t` that is multiplied, xored or added to an offset is its 64-bit pattern;
-- the others are not negative, and the n-gram and base sizes are at least 1.
pub mod Prime
pub mod Ids
pub mod Layout
mod Tests
use qwen3_8_flash_next.Base.{
  ℕ, zero, suc, ◌+◌, ◌-◌, ◌*◌, ◌/◌, ◌%◌, ◌^◌, bit_xor, Bool, true, false, ◌||◌, ◌&&◌, not, Option,
  none, some, List, [], ◌∷◌, ◌++◌, ◌==◌, ltb, leb, if◌then◌else◌, word, length, get_or, add64,
  mul64,
}

unfoldable pub splitmix64 : ℕ → ℕ
splitmix64 v =
    let v1 = add64 v 0x9E3779B97F4A7C15 in
    let v2 = mul64 (bit_xor v1 (v1 / 2 ^ 30)) 0xBF58476D1CE4E5B9 in
    let v3 = mul64 (bit_xor v2 (v2 / 2 ^ 27)) 0x94D049BB133111EB in bit_xor v3 (v3 / 2 ^ 31)

-- `for (d = 3; d * d <= v; d += 2)`; `none` is an overflow of d * d, or a lack of fuel.
unfoldable pub no_factor : ℕ → ℕ → ℕ → Option Bool
no_factor zero d v = none
no_factor (suc fuel) d v =
    let rest = no_factor fuel (d + 2) v in
    if leb (2 ^ 63) (d * d)
    then none
    else if leb (d * d) v
    then (if v % d == 0 then some false else rest)
    else some true

unfoldable pub is_prime : ℕ → Option Bool
unfolding no_factor
is_prime v = if ltb v 2 then some false else if v % 2 == 0 then some (v == 2) else no_factor v 3 v

-- `while (!is_prime(p)) p++;`
unfoldable pub next_prime : ℕ → ℕ → Option ℕ
unfolding is_prime
next_prime zero p = none
next_prime (suc fuel) p =
    let rest = next_prime fuel (p + 1) in
    elim (is_prime p) [ none ↦ none | some b ↦ if b then some p else rest ]

-- `fuel` is that of each search for the next prime.
unfoldable pub nth_prime_after : ℕ → ℕ → ℕ → Option ℕ
unfolding next_prime
nth_prime_after fuel p zero = some p
nth_prime_after fuel p (suc count) = elim (next_prime fuel (p + 1)) [
  | none ↦ none
  | some q ↦ nth_prime_after fuel q count
]

pub record Geo : Type 0 where
  pub ngram_size : ℕ
  pub heads_per_ngram : ℕ
  pub ngram_heads : ℕ
  pub vocab_size : ℕ
  pub eos_token_id : ℕ
  pub sizes : List ℕ
  pub offsets : List ℕ
  pub total_rows : ℕ
  pub multipliers : List ℕ

-- The loop over the heads: `index` is `ple_layer_index * g->ngram_heads + h + 1`.
unfoldable pub sizes_from : ℕ → ℕ → ℕ → ℕ → Option (List ℕ)
unfolding nth_prime_after
sizes_from fuel base zero index = some []
sizes_from fuel base (suc left) index = elim (nth_prime_after fuel (base - 1) index) [
  | none ↦ none
  | some size ↦ elim (sizes_from fuel base left (index + 1)) [
    | none ↦ none
    | some rest ↦ some (size ∷ rest)
  ]
]

-- The offsets and `total_rows`; `none` is an overflow of `offset += size`.
unfoldable pub offsets_from : List ℕ → ℕ → Option (List ℕ × ℕ)
offsets_from [] offset = some ([], offset)
offsets_from (size ∷ sizes) offset =
    let rest = offsets_from sizes (offset + size) in
    if leb (2 ^ 63) (offset + size)
    then none
    else elim rest [ none ↦ none | some (offsets, total) ↦ some (offset ∷ offsets, total) ]

unfoldable pub half_range : ℕ → ℕ
half_range vocab_size =
    let half = (2 ^ 63 - 1) / (if ltb 0 vocab_size then vocab_size else 1) / 2 in
    if ltb half 1 then 1 else half

unfoldable pub multipliers_from : ℕ → ℕ → ℕ → ℕ → List ℕ
unfolding splitmix64
multipliers_from s half zero i = []
multipliers_from s half (suc left) i =
    let v = add64 s (mul64 0x9E3779B97F4A7C15 (i + 1)) in
    (2 * (splitmix64 v % half) + 1) ∷ multipliers_from s half left (i + 1)

-- How `ngram_geo_compute` ends: with `abort`, with an overflow of an offset, without a size (out of
-- fuel, or an overflow in `is_prime`), or with the geometry.
pub data Computed : Type 0 where
  aborted overflowed unfinished : Computed
  computed : Geo → Computed

unfoldable pub geo_compute : ℕ → Geo → ℕ → ℕ → ℕ → Computed
unfolding sizes_from offsets_from half_range multipliers_from
geo_compute fuel g base seed layer =
    let heads = (g.ngram_size - 1) * g.heads_per_ngram in
    let sizes? = sizes_from fuel base heads (layer * heads + 0 + 1) in
    if ltb 16 heads then aborted else elim sizes? [
      | none ↦ unfinished
      | some sizes ↦ elim (offsets_from sizes 0) [
        | none ↦ overflowed
        | some (offsets, total) ↦ computed (record g {
          ngram_heads = heads;
          sizes = sizes;
          offsets = offsets;
          total_rows = total;
          multipliers = multipliers_from (seed % word) (half_range g.vocab_size) g.ngram_size 0;
        })
      ]
    ]

-- `prev[t] + 1` for each token: one more than the place of the last eos token before it.
unfoldable pub starts : ℕ → List ℕ → ℕ → ℕ → List ℕ
starts eos [] t start = []
starts eos (x ∷ xs) t start = start ∷ starts eos xs (t + 1) (if x == eos then t + 1 else start)

-- The token `q` places back, or the eos token where that is before the start.
unfoldable pub token_back : Geo → List ℕ → ℕ → ℕ → ℕ → ℕ
token_back g tokens start t q =
    if leb q t && leb (start + q) t then get_or tokens (t - q) 0 else g.eos_token_id

-- `for (q = 0; q <= p; q++) mixed ^= tok * multipliers[q];`
unfoldable pub mix : Geo → List ℕ → ℕ → ℕ → ℕ → ℕ → ℕ → ℕ
unfolding token_back
mix g tokens start t zero q mixed = mixed
mix g tokens start t (suc left) q mixed =
    mix g tokens start t left (q + 1)
      (bit_xor mixed (mul64 (token_back g tokens start t q) (get_or g.multipliers q 0)))

-- `m = mixed % size; if (m < 0) m += size;` on `int64_t`: `pos n` is n, `negsuc n` is -(n + 1).
pub data ℤ : Type 0 where
  pos negsuc : ℕ → ℤ

unfoldable pub signed_mod : ℕ → ℕ → ℤ
signed_mod mixed size =
    if ltb mixed (2 ^ 63)
    then pos (mixed % size)
    else let r = (2 ^ 64 - mixed) % size in if r == 0 then pos 0 else negsuc (r - 1)

unfoldable pub wrap : ℤ → ℕ → ℕ
wrap (pos m) size = m
wrap (negsuc m) size = size - suc m

-- The loop over the heads of one order.
unfoldable pub head_ids : Geo → ℕ → ℕ → ℕ → List ℕ
unfolding wrap signed_mod
head_ids g mixed zero head = []
head_ids g mixed (suc left) head =
    let size = get_or g.sizes head 0 in
    add64 (wrap (signed_mod mixed size) size) (get_or g.offsets head 0)
    ∷ head_ids g mixed left (head + 1)

-- `for (p = 1; p < g->ngram_size; p++)` at one token: the row `o`.
unfoldable pub row_from : Geo → List ℕ → ℕ → ℕ → ℕ → ℕ → List ℕ
unfolding mix head_ids
row_from g tokens start t zero p = []
row_from g tokens start t (suc left) p =
    let mixed = mix g tokens start t (p + 1) 0 0 in
    head_ids g mixed g.heads_per_ngram ((p - 1) * g.heads_per_ngram)
    ++ row_from g tokens start t left (p + 1)

-- `o[head] = ...` for the heads in order, with `o` at the place `at` of `out`.
unfoldable pub store_row : (ℕ → ℕ) → ℕ → List ℕ → ℕ → ℕ
store_row out at [] = out
store_row out at (v ∷ row) = store_row (λ i. if i == at then v else out i) (at + 1) row

-- The loop over the tokens; `o` is `out + t * g->ngram_heads`.
unfoldable pub rows_from : Geo → List ℕ → List ℕ → ℕ → (ℕ → ℕ) → ℕ → ℕ
unfolding row_from store_row
rows_from g tokens [] t out = out
rows_from g tokens (start ∷ more) t out =
    rows_from g tokens more (t + 1)
      (store_row out (t * g.ngram_heads) (row_from g tokens start t (g.ngram_size - 1) 1))

unfoldable pub indices : Geo → List ℕ → (ℕ → ℕ) → ℕ → ℕ
unfolding starts rows_from
indices g tokens out = rows_from g tokens (starts g.eos_token_id tokens 0 0) 0 out
